-- ===== src/AepJust/Load.antt =====
-- The routines of util/aep_just.h that read a buffer, from end to end.
use native.Mathlib.Nat.{add-zero}
use hlfs.Common.{ℕ, ◌+◌, refl, arith, Returns, bind}
use hlfs.Machine.{State}
use hlfs.Machine.Wrote.{Mapped}
use hlfs.Instr.{Instr, ymm, exec, asm}
use hlfs.Instr.JustLoad.{
  just_16b_load, just_32b_load, just_2x32b_load, just_4x32b_load, just_8x32b_load, just_16x32b_load,
}
use hlfs.Instr.JustNtload.{
  just_16b_ntload, just_32b_ntload, just_2x32b_ntload, just_4x32b_ntload, just_8x32b_ntload,
  just_16x32b_ntload,
}
use hlfs.Walk.Sound.{NearSteps, WholeSteps}
use hlfs.Walk.Routines.{walk-total}
use hlfs.AepJust.{load_blocks, ntload_blocks, just_load, just_ntload}
use hlfs.AepJust.Read.{Same, just_less_16b_load-Same, loads-Same, load_16-Same}

module _ {s₀ : State} (src len : ℕ) (from : Mapped s₀ src len) where
  load_near : (t : ℕ) → NearSteps src len t (λ off. Same s₀) (load_blocks src)
  unfolding just_16b_load just_32b_load exec asm
  load_near t = record {
    small = λ n lt off u near same.
        just_less_16b_load-Same src len from n (src + off) lt (omega arith)
          (omega (arith, near.room)) same;
    k16 = λ off u near same.
        rw add-zero
          (bind (load_16-Same src len from off near.even near.room same) λ v q. (v, refl, q));
    k32 = λ off u near same.
        loads-Same src len from (λ k. Instr.load ymm k k) 1 off (λ k s. refl) near.even near.room
          same;
  }

  load_whole : WholeSteps src len (λ off. Same s₀) (load_blocks src)
  unfolding just_2x32b_load just_4x32b_load just_8x32b_load just_16x32b_load exec
  load_whole = record {
    k2x32 = λ off u whole.
        loads-Same src len from (λ k. Instr.load ymm k k) 2 off (λ k s. refl)
          (omega (arith, whole.even)) whole.room;
    k4x32 = λ off u whole.
        loads-Same src len from (λ k. Instr.load ymm k k) 4 off (λ k s. refl)
          (omega (arith, whole.even)) whole.room;
    k8x32 = λ off u whole.
        loads-Same src len from (λ k. Instr.load ymm k k) 8 off (λ k s. refl)
          (omega (arith, whole.even)) whole.room;
    k16x32 = λ off u whole.
        loads-Same src len from (λ k. Instr.load ymm k k) 16 off (λ k s. refl)
          (omega (arith, whole.even)) whole.room;
  }

  ntload_near : (t : ℕ) → NearSteps src len t (λ off. Same s₀) (ntload_blocks src)
  unfolding just_16b_ntload just_32b_ntload exec asm
  ntload_near t = record {
    small = λ n lt off u near same.
        just_less_16b_load-Same src len from n (src + off) lt (omega arith)
          (omega (arith, near.room)) same;
    k16 = λ off u near same.
        rw add-zero
          (bind (load_16-Same src len from off near.even near.room same) λ v q. (v, refl, q));
    k32 = λ off u near same.
        loads-Same src len from (λ k. Instr.ntload ymm k k) 1 off (λ k s. refl) near.even near.room
          same;
  }

  ntload_whole : WholeSteps src len (λ off. Same s₀) (ntload_blocks src)
  unfolding just_2x32b_ntload just_4x32b_ntload just_8x32b_ntload just_16x32b_ntload exec
  ntload_whole = record {
    k2x32 = λ off u whole.
        loads-Same src len from (λ k. Instr.ntload ymm k k) 2 off (λ k s. refl)
          (omega (arith, whole.even)) whole.room;
    k4x32 = λ off u whole.
        loads-Same src len from (λ k. Instr.ntload ymm k k) 4 off (λ k s. refl)
          (omega (arith, whole.even)) whole.room;
    k8x32 = λ off u whole.
        loads-Same src len from (λ k. Instr.ntload ymm k k) 8 off (λ k s. refl)
          (omega (arith, whole.even)) whole.room;
    k16x32 = λ off u whole.
        loads-Same src len from (λ k. Instr.ntload ymm k k) 16 off (λ k s. refl)
          (omega (arith, whole.even)) whole.room;
  }

-- just_load, on a buffer whose pages are present and wherever it lies, returns without a fault,
-- and leaves memory, the cache and the pages as they were.
pub just_load-Same :
    {s : State} (src len : ℕ) → Mapped s src len → Returns (Same s) (just_load src len s)
unfolding just_load
just_load-Same {s} src len from =
    walk-total src len (load_blocks src) s (λ off. Same s) (load_near src len from)
      (load_whole src len from)
      (record { mem = λ x. refl; status = λ x. refl; present = λ p. refl })

-- just_ntload, on a buffer whose pages are present and wherever it lies, returns without a fault,
-- and leaves memory, the cache and the pages as they were.
pub just_ntload-Same :
    {s : State} (src len : ℕ) → Mapped s src len → Returns (Same s) (just_ntload src len s)
unfolding just_ntload
just_ntload-Same {s} src len from =
    walk-total src len (ntload_blocks src) s (λ off. Same s) (ntload_near src len from)
      (ntload_whole src len from)
      (record { mem = λ x. refl; status = λ x. refl; present = λ p. refl })
