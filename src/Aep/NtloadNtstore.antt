-- ===== src/Aep/NtloadNtstore.antt =====
-- The blocks of util/instr.h that ntload and store past the cache inside a larger copy.
use native.Mathlib.Nat.{add-zero}
use hlfs.Common.{ℕ, ◌+◌, ◌*◌, ◌%◌, ◌≤◌, ◌≡◌, refl, arith}
use hlfs.Machine.{State}
use hlfs.Walk.Sound.{Whole, Steps, WholeSteps}
use hlfs.Instr.{Instr, xmm, ymm, move_in, exec}
use hlfs.Instr.Copies.{IsVectorCopy, Copied, copy_nt, copy_16_nt}
use hlfs.Instr.NtloadNtstore.{
  cpy_16b_ntload_ntstore, cpy_32b_ntload_ntstore, cpy_2x32b_ntload_ntstore,
  cpy_4x32b_ntload_ntstore, cpy_8x32b_ntload_ntstore, cpy_16x32b_ntload_ntstore,
}
use hlfs.Aep.{ntload_ntstore}

module _ {s₀ : State} {dest src len : ℕ} (job : IsVectorCopy s₀ dest src len) where
  abbrev Load : ℕ → Instr
  Load k = Instr.ntload ymm k k

  module _ (off : ℕ) where
    moves :
        (k : ℕ) (s : State)
        → exec (src + off) (dest + off) (Load k) s ≡ move_in (src + off + k * 32) ymm k s
    unfolding exec
    moves k s = refl

    moves_16 :
        (s : State)
        → exec (src + off) (dest + off) (Instr.ntload xmm 0 0) s ≡ move_in (src + off) xmm 0 s
    unfolding exec
    moves_16 s = rw add-zero

  pub k16 :
      Steps
        (λ off. (off + 16 ≤ len) × ((dest + off) % 16 ≡ 0))
        (Copied s₀ dest src 0 0)
        16
        ((ntload_ntstore dest src).k16)
  unfolding cpy_16b_ntload_ntstore
  k16 off s (room, even) w = copy_16_nt job off even room w (Instr.ntload xmm 0 0) (moves_16 off s)

  pub k32 :
      Steps
        (λ off. (off + 32 ≤ len) × ((dest + off) % 32 ≡ 0))
        (Copied s₀ dest src 0 0)
        32
        ((ntload_ntstore dest src).k32)
  unfolding cpy_32b_ntload_ntstore
  k32 off s (room, even) w = copy_nt job off 1 even room Load (moves off) w

  nt_2x32 :
      Steps
        (λ off. Whole dest len off 64)
        (Copied s₀ dest src 0 0)
        64
        (λ off. cpy_2x32b_ntload_ntstore (dest + off) (src + off))
  unfolding cpy_2x32b_ntload_ntstore
  nt_2x32 off s whole w =
      copy_nt job off 2 (omega (arith, whole.even)) whole.room Load (moves off) w

  nt_4x32 :
      Steps
        (λ off. Whole dest len off 128)
        (Copied s₀ dest src 0 0)
        128
        (λ off. cpy_4x32b_ntload_ntstore (dest + off) (src + off))
  unfolding cpy_4x32b_ntload_ntstore
  nt_4x32 off s whole w =
      copy_nt job off 4 (omega (arith, whole.even)) whole.room Load (moves off) w

  nt_8x32 :
      Steps
        (λ off. Whole dest len off 256)
        (Copied s₀ dest src 0 0)
        256
        (λ off. cpy_8x32b_ntload_ntstore (dest + off) (src + off))
  unfolding cpy_8x32b_ntload_ntstore
  nt_8x32 off s whole w =
      copy_nt job off 8 (omega (arith, whole.even)) whole.room Load (moves off) w

  nt_16x32 :
      Steps
        (λ off. Whole dest len off 512)
        (Copied s₀ dest src 0 0)
        512
        (λ off. cpy_16x32b_ntload_ntstore (dest + off) (src + off))
  unfolding cpy_16x32b_ntload_ntstore
  nt_16x32 off s whole w =
      copy_nt job off 16 (omega (arith, whole.even)) whole.room Load (moves off) w

  pub whole_nt : WholeSteps dest len (Copied s₀ dest src 0 0) (ntload_ntstore dest src)
  whole_nt = record { k2x32 = nt_2x32; k4x32 = nt_4x32; k8x32 = nt_8x32; k16x32 = nt_16x32 }
