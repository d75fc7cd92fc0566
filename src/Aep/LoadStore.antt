-- ===== src/Aep/LoadStore.antt =====
-- The blocks of util/instr.h that load and store inside a larger copy.
use native.Mathlib.Nat.{add-zero}
use hlfs.Common.{ℕ, ◌+◌, ◌*◌, ◌≤◌, ◌<◌, ◌≡◌, refl, arith}
use hlfs.Machine.{State}
use hlfs.Walk.Sound.{Near, Whole, Steps, NearSteps, WholeSteps}
use hlfs.Instr.{Instr, xmm, ymm, move_in, exec}
use hlfs.Instr.Copies.{IsVectorCopy, Copied, copy_noflush, copy_flush, copy_16_noflush}
use hlfs.Aep.Small.{cpy_less_16b-Copied}
use hlfs.Instr.LoadStore.{
  cpy_16b_load_store_noflush, cpy_32b_load_store_noflush, cpy_2x32b_load_store_noflush,
  cpy_4x32b_load_store_noflush, cpy_8x32b_load_store_noflush, cpy_16x32b_load_store_noflush,
  cpy_2x32b_load_store_flush, cpy_4x32b_load_store_flush, cpy_8x32b_load_store_flush,
  cpy_16x32b_load_store_flush,
}
use hlfs.Aep.{cpy_less_16b_noflush, load_store_noflush, load_store_flush}

module _ {s₀ : State} {dest src len : ℕ} (job : IsVectorCopy s₀ dest src len) where
  abbrev Load : ℕ → Instr
  Load k = Instr.load ymm k k

  module _ (off : ℕ) where
    moves :
        (k : ℕ) (s : State)
        → exec (src + off) (dest + off) (Load k) s ≡ move_in (src + off + k * 32) ymm k s
    unfolding exec
    moves k s = refl

    moves_16 :
        (s : State)
        → exec (src + off) (dest + off) (Instr.load xmm 0 0) s ≡ move_in (src + off) xmm 0 s
    unfolding exec
    moves_16 s = rw add-zero

  -- The blocks that may leave a line in the cache, inside any window that the call lies in.
  module _ (t lo hi : ℕ)
      (fits : (al off n : ℕ)
        → Near dest len t al off n
        → (lo ≤ dest + off) × (dest + off + n ≤ hi)) where
    small :
        (n : ℕ)
        → n < 16
        → Steps
            (λ off. Near dest len t 1 off n)
            (Copied s₀ dest src lo hi)
            n
            (λ off. cpy_less_16b_noflush (dest + off) (src + off) n)
    small n lt off s near w =
        cpy_less_16b-Copied job.copy w n lt near.room (fits 1 off n near).0 (fits 1 off n near).1

    k16 :
        Steps
          (λ off. Near dest len t 16 off 16)
          (Copied s₀ dest src lo hi)
          16
          (λ off. cpy_16b_load_store_noflush (dest + off) (src + off))
    unfolding cpy_16b_load_store_noflush
    k16 off s near w =
        copy_16_noflush job off near.even near.room w (Instr.load xmm 0 0) (moves_16 off s)
          (fits 16 off 16 near).0 (fits 16 off 16 near).1

    k32 :
        Steps
          (λ off. Near dest len t 32 off 32)
          (Copied s₀ dest src lo hi)
          32
          (λ off. cpy_32b_load_store_noflush (dest + off) (src + off))
    unfolding cpy_32b_load_store_noflush
    k32 off s near w =
        copy_noflush job off 1 near.even near.room Load (moves off) w (fits 32 off 32 near).0
          (fits 32 off 32 near).1

    pub near_noflush : NearSteps dest len t (Copied s₀ dest src lo hi) (load_store_noflush dest src)
    near_noflush = record { small = small; k16 = k16; k32 = k32 }

    pub near_flush : NearSteps dest len t (Copied s₀ dest src lo hi) (load_store_flush dest src)
    near_flush = record { small = small; k16 = k16; k32 = k32 }

  -- The blocks of whole lines, in the window that is the whole destination.
  noflush_2x32 :
      Steps
        (λ off. Whole dest len off 64)
        (Copied s₀ dest src dest (dest + len))
        64
        (λ off. cpy_2x32b_load_store_noflush (dest + off) (src + off))
  unfolding cpy_2x32b_load_store_noflush
  noflush_2x32 off s whole w =
      copy_noflush job off 2 (omega (arith, whole.even)) whole.room Load (moves off) w (omega arith)
        (omega (arith, whole.room))

  noflush_4x32 :
      Steps
        (λ off. Whole dest len off 128)
        (Copied s₀ dest src dest (dest + len))
        128
        (λ off. cpy_4x32b_load_store_noflush (dest + off) (src + off))
  unfolding cpy_4x32b_load_store_noflush
  noflush_4x32 off s whole w =
      copy_noflush job off 4 (omega (arith, whole.even)) whole.room Load (moves off) w (omega arith)
        (omega (arith, whole.room))

  noflush_8x32 :
      Steps
        (λ off. Whole dest len off 256)
        (Copied s₀ dest src dest (dest + len))
        256
        (λ off. cpy_8x32b_load_store_noflush (dest + off) (src + off))
  unfolding cpy_8x32b_load_store_noflush
  noflush_8x32 off s whole w =
      copy_noflush job off 8 (omega (arith, whole.even)) whole.room Load (moves off) w (omega arith)
        (omega (arith, whole.room))

  noflush_16x32 :
      Steps
        (λ off. Whole dest len off 512)
        (Copied s₀ dest src dest (dest + len))
        512
        (λ off. cpy_16x32b_load_store_noflush (dest + off) (src + off))
  unfolding cpy_16x32b_load_store_noflush
  noflush_16x32 off s whole w =
      copy_noflush job off 16 (omega (arith, whole.even)) whole.room Load (moves off) w
        (omega arith) (omega (arith, whole.room))

  pub whole_noflush :
      WholeSteps dest len (Copied s₀ dest src dest (dest + len)) (load_store_noflush dest src)
  whole_noflush = record {
    k2x32 = noflush_2x32;
    k4x32 = noflush_4x32;
    k8x32 = noflush_8x32;
    k16x32 = noflush_16x32;
  }

  -- The blocks that write back what they write.
  flush_2x32 :
      Steps
        (λ off. Whole dest len off 64)
        (Copied s₀ dest src 0 0)
        64
        (λ off. cpy_2x32b_load_store_flush (dest + off) (src + off))
  unfolding cpy_2x32b_load_store_flush
  flush_2x32 off s whole w =
      copy_flush job off 2 (omega (arith, whole.even)) whole.room Load (moves off) w 1 refl
        whole.even (refl, refl)

  flush_4x32 :
      Steps
        (λ off. Whole dest len off 128)
        (Copied s₀ dest src 0 0)
        128
        (λ off. cpy_4x32b_load_store_flush (dest + off) (src + off))
  unfolding cpy_4x32b_load_store_flush
  flush_4x32 off s whole w =
      copy_flush job off 4 (omega (arith, whole.even)) whole.room Load (moves off) w 2 refl
        whole.even (refl, refl)

  flush_8x32 :
      Steps
        (λ off. Whole dest len off 256)
        (Copied s₀ dest src 0 0)
        256
        (λ off. cpy_8x32b_load_store_flush (dest + off) (src + off))
  unfolding cpy_8x32b_load_store_flush
  flush_8x32 off s whole w =
      copy_flush job off 8 (omega (arith, whole.even)) whole.room Load (moves off) w 4 refl
        whole.even (refl, refl)

  flush_16x32 :
      Steps
        (λ off. Whole dest len off 512)
        (Copied s₀ dest src 0 0)
        512
        (λ off. cpy_16x32b_load_store_flush (dest + off) (src + off))
  unfolding cpy_16x32b_load_store_flush
  flush_16x32 off s whole w =
      copy_flush job off 16 (omega (arith, whole.even)) whole.room Load (moves off) w 8 refl
        whole.even (refl, refl)

  pub whole_flush : WholeSteps dest len (Copied s₀ dest src 0 0) (load_store_flush dest src)
  whole_flush = record {
    k2x32 = flush_2x32;
    k4x32 = flush_4x32;
    k8x32 = flush_8x32;
    k16x32 = flush_16x32;
  }
