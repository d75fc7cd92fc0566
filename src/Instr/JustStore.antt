-- ===== src/Instr/JustStore.antt =====
-- The blocks of util/instr_just.h that only move one way: stores with `vmovdqa`, the source's names
-- without the leading underscore. Nothing is loaded, so `%rsi` is not used: what a register holds is stored.
use hlfs.Common.{[], ◌∷◌, ℕ, Option}
use hlfs.Machine.{State}
use hlfs.Instr.{xmm, ymm, store, asm}

unfoldable pub just_16b_store_noflush : (dest : ℕ) → State → Option State
just_16b_store_noflush dest = asm (store xmm 0 0 ∷ []) 0 dest

unfoldable pub just_32b_store_noflush : (dest : ℕ) → State → Option State
just_32b_store_noflush dest = asm (store ymm 0 0 ∷ []) 0 dest

unfoldable pub just_2x32b_store_noflush : (dest : ℕ) → State → Option State
just_2x32b_store_noflush dest = asm (store ymm 0 0 ∷ store ymm 1 1 ∷ []) 0 dest

unfoldable pub just_4x32b_store_noflush : (dest : ℕ) → State → Option State
just_4x32b_store_noflush dest =
    asm (store ymm 0 0 ∷ store ymm 1 1 ∷ store ymm 2 2 ∷ store ymm 3 3 ∷ []) 0 dest

unfoldable pub just_8x32b_store_noflush : (dest : ℕ) → State → Option State
just_8x32b_store_noflush dest =
    asm
      (store ymm 0 0
        ∷ store ymm 1 1
        ∷ store ymm 2 2
        ∷ store ymm 3 3
        ∷ store ymm 4 4
        ∷ store ymm 5 5
        ∷ store ymm 6 6
        ∷ store ymm 7 7
        ∷ [])
      0 dest

unfoldable pub just_16x32b_store_noflush : (dest : ℕ) → State → Option State
just_16x32b_store_noflush dest =
    asm
      (store ymm 0 0
        ∷ store ymm 1 1
        ∷ store ymm 2 2
        ∷ store ymm 3 3
        ∷ store ymm 4 4
        ∷ store ymm 5 5
        ∷ store ymm 6 6
        ∷ store ymm 7 7
        ∷ store ymm 8 8
        ∷ store ymm 9 9
        ∷ store ymm 10 10
        ∷ store ymm 11 11
        ∷ store ymm 12 12
        ∷ store ymm 13 13
        ∷ store ymm 14 14
        ∷ store ymm 15 15
        ∷ [])
      0 dest
