-- ===== src/Instr/JustNtstore.antt =====
-- The blocks of util/instr_just.h that only move one way: stores with `vmovntpd`, the source's names
-- without the leading underscore. Nothing is loaded, so `%rsi` is not used: what a register holds is stored.
use hlfs.Common.{[], ◌∷◌, ℕ, Option}
use hlfs.Machine.{State}
use hlfs.Instr.{xmm, ymm, ntstore, asm}

unfoldable pub just_16b_ntstore : (dest : ℕ) → State → Option State
just_16b_ntstore dest = asm (ntstore xmm 0 0 ∷ []) 0 dest

unfoldable pub just_32b_ntstore : (dest : ℕ) → State → Option State
just_32b_ntstore dest = asm (ntstore ymm 0 0 ∷ []) 0 dest

unfoldable pub just_2x32b_ntstore : (dest : ℕ) → State → Option State
just_2x32b_ntstore dest = asm (ntstore ymm 0 0 ∷ ntstore ymm 1 1 ∷ []) 0 dest

unfoldable pub just_4x32b_ntstore : (dest : ℕ) → State → Option State
just_4x32b_ntstore dest =
    asm (ntstore ymm 0 0 ∷ ntstore ymm 1 1 ∷ ntstore ymm 2 2 ∷ ntstore ymm 3 3 ∷ []) 0 dest

unfoldable pub just_8x32b_ntstore : (dest : ℕ) → State → Option State
just_8x32b_ntstore dest =
    asm
      (ntstore ymm 0 0
        ∷ ntstore ymm 1 1
        ∷ ntstore ymm 2 2
        ∷ ntstore ymm 3 3
        ∷ ntstore ymm 4 4
        ∷ ntstore ymm 5 5
        ∷ ntstore ymm 6 6
        ∷ ntstore ymm 7 7
        ∷ [])
      0 dest

unfoldable pub just_16x32b_ntstore : (dest : ℕ) → State → Option State
just_16x32b_ntstore dest =
    asm
      (ntstore ymm 0 0
        ∷ ntstore ymm 1 1
        ∷ ntstore ymm 2 2
        ∷ ntstore ymm 3 3
        ∷ ntstore ymm 4 4
        ∷ ntstore ymm 5 5
        ∷ ntstore ymm 6 6
        ∷ ntstore ymm 7 7
        ∷ ntstore ymm 8 8
        ∷ ntstore ymm 9 9
        ∷ ntstore ymm 10 10
        ∷ ntstore ymm 11 11
        ∷ ntstore ymm 12 12
        ∷ ntstore ymm 13 13
        ∷ ntstore ymm 14 14
        ∷ ntstore ymm 15 15
        ∷ [])
      0 dest
