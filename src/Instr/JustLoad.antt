-- ===== src/Instr/JustLoad.antt =====
-- The blocks of util/instr_just.h that only move one way: loads with `vmovdqa`, the source's names
-- without the leading underscore. Nothing is stored, so `%rdi` is not used.
use hlfs.Common.{[], ◌∷◌, ℕ, Option}
use hlfs.Machine.{State}
use hlfs.Instr.{xmm, ymm, load, asm}

unfoldable pub just_16b_load : (src : ℕ) → State → Option State
just_16b_load src = asm (load xmm 0 0 ∷ []) src 0

unfoldable pub just_32b_load : (src : ℕ) → State → Option State
just_32b_load src = asm (load ymm 0 0 ∷ []) src 0

unfoldable pub just_2x32b_load : (src : ℕ) → State → Option State
just_2x32b_load src = asm (load ymm 0 0 ∷ load ymm 1 1 ∷ []) src 0

unfoldable pub just_4x32b_load : (src : ℕ) → State → Option State
just_4x32b_load src = asm (load ymm 0 0 ∷ load ymm 1 1 ∷ load ymm 2 2 ∷ load ymm 3 3 ∷ []) src 0

unfoldable pub just_8x32b_load : (src : ℕ) → State → Option State
just_8x32b_load src =
    asm
      (load ymm 0 0
        ∷ load ymm 1 1
        ∷ load ymm 2 2
        ∷ load ymm 3 3
        ∷ load ymm 4 4
        ∷ load ymm 5 5
        ∷ load ymm 6 6
        ∷ load ymm 7 7
        ∷ [])
      src 0

unfoldable pub just_16x32b_load : (src : ℕ) → State → Option State
just_16x32b_load src =
    asm
      (load ymm 0 0
        ∷ load ymm 1 1
        ∷ load ymm 2 2
        ∷ load ymm 3 3
        ∷ load ymm 4 4
        ∷ load ymm 5 5
        ∷ load ymm 6 6
        ∷ load ymm 7 7
        ∷ load ymm 8 8
        ∷ load ymm 9 9
        ∷ load ymm 10 10
        ∷ load ymm 11 11
        ∷ load ymm 12 12
        ∷ load ymm 13 13
        ∷ load ymm 14 14
        ∷ load ymm 15 15
        ∷ [])
      src 0
