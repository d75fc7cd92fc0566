-- ===== src/Instr/JustNtload.antt =====
-- The blocks of util/instr_just.h that only move one way: loads with `vmovntdqa`, the source's names
-- without the leading underscore. Nothing is stored, so `%rdi` is not used.
use hlfs.Common.{[], ◌∷◌, ℕ, Option}
use hlfs.Machine.{State}
use hlfs.Instr.{xmm, ymm, ntload, asm}

unfoldable pub just_16b_ntload : (src : ℕ) → State → Option State
just_16b_ntload src = asm (ntload xmm 0 0 ∷ []) src 0

unfoldable pub just_32b_ntload : (src : ℕ) → State → Option State
just_32b_ntload src = asm (ntload ymm 0 0 ∷ []) src 0

unfoldable pub just_2x32b_ntload : (src : ℕ) → State → Option State
just_2x32b_ntload src = asm (ntload ymm 0 0 ∷ ntload ymm 1 1 ∷ []) src 0

unfoldable pub just_4x32b_ntload : (src : ℕ) → State → Option State
just_4x32b_ntload src =
    asm (ntload ymm 0 0 ∷ ntload ymm 1 1 ∷ ntload ymm 2 2 ∷ ntload ymm 3 3 ∷ []) src 0

unfoldable pub just_8x32b_ntload : (src : ℕ) → State → Option State
just_8x32b_ntload src =
    asm
      (ntload ymm 0 0
        ∷ ntload ymm 1 1
        ∷ ntload ymm 2 2
        ∷ ntload ymm 3 3
        ∷ ntload ymm 4 4
        ∷ ntload ymm 5 5
        ∷ ntload ymm 6 6
        ∷ ntload ymm 7 7
        ∷ [])
      src 0

unfoldable pub just_16x32b_ntload : (src : ℕ) → State → Option State
just_16x32b_ntload src =
    asm
      (ntload ymm 0 0
        ∷ ntload ymm 1 1
        ∷ ntload ymm 2 2
        ∷ ntload ymm 3 3
        ∷ ntload ymm 4 4
        ∷ ntload ymm 5 5
        ∷ ntload ymm 6 6
        ∷ ntload ymm 7 7
        ∷ ntload ymm 8 8
        ∷ ntload ymm 9 9
        ∷ ntload ymm 10 10
        ∷ ntload ymm 11 11
        ∷ ntload ymm 12 12
        ∷ ntload ymm 13 13
        ∷ ntload ymm 14 14
        ∷ ntload ymm 15 15
        ∷ [])
      src 0
