-- ===== src/Instr/LoadNtstore.antt =====
-- The copying blocks of util/instr.h in the section load_and_ntstore: loads `vmovdqa`, stores `vmovntpd`.
-- The instructions stand in the order of the source; `%[src]` is in `%rsi`, `%[dest]` in `%rdi`.
use hlfs.Common.{[], ◌∷◌}
use hlfs.Instr.{Kernel, xmm, ymm, load, ntstore, asm}

unfoldable pub cpy_16b_load_ntstore : Kernel
cpy_16b_load_ntstore dest src = asm (load xmm 0 0 ∷ ntstore xmm 0 0 ∷ []) src dest

unfoldable pub cpy_32b_load_ntstore : Kernel
cpy_32b_load_ntstore dest src = asm (load ymm 0 0 ∷ ntstore ymm 0 0 ∷ []) src dest

unfoldable pub cpy_2x32b_load_ntstore : Kernel
cpy_2x32b_load_ntstore dest src =
    asm (load ymm 0 0 ∷ load ymm 1 1 ∷ ntstore ymm 0 0 ∷ ntstore ymm 1 1 ∷ []) src dest

unfoldable pub cpy_4x32b_load_ntstore : Kernel
cpy_4x32b_load_ntstore dest src =
    asm
      (load ymm 0 0
        ∷ load ymm 1 1
        ∷ load ymm 2 2
        ∷ load ymm 3 3
        ∷ ntstore ymm 0 0
        ∷ ntstore ymm 1 1
        ∷ ntstore ymm 2 2
        ∷ ntstore ymm 3 3
        ∷ [])
      src dest

unfoldable pub cpy_8x32b_load_ntstore : Kernel
cpy_8x32b_load_ntstore dest src =
    asm
      (load ymm 0 0
        ∷ load ymm 1 1
        ∷ load ymm 2 2
        ∷ load ymm 3 3
        ∷ load ymm 4 4
        ∷ load ymm 5 5
        ∷ load ymm 6 6
        ∷ load ymm 7 7
        ∷ ntstore ymm 0 0
        ∷ ntstore ymm 1 1
        ∷ ntstore ymm 2 2
        ∷ ntstore ymm 3 3
        ∷ ntstore ymm 4 4
        ∷ ntstore ymm 5 5
        ∷ ntstore ymm 6 6
        ∷ ntstore ymm 7 7
        ∷ [])
      src dest

unfoldable pub cpy_16x32b_load_ntstore : Kernel
cpy_16x32b_load_ntstore dest src =
    asm
      (load ymm 0 0
        ∷ load ymm 1 1
        ∷ load ymm 2 2
        ∷ load ymm 3 3
        ∷ load ymm 4 4
        ∷ load ymm 5 5
        ∷ load ymm 6 6
        ∷ load ymm 7 7
        ∷ load ymm 8 8
        ∷ load ymm 9 9
        ∷ load ymm 10 10
        ∷ load ymm 11 11
        ∷ load ymm 12 12
        ∷ load ymm 13 13
        ∷ load ymm 14 14
        ∷ load ymm 15 15
        ∷ ntstore ymm 0 0
        ∷ ntstore ymm 1 1
        ∷ ntstore ymm 2 2
        ∷ ntstore ymm 3 3
        ∷ ntstore ymm 4 4
        ∷ ntstore ymm 5 5
        ∷ ntstore ymm 6 6
        ∷ ntstore ymm 7 7
        ∷ ntstore ymm 8 8
        ∷ ntstore ymm 9 9
        ∷ ntstore ymm 10 10
        ∷ ntstore ymm 11 11
        ∷ ntstore ymm 12 12
        ∷ ntstore ymm 13 13
        ∷ ntstore ymm 14 14
        ∷ ntstore ymm 15 15
        ∷ [])
      src dest
