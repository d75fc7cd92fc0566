-- ===== src/Instr/NtloadNtstore.antt =====
-- The copying blocks of util/instr.h in the section ntload_and_ntstore: loads `vmovntdqa`, stores `vmovntpd`.
-- The instructions stand in the order of the source; `%[src]` is in `%rsi`, `%[dest]` in `%rdi`.
use hlfs.Common.{[], ◌∷◌}
use hlfs.Instr.{Kernel, xmm, ymm, ntload, ntstore, asm}

unfoldable pub cpy_16b_ntload_ntstore : Kernel
cpy_16b_ntload_ntstore dest src = asm (ntload xmm 0 0 ∷ ntstore xmm 0 0 ∷ []) src dest

unfoldable pub cpy_32b_ntload_ntstore : Kernel
cpy_32b_ntload_ntstore dest src = asm (ntload ymm 0 0 ∷ ntstore ymm 0 0 ∷ []) src dest

unfoldable pub cpy_2x32b_ntload_ntstore : Kernel
cpy_2x32b_ntload_ntstore dest src =
    asm (ntload ymm 0 0 ∷ ntload ymm 1 1 ∷ ntstore ymm 0 0 ∷ ntstore ymm 1 1 ∷ []) src dest

unfoldable pub cpy_4x32b_ntload_ntstore : Kernel
cpy_4x32b_ntload_ntstore dest src =
    asm
      (ntload ymm 0 0
        ∷ ntload ymm 1 1
        ∷ ntload ymm 2 2
        ∷ ntload ymm 3 3
        ∷ ntstore ymm 0 0
        ∷ ntstore ymm 1 1
        ∷ ntstore ymm 2 2
        ∷ ntstore ymm 3 3
        ∷ [])
      src dest

unfoldable pub cpy_8x32b_ntload_ntstore : Kernel
cpy_8x32b_ntload_ntstore dest src =
    asm
      (ntload ymm 0 0
        ∷ ntload ymm 1 1
        ∷ ntload ymm 2 2
        ∷ ntload ymm 3 3
        ∷ ntload ymm 4 4
        ∷ ntload ymm 5 5
        ∷ ntload ymm 6 6
        ∷ ntload ymm 7 7
        ∷ ntstore ymm 0 0
        ∷ ntstore ymm 1 1
        ∷ ntstore ymm 2 2
        ∷ ntstore ymm 3 3
        ∷ ntstore ymm 4 4
        ∷ ntstore ymm 5 5
        ∷ ntstore ymm 6 6
        ∷ ntstore ymm 7 7
        ∷ [])
      src dest

unfoldable pub cpy_16x32b_ntload_ntstore : Kernel
cpy_16x32b_ntload_ntstore dest src =
    asm
      (ntload ymm 0 0
        ∷ ntload ymm 1 1
        ∷ ntload ymm 2 2
        ∷ ntload ymm 3 3
        ∷ ntload ymm 4 4
        ∷ ntload ymm 5 5
        ∷ ntload ymm 6 6
        ∷ ntload ymm 7 7
        ∷ ntload ymm 8 8
        ∷ ntload ymm 9 9
        ∷ ntload ymm 10 10
        ∷ ntload ymm 11 11
        ∷ ntload ymm 12 12
        ∷ ntload ymm 13 13
        ∷ ntload ymm 14 14
        ∷ ntload ymm 15 15
        ∷ ntstore ymm 0 0
        ∷ ntstore ymm 1 1
        ∷ ntstore ymm 2 2
        ∷ ntstore ymm 3 3
        ∷ ntstore ymm 4 4
        ∷ ntstore ymm 5 5
        ∷ ntstore ymm 6 6
        ∷ ntstore ymm 7 7
        ∷ ntstore ymm 8 8
        ∷ ntstore ymm 9 9
        ∷ ntstore ymm 10 10
        ∷ ntstore ymm 11 11
        ∷ ntstore ymm 12 12
        ∷ ntstore ymm 13 13
        ∷ ntstore ymm 14 14
        ∷ ntstore ymm 15 15
        ∷ [])
      src dest
