-- ===== src/Instr/NtloadStore.antt =====
-- The copying blocks of util/instr.h in the section ntload_and_store: loads `vmovntdqa`, stores `vmovdqa`.
-- The instructions stand in the order of the source; `%[src]` is in `%rsi`, `%[dest]` in `%rdi`.
use hlfs.Common.{[], ◌∷◌}
use hlfs.Instr.{Kernel, xmm, ymm, clwb, ntload, store, asm}

unfoldable pub cpy_16b_ntload_store_noflush : Kernel
cpy_16b_ntload_store_noflush dest src = asm (ntload xmm 0 0 ∷ store xmm 0 0 ∷ []) src dest

unfoldable pub cpy_32b_ntload_store_noflush : Kernel
cpy_32b_ntload_store_noflush dest src = asm (ntload ymm 0 0 ∷ store ymm 0 0 ∷ []) src dest

unfoldable pub cpy_2x32b_ntload_store_noflush : Kernel
cpy_2x32b_ntload_store_noflush dest src =
    asm (ntload ymm 0 0 ∷ ntload ymm 1 1 ∷ store ymm 0 0 ∷ store ymm 1 1 ∷ []) src dest

unfoldable pub cpy_4x32b_ntload_store_noflush : Kernel
cpy_4x32b_ntload_store_noflush dest src =
    asm
      (ntload ymm 0 0
        ∷ ntload ymm 1 1
        ∷ ntload ymm 2 2
        ∷ ntload ymm 3 3
        ∷ store ymm 0 0
        ∷ store ymm 1 1
        ∷ store ymm 2 2
        ∷ store ymm 3 3
        ∷ [])
      src dest

unfoldable pub cpy_8x32b_ntload_store_noflush : Kernel
cpy_8x32b_ntload_store_noflush dest src =
    asm
      (ntload ymm 0 0
        ∷ ntload ymm 1 1
        ∷ ntload ymm 2 2
        ∷ ntload ymm 3 3
        ∷ ntload ymm 4 4
        ∷ ntload ymm 5 5
        ∷ ntload ymm 6 6
        ∷ ntload ymm 7 7
        ∷ store ymm 0 0
        ∷ store ymm 1 1
        ∷ store ymm 2 2
        ∷ store ymm 3 3
        ∷ store ymm 4 4
        ∷ store ymm 5 5
        ∷ store ymm 6 6
        ∷ store ymm 7 7
        ∷ [])
      src dest

unfoldable pub cpy_16x32b_ntload_store_noflush : Kernel
cpy_16x32b_ntload_store_noflush dest src =
    asm
      (ntload ymm 0 0
        ∷ ntload ymm 1 1
        ∷ ntload ymm 2 2
        ∷ ntload ymm 3 3
        ∷ ntload ymm 4 4
        ∷ ntload ymm 5 5
        ∷ ntload ymm 6 6
        ∷ ntload ymm 7 7
        ∷ ntload ymm 8 8
        ∷ ntload ymm 9 9
        ∷ ntload ymm 10 10
        ∷ ntload ymm 11 11
        ∷ ntload ymm 12 12
        ∷ ntload ymm 13 13
        ∷ ntload ymm 14 14
        ∷ ntload ymm 15 15
        ∷ store ymm 0 0
        ∷ store ymm 1 1
        ∷ store ymm 2 2
        ∷ store ymm 3 3
        ∷ store ymm 4 4
        ∷ store ymm 5 5
        ∷ store ymm 6 6
        ∷ store ymm 7 7
        ∷ store ymm 8 8
        ∷ store ymm 9 9
        ∷ store ymm 10 10
        ∷ store ymm 11 11
        ∷ store ymm 12 12
        ∷ store ymm 13 13
        ∷ store ymm 14 14
        ∷ store ymm 15 15
        ∷ [])
      src dest

unfoldable pub cpy_2x32b_ntload_store_flush : Kernel
cpy_2x32b_ntload_store_flush dest src =
    asm (ntload ymm 0 0 ∷ ntload ymm 1 1 ∷ store ymm 0 0 ∷ store ymm 1 1 ∷ clwb 0 ∷ []) src dest

unfoldable pub cpy_4x32b_ntload_store_flush : Kernel
cpy_4x32b_ntload_store_flush dest src =
    asm
      (ntload ymm 0 0
        ∷ ntload ymm 1 1
        ∷ ntload ymm 2 2
        ∷ ntload ymm 3 3
        ∷ store ymm 0 0
        ∷ store ymm 1 1
        ∷ clwb 0
        ∷ store ymm 2 2
        ∷ store ymm 3 3
        ∷ clwb 2
        ∷ [])
      src dest

unfoldable pub cpy_8x32b_ntload_store_flush : Kernel
cpy_8x32b_ntload_store_flush dest src =
    asm
      (ntload ymm 0 0
        ∷ ntload ymm 1 1
        ∷ ntload ymm 2 2
        ∷ ntload ymm 3 3
        ∷ ntload ymm 4 4
        ∷ ntload ymm 5 5
        ∷ ntload ymm 6 6
        ∷ ntload ymm 7 7
        ∷ store ymm 0 0
        ∷ store ymm 1 1
        ∷ clwb 0
        ∷ store ymm 2 2
        ∷ store ymm 3 3
        ∷ clwb 2
        ∷ store ymm 4 4
        ∷ store ymm 5 5
        ∷ clwb 4
        ∷ store ymm 6 6
        ∷ store ymm 7 7
        ∷ clwb 6
        ∷ [])
      src dest

unfoldable pub cpy_16x32b_ntload_store_flush : Kernel
cpy_16x32b_ntload_store_flush dest src =
    asm
      (ntload ymm 0 0
        ∷ ntload ymm 1 1
        ∷ ntload ymm 2 2
        ∷ ntload ymm 3 3
        ∷ ntload ymm 4 4
        ∷ ntload ymm 5 5
        ∷ ntload ymm 6 6
        ∷ ntload ymm 7 7
        ∷ ntload ymm 8 8
        ∷ ntload ymm 9 9
        ∷ ntload ymm 10 10
        ∷ ntload ymm 11 11
        ∷ ntload ymm 12 12
        ∷ ntload ymm 13 13
        ∷ ntload ymm 14 14
        ∷ ntload ymm 15 15
        ∷ store ymm 0 0
        ∷ store ymm 1 1
        ∷ clwb 0
        ∷ store ymm 2 2
        ∷ store ymm 3 3
        ∷ clwb 2
        ∷ store ymm 4 4
        ∷ store ymm 5 5
        ∷ clwb 4
        ∷ store ymm 6 6
        ∷ store ymm 7 7
        ∷ clwb 6
        ∷ store ymm 8 8
        ∷ store ymm 9 9
        ∷ clwb 8
        ∷ store ymm 10 10
        ∷ store ymm 11 11
        ∷ clwb 10
        ∷ store ymm 12 12
        ∷ store ymm 13 13
        ∷ clwb 12
        ∷ store ymm 14 14
        ∷ store ymm 15 15
        ∷ clwb 14
        ∷ [])
      src dest
