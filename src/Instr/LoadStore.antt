-- ===== src/Instr/LoadStore.antt =====
-- The copying blocks of util/instr.h in the section load_and_store: loads `vmovdqa`, stores `vmovdqa`.
-- The instructions stand in the order of the source; `%[src]` is in `%rsi`, `%[dest]` in `%rdi`.
use hlfs.Common.{[], ◌∷◌}
use hlfs.Instr.{Kernel, xmm, ymm, clwb, load, store, asm}

unfoldable pub cpy_16b_load_store_noflush : Kernel
cpy_16b_load_store_noflush dest src = asm (load xmm 0 0 ∷ store xmm 0 0 ∷ []) src dest

unfoldable pub cpy_32b_load_store_noflush : Kernel
cpy_32b_load_store_noflush dest src = asm (load ymm 0 0 ∷ store ymm 0 0 ∷ []) src dest

unfoldable pub cpy_2x32b_load_store_noflush : Kernel
cpy_2x32b_load_store_noflush dest src =
    asm (load ymm 0 0 ∷ load ymm 1 1 ∷ store ymm 0 0 ∷ store ymm 1 1 ∷ []) src dest

unfoldable pub cpy_4x32b_load_store_noflush : Kernel
cpy_4x32b_load_store_noflush dest src =
    asm
      (load ymm 0 0
        ∷ load ymm 1 1
        ∷ load ymm 2 2
        ∷ load ymm 3 3
        ∷ store ymm 0 0
        ∷ store ymm 1 1
        ∷ store ymm 2 2
        ∷ store ymm 3 3
        ∷ [])
      src dest

unfoldable pub cpy_8x32b_load_store_noflush : Kernel
cpy_8x32b_load_store_noflush dest src =
    asm
      (load ymm 0 0
        ∷ load ymm 1 1
        ∷ load ymm 2 2
        ∷ load ymm 3 3
        ∷ load ymm 4 4
        ∷ load ymm 5 5
        ∷ load ymm 6 6
        ∷ load ymm 7 7
        ∷ store ymm 0 0
        ∷ store ymm 1 1
        ∷ store ymm 2 2
        ∷ store ymm 3 3
        ∷ store ymm 4 4
        ∷ store ymm 5 5
        ∷ store ymm 6 6
        ∷ store ymm 7 7
        ∷ [])
      src dest

unfoldable pub cpy_16x32b_load_store_noflush : Kernel
cpy_16x32b_load_store_noflush dest src =
    asm
      (load ymm 0 0
        ∷ load ymm 1 1
        ∷ load ymm 2 2
        ∷ load ymm 3 3
        ∷ load ymm 4 4
        ∷ load ymm 5 5
        ∷ load ymm 6 6
        ∷ load ymm 7 7
        ∷ load ymm 8 8
        ∷ load ymm 9 9
        ∷ load ymm 10 10
        ∷ load ymm 11 11
        ∷ load ymm 12 12
        ∷ load ymm 13 13
        ∷ load ymm 14 14
        ∷ load ymm 15 15
        ∷ store ymm 0 0
        ∷ store ymm 1 1
        ∷ store ymm 2 2
        ∷ store ymm 3 3
        ∷ store ymm 4 4
        ∷ store ymm 5 5
        ∷ store ymm 6 6
        ∷ store ymm 7 7
        ∷ store ymm 8 8
        ∷ store ymm 9 9
        ∷ store ymm 10 10
        ∷ store ymm 11 11
        ∷ store ymm 12 12
        ∷ store ymm 13 13
        ∷ store ymm 14 14
        ∷ store ymm 15 15
        ∷ [])
      src dest

unfoldable pub cpy_2x32b_load_store_flush : Kernel
cpy_2x32b_load_store_flush dest src =
    asm (load ymm 0 0 ∷ load ymm 1 1 ∷ store ymm 0 0 ∷ store ymm 1 1 ∷ clwb 0 ∷ []) src dest

unfoldable pub cpy_4x32b_load_store_flush : Kernel
cpy_4x32b_load_store_flush dest src =
    asm
      (load ymm 0 0
        ∷ load ymm 1 1
        ∷ load ymm 2 2
        ∷ load ymm 3 3
        ∷ store ymm 0 0
        ∷ store ymm 1 1
        ∷ clwb 0
        ∷ store ymm 2 2
        ∷ store ymm 3 3
        ∷ clwb 2
        ∷ [])
      src dest

unfoldable pub cpy_8x32b_load_store_flush : Kernel
cpy_8x32b_load_store_flush dest src =
    asm
      (load ymm 0 0
        ∷ load ymm 1 1
        ∷ load ymm 2 2
        ∷ load ymm 3 3
        ∷ load ymm 4 4
        ∷ load ymm 5 5
        ∷ load ymm 6 6
        ∷ load ymm 7 7
        ∷ store ymm 0 0
        ∷ store ymm 1 1
        ∷ clwb 0
        ∷ store ymm 2 2
        ∷ store ymm 3 3
        ∷ clwb 2
        ∷ store ymm 4 4
        ∷ store ymm 5 5
        ∷ clwb 4
        ∷ store ymm 6 6
        ∷ store ymm 7 7
        ∷ clwb 6
        ∷ [])
      src dest

unfoldable pub cpy_16x32b_load_store_flush : Kernel
cpy_16x32b_load_store_flush dest src =
    asm
      (load ymm 0 0
        ∷ load ymm 1 1
        ∷ load ymm 2 2
        ∷ load ymm 3 3
        ∷ load ymm 4 4
        ∷ load ymm 5 5
        ∷ load ymm 6 6
        ∷ load ymm 7 7
        ∷ load ymm 8 8
        ∷ load ymm 9 9
        ∷ load ymm 10 10
        ∷ load ymm 11 11
        ∷ load ymm 12 12
        ∷ load ymm 13 13
        ∷ load ymm 14 14
        ∷ load ymm 15 15
        ∷ store ymm 0 0
        ∷ store ymm 1 1
        ∷ clwb 0
        ∷ store ymm 2 2
        ∷ store ymm 3 3
        ∷ clwb 2
        ∷ store ymm 4 4
        ∷ store ymm 5 5
        ∷ clwb 4
        ∷ store ymm 6 6
        ∷ store ymm 7 7
        ∷ clwb 6
        ∷ store ymm 8 8
        ∷ store ymm 9 9
        ∷ clwb 8
        ∷ store ymm 10 10
        ∷ store ymm 11 11
        ∷ clwb 10
        ∷ store ymm 12 12
        ∷ store ymm 13 13
        ∷ clwb 12
        ∷ store ymm 14 14
        ∷ store ymm 15 15
        ∷ clwb 14
        ∷ [])
      src dest
