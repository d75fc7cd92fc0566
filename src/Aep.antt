-- ===== src/Aep.antt =====
-- util/aep.h: the copy routines, in the order (dest, src, len) of the source. `dlog_assert` aborts.
pub mod Small
pub mod LoadStore
pub mod NtloadStore
pub mod LoadNtstore
pub mod NtloadNtstore
pub mod Copies
pub mod Fault
pub mod Family
pub mod Native
use hlfs.Common.{ℕ, ◌+◌, ◌-◌, Option, none, some, ◌==◌, ltb, leb, if◌then◌else◌, ◌>>=◌}
use hlfs.Machine.{State, load, store}
use hlfs.Instr.{Kernel}
use hlfs.Instr.LoadStore.{
  cpy_16b_load_store_noflush, cpy_32b_load_store_noflush, cpy_2x32b_load_store_noflush,
  cpy_4x32b_load_store_noflush, cpy_8x32b_load_store_noflush, cpy_16x32b_load_store_noflush,
  cpy_2x32b_load_store_flush, cpy_4x32b_load_store_flush, cpy_8x32b_load_store_flush,
  cpy_16x32b_load_store_flush,
}
use hlfs.Instr.NtloadStore.{
  cpy_16b_ntload_store_noflush, cpy_32b_ntload_store_noflush, cpy_2x32b_ntload_store_noflush,
  cpy_4x32b_ntload_store_noflush, cpy_8x32b_ntload_store_noflush, cpy_16x32b_ntload_store_noflush,
  cpy_2x32b_ntload_store_flush, cpy_4x32b_ntload_store_flush, cpy_8x32b_ntload_store_flush,
  cpy_16x32b_ntload_store_flush,
}
use hlfs.Instr.LoadNtstore.{
  cpy_16b_load_ntstore, cpy_32b_load_ntstore, cpy_2x32b_load_ntstore, cpy_4x32b_load_ntstore,
  cpy_8x32b_load_ntstore, cpy_16x32b_load_ntstore,
}
use hlfs.Instr.NtloadNtstore.{
  cpy_16b_ntload_ntstore, cpy_32b_ntload_ntstore, cpy_2x32b_ntload_ntstore,
  cpy_4x32b_ntload_ntstore, cpy_8x32b_ntload_ntstore, cpy_16x32b_ntload_ntstore,
}
use hlfs.Walk.{Kernels, walk, walk_flush, walk_nt}

abbrev pub Routine : Type 0
Routine = (dest src len : ℕ) → State → Option State

-- One word of `n` bytes, and two words of `n` bytes that cover `len` bytes from both ends: both
-- are loaded before either is stored.
abbrev pub one_word : ℕ → Kernel
one_word n dest src s = do d ← load src n s; store dest n d s

abbrev pub two_words : ℕ → Routine
two_words n dest src len s = do
  d₀ ← load src n s
  d₁ ← load (src + len - n) n s
  s₁ ← store dest n d₀ s
  store (dest + len - n) n d₁ s₁

unfoldable pub cpy_less_16b_noflush : Routine
cpy_less_16b_noflush dest src len s =
    if leb 16 len
    then none
    else if len == 0
    then some s
    else if leb len 8
    then (if leb len 2
        then (if len == 2 then one_word 2 dest src s else one_word 1 dest src s)
        else if ltb 4 len
        then two_words 4 dest src len s
        else two_words 2 dest src len s)
    else two_words 8 dest src len s

-- The blocks that each routine calls.
abbrev pub load_store_noflush : (dest src : ℕ) → Kernels
load_store_noflush dest src = record {
  small = λ n off. cpy_less_16b_noflush (dest + off) (src + off) n;
  k16 = λ off. cpy_16b_load_store_noflush (dest + off) (src + off);
  k32 = λ off. cpy_32b_load_store_noflush (dest + off) (src + off);
  k2x32 = λ off. cpy_2x32b_load_store_noflush (dest + off) (src + off);
  k4x32 = λ off. cpy_4x32b_load_store_noflush (dest + off) (src + off);
  k8x32 = λ off. cpy_8x32b_load_store_noflush (dest + off) (src + off);
  k16x32 = λ off. cpy_16x32b_load_store_noflush (dest + off) (src + off);
}

-- Only the blocks of whole lines write back.
abbrev pub load_store_flush : (dest src : ℕ) → Kernels
load_store_flush dest src = record {
  small = λ n off. cpy_less_16b_noflush (dest + off) (src + off) n;
  k16 = λ off. cpy_16b_load_store_noflush (dest + off) (src + off);
  k32 = λ off. cpy_32b_load_store_noflush (dest + off) (src + off);
  k2x32 = λ off. cpy_2x32b_load_store_flush (dest + off) (src + off);
  k4x32 = λ off. cpy_4x32b_load_store_flush (dest + off) (src + off);
  k8x32 = λ off. cpy_8x32b_load_store_flush (dest + off) (src + off);
  k16x32 = λ off. cpy_16x32b_load_store_flush (dest + off) (src + off);
}

abbrev pub ntload_store_noflush : (dest src : ℕ) → Kernels
ntload_store_noflush dest src = record {
  small = λ n off. cpy_less_16b_noflush (dest + off) (src + off) n;
  k16 = λ off. cpy_16b_ntload_store_noflush (dest + off) (src + off);
  k32 = λ off. cpy_32b_ntload_store_noflush (dest + off) (src + off);
  k2x32 = λ off. cpy_2x32b_ntload_store_noflush (dest + off) (src + off);
  k4x32 = λ off. cpy_4x32b_ntload_store_noflush (dest + off) (src + off);
  k8x32 = λ off. cpy_8x32b_ntload_store_noflush (dest + off) (src + off);
  k16x32 = λ off. cpy_16x32b_ntload_store_noflush (dest + off) (src + off);
}

abbrev pub ntload_store_flush : (dest src : ℕ) → Kernels
ntload_store_flush dest src = record {
  small = λ n off. cpy_less_16b_noflush (dest + off) (src + off) n;
  k16 = λ off. cpy_16b_ntload_store_noflush (dest + off) (src + off);
  k32 = λ off. cpy_32b_ntload_store_noflush (dest + off) (src + off);
  k2x32 = λ off. cpy_2x32b_ntload_store_flush (dest + off) (src + off);
  k4x32 = λ off. cpy_4x32b_ntload_store_flush (dest + off) (src + off);
  k8x32 = λ off. cpy_8x32b_ntload_store_flush (dest + off) (src + off);
  k16x32 = λ off. cpy_16x32b_ntload_store_flush (dest + off) (src + off);
}

abbrev pub load_ntstore : (dest src : ℕ) → Kernels
load_ntstore dest src = record {
  small = λ n off. cpy_less_16b_noflush (dest + off) (src + off) n;
  k16 = λ off. cpy_16b_load_ntstore (dest + off) (src + off);
  k32 = λ off. cpy_32b_load_ntstore (dest + off) (src + off);
  k2x32 = λ off. cpy_2x32b_load_ntstore (dest + off) (src + off);
  k4x32 = λ off. cpy_4x32b_load_ntstore (dest + off) (src + off);
  k8x32 = λ off. cpy_8x32b_load_ntstore (dest + off) (src + off);
  k16x32 = λ off. cpy_16x32b_load_ntstore (dest + off) (src + off);
}

abbrev pub ntload_ntstore : (dest src : ℕ) → Kernels
ntload_ntstore dest src = record {
  small = λ n off. cpy_less_16b_noflush (dest + off) (src + off) n;
  k16 = λ off. cpy_16b_ntload_ntstore (dest + off) (src + off);
  k32 = λ off. cpy_32b_ntload_ntstore (dest + off) (src + off);
  k2x32 = λ off. cpy_2x32b_ntload_ntstore (dest + off) (src + off);
  k4x32 = λ off. cpy_4x32b_ntload_ntstore (dest + off) (src + off);
  k8x32 = λ off. cpy_8x32b_ntload_ntstore (dest + off) (src + off);
  k16x32 = λ off. cpy_16x32b_ntload_ntstore (dest + off) (src + off);
}

unfoldable pub cpy_load_store_noflush : Routine
unfolding walk cpy_less_16b_noflush
cpy_load_store_noflush dest src len = walk dest (load_store_noflush dest src) len

unfoldable pub cpy_load_store_flush : Routine
unfolding walk_flush cpy_less_16b_noflush
cpy_load_store_flush dest src len = walk_flush dest (load_store_flush dest src) len

unfoldable pub cpy_ntload_store_noflush : Routine
unfolding walk cpy_less_16b_noflush
cpy_ntload_store_noflush dest src len = walk dest (ntload_store_noflush dest src) len

unfoldable pub cpy_ntload_store_flush : Routine
unfolding walk_flush cpy_less_16b_noflush
cpy_ntload_store_flush dest src len = walk_flush dest (ntload_store_flush dest src) len

unfoldable pub cpy_load_ntstore : Routine
unfolding walk_nt cpy_less_16b_noflush
cpy_load_ntstore dest src len = walk_nt dest (load_ntstore dest src) len

unfoldable pub cpy_ntload_ntstore : Routine
unfolding walk_nt cpy_less_16b_noflush
cpy_ntload_ntstore dest src len = walk_nt dest (ntload_ntstore dest src) len
