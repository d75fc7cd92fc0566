-- ===== src/AepJust.antt =====
-- util/aep_just.h: the routines that only read or only write a buffer, without the leading
-- underscore of their names. They are the walks of util/aep.h with other blocks.
pub mod Read
pub mod Load
pub mod Kept
pub mod Store
pub mod Whole
pub mod Family
use hlfs.Common.{ℕ, ◌+◌, ◌-◌, Option, none, some, ◌==◌, ltb, leb, if◌then◌else◌, ◌>>=◌}
use hlfs.Machine.{State, load, store}
use hlfs.Instr.JustLoad.{
  just_16b_load, just_32b_load, just_2x32b_load, just_4x32b_load, just_8x32b_load, just_16x32b_load,
}
use hlfs.Instr.JustNtload.{
  just_16b_ntload, just_32b_ntload, just_2x32b_ntload, just_4x32b_ntload, just_8x32b_ntload,
  just_16x32b_ntload,
}
use hlfs.Instr.JustStore.{
  just_16b_store_noflush, just_32b_store_noflush, just_2x32b_store_noflush,
  just_4x32b_store_noflush, just_8x32b_store_noflush, just_16x32b_store_noflush,
}
use hlfs.Instr.JustStoreFlush.{
  just_2x32b_store_flush, just_4x32b_store_flush, just_8x32b_store_flush, just_16x32b_store_flush,
}
use hlfs.Instr.JustNtstore.{
  just_16b_ntstore, just_32b_ntstore, just_2x32b_ntstore, just_4x32b_ntstore, just_8x32b_ntstore,
  just_16x32b_ntstore,
}
use hlfs.Walk.{Kernels, walk, walk_flush, walk_nt}

-- A word that is read into a register which is then forgotten.
abbrev pub read_word : (n a : ℕ) → State → Option State
read_word n a s = load a n s >>= λ v. some s

abbrev pub read_words : (n src len : ℕ) → State → Option State
read_words n src len s = read_word n src s >>= read_word n (src + len - n)

-- Behind the words of 8 bytes there is no `return`: the source goes on to `le8`.
unfoldable pub just_less_16b_load : (src len : ℕ) → State → Option State
just_less_16b_load src len s = if leb 16 len then none else if len == 0 then some s else do
  s₁ ← if leb len 8 then some s else read_words 8 src len s
  if leb len 2
      then (if len == 2 then read_word 2 src s₁ else read_word 1 src s₁)
      else if ltb 4 len
      then read_words 4 src len s₁
      else read_words 2 src len s₁

-- Stores of `~0`.
abbrev pub set_word : (n a : ℕ) → State → Option State
set_word n a s = store a n (λ j. 255) s

abbrev pub set_words : (n dest len : ℕ) → State → Option State
set_words n dest len s = set_word n dest s >>= set_word n (dest + len - n)

unfoldable pub just_less_16b_store : (dest len : ℕ) → State → Option State
just_less_16b_store dest len s =
    if leb 16 len
    then none
    else if len == 0
    then some s
    else if leb len 8
    then (if leb len 2
        then (if len == 2 then set_word 2 dest s else set_word 1 dest s)
        else if ltb 4 len
        then set_words 4 dest len s
        else set_words 2 dest len s)
    else set_words 8 dest len s

-- The blocks that each routine calls.
abbrev pub load_blocks : (src : ℕ) → Kernels
load_blocks src = record {
  small = λ n off. just_less_16b_load (src + off) n;
  k16 = λ off. just_16b_load (src + off);
  k32 = λ off. just_32b_load (src + off);
  k2x32 = λ off. just_2x32b_load (src + off);
  k4x32 = λ off. just_4x32b_load (src + off);
  k8x32 = λ off. just_8x32b_load (src + off);
  k16x32 = λ off. just_16x32b_load (src + off);
}

abbrev pub ntload_blocks : (src : ℕ) → Kernels
ntload_blocks src = record {
  small = λ n off. just_less_16b_load (src + off) n;
  k16 = λ off. just_16b_ntload (src + off);
  k32 = λ off. just_32b_ntload (src + off);
  k2x32 = λ off. just_2x32b_ntload (src + off);
  k4x32 = λ off. just_4x32b_ntload (src + off);
  k8x32 = λ off. just_8x32b_ntload (src + off);
  k16x32 = λ off. just_16x32b_ntload (src + off);
}

abbrev pub store_noflush_blocks : (dest : ℕ) → Kernels
store_noflush_blocks dest = record {
  small = λ n off. just_less_16b_store (dest + off) n;
  k16 = λ off. just_16b_store_noflush (dest + off);
  k32 = λ off. just_32b_store_noflush (dest + off);
  k2x32 = λ off. just_2x32b_store_noflush (dest + off);
  k4x32 = λ off. just_4x32b_store_noflush (dest + off);
  k8x32 = λ off. just_8x32b_store_noflush (dest + off);
  k16x32 = λ off. just_16x32b_store_noflush (dest + off);
}

abbrev pub store_flush_blocks : (dest : ℕ) → Kernels
store_flush_blocks dest = record {
  small = λ n off. just_less_16b_store (dest + off) n;
  k16 = λ off. just_16b_store_noflush (dest + off);
  k32 = λ off. just_32b_store_noflush (dest + off);
  k2x32 = λ off. just_2x32b_store_flush (dest + off);
  k4x32 = λ off. just_4x32b_store_flush (dest + off);
  k8x32 = λ off. just_8x32b_store_flush (dest + off);
  k16x32 = λ off. just_16x32b_store_flush (dest + off);
}

abbrev pub ntstore_blocks : (dest : ℕ) → Kernels
ntstore_blocks dest = record {
  small = λ n off. just_less_16b_store (dest + off) n;
  k16 = λ off. just_16b_ntstore (dest + off);
  k32 = λ off. just_32b_ntstore (dest + off);
  k2x32 = λ off. just_2x32b_ntstore (dest + off);
  k4x32 = λ off. just_4x32b_ntstore (dest + off);
  k8x32 = λ off. just_8x32b_ntstore (dest + off);
  k16x32 = λ off. just_16x32b_ntstore (dest + off);
}

unfoldable pub just_load : (src len : ℕ) → State → Option State
unfolding walk
just_load src = walk src (load_blocks src)

unfoldable pub just_ntload : (src len : ℕ) → State → Option State
unfolding walk
just_ntload src = walk src (ntload_blocks src)

unfoldable pub just_store_noflush : (dest len : ℕ) → State → Option State
unfolding walk
just_store_noflush dest = walk dest (store_noflush_blocks dest)

unfoldable pub just_store_flush : (dest len : ℕ) → State → Option State
unfolding walk_flush
just_store_flush dest = walk_flush dest (store_flush_blocks dest)

unfoldable pub just_ntstore : (dest len : ℕ) → State → Option State
unfolding walk_nt
just_ntstore dest = walk_nt dest (ntstore_blocks dest)
