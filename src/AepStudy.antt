-- ===== src/AepStudy.antt =====
-- bgtest/AEP/aep_study.h: the timed operations that a run measures, as (dest, src, len). The two
-- readings of the clock are arguments, and the result is the time between them. The operations
-- that call pmem2 take its function as a parameter; `barrier` is empty.
pub mod Persist
pub mod Strided
pub mod OneWay
pub mod Pmem
use hlfs.Common.{
  ℕ, zero, suc, ◌+◌, ◌-◌, ◌*◌, ◌/◌, ◌%◌, ◌^◌, Option, none, some, true, false, ltb, ◌>>=◌,
}
use hlfs.Machine.{State, load, sfence}
use hlfs.Aep.{
  Routine, one_word, cpy_load_store_noflush, cpy_load_store_flush, cpy_ntload_store_noflush,
  cpy_ntload_store_flush, cpy_load_ntstore, cpy_ntload_ntstore,
}
use hlfs.AepJust.{just_load, just_ntload, just_store_noflush, just_store_flush, just_ntstore}
use hlfs.Aep.Native.{
  clwb_extent, memset_native_noflush, memset_native_flush, cpy_native_noflush, cpy_native_flush,
}

-- `aep_op_fn`
abbrev pub AepOpFn : Type 0
AepOpFn = (start end : ℕ) → (dest src len : ℕ) → State → Option (ℕ × State)

-- `return end - start;` in `uint64_t`
abbrev pub timed : (start end : ℕ) → Option State → Option (ℕ × State)
timed start end m = m >>= λ s. some ((end + 2 ^ 64 - start) % 2 ^ 64, s)

-- The body of an operation, and the fence that ends those that persist what they write.
abbrev pub fenced : Option State → Option State
fenced m = m >>= λ s. some (sfence s)

-- read: `src` lies in persistent memory
unfoldable pub aep_read_baseline : AepOpFn
aep_read_baseline start end dest src len s = timed start end (some s)

unfoldable pub aep_just_load : AepOpFn
aep_just_load start end dest src len s = timed start end (just_load src len s)

unfoldable pub aep_just_ntload : AepOpFn
aep_just_ntload start end dest src len s = timed start end (just_ntload src len s)

unfoldable pub aep_load_to_dram : AepOpFn
aep_load_to_dram start end dest src len s = timed start end (cpy_load_store_noflush dest src len s)

unfoldable pub aep_ntload_to_dram : AepOpFn
aep_ntload_to_dram start end dest src len s =
    timed start end (cpy_ntload_store_noflush dest src len s)

unfoldable pub aep_native_cpy_to_dram : AepOpFn
aep_native_cpy_to_dram start end dest src len s =
    timed start end (cpy_native_noflush dest src len s)

-- write: `dest` lies in persistent memory
unfoldable pub aep_write_baseline : AepOpFn
aep_write_baseline start end dest src len s = timed start end (some s)

unfoldable pub aep_just_store_flush_by_all : AepOpFn
aep_just_store_flush_by_all start end dest src len s =
    timed start end (fenced (just_store_noflush dest len s >>= clwb_extent dest len))

unfoldable pub aep_just_store_flush_by_cacheline : AepOpFn
aep_just_store_flush_by_cacheline start end dest src len s =
    timed start end (fenced (just_store_flush dest len s))

unfoldable pub aep_just_ntstore : AepOpFn
aep_just_ntstore start end dest src len s = timed start end (fenced (just_ntstore dest len s))

unfoldable pub aep_store_from_dram_flush_by_all : AepOpFn
aep_store_from_dram_flush_by_all start end dest src len s =
    timed start end (fenced (cpy_load_store_noflush dest src len s >>= clwb_extent dest len))

unfoldable pub aep_store_from_dram_flush_by_cacheline : AepOpFn
aep_store_from_dram_flush_by_cacheline start end dest src len s =
    timed start end (fenced (cpy_load_store_flush dest src len s))

unfoldable pub aep_ntstore_from_dram : AepOpFn
aep_ntstore_from_dram start end dest src len s =
    timed start end (fenced (cpy_load_ntstore dest src len s))

unfoldable pub aep_native_cpy_dram_by_all : AepOpFn
aep_native_cpy_dram_by_all start end dest src len s =
    timed start end (fenced (cpy_native_noflush dest src len s >>= clwb_extent dest len))

unfoldable pub aep_native_cpy_dram_by_cacheline : AepOpFn
aep_native_cpy_dram_by_cacheline start end dest src len s =
    timed start end (fenced (cpy_native_flush dest src len s))

-- for (int i = 0; i < len; i += sizeof(uint64_t)) dst[i] = src[i], where `dst` and `src` point to
-- words of 8 bytes; at most so many rounds, and `i` must not overflow
unfoldable pub store_words : ℕ → (i dest src len : ℕ) → State → Option State
store_words zero i dest src len s = none
store_words (suc fuel) i dest src len s = elim (ltb i len) [
  | true ↦ one_word 8 (dest + 8 * i) (src + 8 * i) s >>= λ s₁. elim (ltb (i + 8) (2 ^ 31)) [
    | true ↦ store_words fuel (i + 8) dest src len s₁
    | false ↦ none
  ]
  | false ↦ some s
]

unfoldable pub aep_native_store_dram : AepOpFn
aep_native_store_dram start end dest src len s =
    timed start end (fenced (store_words (len / 8 + 2) 0 dest src len s >>= clwb_extent dest len))

-- copy: both lie in persistent memory
unfoldable pub aep_cpy_baseline : AepOpFn
aep_cpy_baseline start end dest src len s = timed start end (some s)

unfoldable pub aep_cpy_native_by_all : AepOpFn
aep_cpy_native_by_all start end dest src len s =
    timed start end (fenced (cpy_native_noflush dest src len s >>= clwb_extent dest len))

unfoldable pub aep_cpy_native_by_cacheline : AepOpFn
aep_cpy_native_by_cacheline start end dest src len s =
    timed start end (fenced (cpy_native_flush dest src len s))

unfoldable pub aep_cpy_load_store_by_all : AepOpFn
aep_cpy_load_store_by_all start end dest src len s =
    timed start end (fenced (cpy_load_store_noflush dest src len s >>= clwb_extent dest len))

unfoldable pub aep_cpy_load_store_by_cacheline : AepOpFn
aep_cpy_load_store_by_cacheline start end dest src len s =
    timed start end (fenced (cpy_load_store_flush dest src len s))

unfoldable pub aep_cpy_load_ntstore : AepOpFn
aep_cpy_load_ntstore start end dest src len s =
    timed start end (fenced (cpy_load_ntstore dest src len s))

unfoldable pub aep_cpy_ntload_store_by_all : AepOpFn
aep_cpy_ntload_store_by_all start end dest src len s =
    timed start end (fenced (cpy_ntload_store_noflush dest src len s >>= clwb_extent dest len))

unfoldable pub aep_cpy_ntload_store_by_cacheline : AepOpFn
aep_cpy_ntload_store_by_cacheline start end dest src len s =
    timed start end (fenced (cpy_ntload_store_flush dest src len s))

unfoldable pub aep_cpy_ntload_ntstore : AepOpFn
aep_cpy_ntload_ntstore start end dest src len s =
    timed start end (fenced (cpy_ntload_ntstore dest src len s))

-- memset: the byte is read through `src`
unfoldable pub aep_memset_baseline : AepOpFn
aep_memset_baseline start end dest src len s = timed start end (some s)

unfoldable pub aep_memset_native_by_all : AepOpFn
aep_memset_native_by_all start end dest src len s =
    timed start end (
      fenced
        (load src 1 s >>= λ c. memset_native_noflush dest (c 0) len s >>= clwb_extent dest len))

unfoldable pub aep_memset_native_by_cacheline : AepOpFn
aep_memset_native_by_cacheline start end dest src len s =
    timed start end (fenced (load src 1 s >>= λ c. memset_native_flush dest (c 0) len s))
