-- ===== src/AepStudy/Pmem.antt =====
-- bgtest/AEP/aep_study.h: the operations that call `pmdk_memcpy` and `pmdk_memset`, which the driver
-- takes from pmem2, and the tables of operations that a run goes through (the entries that are
-- commented out in the source are not in them); bgtest/AEP/aep_study.cc: the access to the tables.
pub mod Tables
use Prim.Native.String.{String}
use hlfs.Common.{
  length, get_elem?, ℕ, zero, suc, ◌+◌, ◌^◌, ◌-◌, ◌%◌, Option, none, some, List, [], ◌∷◌, ltb,
  if◌then◌else◌, ◌>>=◌,
}
use hlfs.Machine.{State, load}
use hlfs.AepStudy.{
  AepOpFn, timed, aep_read_baseline, aep_just_load, aep_just_ntload, aep_write_baseline,
  aep_cpy_baseline, aep_memset_baseline,
}

-- What the operations use of pmem2: two functions and the flags that they pass.
pub record Pmem2 : Type 0 where
  pub pmdk_memcpy : (dest src len flags : ℕ) → State → Option State
  pub pmdk_memset : (dest c len flags : ℕ) → State → Option State
  pub noflush : ℕ
  pub temporal : ℕ
  pub nontemporal : ℕ

-- `RwType`, and the strings that name the operations as their names.
pub data RwType : Type 0 where
  read write cpy memset : RwType

module _ (p : Pmem2) where
  unfoldable pub aep_pmem2_cpy_to_dram : AepOpFn
  aep_pmem2_cpy_to_dram start end dest src len s =
      timed start end (p.pmdk_memcpy dest src len p.noflush s)

  unfoldable pub aep_pmem2_cpy_dram_com : AepOpFn
  aep_pmem2_cpy_dram_com start end dest src len s = timed start end (p.pmdk_memcpy dest src len 0 s)

  unfoldable pub aep_pmem2_cpy_dram_t : AepOpFn
  aep_pmem2_cpy_dram_t start end dest src len s =
      timed start end (p.pmdk_memcpy dest src len p.temporal s)

  unfoldable pub aep_pmem2_cpy_dram_nt : AepOpFn
  aep_pmem2_cpy_dram_nt start end dest src len s =
      timed start end (p.pmdk_memcpy dest src len p.nontemporal s)

  unfoldable pub aep_cpy_pmem2_memcpy_com : AepOpFn
  aep_cpy_pmem2_memcpy_com start end dest src len s =
      timed start end (p.pmdk_memcpy dest src len 0 s)

  unfoldable pub aep_cpy_pmem2_memcpy_t : AepOpFn
  aep_cpy_pmem2_memcpy_t start end dest src len s =
      timed start end (p.pmdk_memcpy dest src len p.temporal s)

  unfoldable pub aep_cpy_pmem2_memcpy_nt : AepOpFn
  aep_cpy_pmem2_memcpy_nt start end dest src len s =
      timed start end (p.pmdk_memcpy dest src len p.nontemporal s)

  -- `*c` is the byte that `src` points to.
  unfoldable pub aep_memset_pmem2_com : AepOpFn
  aep_memset_pmem2_com start end dest src len s =
      timed start end (load src 1 s >>= λ c. p.pmdk_memset dest (c 0) len 0 s)

  unfoldable pub aep_memset_pmem2_t : AepOpFn
  aep_memset_pmem2_t start end dest src len s =
      timed start end (load src 1 s >>= λ c. p.pmdk_memset dest (c 0) len p.temporal s)

  unfoldable pub aep_memset_pmem2_nt : AepOpFn
  aep_memset_pmem2_nt start end dest src len s =
      timed start end (load src 1 s >>= λ c. p.pmdk_memset dest (c 0) len p.nontemporal s)

  abbrev pub aep_read_funcs : List AepOpFn
  aep_read_funcs = aep_read_baseline ∷ aep_just_load ∷ aep_just_ntload ∷ []

  abbrev pub aep_write_funcs : List AepOpFn
  aep_write_funcs = aep_write_baseline ∷ aep_pmem2_cpy_dram_t ∷ aep_pmem2_cpy_dram_nt ∷ []

  abbrev pub aep_cpy_funcs : List AepOpFn
  aep_cpy_funcs =
      aep_cpy_baseline ∷ aep_cpy_pmem2_memcpy_com ∷ aep_cpy_pmem2_memcpy_t ∷ aep_cpy_pmem2_memcpy_nt
      ∷ []

  abbrev pub aep_memset_funcs : List AepOpFn
  aep_memset_funcs =
      aep_memset_baseline ∷ aep_memset_pmem2_com ∷ aep_memset_pmem2_t ∷ aep_memset_pmem2_nt ∷ []

  abbrev pub funcs : RwType → List AepOpFn
  funcs read = aep_read_funcs
  funcs write = aep_write_funcs
  funcs cpy = aep_cpy_funcs
  funcs memset = aep_memset_funcs

  unfoldable pub get_sub_op_num : RwType → ℕ
  get_sub_op_num t = length (funcs t)

  -- `log_assert` aborts.
  unfoldable pub get_op_fn : RwType → (sub_op : ℕ) → Option AepOpFn
  unfolding get_sub_op_num
  get_op_fn t sub_op = if ltb sub_op (get_sub_op_num t) then get_elem? (funcs t) sub_op else none

abbrev pub labels : RwType → List String
labels read = "read_baseline" ∷ "just_load" ∷ "just_ntload" ∷ []
labels write = "write_baseline" ∷ "pmem2_cpy_dram_t" ∷ "pmem2_cpy_dram_nt" ∷ []
labels cpy =
    "cpy_baseline" ∷ "cpy_pmem2_memcpy_com" ∷ "cpy_pmem2_memcpy_t" ∷ "cpy_pmem2_memcpy_nt" ∷ []
labels memset =
    "aep_memset_baseline" ∷ "aep_memset_pmem2_com" ∷ "aep_memset_pmem2_t" ∷ "aep_memset_pmem2_nt"
    ∷ []

unfoldable pub get_op_label : Pmem2 → RwType → (sub_op : ℕ) → Option String
unfolding get_sub_op_num
get_op_label p t sub_op =
    if ltb sub_op (get_sub_op_num p t) then get_elem? (labels t) sub_op else none
