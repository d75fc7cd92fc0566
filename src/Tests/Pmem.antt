-- ===== src/Tests/Pmem.antt =====
-- The tables of operations, with memcpy and memset of the C library in the place of pmem2's.
use hlfs.Common.{◌+◌, ◌-◌, ◌%◌, ◌^◌, length, get_elem?, ◌≡◌, refl, some, Returns}
use hlfs.Aep.Native.{memcpy, memset}
use hlfs.AepStudy.{aep_just_ntload}
use hlfs.AepJust.Read.{Same}
use hlfs.AepStudy.Pmem.{Pmem2, read, cpy, get_sub_op_num, get_op_fn, get_op_label}
use hlfs.AepStudy.Pmem.Tables.{get_op_fn-read-Same}
use hlfs.Tests.Copies.{demo}

abbrev demo_pmem : Pmem2
demo_pmem = record {
  pmdk_memcpy = λ dest src len flags. memcpy dest src len;
  pmdk_memset = λ dest c len flags. memset dest c len;
  noflush = 32;
  temporal = 4;
  nontemporal = 2;
}

label_of_the_third : get_op_label demo_pmem cpy 2 ≡ some "cpy_pmem2_memcpy_t"
unfolding get_op_label get_sub_op_num length get_elem?
label_of_the_third = refl

third_is_ntload : get_op_fn demo_pmem read 2 ≡ some aep_just_ntload
unfolding get_op_fn get_sub_op_num length get_elem?
third_is_ntload = refl

get_op_fn-read-Same_example :
    Returns
      (λ q. (q.0 ≡ (35 + 2 ^ 64 - 10) % 2 ^ 64) × Same demo q.1)
      (aep_just_ntload 10 35 0 8197 700 demo)
get_op_fn-read-Same_example =
    get_op_fn-read-Same demo_pmem 2 aep_just_ntload 10 35 0 8197 700 third_is_ntload (λ x a b. refl)
