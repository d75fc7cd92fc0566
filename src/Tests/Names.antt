-- ===== src/Tests/Names.antt =====
-- The texts of sizes and flags, and the files of two threads.
use hlfs.Common.{ℕ, ◌^◌, ◌<◌, ◌≡◌, ◌↔◌, refl, true, false, some, length, arith}
use hlfs.AepStudy.Pmem.{cpy}
use hlfs.Driver.{seq}
use hlfs.Driver.Names.{
  codes, to_string, digits_of, size_2_human_str, same_text, find, validate_rw_type, rw_type_2_str,
  str2_rw_type, Named, task_part, data_path, access_mode_2_str,
}
use hlfs.Driver.Names.Sizes.{read_size, read_size-IsWhole}
use hlfs.Driver.Names.Flags.{validate_rw_type-rw_type_2_str}
use hlfs.Driver.Names.Paths.{IsNameable, data_path-injective}

four_kilobytes : size_2_human_str 4096 ≡ codes "4K"
unfolding size_2_human_str to_string digits_of
four_kilobytes = refl

validate_rw_type-rw_type_2_str_example :
    ((validate_rw_type (codes "cpy") ≡ true)
      ↔ (rw_type_2_str (str2_rw_type (codes "cpy")) ≡ codes "cpy"))
    × (str2_rw_type (rw_type_2_str cpy) ≡ cpy)
validate_rw_type-rw_type_2_str_example = validate_rw_type-rw_type_2_str (codes "cpy") cpy

-- A text that is no kind is refused, and would be read as the first one.
no_kind : validate_rw_type (codes "copy") ≡ false
unfolding validate_rw_type find same_text
no_kind = refl

abbrev thread : ℕ → Named
thread i = record {
  buf_size = 1024;
  rw_type = cpy;
  access_mode = seq;
  access_size = 64;
  thread_idx = i;
}

thread-IsNameable : (i : ℕ) → i < 2 ^ 31 → IsNameable (thread i)
thread-IsNameable i lt = record {
  buf_size = refl;
  access_size = refl;
  buf_size_fits = omega arith;
  access_size_fits = omega arith;
  thread_idx_fits = lt;
}

thread_path :
    data_path (codes "/r") (codes "now") (thread 12)
    ≡ some (codes "/r/internal/aep_test-now-1K-cpy-seq-64B-12-data.dat")
unfolding data_path task_part length size_2_human_str to_string digits_of rw_type_2_str
    access_mode_2_str
thread_path = refl

data_path-injective_example : thread 3 ≡ thread 3
data_path-injective_example =
    data_path-injective (codes "/r") (codes "now") (thread 3) (thread 3)
      (thread-IsNameable 3 (omega arith)) (thread-IsNameable 3 (omega arith)) refl

read_size-IsWhole_example : read_size (size_2_human_str 4096) ≡ 4096
read_size-IsWhole_example = read_size-IsWhole 4096 refl
