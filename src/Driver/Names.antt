-- ===== src/Driver/Names.antt =====
-- bgtest/AEP/aep_study.cc: the texts of the flags and of the reports, as lists of the codes of their
-- characters.
pub mod Decimal
pub mod Flags
pub mod Sizes
pub mod Paths
use Prim.Native.Char.{code}
use Prim.Native.String.{String}
use hlfs.Common.{
  ℕ, zero, suc, ◌+◌, ◌*◌, ◌/◌, ◌%◌, ◌^◌, Bool, true, false, Option, none, some, List, [], ◌∷◌, ◌++◌,
  ◌==◌, ◌&&◌, ltb, leb, length, if◌then◌else◌, ◌>>=◌,
}
use hlfs.AepStudy.Pmem.{RwType, read, write, cpy, memset}
use hlfs.Driver.{AccessMode, seq, random}

abbrev pub codes : String → List ℕ
codes String.[] = []
codes (String.◌∷◌ c s) = code c ∷ codes s

-- `std::to_string`: the digits of `n`, in front of `rest`. A number has fewer digits than `n + 1`.
unfoldable pub digits_of : (fuel n : ℕ) → List ℕ → List ℕ
digits_of zero n rest = rest
digits_of (suc fuel) n rest = elim (ltb n 10) [
  | true ↦ (48 + n) ∷ rest
  | false ↦ digits_of fuel (n / 10) ((48 + n % 10) ∷ rest)
]

unfoldable pub to_string : ℕ → List ℕ
to_string n = digits_of (suc n) n []

unfoldable pub size_2_human_str : (size : ℕ) → List ℕ
size_2_human_str size =
    if leb (1024 * 1024 * 1024) size
    then to_string (size / (1024 * 1024 * 1024)) ++ codes "G"
    else if leb (1024 * 1024) size
    then to_string (size / (1024 * 1024)) ++ codes "M"
    else if leb 1024 size
    then to_string (size / 1024) ++ codes "K"
    else to_string size ++ codes "B"

unfoldable pub rw_type_2_str : RwType → List ℕ
rw_type_2_str read = codes "read"
rw_type_2_str write = codes "write"
rw_type_2_str cpy = codes "cpy"
rw_type_2_str memset = codes "memset"

unfoldable pub access_mode_2_str : AccessMode → List ℕ
access_mode_2_str seq = codes "seq"
access_mode_2_str random = codes "random"

unfoldable pub same_text : List ℕ → List ℕ → Bool
same_text [] [] = true
same_text [] (b ∷ t) = false
same_text (a ∷ s) [] = false
same_text (a ∷ s) (b ∷ t) = a == b && same_text s t

-- `find` in an `unordered_map` whose keys are texts
unfoldable pub find {ℓ} : {A : Type ℓ} → List ℕ → List (List ℕ × A) → Option A
find key [] = none
find key ((k, v) ∷ table) =
    let others = find key table in if same_text key k then some v else others

abbrev pub str_2_rw_type : List (List ℕ × RwType)
str_2_rw_type =
    (codes "read", read)
    ∷ (codes "write", write)
    ∷ (codes "cpy", cpy)
    ∷ (codes "memset", memset)
    ∷ []

abbrev pub str_2_access_mode : List (List ℕ × AccessMode)
str_2_access_mode = (codes "seq", seq) ∷ (codes "random", random) ∷ []

abbrev pub is_some {ℓ} : {A : Type ℓ} → Option A → Bool
is_some none = false
is_some (some a) = true

-- `operator[]` adds a missing key, with the value 0, the first of the kinds.
unfoldable pub str2_rw_type : List ℕ → RwType
str2_rw_type type = elim (find type str_2_rw_type) [ none ↦ read | some t ↦ t ]

unfoldable pub str2_access_mode : List ℕ → AccessMode
str2_access_mode mode = elim (find mode str_2_access_mode) [ none ↦ seq | some m ↦ m ]

unfoldable pub validate_rw_type : (value : List ℕ) → Bool
validate_rw_type value = is_some (find value str_2_rw_type)

unfoldable pub validate_access_mode : (value : List ℕ) → Bool
validate_access_mode value = is_some (find value str_2_access_mode)

-- What RunData reads of a task.
pub record Named : Type 0 where
  pub buf_size : ℕ
  pub rw_type : RwType
  pub access_mode : AccessMode
  pub access_size : ℕ
  pub thread_idx : ℕ

-- `sprintf(buf, "%s-%s-%s-%s-%d", …)`
unfoldable pub task_part : Named → List ℕ
task_part t =
    size_2_human_str t.buf_size
    ++ (45 ∷ rw_type_2_str t.rw_type
        ++ (45 ∷ access_mode_2_str t.access_mode
            ++ (45 ∷ size_2_human_str t.access_size ++ (45 ∷ to_string t.thread_idx))))

-- The path of the data of a task. `none` is a text that overflows `buf`.
unfoldable pub data_path : (rep_dir_path time : List ℕ) → Named → Option (List ℕ)
data_path rep_dir_path time t =
    if ltb (length (task_part t)) 256
    then some (
        rep_dir_path
        ++ (codes "/internal/aep_test-" ++ (time ++ (45 ∷ task_part t ++ codes "-data.dat"))))
    else none
