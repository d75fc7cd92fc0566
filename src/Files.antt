-- ===== src/Files.antt =====
-- util/file.cc: RemoveDirRecursive on a tree of files. The system calls are parameters, by whether they
-- succeed on a path; what lies behind a name does not change while the code runs. A `none` is undefined:
-- reading a directory that did not open, or a path that overflows `dir_name_`.
pub mod Plain
pub mod Removed
pub mod Calls
use hlfs.Common.{
  ℕ, zero, suc, Bool, true, false, Option, none, some, List, [], ◌∷◌, ◌++◌, ltb, ◌&&◌,
  if◌then◌else◌, ◌>>=◌, length,
}

-- What `stat` says of a path, and what `readdir` lists: `.` and `..` are `dots`.
mutual
  pub data Node : Type 0 where
    regular : Node
    directory : Entries → Node
    special : Node

  pub data Entries : Type 0 where
    end : Entries
    dots : Entries → Entries
    entry : List ℕ → Node → Entries → Entries

pub record FileCalls : Type 0 where
  pub access : List ℕ → Bool
  pub stat : List ℕ → Bool
  pub unlink : List ℕ → Bool
  pub opendir : List ℕ → Bool
  pub rmdir : List ℕ → Bool

-- `sprintf(dir_name_, "%s/%s", …)`
unfoldable pub joined : (dirname name : List ℕ) → List ℕ
joined dirname name = dirname ++ (47 ∷ name)

unfoldable pub is_empty : Entries → Bool
is_empty end = true
is_empty (dots es) = is_empty es
is_empty (entry name node es) = false

abbrev pub remaining : List ℕ → Option Node → Entries → Entries
remaining name none es = es
remaining name (some node) es = entry name node es

-- Whether 0 is returned, and what is left of the node.
abbrev pub Removal : Type 0
Removal = Bool × Option Node

abbrev pub looked_up : FileCalls → (dirname : List ℕ) → Node → Option Removal → Option Removal
looked_up calls dirname node removal =
    if calls.access dirname && calls.stat dirname then removal else some (false, some node)

unfoldable mutual
  pub remove_dir_recursive : FileCalls → (dirname : List ℕ) → Node → Option Removal
  remove_dir_recursive calls dirname regular =
      looked_up calls dirname regular
        (some (true, if calls.unlink dirname then none else some regular))
  remove_dir_recursive calls dirname special =
      looked_up calls dirname special (some (false, some special))
  remove_dir_recursive calls dirname (directory es) = looked_up calls dirname (directory es) (
      if calls.opendir dirname
      then (remove_entries calls dirname es >>= λ r.
          if r.0
          then some
              (true, if is_empty r.1 && calls.rmdir dirname then none else some (directory r.1))
          else some (false, some (directory r.1)))
      else none)

  pub remove_entries : FileCalls → (dirname : List ℕ) → Entries → Option (Bool × Entries)
  remove_entries calls dirname end = some (true, end)
  remove_entries calls dirname (dots es) =
      remove_entries calls dirname es >>= λ r. some (r.0, dots r.1)
  remove_entries calls dirname (entry name node es) =
      let removed = remove_dir_recursive calls (joined dirname name) node in
      let others = remove_entries calls dirname es in
      if ltb (length (joined dirname name)) 512
      then (removed >>= λ r.
          if r.0
          then (others >>= λ q. some (q.0, remaining name r.1 q.1))
          else some (false, remaining name r.1 es))
      else none
