-- ===== src/Files/Calls.antt =====
-- util/file.cc: the functions of one system call each. The file system is a parameter.
use hlfs.Common.{ℕ, ◌<◌, ◌≡◌, Bool, true, false, Option, none, some, List, [], if◌then◌else◌}

-- The system calls on paths: whether they succeed, and the state behind them, which `errno` is a part
-- of. `stat` gives the size of a file, and `list` the names that `readdir` gives of a directory that
-- `opendir` has opened.
pub record FileSystem : Type 1 where
  pub Os : Type 0
  pub access : (path : List ℕ) → Os → Bool
  pub mkdir : (path : List ℕ) → Os → Bool × Os
  pub unlink : (path : List ℕ) → Os → Bool × Os
  pub rmdir : (path : List ℕ) → Os → Bool × Os
  pub rename : (from to : List ℕ) → Os → Bool × Os
  pub stat : (path : List ℕ) → Os → Option ℕ × Os
  pub list : (path : List ℕ) → Os → Option (List (List ℕ)) × Os
  pub errno : Os → ℕ

module _ (fs : FileSystem) where
  abbrev pub or_errno : Bool × fs.Os → ℕ × fs.Os
  or_errno r = (if r.0 then 0 else fs.errno r.1, r.1)

  unfoldable pub file_exists : (filename : List ℕ) → fs.Os → Bool
  file_exists filename os = fs.access filename os

  unfoldable pub remove_file : (filename : List ℕ) → fs.Os → ℕ × fs.Os
  remove_file filename os = or_errno (fs.unlink filename os)

  unfoldable pub create_dir : (dirname : List ℕ) → fs.Os → ℕ × fs.Os
  create_dir dirname os = or_errno (fs.mkdir dirname os)

  unfoldable pub remove_dir : (dirname : List ℕ) → fs.Os → ℕ × fs.Os
  remove_dir dirname os = or_errno (fs.rmdir dirname os)

  unfoldable pub rename_file : (from to : List ℕ) → fs.Os → ℕ × fs.Os
  rename_file from to os = or_errno (fs.rename from to os)

  -- What is returned, and `*size`.
  unfoldable pub get_file_size : (filename : List ℕ) → fs.Os → (ℕ × ℕ) × fs.Os
  get_file_size filename os =
      let r = fs.stat filename os in
      (elim r.0 [ none ↦ (fs.errno r.1, 0) | some size ↦ (0, size) ], r.1)

  -- What is returned, and `*result`.
  unfoldable pub get_children : (directory_path : List ℕ) → fs.Os → (ℕ × List (List ℕ)) × fs.Os
  get_children directory_path os =
      let r = fs.list directory_path os in
      (elim r.0 [ none ↦ (fs.errno r.1, []) | some names ↦ (0, names) ], r.1)

-- What the manual page of mkdir says: a call that fails sets `errno`, to a number above 0; a directory
-- that has been made is there, and so is what was there before.
pub record IsFileSystem (fs : FileSystem) : Type 0 where
  pub mkdir_errno :
      (p : List ℕ) (os : fs.Os) → (fs.mkdir p os).0 ≡ false → 0 < fs.errno (fs.mkdir p os).1
  pub mkdir_here :
      (p : List ℕ) (os : fs.Os) → (fs.mkdir p os).0 ≡ true → fs.access p (fs.mkdir p os).1 ≡ true
  pub mkdir_kept :
      (p q : List ℕ) (os : fs.Os) → fs.access q os ≡ true → fs.access q (fs.mkdir p os).1 ≡ true
