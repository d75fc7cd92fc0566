-- ===== src/Tests/FileSystem.antt =====
-- A file system that knows which paths are there, a machine of two nodes, and glog.
use hlfs.Common.{ℕ, Bool, true, false, ◌||◌, none, List, if◌then◌else◌, arith}
use hlfs.Files.Calls.{FileSystem, IsFileSystem}
use hlfs.Driver.Names.{same_text}
use hlfs.Driver.Names.Flags.{same_text_self}

abbrev Files : Type 0
Files = List ℕ → Bool

abbrev without : List ℕ → Files → Files
without p os q = if same_text q p then false else os q

abbrev with_path : List ℕ → Files → Files
with_path p os q = same_text q p || os q

abbrev pub plain : FileSystem
plain = record {
  Os = Files;
  access = λ p os. os p;
  mkdir = λ p os. if os p then (false, os) else (true, with_path p os);
  unlink = λ p os. if os p then (true, without p os) else (false, os);
  rmdir = λ p os. if os p then (true, without p os) else (false, os);
  rename = λ p q os. if os p then (true, with_path q (without p os)) else (false, os);
  stat = λ p os. (none, os);
  list = λ p os. (none, os);
  errno = λ os. 17;
}

pub plain_IsFileSystem : IsFileSystem plain
plain_IsFileSystem = record {
  mkdir_errno = λ p os e. omega arith;
  mkdir_here = λ p os e. ground (arith, e, same_text_self p);
  mkdir_kept = λ p q os there. ground (arith, there);
}

abbrev pub no_files : Files
no_files p = false
