-- ===== src/Files/Plain.antt =====
-- What the removal of a tree of files depends on.
use hlfs.Common.{ℕ, ◌≡◌, refl, Bool, true, false, ◌&&◌, none, some, List, ltb, length, arith}
use hlfs.Files.{
  Node, regular, directory, special, Entries, end, dots, entry, FileCalls, joined, Removal,
}

-- Only regular files and directories.
unfoldable mutual
  pub is_plain : Node → Bool
  is_plain regular = true
  is_plain special = false
  is_plain (directory es) = are_plain es

  pub are_plain : Entries → Bool
  are_plain end = true
  are_plain (dots es) = are_plain es
  are_plain (entry name node es) = is_plain node && are_plain es

-- Each path fits into `dir_name_`.
unfoldable mutual
  pub fits : (dirname : List ℕ) → Node → Bool
  fits dirname regular = true
  fits dirname special = true
  fits dirname (directory es) = entries_fit dirname es

  pub entries_fit : (dirname : List ℕ) → Entries → Bool
  entries_fit dirname end = true
  entries_fit dirname (dots es) = entries_fit dirname es
  entries_fit dirname (entry name node es) =
      ltb (length (joined dirname name)) 512
      && (fits (joined dirname name) node && entries_fit dirname es)

-- The paths can be looked up and the directories read.
pub record IsReadable (calls : FileCalls) : Type 0 where
  pub access : (path : List ℕ) → calls.access path ≡ true
  pub stat : (path : List ℕ) → calls.stat path ≡ true
  pub opendir : (path : List ℕ) → calls.opendir path ≡ true

pub both : (b c : Bool) → (b && c) ≡ true → (b ≡ true) × (c ≡ true)
both true c e = (refl, e)
both false c e = ground (arith, e)

-- A failure has left something special.
abbrev pub LeavesSpecial : Removal → Type 0
LeavesSpecial (true, left) = Unit
LeavesSpecial (false, none) = ⊥
LeavesSpecial (false, some node) = is_plain node ≡ false

abbrev pub EntriesLeaveSpecial : Bool × Entries → Type 0
EntriesLeaveSpecial (true, es) = Unit
EntriesLeaveSpecial (false, es) = are_plain es ≡ false
