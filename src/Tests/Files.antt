-- ===== src/Tests/Files.antt =====
-- The removal of a directory `d` with an entry `f` and an empty directory `e` in it.
use hlfs.Common.{◌≡◌, refl, true, false, some, none, [], ◌∷◌, length, Returns}
use hlfs.Files.{
  Node, regular, directory, special, end, dots, entry, joined, FileCalls, is_empty,
  remove_dir_recursive,
}
use hlfs.Files.Plain.{is_plain, fits, LeavesSpecial, IsReadable}
use hlfs.Files.Removed.{remove_dir_recursive-is_plain, remove_dir_recursive-none}

abbrev with_file : Node → Node
with_file node =
    directory
      (dots (dots (entry (102 ∷ []) node (entry (101 ∷ []) (directory (dots (dots end))) end))))

abbrev succeed : FileCalls
succeed = record {
  access = λ p. true;
  stat = λ p. true;
  unlink = λ p. true;
  opendir = λ p. true;
  rmdir = λ p. true;
}

abbrev succeed_IsReadable : IsReadable succeed
succeed_IsReadable = record { access = λ p. refl; stat = λ p. refl; opendir = λ p. refl }

fits_with_special : fits (100 ∷ []) (with_file special) ≡ true
unfolding fits joined length
fits_with_special = refl

fits_with_regular : fits (100 ∷ []) (with_file regular) ≡ true
unfolding fits joined length
fits_with_regular = refl

is_plain_with_regular : is_plain (with_file regular) ≡ true
unfolding is_plain
is_plain_with_regular = refl

remove_dir_recursive-is_plain_example :
    Returns
      (λ r. (r.0 ≡ is_plain (with_file special)) × LeavesSpecial r)
      (remove_dir_recursive succeed (100 ∷ []) (with_file special))
remove_dir_recursive-is_plain_example =
    remove_dir_recursive-is_plain succeed succeed_IsReadable (100 ∷ []) (with_file special)
      fits_with_special

remove_dir_recursive-none_example :
    remove_dir_recursive succeed (100 ∷ []) (with_file regular) ≡ some (true, none)
remove_dir_recursive-none_example =
    remove_dir_recursive-none succeed succeed_IsReadable (λ p. refl) (λ p. refl) (100 ∷ [])
      (with_file regular) fits_with_regular is_plain_with_regular

-- Where `rmdir` is refused 0 is returned all the same.
rmdir_refused :
    remove_dir_recursive (record succeed { rmdir = λ p. false }) [] (directory (dots (dots end)))
    ≡ some (true, some (directory (dots (dots end))))
unfolding remove_dir_recursive is_empty
rmdir_refused = refl
