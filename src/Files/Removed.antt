-- ===== src/Files/Removed.antt =====
-- What the removal returns and leaves.
use hlfs.Common.{
  ℕ, ◌≡◌, refl, sym, inl, inr, Bool, true, false, ◌&&◌, Option, none, some, List, ltb, length,
  Bool-cases, Returns, bind, arith, if◌then◌else◌, ◌>>=◌,
}
use hlfs.Files.Plain.{
  is_plain, are_plain, fits, entries_fit, IsReadable, both, LeavesSpecial, EntriesLeaveSpecial,
}
use hlfs.Files.{
  Node, regular, directory, special, Entries, end, dots, entry, FileCalls, joined, is_empty,
  remaining, Removal, looked_up, remove_dir_recursive, remove_entries,
}

module _ (calls : FileCalls) (readable : IsReadable calls) where
  looked_up_lem :
      (dirname : List ℕ) (node : Node) (r : Option Removal) → looked_up calls dirname node r ≡ r
  looked_up_lem dirname node r = rw (readable.access dirname, readable.stat dirname) refl

  directory_left :
      (dirname : List ℕ) (es : Entries) (r : Bool × Entries)
      → r.0 ≡ are_plain es
      → EntriesLeaveSpecial r
      → Returns
          (λ q. (q.0 ≡ are_plain es) × LeavesSpecial q)
          (if r.0
            then some
                (true, if is_empty r.1 && calls.rmdir dirname then none else some (directory r.1))
            else some (false, some (directory r.1)))
  unfolding is_plain
  directory_left dirname es (true, left) e h = (_, refl, (e, tt))
  directory_left dirname es (false, left) e h = (_, refl, (e, h))

  remaining_special :
      (name : List ℕ) (node : Option Node) (es : Entries)
      → LeavesSpecial (false, node)
      → are_plain (remaining name node es) ≡ false
  unfolding are_plain
  remaining_special name none es h = absurd h
  remaining_special name (some node) es h = rw h refl

  remaining_others :
      (name : List ℕ) (node : Option Node) (es : Entries)
      → are_plain es ≡ false
      → are_plain (remaining name node es) ≡ false
  unfolding are_plain
  remaining_others name none es h = h
  remaining_others name (some node) es h = elim (Bool-cases (is_plain node)) [
    | inl e ↦ rw (e, h) refl
    | inr e ↦ rw e refl
  ]

  entry_left :
      (name : List ℕ) (node : Node) (es : Entries) (others : Option (Bool × Entries)) (r : Removal)
      → Returns (λ q. (q.0 ≡ are_plain es) × EntriesLeaveSpecial q) others
      → r.0 ≡ is_plain node
      → LeavesSpecial r
      → Returns
          (λ q. (q.0 ≡ (is_plain node && are_plain es)) × EntriesLeaveSpecial q)
          (if r.0
            then (others >>= λ q. some (q.0, remaining name r.1 q.1))
            else some (false, remaining name r.1 es))
  entry_left name node es others (true, left) ih e h =
      rw (sym e) (bind ih λ q k. (_, refl, (k.0, others_left q k.1)))
    where
      others_left :
          (q : Bool × Entries)
          → EntriesLeaveSpecial q
          → EntriesLeaveSpecial (q.0, remaining name left q.1)
      others_left (true, es') k = tt
      others_left (false, es') k = remaining_others name left es' k
  entry_left name node es others (false, left) ih e h =
      rw (sym e) (_, refl, (refl, remaining_special name left es h))

  dots_left : (r : Bool × Entries) → EntriesLeaveSpecial r → EntriesLeaveSpecial (r.0, dots r.1)
  unfolding are_plain
  dots_left (true, es) h = tt
  dots_left (false, es) h = h

  mutual
    unfolding remove_dir_recursive is_plain fits

    removal_lem :
        (dirname : List ℕ) (node : Node)
        → fits dirname node ≡ true
        → Returns
            (λ r. (r.0 ≡ is_plain node) × LeavesSpecial r)
            (remove_dir_recursive calls dirname node)
    removal_lem dirname regular f = rw (looked_up_lem dirname regular) (_, refl, (refl, tt))
    removal_lem dirname special f = rw (looked_up_lem dirname special) (_, refl, (refl, refl))
    removal_lem dirname (directory es) f =
        rw (looked_up_lem dirname (directory es), readable.opendir dirname)
          (bind (entries_lem dirname es f) λ r k. directory_left dirname es r k.0 k.1)

    entries_lem :
        (dirname : List ℕ) (es : Entries)
        → entries_fit dirname es ≡ true
        → Returns
            (λ r. (r.0 ≡ are_plain es) × EntriesLeaveSpecial r)
            (remove_entries calls dirname es)
    entries_lem dirname end f = (_, refl, (refl, tt))
    entries_lem dirname (dots es) f =
        bind (entries_lem dirname es f) λ r k. (_, refl, (k.0, dots_left r k.1))
    entries_lem dirname (entry name node es) f =
        let (room, f') =
          both (ltb (length (joined dirname name)) 512)
            (fits (joined dirname name) node && entries_fit dirname es) f in
        let (below, beside) = both (fits (joined dirname name) node) (entries_fit dirname es) f' in
        rw room (
          bind (removal_lem (joined dirname name) node below)
            λ r k. entry_left name node es _ r (entries_lem dirname es beside) k.0 k.1)

  -- RemoveDirRecursive, where paths can be looked up, directories open and every path fits into
  -- its buffer, returns, whatever `unlink` and `rmdir` do. It returns 0 exactly on a tree of
  -- regular files and directories; otherwise what is left holds a special file.
  pub remove_dir_recursive-is_plain :
      (dirname : List ℕ) (node : Node)
      → fits dirname node ≡ true
      → Returns
          (λ r. (r.0 ≡ is_plain node) × LeavesSpecial r)
          (remove_dir_recursive calls dirname node)
  remove_dir_recursive-is_plain dirname node f = removal_lem dirname node f

  -- Where `unlink` and `rmdir` succeed as well.
  module _ (unlinks : (path : List ℕ) → calls.unlink path ≡ true)
      (rmdirs : (path : List ℕ) → calls.rmdir path ≡ true) where
    mutual
      unfolding remove_dir_recursive is_plain fits is_empty

      gone_lem :
          (dirname : List ℕ) (node : Node)
          → fits dirname node ≡ true
          → is_plain node ≡ true
          → remove_dir_recursive calls dirname node ≡ some (true, none)
      gone_lem dirname regular f p = rw (looked_up_lem dirname regular, unlinks dirname) refl
      gone_lem dirname special f p = ground (arith, p)
      gone_lem dirname (directory es) f p =
          let (left, e, none_left) = entries_gone_lem dirname es f p in
          rw
            (
              looked_up_lem dirname (directory es),
              readable.opendir dirname,
              e,
              none_left,
              rmdirs dirname,
            )
            refl

      entries_gone_lem :
          (dirname : List ℕ) (es : Entries)
          → entries_fit dirname es ≡ true
          → are_plain es ≡ true
          → (left : Entries) × (remove_entries calls dirname es ≡ some (true, left))
            × (is_empty left ≡ true)
      entries_gone_lem dirname end f p = (end, refl, refl)
      entries_gone_lem dirname (dots es) f p =
          let (left, e, none_left) = entries_gone_lem dirname es f p in
          (dots left, rw e refl, none_left)
      entries_gone_lem dirname (entry name node es) f p =
          let (room, f') =
            both (ltb (length (joined dirname name)) 512)
              (fits (joined dirname name) node && entries_fit dirname es) f in
          let (below, beside) =
            both (fits (joined dirname name) node) (entries_fit dirname es) f' in
          let (plain, others) = both (is_plain node) (are_plain es) p in
          let gone = gone_lem (joined dirname name) node below plain in
          let (left, e, none_left) = entries_gone_lem dirname es beside others in
          (left, rw (room, gone, e) refl, none_left)

    -- RemoveDirRecursive, where every call succeeds and every path fits into its buffer, removes a
    -- tree of regular files and directories whole and returns 0.
    pub remove_dir_recursive-none :
        (dirname : List ℕ) (node : Node)
        → fits dirname node ≡ true
        → is_plain node ≡ true
        → remove_dir_recursive calls dirname node ≡ some (true, none)
    remove_dir_recursive-none dirname node f p = gone_lem dirname node f p
