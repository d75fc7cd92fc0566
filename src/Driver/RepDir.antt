-- ===== src/Driver/RepDir.antt =====
-- bgtest/AEP/aep_study.cc: the directories of the reports. A `none` is an abort of `log_assert`.
use hlfs.Common.{
  ℕ, ◌≡◌, ◌⊎◌, refl, inl, inr, true, false, Option, none, some, List, ◌==◌, if◌then◌else◌, ◌>>=◌,
  arith, Bool-cases, Returns, mono,
}
use hlfs.Files.{joined}
use hlfs.Files.Calls.{FileSystem, IsFileSystem, file_exists, create_dir}
use hlfs.Driver.Names.{codes}

unfoldable pub internal_dir : (rep_dir_path : List ℕ) → List ℕ
internal_dir rep_dir_path = joined rep_dir_path (codes "internal")

unfoldable pub report_dir : (rep_dir_path : List ℕ) → List ℕ
report_dir rep_dir_path = joined rep_dir_path (codes "report")

module _ (fs : FileSystem) where
  -- `ret = CreateDir(…); log_assert(!ret)`
  unfoldable pub must_create : (dirname : List ℕ) → fs.Os → Option fs.Os
  must_create dirname os = let r = create_dir fs dirname os in if r.0 == 0 then some r.1 else none

  unfoldable pub create_missing : (dirname : List ℕ) → fs.Os → Option fs.Os
  create_missing dirname os = if file_exists fs dirname os then some os else must_create dirname os

  unfoldable pub init_rep_dir : (rep_dir_path : List ℕ) → fs.Os → Option fs.Os
  init_rep_dir rep_dir_path os =
      if file_exists fs rep_dir_path os
      then (create_missing (internal_dir rep_dir_path) os
          >>= create_missing (report_dir rep_dir_path))
      else (must_create rep_dir_path os >>= λ os₁.
          must_create (internal_dir rep_dir_path) os₁ >>= must_create (report_dir rep_dir_path))

  pub record HasRepDirs (rep_dir_path : List ℕ) (os : fs.Os) : Type 0 where
    pub top : fs.access rep_dir_path os ≡ true
    pub internal : fs.access (internal_dir rep_dir_path) os ≡ true
    pub report : fs.access (report_dir rep_dir_path) os ≡ true

  -- One of the three directories, which was not there, could not be made.
  pub data Failed (rep_dir_path : List ℕ) : Type 0 where
    on_top :
        (os : fs.Os)
        → fs.access rep_dir_path os ≡ false
        → (fs.mkdir rep_dir_path os).0 ≡ false
        → Failed rep_dir_path
    on_internal :
        (os : fs.Os)
        → fs.access rep_dir_path os ≡ true
        → (fs.mkdir (internal_dir rep_dir_path) os).0 ≡ false
        → Failed rep_dir_path
    on_report :
        (os : fs.Os)
        → fs.access (internal_dir rep_dir_path) os ≡ true
        → (fs.mkdir (report_dir rep_dir_path) os).0 ≡ false
        → Failed rep_dir_path

  -- What making `p` leaves: it is there, and so is what was there.
  record Created (p : List ℕ) (os os' : fs.Os) : Type 0 where
    here : fs.access p os' ≡ true
    kept : (q : List ℕ) → fs.access q os ≡ true → fs.access q os' ≡ true

  must_create-cases :
      (lawful : IsFileSystem fs) (p : List ℕ) (os : fs.Os)
      → Returns (Created p os) (must_create p os)
        ⊎ (((fs.mkdir p os).0 ≡ false) × (must_create p os ≡ none))
  unfolding must_create create_dir
  must_create-cases lawful p os = elim (Bool-cases (fs.mkdir p os).0) [
    | inl e ↦ inl (
        rw e (
          _,
          refl,
          record {
            here = lawful.mkdir_here p os e;
            kept = λ q there. lawful.mkdir_kept p q os there;
          },
        ))
    | inr e ↦
        let set = lawful.mkdir_errno p os e in
        let not_zero : (fs.errno (fs.mkdir p os).1 == 0) ≡ false = ground arith in
        inr (e, rw (e, not_zero) refl)
  ]

  create_missing-cases :
      (lawful : IsFileSystem fs) (p : List ℕ) (os : fs.Os)
      → Returns (Created p os) (create_missing p os)
        ⊎ (((fs.mkdir p os).0 ≡ false) × (create_missing p os ≡ none))
  unfolding create_missing file_exists
  create_missing-cases lawful p os = elim (Bool-cases (fs.access p os)) [
    | inl e ↦ inl (rw e (os, refl, record { here = e; kept = λ q there. there }))
    | inr e ↦ rw e (must_create-cases lawful p os)
  ]

  both :
      (d : List ℕ) (os os' : fs.Os)
      → fs.access d os ≡ true
      → fs.access (internal_dir d) os ≡ true
      → Created (report_dir d) os os'
      → HasRepDirs d os'
  both d os os' top internal c = record {
    top = c.kept d top;
    internal = c.kept (internal_dir d) internal;
    report = c.here;
  }

  -- InitRepDir, whichever calls fail.
  pub init_rep_dir-cases :
      (rep_dir_path : List ℕ) (os : fs.Os)
      → IsFileSystem fs
      → Returns (HasRepDirs rep_dir_path) (init_rep_dir rep_dir_path os)
        ⊎ (Failed rep_dir_path × (init_rep_dir rep_dir_path os ≡ none))
  unfolding init_rep_dir file_exists
  init_rep_dir-cases d os lawful = elim (Bool-cases (fs.access d os)) [
    | inl e ↦ rw e (elim (create_missing-cases lawful (internal_dir d) os) [
      | inr (failed, ends) ↦ inr (on_internal os e failed, rw ends refl)
      | inl (os₁, made, c) ↦
          let top = c.kept d e in
          rw made (elim (create_missing-cases lawful (report_dir d) os₁) [
            | inr (failed, ends) ↦ inr (on_report os₁ c.here failed, ends)
            | inl r ↦ inl (mono r λ os₂ c'. both d os₁ os₂ top c.here c')
          ])
    ])
    | inr e ↦ rw e (elim (must_create-cases lawful d os) [
      | inr (failed, ends) ↦ inr (on_top os e failed, rw ends refl)
      | inl (os₁, made, c) ↦ rw made (elim (must_create-cases lawful (internal_dir d) os₁) [
        | inr (failed, ends) ↦ inr (on_internal os₁ c.here failed, rw ends refl)
        | inl (os₂, made', c') ↦
            let top = c'.kept d c.here in
            rw made' (elim (must_create-cases lawful (report_dir d) os₂) [
              | inr (failed, ends) ↦ inr (on_report os₂ c'.here failed, ends)
              | inl r ↦ inl (mono r λ os₃ c''. both d os₂ os₃ top c'.here c'')
            ])
      ])
    ])
  ]
