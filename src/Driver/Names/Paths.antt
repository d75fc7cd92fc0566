-- ===== src/Driver/Names/Paths.antt =====
-- The files of the times of two tasks are distinct.
use hlfs.Common.{
  ℕ, suc, ◌+◌, ◌^◌, ◌≤◌, ◌<◌, ◌≡◌, refl, sym, ap, ◌∙◌, true, List, [], ◌∷◌, ◌++◌, ltb, length,
  arith,
}
use mathlib.Core.Option.{some-injective}
use mathlib.Core.List.{append_assoc}
use hlfs.AepStudy.Pmem.{RwType, read, write, cpy, memset}
use hlfs.Driver.{AccessMode, seq, random}
use hlfs.Driver.Names.{
  codes, Named, task_part, data_path, to_string, size_2_human_str, rw_type_2_str, access_mode_2_str,
  str2_rw_type, str2_access_mode,
}
use hlfs.Driver.Names.Decimal.{
  no_dash, read_digits, no_dash-to_string, length-to_string, read_digits-digits_of,
}
use hlfs.Driver.Names.Sizes.{
  IsWhole, read_size, read_size-IsWhole, no_dash-size_2_human_str, length-size_2_human_str,
}
use hlfs.Driver.Names.Flags.{validate_rw_type-rw_type_2_str, validate_access_mode-access_mode_2_str}

no_dash-tail : (c : ℕ) (s : List ℕ) → no_dash (c ∷ s) ≡ true → no_dash s ≡ true
unfolding no_dash
no_dash-tail c s e = ground (arith, e)

split_dash :
    (xs ys r r' : List ℕ)
    → no_dash xs ≡ true
    → no_dash ys ≡ true
    → xs ++ (45 ∷ r) ≡ ys ++ (45 ∷ r')
    → (xs ≡ ys) × (r ≡ r')
unfolding no_dash
split_dash [] [] r r' p q e = (refl, cc e)
split_dash [] (y ∷ ys) r r' p q e = ground (arith, q, e)
split_dash (x ∷ xs) [] r r' p q e = ground (arith, p, e)
split_dash (x ∷ xs) (y ∷ ys) r r' p q e =
    let tails : (xs ≡ ys) × (r ≡ r') =
      split_dash xs ys r r' (no_dash-tail x xs p) (no_dash-tail y ys q) (cc e) in
    let heads : x ≡ y = cc e in (cc (heads, tails.0), tails.1)

pub cancel : (p a b : List ℕ) → p ++ a ≡ p ++ b → a ≡ b
cancel [] a b e = e
cancel (c ∷ p) a b e = cancel p a b (cc e)

pub length-append : (s t : List ℕ) → length (s ++ t) ≡ length s + length t
unfolding length
length-append [] t = omega arith
length-append (a ∷ s) t = omega (arith, length-append s t)

length-rw_type_2_str : (t : RwType) → length (rw_type_2_str t) ≤ 6
unfolding length rw_type_2_str
length-rw_type_2_str read = omega arith
length-rw_type_2_str write = omega arith
length-rw_type_2_str cpy = omega arith
length-rw_type_2_str memset = omega arith

length-access_mode_2_str : (m : AccessMode) → length (access_mode_2_str m) ≤ 6
unfolding length access_mode_2_str
length-access_mode_2_str seq = omega arith
length-access_mode_2_str random = omega arith

no_dash-rw_type_2_str : (t : RwType) → no_dash (rw_type_2_str t) ≡ true
unfolding no_dash rw_type_2_str
no_dash-rw_type_2_str read = refl
no_dash-rw_type_2_str write = refl
no_dash-rw_type_2_str cpy = refl
no_dash-rw_type_2_str memset = refl

no_dash-access_mode_2_str : (m : AccessMode) → no_dash (access_mode_2_str m) ≡ true
unfolding no_dash access_mode_2_str
no_dash-access_mode_2_str seq = refl
no_dash-access_mode_2_str random = refl

-- The sizes of a task are in range, and whole numbers of the units of their texts.
pub record IsNameable (t : Named) : Type 0 where
  pub buf_size : IsWhole t.buf_size
  pub access_size : IsWhole t.access_size
  pub buf_size_fits : t.buf_size < 2 ^ 64
  pub access_size_fits : t.access_size < 2 ^ 32
  pub thread_idx_fits : t.thread_idx < 2 ^ 31

length-task_part : (t : Named) → IsNameable t → length (task_part t) < 256
unfolding task_part length
length-task_part t n = omega (
  arith,
  length-append (size_2_human_str t.buf_size) (
      45 ∷ rw_type_2_str t.rw_type
      ++ (45 ∷ access_mode_2_str t.access_mode
          ++ (45 ∷ size_2_human_str t.access_size ++ (45 ∷ to_string t.thread_idx)))),
  length-append (rw_type_2_str t.rw_type) (
      45 ∷ access_mode_2_str t.access_mode
      ++ (45 ∷ size_2_human_str t.access_size ++ (45 ∷ to_string t.thread_idx))),
  length-append (access_mode_2_str t.access_mode)
      (45 ∷ size_2_human_str t.access_size ++ (45 ∷ to_string t.thread_idx)),
  length-append (size_2_human_str t.access_size) (45 ∷ to_string t.thread_idx),
  length-size_2_human_str t.buf_size n.buf_size_fits,
  length-size_2_human_str t.access_size (omega (arith, n.access_size_fits)),
  length-rw_type_2_str t.rw_type,
  length-access_mode_2_str t.access_mode,
  length-to_string 19 t.thread_idx (omega (arith, n.thread_idx_fits)),
)

task_part-append :
    (t : Named) (s : List ℕ)
    → task_part t ++ s
      ≡ size_2_human_str t.buf_size
        ++ (45 ∷ rw_type_2_str t.rw_type
            ++ (45 ∷ access_mode_2_str t.access_mode
                ++ (45 ∷ size_2_human_str t.access_size ++ (45 ∷ to_string t.thread_idx ++ s))))
unfolding task_part
task_part-append t s = simp append_assoc

size-injective : (a b : ℕ) → IsWhole a → IsWhole b → size_2_human_str a ≡ size_2_human_str b → a ≡ b
size-injective a b p q e = sym (read_size-IsWhole a p) ∙ ap read_size e ∙ read_size-IsWhole b q

digits_back : (n : ℕ) → read_digits (λ acc s. acc) 0 (to_string n) ≡ n
unfolding to_string read_digits
digits_back n = read_digits-digits_of (λ acc s. acc) (suc n) n [] (omega arith)

to_string-injective : (m n : ℕ) → to_string m ≡ to_string n → m ≡ n
to_string-injective m n e =
    sym (digits_back m) ∙ ap (read_digits (λ acc s. acc) 0) e ∙ digits_back n

task_part-injective :
    (t t' : Named) (s : List ℕ)
    → IsNameable t
    → IsNameable t'
    → task_part t ++ (45 ∷ s) ≡ task_part t' ++ (45 ∷ s)
    → t ≡ t'
task_part-injective t t' s n n' e =
    let e₁ = sym (task_part-append t (45 ∷ s)) ∙ e ∙ task_part-append t' (45 ∷ s) in
    let p₁ =
      split_dash (size_2_human_str t.buf_size) (size_2_human_str t'.buf_size) _ _
        (no_dash-size_2_human_str t.buf_size) (no_dash-size_2_human_str t'.buf_size) e₁ in
    let p₂ =
      split_dash (rw_type_2_str t.rw_type) (rw_type_2_str t'.rw_type) _ _
        (no_dash-rw_type_2_str t.rw_type) (no_dash-rw_type_2_str t'.rw_type) p₁.1 in
    let p₃ =
      split_dash (access_mode_2_str t.access_mode) (access_mode_2_str t'.access_mode) _ _
        (no_dash-access_mode_2_str t.access_mode) (no_dash-access_mode_2_str t'.access_mode) p₂.1 in
    let p₄ =
      split_dash (size_2_human_str t.access_size) (size_2_human_str t'.access_size) _ _
        (no_dash-size_2_human_str t.access_size) (no_dash-size_2_human_str t'.access_size) p₃.1 in
    let p₅ =
      split_dash (to_string t.thread_idx) (to_string t'.thread_idx) _ _
        (no_dash-to_string t.thread_idx) (no_dash-to_string t'.thread_idx) p₄.1 in
    let b = size-injective t.buf_size t'.buf_size n.buf_size n'.buf_size p₁.0 in
    let r : t.rw_type ≡ t'.rw_type =
      sym (validate_rw_type-rw_type_2_str [] t.rw_type).1
      ∙ ap str2_rw_type p₂.0
      ∙ (validate_rw_type-rw_type_2_str [] t'.rw_type).1 in
    let m : t.access_mode ≡ t'.access_mode =
      sym (validate_access_mode-access_mode_2_str [] t.access_mode).1
      ∙ ap str2_access_mode p₃.0
      ∙ (validate_access_mode-access_mode_2_str [] t'.access_mode).1 in
    let a = size-injective t.access_size t'.access_size n.access_size n'.access_size p₄.0 in
    let i = to_string-injective t.thread_idx t'.thread_idx p₅.0 in cc (b, r, m, a, i)

-- Two tasks whose data files, in one directory and at one time, have the same path agree in the
-- thread, both sizes, the kind of operation and the access mode, if their sizes, below `2 ^ 64`
-- and `2 ^ 32`, are whole numbers of the units of their texts, and their indices are below `2 ^
-- 31`.
pub data_path-injective :
    (rep_dir_path time : List ℕ) (t t' : Named)
    → IsNameable t
    → IsNameable t'
    → data_path rep_dir_path time t ≡ data_path rep_dir_path time t'
    → t ≡ t'
unfolding data_path
data_path-injective rep_dir_path time t t' n n' e =
    let fits : ltb (length (task_part t)) 256 ≡ true = ground (arith, length-task_part t n) in
    let fits' : ltb (length (task_part t')) 256 ≡ true = ground (arith, length-task_part t' n') in
    let path = some-injective _ _ (rw (fits, fits') at e) in
    let behind =
      cancel time _ _ (cancel (codes "/internal/aep_test-") _ _ (cancel rep_dir_path _ _ path)) in
    task_part-injective t t' (codes "data.dat") n n' (cc behind)
