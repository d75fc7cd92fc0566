-- ===== src/Driver/Names/Sizes.antt =====
-- A size is read back from its text, if it is a whole number of the units of the text.
use hlfs.Common.{
  ℕ, suc, ◌+◌, ◌-◌, ◌*◌, ◌/◌, ◌%◌, ◌^◌, ◌≤◌, ◌<◌, ◌≡◌, refl, ap, ◌∙◌, inl, inr, true, false, List,
  [], ◌∷◌, ◌++◌, ◌==◌, leb, length, if◌then◌else◌, arith, Bool-cases,
}
use hlfs.Bits.Masks.{pow2-pos, pow2-suc}
use hlfs.Bits.Scan.{pow2-le}
use hlfs.Driver.Vary.Round.{pow2-add}
use hlfs.Driver.Names.{to_string, size_2_human_str}
use hlfs.Driver.Names.Decimal.{
  read_digits, read_digits-digits_of, digits_of-append, is_digit, no_dash, no_dash-to_string_append,
  length-to_string,
}

abbrev pub unit_of : (size : ℕ) → ℕ
unit_of size =
    if leb (1024 * 1024 * 1024) size
    then 1024 * 1024 * 1024
    else if leb (1024 * 1024) size
    then 1024 * 1024
    else if leb 1024 size
    then 1024
    else 1

-- `G`, `M`, `K` and `B`
abbrev pub unit : ℕ → ℕ
unit c =
    if c == 71
    then 1024 * 1024 * 1024
    else if c == 77
    then 1024 * 1024
    else if c == 75
    then 1024
    else 1

abbrev pub scaled : ℕ → List ℕ → ℕ
scaled acc [] = acc
scaled acc (c ∷ s) = acc * unit c

unfoldable pub read_size : List ℕ → ℕ
read_size s = read_digits scaled 0 s

read_size-to_string :
    (n c : ℕ) → is_digit c ≡ false → read_size (to_string n ++ (c ∷ [])) ≡ n * unit c
unfolding read_size to_string read_digits
read_size-to_string n c letter =
    ap (read_digits scaled 0) (digits_of-append (suc n) n [] (c ∷ []))
    ∙ read_digits-digits_of scaled (suc n) n (c ∷ []) (omega arith)
    ∙ rw (letter, read_digits) refl

pub read_size-size_2_human_str :
    (size : ℕ) → read_size (size_2_human_str size) ≡ size / unit_of size * unit_of size
unfolding size_2_human_str
read_size-size_2_human_str size = elim (Bool-cases (leb (1024 * 1024 * 1024) size)) [
  | inl e ↦ rw e (read_size-to_string (size / (1024 * 1024 * 1024)) 71 refl)
  | inr e ↦ elim (Bool-cases (leb (1024 * 1024) size)) [
    | inl f ↦ rw (e, f) (read_size-to_string (size / (1024 * 1024)) 77 refl)
    | inr f ↦ elim (Bool-cases (leb 1024 size)) [
      | inl g ↦ rw (e, f, g) (read_size-to_string (size / 1024) 75 refl)
      | inr g ↦ rw (e, f, g) (read_size-to_string size 66 refl ∙ omega arith)
    ]
  ]
]

abbrev pub IsWhole : ℕ → Type 0
IsWhole size = size % unit_of size ≡ 0

-- A size that is a whole number of the units of its text, B, K, M or G, is read back from the text
-- that Size2HumanStr makes of it.
pub read_size-IsWhole : (size : ℕ) → IsWhole size → read_size (size_2_human_str size) ≡ size
read_size-IsWhole size whole = read_size-size_2_human_str size ∙ ground (arith, whole)

pub no_dash-size_2_human_str : (size : ℕ) → no_dash (size_2_human_str size) ≡ true
unfolding size_2_human_str no_dash
no_dash-size_2_human_str size = ground (
  arith,
  no_dash-to_string_append (size / (1024 * 1024 * 1024)) (71 ∷ []) refl,
  no_dash-to_string_append (size / (1024 * 1024)) (77 ∷ []) refl,
  no_dash-to_string_append (size / 1024) (75 ∷ []) refl,
  no_dash-to_string_append size (66 ∷ []) refl,
)

length-append_one : (s : List ℕ) (c : ℕ) → length (s ++ (c ∷ [])) ≡ suc (length s)
unfolding length
length-append_one [] c = refl
length-append_one (a ∷ s) c = ap suc (length-append_one s c)

with_unit : (n c : ℕ) → n < 2 ^ 64 → length (to_string n ++ (c ∷ [])) ≤ 21
with_unit n c lt =
    omega (arith, length-append_one (to_string n) c, length-to_string 19 n (omega arith))

pub length-size_2_human_str : (size : ℕ) → size < 2 ^ 64 → length (size_2_human_str size) ≤ 21
unfolding size_2_human_str
length-size_2_human_str size lt = ground (
  arith,
  with_unit (size / (1024 * 1024 * 1024)) 71 (omega arith),
  with_unit (size / (1024 * 1024)) 77 (omega arith),
  with_unit (size / 1024) 75 (omega arith),
  with_unit size 66 lt,
)

pow2-whole : (j k : ℕ) → 2 ^ j ≤ 2 ^ k → (q : ℕ) × (2 ^ k ≡ q * 2 ^ j)
pow2-whole j k le = elim (Bool-cases (leb j k)) [
  | inl e ↦
      let split : k ≡ k - j + j = ground arith in
      (2 ^ (k - j), ap (λ n. 2 ^ n) split ∙ pow2-add (k - j) j)
  | inr e ↦
      let less : 2 ^ suc k ≤ 2 ^ j = pow2-le (suc k) j (ground arith) in
      absurd (omega (arith, less, le, pow2-suc k, pow2-pos k))
]

-- Powers of two are whole.
pub pow2-IsWhole : (k : ℕ) → IsWhole (2 ^ k)
pow2-IsWhole k = elim (Bool-cases (leb (1024 * 1024 * 1024) (2 ^ k))) [
  | inl e ↦ let (q, eq) = pow2-whole 30 k (ground arith) in rw e (omega (arith, eq))
  | inr e ↦ elim (Bool-cases (leb (1024 * 1024) (2 ^ k))) [
    | inl f ↦ let (q, eq) = pow2-whole 20 k (ground arith) in rw (e, f) (omega (arith, eq))
    | inr f ↦ elim (Bool-cases (leb 1024 (2 ^ k))) [
      | inl g ↦ let (q, eq) = pow2-whole 10 k (ground arith) in rw (e, f, g) (omega (arith, eq))
      | inr g ↦ rw (e, f, g) (omega arith)
    ]
  ]
]
