-- ===== src/Driver/Names/Decimal.antt =====
-- The decimal digits of a number are read back, have no dash and are few.
use hlfs.Common.{
  ℕ, zero, suc, ◌+◌, ◌-◌, ◌*◌, ◌/◌, ◌%◌, ◌^◌, ◌≤◌, ◌<◌, ◌≡◌, refl, ◌∙◌, inl, inr, Bool, true, false,
  List, [], ◌∷◌, ◌++◌, ◌==◌, ◌&&◌, ltb, leb, length, arith, Bool-cases,
}
use hlfs.Driver.Names.{digits_of, to_string}

abbrev pub is_digit : ℕ → Bool
is_digit c = leb 48 c && leb c 57

-- Behind `acc`, the digits of a text are read, and what follows them is handed to `k`.
unfoldable pub read_digits {ℓ} : {A : Type ℓ} → (ℕ → List ℕ → A) → (acc : ℕ) → List ℕ → A
read_digits k acc [] = k acc []
read_digits k acc (c ∷ s) = elim (is_digit c) [
  | true ↦ read_digits k (acc * 10 + (c - 48)) s
  | false ↦ k acc (c ∷ s)
]

module _ {ℓ} {A : Type ℓ} (k : ℕ → List ℕ → A) where
  read_digits-digit :
      (acc d m : ℕ) (s : List ℕ)
      → d < 10
      → acc * 10 + d ≡ m
      → read_digits k acc ((48 + d) ∷ s) ≡ read_digits k m s
  unfolding read_digits
  read_digits-digit acc d m s lt e =
      let test : is_digit (48 + d) ≡ true = ground arith in
      let next : acc * 10 + (48 + d - 48) ≡ m = omega (arith, e) in
      rw (test, next, read_digits) refl

  pub read_digits-digits_of :
      (fuel n : ℕ) (rest : List ℕ)
      → n < fuel
      → read_digits k 0 (digits_of fuel n rest) ≡ read_digits k n rest
  unfolding digits_of
  read_digits-digits_of zero n rest lt = absurd (omega arith)
  read_digits-digits_of (suc fuel) n rest lt = elim (Bool-cases (ltb n 10)) [
    | inl e ↦ rw (e, digits_of) (read_digits-digit 0 n n rest (ground arith) (omega arith))
    | inr e ↦
        rw (e, digits_of)
          (read_digits-digits_of fuel (n / 10) ((48 + n % 10) ∷ rest) (ground arith)
            ∙ read_digits-digit (n / 10) (n % 10) n rest (omega arith) (omega arith))
  ]

-- What stands behind the digits keeps its first character.
pub digits_of-append :
    (fuel n : ℕ) (rest more : List ℕ)
    → digits_of fuel n rest ++ more ≡ digits_of fuel n (rest ++ more)
unfolding digits_of
digits_of-append zero n rest more = refl
digits_of-append (suc fuel) n rest more = elim (Bool-cases (ltb n 10)) [
  | inl e ↦ rw (e, digits_of) refl
  | inr e ↦ rw (e, digits_of) (digits_of-append fuel (n / 10) ((48 + n % 10) ∷ rest) more)
]

unfoldable pub no_dash : List ℕ → Bool
no_dash [] = true
no_dash (c ∷ s) = elim (c == 45) [ true ↦ false | false ↦ no_dash s ]

no_dash-digit : (d : ℕ) (s : List ℕ) → no_dash ((48 + d) ∷ s) ≡ no_dash s
unfolding no_dash
no_dash-digit d s = let other : (48 + d == 45) ≡ false = ground arith in rw (other, no_dash) refl

no_dash-digits_of :
    (fuel n : ℕ) (rest : List ℕ) → no_dash rest ≡ true → no_dash (digits_of fuel n rest) ≡ true
unfolding digits_of
no_dash-digits_of zero n rest ok = ok
no_dash-digits_of (suc fuel) n rest ok = elim (Bool-cases (ltb n 10)) [
  | inl e ↦ rw (e, digits_of) (no_dash-digit n rest ∙ ok)
  | inr e ↦
      rw (e, digits_of)
        (no_dash-digits_of fuel (n / 10) ((48 + n % 10) ∷ rest) (no_dash-digit (n % 10) rest ∙ ok))
]

pub no_dash-to_string_append :
    (n : ℕ) (rest : List ℕ) → no_dash rest ≡ true → no_dash (to_string n ++ rest) ≡ true
unfolding to_string
no_dash-to_string_append n rest ok =
    rw (digits_of-append (suc n) n [] rest) (no_dash-digits_of (suc n) n rest ok)

pub no_dash-to_string : (n : ℕ) → no_dash (to_string n) ≡ true
unfolding to_string no_dash
no_dash-to_string n = no_dash-digits_of (suc n) n [] refl

one_digit_less :
    (k n : ℕ) → n < 10 ^ suc k → ltb n 10 ≡ false → (j : ℕ) × (k ≡ suc j) × (n / 10 < 10 ^ suc j)
one_digit_less zero n lt e = absurd (ground (arith, lt, e))
one_digit_less (suc j) n lt e =
    let ten : 10 ^ suc (suc j) ≡ 10 * 10 ^ suc j = grind arith in (j, refl, omega (arith, lt, ten))

length-digits_of :
    (fuel k n : ℕ) (rest : List ℕ)
    → n < 10 ^ suc k
    → length (digits_of fuel n rest) ≤ suc k + length rest
unfolding digits_of length
length-digits_of zero k n rest lt = omega arith
length-digits_of (suc fuel) k n rest lt = elim (Bool-cases (ltb n 10)) [
  | inl e ↦ rw (e, digits_of) (omega arith)
  | inr e ↦
      let (j, more, less) = one_digit_less k n lt e in
      let shorter = length-digits_of fuel j (n / 10) ((48 + n % 10) ∷ rest) less in
      rw (e, digits_of) (omega (arith, shorter, more))
]

pub length-to_string : (k n : ℕ) → n < 10 ^ suc k → length (to_string n) ≤ suc k
unfolding to_string length
length-to_string k n lt = omega (arith, length-digits_of (suc n) k n [] lt)
