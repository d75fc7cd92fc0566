-- ===== src/Bits/Scan.antt =====
-- What the scans find.
use Prim.Native.Nat.{bit_and}
use mathlib.Core.Option.{some-injective}
use hlfs.Common.{
  ℕ, zero, suc, ◌+◌, ◌-◌, ◌*◌, ◌/◌, ◌%◌, ◌≤◌, ◌<◌, ◌≡◌, ◌^◌, ◌⊎◌, inl, inr, refl, ap, ◌∙◌, arith,
  true, false, some, ◌==◌, leb, ◌≢◌, Bool-cases, Returns,
}
use hlfs.Bits.Masks.{pow2-suc, pow2-pos, and_pred-pow2}
use hlfs.Bits.{lowest, highest, bsf, bsr, bit_ffs, bit_fls, fls, is_pow2}

zero_of : (v : ℕ) → (v == 0) ≡ true → v ≡ 0
zero_of v e = ground arith

-- The highest bit of a word of `bits` bits.
highest_lem :
    (bits word : ℕ)
    → 0 < word
    → word < 2 ^ bits
    → (2 ^ highest bits word ≤ word) × (word < 2 ^ suc (highest bits word))
unfolding highest
highest_lem zero word pos fits = absurd (omega arith)
highest_lem (suc bits) word pos fits = elim (Bool-cases (word / 2 == 0)) [
  | inl e ↦ rw (e, highest) (ground arith)
  | inr e ↦
      rw (e, highest)
        (let more : 0 < word / 2 = ground arith in
          let ih = highest_lem bits (word / 2) more (omega (arith, pow2-suc bits)) in
          omega (
            arith,
            ih,
            pow2-suc (highest bits (word / 2)),
            pow2-suc (suc (highest bits (word / 2))),
          ))
]

doubled : (a b p r : ℕ) → a ≡ b * p → r ≡ 2 * p → 2 * a ≡ b * r
doubled a b p r e e' = grind arith

-- The lowest one.
lowest_lem :
    (bits word : ℕ)
    → 0 < word
    → word < 2 ^ bits
    → (q : ℕ) × (word ≡ (2 * q + 1) * 2 ^ lowest bits word)
unfolding lowest
lowest_lem zero word pos fits = absurd (omega arith)
lowest_lem (suc bits) word pos fits = elim (Bool-cases (word % 2 == 1)) [
  | inl e ↦ rw (e, lowest) (word / 2, ground arith)
  | inr e ↦
      rw (e, lowest)
        (let even : word ≡ 2 * (word / 2) = ground arith in
          let ih = lowest_lem bits (word / 2) (omega arith) (omega (arith, pow2-suc bits)) in
          (
            ih.0,
            even
                ∙ doubled (word / 2) (2 * ih.0 + 1) (2 ^ lowest bits (word / 2)) _ ih.1
                    (pow2-suc (lowest bits (word / 2))),
          ))
]

highest-lt : (bits word : ℕ) → word < 2 ^ bits → 0 < word → highest bits word < bits
unfolding highest
highest-lt zero word fits pos = absurd (omega arith)
highest-lt (suc bits) word fits pos = elim (Bool-cases (word / 2 == 0)) [
  | inl e ↦ rw (e, highest) (omega arith)
  | inr e ↦
      rw (e, highest)
        (omega (arith, highest-lt bits (word / 2) (omega (arith, pow2-suc bits)) (ground arith)))
]

-- Between neighbouring powers of two there is none.
pub pow2-le : (j k : ℕ) → j ≤ k → 2 ^ j ≤ 2 ^ k
pow2-le zero k h = omega (arith, pow2-pos k)
pow2-le (suc j) zero h = absurd (omega arith)
pow2-le (suc j) (suc k) h = omega (arith, pow2-suc j, pow2-suc k, pow2-le j k (omega arith))

pow2-between : (j k : ℕ) → 2 ^ k < 2 ^ j → 2 ^ suc k ≤ 2 ^ j
pow2-between j k lt = elim (Bool-cases (leb j k)) [
  | inl e ↦ absurd (omega (arith, pow2-le j k (ground arith)))
  | inr e ↦ pow2-le (suc k) j (ground arith)
]

pub bit_fls_lem :
    (x : ℕ)
    → 0 < x
    → x < 2 ^ 64
    → Returns (λ k. (k < 64) × (2 ^ k ≤ x) × (x < 2 ^ suc k)) (bit_fls x)
unfolding bit_fls bsr
bit_fls_lem x pos fits =
    let some_bit : (x == 0) ≡ false = ground arith in
    let h = highest_lem 64 x pos fits in rw some_bit (_, refl, (highest-lt 64 x fits pos, h.0, h.1))

pub bit_fls-pow2 : (k : ℕ) → k < 64 → bit_fls (2 ^ k) ≡ some k
bit_fls-pow2 k lt =
    let (j, found, (room, low, high)) =
      bit_fls_lem (2 ^ k) (pow2-pos k)
        (omega (arith, pow2-le (suc k) 64 lt, pow2-suc k, pow2-pos k)) in
    let same : j ≡ k = elim (Bool-cases (leb (suc j) k)) [
      | inl e ↦ absurd (omega (arith, high, pow2-le (suc j) k (ground arith)))
      | inr e ↦ elim (Bool-cases (leb (suc k) j)) [
        | inl f ↦
            absurd (omega (arith, low, pow2-suc k, pow2-pos k, pow2-le (suc k) j (ground arith)))
        | inr f ↦ ground arith
      ]
    ] in
    found ∙ ap some same

pub bit_fls-highest : (x : ℕ) {k : ℕ} → bit_fls x ≡ some k → highest 64 x ≡ k
unfolding bit_fls bsr
bit_fls-highest x e = elim (Bool-cases (x == 0)) [
  | inl z ↦ ground (arith, e, z)
  | inr z ↦ some-injective _ _ (rw z at e)
]

bit_ffs_lem :
    (x : ℕ) → 0 < x → x < 2 ^ 64 → Returns (λ k. (q : ℕ) × (x ≡ (2 * q + 1) * 2 ^ k)) (bit_ffs x)
unfolding bit_ffs bsf
bit_ffs_lem x pos fits =
    let some_bit : (x == 0) ≡ false = ground arith in
    rw some_bit (_, refl, lowest_lem 64 x pos fits)

-- For a word of 64 bits above 0, fls is one more than the exponent, below 64, of the largest power
-- of two that is at most the word, and `__ffs` the exponent of the power of two of which the word
-- is an odd multiple.
pub fls-bit_ffs :
    (x : ℕ)
    → 0 < x
    → x < 2 ^ 64
    → ((h : ℕ) × (fls x ≡ some (h + 1)) × (h < 64) × (2 ^ h ≤ x) × (x < 2 ^ (h + 1)))
      × ((l : ℕ) × (q : ℕ) × (bit_ffs x ≡ some l) × (x ≡ (2 * q + 1) * 2 ^ l))
unfolding fls
fls-bit_ffs x pos fits =
    let some_bit : (x == 0) ≡ false = ground arith in
    let (h, e, (room, low, high)) = bit_fls_lem x pos fits in
    let (l, e', (q, odd)) = bit_ffs_lem x pos fits in
    (
      (h, rw (some_bit, e), room, low, let s : h + 1 ≡ suc h = omega arith in rw s high),
      (l, q, e', odd),
    )

-- For a word of 64 bits, either it is a power of two, whose exponent `__fls` finds, and is_pow2 is
-- true, or it is none and is_pow2 is false.
pub is_pow2-bit_fls :
    (v : ℕ)
    → v < 2 ^ 64
    → ((k : ℕ) × (v ≡ 2 ^ k) × (bit_fls v ≡ some k) × (is_pow2 v ≡ true))
      ⊎ (((k : ℕ) → v ≢ 2 ^ k) × (is_pow2 v ≡ false))
unfolding is_pow2
is_pow2-bit_fls v fits = elim (Bool-cases (v == 0)) [
  | inl e ↦ inr ((λ k z. omega (arith, pow2-pos k, z, zero_of v e)), rw e)
  | inr e ↦
      let (k, found, (room, low, high)) = bit_fls_lem v (ground arith) fits in
      elim (and_pred-pow2 k v low high) [
        | inl (same, z) ↦ inl (k, same, found, rw (e, z))
        | inr (more, some_left) ↦ inr (
          (λ j z. omega (arith, pow2-between j k (omega arith), z)),
          (let nz : (bit_and v (v - 1) == 0) ≡ false = ground arith in rw (e, nz)),
        )
      ]
]
