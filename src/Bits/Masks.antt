-- ===== src/Bits/Masks.antt =====
-- `&` digit by digit, and powers of two.
use Prim.Native.Nat.{min, bit_and, bit_and-bitwise, digits}
use hlfs.Common.{
  ℕ, zero, suc, ◌+◌, ◌-◌, ◌*◌, ◌/◌, ◌%◌, ◌≤◌, ◌<◌, ◌≡◌, ◌^◌, ◌⊎◌, inl, inr, refl, arith, ◌==◌,
  Bool-cases,
}

pub pow2-suc : (k : ℕ) → 2 ^ suc k ≡ 2 * 2 ^ k
pow2-suc k = omega arith

pub pow2-pos : (k : ℕ) → 0 < 2 ^ k
pow2-pos zero = omega arith
pow2-pos (suc k) = omega (arith, pow2-suc k, pow2-pos k)

abbrev anded : ℕ → ℕ → ℕ → ℕ
anded = digits (λ d. zero) min

-- How many digits are taken is of no account, as long as they are all of `a`.
anded_enough : (n m a b : ℕ) → a ≤ n → a ≤ m → anded n a b ≡ anded m a b
anded_enough zero zero a b p q = refl
anded_enough zero (suc m) zero b p q = refl
anded_enough zero (suc m) (suc a) b p q = absurd (omega arith)
anded_enough (suc n) zero zero b p q = refl
anded_enough (suc n) zero (suc a) b p q = absurd (omega arith)
anded_enough (suc n) (suc m) zero b p q = refl
anded_enough (suc n) (suc m) (suc a) b p q =
    omega (arith, anded_enough n m (suc a / 2) (b / 2) (omega arith) (omega arith))

pub bit_and-halves : (a b : ℕ) → bit_and a b ≡ 2 * bit_and (a / 2) (b / 2) + min (a % 2) (b % 2)
bit_and-halves zero b = omega (arith, bit_and-bitwise 0 b, bit_and-bitwise 0 (b / 2))
bit_and-halves (suc a) b = omega (
  arith,
  bit_and-bitwise (suc a) b,
  bit_and-bitwise (suc a / 2) (b / 2),
  anded_enough a (suc a / 2) (suc a / 2) (b / 2) (omega arith) (omega arith),
)

bit_and-self_below : (n a : ℕ) → a ≤ n → bit_and a a ≡ a
bit_and-self_below zero zero h = refl
bit_and-self_below zero (suc a) h = absurd (omega arith)
bit_and-self_below (suc n) zero h = refl
bit_and-self_below (suc n) (suc a) h =
    omega (arith, bit_and-halves (suc a) (suc a), bit_and-self_below n (suc a / 2) (omega arith))

-- `v & (v - 1)` of twice a number, and of one more than that.
and_pred-even : (w : ℕ) → 0 < w → bit_and (2 * w) (2 * w - 1) ≡ 2 * bit_and w (w - 1)
and_pred-even w pos =
    let l : 2 * w / 2 ≡ w = omega arith in
    let r : (2 * w - 1) / 2 ≡ w - 1 = omega arith in
    rw (bit_and-halves (2 * w) (2 * w - 1), l, r) (omega arith)

and_pred-odd : (w : ℕ) → bit_and (2 * w + 1) (2 * w + 1 - 1) ≡ 2 * w
and_pred-odd w =
    let l : (2 * w + 1) / 2 ≡ w = omega arith in
    let r : (2 * w + 1 - 1) / 2 ≡ w = omega arith in
    rw (bit_and-halves (2 * w + 1) (2 * w + 1 - 1), l, r)
      (omega (arith, bit_and-self_below w w (omega arith)))

-- `v & (v - 1)` vanishes just at the powers of two, of which `v` is one when it lies in
-- `2 ^ k ≤ v < 2 ^ (k + 1)`.
pub and_pred-pow2 :
    (k v : ℕ)
    → 2 ^ k ≤ v
    → v < 2 ^ suc k
    → ((v ≡ 2 ^ k) × (bit_and v (v - 1) ≡ 0)) ⊎ ((2 ^ k < v) × (0 < bit_and v (v - 1)))
and_pred-pow2 zero v low high = let one : v ≡ 1 = omega arith in inl (one, rw one refl)
and_pred-pow2 (suc k) v low high =
    let w : ℕ = v / 2 in
    let lower : 2 ^ k ≤ w = omega (arith, pow2-suc k) in
    elim (Bool-cases (v % 2 == 0)) [
      | inl e ↦
          let twice : v ≡ 2 * w = ground arith in
          let half = and_pred-even w (omega (arith, pow2-pos k)) in
          elim (and_pred-pow2 k w lower (omega (arith, pow2-suc (suc k)))) [
            | inl (same, none_left) ↦
                inl (omega (arith, pow2-suc k), rw twice (omega (arith, half, none_left)))
            | inr (more, some_left) ↦
                inr (omega (arith, pow2-suc k), rw twice (omega (arith, half, some_left)))
          ]
      | inr e ↦
          let twice : v ≡ 2 * w + 1 = ground arith in
          inr (omega (arith, pow2-suc k), rw twice (omega (arith, and_pred-odd w, pow2-pos k)))
    ]
