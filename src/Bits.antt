-- ===== src/Bits.antt =====
-- util/bitops.h, on words of 64 bits. `bsf` and `bsr` are the instructions of its inline assembly;
-- what they leave for 0 is undefined, which is `none`. `bit_ffs` and `bit_fls` are `__ffs` and `__fls`.
pub mod Masks
pub mod Scan
use Prim.Native.Nat.{bit_and}
use hlfs.Common.{
  ℕ, zero, suc, ◌+◌, ◌-◌, ◌/◌, ◌%◌, ◌^◌, Bool, true, false, Option, none, some, ◌==◌, if◌then◌else◌,
  ◌>>=◌,
}

-- The lowest and the highest bit that is set, of a word that has one.
unfoldable pub lowest : (bits : ℕ) → ℕ → ℕ
lowest zero word = 0
lowest (suc bits) word = elim (word % 2 == 1) [ true ↦ 0 | false ↦ suc (lowest bits (word / 2)) ]

unfoldable pub highest : (bits : ℕ) → ℕ → ℕ
highest zero word = 0
highest (suc bits) word = elim (word / 2 == 0) [ true ↦ 0 | false ↦ suc (highest bits (word / 2)) ]

unfoldable pub bsf : ℕ → Option ℕ
unfolding lowest
bsf word = if word == 0 then none else some (lowest 64 word)

unfoldable pub bsr : ℕ → Option ℕ
unfolding highest
bsr word = if word == 0 then none else some (highest 64 word)

unfoldable pub bit_ffs : ℕ → Option ℕ
bit_ffs word = bsf word

-- `~word`
unfoldable pub ffz : ℕ → Option ℕ
ffz word = bsf (2 ^ 64 - 1 - word)

unfoldable pub bit_fls : ℕ → Option ℕ
bit_fls word = bsr word

unfoldable pub fls : ℕ → Option ℕ
fls x = if x == 0 then some 0 else (bit_fls x >>= λ i. some (i + 1))

unfoldable pub is_pow2 : ℕ → Bool
is_pow2 v = if v == 0 then false else bit_and v (v - 1) == 0
