-- ===== src/Tests/Bits.antt =====
-- Scans of single words.
use hlfs.Common.{ℕ, ◌≡◌, ◌≢◌, ◌^◌, ◌⊎◌, refl, arith, some, true, false}
use hlfs.Bits.{bsf, bsr, ffz, bit_fls, fls, is_pow2}
use hlfs.Bits.Scan.{is_pow2-bit_fls}

is_pow2-bit_fls_example :
    ((k : ℕ) × (4096 ≡ 2 ^ k) × (bit_fls 4096 ≡ some k) × (is_pow2 4096 ≡ true))
    ⊎ (((k : ℕ) → 4096 ≢ 2 ^ k) × (is_pow2 4096 ≡ false))
is_pow2-bit_fls_example = is_pow2-bit_fls 4096 (omega arith)

fls_1096 : fls 1096 ≡ some 11
unfolding fls bit_fls bsr
fls_1096 = refl

ffz_7 : ffz 7 ≡ some 3
unfolding ffz bsf
ffz_7 = refl
