-- ===== src/AepTest.antt =====
-- util/aep_test.cc: the tests of util/aep.h and util/aep_just.h, the two arrays at addresses that are
-- given. A `none` is a page fault; a failed EXPECT_EQ does not end a test.
pub mod Passes
pub mod Whole
use hlfs.Common.{
  ℕ, zero, suc, ◌+◌, ◌*◌, ◌%◌, Bool, true, false, ◌&&◌, Option, none, some, ◌==◌, leb,
  if◌then◌else◌, ◌>>=◌,
}
use hlfs.Machine.{State, load, store}
use hlfs.Aep.Native.{memset}
use hlfs.Aep.Family.{
  CopyRoutine, copy_routine, native_noflush, native_flush, load_store_noflush, load_store_flush,
  load_ntstore, ntload_store_noflush, ntload_store_flush, ntload_ntstore,
}
use hlfs.AepJust.{just_load, just_ntload, just_store_noflush, just_store_flush, just_ntstore}

abbrev pub buf_len : ℕ
buf_len = 2048

-- `src[i] = (seq++)%26 + 'a'`, `n` times from `i` on, where `seq` is `i`
unfoldable pub fill_letters : (src i n : ℕ) → State → Option State
fill_letters src i zero s = some s
fill_letters src i (suc n) s = store (src + i) 1 (λ j. i % 26 + 97) s >>= fill_letters src (suc i) n

unfoldable pub init : (dest src : ℕ) → State → Option State
init dest src s = fill_letters src 0 buf_len s >>= memset dest 0 buf_len

-- Whether `memcmp` returns 0.
unfoldable pub memcmp : (a b n : ℕ) → State → Option Bool
memcmp a b zero s = some true
memcmp a b (suc n) s = do
  u ← load a 1 s
  v ← load b 1 s
  (let rest = memcmp (a + 1) (b + 1) n s in if u 0 == v 0 then rest else some false)

-- for(int len = 1; len <= 32*32; len += len), then once more with the longest
unfoldable pub doubled {ℓ} :
    {A : Type ℓ} → (fuel : ℕ) → (ℕ → A → Option A) → (len : ℕ) → A → Option A
doubled zero body len a = none
doubled (suc fuel) body len a = elim (leb len (32 * 32)) [
  | true ↦ body len a >>= doubled fuel body (len + len)
  | false ↦ some a
]

unfoldable pub all_sizes {ℓ} : {A : Type ℓ} → (ℕ → A → Option A) → A → Option A
all_sizes body a = doubled 12 body 1 a >>= body (63 + 32 * 32 + 63)

-- One turn of the loop of a copy test, and whether all went well so far.
unfoldable pub check_copy : CopyRoutine → (dest src len : ℕ) → Bool × State → Option (Bool × State)
check_copy r dest src len (passed, s) = do
  s₁ ← copy_routine r (dest + 1) (src + 1) len s
  same ← memcmp (dest + 1) (src + 1) len s₁
  s₂ ← memset (dest + 1) 0 len s₁
  some (passed && same, s₂)

unfoldable pub test_copy : CopyRoutine → (dest src : ℕ) → Bool × State → Option (Bool × State)
test_copy r dest src = all_sizes (check_copy r dest src)

unfoldable pub test_just : (dest src : ℕ) → State → Option State
test_just dest src s = do
  s₁ ← all_sizes (just_load (src + 1)) s
  s₂ ← all_sizes (just_ntload (src + 1)) s₁
  s₃ ← all_sizes (just_store_noflush (dest + 1)) s₂
  s₄ ← all_sizes (just_store_flush (dest + 1)) s₃
  all_sizes (just_ntstore (dest + 1)) s₄

-- `init`, then the tests in the order of the file; whether all passed.
unfoldable pub run_all_tests : (dest src : ℕ) → State → Option (Bool × State)
run_all_tests dest src s = do
  s₁ ← init dest src s
  r₁ ← test_copy native_noflush dest src (true, s₁)
  r₂ ← test_copy native_flush dest src r₁
  r₃ ← test_copy load_store_noflush dest src r₂
  r₄ ← test_copy load_store_flush dest src r₃
  r₅ ← test_copy load_ntstore dest src r₄
  r₆ ← test_copy ntload_store_noflush dest src r₅
  r₇ ← test_copy ntload_store_flush dest src r₆
  r₈ ← test_copy ntload_ntstore dest src r₇
  s₂ ← test_just dest src r₈.1
  some (r₈.0, s₂)
