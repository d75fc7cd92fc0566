-- ===== src/AepTest/Whole.antt =====
-- All tests of util/aep_test.cc, one behind the other.
use hlfs.Common.{
  ℕ, zero, suc, ◌+◌, ◌-◌, ◌/◌, ◌%◌, ◌≤◌, ◌<◌, ◌≡◌, ◌∙◌, refl, true, Bool, arith, Returns, bind,
  mono,
}
use hlfs.Machine.{State}
use hlfs.Machine.Wrote.{Mapped, Outside, Wrote, Wrote-start, Wrote-store}
use hlfs.Aep.Native.{memset_native_noflush}
use hlfs.Aep.Native.Total.{memset_native_noflush-Wrote}
use hlfs.AepJust.{just_load, just_ntload}
use hlfs.AepJust.Read.{Same}
use hlfs.AepJust.Load.{just_load-Same, just_ntload-Same}
use hlfs.AepJust.Family.{
  StoreRoutine, store_routine, store_noflush, store_flush, ntstore, store_routine-Stored,
}
use hlfs.Aep.Family.{
  native_noflush, native_flush, load_store_noflush, load_store_flush, load_ntstore,
  ntload_store_noflush, ntload_store_flush, ntload_ntstore,
}
use hlfs.AepTest.{buf_len, fill_letters, init, test_just, run_all_tests}
use hlfs.AepTest.Passes.{
  IsTestBench, Untouched, Untouched-then, Zeros, Passing, all_sizes-Returns, test_copy-Passing,
}

module _ {s₀ : State} {dest src : ℕ} (bench : IsTestBench s₀ dest src) where
  loaded : {t u : State} → Untouched s₀ dest t → Same t u → Untouched s₀ dest u
  loaded u same = record {
    outside = λ x o. same.mem x ∙ u.outside x o;
    pages = λ p. same.present p ∙ u.pages p;
  }

  just_load-Untouched :
      (len : ℕ) (t : State)
      → len ≤ 1150
      → Untouched s₀ dest t
      → Returns (Untouched s₀ dest) (just_load (src + 1) len t)
  just_load-Untouched len t short u =
      mono
        (just_load-Same (src + 1) len
          λ x a b. u.pages (x / 4096) ∙ bench.src_mapped x (omega arith) (omega arith))
        (λ v same. loaded u same)

  just_ntload-Untouched :
      (len : ℕ) (t : State)
      → len ≤ 1150
      → Untouched s₀ dest t
      → Returns (Untouched s₀ dest) (just_ntload (src + 1) len t)
  just_ntload-Untouched len t short u =
      mono
        (just_ntload-Same (src + 1) len
          λ x a b. u.pages (x / 4096) ∙ bench.src_mapped x (omega arith) (omega arith))
        (λ v same. loaded u same)

  store_routine-Untouched :
      (r : StoreRoutine) (len : ℕ) (t : State)
      → len ≤ 1150
      → Untouched s₀ dest t
      → Returns (Untouched s₀ dest) (store_routine r (dest + 1) len t)
  store_routine-Untouched r len t short u =
      mono
        (store_routine-Stored r
          λ x a b. u.pages (x / 4096) ∙ bench.dest_mapped x (omega arith) (omega arith))
        (λ v q. Untouched-then bench _ _ len short u q.0)

  test_just-Untouched :
      (t : State) → Untouched s₀ dest t → Returns (Untouched s₀ dest) (test_just dest src t)
  unfolding test_just store_routine
  test_just-Untouched t u =
      bind (all_sizes-Returns (just_load (src + 1)) just_load-Untouched t u) λ t₁ u₁.
        bind (all_sizes-Returns (just_ntload (src + 1)) just_ntload-Untouched t₁ u₁) λ t₂ u₂.
          bind (all_sizes-Returns _ (store_routine-Untouched store_noflush) t₂ u₂) λ t₃ u₃.
            bind (all_sizes-Returns _ (store_routine-Untouched store_flush) t₃ u₃)
              λ t₄ u₄. all_sizes-Returns _ (store_routine-Untouched ntstore) t₄ u₄

abbrev Letter : ℕ → ℕ → ℕ → Type 0
Letter src x b = b ≡ (x - src) % 26 + 97

fill_letters-Wrote :
    {s₀ : State} {src : ℕ} (n i : ℕ) {s : State}
    → Mapped s₀ src buf_len
    → i + n ≡ buf_len
    → Wrote (Letter src) s₀ src src (src + buf_len) i s
    → Returns (Wrote (Letter src) s₀ src src (src + buf_len) buf_len) (fill_letters src i n s)
unfolding fill_letters
fill_letters-Wrote zero i {s} to e w =
    let same : i ≡ buf_len = omega arith in (s, refl, rw same at w)
fill_letters-Wrote {s₀} {src} (suc n) i {s} to e w =
    bind
      (Wrote-store (src + i) 1 (suc i) (λ j. i % 26 + 97) w
        (λ x a b. to x (omega arith) (omega arith)) (omega arith) (omega arith) (omega arith)
        (omega arith) (omega arith) (λ x a b. let same : x - src ≡ i = omega arith in rw same refl)
        (omega arith) (omega arith))
      λ t v. fill_letters-Wrote n (suc i) to (omega arith) v

-- What `init` leaves.
record Filled (s : State) (dest src : ℕ) (t : State) : Type 0 where
  bench : IsTestBench t dest src
  zeros : Zeros dest t
  letters : (i : ℕ) → i < buf_len → t.mem (src + i) ≡ i % 26 + 97
  elsewhere : (x : ℕ) → Outside dest buf_len x → Outside src buf_len x → t.mem x ≡ s.mem x

init-Filled :
    {s : State} {dest src : ℕ}
    → IsTestBench s dest src
    → Returns (Filled s dest src) (init dest src s)
unfolding init memset_native_noflush
init-Filled {s} {dest} {src} bench =
    bind (fill_letters-Wrote buf_len 0 bench.src_mapped refl (Wrote-start _ _)) λ t w.
      mono
        (memset_native_noflush-Wrote {s = t} {dest = dest} {len = buf_len} 0
          λ x a b. w.pages (x / 4096) ∙ bench.dest_mapped x a b)
        λ u v. record {
          bench = record {
            apart = bench.apart;
            alike = bench.alike;
            dest_mapped =
                λ x a b. v.pages (x / 4096) ∙ w.pages (x / 4096) ∙ bench.dest_mapped x a b;
            src_mapped = λ x a b. v.pages (x / 4096) ∙ w.pages (x / 4096) ∙ bench.src_mapped x a b;
          };
          zeros = λ x a b. omega (arith, v.inside x a b);
          letters = λ i lt.
              let apart : Outside dest buf_len (src + i) = ground (arith, bench.apart) in
              let back : src + i - src ≡ i = omega arith in
              v.outside (src + i) apart
              ∙ rw back at (w.inside (src + i) (omega arith) (omega arith));
          elsewhere = λ x o p. v.outside x o ∙ w.outside x p;
        }

abbrev pub AllPassed : State → (dest src : ℕ) → Bool × State → Type 0
AllPassed s dest src q =
    (q.0 ≡ true)
    × ((i : ℕ) → i < buf_len → q.1.mem (src + i) ≡ i % 26 + 97)
    × ((x : ℕ) → Outside dest buf_len x → Outside src buf_len x → q.1.mem x ≡ s.mem x)

-- The program of aep_test.cc, with its two arrays disjoint, lying alike modulo 32 and on present
-- pages, comes to its end without a fault: every comparison of its eight copy tests, over the
-- twelve lengths of each, succeeds. The source then holds its letters, and memory off the two
-- arrays is as it was.
pub run_all_tests-AllPassed :
    {s : State} {dest src : ℕ}
    → IsTestBench s dest src
    → Returns (AllPassed s dest src) (run_all_tests dest src s)
unfolding run_all_tests
run_all_tests-AllPassed {s} {dest} {src} given = bind (init-Filled given) λ s₁ f.
    let test = test_copy-Passing f.bench in
    let begun : Passing f.bench (true, s₁) =
      (refl, record { outside = λ x o. refl; pages = λ p. refl }, f.zeros) in
    bind (test native_noflush (true, s₁) begun) λ r₁ p₁. bind (test native_flush r₁ p₁) λ r₂ p₂.
      bind (test load_store_noflush r₂ p₂) λ r₃ p₃. bind (test load_store_flush r₃ p₃) λ r₄ p₄.
        bind (test load_ntstore r₄ p₄) λ r₅ p₅. bind (test ntload_store_noflush r₅ p₅) λ r₆ p₆.
          bind (test ntload_store_flush r₆ p₆) λ r₇ p₇. bind (test ntload_ntstore r₇ p₇) λ r₈ p₈.
            bind (test_just-Untouched f.bench r₈.1 p₈.1) λ s₂ u. (
              (r₈.0, s₂),
              refl,
              (
                p₈.0,
                λ i lt. u.outside (src + i) (ground (arith, given.apart)) ∙ f.letters i lt,
                λ x o p. u.outside x o ∙ f.elsewhere x o p,
              ),
            )
