-- ===== src/AepTest/Passes.antt =====
-- The tests of util/aep_test.cc pass.
use hlfs.Common.{
  ℕ, zero, suc, ◌+◌, ◌-◌, ◌/◌, ◌%◌, ◌^◌, ◌≤◌, ◌<◌, ◌≡◌, ◌∙◌, refl, sym, ap, ◌⊎◌, inl, inr, Bool,
  true, false, ◌&&◌, Option, some, ◌==◌, leb, arith, Returns, bind, Bool-cases,
}
use hlfs.Machine.{State, load, mapped}
use hlfs.Machine.Wrote.{Mapped, Outside, Wrote}
use hlfs.Instr.Copies.{IsVectorCopy, Copied}
use hlfs.Aep.Native.{memset_native_noflush}
use hlfs.Aep.Native.Total.{memset_native_noflush-Wrote}
use hlfs.Aep.Family.{CopyRoutine, copy_routine-Copied}
use hlfs.Bits.Masks.{pow2-suc}
use hlfs.AepTest.{buf_len, memcmp, doubled, all_sizes, check_copy, test_copy}

-- The loop over the lengths ends, and keeps what each turn keeps.
module _ {ℓ κ} {A : Type ℓ} {P : A → Type κ} (body : ℕ → A → Option A)
    (turn : (len : ℕ) (a : A) → len ≤ 1150 → P a → Returns P (body len a)) where
  doubled-Returns :
      (k j len : ℕ) (a : A)
      → j + k ≡ 11
      → 2 ^ j ≤ len
      → P a
      → Returns P (doubled (suc k) body len a)
  unfolding doubled
  doubled-Returns zero j len a eq low p =
      let eleven : j ≡ 11 = omega arith in
      let large : 2048 ≤ len = rw eleven at low in
      let over : leb len 1024 ≡ false = ground (arith, large) in rw (over, doubled) (a, refl, p)
  doubled-Returns (suc k) j len a eq low p = elim (Bool-cases (leb len 1024)) [
    | inr e ↦ rw (e, doubled) (a, refl, p)
    | inl e ↦
        let next : 2 ^ suc j ≤ len + len = omega (arith, low, pow2-suc j) in
        rw (e, doubled)
          (bind (turn len a (ground arith) p)
            λ b q. doubled-Returns k (suc j) (len + len) b (omega arith) next q)
  ]

  pub all_sizes-Returns : (a : A) → P a → Returns P (all_sizes body a)
  unfolding all_sizes
  all_sizes-Returns a p =
      bind (doubled-Returns 11 0 1 a refl (omega arith) p) λ b q. turn 1150 b (omega arith) q

-- The two arrays, which lie alike with respect to the 32 bytes of a register.
pub record IsTestBench (s : State) (dest src : ℕ) : Type 0 where
  pub apart : (src + buf_len ≤ dest) ⊎ (dest + buf_len ≤ src)
  pub alike : dest % 32 ≡ src % 32
  pub dest_mapped : Mapped s dest buf_len
  pub src_mapped : Mapped s src buf_len

-- Where a test stands: no other memory has changed, and no page.
pub record Untouched (s₀ : State) (dest : ℕ) (s : State) : Type 0 where
  pub outside : (x : ℕ) → Outside dest buf_len x → s.mem x ≡ s₀.mem x
  pub pages : (p : ℕ) → s.present p ≡ s₀.present p

abbrev pub Zeros : ℕ → State → Type 0
Zeros dest s = (x : ℕ) → dest ≤ x → x < dest + buf_len → s.mem x ≡ 0

mapped_first : (s : State) (a n : ℕ) → Mapped s a (suc n) → mapped s a 1 ≡ true
mapped_first s a n p = ground (arith, p a, p (a + 1 - 1))

memcmp-same :
    (n a b : ℕ) (s : State)
    → Mapped s a n
    → Mapped s b n
    → ((i : ℕ) → i < n → s.mem (a + i) ≡ s.mem (b + i))
    → memcmp a b n s ≡ some true
unfolding memcmp load
memcmp-same zero a b s p q same = refl
memcmp-same (suc n) a b s p q same =
    let here : (s.mem (a + 0) == s.mem (b + 0)) ≡ true = ground (arith, same 0) in
    let others =
      memcmp-same n (a + 1) (b + 1) s (λ x l h. p x (omega arith) (omega arith))
        (λ x l h. q x (omega arith) (omega arith))
        (λ i lt.
          let left : a + 1 + i ≡ a + suc i = omega arith in
          let right : b + suc i ≡ b + 1 + i = omega arith in
          ap s.mem left ∙ same (suc i) (omega arith) ∙ ap s.mem right) in
    rw (mapped_first s a n p, mapped_first s b n q, here, others) refl

module _ {s₀ : State} {dest src : ℕ} (bench : IsTestBench s₀ dest src) where
  -- Between two copies all tests have passed, and the destination is 0.
  abbrev pub Passing : Bool × State → Type 0
  Passing q = (q.0 ≡ true) × Untouched s₀ dest q.1 × Zeros dest q.1

  job_of :
      {t : State}
      → Untouched s₀ dest t
      → (len : ℕ) → len ≤ 1150
      → IsVectorCopy t (dest + 1) (src + 1) len × Mapped t (dest + 1) (len + 1)
  job_of u len short = (
    record {
      copy = record {
        apart = ground (arith, bench.apart);
        from = λ x a b. u.pages (x / 4096) ∙ bench.src_mapped x (omega arith) (omega arith);
        to = λ x a b. u.pages (x / 4096) ∙ bench.dest_mapped x (omega arith) (omega arith);
      };
      alike = omega (arith, bench.alike);
    },
    λ x a b. u.pages (x / 4096) ∙ bench.dest_mapped x (omega arith) (omega arith),
  )

  copied_same :
      {t t₁ : State} (lo hi len : ℕ)
      → len ≤ 1150
      → Untouched s₀ dest t
      → Copied t (dest + 1) (src + 1) lo hi len t₁
      → memcmp (dest + 1) (src + 1) len t₁ ≡ some true
  copied_same {t} {t₁} lo hi len short u w =
      memcmp-same len (dest + 1) (src + 1) t₁
        (λ x a b.
          w.pages (x / 4096) ∙ u.pages (x / 4096) ∙ bench.dest_mapped x (omega arith) (omega arith))
        (λ x a b.
          w.pages (x / 4096) ∙ u.pages (x / 4096) ∙ bench.src_mapped x (omega arith) (omega arith))
        λ i lt.
          let back : src + 1 + (dest + 1 + i - (dest + 1)) ≡ src + 1 + i = omega arith in
          let apart : Outside (dest + 1) len (src + 1 + i) = ground (arith, bench.apart) in
          w.inside (dest + 1 + i) (omega arith) (omega arith)
          ∙ ap t.mem back
          ∙ sym (w.outside (src + 1 + i) apart)

  pub Untouched-then :
      {byte : ℕ → ℕ → Type 0} {t t₁ : State} (lo hi len : ℕ)
      → len ≤ 1150
      → Untouched s₀ dest t
      → Wrote byte t (dest + 1) lo hi len t₁
      → Untouched s₀ dest t₁
  Untouched-then lo hi len short u w = record {
    outside = λ x o. w.outside x (ground (arith, o)) ∙ u.outside x o;
    pages = λ p. w.pages p ∙ u.pages p;
  }

  check_copy-Passing :
      (r : CopyRoutine) (len : ℕ) (q : Bool × State)
      → len ≤ 1150
      → Passing q
      → Returns Passing (check_copy r dest src len q)
  unfolding check_copy memset_native_noflush
  check_copy-Passing r len (passed, t) short (ok, u, zeros) =
      let (job, ends) = job_of u len short in
      bind (copy_routine-Copied r job ends) λ t₁ w.
        let u₁ = Untouched-then _ _ len short u w in
        rw (copied_same _ _ len short u w) (
          bind
            (memset_native_noflush-Wrote {s = t₁} {dest = dest + 1} {len = len} 0
              λ x a b. w.pages (x / 4096) ∙ ends x (omega arith) (omega arith))
            λ t₂ v. (
              (passed && true, t₂),
              refl,
              (
                rw ok refl,
                Untouched-then _ _ len short u₁ v,
                λ x a b. ground (arith, v.inside x, v.outside x, w.outside x, zeros x a b),
              ),
            ))

  pub test_copy-Passing :
      (r : CopyRoutine) (q : Bool × State) → Passing q → Returns Passing (test_copy r dest src q)
  unfolding test_copy
  test_copy-Passing r q p =
      all_sizes-Returns (check_copy r dest src)
        (λ len a short pa. check_copy-Passing r len a short pa) q p
