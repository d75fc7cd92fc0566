-- ===== src/AepStudy/Strided.antt =====
-- The word loop of `aep_native_store_dram` (bgtest/AEP/aep_study.h): its index counts bytes but is
-- applied to words.
use hlfs.Common.{
  ℕ, zero, suc, ◌+◌, ◌-◌, ◌*◌, ◌/◌, ◌%◌, ◌^◌, ◌≤◌, ◌<◌, ◌≡◌, refl, ap, ◌∙◌, ◌⊎◌, inl, inr, true,
  ltb, arith, Returns, bind, mono, Bool-cases,
}
use hlfs.Machine.{State, load, store, mapped, sfence}
use hlfs.Machine.Wrote.{Mapped, Wrote-start}
use hlfs.Instr.Copies.{IsCopy}
use hlfs.Aep.{one_word}
use hlfs.Aep.Native.{clwb_extent}
use hlfs.Aep.Native.Extent.{clwb_extent-Wrote}
use hlfs.AepStudy.{store_words, aep_native_store_dram}

-- Of the first `k` groups of 64 bytes, the first 8 bytes of each are copied, and nothing else.
pub record Strided (s₀ : State) (dest src k : ℕ) (t : State) : Type 0 where
  pub copied : (j : ℕ) → j / 64 < k → j % 64 < 8 → t.mem (dest + j) ≡ s₀.mem (src + j)
  pub kept : (j : ℕ) → (k ≤ j / 64) ⊎ (8 ≤ j % 64) → t.mem (dest + j) ≡ s₀.mem (dest + j)
  pub below : (x : ℕ) → x < dest → t.mem x ≡ s₀.mem x
  pub pages : (p : ℕ) → t.present p ≡ s₀.present p

here :
    {s₀ t : State} {dest src k : ℕ} (a : ℕ)
    → Mapped s₀ a 8
    → Strided s₀ dest src k t
    → mapped t a 8 ≡ true
here a m w = ground (arith, w.pages (a / 4096), w.pages ((a + 8 - 1) / 4096), m a, m (a + 8 - 1))

module _ {s₀ : State} {dest src n : ℕ} (job : IsCopy s₀ dest src (64 * n)) where
  -- The source is as it was.
  source :
      {t : State} (k j : ℕ)
      → k < n
      → j < 64 * n
      → Strided s₀ dest src k t
      → t.mem (src + j) ≡ s₀.mem (src + j)
  source {t} k j lt h w = elim job.apart [
    | inl low ↦ w.below (src + j) (omega arith)
    | inr high ↦
        let at : dest + (src + j - dest) ≡ src + j = omega arith in
        rw at at (w.kept (src + j - dest) (inl (omega arith)))
  ]

  one_word-Strided :
      {t : State} (k : ℕ)
      → k < n
      → Strided s₀ dest src k t
      → Returns (Strided s₀ dest src (suc k)) (one_word 8 (dest + 64 * k) (src + 64 * k) t)
  unfolding load store
  one_word-Strided {t} k lt w =
      rw
        (
          here (src + 64 * k) (λ x a b. job.from x (omega arith) (omega arith)) w,
          here (dest + 64 * k) (λ x a b. job.to x (omega arith) (omega arith)) w,
        )
        (
          _,
          refl,
          record {
            copied = λ j p q. ground (
              arith,
              w.copied j,
              source k j lt (omega arith) w,
              ap (λ (y : ℕ). t.mem y) {x = src + 64 * k + (dest + j - (dest + 64 * k))}
                  {y = src + (64 * k + (j - 64 * k))} (omega arith),
            );
            kept = λ j o. ground (arith, w.kept j);
            below = λ x lo. ground (arith, w.below x);
            pages = w.pages;
          },
        )

  -- The loop makes `n` rounds, one for every 8 bytes of the length.
  store_words_from :
      (fuel k len i : ℕ) {t : State}
      → i ≡ 8 * k
      → len ≤ 8 * n
      → 8 * n < len + 8
      → n < k + fuel
      → k ≤ n
      → 8 * n < 2 ^ 31
      → Strided s₀ dest src k t
      → Returns (Strided s₀ dest src n) (store_words fuel i dest src len t)
  unfolding store_words
  store_words_from zero k len i e le gt enough below small w = absurd (omega arith)
  store_words_from (suc fuel) k len i {t} e le gt enough below small w =
      elim (Bool-cases (ltb i len)) [
        | inl more ↦
            let lt : k < n = ground arith in
            let to : dest + 8 * i ≡ dest + 64 * k = omega arith in
            let from : src + 8 * i ≡ src + 64 * k = omega arith in
            rw (more, to, from, store_words)
              (bind (one_word-Strided k lt w) λ u w'.
                let fits : ltb (i + 8) (2 ^ 31) ≡ true = ground arith in
                rw fits (
                  store_words_from fuel (suc k) len (i + 8) (omega arith) le gt (omega arith)
                    (omega arith) small w'))
        | inr done ↦ let end : k ≡ n = ground arith in rw (done, store_words) (t, refl, rw end at w)
      ]

-- aep_native_store_dram, with a length from 1 to `2 ^ 31 - 8`, buffers that are mapped and
-- disjoint over 64 * ceil(len / 8) bytes, and 64 bytes of addresses behind the destination,
-- returns, having copied the first 8 bytes of each of ceil(len / 8) groups of 64 bytes and no
-- other byte.
pub aep_native_store_dram-Strided :
    {s : State} {dest src len : ℕ} (start end : ℕ)
    → 0 < len
    → IsCopy s dest src (64 * ((len + 7) / 8))
    → dest + len + 64 ≤ 2 ^ 64
    → len ≤ 2 ^ 31 - 8
    → Returns
        (λ r. Strided s dest src ((len + 7) / 8) r.1)
        (aep_native_store_dram start end dest src len s)
unfolding aep_native_store_dram sfence
aep_native_store_dram-Strided {s} {dest} {src} {len} start end pos job fits few =
    bind
      (bind
        (bind
          (store_words_from job (len / 8 + 2) 0 len 0 (omega arith) (omega arith) (omega arith)
            (omega arith) (omega arith) (omega arith) unchanged)
          written_back)
        λ t w.
          (_, refl, record { copied = w.copied; kept = w.kept; below = w.below; pages = w.pages }))
      λ t w. (_, refl, w)
  where
    unchanged : Strided s dest src 0 s
    unchanged = record {
      copied = λ j p q. absurd (omega arith);
      kept = λ j o. refl;
      below = λ x lt. refl;
      pages = λ p. refl;
    }

    written_back :
        (t : State)
        → Strided s dest src ((len + 7) / 8) t
        → Returns (Strided s dest src ((len + 7) / 8)) (clwb_extent dest len t)
    written_back t w =
        mono
          (clwb_extent-Wrote {byte = λ x b. Unit {0}} {s₀ = t} {dest = 0} {i = 0} dest len
            (λ x a b. w.pages (x / 4096) ∙ job.to x (omega arith) (omega arith))
            (w.pages ((dest + 0) / 4096) ∙ job.to (dest + 0) (omega arith) (omega arith)) fits
            (Wrote-start dest (dest + len)))
          λ u v. record {
            copied = λ j p q. v.outside (dest + j) (inr (omega arith)) ∙ w.copied j p q;
            kept = λ j o. v.outside (dest + j) (inr (omega arith)) ∙ w.kept j o;
            below = λ x lt. v.outside x (inr (omega arith)) ∙ w.below x lt;
            pages = λ p. v.pages p ∙ w.pages p;
          }
