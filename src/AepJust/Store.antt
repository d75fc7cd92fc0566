-- ===== src/AepJust/Store.antt =====
-- The pieces of the routines of util/aep_just.h that write a buffer.
use native.Mathlib.Nat.{add-zero}
use hlfs.Common.{
  ℕ, ◌+◌, ◌-◌, ◌*◌, ◌%◌, ◌≤◌, ◌<◌, ◌≡◌, refl, ◌∙◌, ◌⊎◌, inl, inr, true, false, Option, leb, ltb,
  ◌==◌, arith, Returns, bind, mono, Bool-cases,
}
use hlfs.Machine.{State, store, nt_store}
use hlfs.Machine.Wrote.{Mapped, Wrote, Wrote-store, Wrote-nt_store}
use hlfs.Instr.{Instr, xmm, ymm, exec, asm}
use hlfs.Instr.Shape.{
  stores, flushing_stores, Ready, stores-Ready, store-Ready, ntstore-Ready, flushing_stores-Ready,
}
use hlfs.AepJust.Kept.{
  Kept, Keeps, store-Keeps, nt_store-Keeps, exec-store-Keeps, exec-ntstore-Keeps, stores-Keeps,
  flushing_stores-Keeps,
}
use hlfs.AepJust.{set_word, set_words, just_less_16b_store}

-- The byte is `~0` of the words, or one that a vector register held at first.
abbrev pub Held : State → ℕ → ℕ → Type 0
Held s₀ x b = (b ≡ 255) ⊎ ((q : ℕ) × (j : ℕ) × (b ≡ s₀.reg q j))

-- The first `off` bytes are written, from words and registers, and the registers are as at first.
abbrev pub Stored : State → (dest lo hi off : ℕ) → State → Type 0
Stored s₀ dest lo hi off t = Wrote (Held s₀) s₀ dest lo hi off t × Kept s₀ t

pub with_Kept :
    {P : State → Type 0} (s₀ t : State) (f : State → Option State)
    → Keeps f
    → Kept s₀ t
    → Returns P (f t)
    → Returns (λ u. P u × Kept s₀ u) (f t)
with_Kept s₀ t f keeps kept r = (r.0, r.1, (r.2, λ q j. keeps t r.0 r.1 q j ∙ kept q j))

module _ (s₀ : State) (dest len : ℕ) (to : Mapped s₀ dest len) where
  module _ {lo hi off : ℕ} {t : State} (p : Stored s₀ dest lo hi off t) where
    set_word-Stored :
        (n a j : ℕ)
        → 0 < n
        → dest ≤ a
        → a ≤ dest + off
        → a + n ≡ dest + j
        → off ≤ j
        → j ≤ len
        → lo ≤ a
        → a + n ≤ hi
        → Returns (Stored s₀ dest lo hi j) (set_word n a t)
    set_word-Stored n a j pos below meets ends grows room l h =
        with_Kept s₀ t (store a n (λ i. 255)) (store-Keeps a n (λ i. 255)) p.1 (
          Wrote-store a n j (λ i. 255) p.0 (λ x b c. to x (omega arith) (omega arith)) pos below
            meets ends grows (λ x b c. inl refl) l h)

  -- Two words that cover `n` bytes.
  set_words-Stored :
      {lo hi off : ℕ} {t : State} (w n : ℕ)
      → Stored s₀ dest lo hi off t
      → 0 < w
      → w ≤ n
      → n ≤ 2 * w
      → off + n ≤ len
      → lo ≤ dest + off
      → dest + off + n ≤ hi
      → Returns (Stored s₀ dest lo hi (off + n)) (set_words w (dest + off) n t)
  set_words-Stored {off} w n p pos le cover room l h =
      bind
        (set_word-Stored p w (dest + off) (off + w) pos (omega arith) (omega arith) (omega arith)
          (omega arith) (omega arith) l (omega arith))
        λ u q.
          set_word-Stored q w (dest + off + n - w) (off + n) pos (omega arith) (omega arith)
            (omega arith) (omega arith) room (omega arith) (omega arith)

  pub just_less_16b_store-Stored :
      {lo hi off : ℕ} {t : State} (n : ℕ)
      → Stored s₀ dest lo hi off t
      → n < 16
      → off + n ≤ len
      → lo ≤ dest + off
      → dest + off + n ≤ hi
      → Returns (Stored s₀ dest lo hi (off + n)) (just_less_16b_store (dest + off) n t)
  unfolding just_less_16b_store
  just_less_16b_store-Stored {off} {t} n p lt room l h =
      let below : leb 16 n ≡ false = ground arith in
      let still : n ≡ 0 → off ≡ off + n = λ z. omega arith in
      let one = λ (w : ℕ) (pos : 0 < w) (z : n ≡ w).
        set_word-Stored p w (dest + off) (off + n) pos (omega arith) (omega arith) (omega arith)
          (omega arith) room l (omega arith) in
      elim (Bool-cases (n == 0)) [
        | inl e ↦ rw (below, e) (t, refl, rw (still (ground arith)) at p)
        | inr e ↦ elim (Bool-cases (leb n 8)) [
          | inl e₁ ↦ elim (Bool-cases (leb n 2)) [
            | inl e₂ ↦ elim (Bool-cases (n == 2)) [
              | inl e₃ ↦ rw (below, e, e₁, e₂, e₃) (one 2 (omega arith) (ground arith))
              | inr e₃ ↦ rw (below, e, e₁, e₂, e₃) (one 1 (omega arith) (ground arith))
            ]
            | inr e₂ ↦ elim (Bool-cases (ltb 4 n)) [
              | inl e₃ ↦
                  rw (below, e, e₁, e₂, e₃)
                    (set_words-Stored 4 n p (omega arith) (ground arith) (ground arith) room l h)
              | inr e₃ ↦
                  rw (below, e, e₁, e₂, e₃)
                    (set_words-Stored 2 n p (omega arith) (ground arith) (ground arith) room l h)
            ]
          ]
          | inr e₁ ↦
              rw (below, e, e₁)
                (set_words-Stored 8 n p (omega arith) (ground arith) (ground arith) room l h)
        ]
      ]

  -- Runs of whole registers.
  module _ (off n : ℕ) (even : (dest + off) % 32 ≡ 0) (room : off + n * 32 ≤ len) where
    ready :
        {lo hi : ℕ} {t : State}
        → Stored s₀ dest lo hi off t
        → Ready (Held s₀) s₀ dest off (dest + off) n lo hi 0 t
    ready p =
        let begin : off + 0 * 32 ≡ off = omega arith in
        rw begin (p.0, λ x r j a b e. inr (r, j, p.1 r j))

    here : Mapped s₀ (dest + off) (n * 32)
    here x a b = to x (omega arith) (omega arith)

    pub store_block :
        {lo hi : ℕ} {t : State}
        → Stored s₀ dest lo hi off t
        → lo ≤ dest + off
        → dest + off + n * 32 ≤ hi
        → Returns
            (Stored s₀ dest lo hi (off + n * 32))
            (asm (stores (λ k. Instr.store ymm k k) 0 n) 0 (dest + off) t)
    store_block {t} p l h =
        with_Kept s₀ t (asm (stores (λ k. Instr.store ymm k k) 0 n) 0 (dest + off))
          (stores-Keeps 0 (dest + off) (λ k. Instr.store ymm k k)
            (λ k. exec-store-Keeps 0 (dest + off) k k ymm) n 0)
          p.1
          (mono
            (stores-Ready off 0 refl even here (λ k. Instr.store ymm k k)
              (λ k u lt q. store-Ready off 0 refl even here k lt (omega arith) (omega arith) q) n 0
              t (omega arith) (ready p))
            λ u q. q.0)

    pub ntstore_block :
        {lo hi : ℕ} {t : State}
        → Stored s₀ dest lo hi off t
        → Returns
            (Stored s₀ dest lo hi (off + n * 32))
            (asm (stores (λ k. Instr.ntstore ymm k k) 0 n) 0 (dest + off) t)
    ntstore_block {t} p =
        with_Kept s₀ t (asm (stores (λ k. Instr.ntstore ymm k k) 0 n) 0 (dest + off))
          (stores-Keeps 0 (dest + off) (λ k. Instr.ntstore ymm k k)
            (λ k. exec-ntstore-Keeps 0 (dest + off) k k ymm) n 0)
          p.1
          (mono
            (stores-Ready off 0 refl even here (λ k. Instr.ntstore ymm k k)
              (λ k u lt q. ntstore-Ready off 0 refl even here k lt q) n 0 t (omega arith) (ready p))
            λ u q. q.0)

    pub flush_block :
        {t : State} (c : ℕ)
        → 2 * c ≡ n
        → (dest + off) % 64 ≡ 0
        → Stored s₀ dest 0 0 off t
        → Returns
            (Stored s₀ dest 0 0 (off + n * 32))
            (asm (flushing_stores (λ k. Instr.store ymm k k) 0 c) 0 (dest + off) t)
    flush_block {t} c twice fit p =
        with_Kept s₀ t (asm (flushing_stores (λ k. Instr.store ymm k k) 0 c) 0 (dest + off))
          (flushing_stores-Keeps 0 (dest + off) (λ k. Instr.store ymm k k)
            (λ k. exec-store-Keeps 0 (dest + off) k k ymm) c 0)
          p.1
          (mono (flushing_stores-Ready off 0 refl even here fit c 0 t (omega arith) refl (ready p))
            λ u q. q.0)

  -- One register of 16 bytes.
  module _ (off : ℕ) (even : (dest + off) % 16 ≡ 0) (room : off + 16 ≤ len) {lo hi : ℕ} {t : State}
      (p : Stored s₀ dest lo hi off t) where
    pub store_16 :
        lo ≤ dest + off
        → dest + off + 16 ≤ hi
        → Returns (Stored s₀ dest lo hi (off + 16)) (exec 0 (dest + off) (Instr.store xmm 0 0) t)
    unfolding exec
    store_16 l h =
        let fits : ((dest + off) % 16 == 0) ≡ true = ground arith in
        rw (add-zero, fits)
          (with_Kept s₀ t (store (dest + off) 16 (t.reg 0)) (store-Keeps (dest + off) 16 (t.reg 0))
            p.1
            (Wrote-store (dest + off) 16 (off + 16) (t.reg 0) p.0
              (λ x b c. to x (omega arith) (omega arith)) (omega arith) (omega arith) (omega arith)
              (omega arith) (omega arith)
              (λ x b c. inr (0, x - (dest + off), p.1 0 (x - (dest + off)))) l h))

    pub ntstore_16 :
        Returns (Stored s₀ dest lo hi (off + 16)) (exec 0 (dest + off) (Instr.ntstore xmm 0 0) t)
    unfolding exec
    ntstore_16 =
        let fits : ((dest + off) % 16 == 0) ≡ true = ground arith in
        rw (add-zero, fits)
          (with_Kept s₀ t (nt_store (dest + off) 16 (t.reg 0))
            (nt_store-Keeps (dest + off) 16 (t.reg 0)) p.1
            (Wrote-nt_store (dest + off) 16 (off + 16) (t.reg 0) p.0
              (λ x b c. to x (omega arith) (omega arith)) (omega arith) (omega arith) (omega arith)
              (omega arith) (omega arith)
              (λ x b c. inr (0, x - (dest + off), p.1 0 (x - (dest + off))))))
