-- ===== src/AepJust/Read.antt =====
-- The pieces of the routines of util/aep_just.h that read a buffer.
use hlfs.Common.{
  ℕ, ◌+◌, ◌-◌, ◌*◌, ◌/◌, ◌%◌, ◌≤◌, ◌<◌, ◌≡◌, refl, ◌∙◌, inl, inr, true, false, leb, ltb, ◌==◌,
  if◌then◌else◌, arith, Returns, bind, mono, Bool-cases,
}
use hlfs.Machine
use hlfs.Machine.{State, mapped}
use hlfs.Machine.Wrote.{Mapped}
use hlfs.Instr.{Instr, xmm, ymm, move_in, exec, asm}
use hlfs.Instr.Shape.{loads, Loaded, loads-Loaded}
use hlfs.AepJust.{read_word, read_words, just_less_16b_load}

-- Memory, cache and pages are as they were; the registers may not be.
pub record Same (s₀ t : State) : Type 0 where
  pub mem : (x : ℕ) → t.mem x ≡ s₀.mem x
  pub status : (x : ℕ) → t.status x ≡ s₀.status x
  pub present : (p : ℕ) → t.present p ≡ s₀.present p

pub Same-mapped : {s₀ t : State} (a n : ℕ) → Same s₀ t → Mapped s₀ a n → 0 < n → mapped t a n ≡ true
Same-mapped a n same m pos =
    ground (arith, same.present (a / 4096), same.present ((a + n - 1) / 4096), m a, m (a + n - 1))

module _ {s₀ : State} (src len : ℕ) (from : Mapped s₀ src len) where
  read_word-Same :
      {t : State} (n a : ℕ)
      → 0 < n
      → src ≤ a
      → a + n ≤ src + len
      → Same s₀ t
      → Returns (Same s₀) (read_word n a t)
  unfolding Machine.load
  read_word-Same {t} n a pos low high same =
      rw (Same-mapped a n same (λ x p q. from x (omega arith) (omega arith)) pos) (t, refl, same)

  read_words-Same :
      {t : State} (n a m : ℕ)
      → 0 < n
      → n ≤ m
      → src ≤ a
      → a + m ≤ src + len
      → Same s₀ t
      → Returns (Same s₀) (read_words n a m t)
  read_words-Same n a m pos le low high same =
      bind (read_word-Same n a pos low (omega arith) same)
        λ u same'. read_word-Same n (a + m - n) pos (omega arith) (omega arith) same'

  -- The words of the tail read again what those of 8 bytes have read.
  tail-Same :
      {t : State} (n a : ℕ)
      → 0 < n
      → src ≤ a
      → a + n ≤ src + len
      → Same s₀ t
      → Returns (Same s₀) (
          if leb n 2
          then (if n == 2 then read_word 2 a t else read_word 1 a t)
          else if ltb 4 n
          then read_words 4 a n t
          else read_words 2 a n t)
  tail-Same n a pos low high same = elim (Bool-cases (leb n 2)) [
    | inl e ↦ elim (Bool-cases (n == 2)) [
      | inl e₁ ↦ rw (e, e₁) (read_word-Same 2 a (omega arith) low (ground arith) same)
      | inr e₁ ↦ rw (e, e₁) (read_word-Same 1 a (omega arith) low (ground arith) same)
    ]
    | inr e ↦ elim (Bool-cases (ltb 4 n)) [
      | inl e₁ ↦ rw (e, e₁) (read_words-Same 4 a n (omega arith) (ground arith) low high same)
      | inr e₁ ↦ rw (e, e₁) (read_words-Same 2 a n (omega arith) (ground arith) low high same)
    ]
  ]

  pub just_less_16b_load-Same :
      {t : State} (n a : ℕ)
      → n < 16
      → src ≤ a
      → a + n ≤ src + len
      → Same s₀ t
      → Returns (Same s₀) (just_less_16b_load a n t)
  unfolding just_less_16b_load
  just_less_16b_load-Same {t} n a lt low high same =
      let below : leb 16 n ≡ false = ground arith in
      elim (Bool-cases (n == 0)) [
        | inl e ↦ rw (below, e) (t, refl, same)
        | inr e ↦ elim (Bool-cases (leb n 8)) [
          | inl e₁ ↦ rw (below, e, e₁) (tail-Same n a (ground arith) low high same)
          | inr e₁ ↦
              rw (below, e, e₁)
                (bind (read_words-Same 8 a n (omega arith) (ground arith) low high same)
                  λ u same'. tail-Same n a (ground arith) low high same')
        ]
      ]

  -- A block that loads successive registers, by either instruction.
  pub loads-Same :
      (ld : ℕ → Instr) (n off : ℕ) {t : State}
      → ((k : ℕ) (s : State) → exec (src + off) 0 (ld k) s ≡ move_in (src + off + k * 32) ymm k s)
      → (src + off) % 32 ≡ 0
      → off + n * 32 ≤ len
      → Same s₀ t
      → Returns (Same s₀) (asm (loads ld 0 n) (src + off) 0 t)
  loads-Same ld n off {t} moves even room same =
      mono
        (loads-Loaded (src + off) even ld 0 moves n 0 n (omega arith)
          (λ x a b. same.present (x / 4096) ∙ from x (omega arith) (omega arith)) fresh)
        λ u l. record {
          mem = λ x. l.mem x ∙ same.mem x;
          status = λ x. l.status x ∙ same.status x;
          present = λ p. l.present p ∙ same.present p;
        }
    where
      fresh : Loaded t (src + off) 0 t
      fresh = record {
        regs = λ r j p q. absurd (omega arith);
        mem = λ x. refl;
        status = λ x. refl;
        present = λ p. refl;
      }

  pub load_16-Same :
      (off : ℕ) {t : State}
      → (src + off) % 16 ≡ 0
      → off + 16 ≤ len
      → Same s₀ t
      → Returns (Same s₀) (move_in (src + off) xmm 0 t)
  unfolding Machine.load
  load_16-Same off {t} even room same =
      let fits : ((src + off) % 16 == 0) ≡ true = ground arith in
      rw
        (
          fits,
          Same-mapped (src + off) 16 same (λ x p q. from x (omega arith) (omega arith))
              (omega arith),
        )
        (_, refl, record { mem = same.mem; status = same.status; present = same.present })
