-- ===== src/Aep/Small.antt =====
-- `cpy_less_16b_noflush` inside a larger copy: it copies its bytes, whatever their alignment.
use hlfs.Common.{
  ℕ, ◌+◌, ◌-◌, ◌*◌, ◌≤◌, ◌<◌, ◌≡◌, refl, ap, inl, inr, false, leb, ltb, ◌==◌, arith, Returns, bind,
  Bool-cases,
}
use hlfs.Machine.{State}
use hlfs.Machine.Wrote.{Wrote-load, Wrote-store}
use hlfs.Instr.Copies.{CopyByte, IsCopy, Copied}
use hlfs.Aep.{one_word, two_words, cpy_less_16b_noflush}

module _ {s₀ : State} {dest src total : ℕ} (job : IsCopy s₀ dest src total) where
  -- What was loaded from the source at offset `a` belongs at offset `a`.
  right_word :
      {lo hi off : ℕ} {s : State} (n a : ℕ)
      → Copied s₀ dest src lo hi off s
      → off ≤ total
      → a + n ≤ total
      → (x : ℕ) → dest + a ≤ x
      → x < dest + a + n
      → CopyByte s₀ dest src x (s.mem (src + a + (x - (dest + a))))
  right_word {off} n a w begun room x p q = ground (
    arith,
    w.outside (src + a + (x - (dest + a))),
    job.apart,
    ap (λ (y : ℕ). s₀.mem y) {x = src + a + (x - (dest + a))} {y = src + (x - dest)} (omega arith),
  )

  module _ {lo hi off : ℕ} {s : State} (w : Copied s₀ dest src lo hi off s) where
    pub one_word-Copied :
        (n : ℕ)
        → 0 < n
        → off + n ≤ total
        → lo ≤ dest + off
        → dest + off + n ≤ hi
        → Returns (Copied s₀ dest src lo hi (off + n)) (one_word n (dest + off) (src + off) s)
    one_word-Copied n pos room l h =
        rw (Wrote-load (src + off) n w (λ x a b. job.from x (omega arith) (omega arith)) pos) (
          Wrote-store (dest + off) n (off + n) _ w (λ x a b. job.to x (omega arith) (omega arith))
            pos (omega arith) (omega arith) (omega arith) (omega arith)
            (right_word n off w (omega arith) room) l h)

    two_words-Copied :
        (n len : ℕ)
        → 0 < n
        → n ≤ len
        → len ≤ 2 * n
        → off + len ≤ total
        → lo ≤ dest + off
        → dest + off + len ≤ hi
        → Returns
            (Copied s₀ dest src lo hi (off + len))
            (two_words n (dest + off) (src + off) len s)
    two_words-Copied n len pos le cover room l h =
        let from : src + off + len - n ≡ src + (off + len - n) = omega arith in
        let to : dest + off + len - n ≡ dest + (off + len - n) = omega arith in
        rw
          (
            Wrote-load (src + off) n w (λ x a b. job.from x (omega arith) (omega arith)) pos,
            from,
            to,
            Wrote-load (src + (off + len - n)) n w (λ x a b. job.from x (omega arith) (omega arith))
                pos,
          )
          (bind
            (Wrote-store (dest + off) n (off + n) _ w
              (λ x a b. job.to x (omega arith) (omega arith)) pos (omega arith) (omega arith)
              (omega arith) (omega arith) (right_word n off w (omega arith) (omega arith)) l
              (omega arith))
            λ t q.
              Wrote-store (dest + (off + len - n)) n (off + len) _ q
                (λ x a b. job.to x (omega arith) (omega arith)) pos (omega arith) (omega arith)
                (omega arith) (omega arith)
                (right_word n (off + len - n) w (omega arith) (omega arith)) (omega arith)
                (omega arith))

    -- cpy_less_16b_noflush, called for fewer than 16 bytes at an offset of a copy between disjoint
    -- buffers on present pages, where those bytes lie inside the buffers and inside a window of
    -- addresses, returns; when the bytes up to the offset were copied, those behind it are then
    -- copied too, no other byte is changed, and the cache is dirtied only inside the window.
    pub cpy_less_16b-Copied :
        (n : ℕ)
        → n < 16
        → off + n ≤ total
        → lo ≤ dest + off
        → dest + off + n ≤ hi
        → Returns
            (Copied s₀ dest src lo hi (off + n))
            (cpy_less_16b_noflush (dest + off) (src + off) n s)
    unfolding cpy_less_16b_noflush
    cpy_less_16b-Copied n lt room l h =
        let below : leb 16 n ≡ false = ground arith in
        let none_left : n ≡ 0 → off ≡ off + n = λ z. omega arith in
        elim (Bool-cases (n == 0)) [
          | inl e ↦ rw (below, e) (s, refl, rw (none_left (ground arith)) at w)
          | inr e ↦ elim (Bool-cases (leb n 8)) [
            | inl e₁ ↦ elim (Bool-cases (leb n 2)) [
              | inl e₂ ↦ elim (Bool-cases (n == 2)) [
                | inl e₃ ↦
                    let z : n ≡ 2 = ground arith in
                    rw (below, e, e₁, e₂, e₃, z)
                      (one_word-Copied 2 (omega arith) (omega arith) l (omega arith))
                | inr e₃ ↦
                    let z : n ≡ 1 = ground arith in
                    rw (below, e, e₁, e₂, e₃, z)
                      (one_word-Copied 1 (omega arith) (omega arith) l (omega arith))
              ]
              | inr e₂ ↦ elim (Bool-cases (ltb 4 n)) [
                | inl e₃ ↦
                    rw (below, e, e₁, e₂, e₃)
                      (two_words-Copied 4 n (omega arith) (ground arith) (ground arith) room l h)
                | inr e₃ ↦
                    rw (below, e, e₁, e₂, e₃)
                      (two_words-Copied 2 n (omega arith) (ground arith) (ground arith) room l h)
              ]
            ]
            | inr e₁ ↦
                rw (below, e, e₁)
                  (two_words-Copied 8 n (omega arith) (ground arith) (ground arith) room l h)
          ]
        ]
