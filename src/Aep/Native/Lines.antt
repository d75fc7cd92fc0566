-- ===== src/Aep/Native/Lines.antt =====
-- Writing line by line, each line written back behind its last byte, covers the buffer.
use hlfs.Common.{
  ℕ, suc, ◌+◌, ◌-◌, ◌%◌, ◌≤◌, ◌<◌, ◌≡◌, refl, ◌⊎◌, inl, inr, Option, some, ltb, ◌==◌, arith,
  Returns, bind, mono, Bool-cases, if◌then◌else◌, ◌>>=◌,
}
use hlfs.Machine.{State, line, clwb}
use hlfs.Walk.{start, advance}
use hlfs.Walk.Sound.{At, advance-At, rounds-At}
use hlfs.Walk.Routines.{Windowed}
use hlfs.Aep.Native.{flush_by_line}

module _ {base len : ℕ} {op : (n : ℕ) → ℕ → State → Option State}
    {J : (lo hi : ℕ) → ℕ → State → Type 0} (window : Windowed base len J (λ d. (d < len) ⊎ (d ≡ 0)))
    (writes : (n off : ℕ) (t : State)
      → off + n ≤ len
      → base + off + n ≤ line (base + off) + 64
      → J (line (base + off)) (line (base + off) + 64) off t
      → Returns (J (line (base + off)) (line (base + off) + 64) (off + n)) (op n off t))
    (s : State) where
  -- A call that stays in its line, and the write-back of that line.
  write_line :
      (n off : ℕ) (t : State)
      → off + n ≤ len
      → (off < len) ⊎ (off ≡ 0)
      → base + off + n ≤ line (base + off) + 64
      → J 0 0 off t
      → Returns (J 0 0 (off + n)) (op n off t >>= clwb (line (base + off)))
  write_line n off t room reached fits j =
      bind (writes n off t room fits (window.widen _ _ off t j))
        λ u j'. window.flush off (off + n) u reached j'

  write_whole :
      (n : ℕ)
      → 0 < n
      → n ≤ 64
      → (off : ℕ) (t : State) → off + n ≤ len
      → (base + off) % 64 ≡ 0
      → J 0 0 off t
      → Returns (J 0 0 (off + n)) (op n off t >>= clwb (base + off))
  write_whole n pos le off t room even j =
      let aligned : line (base + off) ≡ base + off = omega arith in
      rw aligned at (write_line n off t room (inl (omega arith)) (omega arith) j)

  -- Up to the first whole line.
  head_line :
      J 0 0 0 s
      → Returns
          (λ r. At len (J 0 0) r × ((r.len < 1) ⊎ ((base + r.off) % 64 ≡ 0)))
          (let cnt = base % 64 in
            let n = if ltb len (64 - cnt) then len else 64 - cnt in
            if ltb 0 cnt
            then advance n (λ off t. op n off t >>= clwb (line (base + off))) (start len s)
            else some (start len s))
  head_line j = elim (Bool-cases (ltb 0 (base % 64))) [
    | inl e ↦ rw e (
        take (if ltb len (64 - base % 64) then len else 64 - base % 64) (ground arith)
          (ground arith) (ground arith))
    | inr e ↦ rw e (start len s, refl, ((omega arith, j), ground arith))
  ]
    where
      take :
          (n : ℕ)
          → n ≤ len
          → base % 64 + n ≤ 64
          → (n ≡ len) ⊎ (base % 64 + n ≡ 64)
          → Returns
              (λ r. At len (J 0 0) r × ((r.len < 1) ⊎ ((base + r.off) % 64 ≡ 0)))
              (advance n (λ off t. op n off t >>= clwb (line (base + off))) (start len s))
      take n le fits end =
          mono
            (advance-At len (J 0 0) {Pre = λ off. off ≡ 0} n
              (λ off t z i. write_line n off t (omega arith) (inr z) (omega arith) i) refl le
              (omega arith, j))
            λ r p. (p.0, omega arith)

  pub flush_by_line-total : J 0 0 0 s → Returns (J 0 0 len) (flush_by_line base op len s)
  unfolding flush_by_line
  flush_by_line-total j = bind (head_line j) λ r₁ p₁.
      bind
        (rounds-At (suc len) 64 (omega arith) refl
          (λ off t whole i.
            write_whole 64 (omega arith) (omega arith) off t whole.room whole.even i)
          (omega arith) (omega arith) p₁.0)
        λ r₂ p₂. elim (Bool-cases (r₂.len == 0)) [
          | inl e ↦ let full : r₂.off ≡ len = ground arith in rw e (r₂.st, refl, rw full at p₂.0.1)
          | inr e ↦
              let left : 0 < r₂.len = ground arith in
              rw e (
                rw p₂.0.0 at (
                  write_whole r₂.len left (omega arith) r₂.off r₂.st (omega arith) (omega arith)
                    p₂.0.1))
        ]
