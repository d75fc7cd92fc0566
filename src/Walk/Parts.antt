-- ===== src/Walk/Parts.antt =====
-- The parts of a walk, as the routines compose them: the prologue, the blocks and the rest.
use native.Mathlib.Nat.{add_assoc}
use hlfs.Common.{
  ℕ, suc, ◌+◌, ◌-◌, ◌*◌, ◌/◌, ◌%◌, ◌≤◌, ◌<◌, ◌≡◌, ◌≢◌, refl, ◌⊎◌, inl, inr, Option, leb, ltb, ◌==◌,
  ◌&&◌, if◌then◌else◌, arith, Returns, bind, mono, Bool-cases,
}
use hlfs.Machine.{State, line}
use hlfs.Walk.{Run, Kernels, advance, to_16, to_bit, prologue, blocks, rest}
use hlfs.Walk.Sound.{Near, Steps, NearSteps, WholeSteps, At, Lined, advance-At, once-At, rounds-At}

-- An odd multiple of 16 or 32 lies that far from the end of its line, and its successor is a
-- multiple of twice as much; an even one is that already.
odd_multiple :
    (bit base a : ℕ)
    → (bit ≡ 16) ⊎ (bit ≡ 32)
    → a % bit ≡ 0
    → (a / bit % 2 ≡ 1
        → a ≤ line base + 64
        → (a + bit ≤ line base + 64) × ((a + bit) % (bit * 2) ≡ 0))
      × (a / bit % 2 ≢ 1 → a % (bit * 2) ≡ 0)
odd_multiple bit base a which even = elim which [
  | inl e ↦ let h : a % 16 ≡ 0 = rw e at even in rw e (λ o l. omega arith, λ n. omega arith)
  | inr e ↦ let h : a % 32 ≡ 0 = rw e at even in rw e (λ o l. omega arith, λ n. omega arith)
]

module _ {base total : ℕ} {I : ℕ → State → Type 0} (ks : Kernels) where
  pub blocks-At :
      {r : Run}
      → WholeSteps base total I ks
      → Lined base r
      → At total I r
      → Returns
          (λ r'. At total I r' × Lined base r' × (r'.len < 64) × (r.off ≤ r'.off))
          (blocks ks r)
  unfolding blocks
  blocks-At {r} steps al at =
      bind
        (rounds-At (suc r.len) 512 (omega arith) refl steps.k16x32 (omega arith) (omega arith) at)
        λ r₁ p₁.
          bind
            (once-At total I 256 steps.k8x32
              (λ le. record { room = omega arith; even = omega arith }) p₁.0)
            λ r₂ p₂.
              bind
                (once-At total I 128 steps.k4x32
                  (λ le. record { room = omega arith; even = omega arith }) p₂.0)
                λ r₃ p₃.
                  mono
                    (once-At total I 64 steps.k2x32
                      (λ le. record { room = omega arith; even = omega arith }) p₃.0)
                    λ r₄ p₄. (p₄.0, omega arith, omega arith, omega arith)

  -- What is left after the blocks lies in one cache line.
  pub rest-At :
      {r : Run}
      → NearSteps base total r.off I ks
      → Lined base r
      → r.len < 64
      → At total I r
      → Returns
          (λ r'.
            At total I r'
            × (r'.len < 16)
            × Near base total r.off 1 r'.off r'.len
            × (line (base + r'.off) ≡ line (base + r.off) ⊎ r.len ≡ 0))
          (rest ks r)
  unfolding rest
  rest-At {r} steps al lt at =
      bind
        (once-At total I 32 steps.k32
          (λ le. record {
            after = omega arith;
            room = omega arith;
            even = omega arith;
            in_line = omega arith;
          })
          at)
        λ r₁ p₁.
          mono
            (once-At total I 16 steps.k16
              (λ le. record {
                after = omega arith;
                room = omega arith;
                even = omega arith;
                in_line = omega arith;
              })
              p₁.0)
            λ r₂ p₂. (
              p₂.0,
              omega arith,
              record {
                after = omega arith;
                room = omega arith;
                even = omega arith;
                in_line = omega arith;
              },
              omega arith,
            )

  to_16-At :
      (r : Run)
      → ((n : ℕ) → n < 16 → Steps (λ off. Near base total 0 1 off n) I n (ks.small n))
      → r.off ≡ 0
      → At total I r
      → Returns
          (λ r'.
            At total I r'
            × ((r'.len < 1) ⊎ ((base + r'.off) % 16 ≡ 0))
            × (base + r'.off ≤ line base + 64))
          (to_16 base ks.small r)
  unfolding to_16
  to_16-At r small start at = elim (Bool-cases (ltb 0 ((base + r.off) % 16))) [
    | inl e ↦ rw e (
        take (if ltb r.len (16 - (base + r.off) % 16) then r.len else 16 - (base + r.off) % 16)
          (ground arith) (ground arith) (ground arith) (ground arith))
    | inr e ↦ rw e (r, refl, (at, ground arith, omega arith))
  ]
    where
      take :
          (n : ℕ)
          → n < 16
          → n ≤ r.len
          → (base + r.off) % 16 + n ≤ 16
          → (n ≡ r.len) ⊎ ((base + r.off) % 16 + n ≡ 16)
          → Returns
              (λ r'.
                At total I r'
                × ((r'.len < 1) ⊎ ((base + r'.off) % 16 ≡ 0))
                × (base + r'.off ≤ line base + 64))
              (advance n (ks.small n) r)
      take n lt le fit end =
          mono
            (advance-At total I n (small n lt)
              (record {
                after = omega arith;
                room = omega arith;
                even = omega arith;
                in_line = omega arith;
              })
              le at)
            λ r' p. (p.0, omega arith, omega arith)

  to_bit-At :
      (bit : ℕ) {k : ℕ → State → Option State} (r : Run)
      → Steps (λ off. Near base total 0 bit off bit) I bit k
      → (bit ≡ 16) ⊎ (bit ≡ 32)
      → (r.len < bit) ⊎ ((base + r.off) % bit ≡ 0)
      → base + r.off ≤ line base + 64
      → At total I r
      → Returns
          (λ r'.
            At total I r'
            × ((r'.len < bit) ⊎ ((base + r'.off) % (bit * 2) ≡ 0))
            × (base + r'.off ≤ line base + 64)
            × ((r'.off ≡ r.off) ⊎ (r'.off ≡ r.off + bit)))
          (to_bit bit base k r)
  unfolding to_bit
  to_bit-At bit {k} r step which even in_line at =
      elim (Bool-cases ((base + r.off) / bit % 2 == 1 && leb bit r.len)) [
        | inl e ↦
            let le : bit ≤ r.len = ground arith in
            let odd : (base + r.off) / bit % 2 ≡ 1 = ground arith in
            let up = (odd_multiple bit base (base + r.off) which (omega arith)).0 odd in_line in
            rw e (
              mono
                (advance-At total I bit step
                  (record {
                    after = omega arith;
                    room = omega arith;
                    even = omega arith;
                    in_line = omega arith;
                  })
                  le at)
                λ r' p. (p.0, rw p.1 (inr (rw (← add_assoc) up.1)), omega arith, inr p.1))
        | inr e ↦
            let off_or_short : (r.len < bit) ⊎ ((base + r.off) % (bit * 2) ≡ 0) =
              elim (Bool-cases (leb bit r.len)) [
                | inl le ↦
                    inr
                      ((odd_multiple bit base (base + r.off) which (ground arith)).1 (ground arith))
                | inr gt ↦ inl (ground arith)
              ] in
            rw e (r, refl, (at, off_or_short, in_line, inl refl))
      ]

  pub prologue-At :
      (r : Run)
      → NearSteps base total 0 I ks
      → r.off ≡ 0
      → At total I r
      → Returns (λ r'. At total I r' × Lined base r') (prologue base ks r)
  unfolding prologue
  prologue-At r steps start at = bind (to_16-At r steps.small start at) λ r₁ p₁.
      bind (to_bit-At 16 r₁ steps.k16 (inl refl) (omega arith) p₁.2 p₁.0) λ r₂ p₂.
        mono (to_bit-At 32 r₂ steps.k32 (inr refl) (omega arith) p₂.2 p₂.0)
          λ r₃ p₃. (p₃.0, omega arith)
