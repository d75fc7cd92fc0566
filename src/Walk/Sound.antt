-- ===== src/Walk/Sound.antt =====
-- The walk covers a buffer from end to end: whatever each call of a kernel carries from one
-- offset to the next, the walk carries from the start to the end.
use hlfs.Common.{
  ℕ, zero, suc, ◌+◌, ◌%◌, ◌≤◌, ◌<◌, ◌≡◌, refl, ◌⊎◌, inl, inr, Option, leb, arith, Returns, bind,
  mono, Bool-cases,
}
use hlfs.Machine.{State, line}
use hlfs.Walk.{Run, Kernels, advance, once, rounds}

-- A call for the `n` bytes at `off` that stays in the cache line of `base + t`.
pub record Near (base total t al off n : ℕ) : Type 0 where
  pub after : t ≤ off
  pub room : off + n ≤ total
  pub even : (base + off) % al ≡ 0
  pub in_line : base + off + n ≤ line (base + t) + 64

-- A call for whole lines.
pub record Whole (base total off n : ℕ) : Type 0 where
  pub room : off + n ≤ total
  pub even : (base + off) % 64 ≡ 0

-- The kernel makes its step wherever it may be called.
abbrev pub Steps : (ℕ → Type 0) → (ℕ → State → Type 0) → ℕ → (ℕ → State → Option State) → Type 0
Steps Pre I n k = (off : ℕ) (s : State) → Pre off → I off s → Returns (I (off + n)) (k off s)

pub record NearSteps (base total t : ℕ) (I : ℕ → State → Type 0) (ks : Kernels) : Type 0 where
  pub small : (n : ℕ) → n < 16 → Steps (λ off. Near base total t 1 off n) I n (ks.small n)
  pub k16 : Steps (λ off. Near base total t 16 off 16) I 16 ks.k16
  pub k32 : Steps (λ off. Near base total t 32 off 32) I 32 ks.k32

pub record WholeSteps (base total : ℕ) (I : ℕ → State → Type 0) (ks : Kernels) : Type 0 where
  pub k2x32 : Steps (λ off. Whole base total off 64) I 64 ks.k2x32
  pub k4x32 : Steps (λ off. Whole base total off 128) I 128 ks.k4x32
  pub k8x32 : Steps (λ off. Whole base total off 256) I 256 ks.k8x32
  pub k16x32 : Steps (λ off. Whole base total off 512) I 512 ks.k16x32

module _ (total : ℕ) (I : ℕ → State → Type 0) where
  abbrev pub At : Run → Type 0
  At r = (r.off + r.len ≡ total) × I r.off r.st

  pub advance-At :
      {Pre : ℕ → Type 0} (n : ℕ) {k : ℕ → State → Option State} {r : Run}
      → Steps Pre I n k
      → Pre r.off
      → n ≤ r.len
      → At r
      → Returns (λ r'. At r' × (r'.off ≡ r.off + n)) (advance n k r)
  unfolding advance
  advance-At n {k} {r} step pre le (sum, inv) =
      bind (step r.off r.st pre inv) λ s inv'. (_, refl, ((omega arith, inv'), refl))

  -- Either the step is taken or too little is left for it.
  abbrev pub Stepped : ℕ → Run → Run → Type 0
  Stepped n r r' = At r' × (((n ≤ r.len) × (r'.off ≡ r.off + n)) ⊎ ((r.len < n) × (r'.off ≡ r.off)))

  pub once-At :
      {Pre : ℕ → Type 0} (n : ℕ) {k : ℕ → State → Option State} {r : Run}
      → Steps Pre I n k
      → (n ≤ r.len → Pre r.off)
      → At r
      → Returns (Stepped n r) (once n k r)
  unfolding once
  once-At n {k} {r} step pre at = elim (Bool-cases (leb n r.len)) [
    | inl e ↦
        let le : n ≤ r.len = ground arith in
        rw e (mono (advance-At n step (pre le) le at) λ r' p. (p.0, inl (le, p.1)))
    | inr e ↦ rw e (r, refl, (at, inr (ground arith, refl)))
  ]

-- How far the pointer is aligned, as far as what is left needs it.
pub record Lined (base : ℕ) (r : Run) : Type 0 where
  pub even16 : (r.len < 1) ⊎ ((base + r.off) % 16 ≡ 0)
  pub even32 : (r.len < 16) ⊎ ((base + r.off) % 32 ≡ 0)
  pub even64 : (r.len < 32) ⊎ ((base + r.off) % 64 ≡ 0)

-- The loop runs out of bytes before it runs out of rounds.
pub rounds-At :
    {base total : ℕ} {I : ℕ → State → Type 0} (fuel n : ℕ) {k : ℕ → State → Option State} {r : Run}
    → 0 < n
    → n % 64 ≡ 0
    → Steps (λ off. Whole base total off n) I n k
    → r.len < fuel
    → (r.len < n) ⊎ ((base + r.off) % 64 ≡ 0)
    → At total I r
    → Returns
        (λ r'. At total I r' × (r'.len < n) × (r'.off % 64 ≡ r.off % 64) × (r'.len ≤ r.len))
        (rounds fuel n k r)
unfolding rounds
rounds-At zero n pos whole step lt even at = absurd (omega arith)
rounds-At {base} {total} {I} (suc fuel) n {k} {r} pos whole step lt even at =
    elim (Bool-cases (leb n r.len)) [
      | inl e ↦
          let le : n ≤ r.len = ground arith in
          rw (e, rounds)
            (bind
              (advance-At total I n step (record { room = omega arith; even = omega arith }) le at)
              λ r₁ p.
                mono (rounds-At fuel n pos whole step (omega arith) (inr (omega arith)) p.0)
                  (λ r₂ q. (q.0, q.1, omega arith, omega arith)))
      | inr e ↦ rw (e, rounds) (r, refl, (at, ground arith, refl, omega arith))
    ]
