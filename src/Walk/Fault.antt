-- ===== src/Walk/Fault.antt =====
-- A walk whose blocks fault wherever the pointer is aligned, as those of a copy do when the other
-- pointer is not.
use hlfs.Common.{
  ℕ, zero, suc, ◌+◌, ◌-◌, ◌/◌, ◌%◌, ◌≤◌, ◌≡◌, refl, ◌⊎◌, inl, inr, true, false, Option, none, some,
  leb, ltb, ◌==◌, ◌&&◌, if◌then◌else◌, ◌>>=◌, arith, Returns, Bool-cases,
}
use hlfs.Machine.{State, line, clwb}
use hlfs.Walk.{
  Run, Kernels, advance, once, rounds, to_16, to_bit, prologue, blocks, rest, start, walk,
  walk_flush, walk_nt, then_clwb,
}

-- At the offsets where the walk calls it.
abbrev pub Stuck : (base : ℕ) → (ℕ → State → Option State) → Type 0
Stuck base k = (off : ℕ) (s : State) → (base + off) % 16 ≡ 0 → k off s ≡ none

pub record AllStuck (base : ℕ) (ks : Kernels) : Type 0 where
  pub k16 : Stuck base ks.k16
  pub k32 : Stuck base ks.k32
  pub k2x32 : Stuck base ks.k2x32
  pub k4x32 : Stuck base ks.k4x32
  pub k8x32 : Stuck base ks.k8x32
  pub k16x32 : Stuck base ks.k16x32

-- A step that calls the block faults; one that does not call it changes nothing.
abbrev Idles : Run → Option Run → Type 0
Idles r m = (m ≡ none) ⊎ (m ≡ some r)

module _ (base : ℕ) {k : ℕ → State → Option State} (stuck : Stuck base k) (r : Run)
    (even : (base + r.off) % 16 ≡ 0) where
  advance-none : (n : ℕ) → advance n k r ≡ none
  unfolding advance
  advance-none n = rw (stuck r.off r.st even)

  once-Idles : (n : ℕ) → Idles r (once n k r)
  unfolding once
  once-Idles n = elim (Bool-cases (leb n r.len)) [
    | inl e ↦ inl (rw (e, advance-none n))
    | inr e ↦ inr (rw e)
  ]

  rounds-Idles : (fuel n : ℕ) → Idles r (rounds fuel n k r)
  unfolding rounds
  rounds-Idles zero n = inl refl
  rounds-Idles (suc fuel) n = elim (Bool-cases (leb n r.len)) [
    | inl e ↦ inl (rw (e, rounds, advance-none n))
    | inr e ↦ inr (rw (e, rounds))
  ]

  to_bit-Idles : (bit : ℕ) → Idles r (to_bit bit base k r)
  unfolding to_bit
  to_bit-Idles bit = elim (Bool-cases ((base + r.off) / bit % 2 == 1 && leb bit r.len)) [
    | inl e ↦ inl (rw (e, advance-none bit))
    | inr e ↦ inr (rw e)
  ]

  once-none : (n : ℕ) → n ≤ r.len → once n k r ≡ none
  unfolding once
  once-none n le = let e : leb n r.len ≡ true = ground arith in rw (e, advance-none n)

-- A step that idles may be left out of a sequence that faults.
skip {ℓ} :
    {A : Type ℓ} {r : Run} (m : Option Run) (f : Run → Option A)
    → Idles r m
    → f r ≡ none
    → (m >>= f) ≡ none
skip m f i e = elim i [ inl p ↦ rw p | inr p ↦ rw p e ]

module _ (base : ℕ) (ks : Kernels) (stuck : AllStuck base ks) where
  -- What is left of a walk when it is aligned and has 16 bytes or more to go faults at the latest
  -- in its last block.
  module _ (r : Run) (even : (base + r.off) % 16 ≡ 0) (enough : 16 ≤ r.len) where
    rest-none : rest ks r ≡ none
    unfolding rest
    rest-none =
        skip (once 32 ks.k32 r) _ (once-Idles base stuck.k32 r even 32)
          (once-none base stuck.k16 r even 16 enough)

    blocks-Idles : Idles r (blocks ks r)
    unfolding blocks
    blocks-Idles = elim (rounds-Idles base stuck.k16x32 r even (suc r.len) 512) [
      | inl e ↦ inl (rw e)
      | inr e ↦ elim (once-Idles base stuck.k8x32 r even 256) [
        | inl e₁ ↦ inl (rw (e, e₁))
        | inr e₁ ↦ elim (once-Idles base stuck.k4x32 r even 128) [
          | inl e₂ ↦ inl (rw (e, e₁, e₂))
          | inr e₂ ↦ elim (once-Idles base stuck.k2x32 r even 64) [
            | inl e₃ ↦ inl (rw (e, e₁, e₂, e₃))
            | inr e₃ ↦ inr (rw (e, e₁, e₂, e₃))
          ]
        ]
      ]
    ]

  -- The prologue ends in a fault or where the pointer is aligned, with at least 16 bytes to go.
  abbrev Aligned : Option Run → Type 0
  Aligned m = (m ≡ none) ⊎ Returns (λ r. ((base + r.off) % 16 ≡ 0) × (16 ≤ r.len)) m

  to_16-Aligned : (len : ℕ) (s : State) → 31 ≤ len → Aligned (to_16 base ks.small (start len s))
  unfolding to_16 advance
  to_16-Aligned len s long =
      let n : ℕ = 16 - (base + 0) % 16 in
      let short : ltb len n ≡ false = ground arith in
      elim (Bool-cases (ltb 0 ((base + 0) % 16))) [
        | inr e ↦ rw (short, e) (inr (_, refl, (ground arith, omega arith)))
        | inl e ↦ rw (short, e) (stepped n (ks.small n 0 s) (ground arith) (ground arith))
      ]
    where
      stepped :
          (n : ℕ) (m : Option State)
          → (base + n) % 16 ≡ 0
          → n ≤ 15
          → Aligned (m >>= λ t. some (record { off = 0 + n; len = len - n; st = t }))
      stepped n none even le = inl refl
      stepped n (some t) even le = inr (_, refl, (omega arith, omega arith))

  prologue-Aligned : (len : ℕ) (s : State) → 31 ≤ len → Aligned (prologue base ks (start len s))
  unfolding prologue
  prologue-Aligned len s long = elim (to_16-Aligned len s long) [
    | inl e ↦ inl (rw e)
    | inr (r, e, (even, enough)) ↦ rw e (elim (to_bit-Idles base stuck.k16 r even 16) [
      | inl e₁ ↦ inl (rw e₁)
      | inr e₁ ↦ rw e₁ (elim (to_bit-Idles base stuck.k32 r even 32) [
        | inl e₂ ↦ inl e₂
        | inr e₂ ↦ inr (r, e₂, (even, enough))
      ])
    ])
  ]

  -- The three kinds of walk, from the prologue on.
  pub walk-none : (len : ℕ) (s : State) → 31 ≤ len → walk base ks len s ≡ none
  unfolding walk
  walk-none len s long = elim (prologue-Aligned len s long) [
    | inl e ↦ rw e
    | inr (r, e, (even, enough)) ↦
        rw e (skip (blocks ks r) _ (blocks-Idles r even enough) (rw (rest-none r even enough)))
  ]

  pub walk_flush-none : (len : ℕ) (s : State) → 31 ≤ len → walk_flush base ks len s ≡ none
  unfolding walk_flush
  walk_flush-none len s long = elim (prologue-Aligned len s long) [
    | inl e ↦ rw e
    | inr (r, e, (even, enough)) ↦
        rw e (flushed r even enough (if base % 64 == 0 then some r.st else clwb (line base) r.st))
  ]
    where
      flushed :
          (r : Run)
          → (base + r.off) % 16 ≡ 0
          → 16 ≤ r.len
          → (m : Option State)
          → (do
            s₁ ← m
            r₂ ← blocks ks (record r { st = s₁ })
            r₃ ← rest ks r₂
            s₂ ← ks.small r₃.len r₃.off r₃.st
            if r₂.len == 0 then some s₂ else clwb (line (base + r₃.off)) s₂)
            ≡ none
      flushed r even enough none = refl
      flushed r even enough (some t) =
          skip (blocks ks (record r { st = t })) _ (blocks-Idles (record r { st = t }) even enough)
            (rw (rest-none (record r { st = t }) even enough))

then_clwb-AllStuck :
    (base : ℕ) (ks : Kernels) → AllStuck base ks → AllStuck base (then_clwb base ks)
then_clwb-AllStuck base ks stuck = record {
  k16 = stuck.k16;
  k32 = stuck.k32;
  k2x32 = stuck.k2x32;
  k4x32 = stuck.k4x32;
  k8x32 = stuck.k8x32;
  k16x32 = stuck.k16x32;
}

pub walk_nt-none :
    (base : ℕ) (ks : Kernels)
    → AllStuck base ks
    → (len : ℕ) (s : State) → 31 ≤ len
    → walk_nt base ks len s ≡ none
unfolding walk_nt
walk_nt-none base ks stuck len s long =
    elim (prologue-Aligned base (then_clwb base ks) (then_clwb-AllStuck base ks stuck) len s long) [
      | inl e ↦ rw e
      | inr (r, e, (even, enough)) ↦ rw e (
          skip (blocks ks r) _ (blocks-Idles base ks stuck r even enough)
            (rw (rest-none base ks stuck r even enough)))
    ]
