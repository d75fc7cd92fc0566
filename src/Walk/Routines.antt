-- ===== src/Walk/Routines.antt =====
-- The three kinds of routine carry what their kernels carry from the start of the buffer to its
-- end. In the flushing kinds the claim `J lo hi` is about a window of the cache as well.
use native.Mathlib.Nat.{add-zero}
use hlfs.Common.{
  ℕ, ◌+◌, ◌/◌, ◌%◌, ◌≤◌, ◌<◌, ◌≡◌, refl, ◌⊎◌, inl, inr, false, some, ltb, ◌==◌, if◌then◌else◌,
  ◌>>=◌, arith, Returns, bind, Bool-cases,
}
use hlfs.Machine.{State, line, clwb}
use hlfs.Walk.{
  Run, Kernels, start, prologue, blocks, rest, walk, walk_flush, walk_nt, then_clwb, once,
}
use hlfs.Walk.Sound.{Near, Steps, NearSteps, WholeSteps, At, Lined}
use hlfs.Walk.Parts.{prologue-At, blocks-At, rest-At}

module _ (base len : ℕ) (ks : Kernels) (s : State) where
  -- Every byte is reached: the claim at offset 0 becomes the claim at offset `len`.
  pub walk-total :
      (I : ℕ → State → Type 0)
      → ((t : ℕ) → NearSteps base len t I ks)
      → WholeSteps base len I ks
      → I 0 s
      → Returns (I len) (walk base ks len s)
  unfolding walk
  walk-total I near whole i =
      bind (prologue-At ks (start len s) (near 0) refl (omega arith, i)) λ r₁ p₁.
        bind (blocks-At ks whole p₁.1 p₁.0) λ r₂ p₂.
          bind (rest-At ks (near r₂.off) p₂.1 p₂.2 p₂.0)
            λ r₃ p₃. rw (← p₃.0.0) ((near r₂.off).small r₃.len p₃.1 r₃.off r₃.st p₃.2 p₃.0.1)

  -- A routine that begins on a line has nothing to do in its prologue.
  prologue-even : base % 64 ≡ 0 → prologue base ks (start len s) ≡ some (start len s)
  unfolding prologue
  prologue-even e =
      let a : ltb 0 ((base + 0) % 16) ≡ false = ground arith in
      let b : ((base + 0) / 16 % 2 == 1) ≡ false = ground arith in
      let c : ((base + 0) / 32 % 2 == 1) ≡ false = ground arith in rw (a, b, c)

-- With nothing left, the last steps do nothing.
rest-idle : (ks : Kernels) (r : Run) → r.len ≡ 0 → rest ks r ≡ some r
unfolding rest once
rest-idle ks r e = ground arith

-- A claim about the window `lo ≤ x < hi` of the cache. The empty window is the strongest.
pub record Windowed (base len : ℕ) (J : (lo hi : ℕ) → ℕ → State → Type 0) (Reached : ℕ → Type 0)
    : Type 0 where
  pub widen : (lo hi off : ℕ) (t : State) → J 0 0 off t → J lo hi off t
  -- the write-back of a line that the routine may reach
  pub flush :
      (d off : ℕ) (t : State)
      → Reached d
      → J (line (base + d)) (line (base + d) + 64) off t
      → Returns (J 0 0 off) (clwb (line (base + d)) t)

module _ {base len : ℕ} (ks : Kernels) (idle : (off : ℕ) (t : State) → ks.small 0 off t ≡ some t)
    {J : (lo hi : ℕ) → ℕ → State → Type 0} (whole : WholeSteps base len (J 0 0) ks)
    (s : State) where
  module _ (near : (t : ℕ) → NearSteps base len t (J (line (base + t)) (line (base + t) + 64)) ks)
      (window : Windowed base len J (λ d. (d < len) ⊎ (d ≡ 0))) where
    -- From the blocks on.
    tail_flush :
        (r : Run)
        → At len (J 0 0) r
        → Lined base r
        → Returns (J 0 0 len) (do
          r₂ ← blocks ks r
          r₃ ← rest ks r₂
          s₂ ← ks.small r₃.len r₃.off r₃.st
          if r₂.len == 0 then some s₂ else clwb (line (base + r₃.off)) s₂)
    tail_flush r at al = bind (blocks-At ks whole al at) λ r₂ p₂. elim (Bool-cases (r₂.len == 0)) [
      | inl e ↦
          let z : r₂.len ≡ 0 = ground arith in
          let full : r₂.off ≡ len = omega arith in
          rw (rest-idle ks r₂ z, e, z, idle) (r₂.st, refl, rw full at p₂.0.1)
      | inr e ↦
          let w = λ (u : State) (o : ℕ) (j : J 0 0 o u).
            window.widen (line (base + r₂.off)) (line (base + r₂.off) + 64) o u j in
          bind (rest-At ks (near r₂.off) p₂.1 p₂.2 (p₂.0.0, w r₂.st r₂.off p₂.0.1)) λ r₃ p₃.
            bind ((near r₂.off).small r₃.len p₃.1 r₃.off r₃.st p₃.2 p₃.0.1) λ s₂ j.
              let same : line (base + r₃.off) ≡ line (base + r₂.off) = ground arith in
              rw (e, same)
                (rw p₃.0.0 at (window.flush r₂.off (r₃.off + r₃.len) s₂ (inl (ground arith)) j))
    ]

    pub walk_flush-total : J 0 0 0 s → Returns (J 0 0 len) (walk_flush base ks len s)
    unfolding walk_flush
    walk_flush-total i = elim (Bool-cases (base % 64 == 0)) [
      | inl e ↦
          rw (prologue-even base len ks s (ground arith), e)
            (tail_flush (start len s) (omega arith, i)
              (let z : base % 64 ≡ 0 = ground arith in omega arith))
      | inr e ↦ rw e (
          bind (prologue-At ks (start len s) (near 0) refl (omega arith, window.widen _ _ 0 s i))
            λ r₁ p₁. bind (rw add-zero at (window.flush 0 r₁.off r₁.st (inr refl) p₁.0.1)) λ s₁ j.
              tail_flush (record r₁ { st = s₁ }) (p₁.0.0, j)
                (record { even16 = p₁.1.even16; even32 = p₁.1.even32; even64 = p₁.1.even64 }))
    ]

  -- Past the cache: only the small copies need a window, and each is written back at once.
  module _
      (small : (t n : ℕ)
        → n < 16
        → Steps
            (λ off. Near base len t 1 off n)
            (J (line (base + t)) (line (base + t) + 64))
            n
            (ks.small n))
      (k16 : Steps (λ off. (off + 16 ≤ len) × ((base + off) % 16 ≡ 0)) (J 0 0) 16 ks.k16)
      (k32 : Steps (λ off. (off + 32 ≤ len) × ((base + off) % 32 ≡ 0)) (J 0 0) 32 ks.k32)
      (window : Windowed base len J (λ d. d ≤ len)) where
    small_then_clwb :
        (t n : ℕ)
        → n < 16
        → Steps (λ off. Near base len t 1 off n) (J 0 0) n ((then_clwb base ks).small n)
    small_then_clwb t n lt off u near j =
        bind
          (small off n lt off u
            (record {
              after = omega arith;
              room = near.room;
              even = omega arith;
              in_line = omega arith;
            })
            (window.widen _ _ off u j))
          λ v j'. window.flush off (off + n) v (omega arith) j'

    near_nt : (t : ℕ) → NearSteps base len t (J 0 0) (then_clwb base ks)
    near_nt t = record {
      small = small_then_clwb t;
      k16 = λ off u near. k16 off u (near.room, near.even);
      k32 = λ off u near. k32 off u (near.room, near.even);
    }

    pub walk_nt-total : J 0 0 0 s → Returns (J 0 0 len) (walk_nt base ks len s)
    unfolding walk_nt rest
    walk_nt-total i =
        bind (prologue-At (then_clwb base ks) (start len s) (near_nt 0) refl (omega arith, i))
          λ r₁ p₁. bind (blocks-At ks whole p₁.1 p₁.0) λ r₂ p₂.
            bind (rest-At (then_clwb base ks) (near_nt r₂.off) p₂.1 p₂.2 p₂.0)
              λ r₃ p₃. rw p₃.0.0 at (small_then_clwb r₂.off r₃.len p₃.1 r₃.off r₃.st p₃.2 p₃.0.1)
