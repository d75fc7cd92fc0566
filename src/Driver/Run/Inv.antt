-- ===== src/Driver/Run/Inv.antt =====
-- What holds throughout a run.
use mathlib.Core.Path.{subst}
use mathlib.Core.Option.{some-injective}
use hlfs.Common.{
  ℕ, suc, ◌+◌, ◌-◌, ◌%◌, ◌^◌, ◌≤◌, ◌<◌, ◌≡◌, ◌⊎◌, inl, inr, refl, ◌∙◌, ap, some, arith, ltb, ◌&&◌,
  ◌==◌, Bool-cases, Returns,
}
use hlfs.Machine.{State, durable}
use hlfs.Machine.Wrote.{Outside}
use hlfs.AepStudy.Persist.{Persisted}
use hlfs.Driver.{Globals}
use hlfs.Driver.Task.{Task, slot_index, addresses, round}
use hlfs.Driver.Run.{System, Step, pick, Reach, here, later, update, stepped, launched}
use hlfs.Driver.Run.Writer.{Agrees, SlotWriter, slot_of}

pub record Inv (g : Globals) (tasks : ℕ → Task) (s₀ : State) (want : ℕ → ℕ) (s : System)
    : Type 0 where
  pub agrees : Agrees g s₀ s.st
  pub near : (x : ℕ) → (s.st.mem x ≡ s₀.mem x) ⊎ (s.st.mem x ≡ want x)
  pub written :
      (t i x : ℕ)
      → t < g.thread_num
      → i < s.next t
      → slot_of g (tasks t) i ≤ x
      → x < slot_of g (tasks t) i + g.access_size
      → (s.st.mem x ≡ want x) × (s.st.status x ≡ durable)
  pub untouched :
      (x : ℕ)
      → ((t i : ℕ)
          → t < g.thread_num
          → i < s.next t
          → Outside (slot_of g (tasks t) i) g.access_size x)
      → s.st.mem x ≡ s₀.mem x
  pub within : (t : ℕ) → s.next t ≤ (tasks t).iters

pub Inv-launched :
    (g : Globals) (tasks : ℕ → Task) (s₀ : State) (want : ℕ → ℕ) → Inv g tasks s₀ want (launched s₀)
Inv-launched g tasks s₀ want = record {
  agrees = record { far = λ x o. refl; pages = λ p. refl };
  near = λ x. inl refl;
  written = λ t i x lt less low high. absurd (omega arith);
  untouched = λ x o. refl;
  within = λ t. omega arith;
}

-- A round that returned took its operation's result.
pub round_inv :
    (mask : ℕ) (task : Task) (c i start end : ℕ) (s : State) {v : ℕ} {st' : State}
    {P : ℕ × State → Type 0}
    → round mask task c i start end s ≡ some (v, st')
    → Returns P (
        task.fn start end
          (addresses task c (slot_index mask task i)).0
          (addresses task c (slot_index mask task i)).1
          task.access_size
          s)
    → (time : ℕ) × P (time, st')
unfolding round
round_inv mask task c i start end s {v} {st'} {P} e ((time, st), runs, p) =
    let e' = rw runs at e in
    elim (Bool-cases (ltb i (2 ^ 31 - 1))) [
      | inr out ↦ ground (arith, e', out)
      | inl fits ↦
          let q = some-injective (time % 2 ^ 32, st) (v, st') (rw fits at e') in
          (time, subst (λ u. P (time, u)) (ap (λ (a : ℕ × State). a.1) q) p)
    ]

inside_or : (a n x : ℕ) → ((a ≤ x) × (x < a + n)) ⊎ Outside a n x
inside_or a n x = elim (Bool-cases (ltb x a)) [
  | inl e ↦ inr (inl (ground arith))
  | inr e ↦ elim (Bool-cases (ltb x (a + n))) [
    | inl e₁ ↦ inl (ground arith, ground arith)
    | inr e₁ ↦ inr (inr (ground arith))
  ]
]

module _ (g : Globals) (tasks : ℕ → Task) (c : ℕ → ℕ) (s₀ : State) (want : ℕ → ℕ)
    (writer : SlotWriter g tasks c s₀ want) where
  -- One round of the thread `t`, as its operation persists its slot.
  module _ (s : System) (t : ℕ) (st' : State) (lt : t < g.thread_num) (inv : Inv g tasks s₀ want s)
      (p : Persisted
        (λ x b. b ≡ want x)
        s.st
        (slot_of g (tasks t) (s.next t))
        g.access_size
        st') where
    stepped-Agrees : Agrees g s₀ st'
    stepped-Agrees = record {
      far = λ x o.
          let b = writer.in_buffer t (s.next t) lt in
          p.outside x (omega (arith, o, b.first, b.half)) ∙ inv.agrees.far x o;
      pages = λ q. p.pages q ∙ inv.agrees.pages q;
    }

    -- A byte that is as it should be stays so, and stays durable.
    stays : (x : ℕ) → s.st.mem x ≡ want x → st'.mem x ≡ want x
    stays x e = elim (inside_or (slot_of g (tasks t) (s.next t)) g.access_size x) [
      | inl (low, high) ↦ p.inside x low high
      | inr o ↦ p.outside x o ∙ e
    ]

    stepped-near : (x : ℕ) → (st'.mem x ≡ s₀.mem x) ⊎ (st'.mem x ≡ want x)
    stepped-near x = elim (inside_or (slot_of g (tasks t) (s.next t)) g.access_size x) [
      | inl (low, high) ↦ inr (p.inside x low high)
      | inr o ↦ elim (inv.near x) [
        | inl e ↦ inl (p.outside x o ∙ e)
        | inr e ↦ inr (p.outside x o ∙ e)
      ]
    ]

    stepped-written :
        (u i x : ℕ)
        → u < g.thread_num
        → i < update s.next t (suc (s.next t)) u
        → slot_of g (tasks u) i ≤ x
        → x < slot_of g (tasks u) i + g.access_size
        → (st'.mem x ≡ want x) × (st'.status x ≡ durable)
    stepped-written u i x lt' less low high = elim (Bool-cases ((u == t) && (i == s.next t))) [
      | inl e ↦
          let same : u ≡ t = ground arith in
          let round : i ≡ s.next t = ground arith in
          let low' = rw (same, round) at low in
          let high' = rw (same, round) at high in (p.inside x low' high', p.safe x low' high')
      | inr e ↦
          let before : i < s.next u = ground (arith, less, e) in
          let w = inv.written u i x lt' before low high in (stays x w.0, p.kept x w.1)
    ]

    stepped-untouched :
        (x : ℕ)
        → ((u i : ℕ)
            → u < g.thread_num
            → i < update s.next t (suc (s.next t)) u
            → Outside (slot_of g (tasks u) i) g.access_size x)
        → st'.mem x ≡ s₀.mem x
    stepped-untouched x o =
        p.outside x (o t (s.next t) lt (ground arith))
        ∙ inv.untouched x (λ u i lt' less. o u i lt' (ground (arith, less)))

  pub stepped-Inv :
      (s : System) (t v : ℕ) (st' : State)
      → t < g.thread_num
      → s.next t < (tasks t).iters
      → Inv g tasks s₀ want s
      → Persisted (λ x b. b ≡ want x) s.st (slot_of g (tasks t) (s.next t)) g.access_size st'
      → Inv g tasks s₀ want (stepped s t v st')
  stepped-Inv s t v st' lt more inv p = record {
    agrees = stepped-Agrees s t st' lt inv p;
    near = stepped-near s t st' lt inv p;
    written = stepped-written s t st' lt inv p;
    untouched = stepped-untouched s t st' lt inv p;
    within = λ u. ground (arith, inv.within u);
  }

  Step-Inv :
      {s u : System}
      → Step g.buf_slots_mask g.thread_num tasks c s u
      → Inv g tasks s₀ want s
      → Inv g tasks s₀ want u
  Step-Inv {s} (pick t start end v st' lt more e) inv =
      let (time, (clock, p)) =
        round_inv g.buf_slots_mask (tasks t) (c t) (s.next t) start end s.st e
          (writer.writes t (s.next t) start end s.st lt inv.agrees) in
      stepped-Inv s t v st' lt more inv p

  pub Reach-Inv :
      {s : System} {n : ℕ} {u : System}
      → Inv g tasks s₀ want s
      → Reach g.buf_slots_mask g.thread_num tasks c s n u
      → Inv g tasks s₀ want u
  Reach-Inv inv here = inv
  Reach-Inv inv (later r st) = Step-Inv st (Reach-Inv inv r)
