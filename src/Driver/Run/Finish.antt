-- ===== src/Driver/Run/Finish.antt =====
-- A run comes to its end: no thread is ever stuck, and there are only so many rounds.
use hlfs.Common.{
  ℕ, zero, suc, ◌+◌, ◌-◌, ◌*◌, ◌%◌, ◌^◌, ◌≤◌, ◌<◌, ◌≡◌, ◌⊎◌, inl, inr, refl, ◌∙◌, ap, true, some,
  arith, ltb, Bool-cases,
}
use hlfs.Machine.{State}
use hlfs.Driver.{Globals}
use hlfs.Driver.Task.{Task, slot_index, addresses, round}
use hlfs.Driver.Run.{System, Step, pick, Reach, here, later, update, launched}
use hlfs.Driver.Run.Writer.{SlotWriter}
use hlfs.Driver.Run.Inv.{Inv, Inv-launched, Reach-Inv}

unfoldable pub total : (n : ℕ) → (ℕ → ℕ) → ℕ
total zero f = 0
total (suc n) f = total n f + f n

total-update_out : (n t v : ℕ) (f : ℕ → ℕ) → n ≤ t → total n (update f t v) ≡ total n f
unfolding total
total-update_out zero t v f out = refl
total-update_out (suc n) t v f out = ground (arith, total-update_out n t v f)

total-update : (n t : ℕ) (f : ℕ → ℕ) → t < n → total n (update f t (suc (f t))) ≡ suc (total n f)
unfolding total
total-update zero t f lt = absurd (omega arith)
total-update (suc n) t f lt = elim (Bool-cases (ltb t n)) [
  | inl e ↦ ground (arith, total-update n t f)
  | inr e ↦ ground (arith, total-update_out n t (suc (f t)) f)
]

total-zero : (n : ℕ) → total n (λ t. 0) ≡ 0
unfolding total
total-zero zero = refl
total-zero (suc n) = omega (arith, total-zero n)

-- Every step is counted.
pub Reach-total :
    {mask threads : ℕ} {tasks : ℕ → Task} {c : ℕ → ℕ} {st : State} {n : ℕ} {u : System}
    → Reach mask threads tasks c (launched st) n u
    → total threads u.next ≡ n
Reach-total {threads} here = total-zero threads
Reach-total {threads} (later {u} r (pick t start end v st' lt more e)) =
    total-update threads t u.next lt ∙ ap suc (Reach-total r)

pub total-le : (n k : ℕ) (f : ℕ → ℕ) → ((t : ℕ) → f t ≤ k) → total n f ≤ n * k
unfolding total
total-le zero k f h = omega arith
total-le (suc n) k f h = grind (arith, total-le n k f h, h n)

-- Either some thread has a round left, or none has.
pub left_over :
    (n k : ℕ) (f : ℕ → ℕ) → ((t : ℕ) × (t < n) × (f t < k)) ⊎ ((t : ℕ) → t < n → k ≤ f t)
left_over zero k f = inr (λ t lt. absurd (omega arith))
left_over (suc n) k f = elim (left_over n k f) [
  | inl (t, lt, less) ↦ inl (t, omega arith, less)
  | inr all ↦ elim (Bool-cases (ltb (f n) k)) [
    | inl e ↦ inl (n, omega arith, ground arith)
    | inr e ↦ inr (λ t lt. ground (arith, all t))
  ]
]

pub total-full :
    (n k : ℕ) (f : ℕ → ℕ) → ((t : ℕ) → f t ≤ k) → ((t : ℕ) → t < n → k ≤ f t) → total n f ≡ n * k
unfolding total
total-full zero k f le ge = omega arith
total-full (suc n) k f le ge =
    let rest = total-full n k f le (λ t lt. ge t (omega arith)) in
    let last : f n ≡ k = omega (arith, le n, ge n (omega arith)) in grind arith

pub round_returns :
    (mask : ℕ) (task : Task) (c i start end : ℕ) (s : State) (r : ℕ × State)
    → task.fn start end
        (addresses task c (slot_index mask task i)).0
        (addresses task c (slot_index mask task i)).1
        task.access_size
        s
      ≡ some r
    → i < 2 ^ 31 - 1
    → round mask task c i start end s ≡ some (r.0 % 2 ^ 32, r.1)
unfolding round
round_returns mask task c i start end s r runs small =
    let fits : ltb i (2 ^ 31 - 1) ≡ true = ground arith in rw (runs, fits)

module _ (g : Globals) (tasks : ℕ → Task) (c : ℕ → ℕ) (s₀ : State) (want : ℕ → ℕ)
    (writer : SlotWriter g tasks c s₀ want) (iters : ℕ) (alike : (t : ℕ) → (tasks t).iters ≡ iters)
    (few : iters < 2 ^ 31) where
  -- A thread that has a round left can take it.
  pub next_step :
      (u : System) (t start end : ℕ)
      → Inv g tasks s₀ want u
      → t < g.thread_num
      → u.next t < iters
      → (w : System) × Step g.buf_slots_mask g.thread_num tasks c u w
  next_step u t start end inv lt more =
      let (r, runs, (clock, p)) = writer.writes t (u.next t) start end u.st lt inv.agrees in
      (
        _,
        pick t start end (r.0 % 2 ^ 32) r.1 lt (omega (arith, alike t)) (
            round_returns g.buf_slots_mask (tasks t) (c t) (u.next t) start end u.st r runs
              (omega arith)),
      )

  -- A run of `n` steps: at most as many as there are rounds, and where it has fewer, it goes on.
  pub Reach-finishes :
      {n : ℕ} {u : System} (start end : ℕ)
      → Reach g.buf_slots_mask g.thread_num tasks c (launched s₀) n u
      → (n ≤ g.thread_num * iters)
        × (((n ≡ g.thread_num * iters) × ((t : ℕ) → t < g.thread_num → u.next t ≡ iters))
            ⊎ ((w : System) × Step g.buf_slots_mask g.thread_num tasks c u w))
  Reach-finishes {n} {u} start end r =
      let inv = Reach-Inv g tasks c s₀ want writer (Inv-launched g tasks s₀ want) r in
      let le = λ (t : ℕ).
        (let w = inv.within t in let e : u.next t ≤ iters = omega (arith, alike t) in e) in
      let counted = Reach-total r in
      (
        omega (arith, total-le g.thread_num iters u.next le),
        elim (left_over g.thread_num iters u.next) [
          | inl (t, lt, more) ↦ inr (next_step u t start end inv lt more)
          | inr all ↦ inl (
            omega (arith, total-full g.thread_num iters u.next le all),
            λ t lt. omega (arith, le t, all t lt),
          )
        ],
      )
