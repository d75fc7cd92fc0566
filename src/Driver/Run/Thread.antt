-- ===== src/Driver/Run/Thread.antt =====
-- A thread that runs alone, its preparation included.
use mathlib.Core.Path.{subst}
use hlfs.Common.{
  ℕ, zero, suc, ◌+◌, ◌-◌, ◌%◌, ◌^◌, ◌≤◌, ◌<◌, ◌≡◌, ◌⊎◌, refl, ap, ◌∙◌, List, [], ◌∷◌, length, arith,
  Returns, bind,
}
use hlfs.Machine.{State, durable}
use hlfs.Driver.{Globals, aep_half}
use hlfs.Driver.Task.{Task, round, rounds}
use hlfs.Driver.Run.{System, stepped, launched}
use hlfs.Driver.Run.Writer.{SlotWriter, slot_of}
use hlfs.Driver.Run.Inv.{Inv, Inv-launched, stepped-Inv, Reach-Inv}
use hlfs.Driver.Run.Finish.{round_returns}
use hlfs.Driver.Run.Job.{Ran, update-same, rounds-Reach}

-- What the clock moves by in each of `n` rounds from `i` on, cut to 32 bits.
abbrev pub times_of : (clock : ℕ → ℕ × ℕ) → (n i : ℕ) → List ℕ
times_of clock zero i = []
times_of clock (suc n) i =
    (((clock i).1 + 2 ^ 64 - (clock i).0) % 2 ^ 64 % 2 ^ 32) ∷ times_of clock n (suc i)

-- All rounds of `t` are done, with the time of each.
pub record IsDone (g : Globals) (task : Task) (clock : ℕ → ℕ × ℕ) (s₀ : State) (want : ℕ → ℕ)
    (r : List ℕ × State) : Type 0 where
  pub count : length r.0 ≡ task.iters
  pub times : r.0 ≡ times_of clock task.iters 0
  pub written :
      (i x : ℕ)
      → i < task.iters
      → slot_of g task i ≤ x
      → x < slot_of g task i + g.access_size
      → (r.1.mem x ≡ want x) × (r.1.status x ≡ durable)
  pub far : (x : ℕ) → (x < g.aep_buf) ⊎ (g.aep_buf + aep_half ≤ x) → r.1.mem x ≡ s₀.mem x

module _ (g : Globals) (tasks : ℕ → Task) (c : ℕ → ℕ) (s₀ : State) (want : ℕ → ℕ)
    (writer : SlotWriter g tasks c s₀ want) (clock : ℕ → ℕ × ℕ) (t : ℕ) (lt : t < g.thread_num)
    (few : (tasks t).iters < 2 ^ 31) where
  round-Inv :
      (u : System)
      → u.next t < (tasks t).iters
      → Inv g tasks s₀ want u
      → Returns
          (λ q.
            (q.0 ≡ ((clock (u.next t)).1 + 2 ^ 64 - (clock (u.next t)).0) % 2 ^ 64 % 2 ^ 32)
            × Inv g tasks s₀ want (stepped u t q.0 q.1))
          (round g.buf_slots_mask
            (tasks t)
            (c t)
            (u.next t)
            (clock (u.next t)).0
            (clock (u.next t)).1
            u.st)
  round-Inv u more inv =
      let (r, runs, (time, p)) =
        writer.writes t (u.next t) (clock (u.next t)).0 (clock (u.next t)).1 u.st lt inv.agrees in
      (
        (r.0 % 2 ^ 32, r.1),
        round_returns g.buf_slots_mask (tasks t) (c t) (u.next t) (clock (u.next t)).0
            (clock (u.next t)).1 u.st r runs (omega arith),
        (
          ap (λ y. y % 2 ^ 32) time,
          stepped-Inv g tasks c s₀ want writer u t (r.0 % 2 ^ 32) r.1 lt more inv p,
        ),
      )

  rounds_return :
      (n : ℕ) (u : System)
      → u.next t + n ≤ (tasks t).iters
      → Inv g tasks s₀ want u
      → Returns
          (λ r. r.0 ≡ times_of clock n (u.next t))
          (rounds g.buf_slots_mask (tasks t) clock (c t) n (u.next t) u.st)
  unfolding rounds
  rounds_return zero u within inv = (_, refl, refl)
  rounds_return (suc n) u within inv = bind (round-Inv u (omega arith) inv) λ q k.
      let at = update-same u.next t (suc (u.next t)) in
      bind (rw at at (rounds_return n (stepped u t q.0 q.1) (omega (arith, at)) k.1)) λ r same.
        (_, refl, ap (λ l. q.0 ∷ l) same ∙ ap (λ x. x ∷ times_of clock n (suc (u.next t))) k.0)

  Ran-IsDone :
      (w : System) (times : List ℕ) (st : State)
      → Inv g tasks s₀ want w
      → w.st ≡ st
      → Ran t (tasks t).iters times (launched s₀) w
      → times ≡ times_of clock (tasks t).iters 0
      → IsDone g (tasks t) clock s₀ want (times, st)
  Ran-IsDone w times st inv left ran same = record {
    count = ran.count;
    times = same;
    written = λ i x less low high.
        subst (λ (u : State). (u.mem x ≡ want x) × (u.status x ≡ durable)) left
          (inv.written t i x lt (omega (arith, ran.next)) low high);
    far = λ x o. subst (λ (u : State). u.mem x ≡ s₀.mem x) left (inv.agrees.far x o);
  }

  pub rounds-IsDone :
      Returns
        (IsDone g (tasks t) clock s₀ want)
        (rounds g.buf_slots_mask (tasks t) clock (c t) (tasks t).iters 0 s₀)
  rounds-IsDone =
      let start = Inv-launched g tasks s₀ want in
      let (r, e, same) = rounds_return (tasks t).iters (launched s₀) (omega arith) start in
      let (w, reach, left, ran) =
        rounds-Reach clock t (tasks t).iters (launched s₀) lt (omega arith) e in
      (r, e, Ran-IsDone w r.0 r.1 (Reach-Inv g tasks c s₀ want writer start reach) left ran same)
