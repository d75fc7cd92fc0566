-- ===== src/Driver/Run/Sweep/Swept.antt =====
-- What a sweep over a table leaves, whose first operation does nothing and whose others write the slots.
use mathlib.Core.Path.{subst}
use hlfs.Common.{
  ℕ, zero, suc, ◌+◌, ◌-◌, ◌*◌, ◌%◌, ◌^◌, ◌≤◌, ◌<◌, ◌≡◌, ◌⊎◌, inl, inr, refl, sym, ◌∙◌, some, arith,
}
use hlfs.Machine.{State, durable}
use hlfs.AepStudy.{AepOpFn}
use hlfs.AepStudy.Pmem.{Pmem2, get_sub_op_num, get_op_fn}
use hlfs.Driver.{Globals}
use hlfs.Driver.Task.{Task, slot_index, addresses}
use hlfs.Driver.Run.{System, Step, pick, Reach, here, later, launched}
use hlfs.Driver.Run.Writer.{Agrees, SlotWriter, slot_of}
use hlfs.Driver.Run.Inv.{Inv-launched, Reach-Inv, round_inv}
use hlfs.Driver.Run.Finish.{round_returns, next_step}
use hlfs.Driver.Run.Sweep.{Sweep, swept, next}
use hlfs.Driver.Run.Sweep.Progress.{all_taken, Reach-up_to}

pub Agrees-trans :
    {g : Globals} {s₀ s₁ s₂ : State} → Agrees g s₀ s₁ → Agrees g s₁ s₂ → Agrees g s₀ s₂
Agrees-trans a b = record { far = λ x o. b.far x o ∙ a.far x o; pages = λ p. b.pages p ∙ a.pages p }

pub Agrees-refl : {g : Globals} {s : State} → Agrees g s s
Agrees-refl = record { far = λ x o. refl; pages = λ p. refl }

-- What a table does: `want` is what its operations, but for the first, leave in the slots.
pub record IsSuite (p : Pmem2) (g : Globals) (tasks : AepOpFn → ℕ → Task) (c : ℕ → ℕ) (s₀ : State)
    (want : ℕ → ℕ) (slot_at : ℕ → ℕ → ℕ) : Type 0 where
  pub more_than_one : 1 < get_sub_op_num p g.rw_type
  pub idles :
      (fn : AepOpFn)
      → get_op_fn p g.rw_type 0 ≡ some fn
      → (t start end dest src len : ℕ) (s : State)
      → (tasks fn t).fn start end dest src len s ≡ some ((end + 2 ^ 64 - start) % 2 ^ 64, s)
  pub writer :
      (fn : AepOpFn) (n : ℕ)
      → get_op_fn p g.rw_type (suc n) ≡ some fn
      → SlotWriter g (tasks fn) c s₀ want
  pub iters : (fn : AepOpFn) (t : ℕ) → (tasks fn t).iters ≡ g.iters
  pub slots : (fn : AepOpFn) (t i : ℕ) → slot_of g (tasks fn t) i ≡ slot_at t i
  pub found :
      (n : ℕ)
      → n < get_sub_op_num p g.rw_type
      → (fn : AepOpFn) × (get_op_fn p g.rw_type n ≡ some fn)

-- Every slot of every round is as it should be, and on the medium; outside the first half of the map all
-- is as at the start.
pub record AllWritten (g : Globals) (s₀ : State) (want : ℕ → ℕ) (slot_at : ℕ → ℕ → ℕ) (s : State)
    : Type 0 where
  pub agrees : Agrees g s₀ s
  pub written :
      (t i x : ℕ)
      → t < g.thread_num
      → i < g.iters
      → slot_at t i ≤ x
      → x < slot_at t i + g.access_size
      → (s.mem x ≡ want x) × (s.status x ≡ durable)

module _ {p : Pmem2} {g : Globals} {tasks : AepOpFn → ℕ → Task} {c : ℕ → ℕ} {s₀ : State}
    {want : ℕ → ℕ} {slot_at : ℕ → ℕ → ℕ} (suite : IsSuite p g tasks c s₀ want slot_at) where
  moved :
      (fn : AepOpFn) (n : ℕ) (s : State)
      → get_op_fn p g.rw_type (suc n) ≡ some fn
      → Agrees g s₀ s
      → SlotWriter g (tasks fn) c s want
  moved fn n s chosen a =
      let w = suite.writer fn n chosen in
      record {
        in_buffer = w.in_buffer;
        writes = λ t i start end s' lt b. w.writes t i start end s' lt (Agrees-trans a b);
      }

  -- A run of an operation that writes.
  run-AllWritten :
      (fn : AepOpFn) (n : ℕ) (s : State) {u : System}
      → get_op_fn p g.rw_type (suc n) ≡ some fn
      → Agrees g s₀ s
      → Reach g.buf_slots_mask g.thread_num (tasks fn) c (launched s) (g.thread_num * g.iters) u
      → AllWritten g s₀ want slot_at u.st
  run-AllWritten fn n s chosen a r =
      let inv =
        Reach-Inv g (tasks fn) c s want (moved fn n s chosen a) (Inv-launched g (tasks fn) s want)
          r in
      record {
        agrees = Agrees-trans a inv.agrees;
        written = λ t i x lt less low high.
            let all = all_taken g.iters (suite.iters fn) r t lt in
            let same = suite.slots fn t i in
            inv.written t i x lt (omega (arith, all, less)) (omega (arith, same, low))
              (omega (arith, same, high));
      }

  -- A step and a run of the first operation.
  idle_step :
      (fn : AepOpFn) {u w : System}
      → get_op_fn p g.rw_type 0 ≡ some fn
      → Step g.buf_slots_mask g.thread_num (tasks fn) c u w
      → w.st ≡ u.st
  idle_step fn {u} chosen (pick t start end v st' lt more e) =
      let runs =
        suite.idles fn chosen t start end
          (addresses (tasks fn t) (c t) (slot_index g.buf_slots_mask (tasks fn t) (u.next t))).0
          (addresses (tasks fn t) (c t) (slot_index g.buf_slots_mask (tasks fn t) (u.next t))).1
          (tasks fn t).access_size u.st in
      (round_inv g.buf_slots_mask (tasks fn t) (c t) (u.next t) start end u.st {P = λ r. r.1 ≡ u.st}
        e (_, runs, refl)).1

  idle_run :
      (fn : AepOpFn) (s : State) {n : ℕ} {u : System}
      → get_op_fn p g.rw_type 0 ≡ some fn
      → Reach g.buf_slots_mask g.thread_num (tasks fn) c (launched s) n u
      → u.st ≡ s
  idle_run fn s chosen here = refl
  idle_run fn s chosen (later r step) = idle_step fn chosen step ∙ idle_run fn s chosen r

  pub Sweep-AllWritten :
      (n : ℕ) {s s' : State}
      → Agrees g s₀ s
      → Sweep p g tasks c (suc n) s s'
      → (AllWritten g s₀ want slot_at s) ⊎ (suc n < get_sub_op_num p g.rw_type)
      → AllWritten g s₀ want slot_at s'
  Sweep-AllWritten n a (swept over) (inl all) = all
  Sweep-AllWritten n a (swept over) (inr more) = absurd (omega arith)
  Sweep-AllWritten n a (next {s} {fn} less chosen r others) so_far =
      let all = run-AllWritten fn n s chosen a r in
      Sweep-AllWritten (suc n) all.agrees others (inl all)

  pub whole_sweep-AllWritten :
      {s' : State} → Sweep p g tasks c 0 s₀ s' → AllWritten g s₀ want slot_at s'
  whole_sweep-AllWritten {s'} (swept over) = absurd (omega (arith, over, suite.more_than_one))
  whole_sweep-AllWritten {s'} (next {fn} less chosen r others) =
      let same = idle_run fn s₀ chosen r in
      Sweep-AllWritten 0 Agrees-refl (subst (λ s. Sweep p g tasks c 1 s s') same others)
        (inr suite.more_than_one)

  module _ (start end : ℕ) (few : g.iters < 2 ^ 31) where
    idle_goes :
        (fn : AepOpFn) (u : System) (t : ℕ)
        → get_op_fn p g.rw_type 0 ≡ some fn
        → t < g.thread_num
        → u.next t < g.iters
        → (w : System) × Step g.buf_slots_mask g.thread_num (tasks fn) c u w
    idle_goes fn u t chosen lt more =
        let task = tasks fn t in
        let at = addresses task (c t) (slot_index g.buf_slots_mask task (u.next t)) in
        (
          _,
          pick t start end ((end + 2 ^ 64 - start) % 2 ^ 64 % 2 ^ 32) u.st lt
              (omega (arith, suite.iters fn t, more))
              (round_returns g.buf_slots_mask task (c t) (u.next t) start end u.st
                ((end + 2 ^ 64 - start) % 2 ^ 64, u.st)
                (suite.idles fn chosen t start end at.0 at.1 task.access_size u.st) (omega arith)),
        )

    -- A run of an operation that the table holds, to its end.
    runs :
        (fn : AepOpFn) (n : ℕ) (s : State)
        → get_op_fn p g.rw_type n ≡ some fn
        → Agrees g s₀ s
        → (u : System) × Reach g.buf_slots_mask g.thread_num
            (tasks fn)
            c
            (launched s)
            (g.thread_num * g.iters)
            u
          × Agrees g s₀ u.st
    runs fn zero s chosen a =
        let (u, r) =
          Reach-up_to g.iters (suite.iters fn) (g.thread_num * g.iters) (omega arith)
            (λ k u t r lt more. idle_goes fn u t chosen lt more) in
        (u, r, subst (Agrees g s₀) (sym (idle_run fn s chosen r)) a)
    runs fn (suc n) s chosen a =
        let w = moved fn n s chosen a in
        let (u, r) =
          Reach-up_to g.iters (suite.iters fn) (g.thread_num * g.iters) (omega arith)
            (λ k u t r lt more.
              next_step g (tasks fn) c s want w g.iters (suite.iters fn) few u t start end
                (Reach-Inv g (tasks fn) c s want w (Inv-launched g (tasks fn) s want) r) lt more) in
        (u, r, (run-AllWritten fn n s chosen a r).agrees)

    sweeps_from :
        (d n : ℕ) (s : State)
        → n + d ≡ get_sub_op_num p g.rw_type
        → Agrees g s₀ s
        → (s' : State) × Sweep p g tasks c n s s'
    sweeps_from zero n s e a = (s, swept (omega (arith, e)))
    sweeps_from (suc d) n s e a =
        let (fn, chosen) = suite.found n (omega (arith, e)) in
        let (u, r, b) = runs fn n s chosen a in
        let (s', others) = sweeps_from d (suc n) u.st (omega (arith, e)) b in
        (s', next (omega (arith, e)) chosen r others)

    pub sweeps : (s' : State) × Sweep p g tasks c 0 s₀ s'
    sweeps = sweeps_from (get_sub_op_num p g.rw_type) 0 s₀ (omega arith) Agrees-refl
