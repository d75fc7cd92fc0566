-- ===== src/Driver/Run/Sweep/Progress.antt =====
-- Runs that are over, and that there are such.
use hlfs.Common.{ℕ, zero, suc, ◌*◌, ◌≤◌, ◌<◌, ◌≡◌, inl, inr, Bool-cases, ◌==◌, arith}
use hlfs.Machine.{State}
use hlfs.Driver.Task.{Task}
use hlfs.Driver.Run.{System, Step, pick, Reach, here, later, launched}
use hlfs.Driver.Run.Finish.{Reach-total, left_over, total, total-le, total-full}

total-tight :
    (n k : ℕ) (f : ℕ → ℕ) → ((t : ℕ) → f t ≤ k) → total n f ≡ n * k → (t : ℕ) → t < n → f t ≡ k
unfolding total
total-tight zero k f le full t lt = absurd (omega arith)
total-tight (suc n) k f le full t lt =
    let below = total-le n k f le in
    let last : f n ≡ k = omega (arith, full, below, le n) in
    let others : total n f ≡ n * k = omega (arith, full, last) in
    elim (Bool-cases (t == n)) [
      | inl e ↦ let same : t ≡ n = ground arith in rw same last
      | inr e ↦ total-tight n k f le others t (ground arith)
    ]

module _ {mask threads : ℕ} {tasks : ℕ → Task} {c : ℕ → ℕ} {st : State} (iters : ℕ)
    (alike : (t : ℕ) → (tasks t).iters ≡ iters) where
  -- No thread takes more rounds than it has.
  Reach-within :
      {n : ℕ} {u : System}
      → Reach mask threads tasks c (launched st) n u
      → (t : ℕ) → u.next t ≤ iters
  Reach-within here t = omega arith
  Reach-within (later {u} r (pick t start end v st' lt more e)) t' =
      ground (arith, Reach-within r t', alike t, more)

  -- While rounds are left, some thread has one.
  pub some_left :
      {n : ℕ} {u : System}
      → Reach mask threads tasks c (launched st) n u
      → n < threads * iters
      → (t : ℕ) × (t < threads) × (u.next t < iters)
  some_left {n} {u} r less = elim (left_over threads iters u.next) [
    | inl one ↦ one
    | inr all ↦
        let full = total-full threads iters u.next (Reach-within r) all in
        absurd (omega (arith, full, Reach-total r, less))
  ]

  -- When none is left, no thread has one.
  pub all_taken :
      {u : System}
      → Reach mask threads tasks c (launched st) (threads * iters) u
      → (t : ℕ) → t < threads
      → u.next t ≡ iters
  all_taken {u} r t lt = total-tight threads iters u.next (Reach-within r) (Reach-total r) t lt

  -- If a thread that has a round left can always take it, runs of any length up to the end there are.
  pub Reach-up_to :
      (n : ℕ)
      → n ≤ threads * iters
      → ((k : ℕ) (u : System) (t : ℕ)
          → Reach mask threads tasks c (launched st) k u
          → t < threads
          → u.next t < iters
          → (w : System) × Step mask threads tasks c u w)
      → (u : System) × Reach mask threads tasks c (launched st) n u
  Reach-up_to zero le goes = (launched st, here)
  Reach-up_to (suc n) le goes =
      let (u, r) = Reach-up_to n (omega arith) goes in
      let (t, lt, more) = some_left r (omega arith) in
      let (w, step) = goes n u t r lt more in (w, later r step)
