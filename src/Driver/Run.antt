-- ===== src/Driver/Run.antt =====
-- The threads of a run side by side: any of them may take its next round. A round is one step, since
-- what the threads write lies apart.
pub mod Writer
pub mod Inv
pub mod Finish
pub mod Copies
pub mod Fills
pub mod Job
pub mod Thread
pub mod CopyJob
pub mod Sweep
use hlfs.Common.{ℕ, zero, suc, ◌+◌, ◌≤◌, ◌<◌, ◌≡◌, some, ◌==◌, if◌then◌else◌}
use hlfs.Machine.{State}
use hlfs.Driver.Task.{Task, round}

-- `next t` is the round that the thread `t` takes next, `data t` what it has measured.
pub record System : Type 0 where
  pub st : State
  pub next : ℕ → ℕ
  pub data_ : ℕ → ℕ → ℕ

abbrev pub update {ℓ} : {A : Type ℓ} → (ℕ → A) → ℕ → A → ℕ → A
update f i a j = if j == i then a else f j

abbrev pub stepped : System → (t v : ℕ) → State → System
stepped s t v st' = record {
  st = st';
  next = update s.next t (suc (s.next t));
  data_ = update s.data_ t (update (s.data_ t) (s.next t) v);
}

-- `threads` threads with their tasks, and where their bytes `c` lie.
pub data Step (mask threads : ℕ) (tasks : ℕ → Task) (c : ℕ → ℕ) (s : System) : System → Type 0 where
  pick :
      (t start end v : ℕ) (st' : State)
      → t < threads
      → s.next t < (tasks t).iters
      → round mask (tasks t) (c t) (s.next t) start end s.st ≡ some (v, st')
      → Step mask threads tasks c s (stepped s t v st')

-- With the number of steps that it takes.
pub data Reach (mask threads : ℕ) (tasks : ℕ → Task) (c : ℕ → ℕ) (s : System)
    : ℕ → System → Type 0 where
  here : Reach mask threads tasks c s zero s
  later :
      {n : ℕ} {u v : System}
      → Reach mask threads tasks c s n u
      → Step mask threads tasks c u v
      → Reach mask threads tasks c s (suc n) v

abbrev pub launched : State → System
launched st = record { st = st; next = λ t. 0; data_ = λ t i. 0 }
