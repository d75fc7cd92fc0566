-- ===== src/Driver/Run/Sweep.antt =====
-- bgtest/AEP/aep_study.cc: MainJobNormal and the loops of the other two over the operations of a table:
-- each is run by all threads, which main joins, before the next one is set.
-- PrepareJob, and the store of the byte `c` of a thread, are left out of a run here.
pub mod Progress
pub mod Swept
pub mod Tables
pub mod Writes
use hlfs.Common.{ℕ, zero, suc, ◌*◌, ◌≤◌, ◌<◌, ◌≡◌, some}
use hlfs.Machine.{State}
use hlfs.AepStudy.{AepOpFn, aep_cpy_baseline}
use hlfs.AepStudy.Pmem.{Pmem2, get_sub_op_num, get_op_fn}
use hlfs.Driver.{Globals}
use hlfs.Driver.Task.{Task, new_task, thread_buf}
use hlfs.Driver.Run.{System, Reach, launched}
use hlfs.Driver.Run.Writer.{slot_of}

-- The tasks of InitThreadContext, with an operation that ThreadContextSetSubOp sets.
unfoldable pub main_tasks :
    Globals → (rand : ℕ → ℕ → ℕ) → (idx_at mem_cpy_buf : ℕ → ℕ) → AepOpFn → ℕ → Task
unfolding new_task
main_tasks g rand idx_at mem_cpy_buf fn t =
    new_task g (rand t) (idx_at t) (mem_cpy_buf t) fn (thread_buf g t)

-- Where the slot of the round `i` of the thread `t` lies, whatever the operation is.
unfoldable pub main_slot : Globals → (rand : ℕ → ℕ → ℕ) → (t i : ℕ) → ℕ
unfolding main_tasks
main_slot g rand t i = slot_of g (main_tasks g rand (λ u. 0) (λ u. 0) aep_cpy_baseline t) i

-- `for (int sub_op = 0; sub_op < sub_op_num; ++sub_op)`, from some `sub_op` on: the memory before and
-- behind the loop. A run is over when each of the threads has taken all its rounds.
pub data Sweep (p : Pmem2) (g : Globals) (tasks : AepOpFn → ℕ → Task) (c : ℕ → ℕ)
    : ℕ → State → State → Type 0 where
  swept :
      {sub_op : ℕ} {s : State} → get_sub_op_num p g.rw_type ≤ sub_op → Sweep p g tasks c sub_op s s
  next :
      {sub_op : ℕ} {s s' : State} {fn : AepOpFn} {u : System}
      → sub_op < get_sub_op_num p g.rw_type
      → get_op_fn p g.rw_type sub_op ≡ some fn
      → Reach g.buf_slots_mask g.thread_num (tasks fn) c (launched s) (g.thread_num * g.iters) u
      → Sweep p g tasks c (suc sub_op) u.st s'
      → Sweep p g tasks c sub_op s s'
