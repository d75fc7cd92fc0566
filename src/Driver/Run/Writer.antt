-- ===== src/Driver/Run/Writer.antt =====
-- What a run asks of the operation that it measures.
use hlfs.Common.{ℕ, ◌+◌, ◌≤◌, ◌<◌, ◌≡◌, ◌⊎◌, Returns}
use hlfs.Machine.{State}
use hlfs.AepStudy.Persist.{Done}
use hlfs.Driver.{Globals, aep_half}
use hlfs.Driver.Task.{Task, slot_index, slot, addresses}
use hlfs.Driver.Task.Slots.{InBuffer}

-- Outside the first half of the map all is as at the start.
pub record Agrees (g : Globals) (s₀ s : State) : Type 0 where
  pub far : (x : ℕ) → (x < g.aep_buf) ⊎ (g.aep_buf + aep_half ≤ x) → s.mem x ≡ s₀.mem x
  pub pages : (p : ℕ) → s.present p ≡ s₀.present p

-- The slot of the round `i` of a task.
abbrev pub slot_of : Globals → Task → (i : ℕ) → ℕ
slot_of g task i = slot task (slot_index g.buf_slots_mask task i)

-- The operation of each thread persists in the slot what it should, `want`, whatever the other threads
-- have done to the first half of the map.
pub record SlotWriter (g : Globals) (tasks : ℕ → Task) (c : ℕ → ℕ) (s₀ : State) (want : ℕ → ℕ)
    : Type 0 where
  pub in_buffer : (t i : ℕ) → t < g.thread_num → InBuffer g t (slot_of g (tasks t) i)
  pub writes :
      (t i start end : ℕ) (s : State)
      → t < g.thread_num
      → Agrees g s₀ s
      → Returns (Done (λ x b. b ≡ want x) s (slot_of g (tasks t) i) g.access_size start end) (
          (tasks t).fn start end
            (addresses (tasks t) (c t) (slot_index g.buf_slots_mask (tasks t) i)).0
            (addresses (tasks t) (c t) (slot_index g.buf_slots_mask (tasks t) i)).1
            (tasks t).access_size
            s)
