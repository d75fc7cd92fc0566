-- ===== src/Driver/Run/Copies.antt =====
-- Runs of the copying operations: each thread copies from the second half of the map to the first.
use hlfs.Common.{ℕ, ◌+◌, ◌-◌, ◌/◌, ◌^◌, ◌≤◌, ◌<◌, ◌≡◌, inr, refl, ◌∙◌, Option, arith, Returns, mono}
use hlfs.Machine.{State}
use hlfs.Machine.Wrote.{Mapped}
use hlfs.Instr.Copies.{IsVectorCopy, CopyByte}
use hlfs.AepStudy.Pmem.{cpy}
use hlfs.AepStudy.Persist.{Done, PersistingCopy, copy_fn, copy_fn-Persisted}
use hlfs.Driver.{Globals, aep_size, aep_half}
use hlfs.Driver.Layout.{IsLaidOut}
use hlfs.Driver.Task.{Task, new_task, thread_buf, slot_index, slot, addresses}
use hlfs.Driver.Task.Slots.{InBuffer, slot_index-le, slot-InBuffer}
use hlfs.Driver.Run.{System, Reach, launched}
use hlfs.Driver.Run.Writer.{Agrees, SlotWriter, slot_of}
use hlfs.Driver.Run.Inv.{Inv, Inv-launched, Reach-Inv}

-- The tasks that InitThreadContext makes, with what `rand` gives for each and where their tables and
-- buffers lie, once ThreadContextSetSubOp has set the operation.
unfoldable pub copy_tasks :
    Globals → (rand : ℕ → ℕ → ℕ) → (idx_at mem_cpy_buf : ℕ → ℕ) → PersistingCopy → ℕ → Task
unfolding new_task copy_fn
copy_tasks g rand idx_at mem_cpy_buf c t =
    new_task g (rand t) (idx_at t) (mem_cpy_buf t) (copy_fn c) (thread_buf g t)

pub addresses-cpy :
    (task : Task) (c idx : ℕ)
    → task.rw_type ≡ cpy
    → addresses task c idx ≡ (slot task idx, slot task idx + aep_half)
unfolding addresses
addresses-cpy task c idx e = ground (arith, e)

pub tasks_iters :
    (g : Globals) (rand : ℕ → ℕ → ℕ) (idx_at mem_cpy_buf : ℕ → ℕ) (op : PersistingCopy) (t : ℕ)
    → (copy_tasks g rand idx_at mem_cpy_buf op t).iters ≡ g.iters
unfolding copy_tasks new_task
tasks_iters g rand idx_at mem_cpy_buf op t = refl

module _ {g : Globals} {s₀ : State} (laid_out : IsLaidOut g) (copies : g.rw_type ≡ cpy)
    (mapped : Mapped s₀ g.aep_buf aep_size) (low : g.aep_buf + aep_size ≤ 2 ^ 64) where
  -- A copy from `dest + aep_half` to a slot at `dest`.
  pub slot_job :
      (s : State) (t dest : ℕ)
      → InBuffer g t dest
      → Agrees g s₀ s
      → IsVectorCopy s dest (dest + aep_half) g.access_size
  slot_job s t dest b a = record {
    copy = record {
      apart = inr (omega (arith, b.first, b.half));
      from =
          λ x p q. a.pages (x / 4096) ∙ mapped x (omega (arith, b.first)) (omega (arith, b.half));
      to = λ x p q. a.pages (x / 4096) ∙ mapped x (omega (arith, b.first)) (omega (arith, b.half));
    };
    alike = omega arith;
  }

  -- What an operation that copies to a slot has done.
  pub copied_Done :
      (s : State) (t dest start end : ℕ) {m : Option (ℕ × State)}
      → InBuffer g t dest
      → Agrees g s₀ s
      → Returns (Done (CopyByte s dest (dest + aep_half)) s dest g.access_size start end) m
      → Returns (Done (λ x b. b ≡ s₀.mem (x + aep_half)) s dest g.access_size start end) m
  copied_Done s t dest start end b a done = mono done λ r d. (
    d.0,
    record {
      inside = λ x p q.
          let at : dest + aep_half + (x - dest) ≡ x + aep_half = omega arith in
          (rw at at (d.1.inside x p q)) ∙ a.far (x + aep_half) (inr (omega (arith, b.first)));
      safe = d.1.safe;
      outside = d.1.outside;
      kept = d.1.kept;
      pages = d.1.pages;
    },
  )

  slot_copied :
      (c : PersistingCopy) (s : State) (t dest start end : ℕ)
      → InBuffer g t dest
      → Agrees g s₀ s
      → Returns
          (Done (λ x b. b ≡ s₀.mem (x + aep_half)) s dest g.access_size start end)
          (copy_fn c start end dest (dest + aep_half) g.access_size s)
  slot_copied c s t dest start end b a = copied_Done s t dest start end b a (
      copy_fn-Persisted start end (slot_job s t dest b a)
        (λ x p q. a.pages (x / 4096) ∙ mapped x (omega (arith, b.first)) (omega (arith, b.half)))
        (omega (arith, b.half)) c)

  module _ (rand : ℕ → ℕ → ℕ) (idx_at mem_cpy_buf : ℕ → ℕ) (op : PersistingCopy) (c : ℕ → ℕ) where
    pub copy_writer :
        SlotWriter g (copy_tasks g rand idx_at mem_cpy_buf op) c s₀ (λ x. s₀.mem (x + aep_half))
    unfolding copy_tasks new_task
    copy_writer = record { in_buffer = in_buffer; writes = writes }
      where
        task : ℕ → Task
        task t = copy_tasks g rand idx_at mem_cpy_buf op t

        in_buffer : (t i : ℕ) → t < g.thread_num → InBuffer g t (slot_of g (task t) i)
        in_buffer t i lt =
            slot-InBuffer g (rand t) (idx_at t) (mem_cpy_buf t) (copy_fn op) t _ laid_out lt
              (slot_index-le g (rand t) (idx_at t) (mem_cpy_buf t) (copy_fn op) (thread_buf g t) i)

        writes :
            (t i start end : ℕ) (s : State)
            → t < g.thread_num
            → Agrees g s₀ s
            → Returns
                (Done
                  (λ x b. b ≡ s₀.mem (x + aep_half))
                  s
                  (slot_of g (task t) i)
                  g.access_size
                  start
                  end)
                ((task t).fn start end
                  (addresses (task t) (c t) (slot_index g.buf_slots_mask (task t) i)).0
                  (addresses (task t) (c t) (slot_index g.buf_slots_mask (task t) i)).1
                  (task t).access_size
                  s)
        writes t i start end s lt a =
            rw (addresses-cpy (task t) (c t) (slot_index g.buf_slots_mask (task t) i) copies)
              (slot_copied op s t (slot_of g (task t) i) start end (in_buffer t i lt) a)

    -- In a laid-out configuration for copying operations that end in a fence, with the whole map
    -- below `2 ^ 64` and on present pages, after any rounds of the threads in any order: all
    -- outside the first half of the map is as at the start; each byte is as at the start or as the
    -- byte `aep_half` above it was; the slots of the rounds that are done hold such copies, which
    -- have reached the medium; the bytes outside these slots are as at the start; and no thread
    -- has more rounds than `iters`.
    pub copy_run-Inv :
        {n : ℕ} {u : System}
        → Reach g.buf_slots_mask g.thread_num
            (copy_tasks g rand idx_at mem_cpy_buf op)
            c
            (launched s₀)
            n
            u
        → Inv g (copy_tasks g rand idx_at mem_cpy_buf op) s₀ (λ x. s₀.mem (x + aep_half)) u
    copy_run-Inv r =
        Reach-Inv g _ c s₀ (λ x. s₀.mem (x + aep_half)) copy_writer (Inv-launched g _ s₀ _) r
