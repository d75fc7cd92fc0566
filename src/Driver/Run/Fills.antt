-- ===== src/Driver/Run/Fills.antt =====
-- Runs of the filling operations: each thread sets its slots to the byte `c` of its stack, which is 1.
use hlfs.Common.{ℕ, ◌+◌, ◌^◌, ◌≤◌, ◌<◌, ◌≡◌, ◌⊎◌, refl, ap, ◌∙◌, Option, ◌/◌, arith, Returns, mono}
use hlfs.Machine.{State}
use hlfs.Machine.Wrote.{Mapped}
use hlfs.AepStudy.{AepOpFn, aep_memset_native_by_all, aep_memset_native_by_cacheline}
use hlfs.AepStudy.Pmem.{memset}
use hlfs.Aep.Native.Bytes.{FillByte}
use hlfs.AepStudy.Persist.{
  Done, aep_memset_native_by_all-Persisted, aep_memset_native_by_cacheline-Persisted,
}
use hlfs.Driver.{Globals, aep_size, aep_half}
use hlfs.Driver.Layout.{IsLaidOut}
use hlfs.Driver.Task.{Task, new_task, thread_buf, slot_index, slot, addresses}
use hlfs.Driver.Task.Slots.{InBuffer, slot_index-le, slot-InBuffer}
use hlfs.Driver.Run.Writer.{Agrees, SlotWriter, slot_of}

pub data Fill : Type 0 where
  by_all by_cacheline : Fill

unfoldable pub fill_fn : Fill → AepOpFn
fill_fn by_all = aep_memset_native_by_all
fill_fn by_cacheline = aep_memset_native_by_cacheline

unfoldable pub fill_tasks :
    Globals → (rand : ℕ → ℕ → ℕ) → (idx_at mem_cpy_buf : ℕ → ℕ) → Fill → ℕ → Task
unfolding new_task fill_fn
fill_tasks g rand idx_at mem_cpy_buf f t =
    new_task g (rand t) (idx_at t) (mem_cpy_buf t) (fill_fn f) (thread_buf g t)

-- The bytes `c` of the threads: 1, on present pages, and not in the first half of the map.
pub record AreOnes (g : Globals) (s₀ : State) (c : ℕ → ℕ) : Type 0 where
  pub one : (t : ℕ) → t < g.thread_num → s₀.mem (c t) ≡ 1
  pub mapped : (t : ℕ) → t < g.thread_num → Mapped s₀ (c t) 1
  pub off : (t : ℕ) → t < g.thread_num → (c t < g.aep_buf) ⊎ (g.aep_buf + aep_half ≤ c t)

pub addresses-memset :
    (task : Task) (c idx : ℕ) → task.rw_type ≡ memset → addresses task c idx ≡ (slot task idx, c)
unfolding addresses
addresses-memset task c idx e = ground (arith, e)

pub fill_tasks_iters :
    (g : Globals) (rand : ℕ → ℕ → ℕ) (idx_at mem_cpy_buf : ℕ → ℕ) (f : Fill) (t : ℕ)
    → (fill_tasks g rand idx_at mem_cpy_buf f t).iters ≡ g.iters
unfolding fill_tasks new_task
fill_tasks_iters g rand idx_at mem_cpy_buf f t = refl

module _ {g : Globals} {s₀ : State} (laid_out : IsLaidOut g) (fills : g.rw_type ≡ memset)
    (on_map : Mapped s₀ g.aep_buf aep_size) (low : g.aep_buf + aep_size ≤ 2 ^ 64) (c : ℕ → ℕ)
    (ones : AreOnes g s₀ c) where
  -- What an operation that fills with the byte at `c` has done.
  pub one_Done :
      (s : State) (t dest start end : ℕ) {m : Option (ℕ × State)}
      → t < g.thread_num
      → Agrees g s₀ s
      → Returns (Done (FillByte (s.mem (c t + 0))) s dest g.access_size start end) m
      → Returns (Done (λ x b. b ≡ 1) s dest g.access_size start end) m
  one_Done s t dest start end lt a done =
      let here : c t + 0 ≡ c t = omega arith in
      let one : s.mem (c t + 0) ≡ 1 =
        ap (λ x. s.mem x) here ∙ a.far (c t) (ones.off t lt) ∙ ones.one t lt in
      mono done λ r d. (
        d.0,
        record {
          inside = λ x p q. d.1.inside x p q ∙ rw one refl;
          safe = d.1.safe;
          outside = d.1.outside;
          kept = d.1.kept;
          pages = d.1.pages;
        },
      )

  slot_filled :
      (f : Fill) (s : State) (t dest start end : ℕ)
      → t < g.thread_num
      → InBuffer g t dest
      → Agrees g s₀ s
      → Returns
          (Done (λ x b. b ≡ 1) s dest g.access_size start end)
          (fill_fn f start end dest (c t) g.access_size s)
  unfolding fill_fn
  slot_filled by_all s t dest start end lt b a = one_Done s t dest start end lt a (
      aep_memset_native_by_all-Persisted start end
        (λ x p q. a.pages (x / 4096) ∙ ones.mapped t lt x p q)
        (λ x p q. a.pages (x / 4096) ∙ on_map x (omega (arith, b.first)) (omega (arith, b.half)))
        (omega (arith, b.half)))
  slot_filled by_cacheline s t dest start end lt b a = one_Done s t dest start end lt a (
      aep_memset_native_by_cacheline-Persisted start end
        (λ x p q. a.pages (x / 4096) ∙ ones.mapped t lt x p q)
        (λ x p q. a.pages (x / 4096) ∙ on_map x (omega (arith, b.first)) (omega (arith, b.half))))

  module _ (rand : ℕ → ℕ → ℕ) (idx_at mem_cpy_buf : ℕ → ℕ) (f : Fill) where
    pub fill_writer : SlotWriter g (fill_tasks g rand idx_at mem_cpy_buf f) c s₀ (λ x. 1)
    unfolding fill_tasks new_task
    fill_writer = record { in_buffer = in_buffer; writes = writes }
      where
        task : ℕ → Task
        task t = fill_tasks g rand idx_at mem_cpy_buf f t

        in_buffer : (t i : ℕ) → t < g.thread_num → InBuffer g t (slot_of g (task t) i)
        in_buffer t i lt =
            slot-InBuffer g (rand t) (idx_at t) (mem_cpy_buf t) (fill_fn f) t _ laid_out lt
              (slot_index-le g (rand t) (idx_at t) (mem_cpy_buf t) (fill_fn f) (thread_buf g t) i)

        writes :
            (t i start end : ℕ) (s : State)
            → t < g.thread_num
            → Agrees g s₀ s
            → Returns (Done (λ x b. b ≡ 1) s (slot_of g (task t) i) g.access_size start end) (
                (task t).fn start end
                  (addresses (task t) (c t) (slot_index g.buf_slots_mask (task t) i)).0
                  (addresses (task t) (c t) (slot_index g.buf_slots_mask (task t) i)).1
                  (task t).access_size
                  s)
        writes t i start end s lt a =
            rw (addresses-memset (task t) (c t) (slot_index g.buf_slots_mask (task t) i) fills)
              (slot_filled f s t (slot_of g (task t) i) start end lt (in_buffer t i lt) a)
