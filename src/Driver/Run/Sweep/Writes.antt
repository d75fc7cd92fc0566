-- ===== src/Driver/Run/Sweep/Writes.antt =====
-- The table for writing, whose operations copy the buffer that each thread has in DRAM to its slots.
use native.Mathlib.Nat.{mul-add-div_right, div-eq_of_lt, mod-eq-sub-div-mul}
use mathlib.Core.Option.{some-injective}
use hlfs.Common.{
  ℕ, zero, suc, ◌+◌, ◌-◌, ◌*◌, ◌/◌, ◌%◌, ◌^◌, ◌≤◌, ◌<◌, ◌≡◌, ◌⊎◌, inl, inr, refl, ap, ◌∙◌, Option,
  some, Returns, mono, arith, length, get_elem?,
}
use hlfs.Machine.{State}
use hlfs.Machine.Wrote.{Mapped}
use hlfs.Instr.Copies.{IsCopy, CopyByte}
use hlfs.AepStudy.{AepOpFn, aep_cpy_baseline, aep_write_baseline}
use hlfs.AepStudy.Persist.{Done}
use hlfs.AepStudy.Pmem.{
  Pmem2, write, get_sub_op_num, get_op_fn, aep_pmem2_cpy_dram_t, aep_pmem2_cpy_dram_nt,
}
use hlfs.Driver.{Globals, aep_size, aep_half}
use hlfs.Driver.Layout.{IsLaidOut}
use hlfs.Driver.Task.{Task, new_task, slot_index, slot, addresses, thread_buf}
use hlfs.Driver.Task.Slots.{InBuffer, slot_index-le, slots_up_to, slot_lem}
use hlfs.Driver.Run.Writer.{Agrees}
use hlfs.Driver.Run.Sweep.{main_tasks, main_slot, Sweep}
use hlfs.Driver.Run.Sweep.Swept.{IsSuite, AllWritten, whole_sweep-AllWritten, sweeps}
use hlfs.Driver.Run.Sweep.Tables.{Drains, IsPmem2, memcpy_op, found, in_buffer, timed-Done}

write_table :
    (p : Pmem2) (n : ℕ) {fn : AepOpFn}
    → get_op_fn p write (suc n) ≡ some fn
    → (flags : ℕ) × Drains p flags × (memcpy_op p flags ≡ fn)
unfolding get_op_fn get_sub_op_num length get_elem? aep_pmem2_cpy_dram_t aep_pmem2_cpy_dram_nt
write_table p zero e = (p.temporal, inr (inl refl), some-injective _ _ e)
write_table p (suc zero) e = (p.nontemporal, inr (inr refl), some-injective _ _ e)
write_table p (suc (suc n)) e = ground (arith, e)

-- The buffers of the threads in DRAM, on present pages and off the first half of the map.
pub record AreDrams (g : Globals) (s₀ : State) (mem_cpy_buf : ℕ → ℕ) : Type 0 where
  pub mapped : (t : ℕ) → t < g.thread_num → Mapped s₀ (mem_cpy_buf t) g.access_size
  pub off :
      (t : ℕ)
      → t < g.thread_num
      → (mem_cpy_buf t + g.access_size ≤ g.aep_buf) ⊎ (g.aep_buf + aep_half ≤ mem_cpy_buf t)

-- The byte that belongs at `x`: of the thread whose buffer `x` lies in, by its place in its slot.
abbrev pub dram_byte : Globals → State → (mem_cpy_buf : ℕ → ℕ) → (x : ℕ) → ℕ
dram_byte g s₀ mem_cpy_buf x = s₀.mem (
    mem_cpy_buf ((x - g.aep_buf) / g.buffer_size) + (x - g.aep_buf) % g.buffer_size % g.access_size)

div_mod : (a r n : ℕ) → r < n → ((a * n + r) / n ≡ a) × ((a * n + r) % n ≡ r)
div_mod a r n lt =
    let whole : (a * n + r) / n ≡ a =
      omega (arith, mul-add-div_right {m = n} (omega arith) a r, div-eq_of_lt lt) in
    (whole, mod-eq-sub-div-mul (a * n + r) n ∙ rw whole (omega arith))

dram_byte-slot :
    (g : Globals) (s₀ : State) (mem_cpy_buf : ℕ → ℕ) (t idx dest x : ℕ)
    → dest ≡ g.aep_buf + t * g.buffer_size + idx * g.access_size
    → idx * g.access_size + g.access_size ≤ g.buffer_size
    → dest ≤ x
    → x < dest + g.access_size
    → s₀.mem (mem_cpy_buf t + (x - dest)) ≡ dram_byte g s₀ mem_cpy_buf x
dram_byte-slot g s₀ mem_cpy_buf t idx dest x at room low high =
    let r : ℕ = idx * g.access_size + (x - dest) in
    let place : x - g.aep_buf ≡ t * g.buffer_size + r = omega (arith, at) in
    let outer = div_mod t r g.buffer_size (omega (arith, room)) in
    let inner = div_mod idx (x - dest) g.access_size (omega arith) in
    let thread : (x - g.aep_buf) / g.buffer_size ≡ t =
      ap (λ y. y / g.buffer_size) place ∙ outer.0 in
    let offset : (x - g.aep_buf) % g.buffer_size % g.access_size ≡ x - dest =
      ap (λ y. y % g.buffer_size % g.access_size) place
      ∙ ap (λ y. y % g.access_size) outer.1
      ∙ inner.1 in
    cc (thread, offset)

addresses-write :
    (task : Task) (c idx : ℕ)
    → task.rw_type ≡ write
    → addresses task c idx ≡ (slot task idx, task.mem_cpy_buf)
unfolding addresses
addresses-write task c idx e = ground (arith, e)

module _ (p : Pmem2) (is : IsPmem2 p) {g : Globals} {s₀ : State} (laid_out : IsLaidOut g)
    (on_map : Mapped s₀ g.aep_buf aep_size) (rand : ℕ → ℕ → ℕ) (idx_at mem_cpy_buf : ℕ → ℕ)
    (c : ℕ → ℕ) (writes_kind : g.rw_type ≡ write) (drams : AreDrams g s₀ mem_cpy_buf) where
  dram_job :
      (s : State) (t dest : ℕ)
      → t < g.thread_num
      → InBuffer g t dest
      → Agrees g s₀ s
      → IsCopy s dest (mem_cpy_buf t) g.access_size
  dram_job s t dest lt b a = record {
    apart = ground (arith, drams.off t lt, b.first, b.half);
    from = λ x q r. a.pages (x / 4096) ∙ drams.mapped t lt x q r;
    to = λ x q r. a.pages (x / 4096) ∙ on_map x (omega (arith, b.first)) (omega (arith, b.half));
  }

  written_Done :
      (s : State) (t idx dest start end : ℕ) {m : Option (ℕ × State)}
      → t < g.thread_num
      → dest ≡ g.aep_buf + t * g.buffer_size + idx * g.access_size
      → idx ≤ g.buf_slots_mask
      → Agrees g s₀ s
      → Returns (Done (CopyByte s dest (mem_cpy_buf t)) s dest g.access_size start end) m
      → Returns (Done (λ x b. b ≡ dram_byte g s₀ mem_cpy_buf x) s dest g.access_size start end) m
  written_Done s t idx dest start end lt at le a done =
      let room = slots_up_to {m = g.buf_slots_mask} g.access_size le laid_out.slots in
      mono done λ r d. (
        d.0,
        record {
          inside = λ x q h.
              d.1.inside x q h
              ∙ a.far (mem_cpy_buf t + (x - dest)) (ground (arith, drams.off t lt))
              ∙ dram_byte-slot g s₀ mem_cpy_buf t idx dest x at room q h;
          safe = d.1.safe;
          outside = d.1.outside;
          kept = d.1.kept;
          pages = d.1.pages;
        },
      )

  write-IsSuite :
      IsSuite p g
        (main_tasks g rand idx_at mem_cpy_buf)
        c
        s₀
        (dram_byte g s₀ mem_cpy_buf)
        (main_slot g rand)
  unfolding main_tasks main_slot new_task slot slot_index get_op_fn get_sub_op_num length get_elem?
      aep_cpy_baseline aep_write_baseline
  write-IsSuite = record {
    more_than_one = rw writes_kind (omega arith);
    idles = λ fn chosen t start end dest src len s.
        let e : aep_write_baseline ≡ fn = some-injective _ _ (rw writes_kind at chosen) in
        rw (← e) refl;
    writer = λ fn n chosen. record {
      in_buffer = λ t i lt. in_buffer rand idx_at mem_cpy_buf fn t i laid_out lt;
      writes = λ t i start end s lt a.
          let (flags, drains, e) = write_table p n (rw writes_kind at chosen) in
          let b = in_buffer rand idx_at mem_cpy_buf fn t i laid_out lt in
          let task = main_tasks g rand idx_at mem_cpy_buf fn t in
          let idx = slot_index g.buf_slots_mask task i in
          let le = slot_index-le g (rand t) (idx_at t) (mem_cpy_buf t) fn (thread_buf g t) i in
          rw (addresses-write task (c t) idx writes_kind) (
            written_Done s t idx _ start end lt
              (slot_lem g (rand t) (idx_at t) (mem_cpy_buf t) fn t idx laid_out lt le) le a
              (rw (← e) (
                timed-Done start end
                  (is.copies flags drains (dram_job s t _ lt b a) laid_out.some_bytes))));
    };
    iters = λ fn t. refl;
    slots = λ fn t i. refl;
    found = found p g;
  }

  -- The rounds of MainJobNormal over the whole table for writing, one operation behind the other,
  -- each run to its end by the threads in any order, where pmem2 copies and fills as its manual
  -- page says, persistently unless a flag forbids it, in a laid-out configuration with the whole
  -- map on present pages, and the buffer of each thread in DRAM on present pages and off the first
  -- half of the map: every slot of every round then holds the bytes that lay in the buffer of its
  -- thread at the start, and has reached the medium; outside the first half of the map nothing has
  -- changed.
  pub write_sweep-AllWritten :
      {s' : State}
      → Sweep p g (main_tasks g rand idx_at mem_cpy_buf) c 0 s₀ s'
      → AllWritten g s₀ (dram_byte g s₀ mem_cpy_buf) (main_slot g rand) s'
  write_sweep-AllWritten sweep = whole_sweep-AllWritten write-IsSuite sweep

  pub write_sweeps :
      (start end : ℕ)
      → g.iters < 2 ^ 31
      → (s' : State) × Sweep p g (main_tasks g rand idx_at mem_cpy_buf) c 0 s₀ s'
  write_sweeps start end few = sweeps write-IsSuite start end few
