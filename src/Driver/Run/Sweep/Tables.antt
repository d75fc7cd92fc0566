-- ===== src/Driver/Run/Sweep/Tables.antt =====
-- The tables for copying and for filling, whose operations call pmem2 but for the first.
use mathlib.Core.Option.{some-injective}
use hlfs.Common.{
  ℕ, zero, suc, ◌+◌, ◌/◌, ◌^◌, ◌≤◌, ◌<◌, ◌≡◌, ◌⊎◌, inl, inr, refl, ◌∙◌, Option, some, Returns, bind,
  arith, length, get_elem?, ◌>>=◌,
}
use hlfs.Machine.{State, load}
use hlfs.Machine.Wrote.{Mapped, Wrote-start, Wrote-load}
use hlfs.Instr.Copies.{IsCopy, CopyByte}
use hlfs.Aep.Native.Bytes.{FillByte}
use hlfs.AepStudy.{AepOpFn, timed, aep_cpy_baseline, aep_memset_baseline}
use hlfs.AepStudy.Persist.{Persisted, Done}
use hlfs.AepStudy.Pmem.{
  Pmem2, cpy, memset, get_sub_op_num, get_op_fn, aep_cpy_pmem2_memcpy_com, aep_cpy_pmem2_memcpy_t,
  aep_cpy_pmem2_memcpy_nt, aep_memset_pmem2_com, aep_memset_pmem2_t, aep_memset_pmem2_nt,
}
use hlfs.AepStudy.Pmem.Tables.{get_op_fn-get_op_label}
use hlfs.Driver.{Globals, aep_size, aep_half}
use hlfs.Driver.Layout.{IsLaidOut}
use hlfs.Driver.Task.{new_task, thread_buf, slot_index, slot}
use hlfs.Driver.Task.Slots.{InBuffer, slot_index-le, slot-InBuffer}
use hlfs.Driver.Run.Writer.{Agrees, slot_of}
use hlfs.Driver.Run.Copies.{slot_job, copied_Done, addresses-cpy}
use hlfs.Driver.Run.Fills.{AreOnes, one_Done, addresses-memset}
use hlfs.Driver.Run.Sweep.{main_tasks, main_slot, Sweep}
use hlfs.Driver.Run.Sweep.Swept.{IsSuite, AllWritten, whole_sweep-AllWritten, sweeps}

-- The flags with which pmem2 flushes and drains.
abbrev pub Drains : Pmem2 → (flags : ℕ) → Type 0
Drains p flags = (flags ≡ 0) ⊎ ((flags ≡ p.temporal) ⊎ (flags ≡ p.nontemporal))

-- What the manual page says of its two functions, on present pages and for a length above 0.
pub record IsPmem2 (p : Pmem2) : Type 0 where
  pub copies :
      (flags : ℕ) {s : State} {dest src len : ℕ}
      → Drains p flags
      → IsCopy s dest src len
      → 0 < len
      → Returns (Persisted (CopyByte s dest src) s dest len) (p.pmdk_memcpy dest src len flags s)
  pub fills :
      (flags c : ℕ) {s : State} {dest len : ℕ}
      → Drains p flags
      → Mapped s dest len
      → 0 < len
      → Returns (Persisted (FillByte c) s dest len) (p.pmdk_memset dest c len flags s)

abbrev pub memcpy_op : Pmem2 → (flags : ℕ) → AepOpFn
memcpy_op p flags start end dest src len s = timed start end (p.pmdk_memcpy dest src len flags s)

abbrev memset_op : Pmem2 → (flags : ℕ) → AepOpFn
memset_op p flags start end dest src len s =
    timed start end (load src 1 s >>= λ c. p.pmdk_memset dest (c 0) len flags s)

cpy_table :
    (p : Pmem2) (n : ℕ) {fn : AepOpFn}
    → get_op_fn p cpy (suc n) ≡ some fn
    → (flags : ℕ) × Drains p flags × (memcpy_op p flags ≡ fn)
unfolding get_op_fn get_sub_op_num length get_elem? aep_cpy_pmem2_memcpy_com aep_cpy_pmem2_memcpy_t
    aep_cpy_pmem2_memcpy_nt
cpy_table p zero e = (0, inl refl, some-injective _ _ e)
cpy_table p (suc zero) e = (p.temporal, inr (inl refl), some-injective _ _ e)
cpy_table p (suc (suc zero)) e = (p.nontemporal, inr (inr refl), some-injective _ _ e)
cpy_table p (suc (suc (suc n))) e = ground (arith, e)

memset_table :
    (p : Pmem2) (n : ℕ) {fn : AepOpFn}
    → get_op_fn p memset (suc n) ≡ some fn
    → (flags : ℕ) × Drains p flags × (memset_op p flags ≡ fn)
unfolding get_op_fn get_sub_op_num length get_elem? aep_memset_pmem2_com aep_memset_pmem2_t
    aep_memset_pmem2_nt
memset_table p zero e = (0, inl refl, some-injective _ _ e)
memset_table p (suc zero) e = (p.temporal, inr (inl refl), some-injective _ _ e)
memset_table p (suc (suc zero)) e = (p.nontemporal, inr (inr refl), some-injective _ _ e)
memset_table p (suc (suc (suc n))) e = ground (arith, e)

pub timed-Done :
    {byte : ℕ → ℕ → Type 0} {s : State} {dest len : ℕ} (start end : ℕ) {m : Option State}
    → Returns (Persisted byte s dest len) m
    → Returns (Done byte s dest len start end) (timed start end m)
timed-Done start end r = bind r λ t p. (_, refl, (refl, p))

pub found :
    (p : Pmem2) (g : Globals) (n : ℕ)
    → n < get_sub_op_num p g.rw_type
    → (fn : AepOpFn) × (get_op_fn p g.rw_type n ≡ some fn)
found p g n lt = elim (get_op_fn-get_op_label p g.rw_type n) [
  | inl q ↦ q.1
  | inr q ↦ absurd (omega (arith, q.0))
]

pub in_buffer :
    {g : Globals} (rand : ℕ → ℕ → ℕ) (idx_at mem_cpy_buf : ℕ → ℕ) (fn : AepOpFn) (t i : ℕ)
    → IsLaidOut g
    → t < g.thread_num
    → InBuffer g t (slot_of g (main_tasks g rand idx_at mem_cpy_buf fn t) i)
unfolding main_tasks
in_buffer {g} rand idx_at mem_cpy_buf fn t i laid_out lt =
    slot-InBuffer g (rand t) (idx_at t) (mem_cpy_buf t) fn t _ laid_out lt
      (slot_index-le g (rand t) (idx_at t) (mem_cpy_buf t) fn (thread_buf g t) i)

module _ (p : Pmem2) (is : IsPmem2 p) {g : Globals} {s₀ : State} (laid_out : IsLaidOut g)
    (on_map : Mapped s₀ g.aep_buf aep_size) (low : g.aep_buf + aep_size ≤ 2 ^ 64) (rand : ℕ → ℕ → ℕ)
    (idx_at mem_cpy_buf : ℕ → ℕ) (c : ℕ → ℕ) where
  slot_there :
      (s : State) (t dest : ℕ) → InBuffer g t dest → Agrees g s₀ s → Mapped s dest g.access_size
  slot_there s t dest b a =
      λ x q r. a.pages (x / 4096) ∙ on_map x (omega (arith, b.first)) (omega (arith, b.half))

  cpy-IsSuite :
      g.rw_type ≡ cpy
      → IsSuite p g
          (main_tasks g rand idx_at mem_cpy_buf)
          c
          s₀
          (λ x. s₀.mem (x + aep_half))
          (main_slot g rand)
  unfolding main_tasks main_slot new_task slot slot_index get_op_fn get_sub_op_num length get_elem?
      aep_cpy_baseline
  cpy-IsSuite copies = record {
    more_than_one = rw copies (omega arith);
    idles = λ fn chosen t start end dest src len s.
        let e : aep_cpy_baseline ≡ fn = some-injective _ _ (rw copies at chosen) in rw (← e) refl;
    writer = λ fn n chosen. record {
      in_buffer = λ t i lt. in_buffer rand idx_at mem_cpy_buf fn t i laid_out lt;
      writes = λ t i start end s lt a.
          let (flags, drains, e) = cpy_table p n (rw copies at chosen) in
          let b = in_buffer rand idx_at mem_cpy_buf fn t i laid_out lt in
          let task = main_tasks g rand idx_at mem_cpy_buf fn t in
          rw (addresses-cpy task (c t) (slot_index g.buf_slots_mask task i) copies) (
            copied_Done laid_out copies on_map low s t _ start end b a (
              rw (← e) (
                timed-Done start end (
                  is.copies flags drains (slot_job laid_out copies on_map low s t _ b a).copy
                    laid_out.some_bytes))));
    };
    iters = λ fn t. refl;
    slots = λ fn t i. refl;
    found = found p g;
  }

  memset-IsSuite :
      g.rw_type ≡ memset
      → AreOnes g s₀ c
      → IsSuite p g (main_tasks g rand idx_at mem_cpy_buf) c s₀ (λ x. 1) (main_slot g rand)
  unfolding main_tasks main_slot new_task slot slot_index get_op_fn get_sub_op_num length get_elem?
      aep_cpy_baseline aep_memset_baseline
  memset-IsSuite fills ones = record {
    more_than_one = rw fills (omega arith);
    idles = λ fn chosen t start end dest src len s.
        let e : aep_memset_baseline ≡ fn = some-injective _ _ (rw fills at chosen) in rw (← e) refl;
    writer = λ fn n chosen. record {
      in_buffer = λ t i lt. in_buffer rand idx_at mem_cpy_buf fn t i laid_out lt;
      writes = λ t i start end s lt a.
          let (flags, drains, e) = memset_table p n (rw fills at chosen) in
          let b = in_buffer rand idx_at mem_cpy_buf fn t i laid_out lt in
          let task = main_tasks g rand idx_at mem_cpy_buf fn t in
          let c_there : Mapped s (c t) 1 = λ x q r. a.pages (x / 4096) ∙ ones.mapped t lt x q r in
          let start_of = Wrote-start {byte = λ x b. Unit} {s₀ = s} {dest = 0} 0 0 in
          let byte = Wrote-load (c t) 1 start_of c_there (omega arith) in
          rw (addresses-memset task (c t) (slot_index g.buf_slots_mask task i) fills) (
            one_Done laid_out fills on_map low c ones s t _ start end lt a (
              rw (← e) (
                rw byte (
                  timed-Done start end (
                    is.fills flags (s.mem (c t + 0)) drains (slot_there s t _ b a)
                      laid_out.some_bytes)))));
    };
    iters = λ fn t. refl;
    slots = λ fn t i. refl;
    found = found p g;
  }

  -- The rounds of MainJobNormal over the whole table for copying, one operation behind the other,
  -- each run to its end by the threads in any order, where pmem2 copies and fills as its manual
  -- page says, persistently unless a flag forbids it, in a laid-out configuration with the whole
  -- map below `2 ^ 64` and on present pages: every slot of every round then holds the bytes that
  -- lay `aep_half` above it at the start, and has reached the medium; outside the first half of
  -- the map nothing has changed.
  pub cpy_sweep-AllWritten :
      {s' : State}
      → g.rw_type ≡ cpy
      → Sweep p g (main_tasks g rand idx_at mem_cpy_buf) c 0 s₀ s'
      → AllWritten g s₀ (λ x. s₀.mem (x + aep_half)) (main_slot g rand) s'
  cpy_sweep-AllWritten copies sweep = whole_sweep-AllWritten (cpy-IsSuite copies) sweep

  -- The rounds of MainJobNormal over the whole table for filling, one operation behind the other,
  -- each run to its end by the threads in any order, where pmem2 copies and fills as its manual
  -- page says, persistently unless a flag forbids it, in a laid-out configuration with the whole
  -- map below `2 ^ 64` and on present pages, and the byte `c` of each thread 1, on a present page
  -- and off the first half of the map: every byte of every slot of every round is then 1 and has
  -- reached the medium; outside the first half of the map nothing has changed.
  pub memset_sweep-AllWritten :
      {s' : State}
      → g.rw_type ≡ memset
      → AreOnes g s₀ c
      → Sweep p g (main_tasks g rand idx_at mem_cpy_buf) c 0 s₀ s'
      → AllWritten g s₀ (λ x. 1) (main_slot g rand) s'
  memset_sweep-AllWritten fills ones sweep =
      whole_sweep-AllWritten (memset-IsSuite fills ones) sweep

  -- There are such rounds, whatever the clock reads.
  pub sweeps_end :
      (start end : ℕ)
      → g.iters < 2 ^ 31
      → (g.rw_type ≡ cpy) ⊎ ((g.rw_type ≡ memset) × AreOnes g s₀ c)
      → (s' : State) × Sweep p g (main_tasks g rand idx_at mem_cpy_buf) c 0 s₀ s'
  sweeps_end start end few (inl copies) = sweeps (cpy-IsSuite copies) start end few
  sweeps_end start end few (inr (fills, ones)) = sweeps (memset-IsSuite fills ones) start end few
