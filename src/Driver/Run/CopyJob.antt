-- ===== src/Driver/Run/CopyJob.antt =====
-- ThreadJob for the copying operations.
use hlfs.Common.{
  ℕ, ◌+◌, ◌*◌, ◌%◌, ◌^◌, ◌≤◌, ◌<◌, ◌≡◌, ◌⊎◌, inl, inr, refl, ◌∙◌, some, arith, Returns, bind, mono,
  ◌/◌, ltb, Bool-cases,
}
use hlfs.Machine.{State, cached, put, store}
use hlfs.Machine.Wrote.{Mapped}
use hlfs.AepStudy.Pmem.{cpy}
use hlfs.AepStudy.Persist.{PersistingCopy}
use hlfs.AepJust.Read.{Same, Same-mapped}
use hlfs.Driver.{Globals, aep_half, aep_size, max_thread_num}
use hlfs.Driver.Layout.{IsLaidOut}
use hlfs.Driver.Task.{max_idx_size, tail_read_size, new_task, thread_buf, rounds, thread_job}
use hlfs.Driver.Task.Slots.{buffers_up_to}
use hlfs.Driver.Task.Prepare.{IsPreparable, prepare_job-Same}
use hlfs.Driver.Run.Copies.{copy_tasks, copy_writer, tasks_iters}
use hlfs.Driver.Run.Thread.{IsDone, rounds-IsDone}

-- `c` is set.
store_c :
    {s s₁ : State} (c : ℕ)
    → Same s s₁
    → Mapped s c 1
    → store c 1 (λ j. 1) s₁ ≡ some (put cached c 1 (λ j. 1) s₁)
unfolding store
store_c c same m = rw (Same-mapped c 1 same m (omega arith)) refl

put_elsewhere :
    (s : State) (c y : ℕ) → (y < c) ⊎ (c < y) → (put cached c 1 (λ j. 1) s).mem y ≡ s.mem y
put_elsewhere s c y away = ground (arith, away)

put-Same :
    {s s₁ : State} (c y : ℕ)
    → Same s s₁
    → (put cached c 1 (λ j. 1) s₁).mem y ≡ (put cached c 1 (λ j. 1) s).mem y
put-Same c y same = ground (arith, same.mem y)

-- The 2 MB that PrepareJob reads from a buffer on lie in the first half, even where the buffer is less.
tail_room : (b n t : ℕ) → t < n → n ≤ 32 → b * n ≤ aep_half → t * b + tail_read_size ≤ aep_half
tail_room b n t lt few le = elim (Bool-cases (ltb b tail_read_size)) [
  | inl e ↦
      let small : b ≤ 2097152 = ground arith in
      let few' : t ≤ 31 = omega arith in
      let product : t * b ≤ 31 * 2097152 = grind arith in omega arith
  | inr e ↦ omega (arith, buffers_up_to b t lt le, (let z : 2097152 ≤ b = ground arith in z))
]

module _ {g : Globals} (s : State) (rand : ℕ → ℕ → ℕ) (idx_at mem_cpy_buf : ℕ → ℕ)
    (op : PersistingCopy) (c : ℕ → ℕ) (laid_out : IsLaidOut g) (copies : g.rw_type ≡ cpy)
    (on_map : Mapped s g.aep_buf aep_size) (low : g.aep_buf + aep_size ≤ 2 ^ 64) where
  copy_task-IsPreparable :
      (t : ℕ)
      → t < g.thread_num
      → g.thread_num ≤ max_thread_num
      → Mapped s (mem_cpy_buf t) g.access_size
      → Mapped s (idx_at t) (4 * max_idx_size + 8)
      → IsPreparable s (copy_tasks g rand idx_at mem_cpy_buf op t)
  unfolding copy_tasks new_task thread_buf
  copy_task-IsPreparable t lt few dram table =
      let tail = tail_room g.buffer_size g.thread_num t lt few laid_out.buffers in
      let room = buffers_up_to g.buffer_size t lt laid_out.buffers in
      let near : t * g.buffer_size % 2 ^ 64 ≡ t * g.buffer_size = omega (arith, room) in
      record {
        near = λ x p q. on_map x (omega (arith, p, near)) (omega (arith, q, near));
        far = λ x p q. on_map x (omega (arith, p, near)) (omega (arith, q, near));
        buffer = λ x p q. on_map x (omega (arith, p, near)) (omega (arith, q, near));
        dram = dram;
        table = table;
      }

  -- The rounds behind a preparation that has left `s₁`.
  copy_rounds :
      (clock : ℕ → ℕ × ℕ) (t : ℕ) (s₁ : State)
      → t < g.thread_num
      → (c t < g.aep_buf) ⊎ (g.aep_buf + aep_size ≤ c t)
      → g.iters < 2 ^ 31
      → Same s s₁
      → Returns
          (IsDone g
            (copy_tasks g rand idx_at mem_cpy_buf op t)
            clock
            (put cached (c t) 1 (λ j. 1) s)
            (λ x. s.mem (x + aep_half)))
          (rounds g.buf_slots_mask
            (copy_tasks g rand idx_at mem_cpy_buf op t)
            clock
            (c t)
            (copy_tasks g rand idx_at mem_cpy_buf op t).iters
            0
            (put cached (c t) 1 (λ j. 1) s₁))
  copy_rounds clock t s₁ lt apart few same =
      let s₂ : State = put cached (c t) 1 (λ j. 1) s₁ in
      let writer =
        copy_writer {g = g} {s₀ = s₂} laid_out copies
          (λ x p q. same.present (x / 4096) ∙ on_map x p q) low rand idx_at mem_cpy_buf op c in
      mono
        (rounds-IsDone g (copy_tasks g rand idx_at mem_cpy_buf op) c s₂ (λ x. s₂.mem (x + aep_half))
          writer clock t lt (omega (arith, few, tasks_iters g rand idx_at mem_cpy_buf op t)))
        λ r d. record {
          count = d.count;
          times = d.times;
          written = λ i x less first last.
              let b = writer.in_buffer t i lt in
              let w = d.written i x less first last in
              let away : (x + aep_half < c t) ⊎ (c t < x + aep_half) =
                omega (arith, b.first, b.half, first, last) in
              (w.0 ∙ put_elsewhere s₁ (c t) (x + aep_half) away ∙ same.mem (x + aep_half), w.1);
          far = λ x o. d.far x o ∙ put-Same (c t) x same;
        }

  -- In a laid-out configuration of at most 32 threads with fewer than `2 ^ 31` rounds each, for
  -- copying operations that end in a fence, with the whole map below `2 ^ 64` and on present
  -- pages, and as well the buffer of the thread, its table with the word behind it, and the byte
  -- `c`, which lies off the map: ThreadJob of one thread that runs alone returns, with the time of
  -- each of its rounds: what the clock moved by, cut to 32 bits. Every slot of every round holds
  -- what lay `aep_half` above it and has reached the medium; outside the first half of the map
  -- nothing but `c` has changed.
  pub copy_thread_job-IsDone :
      (clock : ℕ → ℕ × ℕ) (t : ℕ)
      → t < g.thread_num
      → g.thread_num ≤ max_thread_num
      → Mapped s (mem_cpy_buf t) g.access_size
      → Mapped s (idx_at t) (4 * max_idx_size + 8)
      → Mapped s (c t) 1
      → (c t < g.aep_buf) ⊎ (g.aep_buf + aep_size ≤ c t)
      → g.iters < 2 ^ 31
      → Returns
          (IsDone g
            (copy_tasks g rand idx_at mem_cpy_buf op t)
            clock
            (put cached (c t) 1 (λ j. 1) s)
            (λ x. s.mem (x + aep_half)))
          (thread_job g.buf_slots_mask (copy_tasks g rand idx_at mem_cpy_buf op t) clock (c t) s)
  unfolding thread_job
  copy_thread_job-IsDone clock t lt few dram table stack apart small =
      bind
        (prepare_job-Same (copy_tasks g rand idx_at mem_cpy_buf op t) s
          (copy_task-IsPreparable t lt few dram table))
        λ s₁ same. rw (store_c (c t) same stack) (copy_rounds clock t s₁ lt apart small same)
