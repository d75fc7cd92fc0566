-- ===== src/Tests/Driver.antt =====
-- A run of two threads that copy slots of 64 bytes in buffers of 1024.
use hlfs.Common.{
  inl, none, ℕ, ◌+◌, ◌^◌, ◌≡◌, ◌==◌, ◌||◌, refl, arith, true, none, some, [], ◌∷◌, Returns,
}
use hlfs.Machine.{cached, put}
use hlfs.AepStudy.Pmem.{cpy, memset}
use hlfs.AepStudy.Persist.{cpy_load_ntstore}
use hlfs.Bits.{bit_fls, bsr, highest}
use hlfs.Driver.{
  Globals, seq, aep_half, check_global_cfg, collect_core_ids, validate_core_ids, core_num,
  on_socket,
}
use hlfs.Driver.Layout.{IsLaidOut}
use hlfs.Driver.Task.{Task, thread_job}
use hlfs.Driver.Run.{System, Step, here, later, launched}
use hlfs.Driver.Run.Inv.{Inv, Inv-launched}
use hlfs.Driver.Run.Finish.{next_step}
use hlfs.Driver.Run.Copies.{copy_tasks, tasks_iters, copy_writer, copy_run-Inv}
use hlfs.Driver.Run.Fills.{by_cacheline, AreOnes, fill_tasks, fill_tasks_iters, fill_writer}
use hlfs.Driver.Run.Thread.{IsDone}
use hlfs.Driver.Run.CopyJob.{copy_thread_job-IsDone}
use hlfs.Tests.Copies.{demo}

-- What the flags set.
abbrev pub flags_set : Globals
flags_set = record {
  thread_num = 2;
  buffer_size = 1024;
  rw_type = cpy;
  access_mode = seq;
  access_size = 64;
  access_size_bits = 0;
  iters = 3;
  socket = 0;
  core_ids = 4 ∷ 5 ∷ [];
  buf_slots = 0;
  buf_slots_mask = 0;
  aep_buf = 2 ^ 30;
  aep_buf_size = 2 ^ 36;
}

abbrev pub configured : Globals
configured = record flags_set { access_size_bits = 6; buf_slots = 16; buf_slots_mask = 15 }

-- Two buffers of 2 ^ 63 bytes are accepted: their product is 0 in 64 bits.
accepts_wrapped :
    check_global_cfg 1 (λ id. 0) (record configured { buffer_size = 2 ^ 63; buf_slots = 2 ^ 57 })
    ≡ some (record configured { buffer_size = 2 ^ 63; buf_slots = 2 ^ 57 })
unfolding check_global_cfg bit_fls bsr core_num on_socket
accepts_wrapped = refl

two_cores : validate_core_ids 80 (some (λ i. i == 4 || i == 5)) ≡ some (true, 4 ∷ 5 ∷ [])
unfolding validate_core_ids collect_core_ids core_num
two_cores = refl

-- The id of a 33rd core is written behind the array.
too_many_cores : validate_core_ids 80 (some (λ i. true)) ≡ none
unfolding validate_core_ids collect_core_ids core_num
too_many_cores = refl

pub laid_out : IsLaidOut configured
unfolding highest
laid_out = record {
  whole = omega arith;
  buffers = omega arith;
  shift = refl;
  slots = omega arith;
  some_bytes = omega arith;
}

abbrev tasks : ℕ → Task
tasks = copy_tasks configured (λ t k. 7) (λ t. 64) (λ t. 0) cpy_load_ntstore

-- One round of the thread 1, between the clock's 10 and 35.
abbrev first_step : (w : System) × Step 15 2 tasks (λ t. 100) (launched demo) w
first_step =
    next_step configured tasks (λ t. 100) demo (λ x. demo.mem (x + aep_half))
      (copy_writer laid_out refl (λ x a b. refl) (omega arith) (λ t k. 7) (λ t. 64) (λ t. 0)
        cpy_load_ntstore (λ t. 100))
      3 (tasks_iters configured (λ t k. 7) (λ t. 64) (λ t. 0) cpy_load_ntstore) (omega arith)
      (launched demo) 1 10 35 (Inv-launched configured tasks demo (λ x. demo.mem (x + aep_half)))
      (omega arith) (omega arith)

copy_run-Inv_example : Inv configured tasks demo (λ x. demo.mem (x + aep_half)) first_step.0
copy_run-Inv_example =
    copy_run-Inv laid_out refl (λ x a b. refl) (omega arith) (λ t k. 7) (λ t. 64) (λ t. 0)
      cpy_load_ntstore (λ t. 100) (later here first_step.1)

abbrev clock : ℕ → ℕ × ℕ
clock i = (10, 35)

copy_thread_job-IsDone_example :
    Returns
      (IsDone configured
        (tasks 1)
        clock
        (put cached 100 1 (λ j. 1) demo)
        (λ x. demo.mem (x + aep_half)))
      (thread_job 15 (tasks 1) clock 100 demo)
copy_thread_job-IsDone_example =
    copy_thread_job-IsDone demo (λ t k. 7) (λ t. 64) (λ t. 0) cpy_load_ntstore (λ t. 100) laid_out
      refl (λ x a b. refl) (omega arith) clock 1 (omega arith) (omega arith) (λ x a b. refl)
      (λ x a b. refl) (λ x a b. refl) (inl (omega arith)) (omega arith)

-- The same run as a fill; the bytes at 257 are 1.
abbrev pub filling : Globals
filling = record configured { rw_type = memset }

pub filling-IsLaidOut : IsLaidOut filling
unfolding highest
filling-IsLaidOut = record {
  whole = omega arith;
  buffers = omega arith;
  shift = refl;
  slots = omega arith;
  some_bytes = omega arith;
}

abbrev pub ones : AreOnes filling demo (λ t. 257)
ones = record { one = λ t lt. refl; mapped = λ t lt x a b. refl; off = λ t lt. inl (omega arith) }

abbrev fills : ℕ → Task
fills = fill_tasks filling (λ t k. 7) (λ t. 64) (λ t. 0) by_cacheline

abbrev first_fill : (w : System) × Step 15 2 fills (λ t. 257) (launched demo) w
first_fill =
    next_step filling fills (λ t. 257) demo (λ x. 1)
      (fill_writer filling-IsLaidOut refl (λ x a b. refl) (omega arith) (λ t. 257) ones (λ t k. 7)
        (λ t. 64) (λ t. 0) by_cacheline)
      3 (fill_tasks_iters filling (λ t k. 7) (λ t. 64) (λ t. 0) by_cacheline) (omega arith)
      (launched demo) 1 10 35 (Inv-launched filling fills demo (λ x. 1)) (omega arith) (omega arith)
