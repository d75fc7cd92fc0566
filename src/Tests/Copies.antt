-- ===== src/Tests/Copies.antt =====
-- Copies, fills and write-backs on a memory whose byte at `a` is `a % 256`.
use hlfs.Common.{◌%◌, refl, inr, true, arith, Returns}
use hlfs.Machine.{State, durable}
use hlfs.Machine.Wrote.{Wrote-start}
use hlfs.Instr.Copies.{IsVectorCopy, Copied}
use hlfs.Aep.Native.{clwb_extent}
use hlfs.Aep.Native.Extent.{clwb_extent-Wrote}
use hlfs.Aep.Family.{load_store_flush, copy_routine, copy_routine-Copied}
use hlfs.AepTest.{run_all_tests}
use hlfs.AepTest.Passes.{IsTestBench}
use hlfs.AepTest.Whole.{AllPassed, run_all_tests-AllPassed}

abbrev pub demo : State
demo = record { mem = λ a. a % 256; status = λ a. durable; reg = λ q j. 0; present = λ p. true }

-- 700 bytes from an odd address to one that lies alike modulo 32
abbrev pub demo_IsVectorCopy : IsVectorCopy demo 4133 8197 700
demo_IsVectorCopy = record {
  copy = record { apart = inr (omega arith); from = λ x a b. refl; to = λ x a b. refl };
  alike = refl;
}

clwb_extent-Wrote_example : Returns (Copied demo 4133 8197 0 0 0) (clwb_extent 4133 700 demo)
clwb_extent-Wrote_example =
    clwb_extent-Wrote 4133 700 (λ x a b. refl) refl (omega arith) (Wrote-start 4133 4833)

copy_routine-Copied_example :
    Returns (Copied demo 4133 8197 0 0 700) (copy_routine load_store_flush 4133 8197 700 demo)
copy_routine-Copied_example = copy_routine-Copied load_store_flush demo_IsVectorCopy λ x a b. refl

-- The arrays of the tests at two addresses
demo-IsTestBench : IsTestBench demo 4096 8192
demo-IsTestBench = record {
  apart = inr (omega arith);
  alike = refl;
  dest_mapped = λ x a b. refl;
  src_mapped = λ x a b. refl;
}

run_all_tests-AllPassed_example : Returns (AllPassed demo 4096 8192) (run_all_tests 4096 8192 demo)
run_all_tests-AllPassed_example = run_all_tests-AllPassed demo-IsTestBench
