-- ===== src/Tests/Operations.antt =====
-- The operations of bgtest/AEP/aep_study.h on the memory of the copies.
use hlfs.Common.{refl, inr, arith, Returns}
use hlfs.Instr.Copies.{CopyByte}
use hlfs.AepStudy.{aep_native_store_dram}
use hlfs.AepStudy.Persist.{cpy_load_ntstore, Done, copy_fn, copy_fn-Persisted}
use hlfs.AepStudy.Strided.{Strided, aep_native_store_dram-Strided}
use hlfs.Tests.Copies.{demo, demo_IsVectorCopy}

copy_fn-Persisted_example :
    Returns
      (Done (CopyByte demo 4133 8197) demo 4133 700 10 35)
      (copy_fn cpy_load_ntstore 10 35 4133 8197 700 demo)
copy_fn-Persisted_example =
    copy_fn-Persisted 10 35 demo_IsVectorCopy (λ x a b. refl) (omega arith) cpy_load_ntstore

-- A length of 64 bytes: the first 8 of each 64 in 512 are copied.
aep_native_store_dram-Strided_example :
    Returns (λ r. Strided demo 4133 8197 8 r.1) (aep_native_store_dram 10 35 4133 8197 64 demo)
aep_native_store_dram-Strided_example =
    aep_native_store_dram-Strided 10 35 (omega arith)
      (record { apart = inr (omega arith); from = λ x a b. refl; to = λ x a b. refl }) (omega arith)
      (omega arith)
