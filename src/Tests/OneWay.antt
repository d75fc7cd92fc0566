-- ===== src/Tests/OneWay.antt =====
-- Buffers that are only read or only written.
use hlfs.Common.{refl, arith, Returns}
use hlfs.AepJust.Store.{Held, Stored}
use hlfs.AepJust.Family.{ntstore, store_routine, store_routine-Stored}
use hlfs.AepStudy.Persist.{Done}
use hlfs.AepStudy.OneWay.{flush_by_all, write_fn, write_fn-Persisted}
use hlfs.Tests.Copies.{demo}

write_fn-Persisted_example :
    Returns (Done (Held demo) demo 4133 700 10 35) (write_fn flush_by_all 10 35 4133 8197 700 demo)
write_fn-Persisted_example =
    write_fn-Persisted flush_by_all 10 35 4133 8197 700 (λ x a b. refl) (omega arith)

store_routine-Stored_example :
    Returns (Stored demo 4133 0 0 700) (store_routine ntstore 4133 700 demo)
store_routine-Stored_example = store_routine-Stored ntstore λ x a b. refl
