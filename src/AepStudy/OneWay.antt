-- ===== src/AepStudy/OneWay.antt =====
-- What the operations of bgtest/AEP/aep_study.h over util/aep_just.h leave in memory.
use hlfs.Common.{ℕ, ◌+◌, ◌^◌, ◌-◌, ◌%◌, ◌≤◌, ◌≡◌, refl, arith, Returns, bind, mono}
use hlfs.Machine.{State}
use hlfs.Machine.Wrote.{Mapped}
use hlfs.AepJust.Read.{Same}
use hlfs.AepJust.Load.{just_load-Same, just_ntload-Same}
use hlfs.AepJust.Store.{Held}
use hlfs.AepJust.Whole.{just_store_noflush-Stored, just_store_flush-Stored, just_ntstore-Stored}
use hlfs.AepStudy.{
  AepOpFn, aep_just_load, aep_just_ntload, aep_just_store_flush_by_all,
  aep_just_store_flush_by_cacheline, aep_just_ntstore,
}
use hlfs.AepStudy.Persist.{Done, fenced-Done, flushed-Done}

-- The operations that only read.
pub data JustRead : Type 0 where
  by_load by_ntload : JustRead

unfoldable pub read_fn : JustRead → AepOpFn
read_fn by_load = aep_just_load
read_fn by_ntload = aep_just_ntload

-- The operations that only write.
pub data JustWrite : Type 0 where
  flush_by_all flush_by_cacheline by_ntstore : JustWrite

unfoldable pub write_fn : JustWrite → AepOpFn
write_fn flush_by_all = aep_just_store_flush_by_all
write_fn flush_by_cacheline = aep_just_store_flush_by_cacheline
write_fn by_ntstore = aep_just_ntstore

-- aep_just_load and aep_just_ntload, on a source whose pages are present, return the time between
-- their two readings, and leave memory, the cache and the pages as they were.
pub read_fn-Same :
    (r : JustRead) {s : State} (start end dest src len : ℕ)
    → Mapped s src len
    → Returns
        (λ q. (q.0 ≡ (end + 2 ^ 64 - start) % 2 ^ 64) × Same s q.1)
        (read_fn r start end dest src len s)
unfolding read_fn aep_just_load aep_just_ntload
read_fn-Same by_load start end dest src len from =
    bind (just_load-Same src len from) λ t p. (_, refl, (refl, p))
read_fn-Same by_ntload start end dest src len from =
    bind (just_ntload-Same src len from) λ t p. (_, refl, (refl, p))

-- The three writing operations over aep_just.h, with the buffer and the byte behind it on present
-- pages and 64 bytes of addresses behind it, return the time between their two readings; every
-- byte of the buffer is then ~0 or one that a register held at first and has reached the medium,
-- and no other byte has changed; nothing that was durable has ceased to be, and no page has
-- changed.
pub write_fn-Persisted :
    (w : JustWrite) {s : State} (start end dest src len : ℕ)
    → Mapped s dest (len + 1)
    → dest + len + 64 ≤ 2 ^ 64
    → Returns (Done (Held s) s dest len start end) (write_fn w start end dest src len s)
unfolding write_fn aep_just_store_flush_by_all aep_just_store_flush_by_cacheline aep_just_ntstore
write_fn-Persisted flush_by_all {s} start end dest src len ends fits =
    flushed-Done start end (λ x a b. ends x a (omega arith))
      (ends (dest + 0) (omega arith) (omega arith)) fits
      (mono (just_store_noflush-Stored s dest len (λ x a b. ends x a (omega arith))) λ t p. p.0)
write_fn-Persisted flush_by_cacheline {s} start end dest src len ends fits = fenced-Done start end (
    mono
      (just_store_flush-Stored s dest len (λ x a b. ends x a (omega arith))
        (ends (dest + 0) (omega arith) (omega arith)))
      λ t p. p.0)
write_fn-Persisted by_ntstore {s} start end dest src len ends fits =
    fenced-Done start end
      (mono (just_ntstore-Stored s dest len (λ x a b. ends x a (omega arith)) ends) λ t p. p.0)
