-- ===== src/AepJust/Family.antt =====
-- The routines of util/aep_just.h that write, side by side.
use hlfs.Common.{ℕ, ◌+◌, Option, Bool, true, false, if◌then◌else◌, arith, Returns}
use hlfs.Machine.{State}
use hlfs.Machine.Wrote.{Mapped}
use hlfs.AepJust.{just_store_noflush, just_store_flush, just_ntstore}
use hlfs.AepJust.Store.{Stored}
use hlfs.AepJust.Whole.{just_store_noflush-Stored, just_store_flush-Stored, just_ntstore-Stored}

pub data StoreRoutine : Type 0 where
  store_noflush store_flush ntstore : StoreRoutine

unfoldable pub store_routine : StoreRoutine → (dest len : ℕ) → State → Option State
store_routine store_noflush = just_store_noflush
store_routine store_flush = just_store_flush
store_routine ntstore = just_ntstore

abbrev pub stays_cached : StoreRoutine → Bool
stays_cached store_noflush = true
stays_cached store_flush = false
stays_cached ntstore = false

-- Each of the three routines of aep_just.h that write, on a buffer that with the byte behind it is
-- on present pages, wherever it lies, returns; each byte of the buffer is then ~0 or one that a
-- register held at first, no other byte is changed, and the registers are as they were. Of what
-- they wrote, just_store_flush and just_ntstore leave nothing in the cache without its write-back
-- begun; just_store_noflush leaves only bytes of the buffer there.
pub store_routine-Stored :
    (r : StoreRoutine) {s : State} {dest len : ℕ}
    → Mapped s dest (len + 1)
    → Returns
        (Stored s dest
          (if stays_cached r then dest else 0)
          (if stays_cached r then dest + len else 0)
          len)
        (store_routine r dest len s)
unfolding store_routine
store_routine-Stored store_noflush {s} {dest} {len} ends =
    just_store_noflush-Stored s dest len (λ x a b. ends x a (omega arith))
store_routine-Stored store_flush {s} {dest} {len} ends =
    just_store_flush-Stored s dest len (λ x a b. ends x a (omega arith))
      (ends (dest + 0) (omega arith) (omega arith))
store_routine-Stored ntstore {s} {dest} {len} ends =
    just_ntstore-Stored s dest len (λ x a b. ends x a (omega arith)) ends
