-- ===== src/Aep/Family.antt =====
-- The copy routines of util/aep.h side by side.
use hlfs.Common.{ℕ, ◌+◌, Bool, true, false, if◌then◌else◌, arith, Returns}
use hlfs.Machine.{State}
use hlfs.Machine.Wrote.{Mapped}
use hlfs.Instr.Copies.{IsVectorCopy, Copied}
use hlfs.Aep.{
  Routine, cpy_load_store_noflush, cpy_load_store_flush, cpy_ntload_store_noflush,
  cpy_ntload_store_flush, cpy_load_ntstore, cpy_ntload_ntstore,
}
use hlfs.Aep.Native.{cpy_native_noflush, cpy_native_flush}
use hlfs.Aep.Copies.{
  cpy_load_store_noflush-Copied, cpy_load_store_flush-Copied, cpy_ntload_store_noflush-Copied,
  cpy_ntload_store_flush-Copied, cpy_load_ntstore-Copied, cpy_ntload_ntstore-Copied,
}
use hlfs.Aep.Native.Total.{cpy_native_noflush-Copied, cpy_native_flush-Copied}

pub data CopyRoutine : Type 0 where
  native_noflush native_flush load_store_noflush load_store_flush : CopyRoutine
  load_ntstore ntload_store_noflush ntload_store_flush ntload_ntstore : CopyRoutine

unfoldable pub copy_routine : CopyRoutine → Routine
copy_routine native_noflush = cpy_native_noflush
copy_routine native_flush = cpy_native_flush
copy_routine load_store_noflush = cpy_load_store_noflush
copy_routine load_store_flush = cpy_load_store_flush
copy_routine load_ntstore = cpy_load_ntstore
copy_routine ntload_store_noflush = cpy_ntload_store_noflush
copy_routine ntload_store_flush = cpy_ntload_store_flush
copy_routine ntload_ntstore = cpy_ntload_ntstore

-- Whether a routine lets nothing that it wrote stay in the cache alone.
abbrev pub writes_back : CopyRoutine → Bool
writes_back native_noflush = false
writes_back native_flush = true
writes_back load_store_noflush = false
writes_back load_store_flush = true
writes_back load_ntstore = true
writes_back ntload_store_noflush = false
writes_back ntload_store_flush = true
writes_back ntload_ntstore = true

-- Each of the eight copy routines of aep.h, between disjoint buffers that lie alike modulo 32,
-- with both buffers and the byte behind the destination on present pages, returns; all bytes are
-- copied and no other byte is changed. Of what it wrote, the routines that flush and those that
-- store past the cache leave nothing in the cache without its write-back begun; the three others
-- leave only bytes of the destination there.
pub copy_routine-Copied :
    (r : CopyRoutine) {s : State} {dest src len : ℕ}
    → IsVectorCopy s dest src len
    → Mapped s dest (len + 1)
    → Returns
        (Copied s dest src
          (if writes_back r then 0 else dest)
          (if writes_back r then 0 else dest + len)
          len)
        (copy_routine r dest src len s)
unfolding copy_routine
copy_routine-Copied native_noflush job ends = cpy_native_noflush-Copied job.copy
copy_routine-Copied native_flush {dest = dest} job ends =
    cpy_native_flush-Copied job.copy (ends (dest + 0) (omega arith) (omega arith))
copy_routine-Copied load_store_noflush job ends = cpy_load_store_noflush-Copied job
copy_routine-Copied load_store_flush {dest = dest} job ends =
    cpy_load_store_flush-Copied job (ends (dest + 0) (omega arith) (omega arith))
copy_routine-Copied load_ntstore job ends = cpy_load_ntstore-Copied job ends
copy_routine-Copied ntload_store_noflush job ends = cpy_ntload_store_noflush-Copied job
copy_routine-Copied ntload_store_flush {dest = dest} job ends =
    cpy_ntload_store_flush-Copied job (ends (dest + 0) (omega arith) (omega arith))
copy_routine-Copied ntload_ntstore job ends = cpy_ntload_ntstore-Copied job ends
