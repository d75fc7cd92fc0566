-- ===== src/Aep/Native/Total.antt =====
-- The routines of the section native, from end to end.
use hlfs.Common.{ℕ, ◌+◌, arith, Returns}
use hlfs.Machine.{State}
use hlfs.Machine.Wrote.{Mapped, Wrote, Wrote-start}
use hlfs.Instr.Copies.{IsCopy, Copied}
use hlfs.Walk.Window.{Touches, Wrote-Windowed, begun}
use hlfs.Aep.Native.{
  memset_native_noflush, memset_native_flush, cpy_native_noflush, cpy_native_flush,
}
use hlfs.Aep.Native.Bytes.{FillByte, memcpy_from, memset_from, memcpy-Copied, memset-Wrote}
use hlfs.Aep.Native.Lines.{flush_by_line-total}

module _ {s : State} {dest src len : ℕ} (job : IsCopy s dest src len) where
  -- cpy_native_noflush copies all `len` bytes and changes no other byte; what it leaves in the
  -- cache lies in the destination.
  pub cpy_native_noflush-Copied :
      Returns (Copied s dest src dest (dest + len) len) (cpy_native_noflush dest src len s)
  unfolding cpy_native_noflush
  cpy_native_noflush-Copied =
      memcpy_from dest (dest + len) job len 0 dest src len (omega arith) (omega arith) (omega arith)
        (Wrote-start _ _) (omega arith) (omega arith) (omega arith)

  -- cpy_native_flush, between disjoint buffers on present pages, wherever they lie, and with the
  -- page of the first destination byte present, returns; all bytes are copied line by line, no
  -- other byte is changed, and none of what it wrote is left in the cache without its write-back
  -- begun.
  pub cpy_native_flush-Copied :
      Touches s dest 0 → Returns (Copied s dest src 0 0 len) (cpy_native_flush dest src len s)
  unfolding cpy_native_flush
  cpy_native_flush-Copied here =
      flush_by_line-total (Wrote-Windowed _ (begun s job.to here))
        (λ n off t room fits w. memcpy-Copied _ _ job n off w room (omega arith) fits) s
        (Wrote-start 0 0)

module _ {s : State} {dest len : ℕ} (c : ℕ) (to : Mapped s dest len) where
  -- memset_native_noflush fills all `len` bytes with the low byte of `c` and changes no other.
  pub memset_native_noflush-Wrote :
      Returns (Wrote (FillByte c) s dest dest (dest + len) len) (memset_native_noflush dest c len s)
  unfolding memset_native_noflush
  memset_native_noflush-Wrote =
      memset_from dest (dest + len) c to len 0 dest len (omega arith) (omega arith)
        (Wrote-start _ _) (omega arith) (omega arith) (omega arith)

  -- memset_native_flush, on a buffer on present pages, with the page of its first byte present,
  -- returns; every byte of it is the low byte of the argument, no other byte is changed, and none
  -- of what it wrote is left in the cache without its write-back begun.
  pub memset_native_flush-Wrote :
      Touches s dest 0
      → Returns (Wrote (FillByte c) s dest 0 0 len) (memset_native_flush dest c len s)
  unfolding memset_native_flush
  memset_native_flush-Wrote here =
      flush_by_line-total (Wrote-Windowed _ (begun s to here))
        (λ n off t room fits w. memset-Wrote _ _ c to n off w room (omega arith) fits) s
        (Wrote-start 0 0)
