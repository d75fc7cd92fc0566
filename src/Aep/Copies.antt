-- ===== src/Aep/Copies.antt =====
-- The six copy routines of util/aep.h that are built from the blocks of util/instr.h.
use hlfs.Common.{ℕ, ◌+◌, ◌≡◌, refl, arith, some, Returns}
use hlfs.Machine.{State}
use hlfs.Machine.Wrote.{Mapped, Wrote-start}
use hlfs.Instr.Copies.{IsVectorCopy, Copied}
use hlfs.Walk.Routines.{walk-total, walk_flush-total, walk_nt-total}
use hlfs.Walk.Window.{Touches, Wrote-Windowed, begun}
use hlfs.Aep.Small.{cpy_less_16b-Copied}
use hlfs.Aep.LoadStore
use hlfs.Aep.NtloadStore
use hlfs.Aep.LoadNtstore
use hlfs.Aep.NtloadNtstore
use hlfs.Aep.{
  cpy_less_16b_noflush, load_store_noflush, load_store_flush, ntload_store_noflush,
  ntload_store_flush, load_ntstore, ntload_ntstore, cpy_load_store_noflush, cpy_load_store_flush,
  cpy_ntload_store_noflush, cpy_ntload_store_flush, cpy_load_ntstore, cpy_ntload_ntstore,
}

idle : (dest src off : ℕ) (t : State) → cpy_less_16b_noflush (dest + off) (src + off) 0 t ≡ some t
unfolding cpy_less_16b_noflush
idle dest src off t = refl

module _ {s : State} {dest src len : ℕ} (job : IsVectorCopy s dest src len) where
  -- cpy_load_store_noflush, between disjoint buffers on present pages that lie alike modulo 32,
  -- returns; all bytes are copied, no other byte is changed, and what it leaves in the cache lies
  -- in the destination.
  pub cpy_load_store_noflush-Copied :
      Returns (Copied s dest src dest (dest + len) len) (cpy_load_store_noflush dest src len s)
  unfolding cpy_load_store_noflush
  cpy_load_store_noflush-Copied =
      walk-total dest len (load_store_noflush dest src) s (Copied s dest src dest (dest + len))
        (λ t.
          LoadStore.near_noflush job t dest (dest + len)
            (λ al off n near. (omega arith, omega (arith, near.room))))
        (LoadStore.whole_noflush job) (Wrote-start _ _)

  -- cpy_load_store_flush, between disjoint buffers on present pages that lie alike modulo 32, and
  -- with the page of the first destination byte present, returns; all bytes are copied, no other
  -- byte is changed, and none of what it wrote is left in the cache without its write-back begun.
  pub cpy_load_store_flush-Copied :
      Touches s dest 0 → Returns (Copied s dest src 0 0 len) (cpy_load_store_flush dest src len s)
  unfolding cpy_load_store_flush
  cpy_load_store_flush-Copied here =
      walk_flush-total (load_store_flush dest src) (idle dest src) (LoadStore.whole_flush job) s
        (λ t.
          LoadStore.near_flush job t _ _
            (λ al off n near. (omega (arith, near.after), near.in_line)))
        (Wrote-Windowed _ (begun s job.to here)) (Wrote-start 0 0)

  -- cpy_ntload_store_noflush, between disjoint buffers on present pages that lie alike modulo 32,
  -- returns; all bytes are copied, no other byte is changed, and what it leaves in the cache lies
  -- in the destination.
  pub cpy_ntload_store_noflush-Copied :
      Returns (Copied s dest src dest (dest + len) len) (cpy_ntload_store_noflush dest src len s)
  unfolding cpy_ntload_store_noflush
  cpy_ntload_store_noflush-Copied =
      walk-total dest len (ntload_store_noflush dest src) s (Copied s dest src dest (dest + len))
        (λ t.
          NtloadStore.near_noflush job t dest (dest + len)
            (λ al off n near. (omega arith, omega (arith, near.room))))
        (NtloadStore.whole_noflush job) (Wrote-start _ _)

  -- cpy_ntload_store_flush, between disjoint buffers on present pages that lie alike modulo 32,
  -- and with the page of the first destination byte present, returns; all bytes are copied, no
  -- other byte is changed, and none of what it wrote is left in the cache without its write-back
  -- begun.
  pub cpy_ntload_store_flush-Copied :
      Touches s dest 0 → Returns (Copied s dest src 0 0 len) (cpy_ntload_store_flush dest src len s)
  unfolding cpy_ntload_store_flush
  cpy_ntload_store_flush-Copied here =
      walk_flush-total (ntload_store_flush dest src) (idle dest src) (NtloadStore.whole_flush job) s
        (λ t.
          NtloadStore.near_flush job t _ _
            (λ al off n near. (omega (arith, near.after), near.in_line)))
        (Wrote-Windowed _ (begun s job.to here)) (Wrote-start 0 0)

  -- cpy_load_ntstore, between disjoint buffers on present pages that lie alike modulo 32, with the
  -- byte behind the destination on a present page, returns; all bytes are copied, no other byte is
  -- changed, and none of what it wrote is left in the cache alone.
  pub cpy_load_ntstore-Copied :
      Mapped s dest (len + 1)
      → Returns (Copied s dest src 0 0 len) (cpy_load_ntstore dest src len s)
  unfolding cpy_load_ntstore
  cpy_load_ntstore-Copied ends =
      walk_nt-total (load_ntstore dest src) (idle dest src) (LoadNtstore.whole_nt job) s
        (λ t n lt off u near w.
          cpy_less_16b-Copied job.copy w n lt near.room (omega (arith, near.after)) near.in_line)
        (LoadNtstore.k16 job) (LoadNtstore.k32 job)
        (Wrote-Windowed _ (λ d le. ends (dest + d) (omega arith) (omega arith))) (Wrote-start 0 0)

  -- cpy_ntload_ntstore, between disjoint buffers on present pages that lie alike modulo 32, with
  -- the byte behind the destination on a present page, returns; all bytes are copied, no other
  -- byte is changed, and none of what it wrote is left in the cache alone.
  pub cpy_ntload_ntstore-Copied :
      Mapped s dest (len + 1)
      → Returns (Copied s dest src 0 0 len) (cpy_ntload_ntstore dest src len s)
  unfolding cpy_ntload_ntstore
  cpy_ntload_ntstore-Copied ends =
      walk_nt-total (ntload_ntstore dest src) (idle dest src) (NtloadNtstore.whole_nt job) s
        (λ t n lt off u near w.
          cpy_less_16b-Copied job.copy w n lt near.room (omega (arith, near.after)) near.in_line)
        (NtloadNtstore.k16 job) (NtloadNtstore.k32 job)
        (Wrote-Windowed _ (λ d le. ends (dest + d) (omega arith) (omega arith))) (Wrote-start 0 0)
