-- ===== src/AepJust/Whole.antt =====
-- The routines of util/aep_just.h that write a buffer, from end to end.
use hlfs.Common.{ℕ, ◌+◌, ◌%◌, ◌≤◌, ◌≡◌, refl, some, arith, Returns, bind}
use hlfs.Machine.{State, line, clwb}
use hlfs.Machine.Wrote.{Mapped, Wrote, Wrote-start}
use hlfs.Instr.{asm}
use hlfs.Instr.JustStore.{
  just_16b_store_noflush, just_32b_store_noflush, just_2x32b_store_noflush,
  just_4x32b_store_noflush, just_8x32b_store_noflush, just_16x32b_store_noflush,
}
use hlfs.Instr.JustStoreFlush.{
  just_2x32b_store_flush, just_4x32b_store_flush, just_8x32b_store_flush, just_16x32b_store_flush,
}
use hlfs.Instr.JustNtstore.{
  just_16b_ntstore, just_32b_ntstore, just_2x32b_ntstore, just_4x32b_ntstore, just_8x32b_ntstore,
  just_16x32b_ntstore,
}
use hlfs.Walk.Sound.{Near, Steps, NearSteps, WholeSteps}
use hlfs.Walk.Routines.{Windowed, walk-total, walk_flush-total, walk_nt-total}
use hlfs.Walk.Window.{Touches, Wrote-Windowed, begun}
use hlfs.AepJust.Kept.{clwb-Keeps}
use hlfs.AepJust.Store.{
  Held, Stored, with_Kept, just_less_16b_store-Stored, store_block, ntstore_block, flush_block,
  store_16, ntstore_16,
}
use hlfs.AepJust.{
  just_less_16b_store, store_noflush_blocks, store_flush_blocks, ntstore_blocks, just_store_noflush,
  just_store_flush, just_ntstore,
}

Stored-Windowed :
    {s : State} {dest len : ℕ} (Reached : ℕ → Type 0)
    → ((d : ℕ) → Reached d → Touches s dest d)
    → Windowed dest len (Stored s dest) Reached
Stored-Windowed {s} {dest} {len} Reached touches = record {
  widen = λ lo hi off t p. (wrote.widen lo hi off t p.0, p.1);
  flush = λ d off t r p.
      with_Kept s t (clwb (line (dest + d))) (clwb-Keeps (line (dest + d))) p.1
        (wrote.flush d off t r p.0);
}
  where
    wrote : Windowed dest len (Wrote (Held s) s dest) Reached
    wrote = Wrote-Windowed Reached touches

idle : (dest off : ℕ) (t : State) → just_less_16b_store (dest + off) 0 t ≡ some t
unfolding just_less_16b_store
idle dest off t = refl

Stored-start : (s : State) (dest lo hi : ℕ) → Stored s dest lo hi 0 s
Stored-start s dest lo hi = (Wrote-start lo hi, λ q j. refl)

module _ (s : State) (dest len : ℕ) (to : Mapped s dest len) where
  module _ (t lo hi : ℕ)
      (fits : (al off n : ℕ)
        → Near dest len t al off n
        → (lo ≤ dest + off) × (dest + off + n ≤ hi)) where
    near_noflush : NearSteps dest len t (Stored s dest lo hi) (store_noflush_blocks dest)
    unfolding just_16b_store_noflush just_32b_store_noflush asm
    near_noflush = record {
      small = λ n lt off u near p.
          just_less_16b_store-Stored s dest len to n p lt near.room (fits 1 off n near).0
            (fits 1 off n near).1;
      k16 = λ off u near p.
          bind
            (store_16 s dest len to off near.even near.room p (fits 16 off 16 near).0
              (fits 16 off 16 near).1)
            λ v q. (v, refl, q);
      k32 = λ off u near p.
          store_block s dest len to off 1 near.even near.room p (fits 32 off 32 near).0
            (fits 32 off 32 near).1;
    }

    near_flush : NearSteps dest len t (Stored s dest lo hi) (store_flush_blocks dest)
    near_flush = record {
      small = near_noflush.small;
      k16 = near_noflush.k16;
      k32 = near_noflush.k32;
    }

  whole_noflush : WholeSteps dest len (Stored s dest dest (dest + len)) (store_noflush_blocks dest)
  unfolding just_2x32b_store_noflush just_4x32b_store_noflush just_8x32b_store_noflush
      just_16x32b_store_noflush
  whole_noflush = record {
    k2x32 = λ off u w p.
        store_block s dest len to off 2 (omega (arith, w.even)) w.room p (omega arith)
          (omega (arith, w.room));
    k4x32 = λ off u w p.
        store_block s dest len to off 4 (omega (arith, w.even)) w.room p (omega arith)
          (omega (arith, w.room));
    k8x32 = λ off u w p.
        store_block s dest len to off 8 (omega (arith, w.even)) w.room p (omega arith)
          (omega (arith, w.room));
    k16x32 = λ off u w p.
        store_block s dest len to off 16 (omega (arith, w.even)) w.room p (omega arith)
          (omega (arith, w.room));
  }

  whole_flush : WholeSteps dest len (Stored s dest 0 0) (store_flush_blocks dest)
  unfolding just_2x32b_store_flush just_4x32b_store_flush just_8x32b_store_flush
      just_16x32b_store_flush
  whole_flush = record {
    k2x32 =
        λ off u w p. flush_block s dest len to off 2 (omega (arith, w.even)) w.room 1 refl w.even p;
    k4x32 =
        λ off u w p. flush_block s dest len to off 4 (omega (arith, w.even)) w.room 2 refl w.even p;
    k8x32 =
        λ off u w p. flush_block s dest len to off 8 (omega (arith, w.even)) w.room 4 refl w.even p;
    k16x32 = λ off u w p.
        flush_block s dest len to off 16 (omega (arith, w.even)) w.room 8 refl w.even p;
  }

  whole_nt : WholeSteps dest len (Stored s dest 0 0) (ntstore_blocks dest)
  unfolding just_2x32b_ntstore just_4x32b_ntstore just_8x32b_ntstore just_16x32b_ntstore
  whole_nt = record {
    k2x32 = λ off u w p. ntstore_block s dest len to off 2 (omega (arith, w.even)) w.room p;
    k4x32 = λ off u w p. ntstore_block s dest len to off 4 (omega (arith, w.even)) w.room p;
    k8x32 = λ off u w p. ntstore_block s dest len to off 8 (omega (arith, w.even)) w.room p;
    k16x32 = λ off u w p. ntstore_block s dest len to off 16 (omega (arith, w.even)) w.room p;
  }

  -- just_store_noflush, on a buffer on present pages and wherever it lies, returns; each byte of
  -- it is then ~0 or one that a register held at first, no other byte is changed, the registers
  -- are as they were, and what is left in the cache lies in the buffer.
  pub just_store_noflush-Stored :
      Returns (Stored s dest dest (dest + len) len) (just_store_noflush dest len s)
  unfolding just_store_noflush
  just_store_noflush-Stored =
      walk-total dest len (store_noflush_blocks dest) s (Stored s dest dest (dest + len))
        (λ t.
          near_noflush t dest (dest + len)
            (λ al off n near. (omega arith, omega (arith, near.room))))
        whole_noflush (Stored-start s dest _ _)

  -- just_store_flush, on a buffer on present pages, with the page of its first byte present, and
  -- wherever it lies, returns; each byte of it is then ~0 or one that a register held at first, no
  -- other byte is changed, the registers are as they were, and the write-back of every byte that
  -- it wrote has begun.
  pub just_store_flush-Stored :
      Touches s dest 0 → Returns (Stored s dest 0 0 len) (just_store_flush dest len s)
  unfolding just_store_flush
  just_store_flush-Stored first =
      walk_flush-total (store_flush_blocks dest) (idle dest) whole_flush s
        (λ t. near_flush t _ _ (λ al off n near. (omega (arith, near.after), near.in_line)))
        (Stored-Windowed _ (begun s to first)) (Stored-start s dest 0 0)

  nt_16 :
      Steps
        (λ off. (off + 16 ≤ len) × ((dest + off) % 16 ≡ 0))
        (Stored s dest 0 0)
        16
        (λ off. just_16b_ntstore (dest + off))
  unfolding just_16b_ntstore asm
  nt_16 off u near p = bind (ntstore_16 s dest len to off near.1 near.0 p) λ v q. (v, refl, q)

  nt_32 :
      Steps
        (λ off. (off + 32 ≤ len) × ((dest + off) % 32 ≡ 0))
        (Stored s dest 0 0)
        32
        (λ off. just_32b_ntstore (dest + off))
  unfolding just_32b_ntstore
  nt_32 off u near p = ntstore_block s dest len to off 1 near.1 near.0 p

  -- just_ntstore, on a buffer that with the byte behind it is on present pages, and wherever it
  -- lies, returns; each byte of it is then ~0 or one that a register held at first, no other byte
  -- is changed, the registers are as they were, and none of what it wrote is left in the cache
  -- alone.
  pub just_ntstore-Stored :
      Mapped s dest (len + 1) → Returns (Stored s dest 0 0 len) (just_ntstore dest len s)
  unfolding just_ntstore
  just_ntstore-Stored ends =
      walk_nt-total (ntstore_blocks dest) (idle dest) whole_nt s
        (λ t n lt off u near p.
          just_less_16b_store-Stored s dest len to n p lt near.room (omega (arith, near.after))
            near.in_line)
        nt_16 nt_32 (Stored-Windowed _ (λ d le. ends (dest + d) (omega arith) (omega arith)))
        (Stored-start s dest 0 0)
