-- ===== src/AepStudy/Persist.antt =====
-- What the writing operations persist.
use hlfs.Common.{
  ℕ, ◌+◌, ◌-◌, ◌%◌, ◌^◌, ◌≤◌, ◌<◌, ◌≡◌, refl, Option, some, arith, Returns, bind, ◌>>=◌,
}
use hlfs.Machine.{State, durable, sfence, load}
use hlfs.Machine.Wrote.{Mapped, Outside, Wrote, Wrote-load, Wrote-start}
use hlfs.Instr.Copies.{CopyByte, IsVectorCopy, Copied}
use hlfs.Walk.Window.{Touches}
use hlfs.Aep.Copies.{
  cpy_load_store_noflush-Copied, cpy_load_store_flush-Copied, cpy_ntload_store_noflush-Copied,
  cpy_ntload_store_flush-Copied, cpy_load_ntstore-Copied, cpy_ntload_ntstore-Copied,
}
use hlfs.Aep.Native.{clwb_extent}
use hlfs.Aep.Native.Bytes.{FillByte}
use hlfs.Aep.Native.Extent.{clwb_extent-Wrote}
use hlfs.Aep.Native.Total.{
  cpy_native_noflush-Copied, cpy_native_flush-Copied, memset_native_noflush-Wrote,
  memset_native_flush-Wrote,
}
use hlfs.AepStudy.{
  AepOpFn, timed, fenced, aep_store_from_dram_flush_by_all, aep_store_from_dram_flush_by_cacheline,
  aep_ntstore_from_dram, aep_native_cpy_dram_by_all, aep_native_cpy_dram_by_cacheline,
  aep_cpy_native_by_all, aep_cpy_native_by_cacheline, aep_cpy_load_store_by_all,
  aep_cpy_load_store_by_cacheline, aep_cpy_load_ntstore, aep_cpy_ntload_store_by_all,
  aep_cpy_ntload_store_by_cacheline, aep_cpy_ntload_ntstore, aep_memset_native_by_all,
  aep_memset_native_by_cacheline,
}

-- The `len` bytes at `dest` are what they should be and have reached the medium; no other byte
-- has changed or left the medium, and no page has.
pub record Persisted (byte : ℕ → ℕ → Type 0) (s₀ : State) (dest len : ℕ) (s : State) : Type 0 where
  pub inside : (x : ℕ) → dest ≤ x → x < dest + len → byte x (s.mem x)
  pub safe : (x : ℕ) → dest ≤ x → x < dest + len → s.status x ≡ durable
  pub outside : (x : ℕ) → Outside dest len x → s.mem x ≡ s₀.mem x
  pub kept : (x : ℕ) → s₀.status x ≡ durable → s.status x ≡ durable
  pub pages : (p : ℕ) → s.present p ≡ s₀.present p

-- The copying operations that end in a fence.
pub data PersistingCopy : Type 0 where
  store_from_dram_flush_by_all : PersistingCopy
  store_from_dram_flush_by_cacheline : PersistingCopy
  ntstore_from_dram : PersistingCopy
  native_cpy_dram_by_all : PersistingCopy
  native_cpy_dram_by_cacheline : PersistingCopy
  cpy_native_by_all : PersistingCopy
  cpy_native_by_cacheline : PersistingCopy
  cpy_load_store_by_all : PersistingCopy
  cpy_load_store_by_cacheline : PersistingCopy
  cpy_load_ntstore : PersistingCopy
  cpy_ntload_store_by_all : PersistingCopy
  cpy_ntload_store_by_cacheline : PersistingCopy
  cpy_ntload_ntstore : PersistingCopy

unfoldable pub copy_fn : PersistingCopy → AepOpFn
copy_fn store_from_dram_flush_by_all = aep_store_from_dram_flush_by_all
copy_fn store_from_dram_flush_by_cacheline = aep_store_from_dram_flush_by_cacheline
copy_fn ntstore_from_dram = aep_ntstore_from_dram
copy_fn native_cpy_dram_by_all = aep_native_cpy_dram_by_all
copy_fn native_cpy_dram_by_cacheline = aep_native_cpy_dram_by_cacheline
copy_fn cpy_native_by_all = aep_cpy_native_by_all
copy_fn cpy_native_by_cacheline = aep_cpy_native_by_cacheline
copy_fn cpy_load_store_by_all = aep_cpy_load_store_by_all
copy_fn cpy_load_store_by_cacheline = aep_cpy_load_store_by_cacheline
copy_fn cpy_load_ntstore = aep_cpy_load_ntstore
copy_fn cpy_ntload_store_by_all = aep_cpy_ntload_store_by_all
copy_fn cpy_ntload_store_by_cacheline = aep_cpy_ntload_store_by_cacheline
copy_fn cpy_ntload_ntstore = aep_cpy_ntload_ntstore

-- What an operation returns: the time between the two readings, and a state.
abbrev pub Done : (ℕ → ℕ → Type 0) → State → (dest len start end : ℕ) → ℕ × State → Type 0
Done byte s dest len start end r =
    (r.0 ≡ (end + 2 ^ 64 - start) % 2 ^ 64) × Persisted byte s dest len r.1

module _ {byte : ℕ → ℕ → Type 0} {s : State} {dest len : ℕ} (start end : ℕ) where
  pub sfence-Persisted :
      {t : State} → Wrote byte s dest 0 0 len t → Persisted byte s dest len (sfence t)
  unfolding sfence
  sfence-Persisted w = record {
    inside = w.inside;
    safe = λ x p q. ground (arith, w.dirty x);
    outside = w.outside;
    kept = λ x e. ground (arith, w.dirty x, e);
    pages = w.pages;
  }

  -- A body that leaves nothing new in the cache, behind a fence.
  pub fenced-Done :
      {m : Option State}
      → Returns (Wrote byte s dest 0 0 len) m
      → Returns (Done byte s dest len start end) (timed start end (fenced m))
  fenced-Done r =
      bind (bind r λ t w. (sfence t, refl, sfence-Persisted w)) λ t p. (_, refl, (refl, p))

  -- A body that leaves the destination in the cache, then the write-back of all of it.
  pub flushed-Done :
      {m : Option State}
      → Mapped s dest len
      → Touches s dest 0
      → dest + len + 64 ≤ 2 ^ 64
      → Returns (Wrote byte s dest dest (dest + len) len) m
      → Returns
          (Done byte s dest len start end)
          (timed start end (fenced (m >>= clwb_extent dest len)))
  flushed-Done to here fits r =
      fenced-Done (bind r λ t w. clwb_extent-Wrote dest len to here fits w)

module _ {s : State} {dest src len : ℕ} (start end : ℕ) (job : IsVectorCopy s dest src len)
    (ends : Mapped s dest (len + 1)) (fits : dest + len + 64 ≤ 2 ^ 64) where
  here : Touches s dest 0
  here = ends (dest + 0) (omega arith) (omega arith)

  abbrev CopyDone : Option (ℕ × State) → Type 0
  CopyDone = Returns (Done (CopyByte s dest src) s dest len start end)

  by_all :
      {m : Option State}
      → Returns (Copied s dest src dest (dest + len) len) m
      → CopyDone (timed start end (fenced (m >>= clwb_extent dest len)))
  by_all r = flushed-Done start end job.to here fits r

  -- Each of the thirteen copying operations of aep_study.h that end in a fence, with both buffers
  -- and the byte behind the destination on present pages, the buffers disjoint and lying alike
  -- modulo 32, and 64 bytes of addresses behind them, returns the time between its two readings of
  -- the clock; the destination then holds the bytes of the source, all of them have reached the
  -- medium, and no other byte of memory has changed; nothing that was durable has ceased to be,
  -- and no page has changed.
  pub copy_fn-Persisted :
      (c : PersistingCopy)
      → Returns
          (Done (CopyByte s dest src) s dest len start end)
          (copy_fn c start end dest src len s)
  unfolding copy_fn aep_store_from_dram_flush_by_all aep_store_from_dram_flush_by_cacheline
      aep_ntstore_from_dram aep_native_cpy_dram_by_all aep_native_cpy_dram_by_cacheline
      aep_cpy_native_by_all aep_cpy_native_by_cacheline aep_cpy_load_store_by_all
      aep_cpy_load_store_by_cacheline aep_cpy_load_ntstore aep_cpy_ntload_store_by_all
      aep_cpy_ntload_store_by_cacheline aep_cpy_ntload_ntstore
  copy_fn-Persisted store_from_dram_flush_by_all = by_all (cpy_load_store_noflush-Copied job)
  copy_fn-Persisted store_from_dram_flush_by_cacheline =
      fenced-Done start end (cpy_load_store_flush-Copied job here)
  copy_fn-Persisted ntstore_from_dram = fenced-Done start end (cpy_load_ntstore-Copied job ends)
  copy_fn-Persisted native_cpy_dram_by_all = by_all (cpy_native_noflush-Copied job.copy)
  copy_fn-Persisted native_cpy_dram_by_cacheline =
      fenced-Done start end (cpy_native_flush-Copied job.copy here)
  copy_fn-Persisted cpy_native_by_all = by_all (cpy_native_noflush-Copied job.copy)
  copy_fn-Persisted cpy_native_by_cacheline =
      fenced-Done start end (cpy_native_flush-Copied job.copy here)
  copy_fn-Persisted cpy_load_store_by_all = by_all (cpy_load_store_noflush-Copied job)
  copy_fn-Persisted cpy_load_store_by_cacheline =
      fenced-Done start end (cpy_load_store_flush-Copied job here)
  copy_fn-Persisted cpy_load_ntstore = fenced-Done start end (cpy_load_ntstore-Copied job ends)
  copy_fn-Persisted cpy_ntload_store_by_all = by_all (cpy_ntload_store_noflush-Copied job)
  copy_fn-Persisted cpy_ntload_store_by_cacheline =
      fenced-Done start end (cpy_ntload_store_flush-Copied job here)
  copy_fn-Persisted cpy_ntload_ntstore = fenced-Done start end (cpy_ntload_ntstore-Copied job ends)

loaded : (s : State) (src : ℕ) → Mapped s src 1 → load src 1 s ≡ some (λ j. s.mem (src + j))
loaded s src from =
    Wrote-load src 1 (Wrote-start {byte = λ x b. Unit {0}} {s₀ = s} {dest = 0} 0 0) from
      (omega arith)

-- The fills take the byte from the location that `src` points to.
module _ {s : State} {dest src len : ℕ} (start end : ℕ) (from : Mapped s src 1)
    (to : Mapped s dest (len + 1)) where
  -- aep_memset_native_by_all, with the buffer, the byte behind it and the byte at src on present
  -- pages, and 64 bytes of addresses behind the buffer, returns the time between its readings;
  -- every byte of the buffer is the one at src and has reached the medium, and no other byte has
  -- changed; nothing that was durable has ceased to be, and no page has changed.
  pub aep_memset_native_by_all-Persisted :
      dest + len + 64 ≤ 2 ^ 64
      → Returns
          (Done (FillByte (s.mem (src + 0))) s dest len start end)
          (aep_memset_native_by_all start end dest src len s)
  unfolding aep_memset_native_by_all
  aep_memset_native_by_all-Persisted fits = rw (loaded s src from) (
      flushed-Done start end (λ x a b. to x a (omega arith))
        (to (dest + 0) (omega arith) (omega arith)) fits
        (memset_native_noflush-Wrote (s.mem (src + 0)) (λ x a b. to x a (omega arith))))

  -- aep_memset_native_by_cacheline, with the buffer, the byte behind it and the byte at src on
  -- present pages, returns the time between its readings; every byte of the buffer is the one at
  -- src and has reached the medium, and no other byte has changed; nothing that was durable has
  -- ceased to be, and no page has changed.
  pub aep_memset_native_by_cacheline-Persisted :
      Returns
        (Done (FillByte (s.mem (src + 0))) s dest len start end)
        (aep_memset_native_by_cacheline start end dest src len s)
  unfolding aep_memset_native_by_cacheline
  aep_memset_native_by_cacheline-Persisted = rw (loaded s src from) (
      fenced-Done start end (
        memset_native_flush-Wrote (s.mem (src + 0)) (λ x a b. to x a (omega arith))
          (to (dest + 0) (omega arith) (omega arith))))
