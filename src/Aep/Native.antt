-- ===== src/Aep/Native.antt =====
-- util/aep.h, the section native and `clwb_extent`. `memcpy` and `memset` are those of the C
-- library, on ranges that do not overlap.
pub mod Bytes
pub mod Lines
pub mod Extent
pub mod Total
use hlfs.Common.{
  ℕ, zero, suc, ◌+◌, ◌-◌, ◌*◌, ◌/◌, ◌%◌, ◌^◌, Bool, true, false, Option, none, some, ltb, leb, ◌==◌,
  if◌then◌else◌, ◌>>=◌,
}
use hlfs.Machine.{State, line, load, store, clwb}
use hlfs.Walk.{Run, start, advance, rounds}
use hlfs.Aep.{Routine}

unfoldable pub memcpy : Routine
memcpy dest src zero s = some s
memcpy dest src (suc n) s = do
  b ← load src 1 s
  s₁ ← store dest 1 b s
  memcpy (dest + 1) (src + 1) n s₁

-- `c` is converted to `unsigned char`.
unfoldable pub memset : (dest c len : ℕ) → State → Option State
memset dest c zero s = some s
memset dest c (suc n) s = do s₁ ← store dest 1 (λ j. c % 256) s; memset (dest + 1) c n s₁

-- for (uptr = addr & CACHELINE_UNMASK; uptr < end; uptr += CACHELINE_SIZE), in `uintptr_t`
unfoldable pub clwb_from : ℕ → (uptr end : ℕ) → State → Option State
clwb_from zero uptr end s = none
clwb_from (suc fuel) uptr end s = elim (ltb uptr end) [
  | true ↦ clwb uptr s >>= clwb_from fuel ((uptr + 64) % 2 ^ 64) end
  | false ↦ some s
]

unfoldable pub clwb_extent : (addr len : ℕ) → State → Option State
unfolding clwb_from
clwb_extent addr len = clwb_from (len / 64 + 3) (line addr) ((addr + len) % 2 ^ 64)

-- The two flushing routines: `op n off` writes the `n` bytes at the offset `off`.
unfoldable pub flush_by_line :
    (base : ℕ) → ((n : ℕ) → ℕ → State → Option State) → (len : ℕ) → State → Option State
flush_by_line base op len s = do
  r₁ ←
      (let cnt = base % 64 in
        let n = if ltb len (64 - cnt) then len else 64 - cnt in
        if ltb 0 cnt
        then advance n (λ off t. op n off t >>= clwb (line (base + off))) (start len s)
        else some (start len s))
  r₂ ← rounds (suc len) 64 (λ off t. op 64 off t >>= clwb (base + off)) r₁
  if r₂.len == 0 then some r₂.st else (op r₂.len r₂.off r₂.st >>= clwb (base + r₂.off))

unfoldable pub memset_native_noflush : (dest c len : ℕ) → State → Option State
unfolding memset
memset_native_noflush dest c len = memset dest c len

unfoldable pub memset_native_flush : (dest c len : ℕ) → State → Option State
unfolding flush_by_line memset
memset_native_flush dest c = flush_by_line dest (λ n off. memset (dest + off) c n)

unfoldable pub cpy_native_noflush : Routine
unfolding memcpy
cpy_native_noflush dest src len = memcpy dest src len

unfoldable pub cpy_native_flush : Routine
unfolding flush_by_line memcpy
cpy_native_flush dest src = flush_by_line dest (λ n off. memcpy (dest + off) (src + off) n)
