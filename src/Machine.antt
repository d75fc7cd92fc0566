-- ===== src/Machine.antt =====
-- The machine that the programs run on: byte-addressed memory behind a write-back cache, vector
-- registers and a page table. Addresses are numbers, and a page holds 4096 bytes.
pub mod Wrote
use hlfs.Common.{
  ℕ, ◌+◌, ◌-◌, ◌*◌, ◌/◌, Bool, ◌&&◌, Option, none, some, ◌==◌, leb, ltb, if◌then◌else◌,
}

-- How far the current value of a byte is on its way to the persistent medium: it is there; its
-- write-back is under way and ends by the next fence; or it may be in the cache alone.
pub data Status : Type 0 where
  durable queued cached : Status

pub record State : Type 0 where
  pub mem : ℕ → ℕ
  pub status : ℕ → Status
  pub reg : ℕ → ℕ → ℕ
  pub present : ℕ → Bool

abbrev pub in_range : ℕ → ℕ → ℕ → Bool
in_range a n x = leb a x && ltb x (a + n)

-- `CACHELINE_UNMASK`: the address of the line that holds `a`
abbrev pub line : ℕ → ℕ
line a = a / 64 * 64

-- An access of `n` bytes, at most a page, touches the pages of its first and its last byte.
abbrev pub mapped : State → ℕ → ℕ → Bool
mapped s a n = s.present (a / 4096) && s.present ((a + n - 1) / 4096)

-- A store of the `n` bytes `v 0, …` at `a`.
abbrev pub put : Status → ℕ → ℕ → (ℕ → ℕ) → State → State
put st a n v s = record s {
  mem = λ x. if in_range a n x then v (x - a) else s.mem x;
  status = λ x. if in_range a n x then st else s.status x;
}

-- `*(uintN_t*)a` read and written, `n` bytes; `none` is a page fault
unfoldable pub load : ℕ → ℕ → State → Option (ℕ → ℕ)
load a n s = if mapped s a n then some (λ j. s.mem (a + j)) else none

unfoldable pub store : ℕ → ℕ → (ℕ → ℕ) → State → Option State
store a n v s = if mapped s a n then some (put cached a n v s) else none

-- a store past the cache
unfoldable pub nt_store : ℕ → ℕ → (ℕ → ℕ) → State → Option State
nt_store a n v s = if mapped s a n then some (put queued a n v s) else none

abbrev pub write_back : Status → Status
write_back cached = queued
write_back st = st

-- the line that holds `a` on its way out of the cache
abbrev pub flush_line : ℕ → State → State
flush_line a s = record s {
  status = λ x. if in_range (line a) 64 x then write_back (s.status x) else s.status x;
}

-- `clwb`: the write-back of the line that holds `a` begins
unfoldable pub clwb : ℕ → State → Option State
clwb a s = if mapped s a 1 then some (flush_line a s) else none

abbrev pub drain : Status → Status
drain queued = durable
drain st = st

-- `sfence`: every write-back that is under way has ended
unfoldable pub sfence : State → State
sfence s = record s { status = λ x. drain (s.status x) }
