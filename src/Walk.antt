-- ===== src/Walk.antt =====
-- The walk over a buffer that the routines of util/aep.h and util/aep_just.h share, each in a
-- copy of its own: up to a multiple of 64, then in blocks of 512 to 64 bytes, then what is left.
-- The pointers of a routine move together, so they stand as one offset from where they began;
-- `base` is the pointer whose alignment is tested. `len` is taken from only where it is enough.
pub mod Sound
pub mod Parts
pub mod Routines
pub mod Window
pub mod Fault
use hlfs.Common.{
  ℕ, zero, suc, ◌+◌, ◌-◌, ◌/◌, ◌%◌, Bool, true, false, ◌&&◌, Option, none, some, ltb, leb, ◌==◌,
  if◌then◌else◌, ◌>>=◌,
}
use hlfs.Machine.{State, line, clwb}

pub record Run : Type 0 where
  pub off : ℕ
  pub len : ℕ
  pub st : State

-- What a routine calls: the blocks by size, at an offset, and the copy of fewer than 16 bytes.
pub record Kernels : Type 0 where
  pub small : (n : ℕ) → ℕ → State → Option State
  pub k16 : ℕ → State → Option State
  pub k32 : ℕ → State → Option State
  pub k2x32 : ℕ → State → Option State
  pub k4x32 : ℕ → State → Option State
  pub k8x32 : ℕ → State → Option State
  pub k16x32 : ℕ → State → Option State

-- `kernel(dest, src); dest += n; src += n; len -= n;`
unfoldable pub advance : ℕ → (ℕ → State → Option State) → Run → Option Run
advance n k r = do s ← k r.off r.st; some (record { off = r.off + n; len = r.len - n; st = s })

-- `if (len >= n) { … }`
unfoldable pub once : ℕ → (ℕ → State → Option State) → Run → Option Run
once n k r = if leb n r.len then advance n k r else some r

-- `while (len >= n) { … }`, at most so many rounds
unfoldable pub rounds : ℕ → ℕ → (ℕ → State → Option State) → Run → Option Run
rounds zero n k r = none
rounds (suc fuel) n k r = elim (leb n r.len) [
  | true ↦ advance n k r >>= rounds fuel n k
  | false ↦ some r
]

-- `cnt = addr & 15; if (cnt > 0) { cnt = 16 - cnt; if (cnt > len) cnt = len; … }`
unfoldable pub to_16 : (base : ℕ) → ((n : ℕ) → ℕ → State → Option State) → Run → Option Run
to_16 base small r =
    let cnt = (base + r.off) % 16 in
    let n = if ltb r.len (16 - cnt) then r.len else 16 - cnt in
    if ltb 0 cnt then advance n (small n) r else some r

-- `if ((addr & bit) && len >= bit) { … }` for `bit` 16 or 32
unfoldable pub to_bit : (bit base : ℕ) → (ℕ → State → Option State) → Run → Option Run
to_bit bit base k r =
    if (base + r.off) / bit % 2 == 1 && leb bit r.len then advance bit k r else some r

unfoldable pub prologue : (base : ℕ) → Kernels → Run → Option Run
unfolding to_16 to_bit
prologue base ks r = do
  r₁ ← to_16 base ks.small r
  r₂ ← to_bit 16 base ks.k16 r₁
  to_bit 32 base ks.k32 r₂

unfoldable pub blocks : Kernels → Run → Option Run
blocks ks r = do
  r₁ ← rounds (suc r.len) 512 ks.k16x32 r
  r₂ ← once 256 ks.k8x32 r₁
  r₃ ← once 128 ks.k4x32 r₂
  once 64 ks.k2x32 r₃

unfoldable pub rest : Kernels → Run → Option Run
rest ks r = do r₁ ← once 32 ks.k32 r; once 16 ks.k16 r₁

abbrev pub start : ℕ → State → Run
start len s = record { off = 0; len = len; st = s }

-- The routines that leave the written lines in the cache.
unfoldable pub walk : (base : ℕ) → Kernels → (len : ℕ) → State → Option State
unfolding prologue blocks rest
walk base ks len s = do
  r₁ ← prologue base ks (start len s)
  r₂ ← blocks ks r₁
  r₃ ← rest ks r₂
  ks.small r₃.len r₃.off r₃.st

-- The routines that write back what they write: `need_flush` is first whether `dest` lies inside
-- a line, then whether the blocks leave anything.
unfoldable pub walk_flush : (base : ℕ) → Kernels → (len : ℕ) → State → Option State
unfolding prologue blocks rest
walk_flush base ks len s = do
  r₁ ← prologue base ks (start len s)
  s₁ ← if base % 64 == 0 then some r₁.st else clwb (line base) r₁.st
  r₂ ← blocks ks (record r₁ { st = s₁ })
  r₃ ← rest ks r₂
  s₂ ← ks.small r₃.len r₃.off r₃.st
  if r₂.len == 0 then some s₂ else clwb (line (base + r₃.off)) s₂

-- In the prologue of the routines below the few bytes are written back before `dest` moves on.
abbrev pub then_clwb : (base : ℕ) → Kernels → Kernels
then_clwb base ks = record ks { small = λ n off s. ks.small n off s >>= clwb (line (base + off)) }

-- The routines that store past the cache: only what `small` writes is written back.
unfoldable pub walk_nt : (base : ℕ) → Kernels → (len : ℕ) → State → Option State
unfolding prologue blocks rest
walk_nt base ks len s = do
  r₁ ← prologue base (then_clwb base ks) (start len s)
  r₂ ← blocks ks r₁
  r₃ ← rest ks r₂
  s₁ ← ks.small r₃.len r₃.off r₃.st
  clwb (line (base + r₃.off)) s₁
