-- ===== src/Cpu.antt =====
-- util/cpu.h and util/cpu.cc: binding a thread to a core, and the clocks. The calls of pthread and of the
-- kernel are parameters.
pub mod Binding
pub mod Clock
use Prim.Native.Nat.{bit_or}
use hlfs.Common.{
  ℕ, zero, suc, ◌+◌, ◌*◌, ◌%◌, ◌^◌, Bool, true, false, ◌&&◌, ◌||◌, Option, none, some, List, [],
  ◌∷◌, ◌==◌, ltb, if◌then◌else◌, ◌>>=◌,
}

abbrev pub cpu_setsize : ℕ
cpu_setsize = 1024

-- `cpu_set_t` with `CPU_ZERO` and `CPU_SET`, which passes over a cpu that the set has no bit for
abbrev pub CpuSet : Type 0
CpuSet = ℕ → Bool

abbrev pub cpu_zero : CpuSet
cpu_zero i = false

abbrev pub cpu_set : ℕ → CpuSet → CpuSet
cpu_set id s i = (i == id && ltb id cpu_setsize) || s i

-- `pthread_setaffinity_np` and `pthread_getaffinity_np`, with the number that they return; threads
-- are numbers.
pub record Affinity : Type 1 where
  pub Os : Type 0
  pub set : (t : ℕ) → CpuSet → Os → ℕ × Os
  pub get : (t : ℕ) → Os → ℕ × CpuSet

-- The loop over the bits, `n` of them from `i` on
unfoldable pub cores_of : CpuSet → (n i : ℕ) → List ℕ
cores_of s zero i = []
cores_of s (suc n) i = let others = cores_of s n (suc i) in if s i then i ∷ others else others

module _ (a : Affinity) where
  unfoldable pub core_bind : (t core_id : ℕ) → a.Os → Bool × a.Os
  core_bind t core_id os = let r = a.set t (cpu_set core_id cpu_zero) os in (r.0 == 0, r.1)

  -- It asks for the calling thread, `self`, whatever `t` is. Its `assert` does nothing, as aep_study is
  -- built with NDEBUG: where the call fails, the bits are those that it left in the set.
  unfoldable pub core_bind_query : (self t : ℕ) → a.Os → List ℕ
  core_bind_query self t os = cores_of (a.get self os).1 cpu_setsize 0

  -- What ThreadJob of bgtest/AEP/aep_study.cc does first, with what its two `assert`s, which do nothing
  -- either, would look at: `core_id` is that of the thread's task.
  unfoldable pub bind_job : (self core_id : ℕ) → a.Os → (Bool × List ℕ) × a.Os
  bind_job self core_id os =
      let b = core_bind self core_id os in ((b.0, core_bind_query self self b.1), b.1)

-- `GetTsUsec` and `GetTsNsec`, of the two fields that the kernel fills, in 64 bits
unfoldable pub get_ts_usec : (tv_sec tv_usec : ℕ) → ℕ
get_ts_usec tv_sec tv_usec = (tv_sec * 1000000 + tv_usec) % 2 ^ 64

unfoldable pub get_ts_nsec : (tv_sec tv_nsec : ℕ) → ℕ
get_ts_nsec tv_sec tv_nsec = (tv_sec * 1000000000 + tv_nsec) % 2 ^ 64

-- `GetTsTick`, of the halves that `rdtscp` leaves
unfoldable pub get_ts_tick : (lo hi : ℕ) → ℕ
get_ts_tick lo hi = bit_or (hi * 2 ^ 32 % 2 ^ 64) lo
