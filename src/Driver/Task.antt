-- ===== src/Driver/Task.antt =====
-- bgtest/AEP/aep_study.cc: the tasks of the threads, and what a thread does. What `rand` returns, the
-- clock and where the heap and the stack lie are parameters; the data of a thread is a list, since
-- its file is mapped elsewhere. `dlog_assert`
-- and `assert` do nothing, as aep_study is built with NDEBUG.
pub mod Slots
pub mod Prepare
use Prim.Native.Nat.{bit_and}
use hlfs.Common.{
  ℕ, zero, suc, ◌+◌, ◌-◌, ◌*◌, ◌/◌, ◌%◌, ◌^◌, Option, none, some, List, [], ◌∷◌, ◌==◌, ltb, leb,
  ◌&&◌, if◌then◌else◌, ◌>>=◌,
}
use hlfs.Machine.{State, load, store}
use hlfs.AepJust.{just_ntload}
use hlfs.AepStudy.{AepOpFn}
use hlfs.AepStudy.Pmem.{RwType, read, write, cpy, memset}
use hlfs.Bits.{highest}
use hlfs.Driver.{Globals, AccessMode, seq, random, aep_half}

abbrev pub max_idx_size : ℕ
max_idx_size = 10485760

-- `AEP_TAIL_READ_SIZE`
abbrev pub tail_read_size : ℕ
tail_read_size = 2097152

pub record Task : Type 0 where
  pub buf : ℕ
  pub buf_size : ℕ
  pub rw_type : RwType
  pub access_mode : AccessMode
  pub access_size : ℕ
  pub access_size_bits : ℕ
  pub iters : ℕ
  pub idx : ℕ → ℕ
  pub idx_at : ℕ
  pub mem_cpy_buf : ℕ
  pub fn : AepOpFn

-- `access_size_bits_` is `__fls(access_size)`, of a size that is not 0, as InitGlobalCfg has divided by
-- it. The table of random slots is filled from its end; `rand k` is the number drawn at the call `k`.
unfoldable pub new_task :
    Globals → (rand : ℕ → ℕ) → (idx_at mem_cpy_buf : ℕ) → AepOpFn → (buf : ℕ) → Task
new_task g rand idx_at mem_cpy_buf fn buf = record {
  buf = buf;
  buf_size = g.buffer_size;
  rw_type = g.rw_type;
  access_mode = g.access_mode;
  access_size = g.access_size;
  access_size_bits = highest 64 g.access_size;
  iters = g.iters;
  idx = λ i. bit_and (rand (max_idx_size - 1 - i)) g.buf_slots_mask;
  idx_at = idx_at;
  mem_cpy_buf = mem_cpy_buf;
  fn = fn;
}

-- `aep_buf + i * buffer_size`, multiplied in 64 bits
unfoldable pub thread_buf : Globals → (i : ℕ) → ℕ
thread_buf g i = g.aep_buf + i * g.buffer_size % 2 ^ 64

unfoldable pub slot_index : (buf_slots_mask : ℕ) → Task → (i : ℕ) → ℕ
slot_index buf_slots_mask task i = elim task.access_mode [
  | seq ↦ bit_and i buf_slots_mask
  | random ↦ task.idx (i % max_idx_size)
]

-- `aep_addr + (idx << access_size_bits)`, shifted in 64 bits
unfoldable pub slot : Task → (idx : ℕ) → ℕ
slot task idx = task.buf + idx * 2 ^ task.access_size_bits % 2 ^ 64

-- `addr1` and `addr2`; `c` is the address of the byte for memset
unfoldable pub addresses : Task → (c idx : ℕ) → ℕ × ℕ
addresses task c idx = elim task.rw_type [
  | read ↦ (task.mem_cpy_buf, slot task idx)
  | write ↦ (slot task idx, task.mem_cpy_buf)
  | memset ↦ (slot task idx, c)
  | cpy ↦ (slot task idx, slot task idx + aep_half)
]

-- One round: the operation, its time cut to 32 bits, and `++i` of an `int`, which must not overflow.
unfoldable pub round :
    (buf_slots_mask : ℕ) → Task → (c i start end : ℕ) → State → Option (ℕ × State)
round buf_slots_mask task c i start end s =
    let a = addresses task c (slot_index buf_slots_mask task i) in
    task.fn start end a.0 a.1 task.access_size s >>= λ r.
    if ltb i (2 ^ 31 - 1) then some (r.0 % 2 ^ 32, r.1) else none

-- `n` rounds from `i` on; `clock i` are the two readings in the round `i`
unfoldable pub rounds :
    (buf_slots_mask : ℕ)
    → Task
    → (clock : ℕ → ℕ × ℕ) → (c n i : ℕ) → State
    → Option (List ℕ × State)
rounds buf_slots_mask task clock c zero i s = some ([], s)
rounds buf_slots_mask task clock c (suc n) i s = do
  r ← round buf_slots_mask task c i (clock i).0 (clock i).1 s
  q ← rounds buf_slots_mask task clock c n (suc i) r.1
  some (r.0 ∷ q.0, q.1)

-- `n` words of 8 bytes are read, upwards and downwards; the hash of them is forgotten.
unfoldable pub read_up : (n a : ℕ) → State → Option State
read_up zero a s = some s
read_up (suc n) a s = load a 8 s >>= λ v. read_up n (a + 8) s

unfoldable pub read_down : (n a : ℕ) → State → Option State
read_down zero a s = some s
read_down (suc n) a s = load (a + 8 * n) 8 s >>= λ v. read_down n a s

-- The table of slots is read from its word `MAX_IDX_SIZE / 2`, which is the one behind it, down.
unfoldable pub prepare_job : Task → State → Option State
prepare_job task s = do
  s₁ ← just_ntload task.buf tail_read_size s
  s₂ ← just_ntload (task.buf + aep_half) tail_read_size s₁
  s₃ ← read_up (task.access_size / 8) task.mem_cpy_buf s₂
  s₄ ← read_down (max_idx_size / 2 + 1) task.idx_at s₃
  if leb task.buf_size (64 * 1024 * 1024) then read_up (task.buf_size / 8) task.buf s₄ else some s₄

-- Behind the binding to a core. `c` is set to 1 on the stack.
unfoldable pub thread_job :
    (buf_slots_mask : ℕ) → Task → (clock : ℕ → ℕ × ℕ) → (c : ℕ) → State → Option (List ℕ × State)
thread_job buf_slots_mask task clock c s = do
  s₁ ← prepare_job task s
  s₂ ← store c 1 (λ j. 1) s₁
  rounds buf_slots_mask task clock c task.iters 0 s₂
