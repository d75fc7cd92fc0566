-- ===== src/Driver.antt =====
-- bgtest/AEP/aep_study.cc: the configuration of a run. The globals are a record, what the flags set
-- included; the seed and the paths are left out. A `none` is an exit, an abort, a division by zero or
-- an undefined scan.
pub mod Layout
pub mod Task
pub mod Run
pub mod Analyze
pub mod Vary
pub mod Data
pub mod Names
pub mod RepDir
pub mod Main
pub mod Report
use hlfs.Common.{
  ℕ, zero, suc, ◌+◌, ◌-◌, ◌*◌, ◌/◌, ◌%◌, ◌^◌, Bool, true, false, ◌&&◌, Option, none, some, List, [],
  ◌∷◌, ◌++◌, ◌==◌, ltb, leb, if◌then◌else◌, ◌>>=◌,
}
use hlfs.Bits.{bit_fls}
use hlfs.AepStudy.Pmem.{RwType}

abbrev pub max_thread_num : ℕ
max_thread_num = 32

abbrev pub max_core_id : ℕ
max_core_id = 79

-- `AEP_SIZE`, 64 GB, and its half
abbrev pub aep_size : ℕ
aep_size = 2 ^ 36

abbrev pub aep_half : ℕ
aep_half = 2 ^ 35

pub data AccessMode : Type 0 where
  seq random : AccessMode

pub record Globals : Type 0 where
  pub thread_num : ℕ
  pub buffer_size : ℕ
  pub rw_type : RwType
  pub access_mode : AccessMode
  pub access_size : ℕ
  pub access_size_bits : ℕ
  pub iters : ℕ
  pub socket : ℕ
  pub core_ids : List ℕ
  pub buf_slots : ℕ
  pub buf_slots_mask : ℕ
  pub aep_buf : ℕ
  pub aep_buf_size : ℕ

-- The flags that a run reads.
pub record Flags : Type 0 where
  pub thread_num : ℕ
  pub buffer_size : ℕ
  pub rw_type : RwType
  pub access_mode : AccessMode
  pub access_size : ℕ
  pub iters : ℕ
  pub socket : ℕ

unfoldable pub validate_thread_num : ℕ → Bool
validate_thread_num value = ltb value max_thread_num

unfoldable pub validate_iters : ℕ → Bool
validate_iters value = ltb 0 value

-- What InitGlobalCfg computes on every call. `/` by 0 traps.
unfoldable pub init_global_cfg : Globals → Option Globals
init_global_cfg g = if g.access_size == 0 then none else do
  buf_slots_bits ← bit_fls (g.buffer_size / g.access_size)
  access_size_bits ← bit_fls g.access_size
  some (record g {
    buf_slots = g.buffer_size / g.access_size;
    buf_slots_mask = (2 ^ buf_slots_bits - 1) % 2 ^ 32;
    access_size_bits = access_size_bits;
  })

-- The first call, with the address and the size of the map of the device.
unfoldable pub init_global_cfg_first : Flags → (aep_buf aep_buf_size : ℕ) → Globals → Option Globals
init_global_cfg_first f aep_buf aep_buf_size g = init_global_cfg (record g {
  thread_num = f.thread_num;
  buffer_size = f.buffer_size;
  rw_type = f.rw_type;
  access_mode = f.access_mode;
  access_size = f.access_size;
  iters = f.iters;
  socket = f.socket;
  aep_buf = aep_buf;
  aep_buf_size = aep_buf_size;
})

abbrev pub require : Bool → Option Globals → Option Globals
require b m = if b then m else none

-- `for (int i = 0; i < thread_num; ++i)` over `core_ids`: each core is on the socket.
unfoldable pub on_socket : (node_of_cpu : ℕ → ℕ) → (socket : ℕ) → List ℕ → Bool
on_socket node_of_cpu socket [] = true
on_socket node_of_cpu socket (id ∷ ids) =
    node_of_cpu id == socket && on_socket node_of_cpu socket ids

unfoldable pub core_num : List ℕ → ℕ
core_num [] = 0
core_num (id ∷ ids) = suc (core_num ids)

-- `n` cpus from `i` on, of which `isset` have been named: what the loop of ValidateCoreIds returns and
-- the ids that it has written. `none` is a write behind the array.
unfoldable pub collect_core_ids :
    (isset : ℕ → Bool) → (n i : ℕ) → (core_ids : List ℕ) → Option (Bool × List ℕ)
collect_core_ids isset zero i core_ids = some (ltb 0 (core_num core_ids), core_ids)
collect_core_ids isset (suc n) i core_ids = elim (isset i) [
  | false ↦ collect_core_ids isset n (suc i) core_ids
  | true ↦ elim (ltb max_core_id i) [
    | true ↦ some (false, core_ids)
    | false ↦ elim (ltb (core_num core_ids) max_thread_num) [
      | true ↦ collect_core_ids isset n (suc i) (core_ids ++ (i ∷ []))
      | false ↦ none
    ]
  ]
]

-- What libnuma makes of the text: the number of cpus and, if it can be parsed, a mask.
unfoldable pub validate_core_ids :
    (max_cpus : ℕ) → (parsed : Option (ℕ → Bool)) → Option (Bool × List ℕ)
validate_core_ids max_cpus none = some (false, [])
validate_core_ids max_cpus (some isset) = collect_core_ids isset max_cpus 0 []

-- `(1UL << __fls(v)) == v`
abbrev pub require_pow2 : ℕ → Option Globals → Option Globals
require_pow2 v m = bit_fls v >>= λ bits. require (2 ^ bits == v) m

-- The node of a core and the highest node are libnuma's.
unfoldable pub check_global_cfg : (max_node : ℕ) → (node_of_cpu : ℕ → ℕ) → Globals → Option Globals
check_global_cfg max_node node_of_cpu g = require (leb g.socket max_node) (
    require (core_num g.core_ids == g.thread_num) (
      require (on_socket node_of_cpu g.socket g.core_ids) (
        require (leb aep_size g.aep_buf_size) (
          require (leb (g.buffer_size * g.thread_num % 2 ^ 64) (aep_size / 2)) (
            require_pow2 g.buffer_size (
              require (2 ^ g.access_size_bits == g.access_size)
                (require (ltb 0 g.buf_slots) (require_pow2 g.buf_slots (some g)))))))))

unfoldable pub gen_iters : (size : ℕ) → ℕ
gen_iters size =
    if leb (32 * 1024) size
    then 500000
    else if leb (8 * 1024) size
    then 500000 * 2
    else if leb (4 * 1024) size
    then 500000 * 2 * 2
    else if leb (1 * 1024) size
    then 4000000
    else 8000000

-- `iters` is assigned in 32 bits. The thread number and the access size are never 0 here.
unfoldable pub re_cfg_when_thread_num_change : Globals → Globals
re_cfg_when_thread_num_change g =
    let size : ℕ = aep_size / 2 / g.thread_num in
    let n : ℕ = size / g.access_size % 2 ^ 32 in
    record g {
      buffer_size = size;
      iters = if ltb 2500000 n then 2500000 else if ltb n 500000 then 500000 else n;
    }
