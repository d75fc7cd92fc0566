-- ===== src/Driver/Main.antt =====
-- bgtest/AEP/aep_study.cc: what main puts together. What the flags say, what libnuma makes of the core
-- ids, and where the device is mapped are parameters; a `none` is an exit or an abort.
pub mod Ready
pub mod Configs
pub mod Bound
use hlfs.Common.{
  ℕ, Bool, true, false, ◌&&◌, Option, none, some, List, [], ◌∷◌, ◌==◌, if◌then◌else◌, ◌>>=◌,
}
use hlfs.Driver.{
  Globals, Flags, validate_thread_num, validate_iters, validate_core_ids, init_global_cfg_first,
  check_global_cfg, require,
}
use hlfs.Driver.Names.{validate_rw_type, validate_access_mode, str2_rw_type, str2_access_mode}
use hlfs.Driver.Vary.{main_job_vary_access_size, main_job_vary_thread_num}
use hlfs.Driver.RepDir.{init_rep_dir}
use hlfs.Files.Calls.{FileSystem}

-- The flags as they are given.
pub record CommandLine : Type 0 where
  pub thread_num : ℕ
  pub buffer_size : ℕ
  pub rw_type : List ℕ
  pub access_mode : List ℕ
  pub access_size : ℕ
  pub iters : ℕ
  pub socket : ℕ
  pub vary_access_size : Bool
  pub vary_thread_num : Bool

-- What libnuma says: the highest node, the node of each cpu, the number of cpus, and the mask that it
-- makes of the text of the flag core_ids.
pub record Nodes : Type 0 where
  pub max_node : ℕ
  pub node_of_cpu : ℕ → ℕ
  pub max_cpus : ℕ
  pub parsed : Option (ℕ → Bool)

-- ParseAndValidateFlags: gflags exits where a validator says false. The ids that are written are kept.
unfoldable pub parse_and_validate_flags : CommandLine → Nodes → Option (List ℕ)
parse_and_validate_flags c nodes =
    if validate_thread_num c.thread_num
      && (validate_rw_type c.rw_type
          && (validate_access_mode c.access_mode && validate_iters c.iters))
    then (validate_core_ids nodes.max_cpus nodes.parsed >>= λ r. if r.0 then some r.1 else none)
    else none

-- The flags as InitGlobalCfg reads them.
unfoldable pub flags_of : CommandLine → Flags
flags_of c = record {
  thread_num = c.thread_num;
  buffer_size = c.buffer_size;
  rw_type = str2_rw_type c.rw_type;
  access_mode = str2_access_mode c.access_mode;
  access_size = c.access_size;
  iters = c.iters;
  socket = c.socket;
}

-- Up to CheckGlobalCfg.
unfoldable pub configure :
    CommandLine → Nodes → (aep_buf aep_buf_size : ℕ) → Globals → Option Globals
configure c nodes aep_buf aep_buf_size g = do
  core_ids ← parse_and_validate_flags c nodes
  g' ← init_global_cfg_first (flags_of c) aep_buf aep_buf_size (record g { core_ids = core_ids })
  check_global_cfg nodes.max_node nodes.node_of_cpu g'

-- The configurations of the rounds that main runs.
unfoldable pub main_jobs : CommandLine → Globals → Option (List Globals)
main_jobs c g =
    if c.vary_access_size
    then main_job_vary_access_size g
    else if c.vary_thread_num
    then main_job_vary_thread_num g
    else some (g ∷ [])

-- The calls of libnuma that bind memory.
pub record Numa : Type 1 where
  pub Os : Type 0
  pub Mask : Type 0
  pub mems_allowed : Os → Mask
  pub clearall : Mask → Mask
  pub setbit : Mask → ℕ → Mask
  pub bind : Mask → Os → Os
  pub set_bind_policy : (strict : ℕ) → Os → Os
  pub membind : Os → Mask
  pub weight : Mask → ℕ
  pub isbitset : Mask → ℕ → Bool

module _ (numa : Numa) (fs : FileSystem) where
  abbrev pub nodes_bound : (socket : ℕ) → numa.Os → numa.Os
  nodes_bound socket os =
      numa.set_bind_policy 1
        (numa.bind (numa.setbit (numa.clearall (numa.mems_allowed os)) socket) os)

  -- SetEnv, without the seed; its two `assert`s do nothing, as aep_study is built with NDEBUG.
  unfoldable pub set_env :
      (socket : ℕ) (rep_dir_path : List ℕ) → numa.Os × fs.Os → Option (numa.Os × fs.Os)
  set_env socket rep_dir_path (os, files) =
      init_rep_dir fs rep_dir_path files >>= λ files'. some (nodes_bound socket os, files')
