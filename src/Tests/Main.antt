-- ===== src/Tests/Main.antt =====
-- A run of two threads, from its flags on.
use hlfs.Common.{
  ℕ, ◌+◌, ◌^◌, ◌≡◌, refl, inr, Bool, true, false, ◌||◌, ◌==◌, none, some, if◌then◌else◌, arith,
  Returns,
}
use hlfs.Bits.{bit_fls, bsr}
use hlfs.Driver.{
  core_num, on_socket, init_global_cfg, init_global_cfg_first, check_global_cfg,
  validate_thread_num, validate_iters, validate_core_ids, collect_core_ids,
}
use hlfs.Driver.Names.{
  codes, find, same_text, validate_rw_type, validate_access_mode, str2_rw_type, str2_access_mode,
}
use hlfs.Driver.Main.{
  CommandLine, Nodes, parse_and_validate_flags, flags_of, configure, main_jobs, Numa,
}
use hlfs.Driver.Main.Ready.{IsReady, configure-IsReady}
use hlfs.Driver.Main.Configs.{AllLaidOut, main_jobs-AllLaidOut}
use hlfs.Driver.Report.{reported, reported_lem}
use hlfs.Log.{LogCfg, Glog, IsGlog, init_log, init_log-init_log}
use hlfs.Tests.PmemMap.{none_open, all_succeed, screen}
use hlfs.Tests.Driver.{flags_set, configured}

abbrev command_line : CommandLine
command_line = record {
  thread_num = 2;
  buffer_size = 1024;
  rw_type = codes "cpy";
  access_mode = codes "seq";
  access_size = 64;
  iters = 3;
  socket = 0;
  vary_access_size = false;
  vary_thread_num = false;
}

abbrev nodes : Nodes
nodes = record {
  max_node = 1;
  node_of_cpu = λ id. 0;
  max_cpus = 80;
  parsed = some (λ i. i == 4 || i == 5);
}

command_line-configured : configure command_line nodes (2 ^ 30) (2 ^ 36) flags_set ≡ some configured
unfolding configure parse_and_validate_flags flags_of validate_thread_num validate_rw_type
    validate_access_mode validate_iters validate_core_ids collect_core_ids core_num find same_text
    str2_rw_type str2_access_mode init_global_cfg_first init_global_cfg check_global_cfg on_socket
    bit_fls bsr
command_line-configured = refl

configure-IsReady_example : IsReady configured
configure-IsReady_example =
    configure-IsReady command_line nodes (2 ^ 30) (2 ^ 36) flags_set (omega arith)
      command_line-configured

main_jobs-AllLaidOut_example : Returns AllLaidOut (main_jobs command_line configured)
main_jobs-AllLaidOut_example =
    main_jobs-AllLaidOut command_line nodes (2 ^ 30) (2 ^ 36) flags_set (omega arith)
      command_line-configured (inr (refl, refl))

-- Two nodes, a mask as its weight and its bits.
abbrev two_nodes : Numa
two_nodes = record {
  Os = ℕ × (ℕ → Bool);
  Mask = ℕ × (ℕ → Bool);
  mems_allowed = λ os. (2, λ i. true);
  clearall = λ m. (0, λ i. false);
  setbit = λ m i. (m.0 + 1, λ j. j == i || m.1 j);
  bind = λ m os. m;
  set_bind_policy = λ strict os. os;
  membind = λ os. os;
  weight = λ m. m.0;
  isbitset = λ m i. m.1 i;
}

reported_lem_example :
    reported all_succeed 4 screen
    ≡ some (record screen {
      open_ones = record none_open { fds = none_open.fds + 1 };
      stdout_open = false;
      on_stdout = 0 + 4;
      in_file = 0 + 12;
    })
reported_lem_example = reported_lem all_succeed 4 screen

-- glog as whether it is initialised
abbrev logging : Glog
logging = record {
  St = Bool;
  set_flags = λ cfg st. st;
  init_google_logging = λ st. if st then none else some true;
}

abbrev logging_IsGlog : IsGlog logging
logging_IsGlog = record {
  is_initialized = λ st. st;
  flags_only = λ cfg st. refl;
  first = λ st fresh. rw fresh (true, refl, refl);
  again = λ st up. rw up refl;
}

abbrev log_cfg : LogCfg
log_cfg = record { is_log_to_stderr = true; vlog_level = 3; min_log_level = 0 }

init_log-init_log_example :
    Returns
      (λ r. (r.1 ≡ true) × (init_log logging log_cfg r ≡ none))
      (init_log logging log_cfg (false, false))
init_log-init_log_example = init_log-init_log logging logging_IsGlog log_cfg log_cfg false refl
