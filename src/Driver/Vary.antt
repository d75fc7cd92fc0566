-- ===== src/Driver/Vary.antt =====
-- bgtest/AEP/aep_study.cc: the configurations of the runs of MainJobVaryThreadNum and of
-- MainJobVaryAccessSize.
pub mod Round
pub mod Stale
pub mod Access
use hlfs.Common.{
  ℕ, zero, suc, ◌+◌, ◌*◌, ◌-◌, Option, none, some, List, [], ◌∷◌, ◌++◌, leb, true, false, ◌>>=◌,
  ◌==◌, if◌then◌else◌,
}
use hlfs.Driver.{
  Globals, max_thread_num, aep_half, init_global_cfg, gen_iters, re_cfg_when_thread_num_change,
}

-- `for (int i = first; …; ++i) core_ids[core_num++] = i`, `n` times
unfoldable pub cores_from : (n first : ℕ) → List ℕ
cores_from zero first = []
cores_from (suc n) first = first ∷ cores_from n (suc first)

unfoldable pub vary_core_ids : List ℕ
vary_core_ids = cores_from 20 20 ++ cores_from (max_thread_num - 20) 60

unfoldable pub vary_round : (thread_num : ℕ) → Globals → Option Globals
vary_round thread_num g = do
  g' ← init_global_cfg (record g { thread_num = thread_num })
  some (re_cfg_when_thread_num_change g')

-- `for (…; thread_num <= MAX_THREAD_NUM; thread_num <<= 1)`, at most `fuel` rounds; the globals of each.
unfoldable pub vary_rounds : (fuel thread_num : ℕ) → Globals → Option (List Globals)
vary_rounds zero thread_num g = none
vary_rounds (suc fuel) thread_num g = elim (leb thread_num max_thread_num) [
  | false ↦ some []
  | true ↦ vary_round thread_num g >>= λ g'.
      vary_rounds fuel (thread_num * 2) g' >>= λ gs. some (g' ∷ gs)
]

unfoldable pub main_job_vary_thread_num : Globals → Option (List Globals)
main_job_vary_thread_num g =
    vary_rounds 7 1 (record g { buffer_size = aep_half; core_ids = vary_core_ids })

-- What MainJobVaryAccessSize sets for an access size.
unfoldable pub vary_access_round : (access_size : ℕ) → Globals → Option Globals
vary_access_round access_size g = do
  g' ← init_global_cfg (record g { access_size = access_size })
  some (
      if g'.thread_num == 1
      then record g' { iters = gen_iters access_size }
      else re_cfg_when_thread_num_change g')

-- `for (…; access_size <= 64 * 1024; access_size <<= 1)`, at most `fuel` rounds
unfoldable pub vary_access_rounds : (fuel access_size : ℕ) → Globals → Option (List Globals)
vary_access_rounds zero access_size g = none
vary_access_rounds (suc fuel) access_size g = elim (leb access_size (64 * 1024)) [
  | false ↦ some []
  | true ↦ vary_access_round access_size g >>= λ g'.
      vary_access_rounds fuel (access_size * 2) g' >>= λ gs. some (g' ∷ gs)
]

unfoldable pub main_job_vary_access_size : Globals → Option (List Globals)
main_job_vary_access_size g = vary_access_rounds 14 16 g
