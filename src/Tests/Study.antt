-- ===== src/Tests/Study.antt =====
-- The configurations of whole studies, and what they map.
use hlfs.Common.{List, ℕ, length, ◌*◌, none, ◌≡◌, refl, arith, none, [], ◌∷◌, Returns}
use hlfs.Bits.{bit_fls, bsr}
use hlfs.Driver.{init_global_cfg}
use hlfs.Driver.Vary.{
  main_job_vary_thread_num, main_job_vary_access_size, vary_access_round, vary_access_rounds,
}
use hlfs.Driver.Vary.Stale.{OnlyFirstIsLaidOut, main_job_vary_thread_num-OnlyFirstIsLaidOut}
use hlfs.Driver.Vary.Access.{AreLaidOut, main_job_vary_access_size-AreLaidOut}
use hlfs.Driver.Data.{study}
use hlfs.Driver.Data.Released.{IsWorking, Left, study-Left}
use hlfs.Tests.PmemMap.{all_succeed, screen}
use hlfs.Tests.Driver.{flags_set}

main_job_vary_thread_num-OnlyFirstIsLaidOut_example :
    Returns OnlyFirstIsLaidOut (main_job_vary_thread_num flags_set)
main_job_vary_thread_num-OnlyFirstIsLaidOut_example =
    main_job_vary_thread_num-OnlyFirstIsLaidOut flags_set 6 (omega arith) (omega arith) refl
      (omega arith)

main_job_vary_access_size-AreLaidOut_example :
    Returns (AreLaidOut 4) (main_job_vary_access_size (record flags_set { buffer_size = 65536 }))
main_job_vary_access_size-AreLaidOut_example =
    main_job_vary_access_size-AreLaidOut (record flags_set { buffer_size = 65536 })
      (record {
        whole = omega arith;
        some_threads = omega arith;
        buffers = omega arith;
        least = omega arith;
      })

-- A buffer of 1024 bytes, of a single thread, has no slot of 2048.
no_slots : main_job_vary_access_size (record flags_set { thread_num = 1 }) ≡ none
unfolding main_job_vary_access_size vary_access_rounds vary_access_round init_global_cfg bit_fls bsr
no_slots = refl

works : IsWorking all_succeed
works = record {
  created = λ r. refl;
  opened = λ r. refl;
  truncated = λ n r. refl;
  allocated = λ n r. refl;
  config = λ r. refl;
  source = λ r. refl;
  granularity = λ r. refl;
  map_new = λ r. refl;
  map_delete = λ r. refl;
}

abbrev two_rounds : List (ℕ × ℕ)
two_rounds = (2, 3) ∷ (4, 5) ∷ []

study-Left_example :
    Returns
      (Left all_succeed works (length two_rounds * 4) screen)
      (study all_succeed 4 two_rounds screen)
study-Left_example = study-Left all_succeed works 4 two_rounds screen
