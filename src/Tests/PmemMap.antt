-- ===== src/Tests/PmemMap.antt =====
-- Mapping a file where every call succeeds, and where the last one fails.
use hlfs.Common.{◌≡◌, ◌⊎◌, refl, true, false}
use hlfs.Driver.Report.{Io}
use hlfs.PmemMap.{
  Resources, Calls, pmem2_map, pmem2_map_and_truncate, open_simple, open_and_alloc_at_size,
  pmem2_map_from_fd,
}
use hlfs.PmemMap.Released.{
  Gained, Lost, open_and_alloc_at_size-cases, pmem2_map-cases, pmem2_map_and_truncate-cases,
}

abbrev pub none_open : Resources
none_open = record { fds = 0; configs = 0; sources = 0; maps = 0 }

abbrev pub all_succeed : Calls
all_succeed = record {
  open_create = λ r. true;
  open_simple = λ r. true;
  ftruncate = λ n r. true;
  posix_fallocate = λ n r. true;
  pmem2_config_new = λ r. true;
  pmem2_source_from_fd = λ r. true;
  pmem2_config_set_required_store_granularity = λ r. true;
  pmem2_map_new = λ r. true;
  pmem2_map_delete = λ r. true;
}

abbrev pub screen : Io
screen = record { open_ones = none_open; stdout_open = true; on_stdout = 0; in_file = 0 }

abbrev map_fails : Calls
map_fails = record all_succeed { pmem2_map_new = λ r. false }

-- The configuration and the source stay behind.
leak : pmem2_map map_fails none_open ≡ (false, record none_open { configs = 1; sources = 1 })
unfolding pmem2_map open_simple pmem2_map_from_fd
leak = refl

pmem2_map-cases_example :
    Gained none_open (pmem2_map map_fails none_open)
    ⊎ Lost none_open (pmem2_map map_fails none_open)
pmem2_map-cases_example = pmem2_map-cases map_fails none_open

pmem2_map_and_truncate-cases_example :
    Gained none_open (pmem2_map_and_truncate all_succeed 4096 none_open)
    ⊎ Lost none_open (pmem2_map_and_truncate all_succeed 4096 none_open)
pmem2_map_and_truncate-cases_example = pmem2_map_and_truncate-cases all_succeed 4096 none_open

open_and_alloc_at_size-cases_example :
    (open_and_alloc_at_size all_succeed 4096 none_open ≡ (true, record none_open { fds = 1 }))
    ⊎ ((u : Resources) × (open_and_alloc_at_size all_succeed 4096 none_open ≡ (false, u))
        × ((u.fds ≡ 0) × (u.configs ≡ 0) × (u.sources ≡ 0) × (u.maps ≡ 0)))
open_and_alloc_at_size-cases_example = open_and_alloc_at_size-cases all_succeed 4096 none_open
