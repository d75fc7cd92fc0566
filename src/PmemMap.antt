-- ===== src/PmemMap.antt =====
-- util/aep.cc, and what it calls of util/file.cc: mapping a file as persistent memory, by what each
-- path acquires and releases. pmem2 and the operating system are parameters: whether a call succeeds.
pub mod Released
use hlfs.Common.{ℕ, zero, suc, ◌+◌, ◌-◌, Bool, true, false, ◌==◌, if◌then◌else◌}

-- What is open or allocated at a time.
pub record Resources : Type 0 where
  pub fds : ℕ
  pub configs : ℕ
  pub sources : ℕ
  pub maps : ℕ

-- The calls that may fail, each with the resources at the time and its size or nothing: `true` is
-- success.
pub record Calls : Type 0 where
  pub open_create : Resources → Bool
  pub open_simple : Resources → Bool
  pub ftruncate : (size : ℕ) → Resources → Bool
  pub posix_fallocate : (size : ℕ) → Resources → Bool
  pub pmem2_config_new : Resources → Bool
  pub pmem2_source_from_fd : Resources → Bool
  pub pmem2_config_set_required_store_granularity : Resources → Bool
  pub pmem2_map_new : Resources → Bool
  pub pmem2_map_delete : Resources → Bool

abbrev pub Result : Type 0
Result = Bool × Resources

abbrev pub close : Resources → Resources
close r = record r { fds = r.fds - 1 }

module _ (calls : Calls) where
  -- `true` where the source returns the descriptor, `false` where it returns -1
  unfoldable pub open_and_alloc_at_size : (size : ℕ) → Resources → Result
  open_and_alloc_at_size size r =
      let r₁ = record r { fds = r.fds + 1 } in
      if calls.open_create r
      then (if size == 0
          then (true, r₁)
          else if calls.ftruncate size r₁
          then (if calls.posix_fallocate size r₁ then (true, r₁) else (false, close r₁))
          else (false, close r₁))
      else (false, r)

  unfoldable pub open_simple : Resources → Result
  open_simple r = if calls.open_simple r then (true, record r { fds = r.fds + 1 }) else (false, r)

  -- `true` where the source returns the map, `false` where it returns a null pointer
  unfoldable pub pmem2_map_from_fd : Resources → Result
  pmem2_map_from_fd r =
      let r₁ = record r { configs = r.configs + 1 } in
      let r₂ = record r₁ { sources = r.sources + 1 } in
      let r₃ = record r₂ { maps = r.maps + 1 } in
      let r₄ = record r₃ { sources = r₃.sources - 1 } in
      if calls.pmem2_config_new r
      then (if calls.pmem2_source_from_fd r₁
          then (if calls.pmem2_config_set_required_store_granularity r₂
              then (if calls.pmem2_map_new r₂
                  then (true, record r₄ { configs = r₄.configs - 1 })
                  else (false, r₂))
              else (false, r₂))
          else (false, r₁))
      else (false, r)

  -- `map = Pmem2MapFromFd(fd); close(fd); return map;` behind either way to open
  abbrev pub map_and_close : Result → Result
  map_and_close (false, r) = (false, r)
  map_and_close (true, r) = let m = pmem2_map_from_fd r in (m.0, close m.1)

  unfoldable pub pmem2_map : Resources → Result
  unfolding open_simple
  pmem2_map r = map_and_close (open_simple r)

  unfoldable pub pmem2_map_and_truncate : (size : ℕ) → Resources → Result
  unfolding open_and_alloc_at_size
  pmem2_map_and_truncate size r = map_and_close (open_and_alloc_at_size size r)

  -- `Pmem2UnMap`, which does not look at what `pmem2_map_delete` returns
  unfoldable pub pmem2_un_map : Resources → Resources
  pmem2_un_map r = if calls.pmem2_map_delete r then record r { maps = r.maps - 1 } else r
