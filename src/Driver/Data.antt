-- ===== src/Driver/Data.antt =====
-- bgtest/AEP/aep_study.cc: what a study maps and unmaps, of the device and of the files for the times.
-- A `none` is an abort of `log_assert`, or the exit of the report.
-- The texts of the report are left out.
pub mod Released
use hlfs.Common.{
  ℕ, zero, suc, ◌*◌, Bool, true, false, Option, none, some, List, [], ◌∷◌, if◌then◌else◌, ◌>>=◌,
}
use hlfs.Driver.Report.{Report, Io, report, report_sub_ops, destroy_report}
use hlfs.PmemMap.{
  Resources, Calls, close, open_and_alloc_at_size, pmem2_map_from_fd, pmem2_map, pmem2_un_map,
}

module _ (calls : Calls) where
  -- The constructor of RunData
  unfoldable pub run_data : (iters : ℕ) → Resources → Option Resources
  run_data iters r =
      let o = open_and_alloc_at_size calls (iters * 4) r in
      let m = pmem2_map_from_fd calls o.1 in
      if o.0 then (if m.0 then some (close m.1) else none) else none

  -- InitThreadContext, one for each of `threads`
  unfoldable pub init_run_data : (threads iters : ℕ) → Resources → Option Resources
  init_run_data zero iters r = some r
  init_run_data (suc threads) iters r = run_data iters r >>= λ u. init_run_data threads iters u

  -- DestroyThreadContext
  unfoldable pub destroy_run_data : (threads : ℕ) → Resources → Resources
  destroy_run_data zero r = r
  destroy_run_data (suc threads) r = destroy_run_data threads (pmem2_un_map calls r)

  -- The rounds of a study, by their `thread_num` and `iters`: each reports `ops` operations.
  unfoldable pub run_rounds : (ops : ℕ) → List (ℕ × ℕ) → Report → Io → Option Io
  run_rounds ops [] rep io = some io
  run_rounds ops (n ∷ ns) rep io = do
    r ← init_run_data n.0 n.1 io.open_ones
    let io₁ = report_sub_ops ops rep (record io { open_ones = r })
    run_rounds ops ns rep (record io₁ { open_ones = destroy_run_data n.0 io₁.open_ones })

  -- From InitGlobalCfg to DestroyGlobalCfg, and the end of main, which destroys the report
  unfoldable pub study : (ops : ℕ) → List (ℕ × ℕ) → Io → Option Io
  study ops ns io =
      let m = pmem2_map calls io.open_ones in
      if m.0
      then (do
        rep ← report calls false (record io { open_ones = m.1 })
        io₁ ← run_rounds ops ns rep.0 rep.1
        some (destroy_report rep.0 (record io₁ { open_ones = pmem2_un_map calls io₁.open_ones })))
      else none
