-- ===== src/Driver/Analyze.antt =====
-- bgtest/AEP/aep_study.cc: what a run reports of the times that it has measured. `std::sort` is an
-- insertion sort here, and what is computed in `double` is a parameter. That the data itself is left
-- sorted is not followed.
pub mod Sort
pub mod Ranks
pub mod Order
use hlfs.Common.{
  ℕ, zero, suc, ◌+◌, ◌-◌, ◌*◌, ◌/◌, ◌%◌, ◌^◌, true, false, Option, none, some, List, [], ◌∷◌, ◌==◌,
  leb, ltb, if◌then◌else◌, ◌>>=◌, ◌++◌, take, drop, length, get_elem?,
}

-- `(uint64_t)((double)n * 0.99)` and the like, and the bits of the bandwidth.
pub record Doubles : Type 0 where
  pub at_99 : ℕ → ℕ
  pub at_99_9 : ℕ → ℕ
  pub at_99_99 : ℕ → ℕ
  pub at_99_999 : ℕ → ℕ
  pub bandwidth : (access_size iters thread_num run_total_time : ℕ) → ℕ

pub record AnalyzeResult : Type 0 where
  pub total_time : ℕ
  pub total_cal : ℕ
  pub bandwidth : ℕ
  pub avg_lat : ℕ
  pub avg_lat_from_cal : ℕ
  pub min_lat : ℕ
  pub max_lat : ℕ
  pub p50 : ℕ
  pub p99 : ℕ
  pub p99_9 : ℕ
  pub p99_99 : ℕ
  pub p99_999 : ℕ

-- `memset(result, 0, …)`
abbrev pub zeros : AnalyzeResult
zeros = record {
  total_time = 0;
  total_cal = 0;
  bandwidth = 0;
  avg_lat = 0;
  avg_lat_from_cal = 0;
  min_lat = 0;
  max_lat = 0;
  p50 = 0;
  p99 = 0;
  p99_9 = 0;
  p99_99 = 0;
  p99_999 = 0;
}

unfoldable pub insert : ℕ → List ℕ → List ℕ
insert x [] = x ∷ []
insert x (y ∷ ys) = elim (leb x y) [ true ↦ x ∷ y ∷ ys | false ↦ y ∷ insert x ys ]

unfoldable pub sort : List ℕ → List ℕ
unfolding insert
sort [] = []
sort (x ∷ xs) = insert x (sort xs)

-- `std::sort(data, data + n)`
unfoldable pub sort_first : (n : ℕ) → List ℕ → List ℕ
unfolding sort
sort_first n data_ = sort (take n data_) ++ drop n data_

-- `for (int i = 0; …; ++i) sum_time += data[i]`, in 64 bits: `n` rounds from `i` on, of what lies from
-- `data[i]` on. A `none` is an entry behind the data, or an overflow of `i`.
unfoldable pub sum_from : (sum_time n i : ℕ) → List ℕ → Option ℕ
sum_from sum_time zero i data_ = some sum_time
sum_from sum_time (suc n) i [] = none
sum_from sum_time (suc n) i (x ∷ xs) = elim (ltb i (2 ^ 31 - 1)) [
  | true ↦ sum_from ((sum_time + x) % 2 ^ 64) n (suc i) xs
  | false ↦ none
]

-- The fields that are read off the sorted data; `none` is an index behind them.
unfoldable pub ranks : Doubles → (n : ℕ) → (sorted : List ℕ) → AnalyzeResult → Option AnalyzeResult
ranks d n sorted r = do
  min_lat ← get_elem? sorted 0
  max_lat ← get_elem? sorted (n - 1)
  p50 ← get_elem? sorted (n / 2)
  p99 ← get_elem? sorted (d.at_99 n)
  p99_9 ← get_elem? sorted (d.at_99_9 n)
  p99_99 ← get_elem? sorted (d.at_99_99 n)
  p99_999 ← get_elem? sorted (d.at_99_999 n)
  some (record r {
    min_lat = min_lat;
    max_lat = max_lat;
    p50 = p50;
    p99 = p99;
    p99_9 = p99_9;
    p99_99 = p99_99;
    p99_999 = p99_999;
  })

-- `Analyze` on the data of a thread, of which it takes the first `iters` entries. The fields hold 32 bits; `/` by 0 traps.
unfoldable pub analyze :
    Doubles
    → (access_size iters : ℕ) → List ℕ
    → (run_total_time thread_num : ℕ) → Option AnalyzeResult
analyze d access_size iters times run_total_time thread_num =
    sum_from 0 iters 0 times >>= λ sum_time.
    let r = record zeros {
      total_time = run_total_time % 2 ^ 32;
      total_cal = sum_time % 2 ^ 32;
      bandwidth = d.bandwidth access_size iters thread_num run_total_time;
    } in
    if thread_num == 1
    then (if iters == 0
        then none
        else ranks d iters (sort_first iters times) (record r {
          avg_lat = run_total_time / iters % 2 ^ 32;
          avg_lat_from_cal = sum_time / iters % 2 ^ 32;
        }))
    else some r

-- `AnalyzeForCachelineFlush` on the first `num` entries of the data from the middle of a run on
unfoldable pub analyze_for_cacheline_flush :
    Doubles → (num : ℕ) → List ℕ → (thread_num : ℕ) → Option AnalyzeResult
analyze_for_cacheline_flush d num times thread_num = sum_from 0 num 0 times >>= λ sum_time.
    let r = record zeros { total_cal = sum_time % 2 ^ 32 } in
    if thread_num == 1
    then (if num == 0
        then none
        else ranks d num (sort_first num times)
            (record r { avg_lat_from_cal = sum_time / num % 2 ^ 32 }))
    else some r
