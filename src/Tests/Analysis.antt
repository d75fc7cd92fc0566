-- ===== src/Tests/Analysis.antt =====
-- The analysis of five times, with the indices of the percentiles rounded down.
use mathlib.Core.List.Perm
use hlfs.Common.{ℕ, ◌≡◌, ◌≤◌, ◌*◌, ◌/◌, refl, arith, List, [], ◌∷◌, Returns, length}
use hlfs.Driver.Analyze.{Doubles, analyze}
use hlfs.Driver.Analyze.Ranks.{IsRanked, AllWords, analyze-IsRanked}
use hlfs.Driver.Analyze.Order.{analyze-Perm}

abbrev exact : Doubles
exact = record {
  at_99 = λ n. n * 99 / 100;
  at_99_9 = λ n. n * 999 / 1000;
  at_99_99 = λ n. n * 9999 / 10000;
  at_99_999 = λ n. n * 99999 / 100000;
  bandwidth = λ a i t r. 0;
}

abbrev times : List ℕ
times = 210 ∷ 180 ∷ 950 ∷ 200 ∷ 185 ∷ []

five_times : length times ≡ 5
unfolding length
five_times = refl

times-AllWords : AllWords times
times-AllWords = (omega arith, (omega arith, (omega arith, (omega arith, (omega arith, tt)))))

analyze-IsRanked_example :
    Returns
      (λ r.
        IsRanked 5 times r × (r.min_lat ≤ r.avg_lat_from_cal) × (r.avg_lat_from_cal ≤ r.max_lat))
      (analyze exact 64 5 times 2000 1)
analyze-IsRanked_example =
    analyze-IsRanked exact 64 5 times 2000 five_times (omega arith) times-AllWords (record {
      at-p99 = omega arith;
      p99-p99_9 = omega arith;
      p99_9-p99_99 = omega arith;
      p99_99-p99_999 = omega arith;
      in_range = omega arith;
    })

analyze-Perm_example :
    analyze exact 64 5 times 2000 1 ≡ analyze exact 64 5 (180 ∷ 210 ∷ 950 ∷ 200 ∷ 185 ∷ []) 2000 1
analyze-Perm_example =
    analyze-Perm exact 64 5 2000 1 five_times (omega arith)
      (Perm.swap 180 210 (950 ∷ 200 ∷ 185 ∷ []))
