-- ===== src/Driver/Analyze/Ranks.antt =====
-- What Analyze reports, against the times themselves.
use native.Mathlib.Nat.{le-div_iff_mul-le, div-le_of_le-mul}
use hlfs.Common.{
  ℕ, zero, suc, ◌+◌, ◌-◌, ◌*◌, ◌/◌, ◌%◌, ◌^◌, ◌≤◌, ◌<◌, ◌≡◌, refl, ap, ◌∙◌, inl, inr, true, some,
  ltb, take, drop, ◌++◌, List, [], ◌∷◌, leb, false, arith, length, get_elem?, get_elem?-in_range,
  Bool-cases, Returns, mono, ◌==◌,
}
use hlfs.Driver.Analyze.{Doubles, AnalyzeResult, insert, sort, sort_first, sum_from, ranks, analyze}
use hlfs.Driver.Analyze.Sort.{IsSorted, AllAtLeast, sort-IsSorted, length-sort, get_elem?-IsSorted}

abbrev pub total : List ℕ → ℕ
total [] = 0
total (x ∷ xs) = x + total xs

-- Of data that holds no more entries, all are summed and all are sorted.
pub sum_from-total :
    (acc n i : ℕ) (xs : List ℕ)
    → length xs ≡ n
    → i + n < 2 ^ 31
    → acc < 2 ^ 64
    → sum_from acc n i xs ≡ some ((acc + total xs) % 2 ^ 64)
unfolding sum_from length
sum_from-total acc zero i [] l few lt = ap some (omega arith)
sum_from-total acc zero i (x ∷ xs) l few lt = absurd (omega (arith, l))
sum_from-total acc (suc n) i [] l few lt = absurd (omega (arith, l))
sum_from-total acc (suc n) i (x ∷ xs) l few lt =
    let fits : ltb i (2 ^ 31 - 1) ≡ true = ground arith in
    rw (fits, sum_from)
      (sum_from-total ((acc + x) % 2 ^ 64) n (suc i) xs (omega (arith, l)) (omega arith)
          (omega arith)
        ∙ ap some (omega arith))

take-length : (n : ℕ) (xs : List ℕ) → length xs ≡ n → (take n xs ≡ xs) × (drop n xs ≡ [])
unfolding length
take-length zero [] l = (refl, refl)
take-length zero (x ∷ xs) l = absurd (omega (arith, l))
take-length (suc n) [] l = absurd (omega (arith, l))
take-length (suc n) (x ∷ xs) l =
    let k = take-length n xs (omega (arith, l)) in (ap (λ t. x ∷ t) k.0, k.1)

append_nil : (xs : List ℕ) → xs ++ [] ≡ xs
append_nil [] = refl
append_nil (x ∷ xs) = ap (λ t. x ∷ t) (append_nil xs)

pub sort_first-sort : (n : ℕ) (xs : List ℕ) → length xs ≡ n → sort_first n xs ≡ sort xs
unfolding sort_first
sort_first-sort n xs l = let k = take-length n xs l in rw (k.0, k.1) (append_nil (sort xs))

total-insert : (x : ℕ) (xs : List ℕ) → total (insert x xs) ≡ x + total xs
unfolding insert
total-insert x [] = refl
total-insert x (y ∷ ys) = elim (Bool-cases (leb x y)) [
  | inl e ↦ rw (e, insert)
  | inr e ↦ rw (e, insert) (omega (arith, total-insert x ys))
]

total-sort : (xs : List ℕ) → total (sort xs) ≡ total xs
unfolding sort
total-sort [] = refl
total-sort (x ∷ xs) = total-insert x (sort xs) ∙ ap (λ n. x + n) (total-sort xs)

-- Each entry of the data is a 32-bit number.
abbrev pub AllWords : List ℕ → Type 0
AllWords [] = Unit
AllWords (x ∷ xs) = (x < 2 ^ 32) × AllWords xs

total-AllWords : (xs : List ℕ) → AllWords xs → total xs ≤ length xs * (2 ^ 32 - 1)
unfolding length
total-AllWords [] h = omega arith
total-AllWords (x ∷ xs) h = omega (arith, h.0, total-AllWords xs h.1)

total-AllAtLeast : (a : ℕ) (xs : List ℕ) → AllAtLeast a xs → length xs * a ≤ total xs
unfolding length
total-AllAtLeast a [] h = omega arith
total-AllAtLeast a (x ∷ xs) h = grind (arith, h.0, total-AllAtLeast a xs h.1)

total-first :
    (xs : List ℕ) {v : ℕ} → IsSorted xs → get_elem? xs 0 ≡ some v → length xs * v ≤ total xs
unfolding get_elem? length
total-first [] h e = ground (arith, e)
total-first (x ∷ xs) h e = grind (arith, e, total-AllAtLeast x xs h.0)

total-last :
    (xs : List ℕ) (n : ℕ) {v : ℕ}
    → IsSorted xs
    → length xs ≡ suc n
    → get_elem? xs n ≡ some v
    → total xs ≤ length xs * v
unfolding get_elem? length
total-last [] n h l e = ground (arith, e)
total-last (x ∷ []) zero h l e = ground (arith, e)
total-last (x ∷ []) (suc n) h l e = ground (arith, e)
total-last (x ∷ y ∷ ys) zero h l e = absurd (omega (arith, l))
total-last (x ∷ y ∷ ys) (suc n) {v} h l e =
    let first : x ≤ v = get_elem?-IsSorted (x ∷ y ∷ ys) 0 (suc n) h (omega arith) refl e in
    let rest : total (y ∷ ys) ≤ length (y ∷ ys) * v =
      total-last (y ∷ ys) n h.1 (omega (arith, l)) e in
    grind (arith, rest, first)

above_first :
    (times : List ℕ) (n : ℕ) {v : ℕ}
    → length times ≡ n
    → get_elem? (sort times) 0 ≡ some v
    → n * v ≤ total times
above_first times n l e =
    rw (length-sort times, l, total-sort times) at
      (total-first (sort times) (sort-IsSorted times) e)

below_last :
    (times : List ℕ) (n : ℕ) {v : ℕ}
    → length times ≡ n
    → 0 < n
    → get_elem? (sort times) (n - 1) ≡ some v
    → total times ≤ n * v
below_last times n l pos e =
    rw (length-sort times, l, total-sort times) at
      (total-last (sort times) (n - 1) (sort-IsSorted times) (omega (arith, length-sort times)) e)

-- How the ranks of a sorted list stand to one another and to its mean.
pub record IsRanked (n : ℕ) (times : List ℕ) (r : AnalyzeResult) : Type 0 where
  pub min-p50 : r.min_lat ≤ r.p50
  pub p50-p99 : r.p50 ≤ r.p99
  pub p99-p99_9 : r.p99 ≤ r.p99_9
  pub p99_9-p99_99 : r.p99_9 ≤ r.p99_99
  pub p99_99-p99_999 : r.p99_99 ≤ r.p99_999
  pub p99_999-max : r.p99_999 ≤ r.max_lat
  pub above_min : n * r.min_lat ≤ total times
  pub below_max : total times ≤ n * r.max_lat

-- The indices that `double` arithmetic gives.
pub record IsMonotone (d : Doubles) (n : ℕ) : Type 0 where
  pub at-p99 : n / 2 ≤ d.at_99 n
  pub p99-p99_9 : d.at_99 n ≤ d.at_99_9 n
  pub p99_9-p99_99 : d.at_99_9 n ≤ d.at_99_99 n
  pub p99_99-p99_999 : d.at_99_99 n ≤ d.at_99_999 n
  pub in_range : d.at_99_999 n < n

ranks_lem :
    (d : Doubles) (n : ℕ) (times : List ℕ) (r : AnalyzeResult)
    → length times ≡ n
    → IsMonotone d n
    → Returns
        (λ r'. (r'.avg_lat_from_cal ≡ r.avg_lat_from_cal) × IsRanked n times r')
        (ranks d n (sort times) r)
unfolding ranks
ranks_lem d n times r l m =
    let h : IsSorted (sort times) = sort-IsSorted times in
    let len : length (sort times) ≡ n = length-sort times ∙ l in
    let at : (i : ℕ) → i < n → (x : ℕ) × (get_elem? (sort times) i ≡ some x) =
      (λ i lt. get_elem?-in_range (sort times) i (omega (arith, len))) in
    let (x₀, e₀) = at 0 (omega (arith, m.in_range)) in
    let (x₁, e₁) = at (n - 1) (omega (arith, m.in_range)) in
    let a = m.at-p99 in
    let b = m.p99-p99_9 in
    let c = m.p99_9-p99_99 in
    let z = m.p99_99-p99_999 in
    let k = m.in_range in
    let (x₂, e₂) = at (n / 2) (omega arith) in
    let (x₃, e₃) = at (d.at_99 n) (omega arith) in
    let (x₄, e₄) = at (d.at_99_9 n) (omega arith) in
    let (x₅, e₅) = at (d.at_99_99 n) (omega arith) in
    let (x₆, e₆) = at (d.at_99_999 n) (omega arith) in
    (
      record r {
        min_lat = x₀;
        max_lat = x₁;
        p50 = x₂;
        p99 = x₃;
        p99_9 = x₄;
        p99_99 = x₅;
        p99_999 = x₆;
      },
      rw (e₀, e₁, e₂, e₃, e₄, e₅, e₆) refl,
      (
        refl,
        record {
          min-p50 = get_elem?-IsSorted _ _ _ h (omega arith) e₀ e₂;
          p50-p99 = get_elem?-IsSorted _ _ _ h m.at-p99 e₂ e₃;
          p99-p99_9 = get_elem?-IsSorted _ _ _ h m.p99-p99_9 e₃ e₄;
          p99_9-p99_99 = get_elem?-IsSorted _ _ _ h m.p99_9-p99_99 e₄ e₅;
          p99_99-p99_999 = get_elem?-IsSorted _ _ _ h m.p99_99-p99_999 e₅ e₆;
          p99_999-max = get_elem?-IsSorted _ _ _ h (omega (arith, m.in_range)) e₆ e₁;
          above_min = above_first times n l e₀;
          below_max = below_last times n l (omega arith) e₁;
        },
      ),
    )

-- The mean is not rounded out of the range, and the sum does not wrap.
mean_between :
    (n : ℕ) (times : List ℕ) (r : AnalyzeResult)
    → length times ≡ n
    → 0 < n
    → n < 2 ^ 32
    → AllWords times
    → r.avg_lat_from_cal ≡ (0 + total times) % 2 ^ 64 / n % 2 ^ 32
    → IsRanked n times r
    → (r.min_lat ≤ r.avg_lat_from_cal) × (r.avg_lat_from_cal ≤ r.max_lat)
mean_between n times r l pos small words e k =
    let sum : total times ≤ n * (2 ^ 32 - 1) = rw l at (total-AllWords times words) in
    let exact : (0 + total times) % 2 ^ 64 ≡ total times = omega (arith, sum) in
    let low : r.min_lat ≤ total times / n =
      (le-div_iff_mul-le pos).1 (grind (arith, k.above_min)) in
    let high : total times / n ≤ r.max_lat = div-le_of_le-mul n k.below_max in
    let word : total times / n ≤ 2 ^ 32 - 1 = div-le_of_le-mul n sum in
    let mean : r.avg_lat_from_cal ≡ total times / n = rw exact at e ∙ omega (arith, word) in
    (omega (arith, mean, low), omega (arith, mean, high))

-- Analyze, on the times of a single thread, `iters` of them, fewer than `2 ^ 31`, and each of 32
-- bits, returns, if the indices that it computes in `double` are in order and in range. The
-- minimum, the percentiles from 50 to 99.999 and the maximum are in order; `iters` times the
-- minimum is at most the sum of the times, and `iters` times the maximum at least; the mean is
-- between the minimum and the maximum.
pub analyze-IsRanked :
    (d : Doubles) (access_size iters : ℕ) (times : List ℕ) (run_total_time : ℕ)
    → length times ≡ iters
    → iters < 2 ^ 31
    → AllWords times
    → IsMonotone d iters
    → Returns
        (λ r.
          IsRanked iters times r
          × (r.min_lat ≤ r.avg_lat_from_cal)
          × (r.avg_lat_from_cal ≤ r.max_lat))
        (analyze d access_size iters times run_total_time 1)
unfolding analyze
analyze-IsRanked d access_size iters times run_total_time l small words m =
    let pos : 0 < iters = omega (arith, m.in_range) in
    let some_iters : (iters == 0) ≡ false = ground arith in
    rw
      (
        sum_from-total 0 iters 0 times l (omega arith) (omega arith),
        sort_first-sort iters times l,
        some_iters,
      )
      (mono (ranks_lem d iters times _ l m) (λ r k.
        let q = mean_between iters times r l pos (omega arith) words k.0 k.1 in (k.1, q.0, q.1)))
