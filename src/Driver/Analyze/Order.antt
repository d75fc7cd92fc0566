-- ===== src/Driver/Analyze/Order.antt =====
-- What Analyze reports does not depend on the order of the times.
use mathlib.Core.List.{Perm}
use mathlib.Core.List.Permᴰ.{Permᴰ, nil, cons, swap, trans}
use mathlib.Core.Logic.{∥∥₁_elim}
use hlfs.Common.{
  ℕ, ◌+◌, ◌≤◌, ◌<◌, ◌≡◌, refl, sym, ap, ◌∙◌, inl, inr, List, [], ◌∷◌, leb, ltb, ◌==◌, ◌⊎◌, ◌^◌, suc,
  length, arith, Bool-cases,
}
use hlfs.Driver.Analyze.{Doubles, insert, sort, analyze}
use hlfs.Driver.Analyze.Ranks.{total, sum_from-total, sort_first-sort}

insert_first : (x y : ℕ) (l : List ℕ) → x ≤ y → insert x (y ∷ l) ≡ x ∷ y ∷ l
unfolding insert
insert_first x y l le = ground arith

insert_later : (x y : ℕ) (l : List ℕ) → y < x → insert x (y ∷ l) ≡ y ∷ insert x l
unfolding insert
insert_later x y l lt = ground arith

insert_comm_lt : (x y : ℕ) (l : List ℕ) → x < y → insert x (insert y l) ≡ insert y (insert x l)
unfolding insert
insert_comm_lt x y [] lt = rw (insert_first x y [] (omega arith), insert_later y x [] lt) refl
insert_comm_lt x y (z ∷ l) lt = elim (Bool-cases (leb y z)) [
  | inl e ↦
      rw
        (
          insert_first y z l (ground arith),
          insert_first x y (z ∷ l) (omega arith),
          insert_first x z l (ground arith),
          insert_later y x (z ∷ l) lt,
          insert_first y z l (ground arith),
        )
        refl
  | inr e ↦ elim (Bool-cases (leb x z)) [
    | inl f ↦
        rw
          (
            insert_later y z l (ground arith),
            insert_first x z (insert y l) (ground arith),
            insert_first x z l (ground arith),
            insert_later y x (z ∷ l) lt,
            insert_later y z l (ground arith),
          )
          refl
    | inr f ↦
        rw
          (
            insert_later y z l (ground arith),
            insert_later x z (insert y l) (ground arith),
            insert_later x z l (ground arith),
            insert_later y z (insert x l) (ground arith),
          )
          (ap (λ l. z ∷ l) (insert_comm_lt x y l lt))
  ]
]

compare-cases : (x y : ℕ) → (x < y) ⊎ ((x ≡ y) ⊎ (y < x))
compare-cases x y = elim (Bool-cases (ltb x y)) [
  | inl e ↦ inl (ground arith)
  | inr e ↦ elim (Bool-cases (x == y)) [
    | inl f ↦ inr (inl (ground arith))
    | inr f ↦ inr (inr (ground arith))
  ]
]

insert_comm : (x y : ℕ) (l : List ℕ) → insert x (insert y l) ≡ insert y (insert x l)
insert_comm x y l = elim (compare-cases x y) [
  | inl lt ↦ insert_comm_lt x y l lt
  | inr (inl e) ↦ rw e refl
  | inr (inr gt) ↦ sym (insert_comm_lt y x l gt)
]

sort-Permᴰ : {xs ys : List ℕ} → Permᴰ xs ys → sort xs ≡ sort ys
unfolding sort
sort-Permᴰ nil = refl
sort-Permᴰ (cons {l₁} {l₂} e d) = rw (e, sort-Permᴰ d) refl
sort-Permᴰ (swap {a} {b} {l} e e') = rw (sym e, sym e') (insert_comm a b (sort l))
sort-Permᴰ (trans d d') = sort-Permᴰ d ∙ sort-Permᴰ d'

total-Permᴰ : {xs ys : List ℕ} → Permᴰ xs ys → (total xs ≡ total ys) × (length xs ≡ length ys)
unfolding length
total-Permᴰ nil = (refl, refl)
total-Permᴰ (cons {b} {l₁} e d) = let k = total-Permᴰ d in rw e (ap (λ n. b + n) k.0, ap suc k.1)
total-Permᴰ (swap {a} {b} {l} e e') = rw (sym e, sym e') (omega arith, refl)
total-Permᴰ (trans d d') =
    let k = total-Permᴰ d in let k' = total-Permᴰ d' in (k.0 ∙ k'.0, k.1 ∙ k'.1)

-- Analyze, on data that holds `iters` times, fewer than `2 ^ 31`, gives the same result on every
-- permutation of them.
pub analyze-Perm :
    (d : Doubles) (access_size iters run_total_time thread_num : ℕ) {times times' : List ℕ}
    → length times ≡ iters
    → iters < 2 ^ 31
    → Perm times times'
    → analyze d access_size iters times run_total_time thread_num
      ≡ analyze d access_size iters times' run_total_time thread_num
unfolding analyze
analyze-Perm d access_size iters run_total_time thread_num {times} {times'} l few p =
    ∥∥₁_elim p (hlevel) (λ p'.
      let k = total-Permᴰ p' in
      let l' : length times' ≡ iters = sym k.1 ∙ l in
      rw
        (
          sum_from-total 0 iters 0 times l (omega arith) (omega arith),
          sum_from-total 0 iters 0 times' l' (omega arith) (omega arith),
          sort_first-sort iters times l,
          sort_first-sort iters times' l',
          sort-Permᴰ p',
          k.0,
        )
        refl)
