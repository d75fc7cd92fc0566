-- ===== src/Driver/Analyze/Sort.antt =====
-- The sort.
use hlfs.Common.{
  ℕ, zero, suc, ◌≤◌, ◌≡◌, refl, ap, ◌∙◌, inl, inr, some, List, [], ◌∷◌, leb, arith, length,
  get_elem?, Bool-cases,
}
use hlfs.Driver.Analyze.{insert, sort}

-- Each element is at least `a`; each is at most every later one.
abbrev pub AllAtLeast : ℕ → List ℕ → Type 0
AllAtLeast a [] = Unit
AllAtLeast a (x ∷ xs) = (a ≤ x) × AllAtLeast a xs

abbrev pub IsSorted : List ℕ → Type 0
IsSorted [] = Unit
IsSorted (x ∷ xs) = AllAtLeast x xs × IsSorted xs

AllAtLeast-le : (a b : ℕ) (xs : List ℕ) → a ≤ b → AllAtLeast b xs → AllAtLeast a xs
AllAtLeast-le a b [] le h = tt
AllAtLeast-le a b (x ∷ xs) le h = (omega (arith, h.0), AllAtLeast-le a b xs le h.1)

insert-AllAtLeast : (a x : ℕ) (xs : List ℕ) → a ≤ x → AllAtLeast a xs → AllAtLeast a (insert x xs)
unfolding insert
insert-AllAtLeast a x [] le h = (le, tt)
insert-AllAtLeast a x (y ∷ ys) le h = elim (Bool-cases (leb x y)) [
  | inl e ↦ rw (e, insert) (le, h)
  | inr e ↦ rw (e, insert) (h.0, insert-AllAtLeast a x ys le h.1)
]

insert-IsSorted : (x : ℕ) (xs : List ℕ) → IsSorted xs → IsSorted (insert x xs)
unfolding insert
insert-IsSorted x [] h = (tt, tt)
insert-IsSorted x (y ∷ ys) h = elim (Bool-cases (leb x y)) [
  | inl e ↦ let le : x ≤ y = ground arith in rw (e, insert) ((le, AllAtLeast-le x y ys le h.0), h)
  | inr e ↦ rw (e, insert) (insert-AllAtLeast y x ys (ground arith) h.0, insert-IsSorted x ys h.1)
]

pub sort-IsSorted : (xs : List ℕ) → IsSorted (sort xs)
unfolding sort
sort-IsSorted [] = tt
sort-IsSorted (x ∷ xs) = insert-IsSorted x (sort xs) (sort-IsSorted xs)

length-insert : (x : ℕ) (xs : List ℕ) → length (insert x xs) ≡ suc (length xs)
unfolding insert length
length-insert x [] = refl
length-insert x (y ∷ ys) = elim (Bool-cases (leb x y)) [
  | inl e ↦ rw (e, insert)
  | inr e ↦ rw (e, insert) (ap suc (length-insert x ys))
]

pub length-sort : (xs : List ℕ) → length (sort xs) ≡ length xs
unfolding sort length
length-sort [] = refl
length-sort (x ∷ xs) = length-insert x (sort xs) ∙ ap suc (length-sort xs)

-- In a sorted list an earlier element is at most a later one.
get_elem?-AllAtLeast :
    (a : ℕ) (xs : List ℕ) (i : ℕ) {v : ℕ} → AllAtLeast a xs → get_elem? xs i ≡ some v → a ≤ v
unfolding get_elem?
get_elem?-AllAtLeast a [] i h e = ground (arith, e)
get_elem?-AllAtLeast a (x ∷ xs) zero h e = ground (arith, e, h.0)
get_elem?-AllAtLeast a (x ∷ xs) (suc i) h e = get_elem?-AllAtLeast a xs i h.1 e

pub get_elem?-IsSorted :
    (xs : List ℕ) (i j : ℕ) {v w : ℕ}
    → IsSorted xs
    → i ≤ j
    → get_elem? xs i ≡ some v
    → get_elem? xs j ≡ some w
    → v ≤ w
unfolding get_elem?
get_elem?-IsSorted [] i j h le e e' = ground (arith, e)
get_elem?-IsSorted (x ∷ xs) zero zero h le e e' = ground (arith, e, e')
get_elem?-IsSorted (x ∷ xs) zero (suc j) {w} h le e e' =
    let first = get_elem?-AllAtLeast x xs j h.0 e' in ground (arith, e, first)
get_elem?-IsSorted (x ∷ xs) (suc i) zero h le e e' = absurd (omega arith)
get_elem?-IsSorted (x ∷ xs) (suc i) (suc j) h le e e' =
    get_elem?-IsSorted xs i j h.1 (omega arith) e e'
