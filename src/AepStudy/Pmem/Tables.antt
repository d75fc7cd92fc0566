-- ===== src/AepStudy/Pmem/Tables.antt =====
-- The tables of operations that a run of the study goes through.
use Prim.Native.String.{String}
use mathlib.Core.Option.{some-injective}
use hlfs.Common.{
  ℕ, zero, suc, ◌+◌, ◌-◌, ◌%◌, ◌^◌, ◌≤◌, ◌<◌, ◌≡◌, refl, none, some, arith, Returns, ltb, length,
  get_elem?, get_elem?-in_range, ◌⊎◌, inl, inr, Bool-cases,
}
use hlfs.Machine.{State}
use hlfs.Machine.Wrote.{Mapped}
use hlfs.AepJust.Read.{Same}
use hlfs.AepStudy.{AepOpFn, aep_read_baseline}
use hlfs.AepStudy.OneWay.{JustRead, by_load, by_ntload, read_fn, read_fn-Same}
use hlfs.AepStudy.Pmem.{
  Pmem2, RwType, read, write, cpy, memset, funcs, labels, get_sub_op_num, get_op_fn, get_op_label,
}

-- As many labels as operations.
same_length : (p : Pmem2) (t : RwType) → length (labels t) ≡ length (funcs p t)
unfolding length
same_length p read = refl
same_length p write = refl
same_length p cpy = refl
same_length p memset = refl

-- For each kind of operation, below the number that GetSubOpNum gives GetOpFn returns an operation
-- and GetOpLabel a label; from that number on both abort.
pub get_op_fn-get_op_label :
    (p : Pmem2) (t : RwType) (n : ℕ)
    → ((n < get_sub_op_num p t)
        × ((f : AepOpFn) × (get_op_fn p t n ≡ some f))
        × ((l : String) × (get_op_label p t n ≡ some l)))
      ⊎ ((get_sub_op_num p t ≤ n) × (get_op_fn p t n ≡ none) × (get_op_label p t n ≡ none))
unfolding get_op_fn get_op_label get_sub_op_num
get_op_fn-get_op_label p t n = elim (Bool-cases (ltb n (length (funcs p t)))) [
  | inl e ↦
      let lt : n < length (funcs p t) = ground arith in
      let op = get_elem?-in_range (funcs p t) n lt in
      let label = get_elem?-in_range (labels t) n (omega (arith, same_length p t)) in
      inl (lt, rw e op, rw e label)
  | inr e ↦ inr (ground arith, rw e, rw e)
]

-- Every operation that GetOpFn gives for reading, on a source whose pages are present, returns the
-- time between its two readings and leaves memory, the cache and the pages as they were.
pub get_op_fn-read-Same :
    (p : Pmem2) (n : ℕ) (f : AepOpFn) {s : State} (start end dest src len : ℕ)
    → get_op_fn p read n ≡ some f
    → Mapped s src len
    → Returns
        (λ q. (q.0 ≡ (end + 2 ^ 64 - start) % 2 ^ 64) × Same s q.1)
        (f start end dest src len s)
unfolding get_op_fn get_sub_op_num length get_elem? read_fn aep_read_baseline
get_op_fn-read-Same p n f {s} start end dest src len chosen from = elim (table n chosen) [
  | inl e ↦
      rw (← e)
        (_, refl, (refl, record { mem = λ x. refl; status = λ x. refl; present = λ q. refl }))
  | inr (r, e) ↦ rw (← e) (read_fn-Same r start end dest src len from)
]
  where
    table :
        (n : ℕ)
        → get_op_fn p read n ≡ some f
        → (aep_read_baseline ≡ f) ⊎ ((r : JustRead) × (read_fn r ≡ f))
    table zero e = inl (some-injective _ _ e)
    table (suc zero) e = inr (by_load, some-injective _ _ e)
    table (suc (suc zero)) e = inr (by_ntload, some-injective _ _ e)
    table (suc (suc (suc n))) e = ground (arith, e)
