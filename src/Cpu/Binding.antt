-- ===== src/Cpu/Binding.antt =====
-- A thread that has bound itself finds its core.
use hlfs.Common.{
  ℕ, zero, suc, ◌+◌, ◌≤◌, ◌<◌, ◌≡◌, ◌⊎◌, inl, inr, refl, ap, ◌∙◌, true, false, ◌&&◌, [], ◌∷◌, ◌==◌,
  ltb, arith, Bool-cases,
}
use hlfs.Cpu.{
  CpuSet, cpu_zero, cpu_set, cpu_setsize, Affinity, cores_of, core_bind, core_bind_query,
}

-- What the manual pages say. A mask that is set is cut to the cores that there are, of which it must
-- have one; it is then the mask of that thread.
pub record IsLawful (a : Affinity) : Type 0 where
  pub online : CpuSet
  pub some_core :
      (t : ℕ) (m : CpuSet) (os : a.Os)
      → (a.set t m os).0 ≡ 0
      → (i : ℕ) × (i < cpu_setsize) × (m i ≡ true) × (online i ≡ true)
  pub get-set :
      (t : ℕ) (m : CpuSet) (os : a.Os) (i : ℕ)
      → (a.set t m os).0 ≡ 0
      → (a.get t (a.set t m os).1).0 ≡ 0
      → (a.get t (a.set t m os).1).1 i ≡ (m i && online i)

-- A set of one core.
cores_of-none :
    (s : CpuSet) (id n i : ℕ)
    → ((j : ℕ) → s j ≡ (j == id))
    → (id < i) ⊎ (i + n ≤ id)
    → cores_of s n i ≡ []
unfolding cores_of
cores_of-none s id zero i only out = refl
cores_of-none s id (suc n) i only out =
    let miss : (i == id) ≡ false = ground (arith, out) in
    rw (only i ∙ miss) (cores_of-none s id n (suc i) only (omega (arith, out)))

cores_of-one :
    (s : CpuSet) (id n i : ℕ)
    → ((j : ℕ) → s j ≡ (j == id))
    → i ≤ id
    → id < i + n
    → cores_of s n i ≡ id ∷ []
unfolding cores_of
cores_of-one s id zero i only low high = absurd (omega arith)
cores_of-one s id (suc n) i only low high = elim (Bool-cases (i == id)) [
  | inl e ↦
      let same : i ≡ id = ground arith in
      rw (only i ∙ e, cores_of-none s id n (suc i) only (inl (omega (arith, same))), same) refl
  | inr e ↦ rw (only i ∙ e) (cores_of-one s id n (suc i) only (ground arith) (omega arith))
]

only_core :
    (online : CpuSet) (id j : ℕ)
    → id < cpu_setsize
    → online id ≡ true
    → (cpu_set id cpu_zero j && online j) ≡ (j == id)
only_core online id j lt there = elim (Bool-cases (j == id)) [
  | inr e ↦ rw e refl
  | inl e ↦
      let same : j ≡ id = ground arith in
      let fits : ltb id cpu_setsize ≡ true = ground arith in
      let there' : online j ≡ true = ap online same ∙ there in rw (e, fits, there') refl
]

module _ (a : Affinity) (lawful : IsLawful a) where
  bound_to :
      (t core_id : ℕ) (os : a.Os)
      → (a.set t (cpu_set core_id cpu_zero) os).0 ≡ 0
      → (a.get t (a.set t (cpu_set core_id cpu_zero) os).1).0 ≡ 0
      → (core_id < cpu_setsize)
        × ((j : ℕ) → (a.get t (a.set t (cpu_set core_id cpu_zero) os).1).1 j ≡ (j == core_id))
  bound_to t core_id os ok asked =
      let (i, lt, set, there) = lawful.some_core t (cpu_set core_id cpu_zero) os ok in
      let same : i ≡ core_id = ground (arith, set) in
      let online : lawful.online core_id ≡ true = rw same at there in
      (
        omega (arith, same),
        λ j.
            lawful.get-set t (cpu_set core_id cpu_zero) os j ok asked
            ∙ only_core lawful.online core_id j (omega (arith, lt, same)) online,
      )

  -- Where a mask that is set is cut to the cores that there are, and must have one of them, and is
  -- then the mask that the kernel gives where it can be asked for: once CoreBind has returned true
  -- for the calling thread, and the kernel gives the mask of that thread, CoreBindQuery, whatever
  -- thread it is asked for, lists the core and no other.
  pub core_bind_query-core_bind :
      (self t core_id : ℕ) (os : a.Os)
      → (core_bind a self core_id os).0 ≡ true
      → (a.get self (core_bind a self core_id os).1).0 ≡ 0
      → core_bind_query a self t (core_bind a self core_id os).1 ≡ core_id ∷ []
  unfolding core_bind core_bind_query
  core_bind_query-core_bind self t core_id os bound asked =
      let ok : (a.set self (cpu_set core_id cpu_zero) os).0 ≡ 0 = ground (arith, bound) in
      let (fits, only) = bound_to self core_id os ok asked in
      cores_of-one _ core_id cpu_setsize 0 only (omega arith) (omega arith)
