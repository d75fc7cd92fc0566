-- ===== src/Tests/Cpu.antt =====
-- Threads on a machine of four cores, and a clock.
use hlfs.Common.{
  ℕ, ◌+◌, ◌-◌, ◌%◌, ◌^◌, ◌≡◌, refl, inl, inr, true, false, ◌&&◌, ◌||◌, [], ◌∷◌, ◌==◌, ltb,
  if◌then◌else◌, arith, Bool-cases,
}
use hlfs.Cpu.{CpuSet, Affinity, core_bind, core_bind_query, get_ts_nsec}
use hlfs.Cpu.Binding.{IsLawful, core_bind_query-core_bind}
use hlfs.Cpu.Clock.{get_ts_nsec-elapsed}

-- The masks of the threads. A mask without one of the two cores is refused.
abbrev bound : (t : ℕ) → CpuSet → (ℕ → CpuSet) → ℕ → CpuSet
bound t m os u = if u == t then (λ i. m i && ltb i 2) else os u

abbrev two : Affinity
two = record {
  Os = ℕ → CpuSet;
  set = λ t m os. if m 0 || m 1 then (0, bound t m os) else (22, os);
  get = λ t os. (0, os t);
}

taken : (t : ℕ) (m : CpuSet) (os : two.Os) → (two.set t m os).0 ≡ 0 → (m 0 || m 1) ≡ true
taken t m os e = ground (arith, e)

two_IsLawful : IsLawful two
two_IsLawful = record {
  online = λ i. ltb i 2;
  some_core = λ t m os ok. elim (Bool-cases (m 0)) [
    | inl e ↦ (0, omega arith, e, refl)
    | inr e ↦ (1, omega arith, ground (arith, e, taken t m os ok), refl)
  ];
  get-set = λ t m os i ok asked.
      let self : (t == t) ≡ true = ground arith in rw (taken t m os ok, self) refl;
}

core_1 : (core_bind two 7 1 (λ t i. true)).0 ≡ true
unfolding core_bind
core_1 = refl

core_bind_query-core_bind_example :
    core_bind_query two 7 3 (core_bind two 7 1 (λ t i. true)).1 ≡ 1 ∷ []
core_bind_query-core_bind_example =
    core_bind_query-core_bind two two_IsLawful 7 3 1 (λ t i. true) core_1 refl

-- The core 4 is not there.
no_core : (core_bind two 7 4 (λ t i. true)).0 ≡ false
unfolding core_bind
no_core = refl

get_ts_nsec-elapsed_example : (get_ts_nsec 11 5 + 2 ^ 64 - get_ts_nsec 10 999999999) % 2 ^ 64 ≡ 6
get_ts_nsec-elapsed_example = get_ts_nsec-elapsed 10 999999999 11 5 6 refl (omega arith)
