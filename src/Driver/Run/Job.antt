-- ===== src/Driver/Run/Job.antt =====
-- The loop of ThreadJob as steps of its thread.
use mathlib.Core.Path.{subst}
use mathlib.Core.Option.{some-injective, none-ne-some}
use hlfs.Common.{
  ℕ, zero, suc, ◌+◌, ◌≤◌, ◌<◌, ◌≡◌, ◌≢◌, refl, sym, ap, ◌∙◌, some, List, [], ◌∷◌, length, get_elem?,
  ◌==◌, true, false, arith, bind_inv,
}
use hlfs.Machine.{State}
use hlfs.Driver.Task.{Task, round, rounds}
use hlfs.Driver.Run.{System, Step, pick, Reach, here, later, update, stepped}

-- What `n` rounds of the thread `t` make of `u`.
pub record Ran (t n : ℕ) (times : List ℕ) (u w : System) : Type 0 where
  pub count : length times ≡ n
  pub next : w.next t ≡ u.next t + n
  pub others : (o : ℕ) → o ≢ t → w.next o ≡ u.next o
  pub before : (j : ℕ) → j < u.next t → w.data_ t j ≡ u.data_ t j
  pub measured : (j : ℕ) {v : ℕ} → get_elem? times j ≡ some v → w.data_ t (u.next t + j) ≡ v

pub update-same {ℓ} : {A : Type ℓ} (f : ℕ → A) (i : ℕ) (a : A) → update f i a i ≡ a
update-same f i a = let same : (i == i) ≡ true = ground arith in rw same refl

update-other {ℓ} : {A : Type ℓ} (f : ℕ → A) (i : ℕ) (a : A) (j : ℕ) → j ≢ i → update f i a j ≡ f j
update-other f i a j ne = let other : (j == i) ≡ false = ground (arith, ne) in rw other refl

Ran-first :
    {t n time : ℕ} {times : List ℕ} {st : State} {u w : System}
    → Ran t n times (stepped u t time st) w
    → Ran t (suc n) (time ∷ times) u w
unfolding get_elem? length
Ran-first {t} {n} {time} {times} {st} {u} {w} r = record {
  count = ap suc r.count;
  next = omega (arith, r.next, next);
  others = λ o ne. r.others o ne ∙ update-other u.next t (suc (u.next t)) o ne;
  before =
      λ j lt. earlier j (omega arith) ∙ update-other (u.data_ t) (u.next t) time j (omega arith);
  measured = measured;
}
  where
    next : update u.next t (suc (u.next t)) t ≡ suc (u.next t)
    next = update-same u.next t (suc (u.next t))

    earlier : (j : ℕ) → j < suc (u.next t) → w.data_ t j ≡ update (u.data_ t) (u.next t) time j
    earlier j lt =
        r.before j (omega (arith, next))
        ∙ ap (λ (f : ℕ → ℕ). f j) (update-same u.data_ t (update (u.data_ t) (u.next t) time))

    measured : (j : ℕ) {v : ℕ} → get_elem? (time ∷ times) j ≡ some v → w.data_ t (u.next t + j) ≡ v
    measured zero e =
        let first : u.next t + 0 ≡ u.next t = omega arith in
        rw first (
          earlier (u.next t) (omega arith)
          ∙ update-same (u.data_ t) (u.next t) time
          ∙ some-injective _ _ e)
    measured (suc j) e =
        let at : u.next t + suc j ≡ update u.next t (suc (u.next t)) t + j = omega (arith, next) in
        rw at (r.measured j e)

module _ {mask threads : ℕ} {tasks : ℕ → Task} {c : ℕ → ℕ} where
  pub first_of :
      {u v : System} {n : ℕ} {w : System}
      → Step mask threads tasks c u v
      → Reach mask threads tasks c v n w
      → Reach mask threads tasks c u (suc n) w
  first_of step here = later here step
  first_of step (later r last) = later (first_of step r) last

  -- Where the loop of ThreadJob returns from `n` rounds of a thread, from the one that the thread
  -- takes next in a run on, `n` steps of the run, all of that thread, reach the same state. They
  -- leave the rounds of the other threads as they were, and the thread, `n` rounds further, has
  -- kept the `n` times behind its earlier ones.
  pub rounds-Reach :
      (clock : ℕ → ℕ × ℕ) (t n : ℕ) (u : System) {times : List ℕ} {st : State}
      → t < threads
      → u.next t + n ≤ (tasks t).iters
      → rounds mask (tasks t) clock (c t) n (u.next t) u.st ≡ some (times, st)
      → (w : System) × Reach mask threads tasks c u n w × (w.st ≡ st) × Ran t n times u w
  unfolding rounds get_elem? length
  rounds-Reach clock t zero u {times} {st} lt within e =
      let same = some-injective _ _ e in
      let no_times : [] ≡ times = ap (λ (r : List ℕ × State). r.0) same in
      (
        u,
        here,
        ap (λ (r : List ℕ × State). r.1) same,
        record {
          count = ap length (sym no_times);
          next = omega arith;
          others = λ o ne. refl;
          before = λ j less. refl;
          measured = λ j at. absurd (none-ne-some _ (rw (sym no_times) at at));
        },
      )
  rounds-Reach clock t (suc n) u {times} {st} lt within e =
      let (r, first, e') =
        bind_inv
          (round mask (tasks t) (c t) (u.next t) (clock (u.next t)).0 (clock (u.next t)).1 u.st) _
          e in
      let (q, others, e'') =
        bind_inv (rounds mask (tasks t) clock (c t) n (suc (u.next t)) r.1) _ e' in
      let same = some-injective _ _ e'' in
      let v : System = stepped u t r.0 r.1 in
      let at : v.next t ≡ suc (u.next t) = update-same u.next t (suc (u.next t)) in
      let (w, reach, left, ran) =
        rounds-Reach clock t n v lt (omega (arith, at))
          (subst (λ i. rounds mask (tasks t) clock (c t) n i r.1 ≡ some q) (sym at) others) in
      (
        w,
        first_of (pick t (clock (u.next t)).0 (clock (u.next t)).1 r.0 r.1 lt (omega arith) first)
            reach,
        left ∙ ap (λ (p : List ℕ × State). p.1) same,
        subst (λ ts. Ran t (suc n) ts u w) (ap (λ (p : List ℕ × State). p.0) same) (Ran-first ran),
      )
