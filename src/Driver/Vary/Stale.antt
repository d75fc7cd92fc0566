-- ===== src/Driver/Vary/Stale.antt =====
-- What the rounds run with: InitGlobalCfg comes before the buffers shrink.
use hlfs.Common.{
  ℕ, zero, suc, ◌+◌, ◌-◌, ◌*◌, ◌%◌, ◌^◌, ◌≤◌, ◌<◌, ◌≡◌, refl, sym, ap, ◌∙◌, some, List, [], ◌∷◌,
  leb, true, arith, Returns,
}
use hlfs.Bits.{highest}
use hlfs.Bits.Masks.{pow2-pos, pow2-suc}
use hlfs.Bits.Scan.{bit_fls-pow2, bit_fls-highest, pow2-le}
use hlfs.AepStudy.{AepOpFn}
use hlfs.Driver.{Globals, aep_half, aep_size}
use hlfs.Driver.Layout.{IsLaidOut}
use hlfs.Driver.Task.{new_task, thread_buf, slot}
use hlfs.Driver.Task.Slots.{InBuffer, buffers_up_to}
use hlfs.Driver.Vary.Round.{IsRound, pow2-add, vary_round-IsRound}
use hlfs.Driver.Vary.{vary_round, vary_rounds, main_job_vary_thread_num, vary_core_ids}

-- What is wrong with a round: the last slot of each thread but the last one lies in the buffer of
-- the thread behind it.
pub record IsStale (g : Globals) : Type 0 where
  pub half : g.buffer_size * g.thread_num ≡ aep_half
  pub strays :
      (rand : ℕ → ℕ) (idx_at mem_cpy_buf : ℕ) (fn : AepOpFn) (t : ℕ)
      → suc t < g.thread_num
      → InBuffer g
          (suc t)
          (slot (new_task g rand idx_at mem_cpy_buf fn (thread_buf g t)) g.buf_slots_mask)

abbrev pub AreStale : (i : ℕ) → List Globals → Type 0
AreStale i [] = i ≡ 6
AreStale i (g ∷ gs) = (g.thread_num ≡ 2 ^ i) × IsStale g × AreStale (suc i) gs

next_buffer : (t b : ℕ) → suc t * b ≡ t * b + b
next_buffer t b = grind arith

last_slot : (m a b : ℕ) → (m + 1) * a ≡ 2 * b → m * a + a ≡ 2 * b
last_slot m a b e = grind arith

IsRound-IsStale :
    (g g' : Globals) (i j k : ℕ) → k + i ≤ 35 → j + k ≡ 36 - i → IsRound i j k g g' → IsStale g'
unfolding slot new_task thread_buf
IsRound-IsStale g g' i j k le sizes r =
    let b : ℕ = g'.buffer_size in
    let upper : 35 - i + i ≡ 35 = omega arith in
    let half : g'.buffer_size * g'.thread_num ≡ aep_half =
      rw (r.buffer, r.threads) (sym (pow2-add (35 - i) i) ∙ rw upper refl) in
    let fits : 2 ^ k ≤ b = rw r.buffer (pow2-le k (35 - i) (omega arith)) in
    let slots : 2 ^ j * 2 ^ k ≡ 2 * b =
      (let s : 36 - i ≡ suc (35 - i) = omega arith in
        sym (pow2-add j k) ∙ rw (sizes, r.buffer, s) (pow2-suc (35 - i))) in
    let last : g'.buf_slots_mask * 2 ^ k + 2 ^ k ≡ 2 * b =
      last_slot g'.buf_slots_mask (2 ^ k) b
        (let m : g'.buf_slots_mask + 1 ≡ 2 ^ j = omega (arith, r.mask, pow2-pos j) in rw m slots) in
    record {
      half = half;
      strays = λ rand idx_at mem_cpy_buf fn t lt.
          let room =
            buffers_up_to {n = g'.thread_num} {h = aep_half} b (suc t) lt (omega (arith, half)) in
          let next = next_buffer t b in
          let no_wrap : g'.buf_slots_mask * 2 ^ highest 64 g'.access_size % 2 ^ 64
              ≡ g'.buf_slots_mask * 2 ^ k =
            rw (r.access, bit_fls-highest (2 ^ k) (bit_fls-pow2 k (omega arith))) (omega arith) in
          let near : t * g'.buffer_size % 2 ^ 64 ≡ t * b = omega arith in
          rw (no_wrap, near)
            (record {
              low = omega arith;
              high = omega (arith, r.access);
              first = omega arith;
              half = omega (arith, r.access);
            });
    }

IsRound-IsLaidOut :
    (g g' : Globals) (j k : ℕ)
    → j + k ≡ 35
    → aep_size ≤ g.aep_buf_size
    → IsRound 0 j k g g'
    → IsLaidOut g'
IsRound-IsLaidOut g g' j k sizes whole r =
    let highest_bits = bit_fls-highest (2 ^ k) (bit_fls-pow2 k (omega arith)) in
    let m : g'.buf_slots_mask + 1 ≡ 2 ^ j = omega (arith, r.mask, pow2-pos j) in
    let slots : (g'.buf_slots_mask + 1) * g'.access_size ≡ g'.buffer_size =
      rw (m, r.access, r.buffer) (sym (pow2-add j k) ∙ rw sizes refl) in
    record {
      whole = omega (arith, r.map);
      buffers = rw (r.threads, r.buffer) (omega arith);
      shift = rw (r.access, highest_bits) refl;
      slots = omega (arith, slots);
      some_bytes = omega (arith, r.access, pow2-pos k);
    }

vary_rounds_step :
    (fuel t : ℕ) (g : Globals) {g' : Globals} {gs : List Globals}
    → leb t 32 ≡ true
    → vary_round t g ≡ some g'
    → vary_rounds fuel (t * 2) g' ≡ some gs
    → vary_rounds (suc fuel) t g ≡ some (g' ∷ gs)
unfolding vary_rounds
vary_rounds_step fuel t g le made all = rw (le, vary_rounds, made, all) refl

-- From the second round on.
vary_rounds-AreStale :
    (fuel i k : ℕ) (g : Globals)
    → 0 < i
    → i + fuel ≡ 7
    → 0 < fuel
    → 4 ≤ k
    → k ≤ 16
    → g.access_size ≡ 2 ^ k
    → g.buffer_size ≡ 2 ^ (36 - i)
    → Returns (AreStale i) (vary_rounds fuel (2 ^ i) g)
unfolding vary_rounds
vary_rounds-AreStale zero i k g later sum some_fuel least most access buffer = absurd (omega arith)
vary_rounds-AreStale (suc zero) i k g later sum some_fuel least most access buffer =
    let six : i ≡ 6 = omega arith in rw six ([], refl, refl)
vary_rounds-AreStale (suc (suc fuel)) i k g later sum some_fuel least most access buffer =
    let sizes : 36 - i - k + k ≡ 36 - i = omega arith in
    let goes_on : leb (2 ^ i) 32 ≡ true = (let p = pow2-le i 5 (omega arith) in ground arith) in
    let next : 2 ^ i * 2 ≡ 2 ^ suc i = omega (arith, pow2-suc i) in
    let shrunk : 36 - suc i ≡ 35 - i = omega arith in
    let (g', made, r) =
      vary_round-IsRound g i (36 - i - k) k access (rw sizes buffer) (omega arith) (omega arith)
        (omega arith) in
    let (gs, all, stale) =
      vary_rounds-AreStale (suc fuel) (suc i) k g' (omega arith) (omega arith) (omega arith) least
        most r.access (r.buffer ∙ ap (λ n. 2 ^ n) (sym shrunk)) in
    (
      g' ∷ gs,
      vary_rounds_step (suc fuel) (2 ^ i) g goes_on made (rw next all),
      (r.threads, IsRound-IsStale g g' i (36 - i - k) k (omega arith) sizes r, stale),
    )

-- The first round is as it should be.
abbrev pub OnlyFirstIsLaidOut : List Globals → Type 0
OnlyFirstIsLaidOut [] = ⊥
OnlyFirstIsLaidOut (g ∷ gs) = (g.thread_num ≡ 1) × IsLaidOut g × AreStale 1 gs

-- With an access size of 16 bytes to 64 KB, a power of two, and a map of at least `aep_size`
-- bytes, MainJobVaryThreadNum goes through six configurations, of 1, 2, 4, 8, 16 and 32 threads.
-- The first is laid out; in each of the others the buffers together are half of the map, and the
-- slot at the mask, of every thread but the last one, lies in the buffer of the thread behind it.
pub main_job_vary_thread_num-OnlyFirstIsLaidOut :
    (g : Globals) (k : ℕ)
    → 4 ≤ k
    → k ≤ 16
    → g.access_size ≡ 2 ^ k
    → aep_size ≤ g.aep_buf_size
    → Returns OnlyFirstIsLaidOut (main_job_vary_thread_num g)
unfolding main_job_vary_thread_num vary_rounds
main_job_vary_thread_num-OnlyFirstIsLaidOut g k least most access whole =
    let sizes : 35 - k + k ≡ 35 = omega arith in
    let g₀ : Globals = record g { buffer_size = aep_half; core_ids = vary_core_ids } in
    let (g₁, made, r) =
      vary_round-IsRound g₀ 0 (35 - k) k access (rw sizes refl) (omega arith) (omega arith)
        (omega arith) in
    let (rest, all, stale) =
      vary_rounds-AreStale 6 1 k g₁ (omega arith) (omega arith) (omega arith) least most r.access
        r.buffer in
    let made' : vary_round 1 g₀ ≡ some g₁ = made in
    let all' : vary_rounds 6 2 g₁ ≡ some rest = all in
    (
      g₁ ∷ rest,
      rw (made', all') refl,
      (r.threads, IsRound-IsLaidOut g₀ g₁ (35 - k) k sizes whole r, stale),
    )
