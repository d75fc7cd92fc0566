-- ===== src/Driver/Vary/Access.antt =====
-- The rounds of MainJobVaryAccessSize keep their slots in their buffers.
use native.Mathlib.Nat.{div-le_self, div-mul-le_self, le-div_iff_mul-le}
use hlfs.Common.{
  ℕ, zero, suc, ◌+◌, ◌-◌, ◌*◌, ◌/◌, ◌%◌, ◌^◌, ◌≤◌, ◌<◌, ◌≡◌, refl, inl, inr, some, List, [], ◌∷◌,
  leb, true, false, arith, Bool-cases, Returns, bind, ◌==◌,
}
use hlfs.Bits.{bit_fls}
use hlfs.Bits.Masks.{pow2-pos, pow2-suc}
use hlfs.Bits.Scan.{bit_fls_lem, bit_fls-pow2, bit_fls-highest, pow2-le}
use hlfs.Driver.{
  Globals, aep_half, aep_size, init_global_cfg, gen_iters, re_cfg_when_thread_num_change,
}
use hlfs.Driver.Layout.{IsLaidOut}
use hlfs.Driver.Vary.{vary_access_round, vary_access_rounds, main_job_vary_access_size}

-- Buffers of at least 64 KB that fit.
pub record IsRoomy (g : Globals) : Type 0 where
  pub whole : aep_size ≤ g.aep_buf_size
  pub some_threads : 0 < g.thread_num
  pub buffers : g.buffer_size * g.thread_num ≤ aep_half
  pub least : 64 * 1024 ≤ g.buffer_size

within : (m n b a : ℕ) → m ≤ n → n ≤ b / a → m * a ≤ b
within m n b a p q = let f = div-mul-le_self b a in grind arith

larger : (b n : ℕ) → 0 < n → b * n ≤ aep_half → b ≤ aep_half / n
larger b n pos le = (le-div_iff_mul-le pos).1 le

mask_fits : (b a j : ℕ) → 2 ^ j ≤ b / a → ((2 ^ j - 1) % 2 ^ 32 + 1) * a ≤ b
mask_fits b a j le =
    within ((2 ^ j - 1) % 2 ^ 32 + 1) (b / a) b a (omega (arith, le, pow2-pos j)) (omega arith)

abbrev IsRound : (k : ℕ) → Globals → Type 0
IsRound k g = IsLaidOut g × IsRoomy g × (g.access_size ≡ 2 ^ k)

init_with :
    (g : Globals) (k j : ℕ)
    → k ≤ 16
    → g.access_size ≡ 2 ^ k
    → IsRoomy g
    → bit_fls (g.buffer_size / 2 ^ k) ≡ some j
    → 2 ^ j ≤ g.buffer_size / 2 ^ k
    → Returns (IsRound k) (init_global_cfg g)
unfolding init_global_cfg
init_with g k j small access roomy found low =
    let pos : (2 ^ k == 0) ≡ false = ground (arith, pow2-pos k) in
    let bits = bit_fls-pow2 k (omega arith) in
    let buffers : g.buffer_size * g.thread_num ≤ aep_half = roomy.buffers in
    rw (access, pos, found, bits)
      (
        _,
        refl,
        (
          record {
            whole = roomy.whole;
            buffers = roomy.buffers;
            shift = rw (bit_fls-highest (2 ^ k) bits) refl;
            slots = mask_fits g.buffer_size (2 ^ k) j low;
            some_bytes = pow2-pos k;
          },
          record {
            whole = roomy.whole;
            some_threads = roomy.some_threads;
            buffers = roomy.buffers;
            least = roomy.least;
          },
          refl,
        ),
      )

at_most : (b n h : ℕ) → 0 < n → b * n ≤ h → b ≤ h
at_most b n h pos le = grind arith

-- InitGlobalCfg keeps the buffers and makes slots that fit.
init-IsRound :
    (g : Globals) (k : ℕ)
    → k ≤ 16
    → g.access_size ≡ 2 ^ k
    → IsRoomy g
    → Returns (IsRound k) (init_global_cfg g)
init-IsRound g k small access roomy =
    let some_slots : 1 ≤ g.buffer_size / 2 ^ k =
      (le-div_iff_mul-le (pow2-pos k)).1 (omega (arith, pow2-le k 16 small, roomy.least)) in
    let few : g.buffer_size / 2 ^ k < 2 ^ 64 = omega (
      arith,
      div-le_self g.buffer_size (2 ^ k),
      at_most g.buffer_size g.thread_num aep_half roomy.some_threads roomy.buffers,
    ) in
    let (j, found, (room, low, high)) = bit_fls_lem (g.buffer_size / 2 ^ k) some_slots few in
    init_with g k j small access roomy found low

-- The buffers only grow.
re_cfg-IsRound : (k : ℕ) (g : Globals) → IsRound k g → IsRound k (re_cfg_when_thread_num_change g)
unfolding re_cfg_when_thread_num_change
re_cfg-IsRound k g (l, r, a) =
    let grown = larger g.buffer_size g.thread_num r.some_threads r.buffers in
    let fit : aep_half / g.thread_num * g.thread_num ≤ aep_half =
      div-mul-le_self aep_half g.thread_num in
    (
      record {
        whole = l.whole;
        buffers = fit;
        shift = l.shift;
        slots = omega (arith, l.slots, grown);
        some_bytes = l.some_bytes;
      },
      record {
        whole = r.whole;
        some_threads = r.some_threads;
        buffers = fit;
        least = omega (arith, r.least, grown);
      },
      a,
    )

iters-IsRound : (k : ℕ) (g : Globals) (n : ℕ) → IsRound k g → IsRound k (record g { iters = n })
iters-IsRound k g n (l, r, a) = (
  record {
    whole = l.whole;
    buffers = l.buffers;
    shift = l.shift;
    slots = l.slots;
    some_bytes = l.some_bytes;
  },
  record { whole = r.whole; some_threads = r.some_threads; buffers = r.buffers; least = r.least },
  a,
)

vary_access_round-IsRound :
    (g : Globals) (k : ℕ) → k ≤ 16 → IsRoomy g → Returns (IsRound k) (vary_access_round (2 ^ k) g)
unfolding vary_access_round
vary_access_round-IsRound g k small roomy =
    bind
      (init-IsRound (record g { access_size = 2 ^ k }) k small refl
        (record {
          whole = roomy.whole;
          some_threads = roomy.some_threads;
          buffers = roomy.buffers;
          least = roomy.least;
        }))
      λ g' r. elim (Bool-cases (g'.thread_num == 1)) [
        | inl e ↦ rw e (_, refl, iters-IsRound k g' (gen_iters (2 ^ k)) r)
        | inr e ↦ rw e (_, refl, re_cfg-IsRound k g' r)
      ]

-- All configurations are laid out, from the exponent `k` of the access size on.
abbrev pub AreLaidOut : (k : ℕ) → List Globals → Type 0
AreLaidOut k [] = k ≡ 17
AreLaidOut k (g ∷ gs) = (g.access_size ≡ 2 ^ k) × IsLaidOut g × AreLaidOut (suc k) gs

vary_access_rounds_step :
    (fuel size : ℕ) (g : Globals) {g' : Globals} {gs : List Globals}
    → leb size (64 * 1024) ≡ true
    → vary_access_round size g ≡ some g'
    → vary_access_rounds fuel (size * 2) g' ≡ some gs
    → vary_access_rounds (suc fuel) size g ≡ some (g' ∷ gs)
unfolding vary_access_rounds
vary_access_rounds_step fuel size g le made all = rw (le, vary_access_rounds, made, all) refl

vary_access_rounds-AreLaidOut :
    (fuel k : ℕ) (g : Globals)
    → k + fuel ≡ 18
    → 0 < fuel
    → IsRoomy g
    → Returns (AreLaidOut k) (vary_access_rounds fuel (2 ^ k) g)
unfolding vary_access_rounds
vary_access_rounds-AreLaidOut zero k g sum some_fuel roomy = absurd (omega arith)
vary_access_rounds-AreLaidOut (suc zero) k g sum some_fuel roomy =
    let last : k ≡ 17 = omega arith in rw last ([], refl, refl)
vary_access_rounds-AreLaidOut (suc (suc fuel)) k g sum some_fuel roomy =
    let goes_on : leb (2 ^ k) (64 * 1024) ≡ true =
      (let p = pow2-le k 16 (omega arith) in ground arith) in
    let next : 2 ^ k * 2 ≡ 2 ^ suc k = omega (arith, pow2-suc k) in
    let (g', made, (l, r, a)) = vary_access_round-IsRound g k (omega arith) roomy in
    let (gs, all, rest) =
      vary_access_rounds-AreLaidOut (suc fuel) (suc k) g' (omega arith) (omega arith) r in
    (g' ∷ gs, vary_access_rounds_step (suc fuel) (2 ^ k) g goes_on made (rw next all), (a, l, rest))

-- With at least one thread, and buffers of at least 64 KB, which together fit into half of a map
-- of `aep_size` bytes or more, MainJobVaryAccessSize goes through a configuration for each access
-- size from `2 ^ 4` to `2 ^ 16`, doubled each time, and each configuration is laid out.
pub main_job_vary_access_size-AreLaidOut :
    (g : Globals) → IsRoomy g → Returns (AreLaidOut 4) (main_job_vary_access_size g)
unfolding main_job_vary_access_size
main_job_vary_access_size-AreLaidOut g roomy =
    vary_access_rounds-AreLaidOut 14 4 g refl (omega arith) roomy
