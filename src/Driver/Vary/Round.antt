-- ===== src/Driver/Vary/Round.antt =====
-- A round of MainJobVaryThreadNum on sizes that are powers of two.
use native.Mathlib.Nat.{mul-div_cancel}
use hlfs.Common.{
  ℕ, zero, suc, ◌+◌, ◌-◌, ◌*◌, ◌/◌, ◌%◌, ◌^◌, ◌≤◌, ◌<◌, ◌≡◌, refl, some, false, arith, Returns,
  ◌==◌,
}
use hlfs.Bits.Masks.{pow2-pos, pow2-suc}
use hlfs.Bits.Scan.{bit_fls-pow2, pow2-le}
use hlfs.Driver.{Globals, init_global_cfg, re_cfg_when_thread_num_change}
use hlfs.Driver.Vary.{vary_round}

pub pow2-add : (a b : ℕ) → 2 ^ (a + b) ≡ 2 ^ a * 2 ^ b
pow2-add zero b = let s : 0 + b ≡ b = omega arith in rw s (omega arith)
pow2-add (suc a) b =
    let s : suc a + b ≡ suc (a + b) = omega arith in
    rw s (grind (arith, pow2-suc (a + b), pow2-suc a, pow2-add a b))

pub pow2-div : (j k : ℕ) → 2 ^ (j + k) / 2 ^ k ≡ 2 ^ j
pow2-div j k = rw (pow2-add j k) (mul-div_cancel (2 ^ j) (pow2-pos k))

-- InitGlobalCfg on sizes that are powers of two.
init_global_cfg-pow2 :
    (g : Globals) (j k : ℕ)
    → g.access_size ≡ 2 ^ k
    → g.buffer_size ≡ 2 ^ (j + k)
    → j < 32
    → k < 32
    → init_global_cfg g
      ≡ some (record g { buf_slots = 2 ^ j; buf_slots_mask = 2 ^ j - 1; access_size_bits = k })
unfolding init_global_cfg
init_global_cfg-pow2 g j k access buffer few small =
    let pos : (2 ^ k == 0) ≡ false = ground (arith, pow2-pos k) in
    let fits : (2 ^ j - 1) % 2 ^ 32 ≡ 2 ^ j - 1 = omega (arith, pow2-le j 31 (omega arith)) in
    rw
      (
        access,
        buffer,
        pow2-div j k,
        pos,
        bit_fls-pow2 j (omega arith),
        bit_fls-pow2 k (omega arith),
        fits,
      )
      refl

-- A round whose mask is for `2 ^ j` slots, each of `2 ^ k` bytes.
pub record IsRound (i j k : ℕ) (g g' : Globals) : Type 0 where
  pub threads : g'.thread_num ≡ 2 ^ i
  pub buffer : g'.buffer_size ≡ 2 ^ (35 - i)
  pub access : g'.access_size ≡ 2 ^ k
  pub bits : g'.access_size_bits ≡ k
  pub mask : g'.buf_slots_mask ≡ 2 ^ j - 1
  pub map : g'.aep_buf_size ≡ g.aep_buf_size

pub vary_round-IsRound :
    (g : Globals) (i j k : ℕ)
    → g.access_size ≡ 2 ^ k
    → g.buffer_size ≡ 2 ^ (j + k)
    → i ≤ 35
    → j < 32
    → k < 32
    → Returns (IsRound i j k g) (vary_round (2 ^ i) g)
unfolding vary_round re_cfg_when_thread_num_change
vary_round-IsRound g i j k access buffer le few small =
    let made = init_global_cfg-pow2 (record g { thread_num = 2 ^ i }) j k access buffer few small in
    let at : 2 ^ 36 / 2 / 2 ^ i ≡ 2 ^ (35 - i) =
      (let s : 35 - i + i ≡ 35 = omega arith in rw s at (pow2-div (35 - i) i)) in
    rw made (
      _,
      refl,
      record { threads = refl; buffer = at; access = access; bits = refl; mask = refl; map = refl },
    )
