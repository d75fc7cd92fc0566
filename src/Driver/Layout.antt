-- ===== src/Driver/Layout.antt =====
-- What a checked configuration means for the buffers.
use native.Mathlib.Nat.{div-mul-le_self}
use mathlib.Core.Path.{subst}
use mathlib.Core.Option.{some-injective}
use hlfs.Common.{
  bind_inv, ℕ, ◌+◌, ◌-◌, ◌*◌, ◌/◌, ◌%◌, ◌^◌, ◌≤◌, ◌<◌, ◌≡◌, refl, Bool, true, Option, some, ◌==◌,
  leb, ltb, arith, sym, ◌∙◌, inl, inr, Bool-cases,
}
use hlfs.Bits.{bit_fls, highest}
use hlfs.Bits.Scan.{bit_fls-highest}
use hlfs.Driver.{
  Globals, aep_size, aep_half, init_global_cfg, check_global_cfg, require, require_pow2, core_num,
  on_socket,
}

-- What makes a run safe: the buffers of all threads lie in the first half of the map, and the slots
-- of a buffer inside it, at multiples of the access size.
pub record IsLaidOut (g : Globals) : Type 0 where
  pub whole : aep_size ≤ g.aep_buf_size
  pub buffers : g.buffer_size * g.thread_num ≤ aep_half
  pub shift : 2 ^ highest 64 g.access_size ≡ g.access_size
  pub slots : (g.buf_slots_mask + 1) * g.access_size ≤ g.buffer_size
  pub some_bytes : 0 < g.access_size

require_inv :
    (b : Bool) (m : Option Globals) {g : Globals} → require b m ≡ some g → (b ≡ true) × (m ≡ some g)
require_inv b m e = ground (arith, e)

require_pow2_inv :
    (v : ℕ) (m : Option Globals) {g : Globals}
    → require_pow2 v m ≡ some g
    → ((k : ℕ) × (bit_fls v ≡ some k) × (2 ^ k ≡ v)) × (m ≡ some g)
require_pow2_inv v m e =
    let (k, found, rest) = bind_inv (bit_fls v) (λ k. require (2 ^ k == v) m) e in
    let (test, done) = require_inv (2 ^ k == v) m rest in
    ((k, found, (let z : 2 ^ k ≡ v = ground arith in z)), done)

-- What InitGlobalCfg leaves.
pub record IsInit (g : Globals) : Type 0 where
  pub some_bytes : 0 < g.access_size
  pub slots : g.buf_slots ≡ g.buffer_size / g.access_size
  pub mask : (k : ℕ) × (bit_fls g.buf_slots ≡ some k) × (g.buf_slots_mask ≡ (2 ^ k - 1) % 2 ^ 32)
  pub bits : bit_fls g.access_size ≡ some g.access_size_bits

pub init_global_cfg-IsInit : (g₀ : Globals) {g : Globals} → init_global_cfg g₀ ≡ some g → IsInit g
unfolding init_global_cfg
init_global_cfg-IsInit g₀ e = elim (Bool-cases (g₀.access_size == 0)) [
  | inl z ↦ ground (arith, e, z)
  | inr z ↦
      (let e' = rw z at e in
        let (k, found, rest) = bind_inv (bit_fls (g₀.buffer_size / g₀.access_size)) _ e' in
        let (b, found', last) = bind_inv (bit_fls g₀.access_size) _ rest in
        subst IsInit (some-injective _ _ last) (record {
          some_bytes = ground arith;
          slots = refl;
          mask = (k, found, refl);
          bits = found';
        }))
]

-- What CheckGlobalCfg has seen.
pub record IsChecked (g : Globals) : Type 0 where
  pub cores : core_num g.core_ids ≡ g.thread_num
  pub whole : aep_size ≤ g.aep_buf_size
  pub buffers : g.buffer_size * g.thread_num % 2 ^ 64 ≤ aep_half
  pub shift : 2 ^ g.access_size_bits ≡ g.access_size
  pub some_slots : 0 < g.buf_slots
  pub slots : (k : ℕ) × (bit_fls g.buf_slots ≡ some k) × (2 ^ k ≡ g.buf_slots)

pub check_global_cfg-IsChecked :
    (max_node : ℕ) (node_of_cpu : ℕ → ℕ) (g : Globals) {g' : Globals}
    → check_global_cfg max_node node_of_cpu g ≡ some g'
    → IsChecked g
unfolding check_global_cfg
check_global_cfg-IsChecked max_node node_of_cpu g e =
    let (t₁, e₁) = require_inv (leb g.socket max_node) _ e in
    let (t₂, e₂) = require_inv (core_num g.core_ids == g.thread_num) _ e₁ in
    let (t₃, e₃) = require_inv (on_socket node_of_cpu g.socket g.core_ids) _ e₂ in
    let (t₄, e₄) = require_inv (leb aep_size g.aep_buf_size) _ e₃ in
    let (t₅, e₅) = require_inv (leb (g.buffer_size * g.thread_num % 2 ^ 64) (aep_size / 2)) _ e₄ in
    let (p₆, e₆) = require_pow2_inv g.buffer_size _ e₅ in
    let (t₇, e₇) = require_inv (2 ^ g.access_size_bits == g.access_size) _ e₆ in
    let (t₈, e₈) = require_inv (ltb 0 g.buf_slots) _ e₇ in
    let (p₉, e₉) = require_pow2_inv g.buf_slots (some g) e₈ in
    record {
      cores = ground arith;
      whole = ground arith;
      buffers = ground arith;
      shift = ground arith;
      some_slots = ground arith;
      slots = p₉;
    }

within : {m n b : ℕ} (a : ℕ) → m ≤ n → n * a ≤ b → m * a ≤ b
within a p q = grind arith

-- A configuration that InitGlobalCfg made and CheckGlobalCfg accepts, and whose product of buffer
-- size and thread number does not wrap, is laid out: the map has `aep_size` bytes, the buffers of
-- all threads fit into its first half, `1 << __fls(access_size)` is the access size, which is
-- above 0, and the slots up to the mask fit into a buffer.
pub check_global_cfg-IsLaidOut :
    (max_node : ℕ) (node_of_cpu : ℕ → ℕ) (g₀ g : Globals) {g' : Globals}
    → init_global_cfg g₀ ≡ some g
    → check_global_cfg max_node node_of_cpu g ≡ some g'
    → g.buffer_size * g.thread_num < 2 ^ 64
    → IsLaidOut g
check_global_cfg-IsLaidOut max_node node_of_cpu g₀ g made accepted small =
    let i = init_global_cfg-IsInit g₀ made in
    let c = check_global_cfg-IsChecked max_node node_of_cpu g accepted in
    let (k, found, mask) = i.mask in
    let (k', found', exact) = c.slots in
    let same : k ≡ k' = some-injective _ _ (sym found ∙ found') in
    let few : g.buf_slots_mask + 1 ≤ g.buf_slots =
      (let m = rw (same, exact) at mask in omega (arith, m, c.some_slots)) in
    record {
      whole = c.whole;
      buffers = omega (arith, c.buffers);
      shift = rw (bit_fls-highest g.access_size i.bits) c.shift;
      slots =
          within g.access_size few
            (rw (← i.slots) at (div-mul-le_self g.buffer_size g.access_size));
      some_bytes = i.some_bytes;
    }
