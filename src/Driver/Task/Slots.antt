-- ===== src/Driver/Task/Slots.antt =====
-- Where the slots of the threads lie.
use Prim.Native.Nat.{bit_and, bit_and-bitwise}
use hlfs.Common.{
  ℕ, zero, suc, ◌+◌, ◌-◌, ◌*◌, ◌/◌, ◌%◌, ◌^◌, ◌≤◌, ◌<◌, ◌≡◌, ◌≢◌, refl, ◌⊎◌, inl, inr, arith, ltb,
  Bool-cases,
}
use hlfs.Bits.{highest}
use hlfs.Bits.Masks.{bit_and-halves}
use hlfs.AepStudy.{AepOpFn}
use hlfs.Driver.{Globals, aep_half}
use hlfs.Driver.Layout.{IsLaidOut}
use hlfs.Driver.Task.{max_idx_size, new_task, thread_buf, slot_index, slot}

bit_and-le_below : (n a b : ℕ) → a ≤ n → bit_and a b ≤ b
bit_and-le_below n zero b h = omega (arith, bit_and-bitwise 0 b)
bit_and-le_below zero (suc a) b h = absurd (omega arith)
bit_and-le_below (suc n) (suc a) b h =
    omega (arith, bit_and-halves (suc a) b, bit_and-le_below n (suc a / 2) (b / 2) (omega arith))

pub bit_and-le : (a b : ℕ) → bit_and a b ≤ b
bit_and-le a b = bit_and-le_below a a b (omega arith)

-- In either mode a round takes a slot below or at the mask.
pub slot_index-le :
    (g : Globals) (rand : ℕ → ℕ) (idx_at mem_cpy_buf : ℕ) (fn : AepOpFn) (buf i : ℕ)
    → slot_index g.buf_slots_mask (new_task g rand idx_at mem_cpy_buf fn buf) i ≤ g.buf_slots_mask
unfolding slot_index new_task
slot_index-le g rand idx_at mem_cpy_buf fn buf i = ground (
  arith,
  bit_and-le i g.buf_slots_mask,
  bit_and-le (rand (max_idx_size - 1 - i % max_idx_size)) g.buf_slots_mask,
)

-- The buffer of a thread and a slot in it.
pub record InBuffer (g : Globals) (t a : ℕ) : Type 0 where
  pub low : g.aep_buf + t * g.buffer_size ≤ a
  pub high : a + g.access_size ≤ g.aep_buf + t * g.buffer_size + g.buffer_size
  pub first : g.aep_buf ≤ a
  pub half : a + g.access_size ≤ g.aep_buf + aep_half

pub buffers_up_to : {n h : ℕ} (b t : ℕ) → t < n → b * n ≤ h → t * b + b ≤ h
buffers_up_to b t lt le = grind arith

pub slots_up_to : {m i b : ℕ} (a : ℕ) → i ≤ m → (m + 1) * a ≤ b → i * a + a ≤ b
slots_up_to a lt le = grind arith

-- In a laid-out configuration each slot up to the mask, of each thread, lies with all its bytes in
-- the buffer of that thread, which lies in the first half of the map.
pub slot-InBuffer :
    (g : Globals) (rand : ℕ → ℕ) (idx_at mem_cpy_buf : ℕ) (fn : AepOpFn) (t idx : ℕ)
    → IsLaidOut g
    → t < g.thread_num
    → idx ≤ g.buf_slots_mask
    → InBuffer g t (slot (new_task g rand idx_at mem_cpy_buf fn (thread_buf g t)) idx)
unfolding slot new_task thread_buf
slot-InBuffer g rand idx_at mem_cpy_buf fn t idx l lt le =
    let buf = buffers_up_to g.buffer_size t lt l.buffers in
    let end = slots_up_to {m = g.buf_slots_mask} g.access_size le l.slots in
    let shift = l.shift in
    let no_wrap : idx * 2 ^ highest 64 g.access_size % 2 ^ 64 ≡ idx * g.access_size =
      rw l.shift (omega (arith, end, buf)) in
    let near : t * g.buffer_size % 2 ^ 64 ≡ t * g.buffer_size = omega (arith, buf) in
    rw (no_wrap, near)
      (record { low = omega arith; high = omega arith; first = omega arith; half = omega arith })

pub slot_lem :
    (g : Globals) (rand : ℕ → ℕ) (idx_at mem_cpy_buf : ℕ) (fn : AepOpFn) (t idx : ℕ)
    → IsLaidOut g
    → t < g.thread_num
    → idx ≤ g.buf_slots_mask
    → slot (new_task g rand idx_at mem_cpy_buf fn (thread_buf g t)) idx
      ≡ g.aep_buf + t * g.buffer_size + idx * g.access_size
unfolding slot new_task thread_buf
slot_lem g rand idx_at mem_cpy_buf fn t idx l lt le =
    let buf = buffers_up_to g.buffer_size t lt l.buffers in
    let end = slots_up_to {m = g.buf_slots_mask} g.access_size le l.slots in
    let no_wrap : idx * 2 ^ highest 64 g.access_size % 2 ^ 64 ≡ idx * g.access_size =
      rw l.shift (omega (arith, end, buf)) in
    let near : t * g.buffer_size % 2 ^ 64 ≡ t * g.buffer_size = omega (arith, buf) in
    rw (no_wrap, near) refl

buffers_apart : (b : ℕ) {t u : ℕ} → t < u → t * b + b ≤ u * b
buffers_apart b lt = grind arith

-- The buffers of two threads have no byte in common.
pub InBuffer-apart :
    (g : Globals) {t u a b : ℕ}
    → InBuffer g t a
    → InBuffer g u b
    → t ≢ u
    → (a + g.access_size ≤ b) ⊎ (b + g.access_size ≤ a)
InBuffer-apart g {t} {u} {a} {b} p q ne = elim (Bool-cases (ltb t u)) [
  | inl e ↦
      inl (omega (arith, p.high, q.low, buffers_apart g.buffer_size {t = t} {u = u} (ground arith)))
  | inr e ↦
      let gt : u < t = ground (arith, ne) in
      inr (omega (arith, q.high, p.low, buffers_apart g.buffer_size {t = u} {u = t} gt))
]
