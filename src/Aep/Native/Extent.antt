-- ===== src/Aep/Native/Extent.antt =====
-- The loop of `clwb_extent` (util/aep.h) over the lines of an extent.
use hlfs.Common.{
  ℕ, zero, suc, ◌+◌, ◌-◌, ◌*◌, ◌/◌, ◌%◌, ◌^◌, ◌≤◌, ◌<◌, ◌≡◌, refl, ◌⊎◌, inl, inr, ltb, arith,
  Returns, bind, Bool-cases,
}
use hlfs.Machine.{State, line}
use hlfs.Machine.Wrote.{Mapped, Wrote, Wrote-window, Wrote-clwb_first}
use hlfs.Walk.Window.{Touches}
use hlfs.Aep.Native.{clwb_from, clwb_extent}

module _ {byte : ℕ → ℕ → Type 0} {s₀ : State} {dest i : ℕ} (addr len : ℕ) (to : Mapped s₀ addr len)
    (here : Touches s₀ addr 0) where
  -- With enough rounds the loop ends, and nothing of the window is left in the cache.
  clwb_from-Wrote :
      (fuel uptr : ℕ) {s : State}
      → uptr % 64 ≡ 0
      → (uptr ≡ line addr) ⊎ (addr ≤ uptr)
      → addr + len + 64 ≤ 2 ^ 64
      → addr + len ≤ uptr + 64 * (fuel - 1)
      → 0 < fuel
      → Wrote byte s₀ dest uptr (addr + len) i s
      → Returns (Wrote byte s₀ dest 0 0 i) (clwb_from fuel uptr (addr + len) s)
  unfolding clwb_from
  clwb_from-Wrote zero uptr even from fits enough pos w = absurd (omega arith)
  clwb_from-Wrote (suc fuel) uptr {s} even from fits enough pos w =
      elim (Bool-cases (ltb uptr (addr + len))) [
        | inl e ↦
            let lt : uptr < addr + len = ground arith in
            let next : (uptr + 64) % 2 ^ 64 ≡ line uptr + 64 = omega arith in
            let page : Mapped s₀ uptr 1 = (λ x a b. elim from [
              | inl at ↦ let same : x / 4096 ≡ (addr + 0) / 4096 = omega arith in rw same here
              | inr le ↦ to x (omega arith) (omega arith)
            ]) in
            rw (e, clwb_from)
              (bind (Wrote-clwb_first w uptr page (omega arith)) λ t w'. rw next (
                clwb_from-Wrote fuel (line uptr + 64) (omega arith) (omega arith) fits (omega arith)
                  (omega arith) w'))
        | inr e ↦ rw (e, clwb_from) (s, refl, Wrote-window w (λ x p q. absurd (ground arith)))
      ]

  -- clwb_extent, on an extent whose pages and whose first page are present and that ends 64 bytes
  -- before the end of the address space or earlier, ends after the rounds given to it; whatever
  -- was written and lies in the cache only inside the extent is then on its way out, and contents
  -- are as before.
  pub clwb_extent-Wrote :
      {s : State}
      → addr + len + 64 ≤ 2 ^ 64
      → Wrote byte s₀ dest addr (addr + len) i s
      → Returns (Wrote byte s₀ dest 0 0 i) (clwb_extent addr len s)
  unfolding clwb_extent
  clwb_extent-Wrote {s} fits w =
      let end : (addr + len) % 2 ^ 64 ≡ addr + len = omega arith in
      rw end (
        clwb_from-Wrote (len / 64 + 3) (line addr) (omega arith) (inl refl) fits (omega arith)
          (omega arith) (Wrote-window w (λ x p q. omega arith)))
