-- ===== src/Walk/Window.antt =====
-- The write-backs that a routine begins in its destination.
use hlfs.Common.{ℕ, ◌+◌, ◌/◌, ◌<◌, ◌≡◌, ◌⊎◌, inl, inr, true, arith}
use hlfs.Machine.{State, line}
use hlfs.Machine.Wrote.{Mapped, Wrote, Wrote-window, Wrote-clwb}
use hlfs.Walk.Routines.{Windowed}

-- The page of the byte at `dest + d` is present.
abbrev pub Touches : State → (dest d : ℕ) → Type 0
Touches s dest d = s.present ((dest + d) / 4096) ≡ true

pub Wrote-Windowed :
    {byte : ℕ → ℕ → Type 0} {s : State} {dest len : ℕ} (Reached : ℕ → Type 0)
    → ((d : ℕ) → Reached d → Touches s dest d)
    → Windowed dest len (Wrote byte s dest) Reached
Wrote-Windowed {dest} Reached touches = record {
  widen = λ lo hi off t w. Wrote-window w (λ x p q. absurd (omega arith));
  flush = λ d off t reached w.
      Wrote-clwb w (line (dest + d)) 0 0 (λ x p q. ground (arith, touches d reached))
        (λ x p q. omega arith);
}

-- What a flushing routine reaches: the bytes of the destination, and the line that it begins in.
pub begun :
    (s : State) {dest len : ℕ}
    → Mapped s dest len
    → Touches s dest 0
    → (d : ℕ) → (d < len) ⊎ (d ≡ 0)
    → Touches s dest d
begun s {dest} to here d r = elim r [
  | inl lt ↦ to (dest + d) (omega arith) (omega arith)
  | inr z ↦ rw z here
]
