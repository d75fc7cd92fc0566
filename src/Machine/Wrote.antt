-- ===== src/Machine/Wrote.antt =====
-- What a routine that writes upwards from `dest` keeps true: the first `i` bytes hold what they
-- should, no other byte has changed, and the cache holds nothing new outside a window.
use hlfs.Common.{ℕ, ◌+◌, ◌-◌, ◌/◌, ◌≤◌, ◌<◌, ◌≡◌, refl, ◌⊎◌, inl, inr, true, some, arith, Returns}
use hlfs.Machine.{State, cached, queued, line, mapped, put, load, store, nt_store, clwb, flush_line}

-- Every page that a byte of the `n` bytes at `a` lies in is present.
abbrev pub Mapped : State → ℕ → ℕ → Type 0
Mapped s a n = (x : ℕ) → a ≤ x → x < a + n → s.present (x / 4096) ≡ true

abbrev pub Outside : ℕ → ℕ → ℕ → Type 0
Outside a n x = (x < a) ⊎ (a + n ≤ x)

-- `byte x b` says what the byte `b` at the address `x` should be; `lo ≤ x < hi` is the window.
pub record Wrote (byte : ℕ → ℕ → Type 0) (s₀ : State) (dest lo hi i : ℕ) (s : State) : Type 0 where
  pub inside : (x : ℕ) → dest ≤ x → x < dest + i → byte x (s.mem x)
  pub outside : (x : ℕ) → Outside dest i x → s.mem x ≡ s₀.mem x
  pub dirty :
      (x : ℕ)
      → s.status x ≡ cached
      → ((lo ≤ x) × (x < hi)) ⊎ ((s₀.status x ≡ cached) × Outside dest i x)
  pub pages : (p : ℕ) → s.present p ≡ s₀.present p

module _ {byte : ℕ → ℕ → Type 0} {s₀ : State} {dest : ℕ} where
  pub Wrote-start : (lo hi : ℕ) → Wrote byte s₀ dest lo hi 0 s₀
  Wrote-start lo hi = record {
    inside = λ x p q. absurd (omega arith);
    outside = λ x o. refl;
    dirty = λ x e. inr (e, ground arith);
    pages = λ p. refl;
  }

  -- The window may grow.
  pub Wrote-window :
      {lo hi lo' hi' i : ℕ} {s : State}
      → Wrote byte s₀ dest lo hi i s
      → ((x : ℕ) → lo ≤ x → x < hi → (lo' ≤ x) × (x < hi'))
      → Wrote byte s₀ dest lo' hi' i s
  Wrote-window w grow = record {
    inside = w.inside;
    outside = w.outside;
    dirty = λ x e. elim (w.dirty x e) [ inl p ↦ inl (grow x p.0 p.1) | inr q ↦ inr q ];
    pages = w.pages;
  }

module _ {byte : ℕ → ℕ → Type 0} {s₀ : State} {dest lo hi i : ℕ} {s : State} (a n j : ℕ) (v : ℕ → ℕ)
    (w : Wrote byte s₀ dest lo hi i s) (below : dest ≤ a) (meets : a ≤ dest + i)
    (ends : a + n ≡ dest + j) (grows : i ≤ j)
    (good : (x : ℕ) → a ≤ x → x < a + n → byte x (v (x - a))) where
  -- A store that begins in or right behind the bytes written so far and ends at offset `j`.
  pub Wrote-put : lo ≤ a → a + n ≤ hi → Wrote byte s₀ dest lo hi j (put cached a n v s)
  Wrote-put l h = record {
    inside = λ x p q. ground (arith, w.inside x, good x);
    outside = λ x o. ground (arith, w.outside x);
    dirty = λ x e. ground (arith, w.dirty x);
    pages = w.pages;
  }

  -- Past the cache, no window is asked for.
  pub Wrote-nt_put : Wrote byte s₀ dest lo hi j (put queued a n v s)
  Wrote-nt_put = record {
    inside = λ x p q. ground (arith, w.inside x, good x);
    outside = λ x o. ground (arith, w.outside x);
    dirty = λ x e. ground (arith, w.dirty x);
    pages = w.pages;
  }

module _ {byte : ℕ → ℕ → Type 0} {s₀ : State} {dest lo hi i : ℕ} {s : State}
    (w : Wrote byte s₀ dest lo hi i s) where
  pub Wrote-mapped : (a n : ℕ) → Mapped s₀ a n → 0 < n → mapped s a n ≡ true
  Wrote-mapped a n m pos =
      ground (arith, w.pages (a / 4096), w.pages ((a + n - 1) / 4096), m a, m (a + n - 1))

  -- The write-back of the line that holds the window leaves nothing new in the cache.
  pub Wrote-flush_line :
      (a lo' hi' : ℕ)
      → ((x : ℕ) → lo ≤ x → x < hi → line x ≡ line a)
      → Wrote byte s₀ dest lo' hi' i (flush_line a s)
  Wrote-flush_line a lo' hi' one = record {
    inside = w.inside;
    outside = w.outside;
    dirty = λ x e. ground (arith, w.dirty x, one x);
    pages = w.pages;
  }

  -- That of the line in which the window begins leaves the window behind the line.
  pub Wrote-clwb_first :
      (a : ℕ)
      → Mapped s₀ a 1
      → line a ≤ lo
      → Returns (Wrote byte s₀ dest (line a + 64) hi i) (clwb a s)
  unfolding clwb
  Wrote-clwb_first a p low = rw (Wrote-mapped a 1 p (omega arith)) (
    _,
    refl,
    record {
      inside = w.inside;
      outside = w.outside;
      dirty = λ x e. ground (arith, w.dirty x);
      pages = w.pages;
    },
  )

  pub Wrote-clwb :
      (a lo' hi' : ℕ)
      → Mapped s₀ a 1
      → ((x : ℕ) → lo ≤ x → x < hi → line x ≡ line a)
      → Returns (Wrote byte s₀ dest lo' hi' i) (clwb a s)
  unfolding clwb
  Wrote-clwb a lo' hi' p one =
      rw (Wrote-mapped a 1 p (omega arith)) (_, refl, Wrote-flush_line a lo' hi' one)

module _ {byte : ℕ → ℕ → Type 0} {s₀ : State} {dest lo hi i : ℕ} {s : State} (a n j : ℕ) (v : ℕ → ℕ)
    (w : Wrote byte s₀ dest lo hi i s) (pages : Mapped s₀ a n) (pos : 0 < n) (below : dest ≤ a)
    (meets : a ≤ dest + i) (ends : a + n ≡ dest + j) (grows : i ≤ j)
    (good : (x : ℕ) → a ≤ x → x < a + n → byte x (v (x - a))) where
  pub Wrote-store : lo ≤ a → a + n ≤ hi → Returns (Wrote byte s₀ dest lo hi j) (store a n v s)
  unfolding store
  Wrote-store l h =
      rw (Wrote-mapped w a n pages pos)
        (_, refl, Wrote-put a n j v w below meets ends grows good l h)

  pub Wrote-nt_store : Returns (Wrote byte s₀ dest lo hi j) (nt_store a n v s)
  unfolding nt_store
  Wrote-nt_store =
      rw (Wrote-mapped w a n pages pos)
        (_, refl, Wrote-nt_put a n j v w below meets ends grows good)

pub Wrote-load :
    {byte : ℕ → ℕ → Type 0} {s₀ : State} {dest lo hi i : ℕ} {s : State} (a n : ℕ)
    → Wrote byte s₀ dest lo hi i s
    → Mapped s₀ a n
    → 0 < n
    → load a n s ≡ some (λ j. s.mem (a + j))
unfolding load
Wrote-load a n w m pos = rw (Wrote-mapped w a n m pos)
