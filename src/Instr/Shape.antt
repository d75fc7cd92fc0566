-- ===== src/Instr/Shape.antt =====
-- The shape that the blocks of util/instr.h share: loads into successive registers, then stores
-- from them, in the flushing blocks with a `clwb` behind each pair of stores.
use hlfs.Common.{
  ℕ, zero, suc, ◌+◌, ◌-◌, ◌*◌, ◌/◌, ◌%◌, ◌≤◌, ◌<◌, ◌≡◌, refl, ◌==◌, none, some, List, [], ◌∷◌, ◌++◌,
  ◌>>=◌, arith, Returns, bind, true,
}
use hlfs.Machine
use hlfs.Machine.{State, mapped}
use hlfs.Machine.Wrote.{
  Mapped, Wrote, Wrote-put, Wrote-nt_put, Wrote-mapped, Wrote-flush_line, Wrote-window,
}
use hlfs.Instr.{Instr, ymm, move_in, exec, asm}

abbrev pub loads : (ℕ → Instr) → ℕ → ℕ → List Instr
loads ld k zero = []
loads ld k (suc n) = ld k ∷ loads ld (suc k) n

abbrev pub stores : (ℕ → Instr) → ℕ → ℕ → List Instr
stores st k zero = []
stores st k (suc n) = st k ∷ stores st (suc k) n

abbrev pub flushing_stores : (ℕ → Instr) → ℕ → ℕ → List Instr
flushing_stores st k zero = []
flushing_stores st k (suc n) = st k ∷ st (suc k) ∷ Instr.clwb k ∷ flushing_stores st (suc (suc k)) n

pub asm-append :
    (xs ys : List Instr) (rsi rdi : ℕ) (s : State)
    → asm (xs ++ ys) rsi rdi s ≡ (asm xs rsi rdi s >>= asm ys rsi rdi)
unfolding asm
asm-append [] ys rsi rdi s = refl
asm-append (x ∷ xs) ys rsi rdi s =
    elim (exec rsi rdi x s)
      as (λ o. (o >>= asm (xs ++ ys) rsi rdi) ≡ (o >>= asm xs rsi rdi >>= asm ys rsi rdi)) [
        | none ↦ refl
        | some t ↦ asm-append xs ys rsi rdi t
      ]

-- The first `n` registers hold the `n * 32` bytes at `rsi`; memory is as it was.
pub record Loaded (s₀ : State) (rsi n : ℕ) (s : State) : Type 0 where
  pub regs : (r j : ℕ) → r < n → j < 32 → s.reg r j ≡ s₀.mem (rsi + r * 32 + j)
  pub mem : (x : ℕ) → s.mem x ≡ s₀.mem x
  pub status : (x : ℕ) → s.status x ≡ s₀.status x
  pub present : (p : ℕ) → s.present p ≡ s₀.present p

module _ {s₀ : State} (rsi : ℕ) (even : rsi % 32 ≡ 0) where
  move_in-Loaded :
      (k : ℕ) {s : State}
      → Mapped s₀ (rsi + k * 32) 32
      → Loaded s₀ rsi k s
      → Returns (Loaded s₀ rsi (suc k)) (move_in (rsi + k * 32) ymm k s)
  unfolding Machine.load
  move_in-Loaded k {s} m l =
      let a : ℕ = rsi + k * 32 in
      let here : mapped s a 32 ≡ true =
        ground
          (arith, l.present (a / 4096), l.present ((a + 32 - 1) / 4096), m a, m (a + 32 - 1)) in
      let fits : (a % 32 == 0) ≡ true = ground arith in
      rw (fits, here)
        (
          _,
          refl,
          record {
            regs = λ r j p q. ground (arith, l.regs r j, l.mem (a + j));
            mem = l.mem;
            status = l.status;
            present = l.present;
          },
        )

  -- Loads by either instruction, as `ld k` is `k*32(%rsi), %ymm k`.
  module _ (ld : ℕ → Instr) (rdi : ℕ)
      (moves : (k : ℕ) (s : State) → exec rsi rdi (ld k) s ≡ move_in (rsi + k * 32) ymm k s) where
    pub loads-Loaded :
        (n k m : ℕ) {s : State}
        → k + n ≡ m
        → Mapped s₀ rsi (m * 32)
        → Loaded s₀ rsi k s
        → Returns (Loaded s₀ rsi m) (asm (loads ld k n) rsi rdi s)
    unfolding asm
    loads-Loaded zero k m {s} e p l = let e' : k ≡ m = omega arith in (s, refl, rw e' at l)
    loads-Loaded (suc n) k m {s} e p l = rw (moves k s) (
        bind (move_in-Loaded k (λ x a b. p x (omega arith) (omega arith)) l)
          λ t l'. loads-Loaded n (suc k) m (omega arith) p l')

-- The registers hold what the `n * 32` bytes at `rdi` should be.
abbrev pub Regs : (ℕ → ℕ → Type 0) → (rdi n : ℕ) → State → Type 0
Regs byte rdi n s = (x r j : ℕ) → r < n → j < 32 → x ≡ rdi + r * 32 + j → byte x (s.reg r j)

-- They are ready and the first `k` of them are stored.
abbrev pub Ready : (ℕ → ℕ → Type 0) → State → (dest off rdi n lo hi k : ℕ) → State → Type 0
Ready byte s₀ dest off rdi n lo hi k s =
    Wrote byte s₀ dest lo hi (off + k * 32) s × Regs byte rdi n s

module _ {byte : ℕ → ℕ → Type 0} {s₀ : State} {dest : ℕ} (off rsi : ℕ) {rdi n : ℕ}
    (at : rdi ≡ dest + off) (even : rdi % 32 ≡ 0) (m : Mapped s₀ rdi (n * 32)) where
  module _ (k : ℕ) (lt : k < n) where
    pub store-Ready :
        {lo hi : ℕ} {s : State}
        → lo ≤ rdi + k * 32
        → rdi + suc k * 32 ≤ hi
        → Ready byte s₀ dest off rdi n lo hi k s
        → Returns
            (Ready byte s₀ dest off rdi n lo hi (suc k))
            (exec rsi rdi (Instr.store ymm k k) s)
    unfolding exec Machine.store
    store-Ready {s} l h p =
        let fits : ((rdi + k * 32) % 32 == 0) ≡ true = ground arith in
        rw
          (
            fits,
            Wrote-mapped p.0 (rdi + k * 32) 32 (λ x a b. m x (omega arith) (omega arith))
                (omega arith),
          )
          (
            _,
            refl,
            (
              Wrote-put (rdi + k * 32) 32 (off + suc k * 32) (s.reg k) p.0 (omega arith)
                  (omega arith) (omega arith) (omega arith)
                  (λ x a b. p.1 x k (x - (rdi + k * 32)) lt (omega arith) (omega arith)) l
                  (omega arith),
              p.1,
            ),
          )

    pub ntstore-Ready :
        {lo hi : ℕ} {s : State}
        → Ready byte s₀ dest off rdi n lo hi k s
        → Returns
            (Ready byte s₀ dest off rdi n lo hi (suc k))
            (exec rsi rdi (Instr.ntstore ymm k k) s)
    unfolding exec Machine.nt_store
    ntstore-Ready {s} p =
        let fits : ((rdi + k * 32) % 32 == 0) ≡ true = ground arith in
        rw
          (
            fits,
            Wrote-mapped p.0 (rdi + k * 32) 32 (λ x a b. m x (omega arith) (omega arith))
                (omega arith),
          )
          (
            _,
            refl,
            (
              Wrote-nt_put (rdi + k * 32) 32 (off + suc k * 32) (s.reg k) p.0 (omega arith)
                  (omega arith) (omega arith) (omega arith)
                  (λ x a b. p.1 x k (x - (rdi + k * 32)) lt (omega arith) (omega arith)),
              p.1,
            ),
          )

  -- A run of stores, each of which makes its step.
  pub stores-Ready :
      {lo hi : ℕ} (st : ℕ → Instr)
      → ((k : ℕ) (s : State)
          → k < n
          → Ready byte s₀ dest off rdi n lo hi k s
          → Returns (Ready byte s₀ dest off rdi n lo hi (suc k)) (exec rsi rdi (st k) s))
      → (c k : ℕ) (s : State) → k + c ≡ n
      → Ready byte s₀ dest off rdi n lo hi k s
      → Returns (Ready byte s₀ dest off rdi n lo hi n) (asm (stores st k c) rsi rdi s)
  unfolding asm
  stores-Ready st step zero k s e p = let e' : k ≡ n = omega arith in (s, refl, rw e' at p)
  stores-Ready st step (suc c) k s e p =
      bind (step k s (omega arith) p) λ t q. stores-Ready st step c (suc k) t (omega arith) q

  clwb-Ready :
      (k : ℕ) (s : State)
      → suc k < n
      → rdi % 64 ≡ 0
      → k % 2 ≡ 0
      → Ready byte s₀ dest off rdi n (rdi + k * 32) (rdi + k * 32 + 64) (suc (suc k)) s
      → Returns (Ready byte s₀ dest off rdi n 0 0 (suc (suc k))) (exec rsi rdi (Instr.clwb k) s)
  unfolding exec Machine.clwb
  clwb-Ready k s lt fit pair p =
      let a : ℕ = rdi + k * 32 in
      rw (Wrote-mapped p.0 a 1 (λ x l h. m x (omega arith) (omega arith)) (omega arith))
        (_, refl, ((Wrote-flush_line p.0 a 0 0 (λ x l h. omega arith)), p.1))

  -- Stores in pairs, each pair a whole line that is then written back.
  pub flushing_stores-Ready :
      rdi % 64 ≡ 0
      → (c k : ℕ) (s : State) → k + 2 * c ≡ n
      → k % 2 ≡ 0
      → Ready byte s₀ dest off rdi n 0 0 k s
      → Returns
          (Ready byte s₀ dest off rdi n 0 0 n)
          (asm (flushing_stores (λ k. Instr.store ymm k k) k c) rsi rdi s)
  unfolding asm
  flushing_stores-Ready fit zero k s e pair p =
      let e' : k ≡ n = omega arith in (s, refl, rw e' at p)
  flushing_stores-Ready fit (suc c) k s e pair p =
      let here = rdi + k * 32 in
      let wide : Ready byte s₀ dest off rdi n here (here + 64) k s =
        (Wrote-window p.0 (λ x a b. absurd (omega arith)), p.1) in
      bind (store-Ready k (omega arith) (omega arith) (omega arith) wide) λ t q.
        bind (store-Ready (suc k) (omega arith) (omega arith) (omega arith) q) λ u r.
          bind (clwb-Ready k u (omega arith) fit pair r)
            λ v z. flushing_stores-Ready fit c (suc (suc k)) v (omega arith) (omega arith) z
