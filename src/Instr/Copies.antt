-- ===== src/Instr/Copies.antt =====
-- What a block of the copying shape does inside a copy of `total` bytes: at any offset it takes
-- the bytes copied so far a whole number of vectors further.
use native.Mathlib.Nat.{add-zero}
use hlfs.Common.{
  ℕ, ◌+◌, ◌-◌, ◌*◌, ◌/◌, ◌%◌, ◌≤◌, ◌<◌, ◌≡◌, refl, ap, some, ltb, if◌then◌else◌, ◌∙◌, ◌⊎◌, List,
  ◌++◌, arith, Returns, bind, mono, true, ◌==◌, ◌∷◌, [],
}
use hlfs.Machine
use hlfs.Machine.{State}
use hlfs.Machine.Wrote.{Mapped, Wrote, Wrote-mapped, Wrote-store, Wrote-nt_store}
use hlfs.Instr.{Instr, xmm, ymm, move_in, exec, asm}
use hlfs.Instr.Shape.{
  loads, stores, flushing_stores, asm-append, Loaded, loads-Loaded, Ready, store-Ready,
  ntstore-Ready, stores-Ready, flushing_stores-Ready,
}

-- The byte that belongs at `x`: the one that stood at the same offset of `src` at the start.
abbrev pub CopyByte : State → (dest src : ℕ) → ℕ → ℕ → Type 0
CopyByte s₀ dest src x b = b ≡ s₀.mem (src + (x - dest))

-- A copy between two ranges that are mapped and disjoint.
pub record IsCopy (s₀ : State) (dest src total : ℕ) : Type 0 where
  pub apart : (src + total ≤ dest) ⊎ (dest + total ≤ src)
  pub from : Mapped s₀ src total
  pub to : Mapped s₀ dest total

-- One that can be carried out with aligned moves: the ranges lie alike with respect to the 32
-- bytes of a register.
pub record IsVectorCopy (s₀ : State) (dest src total : ℕ) : Type 0 where
  pub copy : IsCopy s₀ dest src total
  pub open copy use *
  pub alike : dest % 32 ≡ src % 32

-- A move of `off` bytes' progress to `off + n`.
abbrev pub Copied : State → (dest src lo hi off : ℕ) → State → Type 0
Copied s₀ dest src = Wrote (CopyByte s₀ dest src) s₀ dest

module _ {s₀ : State} {dest src total : ℕ} (job : IsVectorCopy s₀ dest src total) (off n : ℕ)
    (even : (dest + off) % 32 ≡ 0) (room : off + n * 32 ≤ total) where
  -- After the loads the registers hold the next bytes.
  after_loads :
      {lo hi : ℕ} {s t : State}
      → Copied s₀ dest src lo hi off s
      → Loaded s (src + off) n t
      → Ready (CopyByte s₀ dest src) s₀ dest off (dest + off) n lo hi 0 t
  after_loads {lo} {hi} {s} {t} w l = (
    record {
      inside = λ x p q. ground (arith, w.inside x, l.mem x);
      outside = λ x o. ground (arith, w.outside x, l.mem x);
      dirty = λ x e. ground (arith, w.dirty x, l.status x);
      pages = λ p. l.present p ∙ w.pages p;
    },
    λ x r j p q e. ground (
      arith,
      l.regs r j,
      w.outside (src + off + r * 32 + j),
      job.apart,
      ap (λ (y : ℕ). s₀.mem (src + (y - dest))) e,
    ),
  )

  -- `to` restricted to the bytes at hand.
  here : Mapped s₀ (dest + off) (n * 32)
  here x a b = job.to x (omega arith) (omega arith)

  -- The loads, by either load instruction, then any run of stores.
  module _ (ld : ℕ → Instr)
      (moves : (k : ℕ) (s : State)
        → exec (src + off) (dest + off) (ld k) s ≡ move_in (src + off + k * 32) ymm k s)
      {lo hi : ℕ} {s : State} (w : Copied s₀ dest src lo hi off s) where
    then_stores :
        (is : List Instr)
        → ((t : State)
            → Ready (CopyByte s₀ dest src) s₀ dest off (dest + off) n lo hi 0 t
            → Returns
                (Ready (CopyByte s₀ dest src) s₀ dest off (dest + off) n lo hi n)
                (asm is (src + off) (dest + off) t))
        → Returns
            (Copied s₀ dest src lo hi (off + n * 32))
            (asm (loads ld 0 n ++ is) (src + off) (dest + off) s)
    then_stores is run = rw (asm-append (loads ld 0 n) is) (
        bind
          (loads-Loaded (src + off) (omega (arith, job.alike)) ld (dest + off) moves n 0 n
            (omega arith) (λ x a b. w.pages (x / 4096) ∙ job.from x (omega arith) (omega arith))
            start)
          λ t l. mono (run t (after_loads w l)) (λ u r. r.0))
      where
        start : Loaded s (src + off) 0 s
        start = record {
          regs = λ r j p q. absurd (omega arith);
          mem = λ x. refl;
          status = λ x. refl;
          present = λ p. refl;
        }

    pub copy_noflush :
        lo ≤ dest + off
        → dest + off + n * 32 ≤ hi
        → Returns
            (Copied s₀ dest src lo hi (off + n * 32))
            (asm (loads ld 0 n ++ stores (λ k. Instr.store ymm k k) 0 n) (src + off) (dest + off) s)
    copy_noflush l h = then_stores _ λ t p.
        stores-Ready off (src + off) refl even here (λ k. Instr.store ymm k k)
          (λ k u lt q.
            store-Ready off (src + off) refl even here k lt (omega arith) (omega arith) q)
          n 0 t (omega arith) p

    pub copy_nt :
        Returns
          (Copied s₀ dest src lo hi (off + n * 32))
          (asm (loads ld 0 n ++ stores (λ k. Instr.ntstore ymm k k) 0 n) (src + off) (dest + off) s)
    copy_nt = then_stores _ λ t p.
        stores-Ready off (src + off) refl even here (λ k. Instr.ntstore ymm k k)
          (λ k u lt q. ntstore-Ready off (src + off) refl even here k lt q) n 0 t (omega arith) p

    pub copy_flush :
        (c : ℕ)
        → 2 * c ≡ n
        → (dest + off) % 64 ≡ 0
        → (lo ≡ 0) × (hi ≡ 0)
        → Returns (Copied s₀ dest src lo hi (off + n * 32)) (
            asm
              (loads ld 0 n ++ flushing_stores (λ k. Instr.store ymm k k) 0 c)
              (src + off)
              (dest + off)
              s)
    copy_flush c twice fit (e₁, e₂) = then_stores _ λ t p.
        rw (e₁, e₂)
          (flushing_stores-Ready off (src + off) refl even here fit c 0 t (omega arith) refl
            (rw (e₁, e₂) at p))

-- One register of 16 bytes.
module _ {s₀ : State} {dest src total : ℕ} (job : IsVectorCopy s₀ dest src total) (off : ℕ)
    (even : (dest + off) % 16 ≡ 0) (room : off + 16 ≤ total) {lo hi : ℕ} {s : State}
    (w : Copied s₀ dest src lo hi off s) where
  -- What the load leaves.
  abbrev loaded_16 : State
  loaded_16 = record s {
    reg = λ q j. if q == 0 then (if ltb j 16 then s.mem (src + off + j) else 0) else s.reg q j;
  }

  load_16 : move_in (src + off) xmm 0 s ≡ some loaded_16
  unfolding Machine.load
  load_16 =
      let fits : ((src + off) % 16 == 0) ≡ true = ground (arith, job.alike) in
      rw (
        fits,
        Wrote-mapped w (src + off) 16 (λ x a b. job.from x (omega arith) (omega arith))
            (omega arith),
      )

  loaded_16-Copied : Copied s₀ dest src lo hi off loaded_16
  loaded_16-Copied = record {
    inside = w.inside;
    outside = w.outside;
    dirty = w.dirty;
    pages = w.pages;
  }

  right_16 :
      (x : ℕ)
      → dest + off ≤ x
      → x < dest + off + 16
      → CopyByte s₀ dest src x (loaded_16.reg 0 (x - (dest + off)))
  right_16 x a b = ground (
    arith,
    w.outside (src + off + (x - (dest + off))),
    job.apart,
    ap (λ (y : ℕ). s₀.mem y) {x = src + off + (x - (dest + off))} {y = src + (x - dest)}
        (omega arith),
  )

  module _ (ld : Instr)
      (moves : exec (src + off) (dest + off) ld s ≡ move_in (src + off) xmm 0 s) where
    pub copy_16_noflush :
        lo ≤ dest + off
        → dest + off + 16 ≤ hi
        → Returns
            (Copied s₀ dest src lo hi (off + 16))
            (asm (ld ∷ Instr.store xmm 0 0 ∷ []) (src + off) (dest + off) s)
    unfolding asm exec
    copy_16_noflush l h =
        let fits : ((dest + off) % 16 == 0) ≡ true = ground arith in
        rw (moves, load_16, add-zero, fits)
          (bind
            (Wrote-store (dest + off) 16 (off + 16) (loaded_16.reg 0) loaded_16-Copied
              (λ x a b. job.to x (omega arith) (omega arith)) (omega arith) (omega arith)
              (omega arith) (omega arith) (omega arith) right_16 l h)
            λ t q. (t, refl, q))

    pub copy_16_nt :
        Returns
          (Copied s₀ dest src lo hi (off + 16))
          (asm (ld ∷ Instr.ntstore xmm 0 0 ∷ []) (src + off) (dest + off) s)
    unfolding asm exec
    copy_16_nt =
        let fits : ((dest + off) % 16 == 0) ≡ true = ground arith in
        rw (moves, load_16, add-zero, fits)
          (bind
            (Wrote-nt_store (dest + off) 16 (off + 16) (loaded_16.reg 0) loaded_16-Copied
              (λ x a b. job.to x (omega arith) (omega arith)) (omega arith) (omega arith)
              (omega arith) (omega arith) (omega arith) right_16)
            λ t q. (t, refl, q))
