-- ===== src/AepJust/Kept.antt =====
-- The vector registers under the stores and write-backs of util/aep_just.h.
use hlfs.Common.{ℕ, zero, suc, ◌≡◌, refl, ◌∙◌, Option, some, none, List, [], ◌∷◌, ◌>>=◌, arith}
use hlfs.Machine
use hlfs.Machine.{State}
use hlfs.Instr.Shape.{stores, flushing_stores}
use hlfs.Instr.{Instr, Width, exec, asm}

-- The registers are as they were.
abbrev pub Kept : State → State → Type 0
Kept s t = (q j : ℕ) → t.reg q j ≡ s.reg q j

-- Whatever state the step ends in.
abbrev pub Keeps : (State → Option State) → Type 0
Keeps f = (s t : State) → f s ≡ some t → Kept s t

pub store-Keeps : (a n : ℕ) (v : ℕ → ℕ) → Keeps (Machine.store a n v)
unfolding Machine.store
store-Keeps a n v s t e q j = ground (arith, e)

pub nt_store-Keeps : (a n : ℕ) (v : ℕ → ℕ) → Keeps (Machine.nt_store a n v)
unfolding Machine.nt_store
nt_store-Keeps a n v s t e q j = ground (arith, e)

pub clwb-Keeps : (a : ℕ) → Keeps (Machine.clwb a)
unfolding Machine.clwb
clwb-Keeps a s t e q j = ground (arith, e)

pub exec-store-Keeps : (rsi rdi r k : ℕ) (w : Width) → Keeps (exec rsi rdi (Instr.store w r k))
unfolding exec Machine.store
exec-store-Keeps rsi rdi r k w s t e q j = ground (arith, e)

pub exec-ntstore-Keeps : (rsi rdi r k : ℕ) (w : Width) → Keeps (exec rsi rdi (Instr.ntstore w r k))
unfolding exec Machine.nt_store
exec-ntstore-Keeps rsi rdi r k w s t e q j = ground (arith, e)

exec-clwb-Keeps : (rsi rdi k : ℕ) → Keeps (exec rsi rdi (Instr.clwb k))
unfolding exec Machine.clwb
exec-clwb-Keeps rsi rdi k s t e q j = ground (arith, e)

-- One step after another.
after :
    (s t : State) (m : Option State) (f : State → Option State)
    → ((u : State) → m ≡ some u → Kept s u)
    → Keeps f
    → (m >>= f) ≡ some t
    → Kept s t
after s t none f first next e q j = ground (arith, e)
after s t (some u) f first next e q j = next u t e q j ∙ first u refl q j

pub then-Keeps : {f g : State → Option State} → Keeps f → Keeps g → Keeps (λ s. f s >>= g)
then-Keeps {f} {g} first next s t = after s t (f s) g (first s) next

asm-nil-Keeps : (rsi rdi : ℕ) → Keeps (asm [] rsi rdi)
unfolding asm
asm-nil-Keeps rsi rdi s t e q j = ground (arith, e)

pub asm-Keeps :
    (rsi rdi : ℕ) (i : Instr) (is : List Instr)
    → Keeps (exec rsi rdi i)
    → Keeps (asm is rsi rdi)
    → Keeps (asm (i ∷ is) rsi rdi)
unfolding asm
asm-Keeps rsi rdi i is = then-Keeps

module _ (rsi rdi : ℕ) (st : ℕ → Instr) (keeps : (k : ℕ) → Keeps (exec rsi rdi (st k))) where
  pub stores-Keeps : (n k : ℕ) → Keeps (asm (stores st k n) rsi rdi)
  stores-Keeps zero k = asm-nil-Keeps rsi rdi
  stores-Keeps (suc n) k = asm-Keeps rsi rdi (st k) _ (keeps k) (stores-Keeps n (suc k))

  pub flushing_stores-Keeps : (n k : ℕ) → Keeps (asm (flushing_stores st k n) rsi rdi)
  flushing_stores-Keeps zero k = asm-nil-Keeps rsi rdi
  flushing_stores-Keeps (suc n) k = asm-Keeps rsi rdi (st k) _ (keeps k) (
      asm-Keeps rsi rdi (st (suc k)) _ (keeps (suc k)) (
        asm-Keeps rsi rdi (Instr.clwb k) _ (exec-clwb-Keeps rsi rdi k)
          (flushing_stores-Keeps n (suc (suc k)))))
