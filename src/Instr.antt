-- ===== src/Instr.antt =====
-- The instructions of the inline assembly in util/instr.h and util/instr_just.h, and the run of
-- a block of them.
pub mod Shape
pub mod Copies
pub mod LoadStore
pub mod NtloadStore
pub mod LoadNtstore
pub mod NtloadNtstore
pub mod JustLoad
pub mod JustNtload
pub mod JustStore
pub mod JustStoreFlush
pub mod JustNtstore
use hlfs.Common.{
  ℕ, ◌+◌, ◌*◌, ◌%◌, Option, none, some, List, [], ◌∷◌, ◌==◌, ltb, if◌then◌else◌, ◌>>=◌,
}
use hlfs.Machine
use hlfs.Machine.{State}

-- The registers `%xmm r` and `%ymm r`, of 16 and of 32 bytes.
pub data Width : Type 0 where
  xmm ymm : Width

abbrev pub bytes : Width → ℕ
bytes xmm = 16
bytes ymm = 32

-- LOAD_INSTR and NTLOAD_INSTR `k*w(%rsi), %mm r`, STORE_INSTR and NTSTORE_INSTR
-- `%mm r, k*w(%rdi)`, and `clwb k*32(%rdi)`.
pub data Instr : Type 0 where
  load : Width → (k r : ℕ) → Instr
  ntload : Width → (k r : ℕ) → Instr
  store : Width → (r k : ℕ) → Instr
  ntstore : Width → (r k : ℕ) → Instr
  clwb : (k : ℕ) → Instr

-- A general protection fault (`none`) unless the operand is aligned to its width.
abbrev pub aligned {ℓ} : {A : Type ℓ} → ℕ → Width → Option A → Option A
aligned a w m = if a % bytes w == 0 then m else none

-- The aligned moves: `vmovdqa` and `vmovntdqa` into a register, with its upper bytes cleared.
abbrev pub move_in : ℕ → Width → ℕ → State → Option State
move_in a w r s = aligned a w do
  v ← Machine.load a (bytes w) s
  some
      (record s { reg = λ q j. if q == r then (if ltb j (bytes w) then v j else 0) else s.reg q j })

unfoldable pub exec : (rsi rdi : ℕ) → Instr → State → Option State
exec rsi rdi (load w k r) s = move_in (rsi + k * bytes w) w r s
exec rsi rdi (ntload w k r) s = move_in (rsi + k * bytes w) w r s
exec rsi rdi (store w r k) s =
    aligned (rdi + k * bytes w) w (Machine.store (rdi + k * bytes w) (bytes w) (s.reg r) s)
exec rsi rdi (ntstore w r k) s =
    aligned (rdi + k * bytes w) w (Machine.nt_store (rdi + k * bytes w) (bytes w) (s.reg r) s)
exec rsi rdi (clwb k) s = Machine.clwb (rdi + k * 32) s

unfoldable pub asm : List Instr → (rsi rdi : ℕ) → State → Option State
asm [] rsi rdi s = some s
asm (i ∷ is) rsi rdi s = exec rsi rdi i s >>= asm is rsi rdi

-- A block that copies upwards from `src` to `dest`.
abbrev pub Kernel : Type 0
Kernel = (dest src : ℕ) → State → Option State
