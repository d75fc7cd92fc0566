-- ===== src/Driver/Task/Prepare.antt =====
-- PrepareJob only reads.
use hlfs.Common.{
  ℕ, zero, suc, ◌+◌, ◌*◌, ◌/◌, refl, ◌∙◌, inl, inr, leb, arith, Bool-cases, Returns, bind,
}
use hlfs.Machine.{State, load}
use hlfs.Machine.Wrote.{Mapped}
use hlfs.AepJust.Read.{Same, Same-mapped}
use hlfs.AepJust.Load.{just_ntload-Same}
use hlfs.Driver.{aep_half}
use hlfs.Driver.Task.{Task, max_idx_size, tail_read_size, read_up, read_down, prepare_job}

-- What PrepareJob reads is on present pages, the word behind the table of slots included.
pub record IsPreparable (s : State) (task : Task) : Type 0 where
  pub near : Mapped s task.buf tail_read_size
  pub far : Mapped s (task.buf + aep_half) tail_read_size
  pub buffer : Mapped s task.buf task.buf_size
  pub dram : Mapped s task.mem_cpy_buf task.access_size
  pub table : Mapped s task.idx_at (4 * max_idx_size + 8)

Same-Mapped : {s t : State} (a n : ℕ) → Same s t → Mapped s a n → Mapped t a n
Same-Mapped a n same m x p q = same.present (x / 4096) ∙ m x p q

load-Same :
    {s t : State} (a : ℕ) → Same s t → Mapped s a 8 → Returns {0, 0} (λ v. Unit) (load a 8 t)
unfolding load
load-Same a same m = rw (Same-mapped a 8 same m (omega arith)) (_, refl, tt)

read_up-Same :
    {s t : State} (n a : ℕ) → Same s t → Mapped s a (8 * n) → Returns (Same s) (read_up n a t)
unfolding read_up
read_up-Same zero a same m = (_, refl, same)
read_up-Same (suc n) a same m =
    bind (load-Same a same (λ x p q. m x p (omega arith)))
      λ v k. read_up-Same n (a + 8) same (λ x p q. m x (omega arith) (omega arith))

read_down-Same :
    {s t : State} (n a : ℕ) → Same s t → Mapped s a (8 * n) → Returns (Same s) (read_down n a t)
unfolding read_down
read_down-Same zero a same m = (_, refl, same)
read_down-Same (suc n) a same m =
    bind (load-Same (a + 8 * n) same (λ x p q. m x (omega arith) (omega arith)))
      λ v k. read_down-Same n a same (λ x p q. m x p (omega arith))

pub Same-trans : {s t u : State} → Same s t → Same t u → Same s u
Same-trans p q = record {
  mem = λ x. q.mem x ∙ p.mem x;
  status = λ x. q.status x ∙ p.status x;
  present = λ x. q.present x ∙ p.present x;
}

pub prepare_job-Same :
    (task : Task) (s : State) → IsPreparable s task → Returns (Same s) (prepare_job task s)
unfolding prepare_job
prepare_job-Same task s r = bind (just_ntload-Same task.buf tail_read_size r.near) λ s₁ e₁.
    bind (just_ntload-Same (task.buf + aep_half) tail_read_size (Same-Mapped _ _ e₁ r.far)) λ s₂ e₂.
      bind
        (read_up-Same (task.access_size / 8) task.mem_cpy_buf (Same-trans e₁ e₂)
          (λ x p q. r.dram x p (omega arith)))
        λ s₃ e₃.
          bind
            (read_down-Same (max_idx_size / 2 + 1) task.idx_at e₃
              (λ x p q. r.table x p (omega arith)))
            λ s₄ e₄. elim (Bool-cases (leb task.buf_size (64 * 1024 * 1024))) [
              | inl b ↦ rw b (
                  read_up-Same (task.buf_size / 8) task.buf e₄
                    (λ x p q. r.buffer x p (omega arith)))
              | inr b ↦ rw b (s₄, refl, e₄)
            ]
