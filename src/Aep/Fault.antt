-- ===== src/Aep/Fault.antt =====
-- The copy routines of util/aep.h between buffers that lie differently modulo 16.
use hlfs.Common.{ℕ, ◌+◌, ◌*◌, ◌%◌, ◌≤◌, ◌≡◌, ◌≢◌, none, false, ◌==◌, arith}
use hlfs.Machine.{State}
use hlfs.Instr.{Width, bytes, xmm, ymm, move_in, exec, asm}
use hlfs.Instr.LoadStore.{
  cpy_16b_load_store_noflush, cpy_32b_load_store_noflush, cpy_2x32b_load_store_noflush,
  cpy_4x32b_load_store_noflush, cpy_8x32b_load_store_noflush, cpy_16x32b_load_store_noflush,
  cpy_2x32b_load_store_flush, cpy_4x32b_load_store_flush, cpy_8x32b_load_store_flush,
  cpy_16x32b_load_store_flush,
}
use hlfs.Instr.NtloadStore.{
  cpy_16b_ntload_store_noflush, cpy_32b_ntload_store_noflush, cpy_2x32b_ntload_store_noflush,
  cpy_4x32b_ntload_store_noflush, cpy_8x32b_ntload_store_noflush, cpy_16x32b_ntload_store_noflush,
  cpy_2x32b_ntload_store_flush, cpy_4x32b_ntload_store_flush, cpy_8x32b_ntload_store_flush,
  cpy_16x32b_ntload_store_flush,
}
use hlfs.Instr.LoadNtstore.{
  cpy_16b_load_ntstore, cpy_32b_load_ntstore, cpy_2x32b_load_ntstore, cpy_4x32b_load_ntstore,
  cpy_8x32b_load_ntstore, cpy_16x32b_load_ntstore,
}
use hlfs.Instr.NtloadNtstore.{
  cpy_16b_ntload_ntstore, cpy_32b_ntload_ntstore, cpy_2x32b_ntload_ntstore,
  cpy_4x32b_ntload_ntstore, cpy_8x32b_ntload_ntstore, cpy_16x32b_ntload_ntstore,
}
use hlfs.Walk.Fault.{AllStuck, walk-none, walk_flush-none, walk_nt-none}
use hlfs.Aep.{
  Routine, load_store_noflush, load_store_flush, ntload_store_noflush, ntload_store_flush,
  load_ntstore, ntload_ntstore, cpy_load_store_noflush, cpy_load_store_flush,
  cpy_ntload_store_noflush, cpy_ntload_store_flush, cpy_load_ntstore, cpy_ntload_ntstore,
}

-- The six routines that move vectors.
pub data VectorCopy : Type 0 where
  by_load_store_noflush by_load_store_flush by_ntload_store_noflush : VectorCopy
  by_ntload_store_flush by_load_ntstore by_ntload_ntstore : VectorCopy

unfoldable pub vector_copy : VectorCopy → Routine
vector_copy by_load_store_noflush = cpy_load_store_noflush
vector_copy by_load_store_flush = cpy_load_store_flush
vector_copy by_ntload_store_noflush = cpy_ntload_store_noflush
vector_copy by_ntload_store_flush = cpy_ntload_store_flush
vector_copy by_load_ntstore = cpy_load_ntstore
vector_copy by_ntload_ntstore = cpy_ntload_ntstore

-- A load from an address that is no multiple of 16 faults, at either width.
load_faults : (w : Width) (a : ℕ) (s : State) → a % 16 ≢ 0 → move_in (a + 0 * bytes w) w 0 s ≡ none
load_faults xmm a s odd = let e : ((a + 0 * 16) % 16 == 0) ≡ false = ground (arith, odd) in rw e
load_faults ymm a s odd = let e : ((a + 0 * 32) % 32 == 0) ≡ false = ground (arith, odd) in rw e

module _ (dest src : ℕ) (unlike : dest % 16 ≢ src % 16) where
  odd : (off : ℕ) → (dest + off) % 16 ≡ 0 → (src + off) % 16 ≢ 0
  odd off even z = unlike (omega arith)

  noflush_stuck : AllStuck dest (load_store_noflush dest src)
  unfolding cpy_16b_load_store_noflush cpy_32b_load_store_noflush cpy_2x32b_load_store_noflush
      cpy_4x32b_load_store_noflush cpy_8x32b_load_store_noflush cpy_16x32b_load_store_noflush asm
      exec
  noflush_stuck = record {
    k16 = λ off s e. rw (load_faults xmm (src + off) s (odd off e));
    k32 = λ off s e. rw (load_faults ymm (src + off) s (odd off e));
    k2x32 = λ off s e. rw (load_faults ymm (src + off) s (odd off e));
    k4x32 = λ off s e. rw (load_faults ymm (src + off) s (odd off e));
    k8x32 = λ off s e. rw (load_faults ymm (src + off) s (odd off e));
    k16x32 = λ off s e. rw (load_faults ymm (src + off) s (odd off e));
  }

  flush_stuck : AllStuck dest (load_store_flush dest src)
  unfolding cpy_16b_load_store_noflush cpy_32b_load_store_noflush cpy_2x32b_load_store_flush
      cpy_4x32b_load_store_flush cpy_8x32b_load_store_flush cpy_16x32b_load_store_flush asm exec
  flush_stuck = record {
    k16 = λ off s e. rw (load_faults xmm (src + off) s (odd off e));
    k32 = λ off s e. rw (load_faults ymm (src + off) s (odd off e));
    k2x32 = λ off s e. rw (load_faults ymm (src + off) s (odd off e));
    k4x32 = λ off s e. rw (load_faults ymm (src + off) s (odd off e));
    k8x32 = λ off s e. rw (load_faults ymm (src + off) s (odd off e));
    k16x32 = λ off s e. rw (load_faults ymm (src + off) s (odd off e));
  }

  nt_noflush_stuck : AllStuck dest (ntload_store_noflush dest src)
  unfolding cpy_16b_ntload_store_noflush cpy_32b_ntload_store_noflush cpy_2x32b_ntload_store_noflush
      cpy_4x32b_ntload_store_noflush cpy_8x32b_ntload_store_noflush cpy_16x32b_ntload_store_noflush
      asm exec
  nt_noflush_stuck = record {
    k16 = λ off s e. rw (load_faults xmm (src + off) s (odd off e));
    k32 = λ off s e. rw (load_faults ymm (src + off) s (odd off e));
    k2x32 = λ off s e. rw (load_faults ymm (src + off) s (odd off e));
    k4x32 = λ off s e. rw (load_faults ymm (src + off) s (odd off e));
    k8x32 = λ off s e. rw (load_faults ymm (src + off) s (odd off e));
    k16x32 = λ off s e. rw (load_faults ymm (src + off) s (odd off e));
  }

  nt_flush_stuck : AllStuck dest (ntload_store_flush dest src)
  unfolding cpy_16b_ntload_store_noflush cpy_32b_ntload_store_noflush cpy_2x32b_ntload_store_flush
      cpy_4x32b_ntload_store_flush cpy_8x32b_ntload_store_flush cpy_16x32b_ntload_store_flush asm
      exec
  nt_flush_stuck = record {
    k16 = λ off s e. rw (load_faults xmm (src + off) s (odd off e));
    k32 = λ off s e. rw (load_faults ymm (src + off) s (odd off e));
    k2x32 = λ off s e. rw (load_faults ymm (src + off) s (odd off e));
    k4x32 = λ off s e. rw (load_faults ymm (src + off) s (odd off e));
    k8x32 = λ off s e. rw (load_faults ymm (src + off) s (odd off e));
    k16x32 = λ off s e. rw (load_faults ymm (src + off) s (odd off e));
  }

  ntstore_stuck : AllStuck dest (load_ntstore dest src)
  unfolding cpy_16b_load_ntstore cpy_32b_load_ntstore cpy_2x32b_load_ntstore cpy_4x32b_load_ntstore
      cpy_8x32b_load_ntstore cpy_16x32b_load_ntstore asm exec
  ntstore_stuck = record {
    k16 = λ off s e. rw (load_faults xmm (src + off) s (odd off e));
    k32 = λ off s e. rw (load_faults ymm (src + off) s (odd off e));
    k2x32 = λ off s e. rw (load_faults ymm (src + off) s (odd off e));
    k4x32 = λ off s e. rw (load_faults ymm (src + off) s (odd off e));
    k8x32 = λ off s e. rw (load_faults ymm (src + off) s (odd off e));
    k16x32 = λ off s e. rw (load_faults ymm (src + off) s (odd off e));
  }

  nt_ntstore_stuck : AllStuck dest (ntload_ntstore dest src)
  unfolding cpy_16b_ntload_ntstore cpy_32b_ntload_ntstore cpy_2x32b_ntload_ntstore
      cpy_4x32b_ntload_ntstore cpy_8x32b_ntload_ntstore cpy_16x32b_ntload_ntstore asm exec
  nt_ntstore_stuck = record {
    k16 = λ off s e. rw (load_faults xmm (src + off) s (odd off e));
    k32 = λ off s e. rw (load_faults ymm (src + off) s (odd off e));
    k2x32 = λ off s e. rw (load_faults ymm (src + off) s (odd off e));
    k4x32 = λ off s e. rw (load_faults ymm (src + off) s (odd off e));
    k8x32 = λ off s e. rw (load_faults ymm (src + off) s (odd off e));
    k16x32 = λ off s e. rw (load_faults ymm (src + off) s (odd off e));
  }

  -- Each of the six vector copy routines, between buffers that lie differently modulo 16, faults
  -- on 31 bytes or more, in every state.
  pub vector_copy-faults :
      (c : VectorCopy) (len : ℕ) (s : State) → 31 ≤ len → vector_copy c dest src len s ≡ none
  unfolding vector_copy cpy_load_store_noflush cpy_load_store_flush cpy_ntload_store_noflush
      cpy_ntload_store_flush cpy_load_ntstore cpy_ntload_ntstore
  vector_copy-faults by_load_store_noflush len s long =
      walk-none dest (load_store_noflush dest src) noflush_stuck len s long
  vector_copy-faults by_load_store_flush len s long =
      walk_flush-none dest (load_store_flush dest src) flush_stuck len s long
  vector_copy-faults by_ntload_store_noflush len s long =
      walk-none dest (ntload_store_noflush dest src) nt_noflush_stuck len s long
  vector_copy-faults by_ntload_store_flush len s long =
      walk_flush-none dest (ntload_store_flush dest src) nt_flush_stuck len s long
  vector_copy-faults by_load_ntstore len s long =
      walk_nt-none dest (load_ntstore dest src) ntstore_stuck len s long
  vector_copy-faults by_ntload_ntstore len s long =
      walk_nt-none dest (ntload_ntstore dest src) nt_ntstore_stuck len s long
