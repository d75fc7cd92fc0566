-- ===== src/Tests/Sweep.antt =====
-- The tables for copying, filling and writing, with the native routines and a fence in the place of pmem2.
use hlfs.Common.{◌+◌, refl, inl, inr, bind, arith}
use hlfs.Machine.{State, sfence}
use hlfs.Aep.Native.{cpy_native_flush, memset_native_flush}
use hlfs.Aep.Native.Total.{cpy_native_flush-Copied, memset_native_flush-Wrote}
use hlfs.AepStudy.{fenced}
use hlfs.AepStudy.Persist.{sfence-Persisted}
use hlfs.AepStudy.Pmem.{Pmem2}
use hlfs.Bits.{highest}
use hlfs.AepStudy.Pmem.{write}
use hlfs.Driver.{Globals, aep_half}
use hlfs.Driver.Layout.{IsLaidOut}
use hlfs.Driver.Run.Sweep.{Sweep, main_tasks, main_slot}
use hlfs.Driver.Run.Sweep.Swept.{AllWritten}
use hlfs.Driver.Run.Sweep.Tables.{
  IsPmem2, cpy_sweep-AllWritten, memset_sweep-AllWritten, sweeps_end,
}
use hlfs.Driver.Run.Sweep.Writes.{AreDrams, dram_byte, write_sweep-AllWritten, write_sweeps}
use hlfs.Tests.Copies.{demo}
use hlfs.Tests.Driver.{configured, laid_out, filling, filling-IsLaidOut, ones}

abbrev native : Pmem2
native = record {
  pmdk_memcpy = λ dest src len flags s. fenced (cpy_native_flush dest src len s);
  pmdk_memset = λ dest c len flags s. fenced (memset_native_flush dest c len s);
  noflush = 32;
  temporal = 4;
  nontemporal = 2;
}

native-IsPmem2 : IsPmem2 native
native-IsPmem2 = record {
  copies = λ flags {s} {dest} {src} {len} drains job pos.
      bind (cpy_native_flush-Copied job (job.to (dest + 0) (omega arith) (omega arith)))
        λ t w. (sfence t, refl, sfence-Persisted 0 0 w);
  fills = λ flags c {s} {dest} {len} drains there pos.
      bind (memset_native_flush-Wrote c there (there (dest + 0) (omega arith) (omega arith)))
        λ t w. (sfence t, refl, sfence-Persisted 0 0 w);
}

abbrev copying :
    (s' : State) × Sweep native configured
      (main_tasks configured (λ t k. 7) (λ t. 64) (λ t. 0))
      (λ t. 257)
      0
      demo
      s'
copying =
    sweeps_end native native-IsPmem2 laid_out (λ x a b. refl) (omega arith) (λ t k. 7) (λ t. 64)
      (λ t. 0) (λ t. 257) 10 35 (omega arith) (inl refl)

cpy_sweep-AllWritten_example :
    AllWritten configured demo
      (λ x. demo.mem (x + aep_half))
      (main_slot configured (λ t k. 7))
      copying.0
cpy_sweep-AllWritten_example =
    cpy_sweep-AllWritten native native-IsPmem2 laid_out (λ x a b. refl) (omega arith) (λ t k. 7)
      (λ t. 64) (λ t. 0) (λ t. 257) refl copying.1

abbrev filling_up :
    (s' : State) × Sweep native filling
      (main_tasks filling (λ t k. 7) (λ t. 64) (λ t. 0))
      (λ t. 257)
      0
      demo
      s'
filling_up =
    sweeps_end native native-IsPmem2 filling-IsLaidOut (λ x a b. refl) (omega arith) (λ t k. 7)
      (λ t. 64) (λ t. 0) (λ t. 257) 10 35 (omega arith) (inr (refl, ones))

memset_sweep-AllWritten_example :
    AllWritten filling demo (λ x. 1) (main_slot filling (λ t k. 7)) filling_up.0
memset_sweep-AllWritten_example =
    memset_sweep-AllWritten native native-IsPmem2 filling-IsLaidOut (λ x a b. refl) (omega arith)
      (λ t k. 7) (λ t. 64) (λ t. 0) (λ t. 257) refl ones filling_up.1

abbrev writing : Globals
writing = record configured { rw_type = write }

writing-IsLaidOut : IsLaidOut writing
unfolding highest
writing-IsLaidOut = record {
  whole = omega arith;
  buffers = omega arith;
  shift = refl;
  slots = omega arith;
  some_bytes = omega arith;
}

drams : AreDrams writing demo (λ t. 256)
drams = record { mapped = λ t lt x a b. refl; off = λ t lt. inl (omega arith) }

abbrev written :
    (s' : State) × Sweep native writing
      (main_tasks writing (λ t k. 7) (λ t. 64) (λ t. 256))
      (λ t. 257)
      0
      demo
      s'
written =
    write_sweeps native native-IsPmem2 writing-IsLaidOut (λ x a b. refl) (λ t k. 7) (λ t. 64)
      (λ t. 256) (λ t. 257) refl drams 10 35 (omega arith)

write_sweep-AllWritten_example :
    AllWritten writing demo
      (dram_byte writing demo (λ t. 256))
      (main_slot writing (λ t k. 7))
      written.0
write_sweep-AllWritten_example =
    write_sweep-AllWritten native native-IsPmem2 writing-IsLaidOut (λ x a b. refl) (λ t k. 7)
      (λ t. 64) (λ t. 256) (λ t. 257) refl drams written.1
