-- ===== src/Lib.antt =====
-- A model of HLFS: the copy, fill and write-back routines for persistent memory that the
-- repository builds, and the operations that its study of such memory measures.
--
-- The parts, from the machine up:
--
--   * Machine: what the C and assembly code runs on. Memory is a function from addresses to
--     bytes; each byte has a status, `cached`, `queued` or `durable`, that a store, a store past
--     the cache, `clwb` and `sfence` move (the macros of util/aep.h). An access to a page that is
--     not present is `none`. Machine/Wrote is the invariant that every writing routine keeps: what
--     the first bytes of the destination hold, that nothing else has changed, and where something
--     may still lie in the cache alone.
--   * Instr: the instructions of the blocks in util/instr.h and util/instr_just.h, with the
--     alignment that `vmovdqa`, `vmovntdqa` and `vmovntdq` ask for; a misaligned move is `none`. A
--     file beneath it holds each family of blocks, one definition for each function, named as in
--     the source, except that the leading underscore of those in util/instr_just.h is left off. A
--     block takes (dest, src) as there. Instr/Shape and Instr/Copies are about any block of that
--     shape.
--   * Walk: the walk over a buffer, which the routines of util/aep.h and util/aep_just.h spell out
--     in a copy each: up to a multiple of 64, in blocks of 512 to 64 bytes, then the rest. `walk`
--     is the body of the routines that flush nothing, `walk_flush` that of the routines that
--     write back line by line, `walk_nt` that of those that store past the cache. Walk/Sound,
--     Walk/Parts and Walk/Routines are about any blocks that keep an invariant, Walk/Fault about
--     blocks that fault.
--   * Aep: util/aep.h. Each routine is the walk with the blocks that it calls, and
--     `cpy_less_16b_noflush` is its own. Aep/Native is the section native, on `memcpy` and
--     `memset`, and `clwb_extent`. Aep/Copies and Aep/Native/Total are about whole routines, which
--     Aep/Family puts side by side.
--     Aep/Fault is about buffers that no aligned move can serve.
--   * AepJust: util/aep_just.h, the routines that only read or only write, as walks over the blocks
--     of util/instr_just.h. AepJust/Load and AepJust/Whole are about whole routines, on the pieces
--     in AepJust/Read and AepJust/Store; AepJust/Kept is about the registers.
--   * AepStudy: bgtest/AEP/aep_study.h. An operation takes the two readings of the clock as arguments
--     and returns their difference with the state. AepStudy/Persist and AepStudy/Strided are about
--     what the operations over util/aep.h leave in memory, and AepStudy/OneWay is about those
--     over util/aep_just.h.
--     AepStudy/Pmem is the operations that call pmem2, whose functions and flags are the
--     parameter `Pmem2`, and the tables of operations with their access in
--     bgtest/AEP/aep_study.cc; AepStudy/Pmem/Tables is about the tables.
--   * PmemMap: util/aep.cc, with the two ways of opening a file of util/file.cc. `Calls` says which of
--     the calls of pmem2 and of the system succeed, and the state counts what is open. PmemMap/Released
--     is about what each path releases.
--   * Bits: util/bitops.h. `bsf` and `bsr` are the instructions of its inline assembly, and `bit_ffs` and
--     `bit_fls` are `__ffs` and `__fls`. Bits/Scan is about what they find, on Bits/Masks, which is about
--     powers of two.
--   * Driver: bgtest/AEP/aep_study.cc. The globals are a record, and a `none` is an exit, an abort or what
--     is undefined. Driver itself is the flags, InitGlobalCfg, CheckGlobalCfg and the other settings;
--     Driver/Layout is about what a checked configuration means. Driver/Task is the struct Task,
--     PrepareJob and ThreadJob, and Driver/Task/Slots says where their slots lie. Driver/Run lets the
--     threads of a run take their rounds in any order: `Step` is a round of some thread, `Reach` a number
--     of steps. Driver/Run/Writer is the interface that a measured operation fills, which Driver/Run/Inv,
--     Driver/Run/Finish and Driver/Run/Thread use and Driver/Run/Copies and Driver/Run/Fills fill, with the
--     copies and the fills of AepStudy.
--     Driver/Run/Sweep is the rounds of MainJobNormal over the operations of a table, with the tables
--     for copying and for filling in Driver/Run/Sweep/Tables and that for writing in
--     Driver/Run/Sweep/Writes. What the threads read before the first round of an operation, their own
--     store of the byte `c`, and the data that they keep of a run are left out there.
--     Driver/Run/Job turns the loop of ThreadJob into steps, and Driver/Run/CopyJob is about a whole
--     ThreadJob, with Driver/Task/Prepare on its PrepareJob. Driver/Analyze is Analyze and
--     AnalyzeForCachelineFlush, with the sort, the ranks and the order of the times beneath it.
--     Driver/Vary is the configurations that MainJobVaryThreadNum and MainJobVaryAccessSize go through;
--     Driver/Vary/Round and Driver/Vary/Stale are about the former, Driver/Vary/Access about the latter.
--     Driver/Data is what a study maps, unmaps and prints, with the functions of PmemMap
--     and the report.
--     Driver/Names is the texts of the flags and of the sizes, with the tables between them, and the path
--     of the data of a task; its files are about reading such texts back, and about distinct paths.
--     Driver/RepDir is InitRepDir, and Driver/Report where a report prints and what it leaves open.
--     Driver/Main is what main puts together: ParseAndValidateFlags, the configurations up to
--     CheckGlobalCfg and the rounds, and SetEnv with libnuma as the parameter `Numa`. Driver/Main/Ready,
--     Driver/Main/Configs and Driver/Main/Bound are about these.
--   * Files: util/file.cc. Files itself is RemoveDirRecursive on a tree of files; Files/Plain says what it
--     depends on, and Files/Removed what it returns and leaves. Files/Calls is the functions of one system
--     call each, on a file system that is the parameter `FileSystem`.
--   * Cpu: util/cpu.h and util/cpu.cc, with the calls of pthread as the parameter `Affinity`; Cpu/Binding is
--     about cores, Cpu/Clock about the readings of the clock.
--   * Log: InitLog of util/log.cc, with glog as a parameter.
--   * AepTest: util/aep_test.cc, its arrays at given addresses, with AepTest/Passes on one test and
--     AepTest/Whole on the program.
--   * Tests: runs at concrete inputs.
--
-- Loops run on fuel. A walk of `len` bytes has `len + 1` rounds for its blocks of 512 bytes, each
-- of which takes 512 from `len`; the line loop of the native routines has as many for 64 bytes.
-- `clwb_extent` has `len / 64 + 3` rounds for the at most `len / 64 + 2` lines that meet an extent,
-- and the word loop of `aep_native_store_dram` has `len / 8 + 2` for `len` in steps of 8.
-- The scans of a word look at 64 bits, and the thread numbers from 1 up to 32, doubled, take 7 tests,
-- the access sizes from 16 up to 65536 take 14, the lengths of a test from 1 up to 1024 take 12. A number
-- has fewer digits than itself and one, which is the fuel of `to_string`. To run out of fuel is `none`, and a
-- theorem whose result is `Returns` excludes it.
--
-- The `int` counters of the rounds of a thread, of Analyze and of `aep_native_store_dram` end in `none` where
-- they overflow. `assert` and `dlog_assert` do nothing in what is modelled of aep_study.cc and util/cpu.cc,
-- since bgtest/AEP/CMakeLists.txt sets NDEBUG; `log_assert` aborts.
--
-- Not modelled: the speed of anything, which is what the study is about; the order in which the
-- hardware writes lines back before a fence, and evictions, which only add to what is durable;
-- addresses that wrap, except in `clwb_extent`, whose sums are in 64 bits, and
-- in the products of the driver; the macros of util/log.h and the texts that are logged and printed; the local
-- time, the seed and the bandwidth of a report; DropCache of util/cpu.h, which nothing calls; the trials
-- under tool_test and the other programs of bgtest/AEP. A round of a thread is one step, since what the
-- threads write lies apart. What is computed in `double`, the numbers that `rand` draws, the readings of the
-- clock and what libnuma says of a core are parameters.
pub mod Common
pub mod Machine
pub mod Instr
pub mod Walk
pub mod Aep
pub mod AepJust
pub mod AepStudy
pub mod AepTest
pub mod PmemMap
pub mod Bits
pub mod Cpu
pub mod Log
pub mod Driver
pub mod Files
pub mod Tests
