-- ===== src/Driver/Report.antt =====
-- bgtest/AEP/aep_study.cc: where the lines of a report go, and what the report leaves open. The texts of
-- the lines are left out, `fdopen` is taken to succeed. A `none` is the exit.
use hlfs.Common.{
  ℕ, zero, suc, ◌+◌, ◌≡◌, refl, inl, inr, Bool, true, false, Option, none, some, if◌then◌else◌,
  ◌>>=◌, arith, Bool-cases,
}
use hlfs.PmemMap.{Resources, Calls, close, open_and_alloc_at_size}

pub data Stream : Type 0 where
  stdout file : Stream

-- The descriptors and the like, whether `stdout` is open, and the lines that were printed.
pub record Io : Type 0 where
  pub open_ones : Resources
  pub stdout_open : Bool
  pub on_stdout : ℕ
  pub in_file : ℕ

-- `report_fp_`, and whether `report_fd_` is open
pub record Report : Type 0 where
  pub report_fd : Bool
  pub report_fp : Stream

unfoldable pub print : (lines : ℕ) → Stream → Io → Io
print lines stdout io = record io { on_stdout = io.on_stdout + lines }
print lines file io = record io { in_file = io.in_file + lines }

-- The constructor: the path behind `use_std` is taken with and without a file.
unfoldable pub report : Calls → (empty_time : Bool) → Io → Option (Report × Io)
report calls true io = some (record { report_fd = false; report_fp = stdout }, io)
report calls false io =
    let opened = open_and_alloc_at_size calls 0 io.open_ones in
    if opened.0
    then some (
      record { report_fd = true; report_fp = stdout },
      print 12 file (record io { open_ones = opened.1 }),
    )
    else none

-- ReportSubOp prints one line.
unfoldable pub report_sub_ops : (n : ℕ) → Report → Io → Io
report_sub_ops zero rep io = io
report_sub_ops (suc n) rep io = report_sub_ops n rep (print 1 rep.report_fp io)

unfoldable pub fclose : Stream → Io → Io
fclose stdout io = record io { stdout_open = false }
fclose file io = record io { open_ones = close io.open_ones }

unfoldable pub destroy_report : Report → Io → Io
destroy_report rep io = elim rep.report_fp [
  | stdout ↦ fclose stdout io
  | file ↦ let io₁ = fclose file io in record io₁ { open_ones = close io₁.open_ones }
]

-- A report of `n` operations, as main makes it.
unfoldable pub reported : Calls → (n : ℕ) → Io → Option Io
reported calls n io =
    report calls false io >>= λ r. some (destroy_report r.0 (report_sub_ops n r.0 r.1))

pub report_sub_ops-stdout :
    (n m : ℕ) (fd : Bool) (io : Io)
    → io.on_stdout + n ≡ m
    → report_sub_ops n (record { report_fd = fd; report_fp = stdout }) io
      ≡ record io { on_stdout = m }
unfolding report_sub_ops print
report_sub_ops-stdout zero m fd io e =
    let same : io.on_stdout ≡ m = omega (arith, e) in rw same refl
report_sub_ops-stdout (suc n) m fd io e =
    report_sub_ops-stdout n m fd (record io { on_stdout = io.on_stdout + 1 }) (omega (arith, e))

-- A report of `n` operations, from its constructor to its destructor: where the file can be
-- opened, 12 lines are printed to the file, the `n` lines on the operations to stdout, which is
-- then closed, and one more descriptor stays open; where it cannot, the program exits.
pub reported_lem :
    (calls : Calls) (n : ℕ) (io : Io)
    → reported calls n io ≡ (
        if calls.open_create io.open_ones
        then some (record io {
          open_ones = record io.open_ones { fds = io.open_ones.fds + 1 };
          stdout_open = false;
          on_stdout = io.on_stdout + n;
          in_file = io.in_file + 12;
        })
        else none)
unfolding reported report open_and_alloc_at_size destroy_report fclose print
reported_lem calls n io = elim (Bool-cases (calls.open_create io.open_ones)) [
  | inr e ↦ rw e refl
  | inl e ↦
      let opened : Io = record io {
        open_ones = record io.open_ones { fds = io.open_ones.fds + 1 };
        in_file = io.in_file + 12;
      } in
      rw (e, report_sub_ops-stdout n (io.on_stdout + n) true opened refl) refl
]
