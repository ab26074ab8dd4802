-- ===== src/ConsoleReporter/Report.antt =====
-- What the reporter of src/exec/console_reporter.c prints when a test case is complete.
use ctest.Prelude.{
  ℕ, zero, suc, Bool, true, false, List, [], ◌∷◌, ◌++◌, Option, none, some, ltb, if◌then◌else◌, map,
}
use ctest.Result.{ResultType, result_pass, result_fail, result_skipped, result_error, Result}
use ctest.Output.{Output}
use ctest.ConsoleReporter.{wrap_output, c_string}

-- `ctest_location_t`, `ctest_stackframe_t` and `ctest_failure_t`; strings are without their 0.
pub record Location : Type 0 where
  pub filename : List ℕ
  pub line : ℕ

pub record StackFrame : Type 0 where
  pub addr : ℕ
  pub filename : Option (List ℕ)
  pub line : ℕ

-- The description is taken not to be NULL, as it is where vsnprintf can print it.
pub record Failure : Type 0 where
  pub stage : ℕ
  pub description : List ℕ
  pub location : Option Location
  pub stacktrace : Option (List StackFrame)

-- The word that is printed for a result.
pub data Verdict : Type 0 where
  ok : Verdict
  setup_failed : Verdict
  failed : Verdict
  teardown_failed : Verdict
  failed_unknown_stage : ℕ → Verdict
  skipped : Verdict
  internal_error : Verdict

-- The calls of fprintf; `wrapped` is the text of wrap_output__.
pub data Printed : Type 0 where
  name_of : ℕ → Printed
  verdict_word : Verdict → Printed
  location_line : List ℕ → ℕ → Printed
  reason_head : Printed
  wrapped : Option (List ℕ) → Printed
  stacktrace_head : Printed
  frame_line : ℕ → Option (List ℕ) → Option ℕ → Printed
  output_head : Printed

-- "    "
abbrev pub indent : List ℕ
indent = 32 ∷ 32 ∷ 32 ∷ 32 ∷ []

unfoldable pub report_location : Option Location → List Printed
report_location none = []
report_location (some l) = location_line l.filename l.line ∷ []

-- The line is printed with a file name only, and if it is above 0.
unfoldable pub report_frame : StackFrame → Printed
report_frame f = elim f.filename [
  | none ↦ frame_line f.addr none none
  | some name ↦ frame_line f.addr (some name) (if ltb 0 f.line then some f.line else none)
]

unfoldable pub report_stacktrace : Option (List StackFrame) → List Printed
report_stacktrace none = []
report_stacktrace (some []) = []
report_stacktrace (some (f ∷ frames)) = stacktrace_head ∷ map report_frame (f ∷ frames)

unfoldable pub report_failure : Option Failure → List Printed
report_failure none = []
report_failure (some f) =
    report_location f.location
    ++ (reason_head ∷ wrapped (wrap_output indent f.description) ∷ report_stacktrace f.stacktrace)

-- `none` is text that is read past the end of its block.
unfoldable pub wrap_string : Option (List ℕ) → Printed
wrap_string none = wrapped none
wrap_string (some str) = wrapped (wrap_output indent str)

unfoldable pub report_output : Option Output → List Printed
report_output none = []
report_output (some o) =
    if ltb 0 o.length then output_head ∷ wrap_string (c_string o.data_bytes) ∷ [] else []

-- The stage of a failed test case: CTEST_STAGE_EXECUTION is 1.
unfoldable pub stage_of : Option Failure → ℕ
stage_of none = 1
stage_of (some f) = f.stage

unfoldable pub failed_in : ℕ → Verdict
failed_in zero = setup_failed
failed_in (suc zero) = failed
failed_in (suc (suc zero)) = teardown_failed
failed_in stage = failed_unknown_stage stage

-- The switch on the type: the word, and whether the failure and the output are shown.
unfoldable pub verdict_of : ResultType → Option Failure → Verdict × Bool
verdict_of result_pass f = (ok, false)
verdict_of result_fail f = (failed_in (stage_of f), true)
verdict_of result_skipped f = (skipped, false)
verdict_of result_error f = (internal_error, true)

-- All that is printed for a result.
unfoldable pub report_result : ℕ → Result Failure Output → List Printed
report_result testcase r =
    let (word, shown) = verdict_of r.type r.failure in
    name_of testcase
    ∷ verdict_word word
    ∷ (if shown then report_failure r.failure ++ report_output r.output else [])
