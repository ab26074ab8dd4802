-- ===== src/ConsoleReporter/Examples.antt =====
-- A failed test case with two lines of output, reported on the console.
use ctest.Prelude.{ℕ, ◌≡◌, refl, List, [], ◌∷◌, ◌++◌, none, some, arith}
use ctest.Result.{Result, result_fail}
use ctest.Output.{Output}
use ctest.ConsoleReporter.{wrap_output, wrap_from, wrap_last, find_newline}
use ctest.ConsoleReporter.Wrap.{lines, print_lines, wrap_output_lem}
use ctest.ConsoleReporter.Report.{
  Failure, report_result, name_of, verdict_word, setup_failed, reason_head, stacktrace_head,
  frame_line, location_line,
}
use ctest.ConsoleReporter.States.{
  Call, start, complete, calls, calls_lem, testcase_reporter_create, reports_once, first_completed,
}
use ctest.ConsoleReporter.Shown.{IsText, all_lines, whole_text, report_result-shows}

-- "hi\n\nyo"
abbrev two_lines : List ℕ
two_lines = 104 ∷ 105 ∷ 10 ∷ 10 ∷ 121 ∷ 111 ∷ []

two_lines-IsText : IsText two_lines
two_lines-IsText = (
  omega arith,
  (omega arith, (omega arith, (omega arith, (omega arith, (omega arith, record {}))))),
)

wrap_output_runs :
    wrap_output (62 ∷ []) two_lines
    ≡ some (62 ∷ 104 ∷ 105 ∷ 10 ∷ 62 ∷ 10 ∷ 62 ∷ 121 ∷ 111 ∷ 10 ∷ [])
unfolding wrap_output wrap_from wrap_last find_newline
wrap_output_runs = refl

wrap_output_lem_example :
    wrap_output (62 ∷ []) two_lines ≡ some (print_lines (62 ∷ []) (lines two_lines))
wrap_output_lem_example = wrap_output_lem (62 ∷ []) two_lines

abbrev captured : Output
captured = record { length = 7; data_bytes = two_lines ++ 0 ∷ [] }

abbrev failed_result : Result Failure Output
failed_result = record {
  type = result_fail;
  output = some captured;
  failure = some (record {
    stage = 0;
    description = two_lines;
    location = some (record { filename = 97 ∷ []; line = 7 });
    stacktrace = some (record { addr = 5; filename = some (97 ∷ []); line = 0 } ∷ []);
  });
}

report_result-shows_example :
    report_result 3 failed_result
    ≡ name_of 3
      ∷ verdict_word setup_failed
      ∷ location_line (97 ∷ []) 7
      ∷ reason_head
      ∷ all_lines two_lines
      ∷ stacktrace_head
      ∷ frame_line 5 (some (97 ∷ [])) none
      ∷ whole_text two_lines
report_result-shows_example =
    report_result-shows 3 failed_result captured two_lines [] refl refl two_lines-IsText
      (omega arith)

abbrev twice : List Call
twice =
    complete failed_result ∷ start ∷ start ∷ complete failed_result ∷ complete failed_result ∷ []

calls_lem_example :
    calls (testcase_reporter_create 3) twice ≡ reports_once 3 (first_completed twice)
calls_lem_example = calls_lem 3 twice
