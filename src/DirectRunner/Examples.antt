-- ===== src/DirectRunner/Examples.antt =====
-- A test case that is skipped by the direct runner.
use ctest.Prelude.{ℕ, zero, suc, ◌≡◌, refl, true, List, [], ◌∷◌, none, some, arith}
use ctest.Pipe.{grants}
use ctest.ForkingRunner.Child.{Ending, skips, run_child}
use ctest.ConsoleReporter.Report.{report_output}
use ctest.ConsoleReporter.Shown.{whole_text}
use ctest.DirectRunner.{
  ReadBack, read_output, Answers, direct_run_testcase, with_stdin_saved, with_stdout_saved,
  with_stderr_saved, with_stdin_new, with_stdout_new, call_first, run_redirected, redirect,
  undo_redirection, stdout_new_failed, stdin_new_failed, stderr_saved_failed, stdout_saved_failed,
  stdin_saved_failed,
}
use ctest.DirectRunner.Verdict.{Agrees, after_jump-execute}
use ctest.Result.{result_pass}
use ctest.ExecEvents.{Storage}
use ctest.ForkingRunner.Wait.{Waiting, start_waiting}
use ctest.DirectRunner.Descriptors.{Table, other_file, steps, AllGranted, IsRedirected, at_testcase}
use ctest.DirectRunner.Closed.{direct_run_testcase-closes}
use ctest.DirectRunner.Captured.{report_output-read_output}

abbrev skipping : Ending ℕ
skipping = skips (some 5)

-- A failure is one byte.
abbrev numbers : Storage ℕ
numbers = record {
  serialize = λ f. some (f ∷ []);
  deserialize = λ b. elim b [ [] ↦ none | f ∷ bytes ↦ some f ];
}

abbrev parent : Waiting ℕ
parent = start_waiting (record { type = result_pass; output = none; failure = none }) 8 9 [] []

after_jump-execute_example :
    Agrees 1 skipping (run_child numbers (λ stage signum. 0) (1 ∷ []) skipping).1 parent
after_jump-execute_example = after_jump-execute numbers (λ stage signum. 0) (1 ∷ []) skipping parent

abbrev hi : List ℕ
hi = 104 ∷ 105 ∷ []

-- All descriptors can be had, and all calls of dup2 succeed.
abbrev answers : Answers
answers = record {
  stdin_saved = some 3;
  stdout_saved = some 4;
  stderr_saved = some 5;
  stdin_new = some 6;
  stdout_new = some 7;
  stdin_redirected = true;
  stdout_redirected = true;
  stderr_redirected = true;
  stdin_restored = true;
  stdout_restored = true;
  stderr_restored = true;
}

-- Only the standard descriptors are open.
abbrev terminal : Table
terminal zero = some (other_file 100)
terminal (suc zero) = some (other_file 101)
terminal (suc (suc zero)) = some (other_file 102)
terminal (suc (suc (suc n))) = none

abbrev back : ReadBack
back = record { seeks = true; created = true; answer = grants 7 }

answers-AllGranted : AllGranted (λ t. t) terminal (direct_run_testcase answers 0 skipping back hi).1
unfolding direct_run_testcase with_stdin_saved with_stdout_saved with_stderr_saved with_stdin_new
    with_stdout_new call_first run_redirected redirect undo_redirection stdout_new_failed
    stdin_new_failed stderr_saved_failed stdout_saved_failed stdin_saved_failed
answers-AllGranted = (
  refl,
  (
    refl,
    (
      refl,
      (
        refl,
        (
          refl,
          (
            record {},
            (
              record {},
              (
                record {},
                (
                  record {},
                  (
                    record {},
                    (
                      record {},
                      (
                        record {},
                        (
                          record {},
                          (
                            record {},
                            (
                              record {},
                              (
                                record {},
                                (
                                  record {},
                                  (
                                    record {},
                                    (
                                      record {},
                                      (
                                        record {},
                                        (
                                          record {},
                                          (
                                            record {},
                                            (record {}, (record {}, (record {}, record {}))),
                                          ),
                                        ),
                                      ),
                                    ),
                                  ),
                                ),
                              ),
                            ),
                          ),
                        ),
                      ),
                    ),
                  ),
                ),
              ),
            ),
          ),
        ),
      ),
    ),
  ),
)

direct_run_testcase-closes_example :
    let acts = (direct_run_testcase answers 0 skipping back hi).1 in
    (steps (λ t. t) terminal acts 1 ≡ terminal 1)
    × IsRedirected answers (at_testcase (λ t. t) terminal acts)
direct_run_testcase-closes_example =
    direct_run_testcase-closes ℕ (λ t. t) (λ t x p. refl) answers 0 skipping back hi terminal
      (other_file 100) (other_file 101) (other_file 102) refl refl refl answers-AllGranted 1 refl

report_output-read_output_example : report_output (read_output back hi) ≡ whole_text hi
report_output-read_output_example =
    report_output-read_output (grants 7) hi (omega arith, (omega arith, record {})) refl
      (omega arith)
