-- ===== src/DirectRunner.antt =====
-- src/exec/direct_runner.c: a test case that is run in the process of the runner, with its output
-- redirected to a temporary file.
pub mod Verdict
pub mod Descriptors
pub mod Opened
pub mod Closed
pub mod Captured
mod Examples
use ctest.Prelude.{
  ℕ, zero, suc, ◌+◌, ℤ, pos, Bool, true, false, List, [], ◌∷◌, ◌++◌, Option, none, some, length,
  replicate, map, if◌then◌else◌,
}
use ctest.Pipe.{Answer, taken}
use ctest.Result.{
  ResultType, result_pass, result_fail, result_skipped, result_error, Result,
  ctest_result_set_failure, ctest_result_set_output,
}
use ctest.Output.{Output, ctest_output_create}
use ctest.Output.Reader.{store}
use ctest.ForkingRunner.Child.{Ending, returns, skips, fails, catches}

-- A failure is the test's, or one that the runner makes, with the stage and a number.
pub data Failure (F : Type 0) : Type 0 where
  from_test : F → Failure F
  caught_signal : ℕ → ℕ → Failure F
  unexpected_error : ℕ → ℕ → Failure F
  unexpected_return : ℕ → ℕ → Failure F

-- `exec_hooks_t__`
pub record ExecHooks (F : Type 0) : Type 0 where
  pub result : Result (Failure F) Output
  pub error : ℕ
  pub stage : ℕ

-- The value of sigsetjmp: 0, or that of the siglongjmp.
pub data Jump : Type 0 where
  from_setjmp : Jump
  result_type_normal : Jump
  result_type_signal : Jump
  result_type_errno : Jump
  other_jump : ℕ → Jump

module _ {F : Type 0} where
  unfoldable pub short_circuit : ResultType → Option F → ExecHooks F → Jump × ExecHooks F
  short_circuit type f h =
      let (_, result, _) = ctest_result_set_failure h.result type (as_failure f) in
      (result_type_normal, record h { result = result })
    where
      as_failure : Option F → Option (Failure F)
      as_failure none = none
      as_failure (some g) = some (from_test g)

  -- How the test case leaves the switch: `stage` is the last stage that it was told.
  unfoldable pub execute : ℕ → Ending F → ExecHooks F → Jump × ExecHooks F
  execute stage returns h = (from_setjmp, record h { stage = stage })
  execute stage (skips f) h = short_circuit result_skipped f (record h { stage = stage })
  execute stage (fails f) h = short_circuit result_fail f (record h { stage = stage })
  execute stage (catches signum) h =
      (result_type_signal, record h { stage = stage; error = signum })

  unfoldable pub set_failure : ResultType → Failure F → ExecHooks F → ExecHooks F
  set_failure type f h =
      let (_, result, _) = ctest_result_set_failure h.result type (some f) in
      record h { result = result }

  -- The cases of the switch: `result`, and the hooks.
  unfoldable pub after_jump : Jump × ExecHooks F → ℤ × ExecHooks F
  after_jump (from_setjmp, h) =
      let result : Result (Failure F) Output = record h.result { type = result_pass } in
      (pos 0, record h { result = result })
  after_jump (result_type_normal, h) = (pos 1, h)
  after_jump (result_type_signal, h) =
      (pos 1, set_failure result_fail (caught_signal h.stage h.error) h)
  after_jump (result_type_errno, h) =
      (pos 1, set_failure result_error (unexpected_error h.stage h.error) h)
  after_jump (other_jump rc, h) = (pos 1, set_failure result_error (unexpected_return h.stage rc) h)

  -- exec_hooks_init__, where ctest_result_create_empty gives a result.
  unfoldable pub exec_hooks_init : ExecHooks F
  exec_hooks_init = record {
    result = record { type = result_pass; output = none; failure = none };
    error = 0;
    stage = 0;
  }

-- What the file system answers when the output is read back: lseek, calloc and read.
pub record ReadBack : Type 0 where
  pub seeks : Bool
  pub created : Bool
  pub answer : Answer

-- read_output__ on a file that holds `text`.
unfoldable pub fill_output : List ℕ → Option Output → Option Output
fill_output bytes none = none
fill_output bytes (some o) =
    some (record { length = length bytes; data_bytes = store o.data_bytes 0 bytes })

unfoldable pub read_output : ReadBack → List ℕ → Option Output
read_output back text =
    if back.seeks
    then fill_output (taken back.answer (length text) text)
        (ctest_output_create back.created (length text + 1))
    else none

-- What the system answers: the descriptors of dup, open and opentemp, and whether each dup2 succeeds.
pub record Answers : Type 0 where
  pub stdin_saved : Option ℕ
  pub stdout_saved : Option ℕ
  pub stderr_saved : Option ℕ
  pub stdin_new : Option ℕ
  pub stdout_new : Option ℕ
  pub stdin_redirected : Bool
  pub stdout_redirected : Bool
  pub stderr_redirected : Bool
  pub stdin_restored : Bool
  pub stdout_restored : Bool
  pub stderr_restored : Bool

-- STDIN_FILENO, STDOUT_FILENO and STDERR_FILENO
abbrev pub stdin_fileno : ℕ
stdin_fileno = 0

abbrev pub stdout_fileno : ℕ
stdout_fileno = 1

abbrev pub stderr_fileno : ℕ
stderr_fileno = 2

-- The calls that a run makes: `dup_fd fd new` is a dup of `fd` that gives `new`, and `dup2_fd ok fd to`
-- a dup2 of `fd` to `to`, which succeeds or not.
pub data Act (F : Type 0) : Type 0 where
  dup_fd : ℕ → ℕ → Act F
  open_null : ℕ → Act F
  open_temp : ℕ → Act F
  close_fd : ℕ → Act F
  dup2_fd : Bool → ℕ → ℕ → Act F
  reporter_start : Act F
  execute_testcase : Act F
  reporter_complete : Result (Failure F) Output → Act F

module _ {F : Type 0} where
  -- What is done at each of the labels, up to the `return`.
  unfoldable pub stdin_saved_failed : List (Act F)
  stdin_saved_failed = []

  unfoldable pub stdout_saved_failed : ℕ → List (Act F)
  stdout_saved_failed stdin_saved = close_fd stdin_saved ∷ stdin_saved_failed

  unfoldable pub stderr_saved_failed : ℕ → ℕ → List (Act F)
  stderr_saved_failed stdin_saved stdout_saved =
      close_fd stdout_saved ∷ stdout_saved_failed stdin_saved

  unfoldable pub stdin_new_failed : ℕ → ℕ → ℕ → List (Act F)
  stdin_new_failed stdin_saved stdout_saved stderr_saved =
      close_fd stderr_saved ∷ stderr_saved_failed stdin_saved stdout_saved

  unfoldable pub stdout_new_failed : ℕ → ℕ → ℕ → ℕ → List (Act F)
  stdout_new_failed stdin_saved stdout_saved stderr_saved stdin_new =
      close_fd stdin_new ∷ stdin_new_failed stdin_saved stdout_saved stderr_saved

  -- Redirect stdin, stdout and stderr.
  unfoldable pub redirect : Answers → ℕ → ℕ → List (Act F) → List (Act F)
  redirect a stdin_new stdout_new next =
      close_fd stdin_fileno
      ∷ close_fd stdout_fileno
      ∷ close_fd stderr_fileno
      ∷ dup2_fd a.stdin_redirected stdin_new stdin_fileno
      ∷ dup2_fd a.stdout_redirected stdout_new stdout_fileno
      ∷ dup2_fd a.stderr_redirected stdout_new stderr_fileno
      ∷ next

  -- Undo the redirection.
  unfoldable pub undo_redirection : Answers → ℕ → ℕ → ℕ → List (Act F) → List (Act F)
  undo_redirection a stdin_saved stdout_saved stderr_saved next =
      close_fd stdin_fileno
      ∷ close_fd stdout_fileno
      ∷ close_fd stderr_fileno
      ∷ dup2_fd a.stdin_restored stdin_saved stdin_fileno
      ∷ dup2_fd a.stdout_restored stdout_saved stdout_fileno
      ∷ dup2_fd a.stderr_restored stderr_saved stderr_fileno
      ∷ next

  -- `result`, and the result that is reported.
  unfoldable pub run_outcome : ℕ → Ending F → ReadBack → List ℕ → ℤ × Result (Failure F) Output
  run_outcome stage ending back text =
      let (rc, h) = after_jump (execute stage ending exec_hooks_init) in
      let (_, result, _) = ctest_result_set_output h.result (read_output back text) in (rc, result)

  -- From the sigsetjmp on, with all five descriptors.
  unfoldable pub run_redirected :
      Answers → ℤ × Result (Failure F) Output → ℕ → ℕ → ℕ → ℕ → ℕ → ℤ × List (Act F)
  run_redirected a out stdin_saved stdout_saved stderr_saved stdin_new stdout_new = (
    out.0,
    reporter_start
        ∷ redirect a stdin_new stdout_new (
            execute_testcase
            ∷ undo_redirection a stdin_saved stdout_saved stderr_saved (
                reporter_complete out.1
                ∷ close_fd stdout_new
                ∷ stdout_new_failed stdin_saved stdout_saved stderr_saved stdin_new)),
  )

  -- An act, and those after it.
  unfoldable pub call_first : Act F → ℤ × List (Act F) → ℤ × List (Act F)
  call_first act run = (run.0, act ∷ run.1)

  -- Each descriptor in turn, or the jump to its label.
  unfoldable pub with_stdout_new :
      Answers → ℤ × Result (Failure F) Output → ℕ → ℕ → ℕ → ℕ → Option ℕ → ℤ × List (Act F)
  with_stdout_new a out i j k m none = (pos 1, stdout_new_failed i j k m)
  with_stdout_new a out i j k m (some fd) =
      call_first (open_temp fd) (run_redirected a out i j k m fd)

  unfoldable pub with_stdin_new :
      Answers → ℤ × Result (Failure F) Output → ℕ → ℕ → ℕ → Option ℕ → ℤ × List (Act F)
  with_stdin_new a out i j k none = (pos 1, stdin_new_failed i j k)
  with_stdin_new a out i j k (some fd) =
      call_first (open_null fd) (with_stdout_new a out i j k fd a.stdout_new)

  unfoldable pub with_stderr_saved :
      Answers → ℤ × Result (Failure F) Output → ℕ → ℕ → Option ℕ → ℤ × List (Act F)
  with_stderr_saved a out i j none = (pos 1, stderr_saved_failed i j)
  with_stderr_saved a out i j (some fd) =
      call_first (dup_fd stderr_fileno fd) (with_stdin_new a out i j fd a.stdin_new)

  unfoldable pub with_stdout_saved :
      Answers → ℤ × Result (Failure F) Output → ℕ → Option ℕ → ℤ × List (Act F)
  with_stdout_saved a out i none = (pos 1, stdout_saved_failed i)
  with_stdout_saved a out i (some fd) =
      call_first (dup_fd stdout_fileno fd) (with_stderr_saved a out i fd a.stderr_saved)

  unfoldable pub with_stdin_saved :
      Answers → ℤ × Result (Failure F) Output → Option ℕ → ℤ × List (Act F)
  with_stdin_saved a out none = (pos 1, stdin_saved_failed)
  with_stdin_saved a out (some fd) =
      call_first (dup_fd stdin_fileno fd) (with_stdout_saved a out fd a.stdout_saved)

  -- runner_run_testcase__
  unfoldable pub direct_run_testcase : Answers → ℕ → Ending F → ReadBack → List ℕ → ℤ × List (Act F)
  direct_run_testcase a stage ending back text =
      with_stdin_saved a (run_outcome stage ending back text) a.stdin_saved
