-- ===== src/ForkingRunner/Child.antt =====
-- The child in src/exec/forking_runner.c: its execution hooks, which write to the parent, and the
-- status with which it exits.
use ctest.Prelude.{ℕ, List, [], ◌∷◌, ◌++◌, Option, none, some}
use ctest.Result.{ResultType, result_pass, result_fail, result_skipped, result_error}
use ctest.ExecEvents.{Storage}
use ctest.ExecEvents.Writer.{whole, writer_on_stage_change, writer_on_failure}

-- How the execution of a test case ends: it returns, calls the hook for a skip or for a failure, or
-- a signal is caught.
pub data Ending (F : Type 0) : Type 0 where
  returns : Ending F
  skips : Option F → Ending F
  fails : Option F → Ending F
  catches : ℕ → Ending F

-- The value of the enumeration, which is the status of exit.
unfoldable pub exit_child : ResultType → ℕ
exit_child result_pass = 0
exit_child result_fail = 1
exit_child result_skipped = 2
exit_child result_error = 3

-- `exec_hooks_t__`, with what the writer has put into the pipe.
pub record ExecHooks : Type 0 where
  pub stage : ℕ
  pub sent : List ℕ

unfoldable pub exec_hooks_init : ExecHooks
exec_hooks_init = record { stage = 0; sent = [] }

unfoldable pub exec_hooks_on_stage_change : ExecHooks → ℕ → ExecHooks
exec_hooks_on_stage_change hooks stage = record {
  stage = stage;
  sent = hooks.sent ++ writer_on_stage_change whole whole stage;
}

-- The stages through which the test case goes.
unfoldable pub change_stages : ExecHooks → List ℕ → ExecHooks
change_stages hooks [] = hooks
change_stages hooks (stage ∷ stages) = change_stages (exec_hooks_on_stage_change hooks stage) stages

-- `made stage signum` is the failure that the signal handler fills in. The pipe takes all writes.
module _ {F : Type 0} (storage : Storage F) (made : ℕ → ℕ → F) where
  unfoldable pub exec_hooks_on_signal : ExecHooks → ℕ → List ℕ × ℕ
  exec_hooks_on_signal hooks signum = (
    hooks.sent ++ writer_on_failure storage whole whole (made hooks.stage signum),
    exit_child result_fail,
  )

  unfoldable pub exec_hooks_on_short_circuit : ExecHooks → ResultType → Option F → List ℕ × ℕ
  exec_hooks_on_short_circuit hooks type none = (hooks.sent, exit_child type)
  exec_hooks_on_short_circuit hooks type (some f) =
      (hooks.sent ++ writer_on_failure storage whole whole f, exit_child type)

  unfoldable pub end_testcase : ExecHooks → Ending F → List ℕ × ℕ
  end_testcase hooks returns = (hooks.sent, exit_child result_pass)
  end_testcase hooks (skips f) = exec_hooks_on_short_circuit hooks result_skipped f
  end_testcase hooks (fails f) = exec_hooks_on_short_circuit hooks result_fail f
  end_testcase hooks (catches signum) = exec_hooks_on_signal hooks signum

  -- The child branch of runner_run_testcase__: what it writes to the hooks' pipe, and its status.
  unfoldable pub run_child : List ℕ → Ending F → List ℕ × ℕ
  run_child stages ending = end_testcase (change_stages exec_hooks_init stages) ending
