-- ===== src/ForkingRunner/Verdict.antt =====
-- What wait_for_child__ of src/exec/forking_runner.c returns for each way in which a child ends.
use ctest.Prelude.{ℕ, zero, suc, ◌≡◌, refl, is_positive}
use ctest.Result.{ResultType, result_error, ctest_result_set_failure}
use ctest.ForkingRunner.{coerce_result_type}
use ctest.ForkingRunner.Wait.{
  WaitStatus, wait_error, other_pid, exited, signaled, other_status, Waiting, set_failure,
  exit_verdict, finish,
}

-- 1 for the ways to end that a runner counts as a failed test case.
abbrev pub counted : WaitStatus → ℕ
counted (exited zero) = 0
counted (exited (suc (suc zero))) = 0
counted (exited status) = 1
counted status = 0

-- The type that a way to end gives the result.
abbrev pub ends_as : WaitStatus → ResultType
ends_as (exited status) = coerce_result_type status
ends_as status = result_error

module _ {F : Type 0} where
  -- A test case counts as failed if its child exits with a status other than PASS and SKIPPED, and
  -- only then: a child that a signal kills, or that cannot be waited for, gives an ERROR that is not
  -- counted. The result has the type of the status, or is an ERROR.
  pub finish-counted :
      (status : WaitStatus) (w : Waiting F)
      → (is_positive (finish status w).retval ≡ counted status)
        × ((finish status w).result.type ≡ ends_as status)
  unfolding finish exit_verdict set_failure ctest_result_set_failure coerce_result_type
  finish-counted wait_error w = (refl, refl)
  finish-counted (other_pid pid) w = (refl, refl)
  finish-counted (exited zero) w = (refl, refl)
  finish-counted (exited (suc zero)) w = (refl, refl)
  finish-counted (exited (suc (suc zero))) w = (refl, refl)
  finish-counted (exited (suc (suc (suc n)))) w = (refl, refl)
  finish-counted (signaled signum) w = (refl, refl)
  finish-counted (other_status status) w = (refl, refl)
