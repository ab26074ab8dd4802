-- ===== src/DirectRunner/Verdict.antt =====
-- The verdicts of src/exec/direct_runner.c and of src/exec/forking_runner.c on the same test case.
use ctest.Prelude.{ℕ, ◌≡◌, refl, ap, subst, sym, ℤ, pos, List}
use ctest.Result.{ctest_result_set_failure}
use ctest.ExecEvents.{Storage}
use ctest.ForkingRunner.{coerce_result_type}
use ctest.ForkingRunner.Child.{Ending, returns, skips, fails, catches, run_child, exit_child}
use ctest.ForkingRunner.Wait
use ctest.ForkingRunner.Wait.{Waiting, exited, exit_verdict, finish}
use ctest.ForkingRunner.System.{ending_type, last_stage, run_child_lem}
use ctest.DirectRunner
use ctest.DirectRunner.{short_circuit, execute, after_jump, exec_hooks_init}

module _ {F : Type 0} where
  -- How the value of the direct runner stands to that of the forking runner.
  abbrev pub Compares : Ending F → ℤ → ℤ → Type 0
  Compares (skips f) direct forking = (direct ≡ pos 1) × (forking ≡ pos 0)
  Compares ending direct forking = direct ≡ forking

  -- The direct runner, for a test case that ends in `stage`, beside a parent whose child has exited
  -- with `status`.
  abbrev pub Agrees : ℕ → Ending F → ℕ → Waiting F → Type 0
  Agrees stage ending status w =
      let (rc, h) = after_jump (execute stage ending exec_hooks_init) in
      let parent = finish (exited status) w in
      (h.result.type ≡ parent.result.type) × Compares ending rc parent.retval

  Agrees-ending_type :
      (stage : ℕ) (ending : Ending F) (w : Waiting F)
      → Agrees stage ending (exit_child (ending_type ending)) w
  unfolding execute after_jump short_circuit DirectRunner.set_failure exec_hooks_init
      ctest_result_set_failure finish exit_verdict Wait.set_failure coerce_result_type exit_child
  Agrees-ending_type stage returns w = (refl, refl)
  Agrees-ending_type stage (skips f) w = (refl, (refl, refl))
  Agrees-ending_type stage (fails f) w = (refl, refl)
  Agrees-ending_type stage (catches signum) w = (refl, refl)

  -- The direct runner gives a test case the type that the parent of the forking runner gives it,
  -- whose child goes through the same stages, ends in the same way and exits with the status that
  -- this makes; it also returns the same value, but for a skip: there it returns 1, a failure, and
  -- the forking runner 0.
  pub after_jump-execute :
      (storage : Storage F) (made : ℕ → ℕ → F) (stages : List ℕ) (ending : Ending F) (w : Waiting F)
      → Agrees (last_stage 0 stages) ending (run_child storage made stages ending).1 w
  after_jump-execute storage made stages ending w =
      subst (λ (status : ℕ). Agrees (last_stage 0 stages) ending status w)
        (sym (ap (λ (b : List ℕ × ℕ). b.1) (run_child_lem storage made stages ending)))
        (Agrees-ending_type (last_stage 0 stages) ending w)
