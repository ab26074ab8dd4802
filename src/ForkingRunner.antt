-- ===== src/ForkingRunner.antt =====
-- The parent in src/exec/forking_runner.c: it polls the two pipes of a child, waits for it, and says
-- what came of the test case.
pub mod Wait
pub mod Verdict
mod Drain
pub mod Reports
pub mod Child
pub mod Testcase
pub mod System
mod Examples
use ctest.Prelude.{
  ℕ, zero, suc, ℤ, pos, negsuc, Bool, true, false, not, ◌&&◌, ◌||◌, List, [], ◌∷◌, Option, none,
  some,
}
use ctest.Result.{ResultType, result_pass, result_fail, result_skipped, result_error}
use ctest.ExecEvents.{Event, stage_change, failure}

-- The values of `ctest_result_type_t`, and coerce_result_type__.
unfoldable pub coerce_result_type : ℕ → ResultType
coerce_result_type zero = result_pass
coerce_result_type (suc zero) = result_fail
coerce_result_type (suc (suc zero)) = result_skipped
coerce_result_type _ = result_error

-- `child_event_consumer_t__`
pub record Consumer (F : Type 0) : Type 0 where
  pub stage : ℕ
  pub last_failure : Option F

module _ {F : Type 0} where
  -- CTEST_STAGE_SETUP is 0.
  unfoldable pub child_event_consumer_init : Consumer F
  child_event_consumer_init = record { stage = 0; last_failure = none }

  -- The previous failure is destroyed.
  unfoldable pub child_event_consumer_on_event : Consumer F → Event F → Consumer F
  child_event_consumer_on_event c (stage_change stage) = record c { stage = stage }
  child_event_consumer_on_event c (failure f) = record c { last_failure = some f }

  -- The consumer after the events that the reader told it.
  unfoldable pub consume : Consumer F → List (Event F) → Consumer F
  consume c [] = c
  consume c (e ∷ events) = consume (child_event_consumer_on_event c e) events

-- A descriptor is closed by its sign: `fd = -fd`, `fd >= 0`. Zero stays open.
unfoldable pub negate : ℤ → ℤ
negate (pos zero) = pos zero
negate (pos (suc n)) = negsuc n
negate (negsuc n) = pos (suc n)

unfoldable pub is_open : ℤ → Bool
is_open (pos n) = true
is_open (negsuc n) = false
