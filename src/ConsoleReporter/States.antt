-- ===== src/ConsoleReporter/States.antt =====
-- The states of the test case reporter of src/exec/console_reporter.c, and the reporters that it
-- refuses to create.
use ctest.Prelude.{ℕ, ◌≡◌, refl, List, [], ◌∷◌, ◌++◌, Option, none, some, append-nil}
use ctest.Result.{Result}
use ctest.Output.{Output}
use ctest.ConsoleReporter.Report.{Failure, Printed, report_result}

-- `testcase_state_t__`
pub data TestcaseState : Type 0 where
  pending : TestcaseState
  running : TestcaseState
  completed : TestcaseState

-- `testcase_reporter_t__`
pub record TestcaseReporter : Type 0 where
  pub testcase : ℕ
  pub state : TestcaseState

-- The calls of a runner.
pub data Call : Type 0 where
  start : Call
  complete : Result Failure Output → Call

unfoldable pub testcase_reporter_create : ℕ → TestcaseReporter
testcase_reporter_create testcase = record { testcase = testcase; state = pending }

unfoldable pub start_from : TestcaseState → TestcaseReporter → TestcaseReporter
start_from pending r = record r { state = running }
start_from state r = r

unfoldable pub op_start : TestcaseReporter → TestcaseReporter
op_start r = start_from r.state r

-- The reporter, what is printed, and the results that are destroyed.
unfoldable pub complete_from :
    TestcaseState
    → TestcaseReporter
    → Result Failure Output
    → TestcaseReporter × List Printed × List (Result Failure Output)
complete_from running r result =
    (record r { state = completed }, report_result r.testcase result, result ∷ [])
complete_from state r result = (r, [], [])

unfoldable pub op_complete :
    TestcaseReporter
    → Result Failure Output
    → TestcaseReporter × List Printed × List (Result Failure Output)
op_complete r result = complete_from r.state r result

-- A sequence of calls: what is printed and destroyed.
unfoldable pub calls : TestcaseReporter → List Call → List Printed × List (Result Failure Output)
calls r [] = ([], [])
calls r (start ∷ rest) = calls (op_start r) rest
calls r (complete result ∷ rest) =
    let (r', printed, destroyed) = op_complete r result in
    let (printed', destroyed') = calls r' rest in (printed ++ printed', destroyed ++ destroyed')

-- The first result that is completed after a start.
abbrev pub first_result : List Call → Option (Result Failure Output)
first_result [] = none
first_result (complete result ∷ rest) = some result
first_result (start ∷ rest) = first_result rest

abbrev pub first_completed : List Call → Option (Result Failure Output)
first_completed [] = none
first_completed (start ∷ rest) = first_result rest
first_completed (complete result ∷ rest) = first_completed rest

-- What a result that is reported, or none, comes to.
abbrev pub reports_once :
    ℕ → Option (Result Failure Output) → List Printed × List (Result Failure Output)
reports_once testcase none = ([], [])
reports_once testcase (some result) = (report_result testcase result, result ∷ [])

calls-completed :
    (testcase : ℕ) (cs : List Call)
    → calls (record { testcase = testcase; state = completed }) cs ≡ ([], [])
unfolding calls op_start start_from op_complete complete_from
calls-completed testcase [] = refl
calls-completed testcase (start ∷ cs) = calls-completed testcase cs
calls-completed testcase (complete result ∷ cs) = calls-completed testcase cs

calls-running :
    (testcase : ℕ) (cs : List Call)
    → calls (record { testcase = testcase; state = running }) cs
      ≡ reports_once testcase (first_result cs)
unfolding calls op_start start_from op_complete complete_from
calls-running testcase [] = refl
calls-running testcase (start ∷ cs) = calls-running testcase cs
calls-running testcase (complete result ∷ cs) =
    let e : calls (record { testcase = testcase; state = completed }) cs ≡ ([], []) =
      calls-completed testcase cs in
    rw (e, append-nil (report_result testcase result)) refl

-- Whatever calls a runner makes, a test case is reported once at most: the first result completed
-- after a start is printed and destroyed, and no other result is either.
pub calls_lem :
    (testcase : ℕ) (cs : List Call)
    → calls (testcase_reporter_create testcase) cs ≡ reports_once testcase (first_completed cs)
unfolding testcase_reporter_create calls op_start start_from op_complete complete_from
calls_lem testcase [] = refl
calls_lem testcase (start ∷ cs) = calls-running testcase cs
calls_lem testcase (complete result ∷ cs) = calls_lem testcase cs
