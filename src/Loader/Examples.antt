-- ===== src/Loader/Examples.antt =====
-- A test that reports and aborts, with a teardown that reports too and tries to skip.
use ctest.Prelude.{◌≡◌, refl, true, false, List, [], ◌∷◌, Option, none, some}
use ctest.Loader.{Act, report, abort, abort_skip, abort_fail, on_stage_change, on_failure}
use ctest.Loader.Execute.{testcase_op_execute}
use ctest.Loader.Clean.{IsClean, due, testcase_op_execute-IsClean}
use ctest.Loader.Outcome.{testcase_op_execute-told}

abbrev failing : List Act
failing = report none ∷ report (some 5) ∷ abort abort_fail ∷ report (some 6) ∷ []

abbrev skipping : Option (List Act)
skipping = some (report (some 7) ∷ abort abort_skip ∷ [])

testcase_op_execute-IsClean_example :
    IsClean 70
      (due skipping)
      (testcase_op_execute 80 70 true 200 (some 9) (report (some 4) ∷ []) failing skipping)
testcase_op_execute-IsClean_example =
    testcase_op_execute-IsClean 80 70 true 200 (some 9) (report (some 4) ∷ []) failing skipping refl

testcase_op_execute-told_example :
    (testcase_op_execute 80 70 false 16 (some 9) [] failing skipping).told
    ≡ on_stage_change 0
      ∷ on_stage_change 1
      ∷ on_failure (some (record { stage = 1; text = 5 }))
      ∷ []
testcase_op_execute-told_example =
    testcase_op_execute-told 80 70 false 16 (some 9) [] failing skipping refl
