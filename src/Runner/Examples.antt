-- ===== src/Runner/Examples.antt =====
-- The runner on two suites: tests 1 and 3 in suite 10, test 2 in suite 20, each with two test cases.
use ctest.Prelude.{
  ℕ, ◌+◌, ◌*◌, ◌/◌, ◌≡◌, refl, ◌==◌, if◌then◌else◌, List, [], ◌∷◌, true, some, arith, pos, negsuc,
}
use ctest.Suite.{Registry}
use ctest.Runner.Group.{group_by}
use ctest.Runner.Trace.{Host, executed, failures}
use ctest.Runner.Partition.{repartition_tests, repartition_testcases, move_forward}
use ctest.Runner.Partition.{sort_testcases, take_suite, scan_testcases, visit_testcase}
use ctest.Runner.Partition.Contract.{
  IsSuiteOrder, IsTestOrder, repartition_tests-IsSuiteOrder, repartition_testcases-IsTestOrder,
}
use ctest.Runner.Run.{
  runner_run_testsuites, runner_run_tests, runner_run_testcases, run_testsuites_from, run_testsuite,
  run_tests_in_testsuite, run_test, run_testcases_in_test,
}
use ctest.Runner.Run.Protocol.{
  IsConsistent, IsClean, runner_run_tests-live, runner_run_testcases-live,
}
use ctest.Runner.Run.Account.{Accounts}
use ctest.Runner.Run.Entry.{
  Answers, runner_run_testsuites-Accounts, runner_run_tests-Answers, runner_run_testcases-Answers,
}
use ctest.Runner.Run.Total.{IsWilling, runner_run_testsuites-counts}

abbrev sample : Registry
sample = record {
  testcase_get_test = λ testcase. testcase / 10;
  test_get_testsuite = λ test. if test == 2 then 20 else 10;
  test_get_testcases = λ test. (10 * test + 1) ∷ (10 * test + 2) ∷ [];
  testsuite_get_tests = λ s. if s == 20 then 2 ∷ [] else if s == 10 then 1 ∷ 3 ∷ [] else [];
}

sample-IsConsistent : IsConsistent sample
sample-IsConsistent = record { testcases_own = λ test. omega arith; tests_own = λ s. ground arith }

-- Every reporter is created; test case 22 fails and all others pass.
abbrev one_fails : Host
one_fails = record { reports = λ t e. true; outcome = λ t k. if k == 22 then pos 1 else pos 0 }

one_fails-IsWilling : IsWilling one_fails
one_fails-IsWilling = record {
  reports_all = λ t e. refl;
  no_error = λ t k. (if k == 22 then 1 else 0, ground arith);
}

-- The callback breaks off at test case 22.
abbrev breaks_off : Host
breaks_off = record { reports = λ t e. true; outcome = λ t k. if k == 22 then negsuc 0 else pos 0 }

abbrev mixed : List ℕ
mixed = 11 ∷ 21 ∷ 31 ∷ 12 ∷ 22 ∷ []

-- The loops, run.
repartition_testcases_runs :
    repartition_testcases sample true mixed ≡ some (11 ∷ 12 ∷ 31 ∷ 21 ∷ 22 ∷ [])
unfolding repartition_testcases sort_testcases take_suite scan_testcases visit_testcase move_forward
repartition_testcases_runs = refl

run_counts : (runner_run_testsuites sample one_fails (20 ∷ 10 ∷ []) []).0 ≡ pos 1
unfolding runner_run_testsuites run_testsuites_from run_testsuite run_tests_in_testsuite run_test
    run_testcases_in_test
run_counts = refl

repartition_tests-IsSuiteOrder_example :
    (result : List ℕ) × (repartition_tests sample true (1 ∷ 2 ∷ 3 ∷ []) ≡ some result)
    × IsSuiteOrder sample (1 ∷ 2 ∷ 3 ∷ []) result
repartition_tests-IsSuiteOrder_example = repartition_tests-IsSuiteOrder sample (1 ∷ 2 ∷ 3 ∷ [])

repartition_testcases-IsTestOrder_example :
    (result : List ℕ) × (repartition_testcases sample true mixed ≡ some result)
    × IsTestOrder sample mixed result
repartition_testcases-IsTestOrder_example = repartition_testcases-IsTestOrder sample mixed

tests_live_example :
    IsClean sample breaks_off (runner_run_tests sample breaks_off true (1 ∷ 2 ∷ 3 ∷ []) [])
tests_live_example =
    runner_run_tests-live sample breaks_off true (1 ∷ 2 ∷ 3 ∷ []) sample-IsConsistent

testcases_live_example :
    IsClean sample breaks_off (runner_run_testcases sample breaks_off true mixed [])
testcases_live_example = runner_run_testcases-live sample breaks_off true mixed

testsuites_account_example :
    Accounts breaks_off
      (11 ∷ 12 ∷ 31 ∷ 32 ∷ 21 ∷ 22 ∷ [])
      0
      []
      (runner_run_testsuites sample breaks_off (10 ∷ 20 ∷ []) [])
testsuites_account_example = runner_run_testsuites-Accounts sample breaks_off (10 ∷ 20 ∷ [])

tests_account_example :
    Answers sample one_fails
      (11 ∷ 12 ∷ 31 ∷ 32 ∷ 21 ∷ 22 ∷ [])
      0
      []
      (runner_run_tests sample one_fails true (1 ∷ 2 ∷ 3 ∷ []) [])
unfolding group_by
tests_account_example = runner_run_tests-Answers sample one_fails (1 ∷ 2 ∷ 3 ∷ [])

testcases_account_example :
    Answers sample one_fails
      (11 ∷ 12 ∷ 31 ∷ 21 ∷ 22 ∷ [])
      0
      []
      (runner_run_testcases sample one_fails true mixed [])
unfolding group_by
testcases_account_example = runner_run_testcases-Answers sample one_fails mixed

counts_example :
    let (rc, t) = runner_run_testsuites sample one_fails (10 ∷ 20 ∷ []) [] in
    (rc ≡ pos (failures one_fails t)) × (executed t ≡ 11 ∷ 12 ∷ 31 ∷ 32 ∷ 21 ∷ 22 ∷ [])
counts_example = runner_run_testsuites-counts sample one_fails one_fails-IsWilling (10 ∷ 20 ∷ [])
