-- ===== src/Runner/Run.antt =====
-- The three entry points of src/exec/runner_utils.c that runners share, over any reporter and any
-- callback: they return the number of failed test cases, or -1.
pub mod Nesting
pub mod Protocol
pub mod Account
pub mod Entry
pub mod Total
use ctest.Prelude.{
  ℕ, zero, suc, ◌+◌, ℤ, pos, negsuc, is_positive, Bool, true, false, List, [], ◌∷◌, Option, none,
  some, ◌==◌, length, if◌then◌else◌,
}
use ctest.Suite.{Registry}
use ctest.Runner.Trace.{
  Event, open_testsuite, close_testsuite, open_test, close_test, open_testcase, close_testcase,
  run_testcase, Trace, Host,
}
use ctest.Runner.Partition.{repartition_tests, repartition_testcases}

-- An `int` and the events so far.
abbrev pub Ran : Type 0
Ran = ℤ × Trace

abbrev pub minus_one : ℤ
minus_one = negsuc 0

-- Leading elements with key `k`, and the rest: the inner `for` that looks for the end of a group.
unfoldable pub span_key : (ℕ → ℕ) → ℕ → List ℕ → List ℕ × List ℕ
span_key key k [] = ([], [])
span_key key k (x ∷ xs) =
    let (same, rest) = span_key key k xs in if key x == k then (x ∷ same, rest) else ([], x ∷ xs)

module _ (h : Host) where
  -- `result` is the variable of that name.
  unfoldable pub run_testcases_in_test : List ℕ → ℕ → Trace → Ran
  run_testcases_in_test [] result t = (pos result, t)
  run_testcases_in_test (testcase ∷ rest) result t =
      let opened = open_testcase testcase ∷ t in
      let done = close_testcase testcase ∷ run_testcase testcase ∷ opened in
      elim (h.reports t (open_testcase testcase)) [
        | false ↦ (minus_one, t)
        | true ↦ elim (h.outcome opened testcase) [
          | negsuc _ ↦ (minus_one, done)
          | pos rc ↦ run_testcases_in_test rest (result + is_positive (pos rc)) done
        ]
      ]

module _ (reg : Registry) (h : Host) where
  open reg use {testcase_get_test, test_get_testsuite, test_get_testcases, testsuite_get_tests}

  -- One test: its reporter is created, its test cases are run, and the reporter is destroyed.
  unfoldable pub run_test : ℕ → List ℕ → Trace → Ran
  run_test test testcases t = elim (h.reports t (open_test test)) [
    | false ↦ (minus_one, t)
    | true ↦
        let (rc, t') = run_testcases_in_test h testcases 0 (open_test test ∷ t) in
        (rc, close_test test ∷ t')
  ]

  unfoldable pub run_tests_in_testsuite : List ℕ → ℕ → Trace → Ran
  run_tests_in_testsuite [] result t = (pos result, t)
  run_tests_in_testsuite (test ∷ rest) result t =
      let (rc, t') = run_test test (test_get_testcases test) t in
      elim rc [ negsuc n ↦ (negsuc n, t') | pos n ↦ run_tests_in_testsuite rest (result + n) t' ]

  -- One suite: its reporter is created, its tests are run, and the reporter is destroyed.
  unfoldable pub run_testsuite : ℕ → List ℕ → Trace → Ran
  run_testsuite testsuite tests t = elim (h.reports t (open_testsuite testsuite)) [
    | false ↦ (minus_one, t)
    | true ↦
        let (rc, t') = run_tests_in_testsuite tests 0 (open_testsuite testsuite ∷ t) in
        (rc, close_testsuite testsuite ∷ t')
  ]

  unfoldable pub run_testsuites_from : List ℕ → ℕ → Trace → Ran
  run_testsuites_from [] result t = (pos result, t)
  run_testsuites_from (testsuite ∷ rest) result t =
      let (rc, t') = run_testsuite testsuite (testsuite_get_tests testsuite) t in
      elim rc [ negsuc n ↦ (negsuc n, t') | pos n ↦ run_testsuites_from rest (result + n) t' ]

  unfoldable pub runner_run_testsuites : List ℕ → Trace → Ran
  runner_run_testsuites testsuites t = run_testsuites_from testsuites 0 t

  -- The loop of `runner_run_tests` over the partitioned array, on fuel for its rounds.
  unfoldable pub run_tests_from : ℕ → List ℕ → ℕ → Trace → Option Ran
  run_tests_from zero tests result t = none
  run_tests_from (suc fuel) [] result t = some (pos result, t)
  run_tests_from (suc fuel) (test ∷ rest) result t =
      let testsuite = test_get_testsuite test in
      let (same, others) = span_key test_get_testsuite testsuite rest in
      let (rc, t') = run_testsuite testsuite (test ∷ same) t in
      elim rc [
        | negsuc n ↦ some (minus_one, t')
        | pos n ↦ run_tests_from fuel others (result + n) t'
      ]

  -- `allocated` says whether the copy for the partition could be allocated.
  unfoldable pub runner_run_tests : Bool → List ℕ → Trace → Option Ran
  runner_run_tests allocated [] t = some (pos 0, t)
  runner_run_tests allocated (test ∷ rest) t =
      elim (repartition_tests reg allocated (test ∷ rest)) [
        | none ↦ some (minus_one, t)
        | some tests ↦ run_tests_from (suc (length tests)) tests 0 t
      ]

  -- The suite reporter of `runner_run_testcases` that is live, by its suite, is destroyed.
  unfoldable pub leave_testsuite : Option ℕ → Trace → Trace
  leave_testsuite none t = t
  leave_testsuite (some s) t = close_testsuite s ∷ t

  -- The test `this_testsuite != testsuite` and what it guards: whether the loop goes on, the suite
  -- whose reporter is live, and the events.
  unfoldable pub enter_testsuite : ℕ → Option ℕ → Trace → Bool × Option ℕ × Trace
  enter_testsuite this none t =
      if h.reports t (open_testsuite this)
      then (true, some this, open_testsuite this ∷ t)
      else (false, none, t)
  enter_testsuite this (some s) t =
      let t' = leave_testsuite (some s) t in
      if this == s
      then (true, some s, t)
      else if h.reports t' (open_testsuite this)
      then (true, some this, open_testsuite this ∷ t')
      else (false, none, t')

  -- The loop of `runner_run_testcases` over the partitioned array, on fuel for its rounds.
  unfoldable pub run_testcases_from : ℕ → List ℕ → Option ℕ → ℕ → Trace → Option Ran
  run_testcases_from zero testcases current result t = none
  run_testcases_from (suc fuel) [] current result t = some (pos result, leave_testsuite current t)
  run_testcases_from (suc fuel) (testcase ∷ rest) current result t =
      let test = testcase_get_test testcase in
      let (entered, current', t') = enter_testsuite (test_get_testsuite test) current t in
      let (same, others) = span_key testcase_get_test test rest in
      let (rc, t'') = run_test test (testcase ∷ same) t' in
      elim entered [
        | false ↦ some (minus_one, leave_testsuite current' t')
        | true ↦ elim rc [
          | negsuc n ↦ some (minus_one, leave_testsuite current' t'')
          | pos n ↦ run_testcases_from fuel others current' (result + n) t''
        ]
      ]

  unfoldable pub runner_run_testcases : Bool → List ℕ → Trace → Option Ran
  runner_run_testcases allocated [] t = some (pos 0, t)
  runner_run_testcases allocated (testcase ∷ rest) t =
      elim (repartition_testcases reg allocated (testcase ∷ rest)) [
        | none ↦ some (minus_one, t)
        | some testcases ↦ run_testcases_from (suc (length testcases)) testcases none 0 t
      ]
