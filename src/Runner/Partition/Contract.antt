-- ===== src/Runner/Partition/Contract.antt =====
-- The contract of src/exec/runner_utils.h: what a caller may know of the two partitions.
use ctest.Prelude.{
  ℕ, ◌≡◌, ap, ◌∙◌, List, true, some, keep_if, keep_if_comm, keep_if_implied, sym, ◌==◌,
}
use ctest.Suite.{Registry}
use ctest.Runner.Group.{has, group_by, has-group_by}
use ctest.Runner.Grouped.{IsGrouped, first_keys, group_by-IsGrouped, first_keys-group_by}
use ctest.Runner.Nested.{keep_if-group_by, group_by-IsGrouped_coarse, first_keys-group_by_coarse}
use ctest.Runner.Partition.{repartition_tests, repartition_testcases}
use ctest.Runner.Partition.BySuite.{repartition_tests_lem}
use ctest.Runner.Partition.Scan.{suite_of}
use ctest.Runner.Partition.Taken.{has_test_suite}
use ctest.Runner.Partition.ByTest.{repartition_testcases_lem}

module _ (reg : Registry) where
  open reg use {testcase_get_test, test_get_testsuite}

  pub record IsSuiteOrder (tests result : List ℕ) : Type 0 where
    pub suites_contiguous : IsGrouped test_get_testsuite result
    pub suites_in_order : first_keys test_get_testsuite result ≡ first_keys test_get_testsuite tests
    pub tests_in_order :
        (s : ℕ)
        → keep_if (has test_get_testsuite s) result ≡ keep_if (has test_get_testsuite s) tests

  pub record IsTestOrder (testcases result : List ℕ) : Type 0 where
    pub suites_contiguous : IsGrouped (suite_of reg) result
    pub tests_contiguous : IsGrouped testcase_get_test result
    pub suites_in_order : first_keys (suite_of reg) result ≡ first_keys (suite_of reg) testcases
    pub tests_in_order :
        (s : ℕ)
        → first_keys testcase_get_test (keep_if (has (suite_of reg) s) result)
          ≡ first_keys testcase_get_test (keep_if (has (suite_of reg) s) testcases)
    pub testcases_in_order :
        (t : ℕ)
        → keep_if (has testcase_get_test t) result ≡ keep_if (has testcase_get_test t) testcases

  -- With the copy allocated, `repartition_tests__` ends with an array that holds the tests of each
  -- suite side by side and in their order, and the suites in the order of their first test.
  pub repartition_tests-IsSuiteOrder :
      (tests : List ℕ)
      → (result : List ℕ) × (repartition_tests reg true tests ≡ some result)
        × IsSuiteOrder tests result
  repartition_tests-IsSuiteOrder tests = (
    group_by test_get_testsuite tests,
    repartition_tests_lem reg tests,
    record {
      suites_contiguous = group_by-IsGrouped test_get_testsuite tests;
      suites_in_order = first_keys-group_by test_get_testsuite tests;
      tests_in_order = λ s. has-group_by test_get_testsuite s tests;
    },
  )

  same_suite :
      (x y : ℕ) → testcase_get_test x ≡ testcase_get_test y → suite_of reg x ≡ suite_of reg y
  same_suite x y e = ap test_get_testsuite e

  has-group_by_suite :
      (t : ℕ) (xs : List ℕ)
      → keep_if (has testcase_get_test t) (group_by (suite_of reg) xs)
        ≡ keep_if (has testcase_get_test t) xs
  has-group_by_suite t xs =
      let s = test_get_testsuite t in
      let by_test = has testcase_get_test t in
      let by_suite = has (suite_of reg) s in
      let narrow : (l : List ℕ) → keep_if by_test (keep_if by_suite l) ≡ keep_if by_test l = λ l.
        keep_if_comm by_test by_suite l
        ∙ keep_if_implied by_suite by_test l (λ x. has_test_suite reg t s x (λ i. s)) in
      sym (narrow (group_by (suite_of reg) xs))
      ∙ ap (keep_if by_test) (has-group_by (suite_of reg) s xs)
      ∙ narrow xs

  -- With the copy allocated, `repartition_testcases__` ends with an array that holds the test cases
  -- of each test side by side and in their order, the tests of each suite side by side and in the
  -- order of their first test case, and the suites in the order of their first test case.
  pub repartition_testcases-IsTestOrder :
      (testcases : List ℕ)
      → (result : List ℕ) × (repartition_testcases reg true testcases ≡ some result)
        × IsTestOrder testcases result
  repartition_testcases-IsTestOrder testcases =
      let suites = group_by (suite_of reg) testcases in
      (
        group_by testcase_get_test suites,
        repartition_testcases_lem reg testcases,
        record {
          suites_contiguous =
              group_by-IsGrouped_coarse testcase_get_test (suite_of reg) same_suite suites
                (group_by-IsGrouped (suite_of reg) testcases);
          tests_contiguous = group_by-IsGrouped testcase_get_test suites;
          suites_in_order =
              first_keys-group_by_coarse testcase_get_test (suite_of reg) same_suite suites
              ∙ first_keys-group_by (suite_of reg) testcases;
          tests_in_order = λ s.
              ap (first_keys testcase_get_test) (
                keep_if-group_by testcase_get_test (has (suite_of reg) s) suites
                  (λ x y e. ap (λ (m : ℕ). m == s) (same_suite x y e))
                ∙ ap (group_by testcase_get_test) (has-group_by (suite_of reg) s testcases))
              ∙ first_keys-group_by testcase_get_test (keep_if (has (suite_of reg) s) testcases);
          testcases_in_order =
              λ t. has-group_by testcase_get_test t suites ∙ has-group_by_suite t testcases;
        },
      )
