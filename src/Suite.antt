-- ===== src/Suite.antt =====
-- include/ctest/exec/suite.h: suites, tests and test cases behind their operation tables.
-- An object is its address; a call through the table of the object is a function of the address.
use ctest.Prelude.{ℕ, List}

-- `ctest_testcase_ops`, `ctest_test_ops` and `ctest_testsuite_ops` without the names. A pair of
-- operations that return an array and its length is one list.
pub record Registry : Type 0 where
  pub testcase_get_test : ℕ → ℕ
  pub test_get_testsuite : ℕ → ℕ
  pub test_get_testcases : ℕ → List ℕ
  pub testsuite_get_tests : ℕ → List ℕ
