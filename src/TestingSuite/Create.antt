-- ===== src/TestingSuite/Create.antt =====
-- src/exec/testing_testsuite.c: the creation and the destruction of the suite.
use ctest.Prelude.{
  ℕ, zero, suc, ◌+◌, ◌/◌, ◌%◌, ◌^◌, Bool, true, false, List, [], ◌∷◌, ◌++◌, Option, none, some,
  ◌==◌, if◌then◌else◌,
}
use ctest.Loader.Load.{Act, allocate, release}
use ctest.TestingSuite.{
  Kind, success, skip, setup_failure, teardown_failure, failure, Text, Testcase, Test, Testsuite,
  TestcaseAnswers, TestAnswers, SuiteAnswers, vsnprintfdup, decimal,
}

unfoldable pub testcase_destroy : Testcase → List Act
testcase_destroy tc = release tc.name.address ∷ release tc.address ∷ []

-- testcase_create__ after its name.
unfoldable pub testcase_named : Kind → ℕ → Option Text → Option ℕ → Option Testcase × List Act
testcase_named ops test none block = (none, [])
testcase_named ops test (some name) none = (none, allocate name.address ∷ release name.address ∷ [])
testcase_named ops test (some name) (some a) = (
  some (record { address = a; ops = ops; name = name; test = test }),
  allocate name.address ∷ allocate a ∷ [],
)

unfoldable pub testcase_create : Kind → ℕ → List ℕ → TestcaseAnswers → Option Testcase × List Act
testcase_create ops test text answers =
    testcase_named ops test (vsnprintfdup text answers.name) answers.block

unfoldable pub destroy_testcases : List Testcase → List Act
destroy_testcases [] = []
destroy_testcases (tc ∷ testcases) = testcase_destroy tc ++ destroy_testcases testcases

unfoldable pub test_destroy : Test → List Act
test_destroy t =
    destroy_testcases t.testcases
    ++ release t.array ∷ release t.name.address ∷ release t.address ∷ []

-- test_create__ after its name.
unfoldable pub test_named : ℕ → Option Text → Option ℕ → Option ℕ → Option Test × List Act
test_named testsuite none array block = (none, [])
test_named testsuite (some name) none block =
    (none, allocate name.address ∷ release name.address ∷ [])
test_named testsuite (some name) (some array) none =
    (none, allocate name.address ∷ allocate array ∷ release array ∷ release name.address ∷ [])
test_named testsuite (some name) (some array) (some a) = (
  some (record { address = a; name = name; testsuite = testsuite; array = array; testcases = [] }),
  allocate name.address ∷ allocate array ∷ allocate a ∷ [],
)

unfoldable pub test_create : ℕ → List ℕ → TestAnswers → Option Test × List Act
test_create testsuite text answers =
    test_named testsuite (vsnprintfdup text answers.name) answers.array answers.block

unfoldable pub destroy_tests : List Test → List Act
destroy_tests [] = []
destroy_tests (t ∷ tests) = test_destroy t ++ destroy_tests tests

unfoldable pub testsuite_destroy : Testsuite → List Act
testsuite_destroy s =
    destroy_tests s.tests ++ release s.array ∷ release s.name.address ∷ release s.address ∷ []

-- testsuite_create__ after its name.
unfoldable pub testsuite_named : Option Text → Option ℕ → Option ℕ → Option Testsuite × List Act
testsuite_named none array block = (none, [])
testsuite_named (some name) none block = (none, allocate name.address ∷ release name.address ∷ [])
testsuite_named (some name) (some array) none =
    (none, allocate name.address ∷ allocate array ∷ release array ∷ release name.address ∷ [])
testsuite_named (some name) (some array) (some a) = (
  some (record { address = a; name = name; array = array; tests = [] }),
  allocate name.address ∷ allocate array ∷ allocate a ∷ [],
)

unfoldable pub testsuite_create : List ℕ → SuiteAnswers → Option Testsuite × List Act
testsuite_create text answers =
    testsuite_named (vsnprintfdup text answers.name) answers.array answers.block

-- `testcases`
abbrev pub kinds : List Kind
kinds = success ∷ skip ∷ setup_failure ∷ teardown_failure ∷ failure ∷ []

unfoldable pub kind_name : Kind → List ℕ
kind_name success = 115 ∷ 117 ∷ 99 ∷ 99 ∷ 101 ∷ 115 ∷ 115 ∷ []
kind_name skip = 115 ∷ 107 ∷ 105 ∷ 112 ∷ []
kind_name setup_failure =
    115 ∷ 101 ∷ 116 ∷ 117 ∷ 112 ∷ 95 ∷ 102 ∷ 97 ∷ 105 ∷ 108 ∷ 117 ∷ 114 ∷ 101 ∷ []
kind_name teardown_failure =
    116 ∷ 101 ∷ 97 ∷ 114 ∷ 100 ∷ 111 ∷ 119 ∷ 110 ∷ 95 ∷ 102 ∷ 97 ∷ 105 ∷ 108 ∷ 117 ∷ 114 ∷ 101 ∷ []
kind_name failure = 102 ∷ 97 ∷ 105 ∷ 108 ∷ 117 ∷ 114 ∷ 101 ∷ []

-- `(i_test + 1) & (1 << i_testcase)`
unfoldable pub selects : ℕ → ℕ → Bool
selects number i_testcase = (number / 2 ^ i_testcase) % 2 == 1

-- `testsuite_%s`, `test_%s_%zd` and `testcase_%s_%zd_%s`
unfoldable pub testsuite_text : List ℕ → List ℕ
testsuite_text name = (116 ∷ 101 ∷ 115 ∷ 116 ∷ 115 ∷ 117 ∷ 105 ∷ 116 ∷ 101 ∷ 95 ∷ []) ++ name

unfoldable pub test_text : List ℕ → ℕ → List ℕ
test_text name number = (116 ∷ 101 ∷ 115 ∷ 116 ∷ 95 ∷ []) ++ (name ++ 95 ∷ decimal number)

unfoldable pub testcase_text : List ℕ → ℕ → Kind → List ℕ
testcase_text name number kind =
    (116 ∷ 101 ∷ 115 ∷ 116 ∷ 99 ∷ 97 ∷ 115 ∷ 101 ∷ 95 ∷ [])
    ++ (name ++ 95 ∷ (decimal number ++ 95 ∷ kind_name kind))

-- What is created by one step of a loop, and by the steps after it if it succeeds.
unfoldable pub next_testcase :
    Option Testcase × List Act → Bool × List Testcase × List Act → Bool × List Testcase × List Act
next_testcase (none, acts) later = (false, [], acts)
next_testcase (some tc, acts) (all, more, acts') = (all, tc ∷ more, acts ++ acts')

-- The inner loop from `i_testcase` on, for the test at `test` with the number `i_test + 1`.
unfoldable pub create_testcases :
    List ℕ → ℕ → ℕ → (ℕ → TestcaseAnswers) → ℕ → List Kind → Bool × List Testcase × List Act
create_testcases name number test answers i [] = (true, [], [])
create_testcases name number test answers i (kind ∷ rest) =
    let later = create_testcases name number test answers (suc i) rest in
    if selects number i
    then next_testcase (testcase_create kind test (testcase_text name number kind) (answers i))
        later
    else later

-- A test with the test cases that are created for it, and the tests after it if these are all.
unfoldable pub next_test :
    Test
    → List Act
    → Bool × List Testcase × List Act
    → Bool × List Test × List Act
    → Bool × List Test × List Act
next_test t acts (false, testcases, acts') later =
    (false, record t { testcases = testcases } ∷ [], acts ++ acts')
next_test t acts (true, testcases, acts') (all, more, acts'') =
    (all, record t { testcases = testcases } ∷ more, acts ++ (acts' ++ acts''))

unfoldable pub with_test :
    List ℕ
    → ℕ
    → (ℕ → TestcaseAnswers)
    → Option Test × List Act
    → Bool × List Test × List Act
    → Bool × List Test × List Act
with_test name number answers (none, acts) later = (false, [], acts)
with_test name number answers (some t, acts) later =
    next_test t acts (create_testcases name number t.address answers 0 kinds) later

-- The outer loop from `i_test` on, for `n` tests.
unfoldable pub create_tests : List ℕ → ℕ → (ℕ → TestAnswers) → ℕ → ℕ → Bool × List Test × List Act
create_tests name testsuite answers i zero = (true, [], [])
create_tests name testsuite answers i (suc n) =
    let later = create_tests name testsuite answers (suc i) n in
    with_test name (i + 1) (answers i).testcase
      (test_create testsuite (test_text name (i + 1)) (answers i)) later

-- `(1 << testcase_count) - 1`
abbrev pub test_count : ℕ
test_count = 31

unfoldable pub end_tests :
    Testsuite → List Act → Bool × List Test × List Act → Option Testsuite × List Act
end_tests s acts (true, tests, acts') = (some (record s { tests = tests }), acts ++ acts')
end_tests s acts (false, tests, acts') =
    (none, (acts ++ acts') ++ testsuite_destroy (record s { tests = tests }))

unfoldable pub with_testsuite :
    List ℕ → (ℕ → TestAnswers) → Option Testsuite × List Act → Option Testsuite × List Act
with_testsuite name answers (none, acts) = (none, acts)
with_testsuite name answers (some s, acts) =
    end_tests s acts (create_tests name s.address answers 0 test_count)

unfoldable pub ctest_create_testing_testsuite : List ℕ → SuiteAnswers → Option Testsuite × List Act
ctest_create_testing_testsuite name answers =
    with_testsuite name answers.test (testsuite_create (testsuite_text name) answers)
