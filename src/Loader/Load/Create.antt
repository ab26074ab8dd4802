-- ===== src/Loader/Load/Create.antt =====
-- ctest_load_testsuite of src/exec/loader.c, the creation of its tests, and the destructors.
use ctest.Prelude.{
  ℕ, zero, suc, Bool, true, false, List, [], ◌∷◌, ◌++◌, Option, none, some, ◌&&◌, ◌==◌,
}
use ctest.Loader.Load.{
  DataProvider, TestDef, SuiteDef, null_data_provider, Testcase, Test, Testsuite, Act, allocate,
  release, dlinit, dlexit, dladvise_init, dladvise_destroy, dlopen, dlclose, TestcaseAnswers,
  TestAnswers, ModuleAnswers, testcase_create, testcase_destroy,
}

unfoldable pub destroy_testcases : List Testcase → List Act
destroy_testcases [] = []
destroy_testcases (tc ∷ testcases) = testcase_destroy tc ++ destroy_testcases testcases

-- A round of a loop that creates, and the rounds after it, which are not reached after a failure.
unfoldable pub next_created :
    {A : Type 0} → Option A × List Act → Bool × List A × List Act → Bool × List A × List Act
next_created (none, acts) later = (false, [], acts)
next_created (some one, acts) (all, more, acts') = (all, one ∷ more, acts ++ acts')

-- The loop of test_create__, from the test case `i` on: whether all are created, and those that are.
unfoldable pub create_testcases :
    ℕ → TestDef → DataProvider → (ℕ → TestcaseAnswers) → ℕ → ℕ → Bool × List Testcase × List Act
create_testcases test def provider answers i zero = (true, [], [])
create_testcases test def provider answers i (suc n) =
    next_created (testcase_create test def provider i (answers i))
      (create_testcases test def provider answers (suc i) n)

-- `test_def->data_provider ? test_def->data_provider : &null_data_provider__`
unfoldable pub provider_of : TestDef → DataProvider
provider_of def = elim def.data_provider [ none ↦ null_data_provider | some provider ↦ provider ]

unfoldable pub end_test :
    ℕ → TestDef → ℕ → ℕ → Bool × List Testcase × List Act → Option Test × List Act
end_test testsuite def a array (true, testcases, acts) = (
  some (record {
    address = a;
    testsuite = testsuite;
    def = def;
    array = array;
    testcases = testcases;
  }),
  allocate a ∷ allocate array ∷ acts,
)
end_test testsuite def a array (false, testcases, acts) = (
  none,
  allocate a
      ∷ allocate array
      ∷ (acts ++ (destroy_testcases testcases ++ (release array ∷ release a ∷ []))),
)

-- test_create__ after its two callocs; `testsuite` is the address of the suite.
unfoldable pub test_at :
    Option ℕ → Option ℕ → ℕ → TestDef → (ℕ → TestcaseAnswers) → Option Test × List Act
test_at none array testsuite def answers = (none, [])
test_at (some a) none testsuite def answers = (none, allocate a ∷ release a ∷ [])
test_at (some a) (some array) testsuite def answers =
    end_test testsuite def a array
      (create_testcases a def (provider_of def) answers 0 (provider_of def).count)

unfoldable pub test_create : ℕ → TestDef → TestAnswers → Option Test × List Act
test_create testsuite def answers =
    test_at answers.block answers.array testsuite def answers.testcase

unfoldable pub test_destroy : Test → List Act
test_destroy t = destroy_testcases t.testcases ++ (release t.array ∷ release t.address ∷ [])

unfoldable pub destroy_tests : List Test → List Act
destroy_tests [] = []
destroy_tests (t ∷ tests) = test_destroy t ++ destroy_tests tests

-- The loop of ctest_load_testsuite, from the test `i` on.
unfoldable pub create_tests : ℕ → (ℕ → TestAnswers) → ℕ → List TestDef → Bool × List Test × List Act
create_tests testsuite answers i [] = (true, [], [])
create_tests testsuite answers i (def ∷ defs) =
    next_created (test_create testsuite def (answers i))
      (create_tests testsuite answers (suc i) defs)

-- `test_creation_failed:` destroys the tests, and leaves the array.
unfoldable pub end_tests :
    ℕ → SuiteDef → Option ℕ → Bool × List Test × List Act → Option Testsuite × List Act
end_tests a def array (true, tests, acts) =
    (some (record { address = a; def = def; array = array; tests = tests }), acts)
end_tests a def array (false, tests, acts) = (none, acts ++ destroy_tests tests)

-- `if (suite_def->test_count > 0)`, by the answer of calloc.
unfoldable pub load_tests :
    ℕ → SuiteDef → List TestDef → Option ℕ → (ℕ → TestAnswers) → Option Testsuite × List Act
load_tests a def [] array answers = end_tests a def none (create_tests a answers 0 [])
load_tests a def (t ∷ defs) none answers = (none, [])
load_tests a def (t ∷ defs) (some array) answers =
    let (result, acts) = end_tests a def (some array) (create_tests a answers 0 (t ∷ defs)) in
    (result, allocate array ∷ acts)

-- What the labels at the end of ctest_load_testsuite undo.
unfoldable pub or_undo : List Act → Option Testsuite × List Act → Option Testsuite × List Act
or_undo cleanup (none, acts) = (none, acts ++ cleanup)
or_undo cleanup (some s, acts) = (some s, acts)

unfoldable pub acquire :
    Bool → Act → Act → Option Testsuite × List Act → Option Testsuite × List Act
acquire false act undo (result, acts) = (none, [])
acquire true act undo (result, acts) = or_undo (undo ∷ []) (result, act ∷ acts)

-- After the calloc for the suite.
unfoldable pub load_suite : Option ℕ → SuiteDef → ModuleAnswers → Option Testsuite × List Act
load_suite none def answers = (none, [])
load_suite (some a) def answers =
    acquire true (allocate a) (release a) (load_tests a def def.tests answers.array answers.test)

-- CTEST_SUITE_MAGIC__ and CTEST_SUITE_VERSION__
abbrev pub suite_magic : ℕ
suite_magic = 0x72db2d

abbrev pub suite_version : ℕ
suite_version = 0

unfoldable pub require : Bool → Option Testsuite × List Act → Option Testsuite × List Act
require false result = (none, [])
require true result = result

-- What lt_dlsym gives, the magic number and the version.
unfoldable pub load_module : Option SuiteDef → ModuleAnswers → Option Testsuite × List Act
load_module none answers = (none, [])
load_module (some def) answers =
    require (def.magic == suite_magic && def.version == suite_version)
      (load_suite answers.block def answers)

unfoldable pub ctest_load_testsuite : ModuleAnswers → Option Testsuite × List Act
ctest_load_testsuite answers = acquire answers.initialised dlinit dlexit (
    acquire answers.advised dladvise_init dladvise_destroy (
      require answers.advised_local
        (acquire answers.opened dlopen dlclose (load_module answers.suite_def answers))))

-- `(void)free(tests);`, which may be NULL.
unfoldable pub free_array : Option ℕ → List Act
free_array none = []
free_array (some a) = release a ∷ []

unfoldable pub testsuite_destroy : Testsuite → List Act
testsuite_destroy s =
    destroy_tests s.tests ++ (free_array s.array ++ (release s.address ∷ dlclose ∷ dlexit ∷ []))
