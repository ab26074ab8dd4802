-- ===== src/TestingSuite/Examples.antt =====
-- A testing suite with every allocation granted, and one whose third test lacks a test case.
use ctest.Prelude.{ℕ, ◌+◌, ◌*◌, ◌==◌, ◌≡◌, refl, [], ◌∷◌, Option, none, some, if◌then◌else◌}
use ctest.Loader.Load.Settled.{block, SettlesResult}
use ctest.Loader.Load.Loaded.{Makes}
use ctest.TestingSuite.{SuiteAnswers, success, skip, decimal, digits}
use ctest.TestingSuite.Create.{testsuite_destroy, selects, ctest_create_testing_testsuite}
use ctest.TestingSuite.Enumerated.{IsTestingSuite, IsGranted, chosen}
use ctest.TestingSuite.Freed.{ctest_create_testing_testsuite-Settles}
use ctest.TestingSuite.Complete.{ctest_create_testing_testsuite-IsTestingSuite}
use ctest.TestingSuite.Create.{kinds}

-- The block of the second test case of the test number `i` + 1 is `last`.
abbrev answers : Option ℕ → SuiteAnswers
answers last = record {
  name = some 10;
  array = some 11;
  block = some 12;
  test = λ i. record {
    name = some (100 * i + 20);
    array = some (100 * i + 21);
    block = some (100 * i + 22);
    testcase = λ k. record {
      name = some (100 * i + 30 + k);
      block = if k == 1 then last else some (100 * i + 40 + k);
    };
  };
}

ctest_create_testing_testsuite-IsTestingSuite_example :
    Makes
      (IsTestingSuite (120 ∷ []))
      (IsGranted (answers (some 9)))
      (ctest_create_testing_testsuite (120 ∷ []) (answers (some 9)))
ctest_create_testing_testsuite-IsTestingSuite_example =
    ctest_create_testing_testsuite-IsTestingSuite (120 ∷ []) (answers (some 9))

ctest_create_testing_testsuite-Settles_example :
    SettlesResult
      (block 121)
      testsuite_destroy
      (ctest_create_testing_testsuite (120 ∷ []) (answers none))
ctest_create_testing_testsuite-Settles_example =
    ctest_create_testing_testsuite-Settles (block 121) (120 ∷ []) (answers none)

decimal_test : decimal 31 ≡ 51 ∷ 49 ∷ []
unfolding digits
decimal_test = refl

chosen_test : chosen 3 0 kinds ≡ success ∷ skip ∷ []
unfolding selects
chosen_test = refl
