-- ===== src/TestingSuite/Complete.antt =====
-- ctest_create_testing_testsuite of src/exec/testing_testsuite.c as a whole: every set of kinds has its
-- test.
use ctest.Prelude.{
  ℕ, zero, suc, ◌+◌, ◌≡◌, refl, sym, ap, ap₂, ◌∙◌, Bool, true, false, List, [], ◌∷◌, Option, none,
  some, map,
}
use ctest.Memory.{text_bytes}
use ctest.Loader.Load.{Act}
use ctest.Loader.Load.Loaded.{Given, Makes, MakesAll}
use ctest.TestingSuite.{Kind, Testcase, Test, Testsuite, TestAnswers, SuiteAnswers, vsnprintfdup}
use ctest.TestingSuite.Create.{
  testsuite_named, testsuite_create, kinds, selects, testsuite_text, test_count, end_tests,
  with_testsuite, ctest_create_testing_testsuite,
}
use ctest.TestingSuite.Enumerated.{
  subsets, chosen, seen, expected, kinds_of, IsTest, AreTests, IsTestingSuite, TestGranted,
  IsGranted, create_tests-MakesAll,
}

-- The kinds of a test case as it is seen, or as it is to be seen.
map-seen : (tcs : List Testcase) → map (λ k. k.0) (map seen tcs) ≡ map (λ tc. tc.ops) tcs
map-seen [] = refl
map-seen (tc ∷ tcs) = ap (λ ks. tc.ops ∷ ks) (map-seen tcs)

map-expected :
    (name : List ℕ) (number test : ℕ) (ks : List Kind)
    → map (λ k. k.0) (map (expected name number test) ks) ≡ ks
map-expected name number test [] = refl
map-expected name number test (k ∷ ks) = ap (λ l. k ∷ l) (map-expected name number test ks)

IsTest-chosen :
    (name : List ℕ) (testsuite number : ℕ) (t : Test)
    → IsTest name testsuite number t
    → kinds_of t ≡ chosen number 0 kinds
IsTest-chosen name testsuite number t (h, h', h'') =
    sym (map-seen t.testcases)
    ∙ ap (λ l. map (λ k. k.0) l) h''
    ∙ map-expected name number t.address (chosen number 0 kinds)

-- The kinds of the tests from `i` on.
abbrev chosen_from : ℕ → ℕ → List (List Kind)
chosen_from i zero = []
chosen_from i (suc n) = chosen (i + 1) 0 kinds ∷ chosen_from (suc i) n

AreTests-chosen_from :
    (name : List ℕ) (testsuite i n : ℕ) (tests : List Test)
    → AreTests name testsuite i n tests
    → map kinds_of tests ≡ chosen_from i n
AreTests-chosen_from name testsuite i zero [] h = refl
AreTests-chosen_from name testsuite i zero (t ∷ tests) h = elim h [ ]
AreTests-chosen_from name testsuite i (suc n) [] h = elim h [ ]
AreTests-chosen_from name testsuite i (suc n) (t ∷ tests) (h, h') =
    ap₂ (λ x xs. x ∷ xs) (IsTest-chosen name testsuite (i + 1) t h)
      (AreTests-chosen_from name testsuite (suc i) n tests h')

-- The numbers from 1 to 31 choose every set of kinds but the empty one.
chosen_from-subsets : [] ∷ chosen_from 0 test_count ≡ subsets kinds
unfolding selects
chosen_from-subsets = refl

module _ (name : List ℕ) (granted : Type 0) where
  testsuite_create-Makes :
      (name_block array block : Option ℕ)
      → (granted → Given name_block)
      → (granted → Given array)
      → (granted → Given block)
      → Makes
          (λ s. s.name.bytes ≡ text_bytes (testsuite_text name))
          granted
          (testsuite_named (vsnprintfdup (testsuite_text name) name_block) array block)
  unfolding testsuite_named vsnprintfdup
  testsuite_create-Makes none array block f f' f'' = f
  testsuite_create-Makes (some n) none block f f' f'' = f'
  testsuite_create-Makes (some n) (some ar) none f f' f'' = f''
  testsuite_create-Makes (some n) (some ar) (some a) f f' f'' = refl

  end_tests-Makes :
      (s : Testsuite) (acts : List Act) (created : Bool × List Test × List Act)
      → s.name.bytes ≡ text_bytes (testsuite_text name)
      → MakesAll (AreTests name s.address 0 test_count) granted created
      → Makes (IsTestingSuite name) granted (end_tests s acts created)
  unfolding end_tests
  end_tests-Makes s acts (true, tests, acts') e m = (
    e,
    m,
    ap (λ l. [] ∷ l) (AreTests-chosen_from name s.address 0 test_count tests m)
        ∙ chosen_from-subsets,
  )
  end_tests-Makes s acts (false, tests, acts') e m = m

  with_testsuite-Makes :
      (answers : ℕ → TestAnswers) (one : Option Testsuite × List Act)
      → (granted → (k : ℕ) → TestGranted (answers k))
      → Makes (λ s. s.name.bytes ≡ text_bytes (testsuite_text name)) granted one
      → Makes (IsTestingSuite name) granted (with_testsuite name answers one)
  unfolding with_testsuite
  with_testsuite-Makes answers (none, acts) f m = m
  with_testsuite-Makes answers (some s, acts) f m =
      end_tests-Makes s acts _ m
        (create_tests-MakesAll name granted s.address answers 0 test_count f)

-- The suite that ctest_create_testing_testsuite gives has a test for each set of the five kinds of
-- test cases but the empty one, in the order of the sets, and in each test the test cases of its set,
-- each with its name and its test; it gives none only where an allocation is refused.
pub ctest_create_testing_testsuite-IsTestingSuite :
    (name : List ℕ) (answers : SuiteAnswers)
    → Makes (IsTestingSuite name) (IsGranted answers) (ctest_create_testing_testsuite name answers)
unfolding ctest_create_testing_testsuite testsuite_create
ctest_create_testing_testsuite-IsTestingSuite name answers =
    with_testsuite-Makes name (IsGranted answers) answers.test _ (λ all. all.3)
      (testsuite_create-Makes name (IsGranted answers) answers.name answers.array answers.block
        (λ all. all.0) (λ all. all.1) (λ all. all.2))
