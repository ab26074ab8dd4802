-- ===== src/TestingSuite/Enumerated.antt =====
-- The tests that ctest_create_testing_testsuite of src/exec/testing_testsuite.c makes: one for each set
-- of kinds but the empty one.
use ctest.Prelude.{
  ℕ, zero, suc, ◌+◌, ◌≡◌, refl, ap₂, Bool, true, false, List, [], ◌∷◌, Option, none, some, map,
  if◌then◌else◌,
}
use ctest.Memory.{text_bytes}
use ctest.Loader.Load.{Act}
use ctest.Loader.Load.Loaded.{Given, Makes, MakesAll}
use ctest.TestingSuite.{
  Kind, Testcase, Test, Testsuite, TestcaseAnswers, TestAnswers, SuiteAnswers, vsnprintfdup,
}
use ctest.TestingSuite.Create.{
  testcase_named, testcase_create, test_named, test_create, kinds, selects, testsuite_text,
  test_text, testcase_text, next_testcase, create_testcases, next_test, with_test, create_tests,
  test_count,
}

-- Each set without `k`, and with it.
abbrev pub with_or_without : Kind → List (List Kind) → List (List Kind)
with_or_without k [] = []
with_or_without k (s ∷ sets) = s ∷ (k ∷ s) ∷ with_or_without k sets

-- The sets of some kinds, the empty one first.
abbrev pub subsets : List Kind → List (List Kind)
subsets [] = [] ∷ []
subsets (k ∷ ks) = with_or_without k (subsets ks)

-- The kinds that the bits of a number choose.
abbrev pub chosen : ℕ → ℕ → List Kind → List Kind
chosen number i [] = []
chosen number i (kind ∷ rest) =
    if selects number i then kind ∷ chosen number (suc i) rest else chosen number (suc i) rest

-- A test case as it is to be seen: its kind, its name and its test.
abbrev pub seen : Testcase → Kind × List ℕ × ℕ
seen tc = (tc.ops, tc.name.bytes, tc.test)

abbrev pub expected : List ℕ → ℕ → ℕ → Kind → Kind × List ℕ × ℕ
expected name number test kind = (kind, text_bytes (testcase_text name number kind), test)

abbrev pub kinds_of : Test → List Kind
kinds_of t = map (λ tc. tc.ops) t.testcases

-- The test with a number, and the tests from `i` on.
abbrev pub IsTest : List ℕ → ℕ → ℕ → Test → Type 0
IsTest name testsuite number t =
    (t.testsuite ≡ testsuite)
    × (t.name.bytes ≡ text_bytes (test_text name number))
    × (map seen t.testcases ≡ map (expected name number t.address) (chosen number 0 kinds))

abbrev pub AreTests : List ℕ → ℕ → ℕ → ℕ → List Test → Type 0
AreTests name testsuite i zero [] = Unit
AreTests name testsuite i zero (t ∷ tests) = ⊥
AreTests name testsuite i (suc n) [] = ⊥
AreTests name testsuite i (suc n) (t ∷ tests) =
    IsTest name testsuite (i + 1) t × AreTests name testsuite (suc i) n tests

abbrev pub IsTestingSuite : List ℕ → Testsuite → Type 0
IsTestingSuite name s =
    (s.name.bytes ≡ text_bytes (testsuite_text name))
    × AreTests name s.address 0 test_count s.tests
    × ([] ∷ map kinds_of s.tests ≡ subsets kinds)

abbrev pub TestcaseGranted : TestcaseAnswers → Type 0
TestcaseGranted answers = Given answers.name × Given answers.block

abbrev pub TestGranted : TestAnswers → Type 0
TestGranted answers =
    Given answers.name
    × Given answers.array
    × Given answers.block
    × ((i : ℕ) → TestcaseGranted (answers.testcase i))

-- No allocation is refused.
abbrev pub IsGranted : SuiteAnswers → Type 0
IsGranted answers =
    Given answers.name
    × Given answers.array
    × Given answers.block
    × ((i : ℕ) → TestGranted (answers.test i))

module _ (name : List ℕ) (granted : Type 0) where
  testcase_create-Makes :
      (kind : Kind) (number test : ℕ) (name_block block : Option ℕ)
      → (granted → Given name_block)
      → (granted → Given block)
      → Makes
          (λ tc. seen tc ≡ expected name number test kind)
          granted
          (testcase_named kind test
            (vsnprintfdup (testcase_text name number kind) name_block)
            block)
  unfolding testcase_named vsnprintfdup
  testcase_create-Makes kind number test none block f f' = f
  testcase_create-Makes kind number test (some n) none f f' = f'
  testcase_create-Makes kind number test (some n) (some a) f f' = refl

  abbrev AreTestcases : ℕ → ℕ → ℕ → List Kind → List Testcase → Type 0
  AreTestcases number test i rest testcases =
      map seen testcases ≡ map (expected name number test) (chosen number i rest)

  next_testcase-MakesAll :
      (number test i : ℕ) (kind : Kind) (rest : List Kind) (one : Option Testcase × List Act)
      (later : Bool × List Testcase × List Act)
      → Makes (λ tc. seen tc ≡ expected name number test kind) granted one
      → MakesAll (AreTestcases number test i rest) granted later
      → MakesAll
          (λ tcs. map seen tcs ≡ map (expected name number test) (kind ∷ chosen number i rest))
          granted
          (next_testcase one later)
  unfolding next_testcase
  next_testcase-MakesAll number test i kind rest (none, acts) later m m' = m
  next_testcase-MakesAll number test i kind rest (some tc, acts) (true, more, acts') m m' =
      ap₂ (λ x xs. x ∷ xs) m m'
  next_testcase-MakesAll number test i kind rest (some tc, acts) (false, more, acts') m m' = m'

  either-MakesAll :
      (selected : Bool) (number test : ℕ) (with_it without : List Kind)
      (one later : Bool × List Testcase × List Act)
      → MakesAll (λ tcs. map seen tcs ≡ map (expected name number test) with_it) granted one
      → MakesAll (λ tcs. map seen tcs ≡ map (expected name number test) without) granted later
      → MakesAll
          (λ tcs.
            map seen tcs ≡ map (expected name number test) (if selected then with_it else without))
          granted
          (if selected then one else later)
  either-MakesAll true number test with_it without one later m m' = m
  either-MakesAll false number test with_it without one later m m' = m'

  create_testcases-MakesAll :
      (number test : ℕ) (answers : ℕ → TestcaseAnswers) (i : ℕ) (rest : List Kind)
      → (granted → (k : ℕ) → TestcaseGranted (answers k))
      → MakesAll
          (AreTestcases number test i rest)
          granted
          (create_testcases name number test answers i rest)
  unfolding create_testcases testcase_create
  create_testcases-MakesAll number test answers i [] f = refl
  create_testcases-MakesAll number test answers i (kind ∷ rest) f =
      let later = create_testcases-MakesAll number test answers (suc i) rest f in
      either-MakesAll (selects number i) number test (kind ∷ chosen number (suc i) rest)
        (chosen number (suc i) rest) _ _
        (next_testcase-MakesAll number test (suc i) kind rest _ _
          (testcase_create-Makes kind number test (answers i).name (answers i).block
            (λ all. (f all i).0) (λ all. (f all i).1))
          later)
        later

  -- A test before its test cases are created.
  abbrev IsNewTest : ℕ → ℕ → Test → Type 0
  IsNewTest testsuite number t =
      (t.testsuite ≡ testsuite) × (t.name.bytes ≡ text_bytes (test_text name number))

  test_create-Makes :
      (testsuite number : ℕ) (name_block array block : Option ℕ)
      → (granted → Given name_block)
      → (granted → Given array)
      → (granted → Given block)
      → Makes
          (IsNewTest testsuite number)
          granted
          (test_named testsuite (vsnprintfdup (test_text name number) name_block) array block)
  unfolding test_named vsnprintfdup
  test_create-Makes testsuite number none array block f f' f'' = f
  test_create-Makes testsuite number (some n) none block f f' f'' = f'
  test_create-Makes testsuite number (some n) (some ar) none f f' f'' = f''
  test_create-Makes testsuite number (some n) (some ar) (some a) f f' f'' = (refl, refl)

  next_test-MakesAll :
      (testsuite i n : ℕ) (t : Test) (acts : List Act) (created : Bool × List Testcase × List Act)
      (later : Bool × List Test × List Act)
      → IsNewTest testsuite (i + 1) t
      → MakesAll (AreTestcases (i + 1) t.address 0 kinds) granted created
      → MakesAll (AreTests name testsuite (suc i) n) granted later
      → MakesAll (AreTests name testsuite i (suc n)) granted (next_test t acts created later)
  unfolding next_test
  next_test-MakesAll testsuite i n t acts (false, tcs, acts') later h m m' = m
  next_test-MakesAll testsuite i n t acts (true, tcs, acts') (true, more, acts'') (h, h') m m' =
      ((h, h', m), m')
  next_test-MakesAll testsuite i n t acts (true, tcs, acts') (false, more, acts'') h m m' = m'

  with_test-MakesAll :
      (testsuite i n : ℕ) (answers : ℕ → TestcaseAnswers) (one : Option Test × List Act)
      (later : Bool × List Test × List Act)
      → (granted → (k : ℕ) → TestcaseGranted (answers k))
      → Makes (IsNewTest testsuite (i + 1)) granted one
      → MakesAll (AreTests name testsuite (suc i) n) granted later
      → MakesAll
          (AreTests name testsuite i (suc n))
          granted
          (with_test name (i + 1) answers one later)
  unfolding with_test
  with_test-MakesAll testsuite i n answers (none, acts) later f m m' = m
  with_test-MakesAll testsuite i n answers (some t, acts) later f m m' =
      next_test-MakesAll testsuite i n t acts _ later m
        (create_testcases-MakesAll (i + 1) t.address answers 0 kinds f) m'

  pub create_tests-MakesAll :
      (testsuite : ℕ) (answers : ℕ → TestAnswers) (i n : ℕ)
      → (granted → (k : ℕ) → TestGranted (answers k))
      → MakesAll (AreTests name testsuite i n) granted (create_tests name testsuite answers i n)
  unfolding create_tests test_create
  create_tests-MakesAll testsuite answers i zero f = tt
  create_tests-MakesAll testsuite answers i (suc n) f =
      with_test-MakesAll testsuite i n (answers i).testcase _ _ (λ all. (f all i).3)
        (test_create-Makes testsuite (i + 1) (answers i).name (answers i).array (answers i).block
          (λ all. (f all i).0) (λ all. (f all i).1) (λ all. (f all i).2))
        (create_tests-MakesAll testsuite answers (suc i) n f)
