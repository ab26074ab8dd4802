-- ===== src/TestingSuite/Freed.antt =====
-- What ctest_create_testing_testsuite of src/exec/testing_testsuite.c takes from the system, and what
-- it and the destructor of the suite give back.
use ctest.Prelude.{
  ℕ, zero, suc, ◌+◌, refl, Bool, true, false, List, [], ◌∷◌, ◌++◌, Option, none, some, total-append,
  if◌then◌else◌, subst, append_assoc, arith,
}
use ctest.Loader.Load.{Act, allocate, release}
use ctest.Loader.Load.Settled.{
  Resource, takes, gives, release-Undoes, Settles, Settles-append, Settles-done, SettlesResult,
  SettlesAll,
}
use ctest.TestingSuite.{
  Kind, Text, Testcase, Test, Testsuite, TestcaseAnswers, TestAnswers, SuiteAnswers, vsnprintfdup,
}
use ctest.TestingSuite.Create.{
  testcase_destroy, testcase_named, testcase_create, destroy_testcases, test_destroy, test_named,
  test_create, destroy_tests, testsuite_destroy, testsuite_named, testsuite_create, kinds, selects,
  testsuite_text, next_testcase, create_testcases, next_test, with_test, create_tests, test_count,
  end_tests, with_testsuite, ctest_create_testing_testsuite,
}

module _ (r : Resource) where
  two : (a b : ℕ) → Settles r (allocate a ∷ allocate b ∷ []) (release a ∷ release b ∷ [])
  two a b =
      let (e, e', e'') = release-Undoes r a in
      let (f, f', f'') = release-Undoes r b in omega (arith, e, e', e'', f, f', f'')

  three :
      (a b c : ℕ)
      → Settles r
          (allocate a ∷ allocate b ∷ allocate c ∷ [])
          (release b ∷ release a ∷ release c ∷ [])
  three a b c =
      let (e, e', e'') = release-Undoes r a in
      let (f, f', f'') = release-Undoes r b in
      let (k, k', k'') = release-Undoes r c in omega (arith, e, e', e'', f, f', f'', k, k', k'')

  one_undone : (a : ℕ) → Settles r (allocate a ∷ release a ∷ []) []
  one_undone a = let (e, e', e'') = release-Undoes r a in omega (arith, e, e', e'')

  two_undone : (a b : ℕ) → Settles r (allocate a ∷ allocate b ∷ release b ∷ release a ∷ []) []
  two_undone a b =
      let (e, e', e'') = release-Undoes r a in
      let (f, f', f'') = release-Undoes r b in omega (arith, e, e', e'', f, f', f'')

  testcase_named-Settles :
      (ops : Kind) (test : ℕ) (name : Option Text) (block : Option ℕ)
      → SettlesResult r testcase_destroy (testcase_named ops test name block)
  unfolding testcase_named testcase_destroy
  testcase_named-Settles ops test none block = refl
  testcase_named-Settles ops test (some name) none = one_undone name.address
  testcase_named-Settles ops test (some name) (some a) = two name.address a

  -- The blocks of a test or a suite itself.
  abbrev test_blocks : Test → List Act
  test_blocks t = release t.array ∷ release t.name.address ∷ release t.address ∷ []

  abbrev testsuite_blocks : Testsuite → List Act
  testsuite_blocks s = release s.array ∷ release s.name.address ∷ release s.address ∷ []

  test_named-Settles :
      (testsuite : ℕ) (name : Option Text) (array block : Option ℕ)
      → SettlesResult r test_blocks (test_named testsuite name array block)
  unfolding test_named
  test_named-Settles testsuite none array block = refl
  test_named-Settles testsuite (some name) none block = one_undone name.address
  test_named-Settles testsuite (some name) (some array) none = two_undone name.address array
  test_named-Settles testsuite (some name) (some array) (some a) = three name.address array a

  testsuite_named-Settles :
      (name : Option Text) (array block : Option ℕ)
      → SettlesResult r testsuite_blocks (testsuite_named name array block)
  unfolding testsuite_named
  testsuite_named-Settles none array block = refl
  testsuite_named-Settles (some name) none block = one_undone name.address
  testsuite_named-Settles (some name) (some array) none = two_undone name.address array
  testsuite_named-Settles (some name) (some array) (some a) = three name.address array a

  next_testcase-Settles :
      (one : Option Testcase × List Act) (later : Bool × List Testcase × List Act)
      → SettlesResult r testcase_destroy one
      → SettlesAll r destroy_testcases later
      → SettlesAll r destroy_testcases (next_testcase one later)
  unfolding next_testcase destroy_testcases
  next_testcase-Settles (none, acts) later s s' = s
  next_testcase-Settles (some tc, acts) (all, more, acts') s s' =
      Settles-append r acts acts' (testcase_destroy tc) (destroy_testcases more) s s'

  either-Settles :
      (selected : Bool) (one later : Bool × List Testcase × List Act)
      → SettlesAll r destroy_testcases one
      → SettlesAll r destroy_testcases later
      → SettlesAll r destroy_testcases (if selected then one else later)
  either-Settles true one later s s' = s
  either-Settles false one later s s' = s'

  create_testcases-Settles :
      (name : List ℕ) (number test : ℕ) (answers : ℕ → TestcaseAnswers) (i : ℕ) (rest : List Kind)
      → SettlesAll r destroy_testcases (create_testcases name number test answers i rest)
  unfolding create_testcases destroy_testcases testcase_create
  create_testcases-Settles name number test answers i [] = refl
  create_testcases-Settles name number test answers i (kind ∷ rest) =
      let s = create_testcases-Settles name number test answers (suc i) rest in
      either-Settles (selects number i) _ _
        (next_testcase-Settles _ _ (testcase_named-Settles kind test _ (answers i).block) s) s

  -- What is done inside another piece of work is undone first.
  Settles-inside :
      (acts acts' undo undo' : List Act)
      → Settles r acts undo
      → Settles r acts' undo'
      → Settles r (acts ++ acts') (undo' ++ undo)
  Settles-inside acts acts' undo undo' s s' = omega (
    arith,
    s,
    s',
    total-append (takes r) acts acts',
    total-append (gives r) acts acts',
    total-append (takes r) undo' undo,
    total-append (gives r) undo' undo,
  )

  -- A test with its test cases, and the tests after it.
  next_test-Settles :
      (t : Test) (acts : List Act) (created : Bool × List Testcase × List Act)
      (later : Bool × List Test × List Act)
      → Settles r acts (test_blocks t)
      → SettlesAll r destroy_testcases created
      → SettlesAll r destroy_tests later
      → SettlesAll r destroy_tests (next_test t acts created later)
  unfolding next_test destroy_tests test_destroy
  next_test-Settles t acts (false, testcases, acts') later s s' s'' =
      let all = Settles-inside acts acts' (test_blocks t) (destroy_testcases testcases) s s' in
      let undo = destroy_testcases testcases ++ test_blocks t in
      omega (arith, all, total-append (takes r) undo [], total-append (gives r) undo [])
  next_test-Settles t acts (true, testcases, acts') (all, more, acts'') s s' s'' =
      let one = Settles-inside acts acts' (test_blocks t) (destroy_testcases testcases) s s' in
      let undo = destroy_testcases testcases ++ test_blocks t in
      subst (λ l. Settles r l (undo ++ destroy_tests more)) (append_assoc acts acts' acts'')
        (Settles-append r (acts ++ acts') acts'' undo (destroy_tests more) one s'')

  with_test-Settles :
      (name : List ℕ) (number : ℕ) (answers : ℕ → TestcaseAnswers) (one : Option Test × List Act)
      (later : Bool × List Test × List Act)
      → SettlesResult r test_blocks one
      → SettlesAll r destroy_tests later
      → SettlesAll r destroy_tests (with_test name number answers one later)
  unfolding with_test destroy_tests
  with_test-Settles name number answers (none, acts) later s s' = s
  with_test-Settles name number answers (some t, acts) later s s' =
      next_test-Settles t acts _ later s
        (create_testcases-Settles name number t.address answers 0 kinds) s'

  create_tests-Settles :
      (name : List ℕ) (testsuite : ℕ) (answers : ℕ → TestAnswers) (i n : ℕ)
      → SettlesAll r destroy_tests (create_tests name testsuite answers i n)
  unfolding create_tests destroy_tests test_create
  create_tests-Settles name testsuite answers i zero = refl
  create_tests-Settles name testsuite answers i (suc n) =
      with_test-Settles name (i + 1) (answers i).testcase _ _
        (test_named-Settles testsuite _ (answers i).array (answers i).block)
        (create_tests-Settles name testsuite answers (suc i) n)

  end_tests-Settles :
      (s : Testsuite) (acts : List Act) (created : Bool × List Test × List Act)
      → Settles r acts (testsuite_blocks s)
      → SettlesAll r destroy_tests created
      → SettlesResult r testsuite_destroy (end_tests s acts created)
  unfolding end_tests testsuite_destroy
  end_tests-Settles s acts (true, tests, acts') h h' =
      Settles-inside acts acts' (testsuite_blocks s) (destroy_tests tests) h h'
  end_tests-Settles s acts (false, tests, acts') h h' =
      Settles-done r (acts ++ acts') (destroy_tests tests ++ testsuite_blocks s)
        (Settles-inside acts acts' (testsuite_blocks s) (destroy_tests tests) h h')

  with_testsuite-Settles :
      (name : List ℕ) (answers : ℕ → TestAnswers) (one : Option Testsuite × List Act)
      → SettlesResult r testsuite_blocks one
      → SettlesResult r testsuite_destroy (with_testsuite name answers one)
  unfolding with_testsuite
  with_testsuite-Settles name answers (none, acts) h = h
  with_testsuite-Settles name answers (some s, acts) h =
      end_tests-Settles s acts _ h (create_tests-Settles name s.address answers 0 test_count)

  -- Each block is freed as often as it is allocated: by ctest_create_testing_testsuite itself where
  -- it fails, whatever allocation is refused, and else by the destructor of the suite.
  pub ctest_create_testing_testsuite-Settles :
      (name : List ℕ) (answers : SuiteAnswers)
      → SettlesResult r testsuite_destroy (ctest_create_testing_testsuite name answers)
  unfolding ctest_create_testing_testsuite testsuite_create
  ctest_create_testing_testsuite-Settles name answers = with_testsuite-Settles name answers.test _ (
      testsuite_named-Settles (vsnprintfdup (testsuite_text name) answers.name) answers.array
        answers.block)
