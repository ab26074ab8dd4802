-- ===== src/Loader/Load/Made.antt =====
-- The steps of ctest_load_testsuite in src/exec/loader.c, from the name of a test case to the tests.
use ctest.Prelude.{
  ℕ, zero, suc, ◌+◌, ◌≡◌, refl, ap, ◌∙◌, pos, Bool, true, false, List, [], ◌∷◌, Option, none, some,
  length, take, subst, sym, arith,
}
use ctest.Memory.{text_bytes}
use ctest.Loader.Load.{
  DataProvider, TestDef, Name, Testcase, Test, Act, TestcaseAnswers, TestAnswers, in_buffer,
  make_name, complete_testcase, testcase_at, testcase_create,
}
use ctest.Loader.Load.Create.{
  next_created, create_testcases, provider_of, end_test, test_at, test_create, create_tests,
}
use ctest.Loader.Load.Names.{bracketed, format_name-bracketed}
use ctest.Loader.Load.Loaded.{
  Given, TestcaseGranted, TestGranted, IsSized, Prints, spelled, name_with, Makes, MakesAll,
  IsTestcase, element_at, AreTestcases, IsTest, AreTests, AllPrint,
}

pub Makes-under :
    {A : Type 0} (Good : A → Type 0) (granted granted' : Type 0) (made : Option A × List Act)
    → (granted' → granted)
    → Makes Good granted made
    → Makes Good granted' made
Makes-under Good granted granted' (none, acts) f m = λ all. m (f all)
Makes-under Good granted granted' (some a, acts) f m = m

module _ (text : TestDef → ℕ → List ℕ) where
  in_buffer-Makes :
      (name : List ℕ) (printed : List ℕ) (write old : ℕ → List ℕ) (answer : Option ℕ)
      → write (length printed + 1 + 1) ≡ text_bytes printed
      → IsSized old
      → Makes
          (λ n. spelled n ≡ bracketed name printed)
          (Given answer)
          (in_buffer name (length printed) write old answer)
  unfolding in_buffer
  in_buffer-Makes name printed write old none w sized = λ given. given
  in_buffer-Makes name printed write old (some a) w sized =
      format_name-bracketed name printed write (old (length name + 1 + length printed + 1 + 1)) w
        (sized (length name + 1 + length printed + 1 + 1))

  make_name-Makes :
      (name printed : List ℕ) (write old : ℕ → List ℕ) (answer : Option ℕ)
      → write (length printed + 1 + 1) ≡ text_bytes printed
      → IsSized old
      → Makes
          (λ n. spelled n ≡ name_with name printed)
          (Given answer)
          (make_name (pos (length printed)) name write old answer)
  unfolding make_name
  make_name-Makes name [] write old answer w sized = refl
  make_name-Makes name (c ∷ cs) write old answer w sized =
      in_buffer-Makes name (c ∷ cs) write old answer w sized

  take_more : (xs : List ℕ) → take (length xs + 1) xs ≡ xs
  take_more [] = refl
  take_more (x ∷ xs) =
      let e : suc (length xs) + 1 ≡ suc (length xs + 1) = omega arith in
      ap (λ n. take n (x ∷ xs)) e ∙ ap (◌∷◌ x) (take_more xs)

  written_whole :
      (provider : DataProvider) (printed : ℕ → List ℕ) (e : ℕ)
      → Prints provider printed
      → (provider.to_string (length (printed e) + 1 + 1) e).1 ≡ text_bytes (printed e)
  written_whole provider printed e p =
      let n : ℕ = length (printed e) in
      let k : n + 1 + 1 ≡ suc (n + 1) = omega arith in
      ap (λ l. (provider.to_string l e).1) k
      ∙ p.writes e (n + 1)
      ∙ ap (λ l. text_bytes l) (take_more (printed e))

  complete_testcase-Makes :
      (a test : ℕ) (def : TestDef) (e : ℕ) (granted : Type 0) (name : Option Name × List Act)
      → Makes (λ n. spelled n ≡ name_with def.name (text def e)) granted name
      → Makes (IsTestcase text test def e) granted (complete_testcase a test e name)
  unfolding complete_testcase
  complete_testcase-Makes a test def e granted (none, acts) m = m
  complete_testcase-Makes a test def e granted (some name, acts) m = (refl, refl, m)

  provided_name-Makes :
      (def : TestDef) (e : ℕ) (answers : TestcaseAnswers)
      → Prints (provider_of def) (text def)
      → IsSized answers.old
      → Makes
          (λ n. spelled n ≡ name_with def.name (text def e))
          (Given answers.name_block)
          (make_name
            ((provider_of def).to_string 0 e).0
            def.name
            (λ len. ((provider_of def).to_string len e).1)
            answers.old
            answers.name_block)
  provided_name-Makes def e answers p sized =
      let write : ℕ → List ℕ = λ len. ((provider_of def).to_string len e).1 in
      subst
        (λ size.
          Makes (λ n. spelled n ≡ name_with def.name (text def e)) (Given answers.name_block)
            (make_name size def.name write answers.old answers.name_block))
        (sym (p.gives e))
        (make_name-Makes def.name (text def e) write answers.old answers.name_block
          (written_whole (provider_of def) (text def) e p) sized)

  testcase_at-Makes :
      (block : Option ℕ) (test : ℕ) (def : TestDef) (e : ℕ) (answers : TestcaseAnswers)
      → Prints (provider_of def) (text def)
      → IsSized answers.old
      → Makes
          (IsTestcase text test def e)
          (Given block × Given answers.name_block)
          (testcase_at block test def (provider_of def) e answers)
  unfolding testcase_at
  testcase_at-Makes none test def e answers p sized = λ granted. granted.0
  testcase_at-Makes (some a) test def e answers p sized =
      Makes-under (IsTestcase text test def e) (Given answers.name_block)
        (Unit × Given answers.name_block)
        (testcase_at (some a) test def (provider_of def) e answers) (λ all. all.1)
        (complete_testcase-Makes a test def e (Given answers.name_block) _
          (provided_name-Makes def e answers p sized))

  next_testcase-MakesAll :
      (test : ℕ) (def : TestDef) (i n : ℕ) (granted granted' : Type 0)
      (one : Option Testcase × List Act) (later : Bool × List Testcase × List Act)
      → Makes (IsTestcase text test def (element_at text def i)) granted one
      → MakesAll (AreTestcases text test def (suc i) n) granted' later
      → MakesAll
          (AreTestcases text test def i (suc n))
          (granted × granted')
          (next_created one later)
  unfolding next_created
  next_testcase-MakesAll test def i n granted granted' (none, acts) later m m' = λ all. m all.0
  next_testcase-MakesAll test def i n granted granted' (some tc, acts) (true, more, acts') m m' =
      (m, m')
  next_testcase-MakesAll test def i n granted granted' (some tc, acts) (false, more, acts') m m' =
      λ all. m' all.1

  MakesAll-under :
      {A : Type 0} (Good : List A → Type 0) (granted granted' : Type 0)
      (made : Bool × List A × List Act)
      → (granted' → granted)
      → MakesAll Good granted made
      → MakesAll Good granted' made
  MakesAll-under Good granted granted' (true, made, acts) f m = m
  MakesAll-under Good granted granted' (false, made, acts) f m = λ all. m (f all)

  create_testcases-MakesAll :
      (test : ℕ) (def : TestDef) (answers : ℕ → TestcaseAnswers) (i n : ℕ)
      → Prints (provider_of def) (text def)
      → ((k : ℕ) → IsSized (answers k).old)
      → MakesAll
          (AreTestcases text test def i n)
          ((k : ℕ) → TestcaseGranted (answers k))
          (create_testcases test def (provider_of def) answers i n)
  unfolding create_testcases testcase_create
  create_testcases-MakesAll test def answers i zero p sized = tt
  create_testcases-MakesAll test def answers i (suc n) p sized =
      MakesAll-under (AreTestcases text test def i (suc n))
        (TestcaseGranted (answers i) × ((k : ℕ) → TestcaseGranted (answers k)))
        ((k : ℕ) → TestcaseGranted (answers k))
        (create_testcases test def (provider_of def) answers i (suc n))
        (λ granted. (granted i, granted))
        (next_testcase-MakesAll test def i n _ ((k : ℕ) → TestcaseGranted (answers k)) _ _
          (testcase_at-Makes (answers i).block test def (element_at text def i) (answers i) p
            (sized i))
          (create_testcases-MakesAll test def answers (suc i) n p sized))

  end_test-Makes :
      (testsuite : ℕ) (def : TestDef) (a array : ℕ) (granted : Type 0)
      (created : Bool × List Testcase × List Act)
      → MakesAll (AreTestcases text a def 0 (provider_of def).count) granted created
      → Makes (IsTest text testsuite def) granted (end_test testsuite def a array created)
  unfolding end_test
  end_test-Makes testsuite def a array granted (true, testcases, acts) m = (refl, refl, m)
  end_test-Makes testsuite def a array granted (false, testcases, acts) m = m

  test_at-Makes :
      (block array : Option ℕ) (testsuite : ℕ) (def : TestDef) (answers : ℕ → TestcaseAnswers)
      → Prints (provider_of def) (text def)
      → ((k : ℕ) → IsSized (answers k).old)
      → Makes
          (IsTest text testsuite def)
          (Given block × Given array × ((k : ℕ) → TestcaseGranted (answers k)))
          (test_at block array testsuite def answers)
  unfolding test_at
  test_at-Makes none array testsuite def answers p sized = λ granted. granted.0
  test_at-Makes (some a) none testsuite def answers p sized = λ granted. granted.1
  test_at-Makes (some a) (some array) testsuite def answers p sized =
      end_test-Makes testsuite def a array _ _ (
        MakesAll-under (AreTestcases text a def 0 (provider_of def).count)
          ((k : ℕ) → TestcaseGranted (answers k))
          (Unit × Unit × ((k : ℕ) → TestcaseGranted (answers k)))
          (create_testcases a def (provider_of def) answers 0 (provider_of def).count)
          (λ granted. granted.2)
          (create_testcases-MakesAll a def answers 0 (provider_of def).count p sized))

  next_test-MakesAll :
      (testsuite : ℕ) (def : TestDef) (defs : List TestDef) (granted granted' : Type 0)
      (one : Option Test × List Act) (later : Bool × List Test × List Act)
      → Makes (IsTest text testsuite def) granted one
      → MakesAll (AreTests text testsuite defs) granted' later
      → MakesAll
          (AreTests text testsuite (def ∷ defs))
          (granted × granted')
          (next_created one later)
  unfolding next_created
  next_test-MakesAll testsuite def defs granted granted' (none, acts) later m m' = λ all. m all.0
  next_test-MakesAll testsuite def defs granted granted' (some t, acts) (true, more, acts') m m' =
      (m, m')
  next_test-MakesAll testsuite def defs granted granted' (some t, acts) (false, more, acts') m m' =
      λ all. m' all.1

  pub create_tests-MakesAll :
      (testsuite : ℕ) (answers : ℕ → TestAnswers) (i : ℕ) (defs : List TestDef)
      → AllPrint text defs
      → ((j k : ℕ) → IsSized ((answers j).testcase k).old)
      → MakesAll
          (AreTests text testsuite defs)
          ((j : ℕ) → TestGranted (answers j))
          (create_tests testsuite answers i defs)
  unfolding create_tests test_create
  create_tests-MakesAll testsuite answers i [] p sized = tt
  create_tests-MakesAll testsuite answers i (def ∷ defs) (p, ps) sized =
      MakesAll-under (AreTests text testsuite (def ∷ defs))
        (TestGranted (answers i) × ((j : ℕ) → TestGranted (answers j)))
        ((j : ℕ) → TestGranted (answers j)) (create_tests testsuite answers i (def ∷ defs))
        (λ granted. (granted i, granted))
        (next_test-MakesAll testsuite def defs _ ((j : ℕ) → TestGranted (answers j)) _ _
          (test_at-Makes (answers i).block (answers i).array testsuite def (answers i).testcase p
            (sized i))
          (create_tests-MakesAll testsuite answers (suc i) defs ps sized))
