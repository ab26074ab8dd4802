-- ===== src/Loader/Load/Registered.antt =====
-- The operation tables of src/exec/loader.c: a suite that is loaded, as the runners see it.
use ctest.Prelude.{
  ℕ, zero, suc, ◌≡◌, refl, ap, ◌∙◌, true, false, List, [], ◌∷◌, ◌++◌, Option, none, some, map, ◌==◌,
  ==_iff, ==-refl, Bool-cases, ◌⊎◌, inl, inr, if◌then◌else◌, subst,
}
use ctest.Suite.{Registry}
use ctest.Loader.Load.{TestDef, SuiteDef, Testcase, Test, Testsuite}
use ctest.Loader.Load.Create.{provider_of}
use ctest.Loader.Load.Loaded.{AreTestcases, AreTests, IsLoaded}
use ctest.Runner.Trace.{Host, live}
use ctest.Runner.Run.{runner_run_testsuites}
use ctest.Runner.Run.Nesting.{AllHave}
use ctest.Runner.Run.Protocol.{IsConsistent, runner_run_testsuites-live}

-- The object at an address.
unfoldable pub find_testcase : List Testcase → ℕ → Option Testcase
find_testcase [] a = none
find_testcase (tc ∷ testcases) a = if tc.address == a then some tc else find_testcase testcases a

unfoldable pub find_test : List Test → ℕ → Option Test
find_test [] a = none
find_test (t ∷ tests) a = if t.address == a then some t else find_test tests a

abbrev pub all_testcases : List Test → List Testcase
all_testcases [] = []
all_testcases (t ∷ tests) = t.testcases ++ all_testcases tests

-- testcase_op_get_test__; 0 stands for a call without an object.
unfoldable pub testcase_op_get_test : Option Testcase → ℕ
testcase_op_get_test none = 0
testcase_op_get_test (some tc) = tc.test

unfoldable pub test_op_get_testsuite : Option Test → ℕ
test_op_get_testsuite none = 0
test_op_get_testsuite (some t) = t.testsuite

-- test_op_get_testcases__ and test_op_get_testcase_count__
unfoldable pub test_op_get_testcases : Option Test → List ℕ
test_op_get_testcases none = []
test_op_get_testcases (some t) = map (λ tc. tc.address) t.testcases

-- testsuite_op_get_tests__ and testsuite_op_get_test_count__
unfoldable pub testsuite_op_get_tests : Testsuite → List ℕ
testsuite_op_get_tests s = map (λ t. t.address) s.tests

unfoldable pub registry_of : Testsuite → Registry
registry_of s = record {
  testcase_get_test = λ a. testcase_op_get_test (find_testcase (all_testcases s.tests) a);
  test_get_testsuite = λ a. test_op_get_testsuite (find_test s.tests a);
  test_get_testcases = λ a. test_op_get_testcases (find_test s.tests a);
  testsuite_get_tests = λ a. if s.address == a then testsuite_op_get_tests s else [];
}

-- No two test cases are at one address.
abbrev pub AreApart : List Testcase → Type 0
AreApart [] = Unit
AreApart (tc ∷ testcases) = (find_testcase testcases tc.address ≡ none) × AreApart testcases

abbrev IsAmong : {A : Type 0} → A → List A → Type 0
IsAmong x [] = ⊥
IsAmong x (y ∷ ys) = (y ≡ x) ⊎ IsAmong x ys

IsAmong-left : {A : Type 0} (x : A) (xs ys : List A) → IsAmong x xs → IsAmong x (xs ++ ys)
IsAmong-left x [] ys m = elim m [ ]
IsAmong-left x (y ∷ xs) ys (inl e) = inl e
IsAmong-left x (y ∷ xs) ys (inr m) = inr (IsAmong-left x xs ys m)

IsAmong-right : {A : Type 0} (x : A) (xs ys : List A) → IsAmong x ys → IsAmong x (xs ++ ys)
IsAmong-right x [] ys m = m
IsAmong-right x (y ∷ xs) ys m = inr (IsAmong-right x xs ys m)

find_testcase-IsAmong :
    (testcases : List Testcase) (tc : Testcase)
    → AreApart testcases
    → IsAmong tc testcases
    → find_testcase testcases tc.address ≡ some tc
unfolding find_testcase
find_testcase-IsAmong [] tc apart m = elim m [ ]
find_testcase-IsAmong (one ∷ testcases) tc (fresh, apart) (inl e) =
    subst (λ x. find_testcase (one ∷ testcases) x.address ≡ some x) e
      (rw (==-refl one.address, find_testcase) refl)
find_testcase-IsAmong (one ∷ testcases) tc (fresh, apart) (inr m) =
    let later = find_testcase-IsAmong testcases tc apart m in
    elim (Bool-cases (one.address == tc.address)) [
      | inl t ↦
          let e : one.address ≡ tc.address = (==_iff one.address tc.address).0 t in
          absurd (cc (subst (λ x. find_testcase testcases x ≡ none) e fresh, later))
      | inr t ↦ rw (t, find_testcase) later
    ]

-- Test cases that belong to a test, and tests that belong to a suite, with their test cases.
abbrev Own : ℕ → List Testcase → Type 0
Own test [] = Unit
Own test (tc ∷ testcases) = (tc.test ≡ test) × Own test testcases

abbrev OwnTests : ℕ → List Test → Type 0
OwnTests testsuite [] = Unit
OwnTests testsuite (t ∷ tests) =
    (t.testsuite ≡ testsuite) × Own t.address t.testcases × OwnTests testsuite tests

AreTestcases-Own :
    (text : TestDef → ℕ → List ℕ) (test : ℕ) (def : TestDef) (i n : ℕ) (testcases : List Testcase)
    → AreTestcases text test def i n testcases
    → Own test testcases
AreTestcases-Own text test def i zero [] h = tt
AreTestcases-Own text test def i zero (tc ∷ testcases) h = elim h [ ]
AreTestcases-Own text test def i (suc n) [] h = elim h [ ]
AreTestcases-Own text test def i (suc n) (tc ∷ testcases) ((e, e', e''), h) =
    (e, AreTestcases-Own text test def (suc i) n testcases h)

AreTests-OwnTests :
    (text : TestDef → ℕ → List ℕ) (testsuite : ℕ) (defs : List TestDef) (tests : List Test)
    → AreTests text testsuite defs tests
    → OwnTests testsuite tests
AreTests-OwnTests text testsuite [] [] h = tt
AreTests-OwnTests text testsuite [] (t ∷ tests) h = elim h [ ]
AreTests-OwnTests text testsuite (def ∷ defs) [] h = elim h [ ]
AreTests-OwnTests text testsuite (def ∷ defs) (t ∷ tests) ((e, e', all), h) = (
  e,
  AreTestcases-Own text t.address def 0 (provider_of def).count t.testcases all,
  AreTests-OwnTests text testsuite defs tests h,
)

module _ (every : List Testcase) (apart : AreApart every) where
  abbrev test_of : ℕ → ℕ
  test_of a = testcase_op_get_test (find_testcase every a)

  testcases-AllHave :
      (test : ℕ) (testcases : List Testcase)
      → Own test testcases
      → ((tc : Testcase) → IsAmong tc testcases → IsAmong tc every)
      → AllHave test_of test (map (λ tc. tc.address) testcases)
  unfolding testcase_op_get_test
  testcases-AllHave test [] o m = tt
  testcases-AllHave test (tc ∷ testcases) (e, o) m = (
    ap testcase_op_get_test (find_testcase-IsAmong every tc apart (m tc (inl refl))) ∙ e,
    testcases-AllHave test testcases o (λ x among. m x (inr among)),
  )

  find_test-AllHave :
      (testsuite : ℕ) (tests : List Test) (a : ℕ)
      → OwnTests testsuite tests
      → ((tc : Testcase) → IsAmong tc (all_testcases tests) → IsAmong tc every)
      → AllHave test_of a (test_op_get_testcases (find_test tests a))
  unfolding test_op_get_testcases find_test
  find_test-AllHave testsuite [] a o m = tt
  find_test-AllHave testsuite (t ∷ tests) a (e, o, os) m = elim (Bool-cases (t.address == a)) [
    | inl s ↦
        rw (s, find_test, test_op_get_testcases)
          (testcases-AllHave a t.testcases
            (subst (λ x. Own x t.testcases) ((==_iff t.address a).0 s) o)
            (λ tc among. m tc (IsAmong-left tc t.testcases (all_testcases tests) among)))
    | inr s ↦
        rw (s, find_test)
          (find_test-AllHave testsuite tests a os
            (λ tc among. m tc (IsAmong-right tc t.testcases (all_testcases tests) among)))
  ]

find_test-testsuite :
    (testsuite : ℕ) (tests : List Test) (t : Test)
    → OwnTests testsuite tests
    → IsAmong t tests
    → test_op_get_testsuite (find_test tests t.address) ≡ testsuite
unfolding find_test test_op_get_testsuite
find_test-testsuite testsuite [] t o m = elim m [ ]
find_test-testsuite testsuite (one ∷ tests) t (e, o, os) m =
    elim (Bool-cases (one.address == t.address)) [
      | inl s ↦ rw (s, find_test, test_op_get_testsuite) e
      | inr s ↦ rw (s, find_test) (find_test-testsuite testsuite tests t os (among_rest m s))
    ]
  where
    among_rest : IsAmong t (one ∷ tests) → (one.address == t.address) ≡ false → IsAmong t tests
    among_rest (inl x) s = absurd (cc (ap (λ y. y.address == t.address) x, ==-refl t.address, s))
    among_rest (inr among) s = among

tests-AllHave :
    (testsuite : ℕ) (every tests : List Test)
    → OwnTests testsuite every
    → ((t : Test) → IsAmong t tests → IsAmong t every)
    → AllHave
        (λ a. test_op_get_testsuite (find_test every a))
        testsuite
        (map (λ t. t.address) tests)
tests-AllHave testsuite every [] o m = tt
tests-AllHave testsuite every (t ∷ tests) o m = (
  find_test-testsuite testsuite every t o (m t (inl refl)),
  tests-AllHave testsuite every tests o (λ x among. m x (inr among)),
)

registry_of-IsConsistent :
    (s : Testsuite)
    → OwnTests s.address s.tests
    → AreApart (all_testcases s.tests)
    → IsConsistent (registry_of s)
unfolding registry_of testsuite_op_get_tests
registry_of-IsConsistent s o apart = record {
  testcases_own = λ a.
      find_test-AllHave (all_testcases s.tests) apart s.address s.tests a o (λ tc among. among);
  tests_own = λ a. own a (Bool-cases (s.address == a));
}
  where
    own :
        (a : ℕ)
        → ((s.address == a) ≡ true) ⊎ ((s.address == a) ≡ false)
        → AllHave
            (λ k. test_op_get_testsuite (find_test s.tests k))
            a
            (if s.address == a then map (λ t. t.address) s.tests else [])
    own a (inl e) = rw e (
        subst
          (λ k.
            AllHave (λ k. test_op_get_testsuite (find_test s.tests k)) k
              (map (λ t. t.address) s.tests))
          ((==_iff s.address a).0 e) (tests-AllHave s.address s.tests s.tests o (λ t among. among)))
    own a (inr e) = rw e tt

-- A run of a suite that is loaded keeps to the reporters' protocol and leaves no reporter behind,
-- whatever the reporter and the callback answer, if no two of its test cases are at one address.
pub runner_run_testsuites-loaded :
    (text : TestDef → ℕ → List ℕ) (def : Option SuiteDef) (s : Testsuite) (h : Host)
    → IsLoaded text def s
    → AreApart (all_testcases s.tests)
    → live (registry_of s) (runner_run_testsuites (registry_of s) h (s.address ∷ []) []).1 ≡ some []
runner_run_testsuites-loaded text none s h loaded apart = elim loaded [ ]
runner_run_testsuites-loaded text (some def) s h (magic, (same, tests)) apart =
    runner_run_testsuites-live (registry_of s) h (s.address ∷ [])
      (registry_of-IsConsistent s (AreTests-OwnTests text s.address def.tests s.tests tests) apart)
