-- ===== src/Runner/Run/Protocol.antt =====
-- The runner keeps to the reporters' protocol: whatever the reporter and the callback answer, each
-- reporter is created inside the one that it belongs to, and destroyed again.
use ctest.Prelude.{
  ℕ, zero, suc, ◌≡◌, refl, sym, ap, inl, inr, ℤ-cases, pos, Bool, true, List, [], ◌∷◌, Option, none,
  some, ◌==◌, ==_iff, Bool-cases, Option-cases, subst, arith, ◌+◌, ◌<◌, length,
}
use ctest.Suite.{Registry}
use ctest.Runner.Trace.{Event, open_testsuite, Trace, Host, live}
use ctest.Runner.Partition.{repartition_tests, repartition_testcases}
use ctest.Runner.Run.{
  Ran, run_test, run_testsuite, run_testsuites_from, runner_run_testsuites, span_key,
  run_tests_from, runner_run_tests, leave_testsuite, enter_testsuite, run_testcases_from,
  runner_run_testcases,
}
use ctest.Runner.Run.Nesting.{
  AllHave, run_test-live, run_testsuite-live, live-open_testsuite, live-close_testsuite,
  span_key-AllHave, length-span_key,
}

-- The arrays of a test and of a suite hold what names it as its own.
pub record IsConsistent (reg : Registry) : Type 0 where
  pub testcases_own : (test : ℕ) → AllHave reg.testcase_get_test test (reg.test_get_testcases test)
  pub tests_own :
      (testsuite : ℕ) → AllHave reg.test_get_testsuite testsuite (reg.testsuite_get_tests testsuite)

module _ (reg : Registry) (h : Host) where
  open reg use {testcase_get_test, test_get_testsuite, testsuite_get_tests}

  run_testsuites_from-live :
      IsConsistent reg
      → (testsuites : List ℕ) (result : ℕ) (t : Trace) → live reg t ≡ some []
      → live reg (run_testsuites_from reg h testsuites result t).1 ≡ some []
  unfolding run_testsuites_from
  run_testsuites_from-live c [] result t l = l
  run_testsuites_from-live c (s ∷ rest) result t l =
      let one = run_testsuite reg h s (testsuite_get_tests s) t in
      let l' : live reg one.1 ≡ some [] =
        run_testsuite-live reg h c.testcases_own s (testsuite_get_tests s) t (c.tests_own s) l in
      elim (ℤ-cases (one.0)) [
        | inr (n, e) ↦ rw (e, run_testsuites_from) l'
        | inl (n, e) ↦
            rw (e, run_testsuites_from) (run_testsuites_from-live c rest (result + n) (one.1) l')
      ]

  -- With arrays that hold their own, `runner_run_testsuites` keeps to the protocol and leaves no
  -- reporter behind, whatever the reporter and the callback answer.
  pub runner_run_testsuites-live :
      (testsuites : List ℕ)
      → IsConsistent reg
      → live reg (runner_run_testsuites reg h testsuites []).1 ≡ some []
  unfolding runner_run_testsuites live
  runner_run_testsuites-live testsuites c = run_testsuites_from-live c testsuites 0 [] refl

  -- An answer that was reached and left no reporter behind.
  abbrev pub IsClean : Option Ran → Type 0
  IsClean o = (ran : Ran) × (o ≡ some ran) × (live reg ran.1 ≡ some [])

  run_tests_from-live :
      IsConsistent reg
      → (fuel : ℕ) (tests : List ℕ) (result : ℕ) (t : Trace) → length tests < fuel
      → live reg t ≡ some []
      → IsClean (run_tests_from reg h fuel tests result t)
  unfolding run_tests_from
  run_tests_from-live c zero tests result t f l = elim f [ ]
  run_tests_from-live c (suc fuel) [] result t f l = ((pos result, t), refl, l)
  run_tests_from-live c (suc fuel) (k ∷ ks) result t f l =
      let s = test_get_testsuite k in
      let same = (span_key test_get_testsuite s ks).0 in
      let one = run_testsuite reg h s (k ∷ same) t in
      let l' : live reg one.1 ≡ some [] =
        run_testsuite-live reg h c.testcases_own s (k ∷ same) t
          (refl, span_key-AllHave test_get_testsuite s ks) l in
      elim (ℤ-cases (one.0)) [
        | inr (n, e) ↦ rw (e, run_tests_from) (_, refl, l')
        | inl (n, e) ↦
            rw (e, run_tests_from)
              (run_tests_from-live c fuel (span_key test_get_testsuite s ks).1 (result + n) (one.1)
                (omega (arith, length-span_key test_get_testsuite s ks)) l')
      ]

  -- So does `runner_run_tests`, which ends also where the copy cannot be allocated.
  pub runner_run_tests-live :
      (allocated : Bool) (tests : List ℕ)
      → IsConsistent reg
      → IsClean (runner_run_tests reg h allocated tests [])
  unfolding runner_run_tests live
  runner_run_tests-live allocated [] c = ((pos 0, []), refl, refl)
  runner_run_tests-live allocated (k ∷ ks) c =
      elim (Option-cases (repartition_tests reg allocated (k ∷ ks))) [
        | inl e ↦ rw (e, runner_run_tests) (_, refl, refl)
        | inr (a, e) ↦
            rw (e, runner_run_tests)
              (run_tests_from-live c (suc (length a)) a 0 [] (omega arith) refl)
      ]

  -- The reporters of the loop of `runner_run_testcases`, by the suite that it is in.
  abbrev within : Option ℕ → List Event
  within none = []
  within (some s) = open_testsuite s ∷ []

  leave_testsuite-live :
      (current : Option ℕ) (t : Trace)
      → live reg t ≡ some (within current)
      → live reg (leave_testsuite reg h current t) ≡ some []
  unfolding leave_testsuite
  leave_testsuite-live none t l = l
  leave_testsuite-live (some s) t l = live-close_testsuite reg h t [] s l

  enter_testsuite-live :
      (s : ℕ) (current : Option ℕ) (t : Trace)
      → live reg t ≡ some (within current)
      → let (entered, current', t') = enter_testsuite reg h s current t in
        (live reg t' ≡ some (within current')) × (entered ≡ true → current' ≡ some s)
  unfolding enter_testsuite
  enter_testsuite-live s none t l = elim (Bool-cases (h.reports t (open_testsuite s))) [
    | inl e ↦ rw (e, enter_testsuite) (live-open_testsuite reg h t s l, λ _. refl)
    | inr e ↦ rw (e, enter_testsuite) (l, λ q. cc)
  ]
  enter_testsuite-live s (some j) t l =
      let t' = leave_testsuite reg h (some j) t in
      let l' : live reg t' ≡ some [] = leave_testsuite-live (some j) t l in
      elim (Bool-cases (s == j)) [
        | inl same ↦ rw (same, enter_testsuite) (l, λ _. ap some (sym ((==_iff s j).0 same)))
        | inr differs ↦ elim (Bool-cases (h.reports t' (open_testsuite s))) [
          | inl e ↦ rw (differs, enter_testsuite, e) (live-open_testsuite reg h t' s l', λ _. refl)
          | inr e ↦ rw (differs, enter_testsuite, e) (l', λ q. cc)
        ]
      ]

  run_testcases_from-live :
      (fuel : ℕ) (testcases : List ℕ) (current : Option ℕ) (result : ℕ) (t : Trace)
      → length testcases < fuel
      → live reg t ≡ some (within current)
      → IsClean (run_testcases_from reg h fuel testcases current result t)
  unfolding run_testcases_from
  run_testcases_from-live zero testcases current result t f l = elim f [ ]
  run_testcases_from-live (suc fuel) [] current result t f l =
      ((pos result, leave_testsuite reg h current t), refl, leave_testsuite-live current t l)
  run_testcases_from-live (suc fuel) (k ∷ ks) current result t f l =
      let test = testcase_get_test k in
      let (same, others) = span_key testcase_get_test test ks in
      let (entered, current', t') = enter_testsuite reg h (test_get_testsuite test) current t in
      let (l', s) = enter_testsuite-live (test_get_testsuite test) current t l in
      let one = run_test reg h test (k ∷ same) t' in
      elim (Bool-cases entered) [
        | inr e ↦ rw (e, run_testcases_from) (_, refl, leave_testsuite-live current' t' l')
        | inl e ↦
            let l'' : live reg one.1 ≡ some (within current') =
              subst (λ c. live reg one.1 ≡ some (within c)) (sym (s e))
                (run_test-live reg h test (k ∷ same) t' []
                  (refl, span_key-AllHave testcase_get_test test ks)
                  (subst (λ c. live reg t' ≡ some (within c)) (s e) l')) in
            elim (ℤ-cases (one.0)) [
              | inr (n, d) ↦
                  rw (e, run_testcases_from, d) (_, refl, leave_testsuite-live current' (one.1) l'')
              | inl (n, d) ↦
                  rw (e, run_testcases_from, d)
                    (run_testcases_from-live fuel others current' (result + n) (one.1)
                      (omega (arith, length-span_key testcase_get_test test ks)) l'')
            ]
      ]

  -- So does `runner_run_testcases`, for whatever arrays the tests have: it asks each test case.
  pub runner_run_testcases-live :
      (allocated : Bool) (testcases : List ℕ)
      → IsClean (runner_run_testcases reg h allocated testcases [])
  unfolding runner_run_testcases live
  runner_run_testcases-live allocated [] = ((pos 0, []), refl, refl)
  runner_run_testcases-live allocated (k ∷ ks) =
      elim (Option-cases (repartition_testcases reg allocated (k ∷ ks))) [
        | inl e ↦ rw (e, runner_run_testcases) (_, refl, refl)
        | inr (a, e) ↦
            rw (e, runner_run_testcases)
              (run_testcases_from-live (suc (length a)) a none 0 [] (omega arith) refl)
      ]
