-- ===== src/Runner/Run/Entry.antt =====
-- The account of the three entry points: the order in which they execute test cases is that of the
-- partition, and what they return is the number of failures or a negative code.
use ctest.Prelude.{
  ℕ, zero, suc, ◌+◌, ◌<◌, ◌≡◌, refl, ◌∙◌, sym, ap, inl, inr, pos, negsuc, true, List, [], ◌∷◌, ◌++◌,
  length, append_assoc, append-nil, Option, none, some, Bool-cases, subst, arith, ◌==◌,
}
use ctest.Suite.{Registry}
use ctest.Runner.Group.{group_by, group_by-nil}
use ctest.Runner.Trace.{open_testsuite, close_testsuite, Trace, Host, executed, failures}
use ctest.Runner.Partition.BySuite.{repartition_tests_lem}
use ctest.Runner.Partition.Scan.{suite_of}
use ctest.Runner.Partition.ByTest.{repartition_testcases_lem}
use ctest.Runner.Run.{
  Ran, run_test, run_testsuite, runner_run_testsuites, span_key, minus_one, run_tests_from,
  runner_run_tests, leave_testsuite, enter_testsuite, run_testcases_from, runner_run_testcases,
}
use ctest.Runner.Run.Nesting.{span_key-append, length-span_key}
use ctest.Runner.Run.Account.{
  gather, Accounts, Accounts-after, Accounts-stop, run_test-Accounts, run_testsuite-Accounts,
  run_testsuites_from-Accounts,
}

gather-append : (f : ℕ → List ℕ) (xs ys : List ℕ) → gather f xs ++ gather f ys ≡ gather f (xs ++ ys)
gather-append f [] ys = refl
gather-append f (x ∷ xs) ys =
    append_assoc (f x) (gather f xs) (gather f ys) ∙ ap (◌++◌ (f x)) (gather-append f xs ys)

module _ (reg : Registry) (h : Host) where
  open reg use {testcase_get_test, test_get_testsuite, test_get_testcases, testsuite_get_tests}

  -- `runner_run_testsuites` executes the test cases of all suites in the order of their arrays and
  -- returns the number that failed; when it returns a negative code it has executed a first part.
  pub runner_run_testsuites-Accounts :
      (testsuites : List ℕ)
      → Accounts h
          (gather (λ s. gather test_get_testcases (testsuite_get_tests s)) testsuites)
          0
          []
          (runner_run_testsuites reg h testsuites [])
  unfolding runner_run_testsuites
  runner_run_testsuites-Accounts testsuites = run_testsuites_from-Accounts reg h testsuites 0 []

  -- An answer that was reached, and its account.
  abbrev pub Answers : List ℕ → ℕ → Trace → Option Ran → Type 0
  Answers testcases result t o = (ran : Ran) × (o ≡ some ran) × Accounts h testcases result t ran

  -- One part of the array, and the rounds for the rest of it.
  Answers-then :
      (xs ys : List ℕ) (result : ℕ) (t : Trace) (one : Ran) (leave : Trace → Trace)
      (rest : ℕ → Trace → Option Ran)
      → ((u : Trace) → executed (leave u) ≡ executed u)
      → Accounts h xs 0 t one
      → ((n : ℕ) (u : Trace) → Answers ys n u (rest n u))
      → Answers (xs ++ ys) result t (elim one.0 [
        | negsuc n ↦ some (minus_one, leave one.1)
        | pos n ↦ rest (result + n) (one.1)
      ])
  Answers-then xs ys result t (pos n, u) leave rest q a next =
      let (ran, e, b) = next (result + n) u in
      (ran, e, Accounts-after h xs ys result (result + n) t u ran a.1 (omega arith) b)
  Answers-then xs ys result t (negsuc n, u) leave rest q (left, e) next = (
    (minus_one, leave u),
    refl,
    Accounts-stop h xs ys 0 result t (leave u) n 0 (left, ap (λ l. l ++ left) (q u) ∙ e),
  )

  run_tests_from-Answers :
      (fuel : ℕ) (tests : List ℕ) (result : ℕ) (t : Trace)
      → length tests < fuel
      → Answers
          (gather test_get_testcases tests)
          result
          t
          (run_tests_from reg h fuel tests result t)
  unfolding run_tests_from
  run_tests_from-Answers zero tests result t f = elim f [ ]
  run_tests_from-Answers (suc fuel) [] result t f =
      ((pos result, t), refl, (refl, sym (append-nil (executed t))))
  run_tests_from-Answers (suc fuel) (k ∷ ks) result t f =
      let s = test_get_testsuite k in
      let same = (span_key test_get_testsuite s ks).0 in
      let others = (span_key test_get_testsuite s ks).1 in
      let one = run_testsuite reg h s (k ∷ same) t in
      let whole : gather test_get_testcases (k ∷ same) ++ gather test_get_testcases others
          ≡ gather test_get_testcases (k ∷ ks) =
        gather-append test_get_testcases (k ∷ same) others
        ∙ ap (λ l. gather test_get_testcases (k ∷ l)) (span_key-append test_get_testsuite s ks) in
      subst (λ l. Answers l result t (run_tests_from reg h (suc fuel) (k ∷ ks) result t)) whole
        (Answers-then (gather test_get_testcases (k ∷ same)) (gather test_get_testcases others)
          result t one (λ u. u) (run_tests_from reg h fuel others) (λ u. refl)
          (run_testsuite-Accounts reg h s (k ∷ same) t)
          (λ n u.
            run_tests_from-Answers fuel others n u
              (omega (arith, length-span_key test_get_testsuite s ks))))

  -- `runner_run_tests` ends; with the copy allocated it executes the test cases of the tests in the
  -- order of the partition and returns the number that failed, or a negative code after a first part.
  pub runner_run_tests-Answers :
      (tests : List ℕ)
      → Answers
          (gather test_get_testcases (group_by test_get_testsuite tests))
          0
          []
          (runner_run_tests reg h true tests [])
  unfolding runner_run_tests executed
  runner_run_tests-Answers [] =
      rw (group_by-nil test_get_testsuite) ((pos 0, []), refl, (refl, refl))
  runner_run_tests-Answers (k ∷ ks) =
      let order = group_by test_get_testsuite (k ∷ ks) in
      rw (repartition_tests_lem reg (k ∷ ks), runner_run_tests)
        (run_tests_from-Answers (suc (length order)) order 0 [] (omega arith))

  executed-leave :
      (current : Option ℕ) (t : Trace) → executed (leave_testsuite reg h current t) ≡ executed t
  unfolding leave_testsuite executed
  executed-leave none t = refl
  executed-leave (some s) t = refl

  failures-leave :
      (current : Option ℕ) (t : Trace) → failures h (leave_testsuite reg h current t) ≡ failures h t
  unfolding leave_testsuite failures
  failures-leave none t = refl
  failures-leave (some s) t = refl

  -- Changing the suite executes nothing.
  abbrev Silent : Trace → Trace → Type 0
  Silent t u = (executed u ≡ executed t) × (failures h u ≡ failures h t)

  enter-Silent :
      (s : ℕ) (current : Option ℕ) (t : Trace) → Silent t (enter_testsuite reg h s current t).2
  unfolding enter_testsuite leave_testsuite executed failures
  enter-Silent s none t = elim (Bool-cases (h.reports t (open_testsuite s))) [
    | inl e ↦ rw (e, enter_testsuite) (refl, refl)
    | inr e ↦ rw (e, enter_testsuite) (refl, refl)
  ]
  enter-Silent s (some j) t = elim (Bool-cases (s == j)) [
    | inl same ↦ rw (same, enter_testsuite) (refl, refl)
    | inr differs ↦ elim (Bool-cases (h.reports (close_testsuite j ∷ t) (open_testsuite s))) [
      | inl e ↦ rw (differs, enter_testsuite, e) (refl, refl)
      | inr e ↦ rw (differs, enter_testsuite, e) (refl, refl)
    ]
  ]

  run_testcases_from-Answers :
      (fuel : ℕ) (testcases : List ℕ) (current : Option ℕ) (result : ℕ) (t : Trace)
      → length testcases < fuel
      → Answers testcases result t (run_testcases_from reg h fuel testcases current result t)
  unfolding run_testcases_from
  run_testcases_from-Answers zero testcases current result t f = elim f [ ]
  run_testcases_from-Answers (suc fuel) [] current result t f = (
    (pos result, leave_testsuite reg h current t),
    refl,
    (
      ap (λ n. result + n) (sym (failures-leave current t)),
      executed-leave current t ∙ sym (append-nil (executed t)),
    ),
  )
  run_testcases_from-Answers (suc fuel) (k ∷ ks) current result t f =
      let test = testcase_get_test k in
      let (same, others) = span_key testcase_get_test test ks in
      let (entered, current', t') = enter_testsuite reg h (test_get_testsuite test) current t in
      let silent : Silent t t' = enter-Silent (test_get_testsuite test) current t in
      elim (Bool-cases entered) [
        | inr e ↦
            rw (e, run_testcases_from)
              (_, refl, (k ∷ ks, ap (λ l. l ++ k ∷ ks) (executed-leave current' t' ∙ silent.0)))
        | inl e ↦
            rw (e, run_testcases_from)
              (moved t t' (k ∷ (same ++ others))
                (ap (◌∷◌ k) (span_key-append testcase_get_test test ks)) silent
                (Answers-then (k ∷ same) others result t' (run_test reg h test (k ∷ same) t')
                  (leave_testsuite reg h current') (run_testcases_from reg h fuel others current')
                  (executed-leave current') (run_test-Accounts reg h test (k ∷ same) t')
                  (λ n u.
                    run_testcases_from-Answers fuel others current' n u
                      (omega (arith, length-span_key testcase_get_test test ks)))))
      ]
    where
      moved :
          {o : Option Ran} (t t' : Trace) (xs : List ℕ)
          → xs ≡ k ∷ ks
          → Silent t t'
          → Answers xs result t' o
          → Answers (k ∷ ks) result t o
      moved t t' xs p q (ran, e, a) = (
        ran,
        e,
        Accounts-after h [] (k ∷ ks) result result t t' ran (q.0 ∙ sym (append-nil (executed t)))
            (omega (arith, q.1)) (subst (λ l. Accounts h l result t' ran) p a),
      )

  -- `runner_run_testcases` ends; with the copy allocated it executes the test cases in the order of
  -- the partition and returns the number that failed, or a negative code after a first part.
  pub runner_run_testcases-Answers :
      (testcases : List ℕ)
      → Answers
          (group_by testcase_get_test (group_by (suite_of reg) testcases))
          0
          []
          (runner_run_testcases reg h true testcases [])
  unfolding runner_run_testcases executed
  runner_run_testcases-Answers [] =
      rw (group_by-nil (suite_of reg), group_by-nil testcase_get_test)
        ((pos 0, []), refl, (refl, refl))
  runner_run_testcases-Answers (k ∷ ks) =
      let order = group_by testcase_get_test (group_by (suite_of reg) (k ∷ ks)) in
      rw (repartition_testcases_lem reg (k ∷ ks), runner_run_testcases)
        (run_testcases_from-Answers (suc (length order)) order none 0 [] (omega arith))
