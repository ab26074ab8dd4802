-- ===== src/Runner/Run/Total.antt =====
-- With a reporter that never returns NULL and a callback that never returns a negative code, every
-- run goes to the end.
use ctest.Prelude.{ℕ, ◌+◌, ◌≡◌, refl, ap, pos, negsuc, true, List, [], ◌∷◌, is_positive, arith}
use ctest.Suite.{Registry}
use ctest.Runner.Trace.{
  Event, open_testsuite, open_test, open_testcase, Trace, Host, executed, failures,
}
use ctest.Runner.Run.{
  Ran, run_testcases_in_test, run_test, run_tests_in_testsuite, run_testsuite, run_testsuites_from,
  runner_run_testsuites,
}
use ctest.Runner.Run.Account.{gather, Accounts}
use ctest.Runner.Run.Entry.{runner_run_testsuites-Accounts}

pub record IsWilling (h : Host) : Type 0 where
  pub reports_all : (t : Trace) (e : Event) → h.reports t e ≡ true
  pub no_error : (t : Trace) (testcase : ℕ) → (n : ℕ) × (h.outcome t testcase ≡ pos n)

abbrev pub Succeeds : Ran → Type 0
Succeeds ran = (n : ℕ) × (ran.0 ≡ pos n)

module _ (reg : Registry) (h : Host) (w : IsWilling h) where
  open reg use {test_get_testcases, testsuite_get_tests}

  run_testcases_in_test-Succeeds :
      (testcases : List ℕ) (result : ℕ) (t : Trace)
      → Succeeds (run_testcases_in_test h testcases result t)
  unfolding run_testcases_in_test
  run_testcases_in_test-Succeeds [] result t = (result, refl)
  run_testcases_in_test-Succeeds (k ∷ ks) result t =
      let (n, e) = w.no_error (open_testcase k ∷ t) k in
      rw (w.reports_all t (open_testcase k), run_testcases_in_test, e)
        (run_testcases_in_test-Succeeds ks (result + is_positive (pos n)) _)

  run_test-Succeeds :
      (test : ℕ) (testcases : List ℕ) (t : Trace) → Succeeds (run_test reg h test testcases t)
  unfolding run_test
  run_test-Succeeds test testcases t =
      rw (w.reports_all t (open_test test), run_test)
        (run_testcases_in_test-Succeeds testcases 0 (open_test test ∷ t))

  run_tests_in_testsuite-Succeeds :
      (tests : List ℕ) (result : ℕ) (t : Trace)
      → Succeeds (run_tests_in_testsuite reg h tests result t)
  unfolding run_tests_in_testsuite
  run_tests_in_testsuite-Succeeds [] result t = (result, refl)
  run_tests_in_testsuite-Succeeds (k ∷ ks) result t =
      let (n, e) = run_test-Succeeds k (test_get_testcases k) t in
      rw (e, run_tests_in_testsuite) (run_tests_in_testsuite-Succeeds ks (result + n) _)

  run_testsuite-Succeeds :
      (s : ℕ) (tests : List ℕ) (t : Trace) → Succeeds (run_testsuite reg h s tests t)
  unfolding run_testsuite
  run_testsuite-Succeeds s tests t =
      rw (w.reports_all t (open_testsuite s), run_testsuite)
        (run_tests_in_testsuite-Succeeds tests 0 (open_testsuite s ∷ t))

  run_testsuites_from-Succeeds :
      (testsuites : List ℕ) (result : ℕ) (t : Trace)
      → Succeeds (run_testsuites_from reg h testsuites result t)
  unfolding run_testsuites_from
  run_testsuites_from-Succeeds [] result t = (result, refl)
  run_testsuites_from-Succeeds (s ∷ rest) result t =
      let (n, e) = run_testsuite-Succeeds s (testsuite_get_tests s) t in
      rw (e, run_testsuites_from) (run_testsuites_from-Succeeds rest (result + n) _)

  counted :
      (testcases : List ℕ) (ran : Ran)
      → Succeeds ran
      → Accounts h testcases 0 [] ran
      → (ran.0 ≡ pos (failures h ran.1)) × (executed ran.1 ≡ testcases)
  unfolding executed failures
  counted testcases (pos n, t) s a = (ap pos (omega (arith, a.0)), a.1)
  counted testcases (negsuc n, t) s a = absurd (cc (s.1))

  -- If every reporter is created and no callback fails to run its test case, `runner_run_testsuites`
  -- executes every test case of the suites, in order, and returns how many of them failed.
  pub runner_run_testsuites-counts :
      (testsuites : List ℕ)
      → let (rc, t) = runner_run_testsuites reg h testsuites [] in
        (rc ≡ pos (failures h t))
        × (executed t ≡ gather (λ s. gather test_get_testcases (testsuite_get_tests s)) testsuites)
  unfolding runner_run_testsuites
  runner_run_testsuites-counts testsuites =
      counted _ (runner_run_testsuites reg h testsuites [])
        (run_testsuites_from-Succeeds testsuites 0 [])
        (runner_run_testsuites-Accounts reg h testsuites)
