-- ===== src/Runner/Run/Account.antt =====
-- What a run has done by its result: which test cases it executed, in which order, and how many
-- failures it counted.
use ctest.Prelude.{
  ℕ, ◌+◌, ◌≡◌, refl, ◌∙◌, sym, ap, inl, inr, ℤ-cases, pos, negsuc, is_positive, List, [], ◌∷◌, ◌++◌,
  append_assoc, append-nil, Bool-cases, arith,
}
use ctest.Suite.{Registry}
use ctest.Runner.Trace.{
  Event, open_testsuite, close_testsuite, open_test, close_test, open_testcase, close_testcase,
  run_testcase, Trace, Host, executed, failures,
}
use ctest.Runner.Run.{
  Ran, run_testcases_in_test, run_test, run_tests_in_testsuite, run_testsuite, run_testsuites_from,
}

-- The lists that `f` gives, one after the other.
abbrev pub gather : (ℕ → List ℕ) → List ℕ → List ℕ
gather f [] = []
gather f (x ∷ xs) = f x ++ gather f xs

-- From the count `result` and the events `t`, the run `ran` over `testcases` either executed them all
-- and counted their failures, or ended early with a negative code, having executed a first part.
abbrev pub Accounts : Host → List ℕ → ℕ → Trace → Ran → Type 0
Accounts h testcases result t (pos n, t') =
    (n + failures h t ≡ result + failures h t') × (executed t' ≡ executed t ++ testcases)
Accounts h testcases result t (negsuc n, t') =
    (left : List ℕ) × (executed t' ++ left ≡ executed t ++ testcases)

module _ (h : Host) where
  -- A run over `ys` that goes on from where `xs` were executed.
  pub Accounts-after :
      (xs ys : List ℕ) (result result' : ℕ) (t t' : Trace) (ran : Ran)
      → executed t' ≡ executed t ++ xs
      → result' + failures h t ≡ result + failures h t'
      → Accounts h ys result' t' ran
      → Accounts h (xs ++ ys) result t ran
  Accounts-after xs ys result result' t t' (pos n, u) e f a =
      (omega arith, a.1 ∙ ap (λ l. l ++ ys) e ∙ append_assoc (executed t) xs ys)
  Accounts-after xs ys result result' t t' (negsuc n, u) e f a =
      (a.0, a.1 ∙ ap (λ l. l ++ ys) e ∙ append_assoc (executed t) xs ys)

  -- A run that ended early leaves what follows.
  pub Accounts-stop :
      (xs ys : List ℕ) (result result' : ℕ) (t t' : Trace) (m n : ℕ)
      → Accounts h xs result t (negsuc m, t')
      → Accounts h (xs ++ ys) result' t (negsuc n, t')
  Accounts-stop xs ys result result' t t' m n (left, e) = (
    left ++ ys,
    sym (append_assoc (executed t') left ys)
        ∙ ap (λ l. l ++ ys) e
        ∙ append_assoc (executed t) xs ys,
  )

  run_testcases_in_test-Accounts :
      (testcases : List ℕ) (result : ℕ) (t : Trace)
      → Accounts h testcases result t (run_testcases_in_test h testcases result t)
  unfolding run_testcases_in_test executed failures
  run_testcases_in_test-Accounts [] result t = (refl, sym (append-nil (executed t)))
  run_testcases_in_test-Accounts (k ∷ ks) result t =
      elim (Bool-cases (h.reports t (open_testcase k))) [
        | inr refused ↦ rw (refused, run_testcases_in_test) (k ∷ ks, refl)
        | inl opened ↦ elim (ℤ-cases (h.outcome (open_testcase k ∷ t) k)) [
          | inr (n, e) ↦
              rw (opened, run_testcases_in_test, e) (ks, append_assoc (executed t) (k ∷ []) ks)
          | inl (n, e) ↦
              let done = close_testcase k ∷ run_testcase k ∷ open_testcase k ∷ t in
              let count = result + is_positive (pos n) in
              rw (opened, run_testcases_in_test, e)
                (Accounts-after (k ∷ []) ks result count t done
                  (run_testcases_in_test h ks count done) refl (rw e (omega arith))
                  (run_testcases_in_test-Accounts ks count done))
        ]
      ]

  -- Events that create and destroy reporters leave the account as it is.
  wrap :
      (testcases : List ℕ) (result : ℕ) (t : Trace) (open' close' : Event) (ran : Ran)
      → executed (open' ∷ t) ≡ executed t
      → failures h (open' ∷ t) ≡ failures h t
      → ((u : Trace)
          → (executed (close' ∷ u) ≡ executed u) × (failures h (close' ∷ u) ≡ failures h u))
      → Accounts h testcases result (open' ∷ t) ran
      → Accounts h testcases result t (ran.0, close' ∷ ran.1)
  wrap testcases result t o c (pos n, u) eo fo q a =
      (omega (arith, fo, (q u).1), (q u).0 ∙ a.1 ∙ ap (λ l. l ++ testcases) eo)
  wrap testcases result t o c (negsuc n, u) eo fo q a =
      (a.0, ap (λ l. l ++ a.0) ((q u).0) ∙ a.1 ∙ ap (λ l. l ++ testcases) eo)

  -- A list of parts, each run from nought and added to the count, stopping at the first that fails.
  pub Accounts-then :
      (xs ys : List ℕ) (result : ℕ) (t : Trace) (one : Ran) (rest : ℕ → Trace → Ran)
      → Accounts h xs 0 t one
      → ((n : ℕ) (u : Trace) → Accounts h ys n u (rest n u))
      → Accounts h
          (xs ++ ys)
          result
          t
          (elim one.0 [ negsuc n ↦ (negsuc n, one.1) | pos n ↦ rest (result + n) (one.1) ])
  Accounts-then xs ys result t (pos n, u) rest a next =
      Accounts-after xs ys result (result + n) t u (rest (result + n) u) a.1 (omega arith)
        (next (result + n) u)
  Accounts-then xs ys result t (negsuc n, u) rest a next = Accounts-stop xs ys 0 result t u n n a

module _ (reg : Registry) (h : Host) where
  open reg use {test_get_testcases, testsuite_get_tests}

  pub run_test-Accounts :
      (test : ℕ) (testcases : List ℕ) (t : Trace)
      → Accounts h testcases 0 t (run_test reg h test testcases t)
  unfolding run_test executed failures
  run_test-Accounts test testcases t = elim (Bool-cases (h.reports t (open_test test))) [
    | inr refused ↦ rw (refused, run_test) (testcases, refl)
    | inl opened ↦
        rw (opened, run_test)
          (wrap h testcases 0 t (open_test test) (close_test test)
            (run_testcases_in_test h testcases 0 (open_test test ∷ t)) refl refl (λ u. (refl, refl))
            (run_testcases_in_test-Accounts h testcases 0 (open_test test ∷ t)))
  ]

  run_tests_in_testsuite-Accounts :
      (tests : List ℕ) (result : ℕ) (t : Trace)
      → Accounts h
          (gather test_get_testcases tests)
          result
          t
          (run_tests_in_testsuite reg h tests result t)
  unfolding run_tests_in_testsuite
  run_tests_in_testsuite-Accounts [] result t = (refl, sym (append-nil (executed t)))
  run_tests_in_testsuite-Accounts (k ∷ ks) result t =
      Accounts-then h (test_get_testcases k) (gather test_get_testcases ks) result t
        (run_test reg h k (test_get_testcases k) t) (run_tests_in_testsuite reg h ks)
        (run_test-Accounts k (test_get_testcases k) t) (run_tests_in_testsuite-Accounts ks)

  pub run_testsuite-Accounts :
      (testsuite : ℕ) (tests : List ℕ) (t : Trace)
      → Accounts h (gather test_get_testcases tests) 0 t (run_testsuite reg h testsuite tests t)
  unfolding run_testsuite executed failures
  run_testsuite-Accounts s tests t = elim (Bool-cases (h.reports t (open_testsuite s))) [
    | inr refused ↦ rw (refused, run_testsuite) (gather test_get_testcases tests, refl)
    | inl opened ↦
        rw (opened, run_testsuite)
          (wrap h (gather test_get_testcases tests) 0 t (open_testsuite s) (close_testsuite s)
            (run_tests_in_testsuite reg h tests 0 (open_testsuite s ∷ t)) refl refl
            (λ u. (refl, refl)) (run_tests_in_testsuite-Accounts tests 0 (open_testsuite s ∷ t)))
  ]

  pub run_testsuites_from-Accounts :
      (testsuites : List ℕ) (result : ℕ) (t : Trace)
      → Accounts h
          (gather (λ s. gather test_get_testcases (testsuite_get_tests s)) testsuites)
          result
          t
          (run_testsuites_from reg h testsuites result t)
  unfolding run_testsuites_from
  run_testsuites_from-Accounts [] result t = (refl, sym (append-nil (executed t)))
  run_testsuites_from-Accounts (s ∷ rest) result t =
      Accounts-then h (gather test_get_testcases (testsuite_get_tests s)) _ result t
        (run_testsuite reg h s (testsuite_get_tests s) t) (run_testsuites_from reg h rest)
        (run_testsuite-Accounts s (testsuite_get_tests s) t) (run_testsuites_from-Accounts rest)
