-- ===== src/Runner/Run/Nesting.antt =====
-- The live reporters across one test and one suite of the runner's loops.
use ctest.Prelude.{
  ℕ, ◌≡◌, refl, ap, inl, inr, ℤ-cases, pos, List, [], ◌∷◌, ◌++◌, some, ◌==◌, ==-refl, ==_iff, subst,
  length, length-append, ◌≤◌, Bool-cases, arith, is_positive, ◌+◌,
}
use ctest.Suite.{Registry}
use ctest.Runner.Trace.{
  Event, open_testsuite, close_testsuite, open_test, close_test, open_testcase, close_testcase,
  run_testcase, Trace, Host, advance, live,
}
use ctest.Runner.Run.{
  run_testcases_in_test, run_test, run_tests_in_testsuite, run_testsuite, span_key,
}

-- Every element has the key.
abbrev pub AllHave : (ℕ → ℕ) → ℕ → List ℕ → Type 0
AllHave key k [] = Unit
AllHave key k (x ∷ xs) = (key x ≡ k) × AllHave key k xs

module _ (reg : Registry) (h : Host) where
  open reg use {testcase_get_test, test_get_testsuite, test_get_testcases, testsuite_get_tests}

  module _ (t : Trace) (r : List Event) where
    live_testcase :
        (j k : ℕ)
        → live reg t ≡ some (open_test j ∷ r)
        → testcase_get_test k ≡ j
        → live reg (close_testcase k ∷ run_testcase k ∷ open_testcase k ∷ t)
          ≡ some (open_test j ∷ r)
    unfolding live advance
    live_testcase j k l e = rw (l, e, ==-refl j, ==-refl k, advance, ==-refl k)

    pub live-open_test :
        (s k : ℕ)
        → live reg t ≡ some (open_testsuite s ∷ r)
        → test_get_testsuite k ≡ s
        → live reg (open_test k ∷ t) ≡ some (open_test k ∷ open_testsuite s ∷ r)
    unfolding live advance
    live-open_test s k l e = rw (l, e, ==-refl s)

    pub live-close_test :
        (k : ℕ) → live reg t ≡ some (open_test k ∷ r) → live reg (close_test k ∷ t) ≡ some r
    unfolding live advance
    live-close_test k l = rw (l, ==-refl k)

    pub live-close_testsuite :
        (k : ℕ)
        → live reg t ≡ some (open_testsuite k ∷ r)
        → live reg (close_testsuite k ∷ t) ≡ some r
    unfolding live advance
    live-close_testsuite k l = rw (l, ==-refl k)

  pub live-open_testsuite :
      (t : Trace) (k : ℕ)
      → live reg t ≡ some []
      → live reg (open_testsuite k ∷ t) ≡ some (open_testsuite k ∷ [])
  unfolding live advance
  live-open_testsuite t k l = rw l

  run_testcases_in_test-live :
      (testcases : List ℕ) (result : ℕ) (t : Trace) (j : ℕ) (r : List Event)
      → AllHave testcase_get_test j testcases
      → live reg t ≡ some (open_test j ∷ r)
      → live reg (run_testcases_in_test h testcases result t).1 ≡ some (open_test j ∷ r)
  unfolding run_testcases_in_test
  run_testcases_in_test-live [] result t j r a l = l
  run_testcases_in_test-live (k ∷ ks) result t j r a l =
      elim (Bool-cases (h.reports t (open_testcase k))) [
        | inr refused ↦ rw (refused, run_testcases_in_test) l
        | inl opened ↦ elim (ℤ-cases (h.outcome (open_testcase k ∷ t) k)) [
          | inr (n, e) ↦ rw (opened, run_testcases_in_test, e) (live_testcase t r j k l a.0)
          | inl (n, e) ↦
              rw (opened, run_testcases_in_test, e)
                (run_testcases_in_test-live ks (result + is_positive (pos n)) _ j r a.1
                  (live_testcase t r j k l a.0))
        ]
      ]

  pub run_test-live :
      (test : ℕ) (testcases : List ℕ) (t : Trace) (r : List Event)
      → AllHave testcase_get_test test testcases
      → live reg t ≡ some (open_testsuite (test_get_testsuite test) ∷ r)
      → live reg (run_test reg h test testcases t).1
        ≡ some (open_testsuite (test_get_testsuite test) ∷ r)
  unfolding run_test
  run_test-live test testcases t r a l =
      let s = test_get_testsuite test in
      elim (Bool-cases (h.reports t (open_test test))) [
        | inr refused ↦ rw (refused, run_test) l
        | inl opened ↦
            rw (opened, run_test)
              (live-close_test _ (open_testsuite s ∷ r) test (
                run_testcases_in_test-live testcases 0 _ test (open_testsuite s ∷ r) a
                  (live-open_test t r s test l refl)))
      ]

  pub run_tests_in_testsuite-live :
      ((test : ℕ) → AllHave testcase_get_test test (test_get_testcases test))
      → (tests : List ℕ) (result : ℕ) (t : Trace) (s : ℕ) (r : List Event)
      → AllHave test_get_testsuite s tests
      → live reg t ≡ some (open_testsuite s ∷ r)
      → live reg (run_tests_in_testsuite reg h tests result t).1 ≡ some (open_testsuite s ∷ r)
  unfolding run_tests_in_testsuite
  run_tests_in_testsuite-live own [] result t s r a l = l
  run_tests_in_testsuite-live own (k ∷ ks) result t s r a l =
      let one = run_test reg h k (test_get_testcases k) t in
      let l' : live reg one.1 ≡ some (open_testsuite s ∷ r) =
        subst (λ j. live reg one.1 ≡ some (open_testsuite j ∷ r)) a.0
          (run_test-live k (test_get_testcases k) t r (own k) (rw a.0 l)) in
      elim (ℤ-cases (one.0)) [
        | inr (n, e) ↦ rw (e, run_tests_in_testsuite) l'
        | inl (n, e) ↦
            rw (e, run_tests_in_testsuite)
              (run_tests_in_testsuite-live own ks (result + n) (one.1) s r a.1 l')
      ]

  pub run_testsuite-live :
      ((test : ℕ) → AllHave testcase_get_test test (test_get_testcases test))
      → (s : ℕ) (tests : List ℕ) (t : Trace) → AllHave test_get_testsuite s tests
      → live reg t ≡ some []
      → live reg (run_testsuite reg h s tests t).1 ≡ some []
  unfolding run_testsuite
  run_testsuite-live own s tests t a l = elim (Bool-cases (h.reports t (open_testsuite s))) [
    | inr refused ↦ rw (refused, run_testsuite) l
    | inl opened ↦
        rw (opened, run_testsuite)
          (live-close_testsuite _ [] s
            (run_tests_in_testsuite-live own tests 0 _ s [] a (live-open_testsuite t s l)))
  ]

-- What `span_key` gives.
module _ (key : ℕ → ℕ) (k : ℕ) where
  pub span_key-AllHave : (xs : List ℕ) → AllHave key k (span_key key k xs).0
  unfolding span_key
  span_key-AllHave [] = tt
  span_key-AllHave (x ∷ xs) = elim (Bool-cases (key x == k)) [
    | inl e ↦ rw (e, span_key) ((==_iff (key x) k).0 e, span_key-AllHave xs)
    | inr e ↦ rw (e, span_key) tt
  ]

  pub span_key-append : (xs : List ℕ) → (span_key key k xs).0 ++ (span_key key k xs).1 ≡ xs
  unfolding span_key
  span_key-append [] = refl
  span_key-append (x ∷ xs) = elim (Bool-cases (key x == k)) [
    | inl e ↦ rw (e, span_key) (ap (◌∷◌ x) (span_key-append xs))
    | inr e ↦ rw (e, span_key)
  ]

  pub length-span_key : (xs : List ℕ) → length (span_key key k xs).1 ≤ length xs
  length-span_key xs = omega (
    arith,
    ap length (span_key-append xs),
    length-append (span_key key k xs).0 (span_key key k xs).1,
  )
