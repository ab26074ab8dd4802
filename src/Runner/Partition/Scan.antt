-- ===== src/Runner/Partition/Scan.antt =====
-- The inner loop of `repartition_testcases__`.
use ctest.Prelude.{
  ℕ, suc, ◌+◌, ◌≡◌, refl, ap, ◌∙◌, sym, inl, inr, List, [], ◌∷◌, ◌++◌, append_assoc, append-nil,
  Option, none, some, true, false, arith, ◌==◌, ◌&&◌, if◌then◌else◌, Bool-cases, length, keep_if,
  keep_if-append, length-append,
}
use ctest.Suite.{Registry}
use ctest.Runner.Group.{has, lacks}
use ctest.Runner.Partition.{Scan, is_null, visit_testcase, scan_testcases}
use ctest.Runner.Partition.Shift.{get_or_at, move_forward_at}

module _ (reg : Registry) where
  open reg use {testcase_get_test as test_of}

  abbrev pub suite_of : ℕ → ℕ
  suite_of testcase = reg.test_get_testsuite (test_of testcase)

  -- The test of the first test case, if there is one.
  abbrev pub first_test : List ℕ → Option ℕ
  first_test [] = none
  first_test (x ∷ xs) = some (test_of x)

  abbrev pub or_else : Option ℕ → Option ℕ → Option ℕ
  or_else none o = o
  or_else (some t) o = some t

  module _ (done skipped rest : List ℕ) (next : Option ℕ) (x t s write read : ℕ) where
    visit_testcase_has :
        write ≡ length done
        → read ≡ length done + length skipped
        → (test_of x == t) ≡ true
        → visit_testcase reg t s (next, write, done ++ (skipped ++ x ∷ rest)) read
          ≡ (next, suc write, (done ++ x ∷ []) ++ (skipped ++ rest))
    unfolding visit_testcase
    visit_testcase_has w r e = rw (
      get_or_at done skipped rest x 0 read r,
      e,
      move_forward_at done skipped rest x write read w r,
      append_assoc done (x ∷ []) (skipped ++ rest),
    )

    visit_testcase_lacks :
        read ≡ length done + length skipped
        → (test_of x == t) ≡ false
        → visit_testcase reg t s (next, write, done ++ (skipped ++ x ∷ rest)) read ≡ (
          or_else next (first_test (keep_if (has suite_of s) (x ∷ []))),
          write,
          done ++ ((skipped ++ x ∷ []) ++ rest),
        )
    unfolding visit_testcase
    visit_testcase_lacks r e =
        rw (get_or_at done skipped rest x 0 read r, e, append_assoc skipped (x ∷ []) rest)
          (pick next)
      where
        pick :
            (o : Option ℕ)
            → ◌≡◌ {A = Scan}
                (
                  if is_null o && (suite_of x == s) then some (test_of x) else o,
                  write,
                  done ++ (skipped ++ x ∷ rest),
                )
                (
                  or_else o (first_test (keep_if (has suite_of s) (x ∷ []))),
                  write,
                  done ++ (skipped ++ x ∷ rest),
                )
        pick none = elim (Bool-cases (suite_of x == s)) [ inl d ↦ rw d | inr d ↦ rw d ]
        pick (some u) = refl

  scan_testcases_step :
      (n t s read : ℕ) (z z' : Scan)
      → visit_testcase reg t s z read ≡ z'
      → scan_testcases reg (suc n) t s z read ≡ scan_testcases reg n t s z' (suc read)
  unfolding scan_testcases
  scan_testcases_step n t s read z z' e = ap (λ v. scan_testcases reg n t s v (suc read)) e

  or_else-first_test :
      (o : Option ℕ) (xs ys : List ℕ)
      → or_else (or_else o (first_test xs)) (first_test ys) ≡ or_else o (first_test (xs ++ ys))
  or_else-first_test none [] ys = refl
  or_else-first_test none (x ∷ xs) ys = refl
  or_else-first_test (some u) xs ys = refl

  or_else-none : (o : Option ℕ) → o ≡ or_else o none
  or_else-none none = refl
  or_else-none (some u) = refl

  scan_eq :
      {o o' : Option ℕ} {m m' : ℕ} {a a' : List ℕ}
      → o ≡ o'
      → m ≡ m'
      → a ≡ a'
      → ◌≡◌ {A = Scan} (o, m, a) (o', m', a')
  scan_eq p q r = λ i. (p i, q i, r i)

  -- The inner loop moves the test's test cases behind those in place and keeps both orders; the next
  -- test is that of the first test case left that belongs to the suite.
  pub scan_testcases_lem :
      (done skipped rest : List ℕ) (next : Option ℕ) (t s write read : ℕ)
      → write ≡ length done
      → read ≡ length done + length skipped
      → scan_testcases reg (length rest) t s (next, write, done ++ (skipped ++ rest)) read ≡ (
        or_else next (first_test (keep_if (has suite_of s) (keep_if (lacks test_of t) rest))),
        write + length (keep_if (has test_of t) rest),
        (done ++ keep_if (has test_of t) rest) ++ (skipped ++ keep_if (lacks test_of t) rest),
      )
  unfolding scan_testcases
  scan_testcases_lem done skipped [] next t s write read w r =
      scan_eq (or_else-none next) (omega arith)
        (ap (λ a. a ++ (skipped ++ [])) (sym (append-nil done)))
  scan_testcases_lem done skipped (x ∷ rest) next t s write read w r =
      elim (Bool-cases (test_of x == t)) [
        | inl e ↦ rw e (
            scan_testcases_step (length rest) t s read _ _
              (visit_testcase_has done skipped rest next x t s write read w r e)
            ∙ scan_testcases_lem (done ++ x ∷ []) skipped rest next t s (suc write) (suc read)
                (omega (arith, length-append done (x ∷ [])))
                (omega (arith, length-append done (x ∷ [])))
            ∙ scan_eq refl (omega arith)
                (rw (append_assoc done (x ∷ []) (keep_if (has test_of t) rest))))
        | inr e ↦ rw e (
            scan_testcases_step (length rest) t s read _ _
              (visit_testcase_lacks done skipped rest next x t s write read r e)
            ∙ scan_testcases_lem done (skipped ++ x ∷ []) rest _ t s write (suc read) w
                (omega (arith, length-append skipped (x ∷ [])))
            ∙ scan_eq
                (or_else-first_test next (keep_if (has suite_of s) (x ∷ [])) _
                  ∙ ap (λ l. or_else next (first_test l))
                      (sym (
                        keep_if-append (has suite_of s) (x ∷ []) (keep_if (lacks test_of t) rest))))
                refl (rw (append_assoc skipped (x ∷ []) (keep_if (lacks test_of t) rest))))
      ]
