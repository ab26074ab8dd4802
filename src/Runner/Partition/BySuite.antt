-- ===== src/Runner/Partition/BySuite.antt =====
-- `repartition_tests__` computes the grouping of the tests by their suites.
use ctest.Prelude.{
  ℕ, zero, suc, ◌+◌, ◌-◌, ◌<◌, ◌≡◌, refl, ap, ap₂, ◌∙◌, sym, inl, inr, List, [], ◌∷◌, ◌++◌,
  append_assoc, append-nil, some, true, false, arith, ◌==◌, ltb, Bool-cases, length, get_or,
  get_or-append, keep_if, length-append, length-keep_if-not,
}
use ctest.Suite.{Registry}
use ctest.Runner.Group.{has, lacks, group_by, group_by-cons}
use ctest.Runner.Partition.{visit_test, scan_tests, sort_tests, repartition_tests}
use ctest.Runner.Partition.Shift.{get_or_at, move_forward_at}

module _ (reg : Registry) where
  open reg use {test_get_testsuite as key}

  module _ (done skipped rest : List ℕ) (x s write read : ℕ) where
    visit_test_has :
        suc write ≡ length done
        → read ≡ length done + length skipped
        → (key x == s) ≡ true
        → visit_test reg s (done ++ (skipped ++ x ∷ rest)) write read
          ≡ (suc write, (done ++ x ∷ []) ++ (skipped ++ rest))
    unfolding visit_test
    visit_test_has w r e = rw (
      get_or_at done skipped rest x 0 read r,
      e,
      move_forward_at done skipped rest x (suc write) read w r,
      append_assoc done (x ∷ []) (skipped ++ rest),
    )

    visit_test_lacks :
        read ≡ length done + length skipped
        → (key x == s) ≡ false
        → visit_test reg s (done ++ (skipped ++ x ∷ rest)) write read
          ≡ (write, done ++ ((skipped ++ x ∷ []) ++ rest))
    unfolding visit_test
    visit_test_lacks r e =
        rw (get_or_at done skipped rest x 0 read r, e, append_assoc skipped (x ∷ []) rest)

  scan_tests_step :
      (n s : ℕ) (a a' : List ℕ) (write write' read : ℕ)
      → visit_test reg s a write read ≡ (write', a')
      → scan_tests reg (suc n) s a write read ≡ scan_tests reg n s a' write' (suc read)
  unfolding scan_tests
  scan_tests_step n s a a' write write' read e =
      ap (λ (v : ℕ × List ℕ). scan_tests reg n s (v.1) (v.0) (suc read)) e

  -- The inner loop moves the suite's tests behind those in place, and keeps both orders.
  scan_tests_lem :
      (done skipped rest : List ℕ) (s write read : ℕ)
      → suc write ≡ length done
      → read ≡ length done + length skipped
      → scan_tests reg (length rest) s (done ++ (skipped ++ rest)) write read ≡ (
        write + length (keep_if (has key s) rest),
        (done ++ keep_if (has key s) rest) ++ (skipped ++ keep_if (lacks key s) rest),
      )
  unfolding scan_tests
  scan_tests_lem done skipped [] s write read w r =
      ap₂ (λ (m : ℕ) (t : List ℕ). (m, t)) (omega arith)
        (ap (λ t. t ++ (skipped ++ [])) (sym (append-nil done)))
  scan_tests_lem done skipped (x ∷ rest) s write read w r = elim (Bool-cases (key x == s)) [
    | inl e ↦ rw e (
        scan_tests_step (length rest) s _ _ write _ read
          (visit_test_has done skipped rest x s write read w r e)
        ∙ scan_tests_lem (done ++ x ∷ []) skipped rest s (suc write) (suc read)
            (omega (arith, length-append done (x ∷ [])))
            (omega (arith, length-append done (x ∷ [])))
        ∙ ap₂ (λ (m : ℕ) (t : List ℕ). (m, t)) (omega arith)
            (rw (append_assoc done (x ∷ []) (keep_if (has key s) rest))))
    | inr e ↦ rw e (
        scan_tests_step (length rest) s _ _ write _ read
          (visit_test_lacks done skipped rest x s write read r e)
        ∙ scan_tests_lem done (skipped ++ x ∷ []) rest s write (suc read) w
            (omega (arith, length-append skipped (x ∷ [])))
        ∙ rw (append_assoc skipped (x ∷ []) (keep_if (lacks key s) rest)))
  ]

  sort_tests_step :
      (fuel count write : ℕ) (a : List ℕ) (x write' : ℕ) (a' : List ℕ)
      → write < count
      → get_or a write 0 ≡ x
      → scan_tests reg (count - suc write) (key x) a write (suc write) ≡ (write', a')
      → sort_tests reg (suc fuel) count a write ≡ sort_tests reg fuel count a' (suc write')
  unfolding sort_tests
  sort_tests_step fuel count write a x write' a' h g e =
      let go : ltb write count ≡ true = ground arith in
      rw (go, sort_tests)
        (rw g (ap (λ (v : ℕ × List ℕ). sort_tests reg fuel count (v.1) (suc (v.0))) e))

  -- The outer loop, with fuel for each element that is not in place.
  sort_tests_lem :
      (fuel : ℕ) (done rest : List ℕ) (count write : ℕ)
      → length rest < fuel
      → count ≡ length done + length rest
      → write ≡ length done
      → sort_tests reg fuel count (done ++ rest) write ≡ some (done ++ group_by key rest)
  unfolding sort_tests group_by
  sort_tests_lem zero done rest count write f c w = elim f [ ]
  sort_tests_lem (suc fuel) done [] count write f c w =
      let stop : ltb write count ≡ false = ground arith in rw (stop, sort_tests)
  sort_tests_lem (suc fuel) done (x ∷ xs) count write f c w =
      let k = key x in
      let same = keep_if (has key k) xs in
      let other = keep_if (lacks key k) xs in
      let left : count - suc write ≡ length xs = omega arith in
      let total : length same + length other ≡ length xs = length-keep_if-not (has key k) xs in
      sort_tests_step fuel count write (done ++ x ∷ xs) x (write + length same)
        ((done ++ x ∷ []) ++ same ++ other) (omega arith) (rw w (get_or-append done xs x 0))
        (rw (left, ← append_assoc done (x ∷ []) xs)
          (scan_tests_lem (done ++ x ∷ []) [] xs k write (suc write)
            (omega (arith, length-append done (x ∷ [])))
            (omega (arith, length-append done (x ∷ [])))))
      ∙ sort_tests_lem fuel ((done ++ x ∷ []) ++ same) other count (suc (write + length same))
          (omega arith)
          (omega (arith, length-append (done ++ x ∷ []) same, length-append done (x ∷ [])))
          (omega (arith, length-append (done ++ x ∷ []) same, length-append done (x ∷ [])))
      ∙ ap some (rw (group_by-cons key x xs, append_assoc (done ++ x ∷ []), append_assoc done))

  -- `repartition_tests__` groups the tests by suite whenever calloc gives it the copy: the loops end,
  -- and the result is the reference grouping of the input.
  pub repartition_tests_lem :
      (tests : List ℕ) → repartition_tests reg true tests ≡ some (group_by key tests)
  unfolding repartition_tests
  repartition_tests_lem tests =
      sort_tests_lem (suc (length tests)) [] tests (length tests) 0 (omega arith) (omega arith) refl
