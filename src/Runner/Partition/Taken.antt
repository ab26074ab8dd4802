-- ===== src/Runner/Partition/Taken.antt =====
-- The `while` loop of `repartition_testcases__`: the test cases of one suite, test by test.
use ctest.Prelude.{
  ℕ, zero, suc, ◌+◌, ◌-◌, ◌<◌, ◌≡◌, ap, ap₂, ◌∙◌, sym, inl, inr, List, [], ◌∷◌, ◌++◌, append_assoc,
  append-nil, Option, none, some, true, arith, length, keep_if, keep_if_comm, keep_if_implied,
  keep_if-head, keep_if-not_none, ==_iff, ==-refl, List-cases, length-keep_if-le, length-append,
  length-keep_if-not,
}
use ctest.Suite.{Registry}
use ctest.Runner.Group.{length-group_by, has, lacks, group_by, group_by_head, group_by-nil}
use ctest.Runner.Partition.{Scan, scan_testcases, take_suite}
use ctest.Runner.Partition.Scan.{suite_of, first_test, scan_testcases_lem}

module _ (reg : Registry) where
  open reg use {testcase_get_test as test_of}

  -- A test case of the test belongs to the suite of the test.
  pub has_test_suite :
      (t s x : ℕ)
      → (reg.test_get_testsuite t ≡ s)
      → has test_of t x ≡ true
      → has (suite_of reg) s x ≡ true
  has_test_suite t s x e h = ground arith

  -- What one run of the `while` loop puts in place behind a test case of test `t`.
  abbrev pub taken : ℕ → ℕ → List ℕ → List ℕ
  taken t s zs =
      keep_if (has test_of t) zs
      ++ group_by test_of (keep_if (has (suite_of reg) s) (keep_if (lacks test_of t) zs))

  -- The tests left of the suite, seen from the first of them.
  taken_next :
      (s : ℕ) (zs : List ℕ) (y : ℕ) (ys : List ℕ)
      → keep_if (has (suite_of reg) s) zs ≡ y ∷ ys
      → group_by test_of (keep_if (has (suite_of reg) s) zs) ≡ taken (test_of y) s zs
  taken_next s zs y ys e =
      let t = test_of y in
      ap (group_by test_of) e
      ∙ group_by_head test_of y ys
      ∙ ap (λ l. keep_if (has test_of t) l ++ group_by test_of (keep_if (lacks test_of t) l))
          (sym e)
      ∙ ap₂ (λ l m. l ++ group_by test_of m)
          (keep_if_comm (has test_of t) (has (suite_of reg) s) zs
            ∙ keep_if_implied (has (suite_of reg) s) (has test_of t) zs (λ x.
              has_test_suite t s x
                ((==_iff (suite_of reg y) s).0 (keep_if-head (has (suite_of reg) s) zs y ys e))))
          (keep_if_comm (lacks test_of t) (has (suite_of reg) s) zs)

  -- Leaving a suite out leaves its tests out.
  lacks_suite_test :
      (t s : ℕ) (zs : List ℕ)
      → reg.test_get_testsuite t ≡ s
      → keep_if (lacks (suite_of reg) s) (keep_if (lacks test_of t) zs)
        ≡ keep_if (lacks (suite_of reg) s) zs
  lacks_suite_test t s zs e =
      keep_if_comm (lacks (suite_of reg) s) (lacks test_of t) zs
      ∙ keep_if_implied (lacks test_of t) (lacks (suite_of reg) s) zs (λ x h. ground arith)

  -- The next test takes at least one test case of the suite.
  fewer_left :
      (s : ℕ) (zs : List ℕ) (y : ℕ) (ys : List ℕ)
      → keep_if (has (suite_of reg) s) zs ≡ y ∷ ys
      → length (keep_if (has (suite_of reg) s) (keep_if (lacks test_of (test_of y)) zs))
        < length (y ∷ ys)
  fewer_left s zs y ys e =
      rw
        (keep_if_comm (has (suite_of reg) s) (lacks test_of (test_of y)) zs, e, ==-refl (test_of y))
        (omega (arith, length-keep_if-le (lacks test_of (test_of y)) ys))

  pub length-taken :
      (t s : ℕ) (zs : List ℕ)
      → reg.test_get_testsuite t ≡ s
      → length (taken t s zs) + length (keep_if (lacks (suite_of reg) s) zs) ≡ length zs
  length-taken t s zs q =
      let other = keep_if (lacks test_of t) zs in
      let own = keep_if (has (suite_of reg) s) other in
      omega (
        arith,
        length-append (keep_if (has test_of t) zs) (group_by test_of own),
        length-group_by test_of own,
        length-keep_if-not (has test_of t) zs,
        length-keep_if-not (has (suite_of reg) s) other,
        ap length (lacks_suite_test t s zs q),
      )

  take_suite_step :
      (fuel count t write : ℕ) (a : List ℕ) (next : Option ℕ) (write' : ℕ) (a' : List ℕ)
      → scan_testcases reg (count - write) t (reg.test_get_testsuite t) (none, write, a) write
        ≡ (next, write', a')
      → take_suite reg (suc fuel) count t a write
        ≡ elim next [ none ↦ some (write', a') | some u ↦ take_suite reg fuel count u a' write' ]
  unfolding take_suite
  take_suite_step fuel count t write a next write' a' e =
      ap
        (λ (v : Scan). elim (v.0) as (λ o. Option (ℕ × List ℕ)) [
          | none ↦ some (v.1, v.2)
          | some u ↦ take_suite reg fuel count u (v.2) (v.1)
        ])
        e

  -- The `while` loop takes the suite's test cases, test by test, with fuel for each test.
  pub take_suite_lem :
      (fuel : ℕ) (done zs : List ℕ) (count t s write : ℕ)
      → reg.test_get_testsuite t ≡ s
      → length (keep_if (has (suite_of reg) s) (keep_if (lacks test_of t) zs)) < fuel
      → write ≡ length done
      → count ≡ length done + length zs
      → take_suite reg fuel count t (done ++ zs) write
        ≡ some (
          write + length (taken t s zs),
          (done ++ taken t s zs) ++ keep_if (lacks (suite_of reg) s) zs,
        )
  take_suite_lem zero done zs count t s write q f w c = elim f [ ]
  take_suite_lem (suc fuel) done zs count t s write q f w c =
      let same = keep_if (has test_of t) zs in
      let other = keep_if (lacks test_of t) zs in
      let left : count - write ≡ length zs = omega arith in
      take_suite_step fuel count t write (done ++ zs)
        (first_test reg (keep_if (has (suite_of reg) s) other)) (write + length same)
        ((done ++ same) ++ other)
        (rw (left, q) (scan_testcases_lem reg done [] zs none t s write write w (omega arith)))
      ∙ elim (List-cases (keep_if (has (suite_of reg) s) other)) [
        | inl e ↦ rw (
          e,
          group_by-nil test_of,
          append-nil same,
          ← lacks_suite_test t s zs q,
          keep_if-not_none (has (suite_of reg) s) other e,
        )
        | inr (y, ys, e) ↦
            let t' = test_of y in
            let next = taken t' s other in
            let regrouped : group_by test_of (y ∷ ys) ≡ next =
              ap (group_by test_of) (sym e) ∙ taken_next s other y ys e in
            rw (e, regrouped)
              (take_suite_lem fuel (done ++ same) other count t' s (write + length same)
                  ((==_iff (suite_of reg y) s).0 (keep_if-head (has (suite_of reg) s) other y ys e))
                  (omega (arith, fewer_left s other y ys e, ap length e))
                  (omega (arith, length-append done same))
                  (omega (arith, length-append done same, length-keep_if-not (has test_of t) zs))
                ∙ ap₂ (λ (m : ℕ) (a : List ℕ). some (m, a)) (omega (arith, length-append same next))
                    (rw (lacks_suite_test t s zs q, append_assoc done same next)))
      ]
