-- ===== src/Runner/Partition/ByTest.antt =====
-- `repartition_testcases__` computes the grouping by test of the grouping by suite.
use ctest.Prelude.{
  ℕ, zero, suc, ◌+◌, ◌<◌, ◌≡◌, refl, ap, ◌∙◌, sym, List, [], ◌∷◌, ◌++◌, append_assoc, append-nil,
  some, true, false, arith, ltb, length, get_or, get_or-append, keep_if, keep_if-append,
  keep_if_comm, keep_if_implied, keep_if-not_none, ==_iff, ==-refl, length-keep_if-le,
  length-append,
}
use ctest.Suite.{Registry}
use ctest.Runner.Group.{
  has-group_by, has-lacks, group_by-cons, has, lacks, group_by, group_by-nil, group_by-append,
}
use ctest.Runner.Partition.{take_suite, sort_testcases, repartition_testcases}
use ctest.Runner.Partition.Scan.{suite_of}
use ctest.Runner.Partition.Taken.{has_test_suite, taken, length-taken, take_suite_lem}

module _ (reg : Registry) where
  open reg use {testcase_get_test as test_of}

  -- Nothing of a suite is left in the grouping of what lacks it.
  absent_test :
      (s : ℕ) (xs : List ℕ) (x : ℕ)
      → has (suite_of reg) s x ≡ true
      → keep_if
          (has test_of (test_of x))
          (group_by (suite_of reg) (keep_if (lacks (suite_of reg) s) xs))
        ≡ []
  absent_test s xs x h =
      let t = test_of x in
      let rest = group_by (suite_of reg) (keep_if (lacks (suite_of reg) s) xs) in
      sym (
        keep_if_implied (has (suite_of reg) s) (has test_of t) rest
          (λ z. has_test_suite reg t s z ((==_iff (suite_of reg x) s).0 h)))
      ∙ keep_if_comm (has (suite_of reg) s) (has test_of t) rest
      ∙ ap (keep_if (has test_of t)) (
          has-group_by (suite_of reg) s (keep_if (lacks (suite_of reg) s) xs)
          ∙ has-lacks (suite_of reg) s xs)

  -- Both groupings, when the first test case is taken reg off.
  group_cons :
      (x : ℕ) (xs : List ℕ)
      → let s = suite_of reg x in
        group_by test_of (group_by (suite_of reg) (x ∷ xs))
        ≡ (x ∷ taken reg (test_of x) s xs)
          ++ group_by test_of (group_by (suite_of reg) (keep_if (lacks (suite_of reg) s) xs))
  group_cons x xs =
      let s = suite_of reg x in
      let t = test_of x in
      let own = keep_if (has (suite_of reg) s) xs in
      let rest = group_by (suite_of reg) (keep_if (lacks (suite_of reg) s) xs) in
      let absent : keep_if (has test_of t) rest ≡ [] = absent_test s xs x (==-refl s) in
      let first : keep_if (has test_of t) own ≡ keep_if (has test_of t) xs =
        keep_if_comm (has test_of t) (has (suite_of reg) s) xs
        ∙ keep_if_implied (has (suite_of reg) s) (has test_of t) xs
            (λ z. has_test_suite reg t s z refl) in
      ap (group_by test_of) (group_by-cons (suite_of reg) x xs)
      ∙ group_by-cons test_of x (own ++ rest)
      ∙ rw (
        keep_if-append (has test_of t) own rest,
        keep_if-append (lacks test_of t) own rest,
        absent,
        keep_if-not_none (has test_of t) rest absent,
        first,
        append-nil (keep_if (has test_of t) xs),
        keep_if_comm (lacks test_of t) (has (suite_of reg) s) xs,
        group_by-append test_of (has (suite_of reg) s) (keep_if (lacks test_of t) xs) rest
            (absent_test s xs),
        append_assoc (keep_if (has test_of t) xs),
      )

  sort_testcases_step :
      (fuel count write : ℕ) (a : List ℕ) (x write' : ℕ) (a' : List ℕ)
      → write < count
      → get_or a write 0 ≡ x
      → take_suite reg (suc count) count (test_of x) a (suc write) ≡ some (write', a')
      → sort_testcases reg (suc fuel) count a write ≡ sort_testcases reg fuel count a' write'
  unfolding sort_testcases
  sort_testcases_step fuel count write a x write' a' h g e =
      let go : ltb write count ≡ true = ground arith in rw (go, sort_testcases) (rw (g, e))

  -- The outer loop, with fuel for each element that is not in place.
  sort_testcases_lem :
      (fuel : ℕ) (done rest : List ℕ) (count write : ℕ)
      → length rest < fuel
      → count ≡ length done + length rest
      → write ≡ length done
      → sort_testcases reg fuel count (done ++ rest) write
        ≡ some (done ++ group_by test_of (group_by (suite_of reg) rest))
  unfolding sort_testcases
  sort_testcases_lem zero done rest count write f c w = elim f [ ]
  sort_testcases_lem (suc fuel) done [] count write f c w =
      let stop : ltb write count ≡ false = ground arith in
      rw (stop, sort_testcases, group_by-nil (suite_of reg), group_by-nil test_of)
  sort_testcases_lem (suc fuel) done (x ∷ xs) count write f c w =
      let s = suite_of reg x in
      let own = taken reg (test_of x) s xs in
      let rest = keep_if (lacks (suite_of reg) s) xs in
      let placed = done ++ x ∷ [] in
      sort_testcases_step fuel count write (done ++ x ∷ xs) x (suc write + length own)
        ((placed ++ own) ++ rest) (omega arith) (rw w (get_or-append done xs x 0))
        (rw (← append_assoc done (x ∷ []) xs) (
          take_suite_lem reg (suc count) placed xs count (test_of x) s (suc write) refl
            (omega (
              arith,
              length-keep_if-le (has (suite_of reg) s) (keep_if (lacks test_of (test_of x)) xs),
              length-keep_if-le (lacks test_of (test_of x)) xs,
            ))
            (omega (arith, length-append done (x ∷ [])))
            (omega (arith, length-append done (x ∷ [])))))
      ∙ sort_testcases_lem fuel (placed ++ own) rest count (suc write + length own)
          (omega (arith, length-keep_if-le (lacks (suite_of reg) s) xs))
          (omega (
            arith,
            length-append placed own,
            length-append done (x ∷ []),
            length-taken reg (test_of x) s xs refl,
          ))
          (omega (arith, length-append placed own, length-append done (x ∷ [])))
      ∙ ap some (rw (group_cons x xs, append_assoc placed own, append_assoc done (x ∷ [])))

  -- `repartition_testcases__` groups the test cases by suite and then by test whenever calloc gives it
  -- the copy: the loops end, and the result is the two reference groupings of the input in turn.
  pub repartition_testcases_lem :
      (testcases : List ℕ)
      → repartition_testcases reg true testcases
        ≡ some (group_by test_of (group_by (suite_of reg) testcases))
  unfolding repartition_testcases
  repartition_testcases_lem testcases =
      sort_testcases_lem (suc (length testcases)) [] testcases (length testcases) 0 (omega arith)
        (omega arith) refl
