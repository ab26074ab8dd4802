-- ===== src/Runner/Partition.antt =====
-- `repartition_tests__` and `repartition_testcases__` of src/exec/runner_utils.c over the copied
-- array: a list, with `memmove` and the index variables of the loops. The results are those of
-- `Runner/Group.antt`, which the children prove.
pub mod Shift
pub mod BySuite
pub mod Scan
pub mod Taken
pub mod ByTest
pub mod Contract
use ctest.Prelude.{
  ℕ, zero, suc, ◌+◌, ◌-◌, List, [], ◌∷◌, ◌++◌, Option, none, some, Bool, true, false, ◌==◌, ◌&&◌,
  ltb, if◌then◌else◌, length, get_or, set, take, drop,
}
use ctest.Suite.{Registry}

-- memmove(a + dst, a + src, n * sizeof(*a)) inside the array.
unfoldable pub memmove {ℓ} : {A : Type ℓ} → List A → ℕ → ℕ → ℕ → List A
memmove a dst src n = take dst a ++ (take n (drop src a) ++ drop n (drop dst a))

-- Element `x`, which stands at `read`, is put at `write`; those from `write` on move up by one.
unfoldable pub move_forward {ℓ} : {A : Type ℓ} → List A → ℕ → ℕ → A → List A
unfolding memmove
move_forward a write read x =
    if write == read then a else set (memmove a (suc write) write (read - write)) write x

-- `next_test`, `i_write_testcase` and the array in the inner loop of `repartition_testcases__`.
abbrev pub Scan : Type 0
Scan = Option ℕ × ℕ × List ℕ

-- `p == NULL`
abbrev pub is_null : Option ℕ → Bool
is_null none = true
is_null (some t) = false

module _ (reg : Registry) where
  open reg use {testcase_get_test, test_get_testsuite}

  -- One round of the inner loop of `repartition_tests__`: the new `i_write_test` and array.
  unfoldable pub visit_test : ℕ → List ℕ → ℕ → ℕ → ℕ × List ℕ
  visit_test testsuite a write read =
      let read_test = get_or a read 0 in
      if test_get_testsuite read_test == testsuite
      then (suc write, move_forward a (suc write) read read_test)
      else (write, a)

  -- The inner loop; the first argument counts the elements not yet read.
  unfoldable pub scan_tests : ℕ → ℕ → List ℕ → ℕ → ℕ → ℕ × List ℕ
  scan_tests zero testsuite a write read = (write, a)
  scan_tests (suc n) testsuite a write read =
      let (write', a') = visit_test testsuite a write read in
      scan_tests n testsuite a' write' (suc read)

  -- The outer loop, on fuel; `none` is fuel that ran out.
  unfoldable pub sort_tests : ℕ → ℕ → List ℕ → ℕ → Option (List ℕ)
  sort_tests zero test_count a write = none
  sort_tests (suc fuel) test_count a write = elim (ltb write test_count) [
    | true ↦
        let testsuite = test_get_testsuite (get_or a write 0) in
        let (write', a') = scan_tests (test_count - suc write) testsuite a write (suc write) in
        sort_tests fuel test_count a' (suc write')
    | false ↦ some a
  ]

  -- `allocated` says whether calloc gives the copy.
  unfoldable pub repartition_tests : Bool → List ℕ → Option (List ℕ)
  repartition_tests allocated tests =
      if allocated then sort_tests (suc (length tests)) (length tests) tests 0 else none

  -- One round of that loop, at `i_read_testcase`.
  unfoldable pub visit_testcase : ℕ → ℕ → Scan → ℕ → Scan
  visit_testcase test testsuite (next_test, write, a) read =
      let read_testcase = get_or a read 0 in
      let read_test = testcase_get_test read_testcase in
      if read_test == test
      then (next_test, suc write, move_forward a write read read_testcase)
      else (
        if is_null next_test && (test_get_testsuite read_test == testsuite)
            then some read_test
            else next_test,
        write,
        a,
      )

  unfoldable pub scan_testcases : ℕ → ℕ → ℕ → Scan → ℕ → Scan
  scan_testcases zero test testsuite s read = s
  scan_testcases (suc n) test testsuite s read =
      scan_testcases n test testsuite (visit_testcase test testsuite s read) (suc read)

  -- The `while (next_test != NULL)` loop, on fuel.
  unfoldable pub take_suite : ℕ → ℕ → ℕ → List ℕ → ℕ → Option (ℕ × List ℕ)
  take_suite zero testcase_count test a write = none
  take_suite (suc fuel) testcase_count test a write =
      let (next_test, write', a') =
        scan_testcases (testcase_count - write) test (test_get_testsuite test) (none, write, a)
          write in
      elim next_test [
        | none ↦ some (write', a')
        | some t ↦ take_suite fuel testcase_count t a' write'
      ]

  -- The outer loop, on fuel.
  unfoldable pub sort_testcases : ℕ → ℕ → List ℕ → ℕ → Option (List ℕ)
  sort_testcases zero testcase_count a write = none
  sort_testcases (suc fuel) testcase_count a write = elim (ltb write testcase_count) [
    | true ↦
        let test = testcase_get_test (get_or a write 0) in
        elim (take_suite (suc testcase_count) testcase_count test a (suc write)) [
          | none ↦ none
          | some (write', a') ↦ sort_testcases fuel testcase_count a' write'
        ]
    | false ↦ some a
  ]

  unfoldable pub repartition_testcases : Bool → List ℕ → Option (List ℕ)
  repartition_testcases allocated testcases =
      let n = length testcases in if allocated then sort_testcases (suc n) n testcases 0 else none
