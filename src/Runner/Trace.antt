-- ===== src/Runner/Trace.antt =====
-- What a runner does to the reporter (include/ctest/exec/reporter.h), as a list of events, the last
-- one first, and what such a list means.
use ctest.Prelude.{
  ℕ, ◌+◌, ℤ, is_positive, Bool, List, [], ◌∷◌, ◌++◌, Option, none, some, ◌==◌, if◌then◌else◌,
}
use ctest.Suite.{Registry}

-- A reporter that was created or destroyed, named by what it reports on, and a test case that was
-- handed to the runner's callback.
pub data Event : Type 0 where
  open_testsuite close_testsuite : ℕ → Event
  open_test close_test : ℕ → Event
  open_testcase close_testcase : ℕ → Event
  run_testcase : ℕ → Event

abbrev pub Trace : Type 0
Trace = List Event

-- The reporter and the callback `run_testcase`: whether a reporter is created (rather than NULL
-- returned), and what the callback returns. Both may depend on all that happened before.
pub record Host : Type 0 where
  pub reports : Trace → Event → Bool
  pub outcome : Trace → ℕ → ℤ

-- The test cases that were run, the first one first.
unfoldable pub executed : Trace → List ℕ
executed [] = []
executed (run_testcase k ∷ t) = executed t ++ k ∷ []
executed (_ ∷ t) = executed t

-- How many of them failed, by what the callback returned.
unfoldable pub failures : Host → Trace → ℕ
failures h [] = 0
failures h (run_testcase k ∷ t) = is_positive (h.outcome t k) + failures h t
failures h (_ ∷ t) = failures h t

-- The live reporters, the innermost first; `none` if the protocol was violated: a test reported to
-- the reporter of another suite, a test case to that of another test, a test case run outside its
-- reporter, or a reporter destroyed that is not the innermost.
module _ (reg : Registry) where
  open reg use {testcase_get_test, test_get_testsuite}

  unfoldable pub advance : Event → List Event → Option (List Event)
  advance (open_testsuite s) [] = some (open_testsuite s ∷ [])
  advance (open_test k) (open_testsuite s ∷ r) =
      if test_get_testsuite k == s then some (open_test k ∷ open_testsuite s ∷ r) else none
  advance (open_testcase k) (open_test j ∷ r) =
      if testcase_get_test k == j then some (open_testcase k ∷ open_test j ∷ r) else none
  advance (run_testcase k) (open_testcase j ∷ r) =
      if k == j then some (open_testcase j ∷ r) else none
  advance (close_testcase k) (open_testcase j ∷ r) = if k == j then some r else none
  advance (close_test k) (open_test j ∷ r) = if k == j then some r else none
  advance (close_testsuite k) (open_testsuite j ∷ r) = if k == j then some r else none
  advance _ _ = none

  unfoldable pub live : Trace → Option (List Event)
  live [] = some []
  live (e ∷ t) = elim (live t) [ none ↦ none | some r ↦ advance e r ]
