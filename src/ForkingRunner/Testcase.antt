-- ===== src/ForkingRunner/Testcase.antt =====
-- The parent branch of runner_run_testcase__ in src/exec/forking_runner.c: the descriptors and the
-- calls of the reporter on each path.
use ctest.Prelude.{
  ℕ, ◌+◌, ◌≡◌, refl, ℤ, negsuc, Bool, true, false, List, [], ◌∷◌, ◌++◌, Option, none, some, ◌==◌,
  if◌then◌else◌, Bool-cases, Option-cases, inl, inr, arith,
}
use ctest.Result.{result_error, Result, ctest_result_create_empty, ctest_result_set_failure}
use ctest.Output.{Output}
use ctest.ExecEvents.{Storage}
use ctest.ForkingRunner.Wait.{Failure, setup_failed, Round, WaitStatus, wait_for_child}

-- What a path does to the outside.
pub data Act (F : Type 0) : Type 0 where
  reporter_start : Act F
  reporter_complete : Result F Output → Act F
  open_fd : ℕ → Act F
  close_fd : ℕ → Act F

-- What the system answers: calloc, the two calls of pipe (read end, write end), and fork.
pub record Setup : Type 0 where
  pub created : Bool
  pub hooks_pipe : Option (ℕ × ℕ)
  pub output_pipe : Option (ℕ × ℕ)
  pub forked : Bool

-- What the child does, as the parent sees it: the answers of poll and waitpid, and all that it
-- writes to the two pipes. `allocated` is for the last resize of the output.
pub record Seen : Type 0 where
  pub rounds : List Round
  pub status : WaitStatus
  pub allocated : Bool
  pub hooks : List ℕ
  pub out : List ℕ

-- What was done before, in front of what a path does.
abbrev pub first {ℓ} : {A : Type ℓ} → List A → Option (ℤ × List A) → Option (ℤ × List A)
first acts none = none
first acts (some (rc, more)) = some (rc, acts ++ more)

module _ {G : Type 0} (storage : Storage G) (seen : Seen) where
  -- retval = ctest_result_set_failure(result, CTEST_RESULT_ERROR, failure)
  unfoldable pub report_error : Result (Failure G) Output → ℤ × Result (Failure G) Output
  report_error result =
      let (rc, result', _) = ctest_result_set_failure result result_error (some setup_failed) in
      (rc, result')

  -- From fork on, in the parent. wait_for_child__ closes the ends that are read.
  unfoldable pub fork_child :
      Result (Failure G) Output → Bool → ℕ × ℕ → ℕ × ℕ → Option (ℤ × List (Act (Failure G)))
  fork_child result false (hooks0, hooks1) (output0, output1) =
      let (rc, result') = report_error result in
      some (
        rc,
        close_fd output0
            ∷ close_fd output1
            ∷ close_fd hooks0
            ∷ close_fd hooks1
            ∷ reporter_complete result'
            ∷ [],
      )
  fork_child result true (hooks0, hooks1) (output0, output1) =
      elim (wait_for_child storage seen.rounds seen.status seen.allocated result hooks0 output0
        seen.hooks seen.out) [
          | none ↦ none
          | some (rc, result') ↦ some (
            rc,
            close_fd hooks1
                ∷ close_fd output1
                ∷ close_fd hooks0
                ∷ close_fd output0
                ∷ reporter_complete result'
                ∷ [],
          )
        ]

  unfoldable pub open_output_pipe :
      Result (Failure G) Output
      → Bool
      → ℕ × ℕ
      → Option (ℕ × ℕ)
      → Option (ℤ × List (Act (Failure G)))
  open_output_pipe result forked (hooks0, hooks1) none =
      let (rc, result') = report_error result in
      some (rc, close_fd hooks0 ∷ close_fd hooks1 ∷ reporter_complete result' ∷ [])
  open_output_pipe result forked hooks_pipe (some output_pipe) =
      first (open_fd output_pipe.0 ∷ open_fd output_pipe.1 ∷ [])
        (fork_child result forked hooks_pipe output_pipe)

  unfoldable pub open_hooks_pipe :
      Result (Failure G) Output
      → Bool
      → Option (ℕ × ℕ)
      → Option (ℕ × ℕ)
      → Option (ℤ × List (Act (Failure G)))
  open_hooks_pipe result forked none output_pipe =
      let (rc, result') = report_error result in some (rc, reporter_complete result' ∷ [])
  open_hooks_pipe result forked (some hooks_pipe) output_pipe =
      first (open_fd hooks_pipe.0 ∷ open_fd hooks_pipe.1 ∷ [])
        (open_output_pipe result forked hooks_pipe output_pipe)

  -- The value of the function and what it does, in order; `none` if wait_for_child__ does not end.
  unfoldable pub runner_run_testcase : Setup → Option (ℤ × List (Act (Failure G)))
  runner_run_testcase s = elim (ctest_result_create_empty s.created) [
    | none ↦ some (negsuc 0, [])
    | some result ↦
        first (reporter_start ∷ []) (open_hooks_pipe result s.forked s.hooks_pipe s.output_pipe)
  ]

module _ {F : Type 0} where
  -- How often a descriptor is opened, and how often it is closed.
  abbrev pub opens : ℕ → List (Act F) → ℕ
  opens fd [] = 0
  opens fd (open_fd n ∷ acts) = (if n == fd then 1 else 0) + opens fd acts
  opens fd (reporter_start ∷ acts) = opens fd acts
  opens fd (reporter_complete r ∷ acts) = opens fd acts
  opens fd (close_fd n ∷ acts) = opens fd acts

  abbrev pub closes : ℕ → List (Act F) → ℕ
  closes fd [] = 0
  closes fd (close_fd n ∷ acts) = (if n == fd then 1 else 0) + closes fd acts
  closes fd (reporter_start ∷ acts) = closes fd acts
  closes fd (reporter_complete r ∷ acts) = closes fd acts
  closes fd (open_fd n ∷ acts) = closes fd acts

  -- The calls of the reporter: 0 for start, 1 for complete.
  abbrev pub reporter_calls : List (Act F) → List ℕ
  reporter_calls [] = []
  reporter_calls (reporter_start ∷ acts) = 0 ∷ reporter_calls acts
  reporter_calls (reporter_complete r ∷ acts) = 1 ∷ reporter_calls acts
  reporter_calls (open_fd n ∷ acts) = reporter_calls acts
  reporter_calls (close_fd n ∷ acts) = reporter_calls acts

-- A property of what is returned, if anything is.
abbrev pub Whenever {ℓ} : {A : Type ℓ} → (A → Type 0) → Option A → Type 0
Whenever P none = record {}
Whenever P (some a) = P a

module _ {G : Type 0} (storage : Storage G) (seen : Seen) where
  abbrev IsClosed : ℕ → ℤ × List (Act (Failure G)) → Type 0
  IsClosed fd r = (closes fd r.1 ≡ opens fd r.1) × (reporter_calls r.1 ≡ 0 ∷ 1 ∷ [])

  open_hooks_pipe-closes :
      (fd : ℕ) (result : Result (Failure G) Output) (forked : Bool)
      (hooks_pipe output_pipe : Option (ℕ × ℕ))
      → Whenever (IsClosed fd) (
          first
            (reporter_start ∷ [])
            (open_hooks_pipe storage seen result forked hooks_pipe output_pipe))
  unfolding open_hooks_pipe open_output_pipe fork_child report_error
  open_hooks_pipe-closes fd result forked none output_pipe = (refl, refl)
  open_hooks_pipe-closes fd result forked (some h) none = (omega arith, refl)
  open_hooks_pipe-closes fd result false (some h) (some o) = (omega arith, refl)
  open_hooks_pipe-closes fd result true (some (h0, h1)) (some (o0, o1)) =
      elim (Option-cases (
        wait_for_child storage seen.rounds seen.status seen.allocated result h0 o0 seen.hooks
          seen.out)) [
            | inl e ↦ rw (e, open_hooks_pipe, open_output_pipe, fork_child) (record {})
            | inr (_, e) ↦ rw (e, open_hooks_pipe, open_output_pipe, fork_child) (omega arith, refl)
          ]

  -- On every path of the parent each descriptor is closed as often as it is opened, and the
  -- reporter is told the start and then, once, the completion, unless the result cannot be created.
  pub runner_run_testcase-closes :
      (s : Setup) (fd : ℕ)
      → Whenever
          (λ (r : ℤ × List (Act (Failure G))).
            (closes fd r.1 ≡ opens fd r.1)
            × (reporter_calls r.1 ≡ (if s.created then 0 ∷ 1 ∷ [] else [])))
          (runner_run_testcase storage seen s)
  unfolding runner_run_testcase ctest_result_create_empty
  runner_run_testcase-closes s fd = elim (Bool-cases s.created) [
    | inl e ↦
        rw (e, runner_run_testcase)
          (open_hooks_pipe-closes fd _ s.forked s.hooks_pipe s.output_pipe)
    | inr e ↦ rw (e, runner_run_testcase) (refl, refl)
  ]
