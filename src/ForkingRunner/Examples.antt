-- ===== src/ForkingRunner/Examples.antt =====
-- A test case that fails in its second stage after some output, run by the forking runner.
use ctest.Prelude.{
  ℕ, ◌≡◌, refl, true, false, List, [], ◌∷◌, none, some, length, replicate, is_positive, ℤ, arith,
}
use mathlib.Core.Option.{map as option_map}
use ctest.Result.{Result, result_pass}
use ctest.Output.{Output}
use ctest.ExecEvents.{Event, Storage, stage_change, failure, bytes_of}
use ctest.ExecEvents.Writer.{
  written, writer_on_event, writer_on_stage_change, writer_on_failure, write_message, header_of,
}
use ctest.ExecEvents.Phase.{AllSendable}
use ctest.ForkingRunner.{coerce_result_type}
use ctest.ForkingRunner.Child.{
  Ending, fails, run_child, end_testcase, change_stages, exec_hooks_init,
  exec_hooks_on_stage_change, exec_hooks_on_short_circuit,
}
use ctest.ForkingRunner.Wait.{
  Failure, from_child, exited, signaled, start_waiting, finish, wait_for_child,
}
use ctest.ForkingRunner.Drain.{all_readable}
use ctest.ForkingRunner.Reports.{reported, value, Delivers, wait_for_child-reports}
use ctest.ForkingRunner.Verdict.{counted, ends_as, finish-counted}
use ctest.ForkingRunner.System.{
  child_events, ending_type, ending_failure, EndsWith, wait_for_child-run_child,
}
use ctest.ForkingRunner.Testcase.{
  Act, Setup, Seen, closes, opens, reporter_calls, Whenever, runner_run_testcase,
  runner_run_testcase-closes,
}

-- Failures are their own blocks; the signal handler's is made of the stage and the signal.
abbrev blocks : Storage (List ℕ)
blocks = record { serialize = λ f. some f; deserialize = λ b. some b }

abbrev made : ℕ → ℕ → List ℕ
made stage signum = stage ∷ signum ∷ []

abbrev fresh : Result (Failure (List ℕ)) Output
fresh = record { type = result_pass; output = none; failure = none }

abbrev broken : Ending (List ℕ)
broken = fails (some (42 ∷ 43 ∷ []))

abbrev sizes : List (ℕ × ℕ)
sizes = replicate 40 (1, 0)

broken-AllSendable : AllSendable blocks (child_events blocks made (0 ∷ 1 ∷ []) broken)
broken-AllSendable =
    (omega arith, (omega arith, ((42 ∷ 43 ∷ [], refl, omega arith, omega arith, refl), record {})))

-- The bytes that the child sends, and its status.
length-run_child_runs : length (run_child blocks made (0 ∷ 1 ∷ []) broken).0 ≡ 22
unfolding run_child end_testcase change_stages exec_hooks_init exec_hooks_on_stage_change
    exec_hooks_on_short_circuit writer_on_stage_change writer_on_failure write_message header_of
    bytes_of
length-run_child_runs = refl

wait_for_child-run_child_example :
    EndsWith blocks made
      (run_child blocks made (0 ∷ 1 ∷ []) broken)
      (104 ∷ 105 ∷ [])
      sizes
      4
      6
      fresh
      (ending_type broken)
      (option_map from_child (ending_failure blocks made (0 ∷ 1 ∷ []) broken))
wait_for_child-run_child_example =
    wait_for_child-run_child blocks made (0 ∷ 1 ∷ []) broken (104 ∷ 105 ∷ []) sizes 4 6 fresh
      broken-AllSendable (omega (arith, length-run_child_runs)) (omega arith)

abbrev skipped_events : List (Event (List ℕ))
skipped_events = stage_change 0 ∷ failure (9 ∷ []) ∷ []

length-written_runs : length (written blocks skipped_events) ≡ 13
unfolding written writer_on_event writer_on_stage_change writer_on_failure write_message header_of
    bytes_of
length-written_runs = refl

wait_for_child-reports_example :
    (r : Result (Failure (List ℕ)) Output) × ((wait_for_child blocks
          (all_readable blocks sizes)
          (exited 2)
          true
          fresh
          4
          6
          (written blocks skipped_events)
          []
        ≡ some (value (coerce_result_type 2), r))
      × ((r.type ≡ coerce_result_type 2)
          × (r.failure ≡ reported (coerce_result_type 2) skipped_events)
          × Delivers [] r.output))
wait_for_child-reports_example =
    wait_for_child-reports blocks skipped_events [] sizes 2 3 5 fresh
      (omega arith, ((9 ∷ [], refl, omega arith, omega arith, refl), record {}))
      (omega (arith, length-written_runs)) (omega arith)

-- A child that a signal kills is not counted.
finish-counted_example :
    let w = start_waiting fresh 4 6 (1 ∷ []) [] in
    (is_positive (finish {F = List ℕ} (signaled 9) w).retval ≡ counted (signaled 9))
    × ((finish (signaled 9) w).result.type ≡ ends_as (signaled 9))
finish-counted_example = finish-counted (signaled 9) (start_waiting fresh 4 6 (1 ∷ []) [])

abbrev no_fork : Setup
no_fork = record {
  created = true;
  hooks_pipe = some (3, 4);
  output_pipe = some (5, 6);
  forked = false;
}

abbrev nothing_seen : Seen
nothing_seen = record { rounds = []; status = exited 0; allocated = true; hooks = []; out = [] }

runner_run_testcase-closes_example :
    Whenever
      (λ (r : ℤ × List (Act (Failure (List ℕ)))).
        (closes 5 r.1 ≡ opens 5 r.1) × (reporter_calls r.1 ≡ 0 ∷ 1 ∷ []))
      (runner_run_testcase blocks nothing_seen no_fork)
runner_run_testcase-closes_example = runner_run_testcase-closes blocks nothing_seen no_fork 5
