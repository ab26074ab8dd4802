-- ===== src/ForkingRunner/Wait.antt =====
-- wait_for_child__ of src/exec/forking_runner.c, with what poll, read and waitpid answer.
use ctest.Prelude.{
  ℕ, zero, suc, ℤ, pos, negsuc, Bool, true, false, ◌||◌, List, [], ◌∷◌, Option, none, some,
  if◌then◌else◌,
}
use mathlib.Core.Option.{map as option_map}
use ctest.Pipe.{Answer}
use ctest.Result.{
  ResultType, result_pass, result_skipped, result_error, Result, ctest_result_set_failure,
}
use ctest.Output.{Output}
use ctest.Output.Reader.{
  OutputReader, Built, no_output, built, out_of_bounds, output_reader_init, on_data_available,
  output_reader_build,
}
use ctest.ExecEvents.{Storage}
use ctest.ExecEvents.Reader.{Reader, exec_event_reader_init, reader_on_data_available}
use ctest.ForkingRunner.{
  coerce_result_type, Consumer, child_event_consumer_init, consume, negate, is_open,
}

-- A failure is the child's, or one that the runner makes: by its text, with the stage and a number.
pub data Failure (F : Type 0) : Type 0 where
  from_child : F → Failure F
  setup_failed : Failure F
  poll_failed : ℕ → Failure F
  consumption_failed : ℕ → Failure F
  wait_failed : ℕ → Failure F
  unexpected_pid : ℕ → Failure F
  terminated_by_signal : ℕ → ℕ → Failure F
  exited_with_error : ℕ → ℕ → Failure F

-- `revents` of a descriptor that is open: POLLIN, with the answers to an allocation and to the
-- read, POLLHUP alone, or neither.
pub data Revents : Type 0 where
  pollin : Bool → Answer → Revents
  pollhup : Revents
  no_event : Revents

-- What poll answers.
pub data Round : Type 0 where
  poll_fails : Round
  polled : Revents → Revents → Round

-- What waitpid answers.
pub data WaitStatus : Type 0 where
  wait_error : WaitStatus
  other_pid : ℕ → WaitStatus
  exited : ℕ → WaitStatus
  signaled : ℕ → WaitStatus
  other_status : ℕ → WaitStatus

-- The variables of the function, and the bytes that wait in the two pipes.
pub record Waiting (F : Type 0) : Type 0 where
  pub hooks_fd : ℤ
  pub output_fd : ℤ
  pub events_reader : Reader F
  pub output_reader : OutputReader
  pub hooks : List ℕ
  pub out : List ℕ
  pub result : Result (Failure F) Output
  pub retval : ℤ

module _ {F : Type 0} where
  unfoldable pub start_waiting : Result (Failure F) Output → ℕ → ℕ → List ℕ → List ℕ → Waiting F
  start_waiting result hooks_fd output_fd hooks out = record {
    hooks_fd = pos hooks_fd;
    output_fd = pos output_fd;
    events_reader = exec_event_reader_init;
    output_reader = output_reader_init output_fd;
    hooks = hooks;
    out = out;
    result = result;
    retval = negsuc 0;
  }

  -- The state of the consumer, which the reader has told its events.
  unfoldable pub consumer : Waiting F → Consumer F
  consumer w = consume child_event_consumer_init w.events_reader.events

  -- retval = ctest_result_set_failure(result, type, failure)
  unfoldable pub set_failure : ResultType → Option (Failure F) → Waiting F → Waiting F
  set_failure type f w =
      let (rc, result, _) = ctest_result_set_failure w.result type f in
      record w { result = result; retval = rc }

  unfoldable pub close_hooks : Waiting F → Waiting F
  close_hooks w = record w { hooks_fd = negate w.hooks_fd }

  unfoldable pub close_output : Waiting F → Waiting F
  close_output w = record w { output_fd = negate w.output_fd }

  -- What follows a read of a pipe, by its value: a failure, the end, or more to come.
  unfoldable pub after_hooks : ℤ → Waiting F → Waiting F
  after_hooks (negsuc n) w =
      close_hooks (set_failure result_error (some (consumption_failed (consumer w).stage)) w)
  after_hooks (pos zero) w = close_hooks w
  after_hooks (pos (suc n)) w = w

  unfoldable pub after_output : ℤ → Waiting F → Waiting F
  after_output (negsuc n) w =
      close_output (set_failure result_error (some (consumption_failed (consumer w).stage)) w)
  after_output (pos zero) w = close_output w
  after_output (pos (suc n)) w = w

  -- The round of the `for` for the output. poll ignores a negative descriptor.
  unfoldable pub output_event : Revents → Waiting F → Waiting F
  output_event (pollin allocated k) w =
      let (rc, r, out) = on_data_available allocated k w.output_reader w.out in
      after_output rc (record w { output_reader = r; out = out })
  output_event pollhup w = close_output w
  output_event no_event w = w

  unfoldable pub handle_output : Revents → Waiting F → Waiting F
  handle_output e w = elim (is_open w.output_fd) [ true ↦ output_event e w | false ↦ w ]

module _ {F : Type 0} where
  -- If no file is still open, nothing is left to consume.
  unfoldable pub any_open : Waiting F → Bool
  any_open w = is_open w.hooks_fd || is_open w.output_fd

  -- WIFEXITED: the type of the result is the status. A failure is reported unless it was skipped.
  unfoldable pub exit_verdict : ResultType → Waiting F → Waiting F
  exit_verdict result_pass w = record (set_failure result_pass none w) { retval = pos 0 }
  exit_verdict result_skipped w =
      record (set_failure result_skipped (option_map from_child (consumer w).last_failure) w) {
        retval = pos 0;
      }
  exit_verdict type w =
      record (set_failure type (option_map from_child (consumer w).last_failure) w) {
        retval = pos 1;
      }

  -- From waitpid on.
  unfoldable pub finish : WaitStatus → Waiting F → Waiting F
  finish wait_error w = set_failure result_error (some (wait_failed (consumer w).stage)) w
  finish (other_pid pid) w = set_failure result_error (some (unexpected_pid (consumer w).stage)) w
  finish (exited status) w = exit_verdict (coerce_result_type status) w
  finish (signaled signum) w =
      set_failure result_error (some (terminated_by_signal (consumer w).stage signum)) w
  finish (other_status status) w =
      set_failure result_error (some (exited_with_error (consumer w).stage status)) w

  -- result->output = output_reader_build(...); `none` is a write out of bounds.
  unfoldable pub deliver : Built → Waiting F → Option (ℤ × Result (Failure F) Output)
  deliver no_output w = some (w.retval, record w.result { output = none })
  deliver (built o) w = some (w.retval, record w.result { output = some o })
  deliver out_of_bounds w = none

module _ {F : Type 0} (storage : Storage F) where
  -- The round of the `for` for the execution hooks; `none` is a crash of the reader.
  unfoldable pub hooks_event : Revents → Waiting F → Option (Waiting F)
  hooks_event (pollin allocated k) w =
      elim (reader_on_data_available storage allocated k w.events_reader w.hooks) [
        | none ↦ none
        | some (rc, r, hooks) ↦
            some (after_hooks rc (record w { events_reader = r; hooks = hooks }))
      ]
  hooks_event pollhup w = some (close_hooks w)
  hooks_event no_event w = some w

  unfoldable pub handle_hooks : Revents → Waiting F → Option (Waiting F)
  handle_hooks e w = elim (is_open w.hooks_fd) [ true ↦ hooks_event e w | false ↦ some w ]

  -- The `while` loop, over what poll answers: whether the child is killed, and the variables.
  -- `none` is a crash, or a poll that has not returned yet.
  unfoldable pub poll_loop : List Round → Waiting F → Option (Bool × Waiting F)
  poll_loop [] w = if any_open w then none else some (false, w)
  poll_loop (poll_fails ∷ rounds) w =
      if any_open w
      then some (true, set_failure result_error (some (poll_failed (consumer w).stage)) w)
      else some (false, w)
  poll_loop (polled hooks output ∷ rounds) w = elim (any_open w) [
    | false ↦ some (false, w)
    | true ↦ elim (handle_hooks hooks w) [
      | none ↦ none
      | some w' ↦ poll_loop rounds (handle_output output w')
    ]
  ]

  -- The whole function: its value and the result.
  unfoldable pub wait_for_child :
      List Round
      → WaitStatus
      → Bool
      → Result (Failure F) Output
      → ℕ
      → ℕ
      → List ℕ
      → List ℕ
      → Option (ℤ × Result (Failure F) Output)
  wait_for_child rounds status allocated result hooks_fd output_fd hooks out =
      elim (poll_loop rounds (start_waiting result hooks_fd output_fd hooks out)) [
        | none ↦ none
        | some (killed, w) ↦
            deliver (output_reader_build allocated w.output_reader).0 (finish status w)
      ]
