-- ===== src/Signals.antt =====
-- src/exec/sig.c: the actions of all signals are replaced, and restored.
pub mod Restored
mod Examples
use ctest.Prelude.{
  ℕ, zero, suc, ℤ, pos, negsuc, Bool, true, false, List, [], ◌∷◌, Option, none, some,
}

-- A signal: its action in the kernel, and its `saved_sigaction_t__`.
pub record Signal : Type 0 where
  pub action : ℕ
  pub f_saved : Bool
  pub saved : ℕ

-- What sigaction answers for a signal.
pub data Sigaction : Type 0 where
  succeeds : Sigaction
  is_invalid : Sigaction
  fails : Sigaction

-- The address of sighandler__.
abbrev pub sighandler : ℕ
sighandler = 1

-- The saved action: only the first one is kept.
unfoldable pub save : Bool → ℕ → ℕ → ℕ
save true saved action = saved
save false saved action = action

unfoldable pub capture_signal : Signal → Signal
capture_signal s = record {
  action = sighandler;
  f_saved = true;
  saved = save s.f_saved s.saved s.action;
}

-- The signals after one for which sigaction fails.
unfoldable pub not_reached : List (Sigaction × Signal) → List Signal
not_reached [] = []
not_reached ((_, s) ∷ signals) = s ∷ not_reached signals

-- The loop: whether it comes to its end, and the signals. A number that is not valid is ignored.
unfoldable pub capture_signals : List (Sigaction × Signal) → Bool × List Signal
capture_signals [] = (true, [])
capture_signals ((succeeds, s) ∷ signals) =
    let (ok, rest) = capture_signals signals in (ok, capture_signal s ∷ rest)
capture_signals ((is_invalid, s) ∷ signals) =
    let (ok, rest) = capture_signals signals in (ok, s ∷ rest)
capture_signals ((fails, s) ∷ signals) = (false, s ∷ not_reached signals)

-- memset(saved, 0, sizeof(*saved)), if sigaction succeeds.
unfoldable pub restore_from : Bool → Bool → Signal → Bool × Signal
restore_from ok false s = (true, s)
restore_from true true s = (true, record { action = s.saved; f_saved = false; saved = 0 })
restore_from false true s = (false, s)

-- One round: `result` is not 0 if a signal could not be restored.
unfoldable pub and_signal : Bool × Signal → Bool × List Signal → Bool × List Signal
and_signal (true, s) (all, signals) = (all, s ∷ signals)
and_signal (false, s) (all, signals) = (false, s ∷ signals)

-- The loop of sigrestore__: whether all could be restored. `answers` says for each signal whether
-- sigaction succeeds.
unfoldable pub restore_signals : (ℕ → Bool) → ℕ → List Signal → Bool × List Signal
restore_signals answers i [] = (true, [])
restore_signals answers i (s ∷ signals) =
    and_signal (restore_from (answers i) s.f_saved s) (restore_signals answers (suc i) signals)

-- The static variables, and the kernel's actions.
pub record Signals : Type 0 where
  pub signals : List Signal
  pub handler : Option ℕ

-- The answers to sigaction beside the signals.
abbrev pub answered : (ℕ → Sigaction) → ℕ → List Signal → List (Sigaction × Signal)
answered answers i [] = []
answered answers i (s ∷ signals) = (answers i, s) ∷ answered answers (suc i) signals

-- What follows the loop of sigcapture__.
unfoldable pub end_capture : (ℕ → Bool) → ℕ → Signals → Bool × List Signal → ℤ × Signals
end_capture undo handler state (true, signals) =
    (pos 0, record { signals = signals; handler = some handler })
end_capture undo handler state (false, signals) =
    (negsuc 0, record state { signals = (restore_signals undo 0 signals).1 })

-- sigcapture__: `blocks` says whether sigprocmask succeeds, `answers` and `undo` what sigaction
-- answers in the two loops.
unfoldable pub capture_from :
    Option ℕ → Bool → (ℕ → Sigaction) → (ℕ → Bool) → Option ℕ → Signals → ℤ × Signals
capture_from installed blocks answers undo none state = (negsuc 0, state)
capture_from (some h) blocks answers undo (some handler) state = (negsuc 0, state)
capture_from none false answers undo (some handler) state = (negsuc 0, state)
capture_from none true answers undo (some handler) state =
    end_capture undo handler state (capture_signals (answered answers 0 state.signals))

unfoldable pub sigcapture : Bool → (ℕ → Sigaction) → (ℕ → Bool) → Option ℕ → Signals → ℤ × Signals
sigcapture blocks answers undo handler state =
    capture_from state.handler blocks answers undo handler state

unfoldable pub end_restore : Signals → Bool × List Signal → ℤ × Signals
end_restore state (true, signals) = (pos 0, record { signals = signals; handler = none })
end_restore state (false, signals) = (negsuc 0, record state { signals = signals })

unfoldable pub sigrestore : Bool → (ℕ → Bool) → Signals → ℤ × Signals
sigrestore false answers state = (negsuc 0, state)
sigrestore true answers state = end_restore state (restore_signals answers 0 state.signals)
