-- ===== src/Signals/Restored.antt =====
-- The actions of src/exec/sig.c after a capture and a restoration.
use ctest.Prelude.{
  ℕ, suc, ◌≡◌, refl, ap, ap₂, ◌∙◌, sym, ℤ, pos, negsuc, Bool, true, false, List, [], ◌∷◌, Option,
  none, some,
}
use ctest.Signals.{
  Signal, Sigaction, succeeds, is_invalid, fails, save, capture_signal, not_reached,
  capture_signals, restore_from, and_signal, restore_signals, Signals, answered, end_capture,
  capture_from, sigcapture, end_restore, sigrestore,
}

-- Nothing is saved.
abbrev pub IsFresh : List Signal → Type 0
IsFresh [] = record {}
IsFresh (s ∷ signals) = ((s.f_saved ≡ false) × (s.saved ≡ 0)) × IsFresh signals

abbrev pub always : ℕ → Bool
always i = true

restore_from-fresh : (s : Signal) → s.f_saved ≡ false → restore_from true s.f_saved s ≡ (true, s)
unfolding restore_from
restore_from-fresh s e = ap (λ (b : Bool). restore_from true b s) e

restore_from-capture_signal :
    (s : Signal)
    → s.f_saved ≡ false
    → s.saved ≡ 0
    → restore_from true true (capture_signal s) ≡ (true, s)
unfolding restore_from capture_signal save
restore_from-capture_signal s e z =
    (λ i. (true, record { action = save (e i) s.saved s.action; f_saved = false; saved = 0 }))
    ∙ λ i. (true, record { action = s.action; f_saved = sym e i; saved = sym z i })

restore-fresh :
    (j : ℕ) (signals : List Signal)
    → IsFresh signals
    → restore_signals always j signals ≡ (true, signals)
unfolding restore_signals and_signal
restore-fresh j [] f = refl
restore-fresh j (s ∷ signals) ((e, z), f) =
    ap₂ and_signal (restore_from-fresh s e) (restore-fresh (suc j) signals f)

not_reached-answered :
    (answers : ℕ → Sigaction) (i : ℕ) (signals : List Signal)
    → not_reached (answered answers i signals) ≡ signals
unfolding not_reached
not_reached-answered answers i [] = refl
not_reached-answered answers i (s ∷ signals) =
    ap (◌∷◌ s) (not_reached-answered answers (suc i) signals)

-- One round of the loops, by what sigaction answers in the first.
restore-capture_one :
    (a : Sigaction) (answers : ℕ → Sigaction) (i j : ℕ) (s : Signal) (signals : List Signal)
    → s.f_saved ≡ false
    → s.saved ≡ 0
    → IsFresh signals
    → restore_signals always (suc j) (capture_signals (answered answers i signals)).1
      ≡ (true, signals)
    → restore_signals always j (capture_signals ((a, s) ∷ answered answers i signals)).1
      ≡ (true, s ∷ signals)
unfolding restore_signals capture_signals and_signal capture_signal
restore-capture_one succeeds answers i j s signals e z f h =
    ap₂ and_signal (restore_from-capture_signal s e z) h
restore-capture_one is_invalid answers i j s signals e z f h =
    ap₂ and_signal (restore_from-fresh s e) h
restore-capture_one fails answers i j s signals e z f h = ap₂ and_signal (restore_from-fresh s e) (
    ap (restore_signals always (suc j)) (not_reached-answered answers i signals)
    ∙ restore-fresh (suc j) signals f)

-- Restoring what a loop of captures left gives the signals as they were.
restore-capture :
    (answers : ℕ → Sigaction) (i j : ℕ) (signals : List Signal)
    → IsFresh signals
    → restore_signals always j (capture_signals (answered answers i signals)).1 ≡ (true, signals)
unfolding restore_signals capture_signals
restore-capture answers i j [] f = refl
restore-capture answers i j (s ∷ signals) ((e, z), f) =
    restore-capture_one (answers i) answers (suc i) j s signals e z f
      (restore-capture answers (suc i) (suc j) signals f)

-- What is left of a capture that began with nothing saved, by its value.
abbrev pub LeavesAsWas : Signals → ℤ × Signals → Type 0
LeavesAsWas state (pos n, captured) = sigrestore true always captured ≡ (pos 0, state)
LeavesAsWas state (negsuc n, captured) = captured ≡ state

end_capture-LeavesAsWas :
    (handler : ℕ) (signals : List Signal) (b : Bool × List Signal)
    → restore_signals always 0 b.1 ≡ (true, signals)
    → let state : Signals = record { signals = signals; handler = none } in
      LeavesAsWas state (end_capture always handler state b)
unfolding end_capture sigrestore end_restore
end_capture-LeavesAsWas handler signals (true, captured) e = rw (e) refl
end_capture-LeavesAsWas handler signals (false, captured) e =
    λ i. record { signals = (e i).1; handler = none }

-- A capture that succeeds is undone by a restoration: all actions are those before, nothing is saved
-- and there is no handler. One that fails leaves all as it was, also where sigaction fails half-way.
-- Nothing was captured before, and sigaction succeeds whenever an action is restored.
pub sigcapture-LeavesAsWas :
    (blocks : Bool) (answers : ℕ → Sigaction) (handler : Option ℕ) (signals : List Signal)
    → IsFresh signals
    → let state : Signals = record { signals = signals; handler = none } in
      LeavesAsWas state (sigcapture blocks answers always handler state)
unfolding sigcapture capture_from
sigcapture-LeavesAsWas blocks answers none signals f = refl
sigcapture-LeavesAsWas false answers (some handler) signals f = refl
sigcapture-LeavesAsWas true answers (some handler) signals f =
    end_capture-LeavesAsWas handler signals (capture_signals (answered answers 0 signals))
      (restore-capture answers 0 0 signals f)
