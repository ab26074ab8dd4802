-- ===== src/Signals/Examples.antt =====
-- A capture of three signals, of which the last cannot be captured.
use ctest.Prelude.{ℕ, zero, suc, refl, true, false, List, [], ◌∷◌, none, some}
use ctest.Signals.{Signal, Sigaction, succeeds, is_invalid, fails, sigcapture}
use ctest.Signals.Restored.{always, LeavesAsWas, sigcapture-LeavesAsWas}

abbrev three : List Signal
three =
    record { action = 21; f_saved = false; saved = 0 }
    ∷ record { action = 22; f_saved = false; saved = 0 }
    ∷ record { action = 23; f_saved = false; saved = 0 }
    ∷ []

abbrev last_fails : ℕ → Sigaction
last_fails zero = succeeds
last_fails (suc zero) = is_invalid
last_fails (suc (suc n)) = fails

sigcapture-LeavesAsWas_example :
    LeavesAsWas
      (record { signals = three; handler = none })
      (sigcapture true last_fails always (some 9) (record { signals = three; handler = none }))
sigcapture-LeavesAsWas_example =
    sigcapture-LeavesAsWas true last_fails (some 9) three
      ((refl, refl), ((refl, refl), ((refl, refl), record {})))
