-- ===== src/Result/Examples.antt =====
-- A result that is told two failures and, in between, that there is none.
use ctest.Prelude.{ℕ, ◌≡◌, [], ◌∷◌, ◌++◌, none, some}
use ctest.Result.{Result, result_pass, result_error, ctest_result_destroy, released}
use ctest.Result.Owned.{set_failures, set_failures-destroy, handed}

abbrev fresh : Result ℕ ℕ
fresh = record { type = result_pass; output = none; failure = some 7 }

set_failures-destroy_example :
    let (r, freed) =
      set_failures fresh
        ((result_error, some 1) ∷ (result_pass, none) ∷ (result_error, some 2) ∷ []) in
    freed ++ (ctest_result_destroy r).0
    ≡ released (some 7)
      ++ handed ((result_error, some 1) ∷ (result_pass, none) ∷ (result_error, some 2) ∷ [])
set_failures-destroy_example =
    set_failures-destroy fresh
      ((result_error, some 1) ∷ (result_pass, none) ∷ (result_error, some 2) ∷ [])
