-- ===== src/Result/Owned.antt =====
-- The result of src/exec/result.c releases what it owns once.
use ctest.Prelude.{◌≡◌, sym, ap, ◌∙◌, List, [], ◌∷◌, ◌++◌, Option, append-nil, append_assoc}
use ctest.Result.{ResultType, Result, released, ctest_result_set_failure, ctest_result_destroy}

-- The failures that are handed over.
abbrev pub handed {ℓ} : {F : Type ℓ} → List (ResultType × Option F) → List F
handed [] = []
handed ((type, failure) ∷ sets) = released failure ++ handed sets

module _ {F O : Type 0} where
  -- Failures set one after the other, and what that releases.
  abbrev pub set_failures : Result F O → List (ResultType × Option F) → Result F O × List F
  set_failures r [] = (r, [])
  set_failures r ((type, failure) ∷ sets) =
      let (_, r', freed) = ctest_result_set_failure r type failure in
      let (r'', freed') = set_failures r' sets in (r'', freed ++ freed')

  -- Failures handed over to a result are each released once, in the order in which they came: all
  -- but the last when the next one is set, and that one with the result.
  pub set_failures-destroy :
      (r : Result F O) (sets : List (ResultType × Option F))
      → let (r', freed) = set_failures r sets in
        freed ++ (ctest_result_destroy r').0 ≡ released r.failure ++ handed sets
  unfolding ctest_result_set_failure ctest_result_destroy
  set_failures-destroy r [] = sym (append-nil (released r.failure))
  set_failures-destroy r ((type, failure) ∷ sets) =
      let r' : Result F O = record r { type = type; failure = failure } in
      let (r'', freed') = set_failures r' sets in
      append_assoc (released r.failure) freed' (released r''.failure)
      ∙ ap (λ (l : List F). released r.failure ++ l) (set_failures-destroy r' sets)
