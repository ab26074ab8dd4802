-- ===== src/Result.antt =====
-- src/exec/result.c: the result of a test case, which owns its failure and its output.
pub mod Owned
mod Examples
use ctest.Prelude.{ℕ, ℤ, pos, Bool, true, false, List, [], ◌∷◌, Option, none, some}

pub data ResultType : Type 0 where
  result_pass : ResultType
  result_fail : ResultType
  result_skipped : ResultType
  result_error : ResultType

-- `F` and `O` are the pointers to failures and to outputs.
pub record Result (F O : Type 0) : Type 0 where
  pub type : ResultType
  pub output : Option O
  pub failure : Option F

-- What `if (p != NULL) destroy(p)` releases.
abbrev pub released {ℓ} : {A : Type ℓ} → Option A → List A
released none = []
released (some p) = p ∷ []

module _ {F O : Type 0} where
  -- The argument says whether calloc succeeds.
  unfoldable pub ctest_result_create_empty : Bool → Option (Result F O)
  ctest_result_create_empty false = none
  ctest_result_create_empty true =
      some (record { type = result_pass; output = none; failure = none })

  -- The value of the call, the result and what it releases.
  unfoldable pub ctest_result_set_failure :
      Result F O → ResultType → Option F → ℤ × Result F O × List F
  ctest_result_set_failure r type failure =
      (pos 0, record r { type = type; failure = failure }, released r.failure)

  unfoldable pub ctest_result_set_output : Result F O → Option O → ℤ × Result F O × List O
  ctest_result_set_output r output = (pos 0, record r { output = output }, released r.output)

  -- What is released with the result.
  unfoldable pub ctest_result_destroy : Result F O → List F × List O
  ctest_result_destroy r = (released r.failure, released r.output)
