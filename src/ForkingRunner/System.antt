-- ===== src/ForkingRunner/System.antt =====
-- Parent and child of src/exec/forking_runner.c together.
use ctest.Prelude.{
  ℕ, suc, true, ◌<◌, ◌≡◌, refl, ap, ◌∙◌, sym, subst, List, map, [], ◌∷◌, ◌++◌, Option, none, some,
  length, append-nil, append_assoc,
}
use ctest.Result.{ResultType, Result, result_pass, result_fail, result_skipped, result_error}
use ctest.Output.{Output}
use ctest.ExecEvents.{Event, stage_change, failure, Storage}
use ctest.ExecEvents.Writer.{
  written, writer_on_event, writer_on_stage_change, writer_on_failure, whole,
}
use ctest.ExecEvents.Phase.{AllSendable}
use ctest.ForkingRunner.{coerce_result_type}
use ctest.ForkingRunner.Child.{
  Ending, returns, skips, fails, catches, ExecHooks, exec_hooks_init, exec_hooks_on_stage_change,
  change_stages, exec_hooks_on_signal, exec_hooks_on_short_circuit, end_testcase, run_child,
  exit_child,
}
use ctest.ForkingRunner.Wait.{Failure, from_child, exited, wait_for_child}
use ctest.ForkingRunner.Drain.{all_readable}
use ctest.ForkingRunner.Reports.{
  last_failure_from, reported, value, Delivers, wait_for_child-reports,
}
use mathlib.Core.Option.{map as option_map}

abbrev optional_failure : {F : Type 0} → Option F → List (Event F)
optional_failure none = []
optional_failure (some f) = failure f ∷ []

-- The last stage of those that a test case goes through.
abbrev pub last_stage : ℕ → List ℕ → ℕ
last_stage stage [] = stage
last_stage stage (next ∷ stages) = last_stage next stages

-- What an ending is, independent of the way it is told: its type, and its failure.
abbrev pub ending_type : {F : Type 0} → Ending F → ResultType
ending_type returns = result_pass
ending_type (skips f) = result_skipped
ending_type (fails f) = result_fail
ending_type (catches signum) = result_fail

module _ {F : Type 0} (storage : Storage F) (made : ℕ → ℕ → F) where
  abbrev pub ending_failure : List ℕ → Ending F → Option F
  ending_failure stages returns = none
  ending_failure stages (skips f) = f
  ending_failure stages (fails f) = f
  ending_failure stages (catches signum) = some (made (last_stage 0 stages) signum)

  abbrev pub child_events : List ℕ → Ending F → List (Event F)
  child_events stages ending =
      map stage_change stages ++ optional_failure (ending_failure stages ending)

  written-append :
      (es fs : List (Event F))
      → written storage (es ++ fs) ≡ written storage es ++ written storage fs
  unfolding written
  written-append [] fs = refl
  written-append (e ∷ es) fs =
      ap (λ (l : List ℕ). writer_on_event storage whole whole e ++ l) (written-append es fs)
      ∙ sym (
          append_assoc (writer_on_event storage whole whole e) (written storage es)
            (written storage fs))

  sent-change_stages :
      (hooks : ExecHooks) (stages : List ℕ)
      → ((change_stages hooks stages).sent
          ≡ hooks.sent ++ written storage (map stage_change stages))
        × ((change_stages hooks stages).stage ≡ last_stage hooks.stage stages)
  unfolding change_stages exec_hooks_on_stage_change written writer_on_event
  sent-change_stages hooks [] = (sym (append-nil hooks.sent), refl)
  sent-change_stages hooks (stage ∷ stages) =
      let (sent, same) = sent-change_stages (exec_hooks_on_stage_change hooks stage) stages in
      (
        sent
            ∙ append_assoc hooks.sent (writer_on_stage_change whole whole stage)
                (written storage (map stage_change stages)),
        same,
      )

  written-failure_only :
      (f : F) → written storage (failure f ∷ []) ≡ writer_on_failure storage whole whole f
  unfolding written writer_on_event
  written-failure_only f = append-nil (writer_on_failure storage whole whole f)

  abbrev PathTo : List ℕ → Option F → List ℕ → Type 0
  PathTo sent none all = sent ≡ all
  PathTo sent (some f) all = sent ++ writer_on_failure storage whole whole f ≡ all

  sent_all :
      (stages : List ℕ) (f : Option F)
      → PathTo
          (change_stages exec_hooks_init stages).sent
          f
          (written storage (map stage_change stages ++ optional_failure f))
  unfolding exec_hooks_init
  sent_all stages none =
      (sent-change_stages exec_hooks_init stages).0
      ∙ ap (written storage) (sym (append-nil (map stage_change stages)))
  sent_all stages (some f) =
      ap (λ (l : List ℕ). l ++ writer_on_failure storage whole whole f)
        (sent-change_stages exec_hooks_init stages).0
      ∙ ap (λ (l : List ℕ). written storage (map stage_change stages) ++ l)
          (sym (written-failure_only f))
      ∙ sym (written-append (map stage_change stages) (failure f ∷ []))

  -- What the child writes is what the writer makes of its events, and its status is its type.
  pub run_child_lem :
      (stages : List ℕ) (ending : Ending F)
      → run_child storage made stages ending
        ≡ (written storage (child_events stages ending), exit_child (ending_type ending))
  unfolding run_child end_testcase exec_hooks_on_short_circuit exec_hooks_on_signal exec_hooks_init
      exit_child
  run_child_lem stages returns = λ i. (sent_all stages none i, 0)
  run_child_lem stages (skips none) = λ i. (sent_all stages none i, 2)
  run_child_lem stages (skips (some f)) = λ i. (sent_all stages (some f) i, 2)
  run_child_lem stages (fails none) = λ i. (sent_all stages none i, 1)
  run_child_lem stages (fails (some f)) = λ i. (sent_all stages (some f) i, 1)
  run_child_lem stages (catches signum) =
      let stage : (change_stages exec_hooks_init stages).stage ≡ last_stage 0 stages =
        (sent-change_stages exec_hooks_init stages).1 in
      rw (stage) (λ i. (sent_all stages (some (made (last_stage 0 stages) signum)) i, 1))

  last_failure-stages :
      (f : Option F) (stages : List ℕ) (es : List (Event F))
      → last_failure_from f (map stage_change stages ++ es) ≡ last_failure_from f es
  last_failure-stages f [] es = refl
  last_failure-stages f (stage ∷ stages) es = last_failure-stages f stages es

  coerce-exit : (type : ResultType) → coerce_result_type (exit_child type) ≡ type
  unfolding coerce_result_type exit_child
  coerce-exit result_pass = refl
  coerce-exit result_fail = refl
  coerce-exit result_skipped = refl
  coerce-exit result_error = refl

  reported-ending :
      (stages : List ℕ) (ending : Ending F)
      → reported (ending_type ending) (child_events stages ending)
        ≡ option_map from_child (ending_failure stages ending)
  reported-ending stages returns = refl
  reported-ending stages (skips none) =
      ap (option_map from_child) (last_failure-stages none stages [])
  reported-ending stages (skips (some f)) =
      ap (option_map from_child) (last_failure-stages none stages (failure f ∷ []))
  reported-ending stages (fails none) =
      ap (option_map from_child) (last_failure-stages none stages [])
  reported-ending stages (fails (some f)) =
      ap (option_map from_child) (last_failure-stages none stages (failure f ∷ []))
  reported-ending stages (catches signum) =
      ap (option_map from_child)
        (last_failure-stages none stages (failure (made (last_stage 0 stages) signum) ∷ []))

  -- What the parent of a child that sent `b.0` and exits with `b.1` ends with.
  abbrev pub EndsWith :
      List ℕ × ℕ
      → List ℕ
      → List (ℕ × ℕ)
      → ℕ
      → ℕ
      → Result (Failure F) Output
      → ResultType
      → Option (Failure F)
      → Type 0
  EndsWith b text ns hooks output r type f =
      (r' : Result (Failure F) Output) × ((wait_for_child storage (all_readable storage ns)
            (exited b.1) true r (suc hooks) (suc output) b.0 text
          ≡ some (value type, r'))
        × ((r'.type ≡ type) × (r'.failure ≡ f) × Delivers text r'.output))

  -- The parent of a child that goes through `stages` and ends, and writes `text` meanwhile, ends too
  -- and has a result of the type and with the failure of the ending, and with all of the text; it
  -- returns 1 for a failure and 0 else. Each event fits into a message, the descriptors are not 0,
  -- allocations succeed, and both pipes can be read in more rounds than they carry bytes.
  pub wait_for_child-run_child :
      (stages : List ℕ) (ending : Ending F) (text : List ℕ) (ns : List (ℕ × ℕ)) (hooks output : ℕ)
      (r : Result (Failure F) Output)
      → AllSendable storage (child_events stages ending)
      → let (sent, status) = run_child storage made stages ending in
        length sent < length ns
        → length text < length ns
        → EndsWith
            (run_child storage made stages ending)
            text
            ns
            hooks
            output
            r
            (ending_type ending)
            (option_map from_child (ending_failure stages ending))
  wait_for_child-run_child stages ending text ns hooks output r s p q =
      let es : List (Event F) = child_events stages ending in
      let type : ResultType = ending_type ending in
      let e : run_child storage made stages ending ≡ (written storage es, exit_child type) =
        run_child_lem stages ending in
      let f : Option (Failure F) = option_map from_child (ending_failure stages ending) in
      let p' : length (written storage es) < length ns =
        subst (λ (b : List ℕ × ℕ). length b.0 < length ns) e p in
      let base : EndsWith (written storage es, exit_child type) text ns hooks output r
          (coerce_result_type (exit_child type))
          (reported (coerce_result_type (exit_child type)) es) =
        wait_for_child-reports storage es text ns (exit_child type) hooks output r s p' q in
      subst (λ (b : List ℕ × ℕ). EndsWith b text ns hooks output r type f) (sym e)
        (subst
          (λ (g : Option (Failure F)).
            EndsWith (written storage es, exit_child type) text ns hooks output r type g)
          (reported-ending stages ending)
          (subst
            (λ (t : ResultType).
              EndsWith (written storage es, exit_child type) text ns hooks output r t
                (reported t es))
            (coerce-exit type) base))
