-- ===== src/Loader/Outcome.antt =====
-- What the execution hooks are told of a test case that src/exec/loader.c executes.
use ctest.Prelude.{
  ℕ, suc, ◌≡◌, refl, ap, ◌∙◌, sym, Bool, true, false, not, ◌||◌, List, [], ◌∷◌, ◌++◌, Option, none,
  some, ltb, append-nil, append_assoc, Option-cases, inl, inr, arith,
}
use ctest.Loader.{
  AbortType, abort_none, abort_fail, Act, report, abort, Failure, Told, on_stage_change,
  stage_setup, stage_execution, stage_teardown,
}
use ctest.Loader.Execute.{
  DynamicOps, report_failure, keep_type, set_type, free_fixture, ends_with, finish_abort,
  run_in_abort, abort_from, dynamic_ops_abort, run_acts, enter_stage, after_teardown, end_teardown,
  run_teardown, teardown_stage, execution_stage, run_stages, testcase_op_execute, storage_size,
  hooked,
}
use ctest.Loader.Clean.{alloc_fixture-true}
use ctest.Loader.Expected.{
  first_failure, first_abort, winner, ending, acts_of, aborted, completed, from_execution,
  from_setup, first_failure-nil, first_failure-abort, first_failure-report, or_type,
  ends_with-winner, winner-none,
}

abbrev get_type : Option AbortType → AbortType → AbortType
get_type none d = d
get_type (some t) d = t

some-injective : (t u : AbortType) → some t ≡ some u → t ≡ u
some-injective t u e = ap (λ (o : Option AbortType). get_type o t) e

run_in_abort-told :
    (acts : List Act) (d : DynamicOps)
    → (run_in_abort acts d).told
      ≡ d.told
        ++ (ends_with
              (or_type (first_abort acts) d.abort_type)
              (first_failure d.stage acts d.failure)
            ∷ [])
unfolding run_in_abort finish_abort set_type report_failure free_fixture
run_in_abort-told [] d =
    ap (λ (f : Option Failure). d.told ++ (ends_with d.abort_type f ∷ []))
      (sym (first_failure-nil d.stage d.failure))
run_in_abort-told (report text ∷ acts) d =
    run_in_abort-told acts (report_failure text d)
    ∙ ap
        (λ (f : Option Failure).
          d.told ++ (ends_with (or_type (first_abort acts) d.abort_type) f ∷ []))
        (first_failure-report d.stage text acts d.failure)
run_in_abort-told (abort t ∷ acts) d =
    ap (λ (f : Option Failure). d.told ++ (ends_with (keep_type d.abort_type t) f ∷ []))
      (sym (first_failure-abort d.stage t acts d.failure))

dynamic_ops_abort-told :
    (t : AbortType) (d : DynamicOps) (teardown : Option (List Act))
    → d.teardown ≡ teardown
    → d.abort_type ≡ abort_none
    → (dynamic_ops_abort t d).told ≡ d.told ++ (aborted d.stage t teardown d.failure ∷ [])
unfolding dynamic_ops_abort abort_from set_type finish_abort free_fixture
dynamic_ops_abort-told t d none e a =
    rw (e, a, dynamic_ops_abort)
      (ap (λ (x : Told). d.told ++ (x ∷ []))
        (ends_with-winner none t d.failure
          ∙ ap (ending (winner t none)) (sym (first_failure-nil d.stage d.failure))))
dynamic_ops_abort-told t d (some acts) e a =
    let d' : DynamicOps = record d {
      teardown = none;
      abort_type = keep_type abort_none t;
      torn_down = suc d.torn_down;
    } in
    rw (e, a, dynamic_ops_abort)
      (run_in_abort-told acts d'
        ∙ ap (λ (x : Told). d.told ++ (x ∷ []))
            (ends_with-winner (first_abort acts) t (first_failure d.stage acts d.failure)))

-- The state in which a function returns or aborts.
abbrev with_first : List Act → DynamicOps → DynamicOps
with_first acts d = record d { failure = first_failure d.stage acts d.failure }

run_acts-none :
    (acts : List Act) (d : DynamicOps)
    → first_abort acts ≡ none
    → run_acts acts d ≡ (true, with_first acts d)
unfolding run_acts report_failure
run_acts-none [] d e =
    λ i. (true, record d { failure = sym (first_failure-nil d.stage d.failure) i })
run_acts-none (report text ∷ acts) d e = run_acts-none acts (report_failure text d) e ∙ λ i.
    (true, record d { failure = first_failure-report d.stage text acts d.failure i })
run_acts-none (abort t ∷ acts) d e = ground arith

run_acts-some :
    (acts : List Act) (d : DynamicOps) (t : AbortType)
    → first_abort acts ≡ some t
    → run_acts acts d ≡ (false, dynamic_ops_abort t (with_first acts d))
unfolding run_acts report_failure
run_acts-some [] d t e = ground arith
run_acts-some (report text ∷ acts) d t e = run_acts-some acts (report_failure text d) t e ∙ λ i. (
  false,
  dynamic_ops_abort t (record d { failure = first_failure-report d.stage text acts d.failure i }),
)
run_acts-some (abort t' ∷ acts) d t e = λ i. (
  false,
  dynamic_ops_abort (some-injective t' t e i)
      (record d { failure = sym (first_failure-abort d.stage t' acts d.failure) i }),
)

after_teardown-told :
    (f : Option Failure) (d : DynamicOps)
    → d.failure ≡ f
    → d.teardown ≡ none
    → d.abort_type ≡ abort_none
    → (after_teardown f d).told ≡ d.told ++ completed none f
unfolding after_teardown free_fixture ends_with keep_type
after_teardown-told none d e td a = sym (append-nil d.told)
after_teardown-told (some f) d e td a =
    dynamic_ops_abort-told abort_fail d none td a
    ∙ ap (λ (g : Option Failure). d.told ++ (ending abort_fail (first_failure d.stage [] g) ∷ [])) e

end_teardown-told :
    (acts : List Act) (d : DynamicOps)
    → d.teardown ≡ none
    → d.abort_type ≡ abort_none
    → (end_teardown (run_acts acts d)).told
      ≡ d.told ++ completed (first_abort acts) (first_failure d.stage acts d.failure)
unfolding end_teardown
end_teardown-told acts d td a = elim (Option-cases (first_abort acts)) [
  | inl e ↦
      rw (run_acts-none acts d e, e)
        (after_teardown-told (first_failure d.stage acts d.failure) (with_first acts d) refl td a)
  | inr (t, e) ↦
      let f : Option Failure = first_failure d.stage acts d.failure in
      rw (run_acts-some acts d t e, e)
        (dynamic_ops_abort-told t (with_first acts d) none td a
          ∙ ap (λ (g : Option Failure). d.told ++ (ending (winner t none) g ∷ []))
              (first_failure-nil d.stage f)
          ∙ ap (λ (u : AbortType). d.told ++ (ending u f ∷ [])) (winner-none t))
]

run_teardown-told :
    (teardown : Option (List Act)) (d : DynamicOps)
    → d.teardown ≡ teardown
    → d.abort_type ≡ abort_none
    → (run_teardown teardown d).told
      ≡ d.told
        ++ completed
            (first_abort (acts_of teardown))
            (first_failure d.stage (acts_of teardown) d.failure)
unfolding run_teardown end_teardown
run_teardown-told none d td a =
    after_teardown-told d.failure d refl td a
    ∙ ap (λ (f : Option Failure). d.told ++ completed none f)
        (sym (first_failure-nil d.stage d.failure))
run_teardown-told (some acts) d td a =
    end_teardown-told acts (record d { teardown = none; torn_down = suc d.torn_down }) refl a

teardown_stage-told :
    (body : List Act) (d : DynamicOps) (teardown : Option (List Act))
    → d.teardown ≡ teardown
    → d.abort_type ≡ abort_none
    → d.stage ≡ stage_execution
    → (teardown_stage (run_acts body d)).told
      ≡ d.told ++ from_execution (first_abort body) teardown (first_failure d.stage body d.failure)
unfolding teardown_stage enter_stage
teardown_stage-told body d teardown td a st = elim (Option-cases (first_abort body)) [
  | inl e ↦
      let d' : DynamicOps = enter_stage stage_teardown (with_first body d) in
      rw (run_acts-none body d e, e)
        (ap (λ (o : Option (List Act)). (run_teardown o d').told) td
          ∙ run_teardown-told teardown d' td a
          ∙ append_assoc d.told (on_stage_change stage_teardown ∷ []) _)
  | inr (t, e) ↦
      let f : Option Failure = first_failure d.stage body d.failure in
      rw (run_acts-some body d t e, e)
        (dynamic_ops_abort-told t (with_first body d) teardown td a
          ∙ ap (λ (s : ℕ). d.told ++ (aborted s t teardown f ∷ [])) st)
]

execution_stage-told :
    (setup body : List Act) (d : DynamicOps) (teardown : Option (List Act))
    → d.teardown ≡ teardown
    → d.abort_type ≡ abort_none
    → d.stage ≡ stage_setup
    → (execution_stage body (run_acts setup d)).told
      ≡ d.told
        ++ from_setup (first_abort setup) body teardown (first_failure d.stage setup d.failure)
unfolding execution_stage enter_stage
execution_stage-told setup body d teardown td a st = elim (Option-cases (first_abort setup)) [
  | inl e ↦
      rw (run_acts-none setup d e, e)
        (teardown_stage-told body (enter_stage stage_execution (with_first setup d)) teardown td a
            refl
          ∙ append_assoc d.told (on_stage_change stage_execution ∷ []) _)
  | inr (t, e) ↦
      let f : Option Failure = first_failure d.stage setup d.failure in
      rw (run_acts-some setup d t e, e)
        (dynamic_ops_abort-told t (with_first setup d) teardown td a
          ∙ ap (λ (s : ℕ). d.told ++ (aborted s t teardown f ∷ [])) st)
]

-- The hooks are told the stages that the test case reaches and then, once at most, how it ended: a
-- skip or a failure by the first abort, with the first failure reported before or in the teardown
-- and the stage of it; a failure if there is a report but no abort; and nothing if there is neither.
-- A report whose failure cannot be allocated is none. The fixture fits or can be allocated.
pub testcase_op_execute-told :
    (this hook : ℕ) (allocated : Bool) (size : ℕ) (no_memory : Option ℕ) (setup body : List Act)
    (teardown : Option (List Act))
    → (allocated || not (ltb storage_size size)) ≡ true
    → (testcase_op_execute this hook allocated size no_memory setup body teardown).told
      ≡ on_stage_change stage_setup
        ∷ from_setup (first_abort setup) body teardown (first_failure stage_setup setup none)
unfolding testcase_op_execute run_stages hooked enter_stage
testcase_op_execute-told this hook allocated size no_memory setup body teardown p =
    let d : DynamicOps = hooked this hook teardown in
    let (d', (e, f, a, st, told, td, _)) = alloc_fixture-true allocated size d p refl in
    ap (λ (b : Bool × DynamicOps). (run_stages no_memory setup body b).told) e
    ∙ execution_stage-told setup body d' teardown td a st
    ∙ (λ i.
        told i ++ from_setup (first_abort setup) body teardown (first_failure (st i) setup (f i)))
