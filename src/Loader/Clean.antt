-- ===== src/Loader/Clean.antt =====
-- How the execution of a test case in src/exec/loader.c leaves the module and the fixture.
use ctest.Prelude.{
  ℕ, suc, ◌+◌, ◌≡◌, refl, ap, sym, subst, Bool, true, false, not, ◌||◌, List, [], ◌∷◌, Option, none,
  some, ltb, if◌then◌else◌, Bool-cases, inl, inr, arith,
}
use ctest.Loader.{AbortType, abort_fail, Act, report, abort, Failure}
use ctest.Loader.Execute.{
  DynamicOps, report_failure, set_type, free_fixture, finish_abort, run_in_abort, abort_from,
  dynamic_ops_abort, run_acts, enter_stage, after_teardown, end_teardown, run_teardown,
  teardown_stage, execution_stage, alloc_fixture, run_stages, testcase_op_execute, storage_size,
  hooked,
}

not-true : (b : Bool) → (false || not b) ≡ true → b ≡ false
not-true false p = refl
not-true true p = ground arith

abbrev as_count : Bool → ℕ
as_count b = if b then 1 else 0

-- How often a teardown function has to be called: once if there is one.
abbrev pub due : Option (List Act) → ℕ
due none = 0
due (some acts) = 1

-- While the test case runs: what is due, and a fixture that is not freed yet.
pub record IsRunning (old k : ℕ) (d : DynamicOps) : Type 0 where
  pub restores : d.old_dynamic_ops ≡ old
  pub owed : due d.teardown + d.torn_down ≡ k
  pub held : (if d.free_fixture then 1 else 0) + d.freed ≡ d.allocated

-- When it has ended: the hook is what it was, the fixture is freed, the teardown was called.
pub record IsClean (old k : ℕ) (d : DynamicOps) : Type 0 where
  pub restored : d.hook ≡ old
  pub called : d.torn_down ≡ k
  pub freed_all : d.freed ≡ d.allocated

finish_abort-IsClean :
    (old k : ℕ) (d : DynamicOps)
    → d.teardown ≡ none
    → IsRunning old k d
    → IsClean old k (finish_abort d)
unfolding finish_abort free_fixture
finish_abort-IsClean old k d e r =
    let z : due d.teardown ≡ 0 = ap due e in
    record { restored = r.restores; called = omega (arith, z, r.owed); freed_all = r.held }

run_in_abort-IsClean :
    (old k : ℕ) (acts : List Act) (d : DynamicOps)
    → d.teardown ≡ none
    → IsRunning old k d
    → IsClean old k (run_in_abort acts d)
unfolding run_in_abort report_failure set_type
run_in_abort-IsClean old k [] d e r = finish_abort-IsClean old k d e r
run_in_abort-IsClean old k (report text ∷ acts) d e r =
    run_in_abort-IsClean old k acts (report_failure text d) e
      (record { restores = r.restores; owed = r.owed; held = r.held })
run_in_abort-IsClean old k (abort t ∷ acts) d e r =
    finish_abort-IsClean old k (set_type t d) e
      (record { restores = r.restores; owed = r.owed; held = r.held })

abort_from-IsClean :
    (old k : ℕ) (teardown : Option (List Act)) (d : DynamicOps)
    → d.teardown ≡ teardown
    → IsRunning old k d
    → IsClean old k (abort_from teardown d)
unfolding abort_from
abort_from-IsClean old k none d e r = finish_abort-IsClean old k d e r
abort_from-IsClean old k (some acts) d e r =
    let z : due d.teardown ≡ 1 = ap due e in
    run_in_abort-IsClean old k acts (record d { teardown = none; torn_down = suc d.torn_down }) refl
      (record { restores = r.restores; owed = omega (arith, z, r.owed); held = r.held })

dynamic_ops_abort-IsClean :
    (old k : ℕ) (t : AbortType) (d : DynamicOps)
    → IsRunning old k d
    → IsClean old k (dynamic_ops_abort t d)
unfolding dynamic_ops_abort set_type
dynamic_ops_abort-IsClean old k t d r =
    abort_from-IsClean old k d.teardown (set_type t d) refl
      (record { restores = r.restores; owed = r.owed; held = r.held })

-- A function that returns leaves the test case running, with the teardown that it had; one that
-- aborts ends it.
abbrev IsRunningOr : ℕ → ℕ → Option (List Act) → Bool × DynamicOps → Type 0
IsRunningOr old k teardown (true, d) = IsRunning old k d × (d.teardown ≡ teardown)
IsRunningOr old k teardown (false, d) = IsClean old k d

run_acts-IsRunningOr :
    (old k : ℕ) (acts : List Act) (d : DynamicOps)
    → IsRunning old k d
    → IsRunningOr old k d.teardown (run_acts acts d)
unfolding run_acts report_failure
run_acts-IsRunningOr old k [] d r = (r, refl)
run_acts-IsRunningOr old k (report text ∷ acts) d r =
    run_acts-IsRunningOr old k acts (report_failure text d)
      (record { restores = r.restores; owed = r.owed; held = r.held })
run_acts-IsRunningOr old k (abort t ∷ acts) d r = dynamic_ops_abort-IsClean old k t d r

after_teardown-IsClean :
    (old k : ℕ) (f : Option Failure) (d : DynamicOps)
    → d.teardown ≡ none
    → IsRunning old k d
    → IsClean old k (after_teardown f d)
unfolding after_teardown free_fixture
after_teardown-IsClean old k (some f) d e r = dynamic_ops_abort-IsClean old k abort_fail d r
after_teardown-IsClean old k none d e r =
    let z : due d.teardown ≡ 0 = ap due e in
    record { restored = r.restores; called = omega (arith, z, r.owed); freed_all = r.held }

end_teardown-IsClean :
    (old k : ℕ) (b : Bool × DynamicOps) → IsRunningOr old k none b → IsClean old k (end_teardown b)
unfolding end_teardown
end_teardown-IsClean old k (true, d) (r, e) = after_teardown-IsClean old k d.failure d e r
end_teardown-IsClean old k (false, d) c = c

run_teardown-IsClean :
    (old k : ℕ) (teardown : Option (List Act)) (d : DynamicOps)
    → d.teardown ≡ teardown
    → IsRunning old k d
    → IsClean old k (run_teardown teardown d)
unfolding run_teardown
run_teardown-IsClean old k none d e r = end_teardown-IsClean old k (true, d) (r, e)
run_teardown-IsClean old k (some acts) d e r =
    let z : due d.teardown ≡ 1 = ap due e in
    let d' : DynamicOps = record d { teardown = none; torn_down = suc d.torn_down } in
    end_teardown-IsClean old k (run_acts acts d') (
      run_acts-IsRunningOr old k acts d'
        (record { restores = r.restores; owed = omega (arith, z, r.owed); held = r.held }))

teardown_stage-IsClean :
    (old k : ℕ) (t : Option (List Act)) (b : Bool × DynamicOps)
    → IsRunningOr old k t b
    → IsClean old k (teardown_stage b)
unfolding teardown_stage enter_stage
teardown_stage-IsClean old k t (true, d) (r, e) =
    run_teardown-IsClean old k d.teardown (enter_stage _ d) refl
      (record { restores = r.restores; owed = r.owed; held = r.held })
teardown_stage-IsClean old k t (false, d) c = c

execution_stage-IsClean :
    (old k : ℕ) (t : Option (List Act)) (body : List Act) (b : Bool × DynamicOps)
    → IsRunningOr old k t b
    → IsClean old k (execution_stage body b)
unfolding execution_stage enter_stage
execution_stage-IsClean old k t body (true, d) (r, e) =
    teardown_stage-IsClean old k d.teardown (run_acts body (enter_stage _ d)) (
      run_acts-IsRunningOr old k body (enter_stage _ d)
        (record { restores = r.restores; owed = r.owed; held = r.held }))
execution_stage-IsClean old k t body (false, d) c = c

-- The fixture is there if it fits or if calloc gives it.
pub alloc_fixture-true :
    (allocated : Bool) (size : ℕ) (d : DynamicOps)
    → (allocated || not (ltb storage_size size)) ≡ true
    → d.free_fixture ≡ false
    → (d' : DynamicOps) × ((alloc_fixture allocated size d ≡ (true, d'))
        × (d'.failure ≡ d.failure)
        × (d'.abort_type ≡ d.abort_type)
        × (d'.stage ≡ d.stage)
        × (d'.told ≡ d.told)
        × (d'.teardown ≡ d.teardown)
        × ((old k : ℕ) → IsRunning old k d → IsRunning old k d'))
unfolding alloc_fixture
alloc_fixture-true true size d p f = elim (Bool-cases (ltb storage_size size)) [
  | inl e ↦ rw (e) (
    record d { free_fixture = true; allocated = suc d.allocated },
    (
      refl,
      refl,
      refl,
      refl,
      refl,
      refl,
      λ old k r.
          let z : as_count d.free_fixture ≡ 0 = ap as_count f in
          record { restores = r.restores; owed = r.owed; held = omega (arith, z, r.held) },
    ),
  )
  | inr e ↦ rw (e) (d, (refl, refl, refl, refl, refl, refl, λ old k r. r))
]
alloc_fixture-true false size d p f =
    let e : ltb storage_size size ≡ false = not-true (ltb storage_size size) p in
    rw (e) (d, (refl, refl, refl, refl, refl, refl, λ old k r. r))

-- Whatever setup, test and teardown report, and wherever they abort, also in a teardown that is
-- called because of an abort, the test case ends with the module's hook as it was, the fixture freed
-- if it was allocated, and the teardown called once, if the fixture fits or can be allocated.
pub testcase_op_execute-IsClean :
    (this hook : ℕ) (allocated : Bool) (size : ℕ) (no_memory : Option ℕ) (setup body : List Act)
    (teardown : Option (List Act))
    → (allocated || not (ltb storage_size size)) ≡ true
    → IsClean hook
        (due teardown)
        (testcase_op_execute this hook allocated size no_memory setup body teardown)
unfolding testcase_op_execute run_stages hooked enter_stage
testcase_op_execute-IsClean this hook allocated size no_memory setup body teardown p =
    let d : DynamicOps = hooked this hook teardown in
    let (d', (e, _, _, _, _, td, running)) = alloc_fixture-true allocated size d p refl in
    let r : IsRunning hook (due teardown) d' =
      running hook (due teardown) (record { restores = refl; owed = omega arith; held = refl }) in
    subst
      (λ (b : Bool × DynamicOps). IsClean hook (due teardown) (run_stages no_memory setup body b))
      (sym e)
      (execution_stage-IsClean hook (due teardown) d'.teardown body (run_acts setup d')
        (run_acts-IsRunningOr hook (due teardown) setup d' r))
