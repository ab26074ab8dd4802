-- ===== src/Loader/Execute.antt =====
-- testcase_op_execute__, dynamic_ops_abort__ and dynamic_ops_op_report_failure__ of
-- src/exec/loader.c, for a test module that has dynamic operations.
use ctest.Prelude.{
  ℕ, suc, ◌+◌, Bool, true, false, List, [], ◌∷◌, ◌++◌, Option, none, some, ltb, if◌then◌else◌,
}
use ctest.Loader.{
  AbortType, abort_none, abort_skip, abort_fail, Act, report, abort, Failure, Told, on_stage_change,
  on_skip, on_failure, stage_setup, stage_execution, stage_teardown,
}

-- `loader_dynamic_ops_t__`, with the hook of the module, what the execution hooks were told, and
-- counts: fixtures allocated and freed, and calls of the teardown function.
pub record DynamicOps : Type 0 where
  pub hook : ℕ
  pub old_dynamic_ops : ℕ
  pub failure : Option Failure
  pub stage : ℕ
  pub teardown : Option (List Act)
  pub abort_type : AbortType
  pub free_fixture : Bool
  pub told : List Told
  pub allocated : ℕ
  pub freed : ℕ
  pub torn_down : ℕ

-- What ctest_failure_create_va gives in a stage: NULL, or a failure with the stage and the text.
unfoldable pub failure_create : ℕ → Option ℕ → Option Failure
failure_create stage none = none
failure_create stage (some text) = some (record { stage = stage; text = text })

-- If multiple errors are reported, the first one is kept that could be created.
unfoldable pub keep_first : Option Failure → Option Failure → Option Failure
keep_first none f = f
keep_first (some g) f = some g

unfoldable pub report_failure : Option ℕ → DynamicOps → DynamicOps
report_failure text d = record d { failure = keep_first d.failure (failure_create d.stage text) }

-- The type of the first abort is kept.
unfoldable pub keep_type : AbortType → AbortType → AbortType
keep_type abort_none t = t
keep_type old t = old

unfoldable pub set_type : AbortType → DynamicOps → DynamicOps
set_type t d = record d { abort_type = keep_type d.abort_type t }

unfoldable pub free_fixture : DynamicOps → DynamicOps
free_fixture d = record d {
  free_fixture = false;
  freed = (if d.free_fixture then 1 else 0) + d.freed;
}

-- The hook that ends the execution.
unfoldable pub ends_with : AbortType → Option Failure → Told
ends_with abort_skip f = on_skip f
ends_with t f = on_failure f

-- dynamic_ops_abort__ after the teardown.
unfoldable pub finish_abort : DynamicOps → DynamicOps
finish_abort d = record (free_fixture d) {
  hook = d.old_dynamic_ops;
  failure = none;
  told = d.told ++ (ends_with d.abort_type d.failure ∷ []);
}

-- The teardown function within an abort: one that aborts again finds no teardown to call.
unfoldable pub run_in_abort : List Act → DynamicOps → DynamicOps
run_in_abort [] d = finish_abort d
run_in_abort (report text ∷ acts) d = run_in_abort acts (report_failure text d)
run_in_abort (abort t ∷ acts) d = finish_abort (set_type t d)

-- The teardown function is cleared before it is called.
unfoldable pub abort_from : Option (List Act) → DynamicOps → DynamicOps
abort_from none d = finish_abort d
abort_from (some acts) d =
    run_in_abort acts (record d { teardown = none; torn_down = suc d.torn_down })

unfoldable pub dynamic_ops_abort : AbortType → DynamicOps → DynamicOps
dynamic_ops_abort t d = abort_from d.teardown (set_type t d)

-- A function of the module: whether it returns, and the state.
unfoldable pub run_acts : List Act → DynamicOps → Bool × DynamicOps
run_acts [] d = (true, d)
run_acts (report text ∷ acts) d = run_acts acts (report_failure text d)
run_acts (abort t ∷ acts) d = (false, dynamic_ops_abort t d)

unfoldable pub enter_stage : ℕ → DynamicOps → DynamicOps
enter_stage stage d = record d { stage = stage; told = d.told ++ (on_stage_change stage ∷ []) }

-- What is left after the teardown function returns: failures without an abort become one.
unfoldable pub after_teardown : Option Failure → DynamicOps → DynamicOps
after_teardown (some f) d = dynamic_ops_abort abort_fail d
after_teardown none d = free_fixture (record d { hook = d.old_dynamic_ops })

unfoldable pub end_teardown : Bool × DynamicOps → DynamicOps
end_teardown (true, d) = after_teardown d.failure d
end_teardown (false, d) = d

unfoldable pub run_teardown : Option (List Act) → DynamicOps → DynamicOps
run_teardown none d = end_teardown (true, d)
run_teardown (some acts) d =
    end_teardown (run_acts acts (record d { teardown = none; torn_down = suc d.torn_down }))

unfoldable pub teardown_stage : Bool × DynamicOps → DynamicOps
teardown_stage (true, d) = let d' = enter_stage stage_teardown d in run_teardown d'.teardown d'
teardown_stage (false, d) = d

-- The test itself, if setup returns.
unfoldable pub execution_stage : List Act → Bool × DynamicOps → DynamicOps
execution_stage body (true, d) = teardown_stage (run_acts body (enter_stage stage_execution d))
execution_stage body (false, d) = d

-- sizeof(fixture_storage)
abbrev pub storage_size : ℕ
storage_size = 128

-- What calloc gives for a fixture that is larger than the storage.
unfoldable pub alloc_fixture : Bool → ℕ → DynamicOps → Bool × DynamicOps
alloc_fixture allocated size d =
    if ltb storage_size size
    then (if allocated
        then (true, record d { free_fixture = true; allocated = suc d.allocated })
        else (false, d))
    else (true, d)

-- The stages once the fixture is there; without it the hook is told, and the function is left.
unfoldable pub run_stages : Option ℕ → List Act → List Act → Bool × DynamicOps → DynamicOps
run_stages no_memory setup body (true, d) = execution_stage body (run_acts setup d)
run_stages no_memory setup body (false, d) = record d {
  told = d.told ++ (on_failure (failure_create stage_setup no_memory) ∷ []);
}

-- The dynamic operations at the first stage. `this` is their address, which the module's hook is
-- set to, and `hook` what it was before.
unfoldable pub hooked : ℕ → ℕ → Option (List Act) → DynamicOps
hooked this hook teardown = enter_stage stage_setup (record {
  hook = this;
  old_dynamic_ops = hook;
  failure = none;
  stage = stage_setup;
  teardown = teardown;
  abort_type = abort_none;
  free_fixture = false;
  told = [];
  allocated = 0;
  freed = 0;
  torn_down = 0;
})

-- A missing setup function does nothing.
unfoldable pub testcase_op_execute :
    ℕ → ℕ → Bool → ℕ → Option ℕ → List Act → List Act → Option (List Act) → DynamicOps
testcase_op_execute this hook allocated size no_memory setup body teardown =
    run_stages no_memory setup body (alloc_fixture allocated size (hooked this hook teardown))
