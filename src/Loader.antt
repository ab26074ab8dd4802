-- ===== src/Loader.antt =====
-- The execution of one test case in src/exec/loader.c: fixture, setup, test and teardown, with the
-- operations through which the test module reports and aborts.
pub mod Execute
pub mod Clean
pub mod Expected
pub mod Outcome
pub mod Load
mod Examples
use ctest.Prelude.{ℕ, List, [], ◌∷◌, Option}

-- `ctest_dynamic_ops_abort_type_t`
pub data AbortType : Type 0 where
  abort_none : AbortType
  abort_skip : AbortType
  abort_fail : AbortType

-- What a function of the test module does, in order. Nothing follows an abort. A report is `none`
-- where ctest_failure_create_va gives NULL.
pub data Act : Type 0 where
  report : Option ℕ → Act
  abort : AbortType → Act

-- A failure: the stage in which it was reported, and its text.
pub record Failure : Type 0 where
  pub stage : ℕ
  pub text : ℕ

-- What the execution hooks are told.
pub data Told : Type 0 where
  on_stage_change : ℕ → Told
  on_skip : Option Failure → Told
  on_failure : Option Failure → Told

-- `ctest_stage_t`
abbrev pub stage_setup : ℕ
stage_setup = 0

abbrev pub stage_execution : ℕ
stage_execution = 1

abbrev pub stage_teardown : ℕ
stage_teardown = 2
