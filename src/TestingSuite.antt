-- ===== src/TestingSuite.antt =====
-- src/exec/testing_testsuite.c: a suite with a test for each set of kinds of test cases, for the tests
-- of runners and reporters.
pub mod Create
pub mod Freed
pub mod Enumerated
pub mod Complete
mod Examples
use ctest.Prelude.{
  ℕ, zero, suc, ◌+◌, ◌/◌, ◌%◌, ◌^◌, Bool, true, false, List, [], ◌∷◌, ◌++◌, Option, none, some,
  ◌==◌, ltb, if◌then◌else◌, map,
}
use ctest.Loader.{stage_setup, stage_execution, stage_teardown}
use ctest.Loader.Load.{Act, allocate, release}
use ctest.Memory.{text_bytes}

-- The operation tables of the test cases.
pub data Kind : Type 0 where
  success : Kind
  skip : Kind
  setup_failure : Kind
  teardown_failure : Kind
  failure : Kind

-- A string of its own.
pub record Text : Type 0 where
  pub address : ℕ
  pub bytes : List ℕ

pub record Testcase : Type 0 where
  pub address : ℕ
  pub ops : Kind
  pub name : Text
  pub test : ℕ

pub record Test : Type 0 where
  pub address : ℕ
  pub name : Text
  pub testsuite : ℕ
  pub array : ℕ
  pub testcases : List Testcase

pub record Testsuite : Type 0 where
  pub address : ℕ
  pub name : Text
  pub array : ℕ
  pub tests : List Test

-- What malloc and calloc give, an address or NULL.
pub record TestcaseAnswers : Type 0 where
  pub name : Option ℕ
  pub block : Option ℕ

pub record TestAnswers : Type 0 where
  pub name : Option ℕ
  pub array : Option ℕ
  pub block : Option ℕ
  pub testcase : ℕ → TestcaseAnswers

pub record SuiteAnswers : Type 0 where
  pub name : Option ℕ
  pub array : Option ℕ
  pub block : Option ℕ
  pub test : ℕ → TestAnswers

-- With the text that vsnprintf prints, and what malloc gives. `none` is also where vsnprintf fails:
-- then malloc is not called, and NULL is returned alike.
unfoldable pub vsnprintfdup : List ℕ → Option ℕ → Option Text
vsnprintfdup text none = none
vsnprintfdup text (some a) = some (record { address = a; bytes = text_bytes text })

-- A number in decimal, on fuel: `n` for `n` is enough.
unfoldable pub digits : ℕ → ℕ → List ℕ
digits zero n = (48 + n % 10) ∷ []
digits (suc fuel) n =
    let rest = digits fuel (n / 10) in
    if ltb n 10 then (48 + n) ∷ [] else rest ++ (48 + n % 10) ∷ []

-- `%zd`
abbrev pub decimal : ℕ → List ℕ
decimal n = digits n n

-- What a test case prints, and what it tells the hooks: a stage and a message.
pub data Done : Type 0 where
  print_out : List ℕ → Done
  print_err : List ℕ → Done
  on_skip : ℕ → List ℕ → Done
  on_failure : ℕ → List ℕ → Done

-- Three lines of each stream, `what` being what has failed.
unfoldable pub print_lines : List ℕ → List Done
print_lines what =
    let line : List ℕ → ℕ → List ℕ = λ stream n.
      stream
      ++ (what
          ++ ((102 ∷ 97 ∷ 105 ∷ 108 ∷ 117 ∷ 114 ∷ 101 ∷ 32 ∷ 108 ∷ 105 ∷ 110 ∷ 101 ∷ 32 ∷ [])
              ++ (48 + n) ∷ 10 ∷ [])) in
    let out : ℕ → Done = λ n. print_out (line (83 ∷ 84 ∷ 68 ∷ 79 ∷ 85 ∷ 84 ∷ 58 ∷ 32 ∷ []) n) in
    let err : ℕ → Done = λ n. print_err (line (83 ∷ 84 ∷ 68 ∷ 69 ∷ 82 ∷ 82 ∷ 58 ∷ 32 ∷ []) n) in
    out 1 ∷ out 2 ∷ out 3 ∷ err 1 ∷ err 2 ∷ err 3 ∷ []

-- A name in quotes, behind `text`.
unfoldable pub quoting : List ℕ → List ℕ → List ℕ
quoting text name = text ++ 34 ∷ (name ++ 34 ∷ [])

-- The operations that execute a test case, by the table; `name` is without its 0.
unfoldable pub testcase_op_execute : Kind → List ℕ → List Done
testcase_op_execute success name = []
testcase_op_execute skip name =
    on_skip stage_setup (115 ∷ 107 ∷ 105 ∷ 112 ∷ 32 ∷ 116 ∷ 101 ∷ 115 ∷ 116 ∷ []) ∷ []
testcase_op_execute setup_failure name =
    print_lines (115 ∷ 101 ∷ 116 ∷ 117 ∷ 112 ∷ 32 ∷ [])
    ++ on_failure stage_setup (
        quoting
          (102 ∷ 97 ∷ 105 ∷ 108 ∷ 101 ∷ 100 ∷ 32 ∷ 116 ∷ 111 ∷ 32 ∷ 115 ∷ 101 ∷ 116 ∷ 32 ∷ 117 ∷ 112
            ∷ 32 ∷ [])
          name)
      ∷ []
testcase_op_execute teardown_failure name =
    print_lines (116 ∷ 101 ∷ 97 ∷ 114 ∷ 100 ∷ 111 ∷ 119 ∷ 110 ∷ 32 ∷ [])
    ++ on_failure stage_teardown (
        quoting
          (102 ∷ 97 ∷ 105 ∷ 108 ∷ 101 ∷ 100 ∷ 32 ∷ 116 ∷ 111 ∷ 32 ∷ 116 ∷ 101 ∷ 97 ∷ 114 ∷ 32 ∷ 100
            ∷ 111 ∷ 119 ∷ 110 ∷ 32 ∷ [])
          name)
      ∷ []
testcase_op_execute failure name =
    print_lines []
    ++ on_failure stage_execution (
        quoting
          (102 ∷ 97 ∷ 105 ∷ 108 ∷ 101 ∷ 100 ∷ 32 ∷ 116 ∷ 111 ∷ 32 ∷ 101 ∷ 120 ∷ 101 ∷ 99 ∷ 117 ∷ 116
            ∷ 101 ∷ 32 ∷ [])
          name)
      ∷ []
