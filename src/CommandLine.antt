-- ===== src/CommandLine.antt =====
-- src/cli/main.c: the command `run`, what it loads and creates, and the exit status.
pub mod Freed
pub mod Status
pub mod Main
pub mod Listed
mod Examples
use ctest.Prelude.{
  ℕ, zero, suc, ◌+◌, ℤ, pos, negsuc, Bool, true, false, List, [], ◌∷◌, ◌++◌, Option, none, some,
  ◌==◌, if◌then◌else◌, map,
}

-- sysexits.h
abbrev pub ex_ok : ℕ
ex_ok = 0

abbrev pub ex_usage : ℕ
ex_usage = 64

abbrev pub ex_unavailable : ℕ
ex_unavailable = 69

-- What getopt gives for the options of `run`.
pub data RunOption : Type 0 where
  option_n : RunOption
  option_h : RunOption
  option_unknown : RunOption

-- What the command does: suites, the reporter and the runner are made and destroyed, and the suites
-- are run, isolated or not.
pub data Act : Type 0 where
  load_testsuite : ℕ → Act
  destroy_testsuite : ℕ → Act
  create_reporter : Act
  destroy_reporter : Act
  create_runner : Bool → Act
  destroy_runner : Act
  run_testsuites : List ℕ → Act

-- The loop over the options: an exit status, or whether the tests are isolated.
pub data Parsed : Type 0 where
  exits : ℕ → Parsed
  runs : Bool → Parsed

unfoldable pub parse_options : Bool → List RunOption → Parsed
parse_options isolated [] = runs isolated
parse_options isolated (option_n ∷ options) = parse_options false options
parse_options isolated (option_h ∷ options) = exits ex_ok
parse_options isolated (option_unknown ∷ options) = exits ex_usage

-- The loop of load_testsuites__, by what ctest_load_testsuite gives for each file: whether all are
-- loaded, and the suites that are.
unfoldable pub load_all : List (Option ℕ) → Bool × List ℕ
load_all [] = (true, [])
load_all (none ∷ files) = (false, [])
load_all (some s ∷ files) = let (all, rest) = load_all files in (all, s ∷ rest)

unfoldable pub end_load : Bool × List ℕ → Option (List ℕ) × List Act
end_load (true, suites) = (some suites, map load_testsuite suites)
end_load (false, suites) = (none, map load_testsuite suites ++ map destroy_testsuite suites)

-- load_testsuites__; `allocated` says whether its two allocations succeed.
unfoldable pub load_testsuites : Bool → List (Option ℕ) → Option (List ℕ) × List Act
load_testsuites false files = (none, [])
load_testsuites true files = end_load (load_all files)

-- What the rest of the system answers.
pub record Env : Type 0 where
  pub allocated : Bool
  pub files : List (Option ℕ)
  pub reporter_created : Bool
  pub runner_created : Bool
  pub failure_count : List ℕ → ℤ

-- The exit status by `failure_count`.
unfoldable pub status_of : ℤ → ℕ
status_of (pos zero) = ex_ok
status_of (pos (suc n)) = ex_unavailable
status_of (negsuc n) = ex_unavailable

unfoldable pub with_runner : Bool → Bool → (List ℕ → ℤ) → List ℕ → ℕ × List Act
with_runner false isolated failure_count suites = (ex_unavailable, [])
with_runner true isolated failure_count suites = (
  status_of (failure_count suites),
  create_runner isolated ∷ run_testsuites suites ∷ destroy_runner ∷ [],
)

unfoldable pub with_reporter : Bool → ℕ × List Act → ℕ × List Act
with_reporter false (status, acts) = (ex_unavailable, [])
with_reporter true (status, acts) = (status, create_reporter ∷ (acts ++ (destroy_reporter ∷ [])))

unfoldable pub with_testsuites : Option (List ℕ) × List Act → (List ℕ → ℕ × List Act) → ℕ × List Act
with_testsuites (none, loads) run = (ex_unavailable, loads)
with_testsuites (some suites, loads) run =
    let (status, acts) = run suites in (status, loads ++ (acts ++ map destroy_testsuite suites))

unfoldable pub run_parsed : Parsed → Env → ℕ × List Act
run_parsed (exits status) env = (status, [])
run_parsed (runs isolated) env =
    with_testsuites (load_testsuites env.allocated env.files) (λ suites.
      with_reporter env.reporter_created
        (with_runner env.runner_created isolated env.failure_count suites))

-- run__: the exit status, and what is done.
unfoldable pub run : List RunOption → Env → ℕ × List Act
run options env = run_parsed (parse_options true options) env
