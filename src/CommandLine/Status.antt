-- ===== src/CommandLine/Status.antt =====
-- The exit status of `run` in src/cli/main.c.
use ctest.Prelude.{
  ℕ, zero, suc, ◌≡◌, refl, ap, ℤ, pos, negsuc, Bool, true, false, List, [], ◌∷◌, ◌++◌, Option, none,
  some, map, arith,
}
use ctest.CommandLine.{
  RunOption, Act, load_testsuite, destroy_testsuite, create_reporter, destroy_reporter,
  create_runner, destroy_runner, run_testsuites, runs, parse_options, load_all, end_load,
  load_testsuites, Env, status_of, with_runner, with_reporter, with_testsuites, run_parsed, run,
  ex_ok,
}

-- What a run does in which nothing fails.
abbrev pub full_run : Bool → List ℕ → List Act
full_run isolated suites =
    map load_testsuite suites
    ++ (create_reporter
        ∷ create_runner isolated
        ∷ run_testsuites suites
        ∷ destroy_runner
        ∷ destroy_reporter
        ∷ map destroy_testsuite suites)

-- All files are loaded, all their suites are handed to the runner and everything is destroyed
-- afterwards, and the runner has returned 0 for them.
abbrev pub HasPassed : Bool → List (Option ℕ) → (List ℕ → ℤ) → List Act → Type 0
HasPassed isolated files failure_count acts =
    (suites : List ℕ) × (files ≡ map some suites)
    × (failure_count suites ≡ pos 0)
    × (acts ≡ full_run isolated suites)

pub load_all-files :
    (files : List (Option ℕ)) → (load_all files).0 ≡ true → files ≡ map some (load_all files).1
unfolding load_all
load_all-files [] e = refl
load_all-files (none ∷ files) e = absurd (cc e)
load_all-files (some s ∷ files) e = ap (λ rest. some s ∷ rest) (load_all-files files e)

status_of-zero : (count : ℤ) → status_of count ≡ 0 → count ≡ pos 0
unfolding status_of
status_of-zero (pos zero) e = refl
status_of-zero (pos (suc n)) e = absurd (omega (arith, e))
status_of-zero (negsuc n) e = absurd (omega (arith, e))

-- The runs of the loaded suites that give 0.
with_reporter-passed :
    (reporter_created runner_created isolated : Bool) (failure_count : List ℕ → ℤ) (suites : List ℕ)
    → (with_reporter reporter_created (with_runner runner_created isolated failure_count suites)).0
      ≡ 0
    → (failure_count suites ≡ pos 0)
      × (with_reporter reporter_created
          (with_runner runner_created isolated failure_count suites)).1
        ≡ create_reporter
          ∷ create_runner isolated
          ∷ run_testsuites suites
          ∷ destroy_runner
          ∷ destroy_reporter
          ∷ []
unfolding with_reporter with_runner
with_reporter-passed false runner_created isolated failure_count suites e =
    absurd (omega (arith, e))
with_reporter-passed true false isolated failure_count suites e = absurd (omega (arith, e))
with_reporter-passed true true isolated failure_count suites e =
    (status_of-zero (failure_count suites) e, refl)

with_end_load-passed :
    (runs_isolated reporter_created runner_created : Bool) (failure_count : List ℕ → ℤ)
    (files : List (Option ℕ)) (loaded : Bool × List ℕ)
    → (loaded.0 ≡ true → files ≡ map some loaded.1)
    → (with_testsuites (end_load loaded) (λ suites.
        with_reporter reporter_created
          (with_runner runner_created runs_isolated failure_count suites))).0
      ≡ 0
    → HasPassed runs_isolated files failure_count
        (with_testsuites (end_load loaded) (λ suites.
          with_reporter reporter_created
            (with_runner runner_created runs_isolated failure_count suites))).1
unfolding with_testsuites end_load
with_end_load-passed runs_isolated reporter_created runner_created failure_count files
      (false, suites) all e =
    absurd (omega (arith, e))
with_end_load-passed runs_isolated reporter_created runner_created failure_count files
      (true, suites) all e =
    let (passed, acts) =
      with_reporter-passed reporter_created runner_created runs_isolated failure_count suites e in
    (
      suites,
      all refl,
      passed,
      ap (λ acts. map load_testsuite suites ++ (acts ++ map destroy_testsuite suites)) acts,
    )

load_testsuites-passed :
    (allocated isolated reporter_created runner_created : Bool) (failure_count : List ℕ → ℤ)
    (files : List (Option ℕ))
    → (with_testsuites (load_testsuites allocated files) (λ suites.
        with_reporter reporter_created
          (with_runner runner_created isolated failure_count suites))).0
      ≡ 0
    → HasPassed isolated files failure_count
        (with_testsuites (load_testsuites allocated files) (λ suites.
          with_reporter reporter_created
            (with_runner runner_created isolated failure_count suites))).1
unfolding with_testsuites load_testsuites
load_testsuites-passed false isolated reporter_created runner_created failure_count files e =
    absurd (omega (arith, e))
load_testsuites-passed true isolated reporter_created runner_created failure_count files e =
    with_end_load-passed isolated reporter_created runner_created failure_count files
      (load_all files) (load_all-files files) e

-- An exit status of 0 of a `run` that runs tests says that all files were loaded, that all their
-- suites were handed to one runner, which isolates as the options say, that the runner returned the
-- failure count 0 for them, and that the runner, the reporter and the suites were then destroyed.
pub run-passed :
    (options : List RunOption) (env : Env) (isolated : Bool)
    → parse_options true options ≡ runs isolated
    → (run options env).0 ≡ ex_ok
    → HasPassed isolated env.files env.failure_count (run options env).1
unfolding run run_parsed
run-passed options env isolated parsed e = rw parsed (
    load_testsuites-passed env.allocated isolated env.reporter_created env.runner_created
      env.failure_count env.files (rw parsed at e))
