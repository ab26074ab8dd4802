-- ===== src/CommandLine/Examples.antt =====
-- Runs of src/cli/main.c.
use ctest.Prelude.{
  total, ◌≡◌, refl, pos, true, false, [], ◌∷◌, none, some, ◌++◌, ◌==◌, if◌then◌else◌,
}
use ctest.CommandLine.{
  option_n, ex_ok, ex_unavailable, Env, parse_options, runs, status_of, load_all, load_testsuites,
  end_load, with_runner, with_reporter, with_testsuites, run_parsed, run,
}
use ctest.CommandLine.Freed.{makes, destroys, testsuite}
use ctest.CommandLine.Main.{
  Listing, CommandEnv, run_name, skip_prefix, after_prefix, testsuite_prefix, get_testsuite_name,
  ls_collection, ls_parsed, parse_ls, ls, main,
}
use ctest.CommandLine.Listed.{HasListed, ls-listed, main-IsFreed}
use ctest.CommandLine.Status.{HasPassed, run-passed}

abbrev two_suites : Env
two_suites = record {
  allocated = true;
  files = some 1 ∷ some 2 ∷ [];
  reporter_created = true;
  runner_created = true;
  failure_count = λ suites. pos 0;
}

abbrev missing_suite : Env
missing_suite = record {
  allocated = true;
  files = some 1 ∷ none ∷ some 2 ∷ [];
  reporter_created = true;
  runner_created = true;
  failure_count = λ suites. pos 0;
}

parse_n : parse_options true (option_n ∷ []) ≡ runs false
unfolding parse_options
parse_n = refl

exits_with_0 : (run (option_n ∷ []) two_suites).0 ≡ ex_ok
unfolding run run_parsed parse_options with_testsuites load_testsuites end_load load_all
    with_reporter with_runner status_of
exits_with_0 = refl

run-passed_example :
    HasPassed false two_suites.files two_suites.failure_count (run (option_n ∷ []) two_suites).1
run-passed_example = run-passed (option_n ∷ []) two_suites false parse_n exits_with_0

missing_exit : (run [] missing_suite).0 ≡ ex_unavailable
unfolding run run_parsed parse_options with_testsuites load_testsuites end_load load_all
missing_exit = refl

-- The suite 1 has the tests 10 and 11, the others have none.
abbrev listing : Listing
listing = record {
  testsuite_name = λ s. testsuite_prefix ++ 97 ∷ [];
  test_name = λ t. 98 ∷ [];
  tests = λ s. if s == 1 then 10 ∷ 11 ∷ [] else [];
}

skips : get_testsuite_name listing 1 ≡ 97 ∷ []
unfolding get_testsuite_name skip_prefix after_prefix
skips = refl

ls_exits_with_0 : (ls [] true two_suites.files listing).0 ≡ ex_ok
unfolding ls ls_parsed parse_ls ls_collection load_testsuites end_load load_all
ls_exits_with_0 = refl

ls-listed_example : HasListed listing two_suites.files (ls [] true two_suites.files listing).2
ls-listed_example = ls-listed true two_suites.files listing ls_exits_with_0

abbrev missing : CommandEnv
missing = record { options = λ args. option_n ∷ []; env = λ args. missing_suite; listing = listing }

main-IsFreed_example :
    total (destroys (testsuite 1)) (main [] (run_name ∷ []) missing).1
    ≡ total (makes (testsuite 1)) (main [] (run_name ∷ []) missing).1
main-IsFreed_example = main-IsFreed [] (run_name ∷ []) missing (testsuite 1)
