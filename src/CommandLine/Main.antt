-- ===== src/CommandLine/Main.antt =====
-- src/cli/main.c: the command `ls`, and the dispatch of `main`.
use ctest.Prelude.{
  ℕ, Bool, true, false, List, [], ◌∷◌, ◌++◌, Option, none, some, ◌==◌, ◌&&◌, if◌then◌else◌, map,
}
use ctest.CommandLine.{
  RunOption, option_n, option_h, option_unknown, Act, destroy_testsuite, load_testsuites, Env, run,
  ex_ok, ex_usage,
}

-- sysexits.h
abbrev pub ex_software : ℕ
ex_software = 70

-- strncmp, and what is behind the prefix.
unfoldable pub after_prefix : List ℕ → List ℕ → Option (List ℕ)
after_prefix name [] = some name
after_prefix [] (p ∷ prefix) = none
after_prefix (c ∷ name) (p ∷ prefix) = if c == p then after_prefix name prefix else none

unfoldable pub skip_prefix : List ℕ → List ℕ → List ℕ
skip_prefix name prefix = elim (after_prefix name prefix) [ none ↦ name | some rest ↦ rest ]

-- What the operations of a suite give.
pub record Listing : Type 0 where
  pub testsuite_name : ℕ → List ℕ
  pub test_name : ℕ → List ℕ
  pub tests : ℕ → List ℕ

abbrev pub testsuite_prefix : List ℕ
testsuite_prefix = 116 ∷ 101 ∷ 115 ∷ 116 ∷ 115 ∷ 117 ∷ 105 ∷ 116 ∷ 101 ∷ 95 ∷ []

abbrev pub test_prefix : List ℕ
test_prefix = 116 ∷ 101 ∷ 115 ∷ 116 ∷ 95 ∷ []

unfoldable pub get_testsuite_name : Listing → ℕ → List ℕ
get_testsuite_name l s = skip_prefix (l.testsuite_name s) testsuite_prefix

unfoldable pub get_test_name : Listing → ℕ → List ℕ
get_test_name l t = skip_prefix (l.test_name t) test_prefix

-- `%s:%s` and a newline.
abbrev pub listed_line : List ℕ → List ℕ → List ℕ
listed_line testsuite test = testsuite ++ 58 ∷ (test ++ 10 ∷ [])

unfoldable pub print_tests : Listing → ℕ → List ℕ → List (List ℕ)
print_tests l s [] = []
print_tests l s (t ∷ tests) =
    listed_line (get_testsuite_name l s) (get_test_name l t) ∷ print_tests l s tests

unfoldable pub print_testsuites : Listing → List ℕ → List (List ℕ)
print_testsuites l [] = []
print_testsuites l (s ∷ suites) = print_tests l s (l.tests s) ++ print_testsuites l suites

-- The loop of ls__ over the options: the exit status, if it ends the command.
unfoldable pub parse_ls : List RunOption → Option ℕ
parse_ls [] = none
parse_ls (option_h ∷ options) = some 0
parse_ls (option_n ∷ options) = some 1
parse_ls (option_unknown ∷ options) = some 1

unfoldable pub ls_collection : Listing → Option (List ℕ) × List Act → ℕ × List Act × List (List ℕ)
ls_collection l (none, acts) = (1, acts, [])
ls_collection l (some suites, acts) =
    (0, acts ++ map destroy_testsuite suites, print_testsuites l suites)

unfoldable pub ls_parsed :
    Option ℕ → Bool → List (Option ℕ) → Listing → ℕ × List Act × List (List ℕ)
ls_parsed none allocated files l = ls_collection l (load_testsuites allocated files)
ls_parsed (some status) allocated files l = (status, [], [])

-- ls__: the exit status, what is done, and the lines that are printed.
unfoldable pub ls : List RunOption → Bool → List (Option ℕ) → Listing → ℕ × List Act × List (List ℕ)
ls options allocated files l = ls_parsed (parse_ls options) allocated files l

pub data Command : Type 0 where
  run_command : Command
  ls_command : Command

-- strcmp
unfoldable pub same : List ℕ → List ℕ → Bool
same [] [] = true
same [] (d ∷ ds) = false
same (c ∷ cs) [] = false
same (c ∷ cs) (d ∷ ds) = c == d && same cs ds

abbrev pub run_name : List ℕ
run_name = 114 ∷ 117 ∷ 110 ∷ []

-- `commands__`
abbrev pub commands : List (List ℕ × Command)
commands = (run_name, run_command) ∷ (108 ∷ 115 ∷ [], ls_command) ∷ []

-- What getopt and the loader answer to a command with its arguments, and what is loaded.
pub record CommandEnv : Type 0 where
  pub options : List (List ℕ) → List RunOption
  pub env : List (List ℕ) → Env
  pub listing : Listing

unfoldable pub execute : CommandEnv → Command → List (List ℕ) → ℕ × List Act × List (List ℕ)
execute c run_command args =
    let (status, acts) = run (c.options args) (c.env args) in (status, acts, [])
execute c ls_command args = ls (c.options args) (c.env args).allocated (c.env args).files c.listing

-- The loop over the commands.
unfoldable pub dispatch :
    CommandEnv → List ℕ → List (List ℕ) → List (List ℕ × Command) → ℕ × List Act × List (List ℕ)
dispatch c name args [] = (ex_software, [], [])
dispatch c name args ((known, command) ∷ rest) =
    if same name known then execute c command args else dispatch c name args rest

unfoldable pub parse_main : List RunOption → Option ℕ
parse_main [] = none
parse_main (option_h ∷ options) = some ex_ok
parse_main (option_n ∷ options) = some ex_usage
parse_main (option_unknown ∷ options) = some ex_usage

unfoldable pub main_parsed : Option ℕ → List (List ℕ) → CommandEnv → ℕ × List Act × List (List ℕ)
main_parsed (some status) args c = (status, [], [])
main_parsed none [] c = execute c run_command (run_name ∷ [])
main_parsed none (name ∷ args) c = dispatch c name (name ∷ args) commands

-- main, by its options and the arguments after them.
unfoldable pub main : List RunOption → List (List ℕ) → CommandEnv → ℕ × List Act × List (List ℕ)
main options args c = main_parsed (parse_main options) args c
