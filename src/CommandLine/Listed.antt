-- ===== src/CommandLine/Listed.antt =====
-- What `main` and `ls` of src/cli/main.c print, and what they make and destroy.
use ctest.Prelude.{
  total, ℕ, ◌≡◌, refl, sym, ap, ap₂, ◌∙◌, Bool, true, false, List, [], ◌∷◌, ◌++◌, Option, none,
  some, map, if◌then◌else◌, ◌==◌, ◌&&◌, length, take, drop, arith,
}
use ctest.CommandLine.{RunOption, Act, load_all, end_load, load_testsuites, ex_ok}
use ctest.CommandLine.Main.{
  Listing, after_prefix, skip_prefix, testsuite_prefix, test_prefix, listed_line,
  get_testsuite_name, get_test_name, print_tests, print_testsuites, parse_ls, ls_collection,
  ls_parsed, ls, Command, run_command, ls_command, same, run_name, commands, CommandEnv, execute,
  dispatch, parse_main, main_parsed, main,
}
use ctest.CommandLine.Freed.{Resource, makes, destroys, IsFreed, suites-IsFreed, run-IsFreed}
use ctest.CommandLine.Status.{load_all-files}

-- The suites with their tests, in order.
abbrev pub tests_of : ℕ → List ℕ → List (ℕ × ℕ)
tests_of s tests = map (λ t. (s, t)) tests

abbrev pub all_tests : Listing → List ℕ → List (ℕ × ℕ)
all_tests l [] = []
all_tests l (s ∷ suites) = tests_of s (l.tests s) ++ all_tests l suites

abbrev pub equal : List ℕ → List ℕ → Bool
equal [] [] = true
equal [] (y ∷ ys) = false
equal (x ∷ xs) [] = false
equal (x ∷ xs) (y ∷ ys) = x == y && equal xs ys

-- A name without a prefix that it begins with.
abbrev pub bare : List ℕ → List ℕ → List ℕ
bare prefix name =
    if equal (take (length prefix) name) prefix then drop (length prefix) name else name

-- The name of a suite without "testsuite_", a colon, that of a test without "test_", and a newline.
abbrev pub title : Listing → ℕ × ℕ → List ℕ
title l (s, t) =
    bare (116 ∷ 101 ∷ 115 ∷ 116 ∷ 115 ∷ 117 ∷ 105 ∷ 116 ∷ 101 ∷ 95 ∷ []) (l.testsuite_name s)
    ++ 58 ∷ (bare (116 ∷ 101 ∷ 115 ∷ 116 ∷ 95 ∷ []) (l.test_name t) ++ 10 ∷ [])

after_prefix-equal :
    (name prefix : List ℕ)
    → after_prefix name prefix ≡ (
        if equal (take (length prefix) name) prefix then some (drop (length prefix) name) else none)
unfolding after_prefix
after_prefix-equal name [] = refl
after_prefix-equal [] (p ∷ prefix) = refl
after_prefix-equal (c ∷ name) (p ∷ prefix) =
    either (c == p) (equal (take (length prefix) name) prefix) (after_prefix-equal name prefix)
  where
    either :
        (b begins : Bool) {behind : Option (List ℕ)}
        → behind ≡ (if begins then some (drop (length prefix) name) else none)
        → (if b then behind else none)
          ≡ (if b && begins then some (drop (length prefix) name) else none)
    either true begins e = e
    either false begins e = refl

skip_prefix-bare : (name prefix : List ℕ) → skip_prefix name prefix ≡ bare prefix name
unfolding skip_prefix
skip_prefix-bare name prefix =
    ap (λ (behind : Option (List ℕ)). elim behind [ none ↦ name | some rest ↦ rest ])
      (after_prefix-equal name prefix)
    ∙ either (equal (take (length prefix) name) prefix)
  where
    either :
        (begins : Bool)
        → (elim (if begins then some (drop (length prefix) name) else none) [
          | none ↦ name
          | some rest ↦ rest
        ])
          ≡ (if begins then drop (length prefix) name else name)
    either true = refl
    either false = refl

line-title :
    (l : Listing) (s t : ℕ)
    → listed_line (get_testsuite_name l s) (get_test_name l t) ≡ title l (s, t)
unfolding get_testsuite_name get_test_name
line-title l s t =
    ap₂ listed_line (skip_prefix-bare (l.testsuite_name s) testsuite_prefix)
      (skip_prefix-bare (l.test_name t) test_prefix)

map-append :
    (l : Listing) (xs ys : List (ℕ × ℕ))
    → map (title l) (xs ++ ys) ≡ map (title l) xs ++ map (title l) ys
map-append l [] ys = refl
map-append l (x ∷ xs) ys = ap (λ rest. title l x ∷ rest) (map-append l xs ys)

print_tests_lem :
    (l : Listing) (s : ℕ) (tests : List ℕ)
    → print_tests l s tests ≡ map (title l) (tests_of s tests)
unfolding print_tests
print_tests_lem l s [] = refl
print_tests_lem l s (t ∷ tests) =
    ap₂ (λ (line : List ℕ) (rest : List (List ℕ)). line ∷ rest) (line-title l s t)
      (print_tests_lem l s tests)

print_testsuites_lem :
    (l : Listing) (suites : List ℕ) → print_testsuites l suites ≡ map (title l) (all_tests l suites)
unfolding print_testsuites
print_testsuites_lem l [] = refl
print_testsuites_lem l (s ∷ suites) =
    ap₂ (λ xs ys. xs ++ ys) (print_tests_lem l s (l.tests s)) (print_testsuites_lem l suites)
    ∙ sym (map-append l (tests_of s (l.tests s)) (all_tests l suites))

-- All files are loaded, and each test of their suites is printed, in order.
abbrev pub HasListed : Listing → List (Option ℕ) → List (List ℕ) → Type 0
HasListed l files lines =
    (suites : List ℕ) × (files ≡ map some suites) × (lines ≡ map (title l) (all_tests l suites))

end_load-listed :
    (l : Listing) (files : List (Option ℕ)) (loaded : Bool × List ℕ)
    → (loaded.0 ≡ true → files ≡ map some loaded.1)
    → (ls_collection l (end_load loaded)).0 ≡ 0
    → HasListed l files (ls_collection l (end_load loaded)).2
unfolding ls_collection end_load
end_load-listed l files (false, suites) all e = absurd (omega (arith, e))
end_load-listed l files (true, suites) all e = (suites, all refl, print_testsuites_lem l suites)

load_testsuites-listed :
    (l : Listing) (allocated : Bool) (files : List (Option ℕ))
    → (ls_collection l (load_testsuites allocated files)).0 ≡ 0
    → HasListed l files (ls_collection l (load_testsuites allocated files)).2
unfolding ls_collection load_testsuites
load_testsuites-listed l false files e = absurd (omega (arith, e))
load_testsuites-listed l true files e =
    end_load-listed l files (load_all files) (load_all-files files) e

-- An exit status of 0 of an `ls` without options says that all files were loaded and that a line was
-- printed for each test of their suites, suite by suite, and no other: the name of the suite without
-- the prefix "testsuite_", a colon, and the name of the test without the prefix "test_".
pub ls-listed :
    (allocated : Bool) (files : List (Option ℕ)) (l : Listing)
    → (ls [] allocated files l).0 ≡ ex_ok
    → HasListed l files (ls [] allocated files l).2
unfolding ls ls_parsed parse_ls
ls-listed allocated files l e = load_testsuites-listed l allocated files e

end_load-IsFreed :
    (l : Listing) (loaded : Bool × List ℕ) → IsFreed (ls_collection l (end_load loaded)).1
unfolding ls_collection end_load
end_load-IsFreed l (true, suites) = suites-IsFreed suites [] (λ r. refl)
end_load-IsFreed l (false, suites) = suites-IsFreed suites [] (λ r. refl)

ls_parsed-IsFreed :
    (parsed : Option ℕ) (allocated : Bool) (files : List (Option ℕ)) (l : Listing)
    → IsFreed (ls_parsed parsed allocated files l).1
unfolding ls_parsed ls_collection load_testsuites
ls_parsed-IsFreed (some status) allocated files l = λ r. refl
ls_parsed-IsFreed none false files l = λ r. refl
ls_parsed-IsFreed none true files l = end_load-IsFreed l (load_all files)

execute-IsFreed :
    (c : CommandEnv) (command : Command) (args : List (List ℕ)) → IsFreed (execute c command args).1
unfolding execute ls
execute-IsFreed c run_command args = run-IsFreed (c.options args) (c.env args)
execute-IsFreed c ls_command args =
    ls_parsed-IsFreed (parse_ls (c.options args)) (c.env args).allocated (c.env args).files
      c.listing

dispatch-IsFreed :
    (c : CommandEnv) (name : List ℕ) (args : List (List ℕ)) (known : List (List ℕ × Command))
    → IsFreed (dispatch c name args known).1
unfolding dispatch
dispatch-IsFreed c name args [] = λ r. refl
dispatch-IsFreed c name args ((n, command) ∷ rest) =
    either (same name n) (execute c command args) (dispatch c name args rest)
      (execute-IsFreed c command args) (dispatch-IsFreed c name args rest)
  where
    either :
        (b : Bool) (one other : ℕ × List Act × List (List ℕ))
        → IsFreed one.1
        → IsFreed other.1
        → IsFreed (if b then one else other).1
    either true one other f f' = f
    either false one other f f' = f'

main_parsed-IsFreed :
    (parsed : Option ℕ) (args : List (List ℕ)) (c : CommandEnv)
    → IsFreed (main_parsed parsed args c).1
unfolding main_parsed
main_parsed-IsFreed (some status) args c = λ r. refl
main_parsed-IsFreed none [] c = execute-IsFreed c run_command (run_name ∷ [])
main_parsed-IsFreed none (name ∷ args) c = dispatch-IsFreed c name (name ∷ args) commands

-- Whatever the arguments are and whatever fails, main destroys each suite, the reporter and the
-- runner as often as it makes it.
pub main-IsFreed :
    (options : List RunOption) (args : List (List ℕ)) (c : CommandEnv) (r : Resource)
    → total (destroys r) (main options args c).1 ≡ total (makes r) (main options args c).1
unfolding main
main-IsFreed options args c = main_parsed-IsFreed (parse_main options) args c
