-- ===== src/ConsoleReporter.antt =====
-- The reporter of src/exec/console_reporter.c: what it prints for a test case, and the states of
-- its reporters.
pub mod Wrap
pub mod Report
pub mod States
pub mod Shown
mod Examples
use ctest.Prelude.{
  ℕ, zero, suc, Bool, true, false, List, [], ◌∷◌, ◌++◌, Option, none, some, ◌==◌, if◌then◌else◌,
  length,
}

-- '\n'
abbrev pub newline : ℕ
newline = 10

-- strchr(str, '\n'): the text before the first newline, and the text after it.
unfoldable pub find_newline : List ℕ → Option (List ℕ × List ℕ)
find_newline [] = none
find_newline (c ∷ str) =
    let rest = find_newline str in
    if c == newline
    then some ([], str)
    else elim rest [ none ↦ none | some (line, after) ↦ some (c ∷ line, after) ]

-- `*str != '\0'`, and the last fprintf.
unfoldable pub wrap_last : List ℕ → List ℕ → List ℕ
wrap_last prefix [] = []
wrap_last prefix (c ∷ str) = prefix ++ ((c ∷ str) ++ (newline ∷ []))

-- The loop, on fuel for its rounds: what it prints.
unfoldable pub wrap_from : ℕ → List ℕ → List ℕ → Option (List ℕ)
wrap_from zero prefix str = none
wrap_from (suc fuel) prefix str = elim (find_newline str) [
  | none ↦ some (wrap_last prefix str)
  | some (line, after) ↦ elim (wrap_from fuel prefix after) [
    | none ↦ none
    | some more ↦ some (prefix ++ (line ++ (newline ∷ more)))
  ]
]

-- wrap_output__. The length of a line is cast to an int, which is taken to hold it.
unfoldable pub wrap_output : List ℕ → List ℕ → Option (List ℕ)
wrap_output prefix str = wrap_from (suc (length str)) prefix str

-- The C string at the start of a memory block: up to the first 0. `none` is a block without a 0,
-- past whose end C reads.
unfoldable pub c_string : List ℕ → Option (List ℕ)
c_string [] = none
c_string (zero ∷ bytes) = some []
c_string (suc c ∷ bytes) = elim (c_string bytes) [ none ↦ none | some text ↦ some (suc c ∷ text) ]
