-- ===== src/ConsoleReporter/Wrap.antt =====
-- wrap_output__ of src/exec/console_reporter.c prints each line of a text behind the prefix.
use ctest.Prelude.{
  ℕ, zero, suc, ◌+◌, ◌≤◌, ◌⊎◌, ◌≡◌, refl, ap, List, [], ◌∷◌, ◌++◌, none, some, ◌==◌, if◌then◌else◌,
  length, Bool-cases, inl, inr, arith,
}
use ctest.ConsoleReporter.{newline, find_newline, wrap_last, wrap_from, wrap_output}

-- A character in front of the first line.
abbrev pub onto_first : ℕ → List (List ℕ) → List (List ℕ)
onto_first c [] = (c ∷ []) ∷ []
onto_first c (line ∷ lines) = (c ∷ line) ∷ lines

-- The lines of a text; a newline at its end does not start another one.
abbrev pub lines : List ℕ → List (List ℕ)
lines [] = []
lines (c ∷ str) = let rest = lines str in if c == newline then [] ∷ rest else onto_first c rest

-- Each line between `prefix` and a newline.
abbrev pub print_lines : List ℕ → List (List ℕ) → List ℕ
print_lines prefix [] = []
print_lines prefix (line ∷ lines) = prefix ++ (line ++ (newline ∷ print_lines prefix lines))

-- A text without a newline as its one line, or none.
abbrev one_line : List ℕ → List (List ℕ)
one_line [] = []
one_line (c ∷ str) = (c ∷ str) ∷ []

onto_first-one_line : (c : ℕ) (str : List ℕ) → onto_first c (one_line str) ≡ one_line (c ∷ str)
onto_first-one_line c [] = refl
onto_first-one_line c (d ∷ str) = refl

-- The first line found is the first of the lines.
find_newline-cases :
    (str : List ℕ)
    → ((find_newline str ≡ none) × (lines str ≡ one_line str))
      ⊎ ((line : List ℕ) × (after : List ℕ) × ((find_newline str ≡ some (line, after))
            × (lines str ≡ line ∷ lines after)
            × (length after + 1 ≤ length str)))
unfolding find_newline
find_newline-cases [] = inl (refl, refl)
find_newline-cases (c ∷ str) = elim (Bool-cases (c == newline)) [
  | inl t ↦ rw (t) (inr ([], str, (refl, refl, omega arith)))
  | inr t ↦ elim (find_newline-cases str) [
    | inl (e, l) ↦ rw (t, e, l) (inl (refl, onto_first-one_line c str))
    | inr (line, after, (e, l, n)) ↦
        rw (t, e, l) (inr (c ∷ line, after, (refl, refl, omega (arith, n))))
  ]
]

wrap_last_lem : (prefix str : List ℕ) → wrap_last prefix str ≡ print_lines prefix (one_line str)
unfolding wrap_last
wrap_last_lem prefix [] = refl
wrap_last_lem prefix (c ∷ str) = refl

wrap_from_lem :
    (fuel : ℕ) (prefix str : List ℕ)
    → length str + 1 ≤ fuel
    → wrap_from fuel prefix str ≡ some (print_lines prefix (lines str))
unfolding wrap_from
wrap_from_lem zero prefix str p = ground arith
wrap_from_lem (suc fuel) prefix str p = elim (find_newline-cases str) [
  | inl (e, l) ↦ rw (e, l, wrap_from) (ap some (wrap_last_lem prefix str))
  | inr (line, after, (e, l, n)) ↦
      rw (e, l, wrap_from_lem fuel prefix after (omega (arith, p, n)), wrap_from) refl
]

-- wrap_output__ ends, and prints each line of the text, in order, between the prefix and a newline.
pub wrap_output_lem :
    (prefix str : List ℕ) → wrap_output prefix str ≡ some (print_lines prefix (lines str))
unfolding wrap_output
wrap_output_lem prefix str = wrap_from_lem (suc (length str)) prefix str (omega arith)
