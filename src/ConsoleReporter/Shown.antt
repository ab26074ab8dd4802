-- ===== src/ConsoleReporter/Shown.antt =====
-- What the reporter of src/exec/console_reporter.c shows of the output that was captured.
use ctest.Prelude.{
  ℕ, zero, suc, ◌≤◌, ◌<◌, ◌≡◌, refl, ap, ap₂, ◌∙◌, Bool, true, false, List, [], ◌∷◌, ◌++◌, Option,
  none, some, map, ltb, if◌then◌else◌, arith,
}
use ctest.Result.{ResultType, result_pass, result_fail, result_skipped, result_error, Result}
use ctest.Output.{Output}
use ctest.ConsoleReporter.{c_string}
use ctest.ConsoleReporter.Wrap.{lines, print_lines, wrap_output_lem}
use ctest.ConsoleReporter.Report.{
  Location, StackFrame, Failure, Printed, location_line, reason_head, wrapped, stacktrace_head,
  frame_line, output_head, indent, report_location, report_frame, report_stacktrace, report_failure,
  report_output, wrap_string, verdict_of, stage_of, failed_in, report_result, name_of, verdict_word,
  Verdict, ok, setup_failed, failed, teardown_failed, failed_unknown_stage, skipped, internal_error,
}

-- No character of the text is the terminator.
abbrev pub IsText : List ℕ → Type 0
IsText [] = record {}
IsText (c ∷ text) = (1 ≤ c) × IsText text

pub c_string-append : (text rest : List ℕ) → IsText text → c_string (text ++ 0 ∷ rest) ≡ some text
unfolding c_string
c_string-append [] rest p = refl
c_string-append (zero ∷ text) rest p = ground arith
c_string-append (suc c ∷ text) rest p = rw (c_string-append text rest p.1) refl

-- Failures and errors show what is known; the others show the word alone.
abbrev pub shows : ResultType → Bool
shows result_fail = true
shows result_error = true
shows type = false

-- The word for a failure in a stage.
abbrev pub stage_word : ℕ → Verdict
stage_word zero = setup_failed
stage_word (suc zero) = failed
stage_word (suc (suc zero)) = teardown_failed
stage_word (suc (suc (suc n))) = failed_unknown_stage (suc (suc (suc n)))

abbrev pub word : ResultType → Option Failure → Verdict
word result_pass f = ok
word result_skipped f = skipped
word result_error f = internal_error
word result_fail none = failed
word result_fail (some f) = stage_word f.stage

failed_in-stage_word : (n : ℕ) → failed_in n ≡ stage_word n
unfolding failed_in
failed_in-stage_word zero = refl
failed_in-stage_word (suc zero) = refl
failed_in-stage_word (suc (suc zero)) = refl
failed_in-stage_word (suc (suc (suc n))) = refl

verdict_of-word :
    (type : ResultType) (f : Option Failure) → verdict_of type f ≡ (word type f, shows type)
unfolding verdict_of stage_of failed_in
verdict_of-word result_pass f = refl
verdict_of-word result_fail none = refl
verdict_of-word result_fail (some f) = ap (λ v. (v, true)) (failed_in-stage_word f.stage)
verdict_of-word result_skipped f = refl
verdict_of-word result_error f = refl

-- All lines of a text under each other.
abbrev pub all_lines : List ℕ → Printed
all_lines text = wrapped (some (print_lines indent (lines text)))

-- All lines of a text, and what is printed above them.
abbrev pub whole_text : List ℕ → List Printed
whole_text text = output_head ∷ all_lines text ∷ []

-- Where a failure is, if that is known.
abbrev pub place : Option Location → List Printed
place none = []
place (some l) = location_line l.filename l.line ∷ []

-- A line number is shown if it is not 0.
abbrev pub known_line : ℕ → Option ℕ
known_line zero = none
known_line (suc n) = some (suc n)

abbrev pub frame : ℕ → Option (List ℕ) → ℕ → Printed
frame addr none line = frame_line addr none none
frame addr (some name) line = frame_line addr (some name) (known_line line)

abbrev pub frames : List StackFrame → List Printed
frames [] = []
frames (f ∷ fs) = frame f.addr f.filename f.line ∷ frames fs

-- The frames under their head, if there are any.
abbrev pub trace : Option (List StackFrame) → List Printed
trace none = []
trace (some []) = []
trace (some (f ∷ fs)) = stacktrace_head ∷ frames (f ∷ fs)

-- What is shown of a failure: its place, each line of its description, and its stack trace.
abbrev pub whole_failure : Option Failure → List Printed
whole_failure none = []
whole_failure (some f) =
    place f.location ++ reason_head ∷ all_lines f.description ∷ trace f.stacktrace

report_location-place : (l : Option Location) → report_location l ≡ place l
unfolding report_location
report_location-place none = refl
report_location-place (some l) = refl

line-known_line : (n : ℕ) → (if ltb 0 n then some n else none) ≡ known_line n
line-known_line zero = refl
line-known_line (suc n) = let l : ltb 0 (suc n) ≡ true = ground arith in rw l refl

report_frame-frame :
    (addr : ℕ) (name : Option (List ℕ)) (line : ℕ)
    → report_frame (record { addr = addr; filename = name; line = line }) ≡ frame addr name line
unfolding report_frame
report_frame-frame addr none line = refl
report_frame-frame addr (some name) line = ap (frame_line addr (some name)) (line-known_line line)

report_frames-frames : (fs : List StackFrame) → map report_frame fs ≡ frames fs
report_frames-frames [] = refl
report_frames-frames (f ∷ fs) =
    ap₂ (λ (p : Printed) (ps : List Printed). p ∷ ps) (report_frame-frame f.addr f.filename f.line)
      (report_frames-frames fs)

report_stacktrace-trace : (t : Option (List StackFrame)) → report_stacktrace t ≡ trace t
unfolding report_stacktrace
report_stacktrace-trace none = refl
report_stacktrace-trace (some []) = refl
report_stacktrace-trace (some (f ∷ fs)) =
    ap (λ (ps : List Printed). stacktrace_head ∷ ps) (report_frames-frames (f ∷ fs))

report_failure-whole_failure : (f : Option Failure) → report_failure f ≡ whole_failure f
unfolding report_failure
report_failure-whole_failure none = refl
report_failure-whole_failure (some f) =
    rw
      (
        report_location-place f.location,
        wrap_output_lem indent f.description,
        report_stacktrace-trace f.stacktrace,
      )
      refl

pub report_output_lem :
    (o : Output) (text rest : List ℕ)
    → o.data_bytes ≡ text ++ 0 ∷ rest
    → IsText text
    → 0 < o.length
    → report_output (some o) ≡ whole_text text
unfolding report_output wrap_string
report_output_lem o text rest e t p =
    let s : c_string o.data_bytes ≡ some text = ap c_string e ∙ c_string-append text rest t in
    let l : ltb 0 o.length ≡ true = ground arith in rw (l, s, wrap_output_lem indent text) refl

-- For each test case the console shows its name and the word for its type, by the stage of the
-- failure if it fails. If it fails, or ends in an error, then the place of its failure follows,
-- every line of the description, each frame of the stack trace, and every line of the text that was
-- captured; if it passes or is skipped, nothing follows. The text is not empty, has no 0 and is
-- followed by one, as the output reader leaves it.
pub report_result-shows :
    (testcase : ℕ) (r : Result Failure Output) (o : Output) (text rest : List ℕ)
    → r.output ≡ some o
    → o.data_bytes ≡ text ++ 0 ∷ rest
    → IsText text
    → 0 < o.length
    → report_result testcase r
      ≡ name_of testcase
        ∷ verdict_word (word r.type r.failure)
        ∷ (if shows r.type then whole_failure r.failure ++ whole_text text else [])
unfolding report_result
report_result-shows testcase r o text rest e d t p =
    let shown : report_output r.output ≡ whole_text text =
      ap report_output e ∙ report_output_lem o text rest d t p in
    rw (verdict_of-word r.type r.failure, report_failure-whole_failure r.failure, shown) refl
