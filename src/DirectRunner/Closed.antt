-- ===== src/DirectRunner/Closed.antt =====
-- The descriptors on each path of src/exec/direct_runner.c.
use ctest.Prelude.{ℕ, ◌≤◌, ◌≡◌, refl, ℤ, true, List, Option, none, some}
use ctest.Result.{Result}
use ctest.Output.{Output}
use ctest.ForkingRunner.Child.{Ending}
use ctest.DirectRunner.{
  Failure, Answers, Act, ReadBack, stdin_saved_failed, stdout_saved_failed, stderr_saved_failed,
  stdin_new_failed, stdout_new_failed, redirect, undo_redirection, run_redirected, call_first,
  with_stdout_new, with_stdin_new, with_stderr_saved, with_stdout_saved, with_stdin_saved,
  run_outcome, direct_run_testcase,
}
use ctest.DirectRunner.Descriptors.{
  File, null_file, temp_file, Table, put, survives, closed_again, undone, undone_lem, steps,
  AllGranted, redirected_lem, IsRedirected, at_testcase,
}
use ctest.DirectRunner.Opened.{t1, t2, t3, t4, t5, t5-AreSaved, t5-AreNew}

module _ (F : Type 0) (during : Table → Table) where
  abbrev after : Table → List (Act F) → Table
  after t acts = steps during t acts

  -- What is left at each label.
  stdout_saved_failed-closes :
      (t t' : Table) (n i : ℕ)
      → t i ≡ none
      → t' n ≡ t1 t i n
      → after t' (stdout_saved_failed i) n ≡ t n
  unfolding stdout_saved_failed stdin_saved_failed
  stdout_saved_failed-closes t t' n i ci e = closed_again i n (t 0) t t' ci e

  stderr_saved_failed-closes :
      (t t' : Table) (n i j : ℕ)
      → t i ≡ none
      → t1 t i j ≡ none
      → t' n ≡ t2 t i j n
      → after t' (stderr_saved_failed i j) n ≡ t n
  unfolding stderr_saved_failed
  stderr_saved_failed-closes t t' n i j ci cj e =
      stdout_saved_failed-closes t (put j none t') n i ci
        (closed_again j n (t1 t i 1) (t1 t i) t' cj e)

  stdin_new_failed-closes :
      (t t' : Table) (n i j k : ℕ)
      → t i ≡ none
      → t1 t i j ≡ none
      → t2 t i j k ≡ none
      → t' n ≡ t3 t i j k n
      → after t' (stdin_new_failed i j k) n ≡ t n
  unfolding stdin_new_failed
  stdin_new_failed-closes t t' n i j k ci cj ck e =
      stderr_saved_failed-closes t (put k none t') n i j ci cj
        (closed_again k n (t2 t i j 2) (t2 t i j) t' ck e)

  stdout_new_failed-closes :
      (t t' : Table) (n i j k m : ℕ)
      → t i ≡ none
      → t1 t i j ≡ none
      → t2 t i j k ≡ none
      → t3 t i j k m ≡ none
      → t' n ≡ t4 t i j k m n
      → after t' (stdout_new_failed i j k m) n ≡ t n
  unfolding stdout_new_failed
  stdout_new_failed-closes t t' n i j k m ci cj ck cm e =
      stdin_new_failed-closes t (put m none t') n i j k ci cj ck
        (closed_again m n (some null_file) (t3 t i j k) t' cm e)

  module _ (keeps : (t : Table) (x : ℕ) → 3 ≤ x → during t x ≡ t x) (a : Answers)
      (out : ℤ × Result (Failure F) Output) (t : Table) (f g h : File) (e : t 0 ≡ some f)
      (e' : t 1 ≡ some g) (e'' : t 2 ≡ some h) (n : ℕ) (s : survives a n ≡ true) where
    -- What each descriptor refers to at the end, and while the test case is executed.
    abbrev Ends : Table → List (Act F) → Type 0
    Ends t' acts = (after t' acts n ≡ t n) × IsRedirected a (at_testcase during t' acts)

    run_redirected-closes :
        (i j k m o : ℕ)
        → t i ≡ none
        → t1 t i j ≡ none
        → t2 t i j k ≡ none
        → t3 t i j k m ≡ none
        → t4 t i j k m o ≡ none
        → Ends (t5 t i j k m o) (run_redirected a out i j k m o).1
    unfolding run_redirected redirect undo_redirection
    run_redirected-closes i j k m o ci cj ck cm co =
        let (p, q, r, d, d', d'') = t5-AreSaved t i j k m o f g h e e' e'' ci cj ck cm co in
        let all : Table = t5 t i j k m o in
        let (p', q', d0, d0') = t5-AreNew t i j k m o f g h e e' e'' ci cj ck cm co in
        let end : Table = undone during keeps a i j k m o all in
        (
          stdout_new_failed-closes t (put o none end) n i j k m ci cj ck cm (
              closed_again o n (some temp_file) (t4 t i j k m) end co
                (undone_lem during keeps a i j k m o all n p q r d d' d'' s)),
          redirected_lem a m o all p' q' d0 d0',
        )

    with_stdout_new-closes :
        (i j k m : ℕ) (o : Option ℕ)
        → t i ≡ none
        → t1 t i j ≡ none
        → t2 t i j k ≡ none
        → t3 t i j k m ≡ none
        → AllGranted during (t4 t i j k m) (with_stdout_new a out i j k m o).1
        → Ends (t4 t i j k m) (with_stdout_new a out i j k m o).1
    unfolding with_stdout_new call_first stdout_new_failed stdin_new_failed stderr_saved_failed
        stdout_saved_failed stdin_saved_failed
    with_stdout_new-closes i j k m none ci cj ck cm granted =
        (stdout_new_failed-closes t (t4 t i j k m) n i j k m ci cj ck cm refl, record {})
    with_stdout_new-closes i j k m (some o) ci cj ck cm granted =
        run_redirected-closes i j k m o ci cj ck cm granted.0

    with_stdin_new-closes :
        (i j k : ℕ) (m : Option ℕ)
        → t i ≡ none
        → t1 t i j ≡ none
        → t2 t i j k ≡ none
        → AllGranted during (t3 t i j k) (with_stdin_new a out i j k m).1
        → Ends (t3 t i j k) (with_stdin_new a out i j k m).1
    unfolding with_stdin_new call_first stdin_new_failed stderr_saved_failed stdout_saved_failed
        stdin_saved_failed
    with_stdin_new-closes i j k none ci cj ck granted =
        (stdin_new_failed-closes t (t3 t i j k) n i j k ci cj ck refl, record {})
    with_stdin_new-closes i j k (some m) ci cj ck granted =
        with_stdout_new-closes i j k m a.stdout_new ci cj ck granted.0 granted.1

    with_stderr_saved-closes :
        (i j : ℕ) (k : Option ℕ)
        → t i ≡ none
        → t1 t i j ≡ none
        → AllGranted during (t2 t i j) (with_stderr_saved a out i j k).1
        → Ends (t2 t i j) (with_stderr_saved a out i j k).1
    unfolding with_stderr_saved call_first stderr_saved_failed stdout_saved_failed
        stdin_saved_failed
    with_stderr_saved-closes i j none ci cj granted =
        (stderr_saved_failed-closes t (t2 t i j) n i j ci cj refl, record {})
    with_stderr_saved-closes i j (some k) ci cj granted =
        with_stdin_new-closes i j k a.stdin_new ci cj granted.0 granted.1

    with_stdout_saved-closes :
        (i : ℕ) (j : Option ℕ)
        → t i ≡ none
        → AllGranted during (t1 t i) (with_stdout_saved a out i j).1
        → Ends (t1 t i) (with_stdout_saved a out i j).1
    unfolding with_stdout_saved call_first stdout_saved_failed stdin_saved_failed
    with_stdout_saved-closes i none ci granted =
        (stdout_saved_failed-closes t (t1 t i) n i ci refl, record {})
    with_stdout_saved-closes i (some j) ci granted =
        with_stderr_saved-closes i j a.stderr_saved ci granted.0 granted.1

    with_stdin_saved-closes :
        (i : Option ℕ)
        → AllGranted during t (with_stdin_saved a out i).1
        → Ends t (with_stdin_saved a out i).1
    unfolding with_stdin_saved stdin_saved_failed call_first
    with_stdin_saved-closes none granted = (refl, record {})
    with_stdin_saved-closes (some i) granted =
        with_stdout_saved-closes i a.stdout_saved granted.0 granted.1

  -- Whatever descriptors can be had and however the test case ends, each descriptor refers at the end
  -- to what it referred to before, so that all that were opened are closed and the redirection is
  -- undone; only a standard descriptor may differ whose restoring dup2 fails. If the test case is
  -- executed, its input is /dev/null and both its outputs are the temporary file, or closed where
  -- dup2 fails. The standard descriptors are open at the start, the system opens no descriptor that
  -- is open, and the test case leaves all but the standard descriptors as they are.
  pub direct_run_testcase-closes :
      ((t : Table) (x : ℕ) → 3 ≤ x → during t x ≡ t x)
      → (a : Answers) (stage : ℕ) (ending : Ending F) (back : ReadBack) (text : List ℕ) (t : Table)
        (f g h : File)
      → t 0 ≡ some f
      → t 1 ≡ some g
      → t 2 ≡ some h
      → AllGranted during t (direct_run_testcase a stage ending back text).1
      → (n : ℕ) → survives a n ≡ true
      → let acts = (direct_run_testcase a stage ending back text).1 in
        (steps during t acts n ≡ t n) × IsRedirected a (at_testcase during t acts)
  unfolding direct_run_testcase
  direct_run_testcase-closes keeps a stage ending back text t f g h e e' e'' granted n s =
      with_stdin_saved-closes keeps a (run_outcome stage ending back text) t f g h e e' e'' n s
        a.stdin_saved granted
