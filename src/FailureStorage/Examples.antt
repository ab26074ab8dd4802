-- ===== src/FailureStorage/Examples.antt =====
-- A failure laid out as in src/exec/failure.c.
use ctest.Prelude.{
  ℕ, length, map, replicate, length-replicate, arith, ◌≡◌, refl, true, List, [], ◌∷◌, none, some,
}
use ctest.FailureStorage.{
  Location, StackFrame, Failure, storage_size, failure_storage_size, Write, failure_storage_format,
  apply_writes, ctest_failure_create_va, pad_size, add_filename, location_storage_size,
  add_filenames, stacktrace_storage_size, add_description, add_location, add_stacktrace,
  description_size,
}
use ctest.Pipe.{grants}
use ctest.ExecEvents.{Event, stage_change, failure}
use ctest.ExecEvents.Writer.{written}
use ctest.ExecEvents.Reader.{Reader, exec_event_reader_init, run_reader}
use ctest.FailureStorage.Carried.{messages, AllCarried, run_reader-failures}
use ctest.FailureStorage.Layout.{within, Fills}
use ctest.FailureStorage.Whole.{failure_storage_format-Fills}
use ctest.FailureStorage.Image.{failure_at}
use ctest.FailureStorage.Parts.{Makes}
use ctest.FailureStorage.Laid.{failure_storage_format-failure_at}
use ctest.FailureStorage.Created.{described_as, ctest_failure_create_va-failure_at}

abbrev here : Location
here = record { filename = some (102 ∷ 46 ∷ 99 ∷ []); line = 7 }

abbrev two_frames : List StackFrame
two_frames =
    record { addr = 4096; filename = some (102 ∷ []); line = 3 }
    ∷ record { addr = 4112; filename = none; line = 0 }
    ∷ []

abbrev one_failure : Failure
one_failure = record {
  stage = 1;
  description = some (98 ∷ 97 ∷ 100 ∷ []);
  location = some here;
  stacktrace = some two_frames;
}

one_failure-size : failure_storage_size one_failure ≡ 122
unfolding failure_storage_size storage_size pad_size add_filename location_storage_size
    add_filenames stacktrace_storage_size add_description add_location add_stacktrace
    description_size
one_failure-size = refl

created-size : storage_size (description_size (some (98 ∷ []))) (some here) (some two_frames) ≡ 122
unfolding storage_size pad_size add_filename location_storage_size add_filenames
    stacktrace_storage_size add_description add_location add_stacktrace description_size
created-size = refl

failure_storage_format-Fills_example :
    Fills 122 (failure_storage_size one_failure) (failure_storage_format 4096 122 one_failure)
failure_storage_format-Fills_example =
    failure_storage_format-Fills 4096 122 one_failure (omega arith)

ctest_failure_create_va-failure_at_example :
    (writes : List Write) × (ctest_failure_create_va true 4096 1
        (some (98 ∷ []))
        (some here)
        (some two_frames)
      ≡ some writes)
    × (within
          (storage_size (description_size (some (98 ∷ []))) (some here) (some two_frames))
          writes
        ≡ true)
    × (apply_writes writes (
          replicate
            (storage_size (description_size (some (98 ∷ []))) (some here) (some two_frames))
            0)
        ≡ failure_at 4096 (described_as 1 (some (98 ∷ [])) (some here) (some two_frames)))
ctest_failure_create_va-failure_at_example =
    ctest_failure_create_va-failure_at 4096 1 (some (98 ∷ [])) (some here) (some two_frames)
      (replicate (storage_size (description_size (some (98 ∷ []))) (some here) (some two_frames)) 0)
      (omega (arith, created-size))
      (length-replicate
        (storage_size (description_size (some (98 ∷ []))) (some here) (some two_frames)) 0)

failure_storage_format-failure_at_example :
    Makes
      (failure_storage_format 4096 (failure_storage_size one_failure) one_failure)
      (replicate 122 170)
      (failure_storage_size one_failure)
      (failure_at 4096 one_failure)
failure_storage_format-failure_at_example =
    failure_storage_format-failure_at 4096 one_failure (replicate 122 170)
      (omega (arith, one_failure-size)) (omega (arith, one_failure-size))

abbrev reports : List (Event Failure)
reports = stage_change 1 ∷ failure one_failure ∷ []

-- What is on the stack of the writer.
abbrev stack : ℕ → List ℕ
stack n = replicate n 170

reports-AllCarried : AllCarried 4096 8192 reports
reports-AllCarried = (
  omega arith,
  (
    (
      (omega arith, omega arith, omega arith, omega arith),
      omega (arith, one_failure-size),
      omega (arith, one_failure-size),
      omega (arith, one_failure-size),
    ),
    record {},
  ),
)

abbrev calls : List ℕ
calls = replicate (length (written (messages 4096 stack 8192) reports)) 3

run_reader-failures_example :
    (r : Reader Failure) × (run_reader
        (messages 4096 stack 8192)
        (map grants calls)
        exec_event_reader_init
        (written (messages 4096 stack 8192) reports)
      ≡ some (r, []))
    × (r.events ≡ reports)
run_reader-failures_example =
    run_reader-failures 4096 stack 8192 (λ n. length-replicate n 170) calls reports
      reports-AllCarried
      (omega
        (arith, length-replicate {A = ℕ} (length (written (messages 4096 stack 8192) reports)) 3))
