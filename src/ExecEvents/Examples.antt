-- ===== src/ExecEvents/Examples.antt =====
-- A child that reports two stages and a failure; failures are their own blocks here.
use ctest.Prelude.{ℕ, ◌≤◌, ◌≡◌, refl, List, [], ◌∷◌, ◌++◌, some, length, map, replicate, arith}
use ctest.Pipe.{fails, grants}
use ctest.ExecEvents.{Event, stage_change, failure, Storage, bytes_of}
use ctest.ExecEvents.Writer.{
  written, writer_on_event, writer_on_stage_change, writer_on_failure, write_message, header_of,
}
use ctest.ExecEvents.Reader.{Reader, exec_event_reader_init, run_reader}
use ctest.ExecEvents.Phase.{AllSendable}
use ctest.ExecEvents.RoundTrip.{run_reader-prefix, run_reader-written}
use ctest.ExecEvents.Dropped.{run_reader-stuck}

abbrev blocks : Storage (List ℕ)
blocks = record { serialize = λ f. some f; deserialize = λ b. some b }

abbrev reports : List (Event (List ℕ))
reports = stage_change 1 ∷ failure (7 ∷ 8 ∷ 9 ∷ []) ∷ stage_change 2 ∷ []

reports-AllSendable : AllSendable blocks reports
reports-AllSendable = (
  omega arith,
  ((7 ∷ 8 ∷ 9 ∷ [], refl, omega arith, omega arith, refl), (omega arith, record {})),
)

length-written_runs : length (written blocks reports) ≤ length {A = ℕ} (replicate 30 2)
unfolding written writer_on_event writer_on_stage_change writer_on_failure write_message header_of
    bytes_of
length-written_runs = omega arith

run_reader-written_example :
    (r : Reader (List ℕ)) × ((run_reader blocks
          (map grants (replicate 30 2))
          exec_event_reader_init
          (written blocks reports)
        ≡ some (r, []))
      × (r.events ≡ reports))
run_reader-written_example =
    run_reader-written blocks (replicate 30 2) reports reports-AllSendable length-written_runs

run_reader-prefix_example :
    (r : Reader (List ℕ)) × (later : List (Event (List ℕ))) × (rest : List ℕ) × ((run_reader blocks
          (grants 5 ∷ fails 3 ∷ grants 1 ∷ [])
          exec_event_reader_init
          (written blocks reports)
        ≡ some (r, rest))
      × (r.events ++ later ≡ reports))
run_reader-prefix_example =
    run_reader-prefix blocks (grants 5 ∷ fails 3 ∷ grants 1 ∷ []) reports reports-AllSendable

-- A message of the type 9 with six bytes, of which two are read first.
run_reader-stuck_example :
    (r : Reader (List ℕ)) × ((run_reader blocks
          (grants 3 ∷ grants 1 ∷ map grants (9 ∷ 0 ∷ 4 ∷ []))
          exec_event_reader_init
          (header_of 9 6 ++ (1 ∷ 2 ∷ 3 ∷ 4 ∷ 5 ∷ 6 ∷ []))
        ≡ some (r, 3 ∷ 4 ∷ 5 ∷ 6 ∷ []))
      × (r.events ≡ []))
run_reader-stuck_example =
    run_reader-stuck blocks 9 6 1 (1 ∷ 2 ∷ 3 ∷ 4 ∷ 5 ∷ 6 ∷ []) (9 ∷ 0 ∷ 4 ∷ []) (omega arith)
      (omega arith) (omega arith) (omega arith) (omega arith) (omega arith)
