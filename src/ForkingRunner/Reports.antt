-- ===== src/ForkingRunner/Reports.antt =====
-- A whole run of wait_for_child__ of src/exec/forking_runner.c on a child that reports events, writes
-- output and exits.
use ctest.Prelude.{
  ℕ, suc, ◌<◌, ◌≡◌, refl, ap, ◌∙◌, subst, ℤ, pos, Bool, true, List, [], ◌∷◌, ◌++◌, Option, none,
  some, length, ltb, inl,
}
use mathlib.Core.Option.{map as option_map}
use ctest.Result.{
  ResultType, Result, result_pass, result_fail, result_skipped, result_error,
  ctest_result_set_failure,
}
use ctest.Output.{Output, output_length}
use ctest.Output.Reader.{Built, output_reader_init, output_reader_build}
use ctest.Output.Build.{Builds, output_reader_build-Builds}
use ctest.ExecEvents.{Event, stage_change, failure, Storage}
use ctest.ExecEvents.Writer.{written}
use ctest.ExecEvents.Reader.{exec_event_reader_init, reader_prep_next_msg}
use ctest.ExecEvents.Phase.{AllSendable, in_header}
use ctest.ExecEvents.RoundTrip.{init-InHeader}
use ctest.ForkingRunner.{
  coerce_result_type, Consumer, child_event_consumer_init, child_event_consumer_on_event, consume,
}
use ctest.ForkingRunner.Wait.{
  Failure, from_child, exited, Waiting, start_waiting, consumer, set_failure, exit_verdict, finish,
  deliver, wait_for_child,
}
use ctest.ForkingRunner.Drain.{all_readable, Drained, poll_loop-Drained}

-- The last failure of a list of events.
abbrev pub last_failure_from : {F : Type 0} → Option F → List (Event F) → Option F
last_failure_from f [] = f
last_failure_from f (stage_change stage ∷ events) = last_failure_from f events
last_failure_from f (failure g ∷ events) = last_failure_from (some g) events

abbrev pub value : ResultType → ℤ
value result_pass = pos 0
value result_skipped = pos 0
value type = pos 1

-- The captured output: NULL, or the text and a 0.
abbrev pub Delivers : List ℕ → Option Output → Type 0
Delivers [] o = o ≡ none
Delivers (x ∷ text) o = (b : Output) × ((o ≡ some b) × (b.data_bytes ≡ (x ∷ text) ++ (0 ∷ [])))

module _ {F : Type 0} where
  -- The failure and the value that a type of result comes with.
  abbrev pub reported : ResultType → List (Event F) → Option (Failure F)
  reported result_pass es = none
  reported type es = option_map from_child (last_failure_from none es)

  consume_lem :
      (c : Consumer F) (es : List (Event F))
      → (consume c es).last_failure ≡ last_failure_from c.last_failure es
  unfolding consume child_event_consumer_on_event
  consume_lem c [] = refl
  consume_lem c (stage_change s ∷ es) = consume_lem (record c { stage = s }) es
  consume_lem c (failure f ∷ es) = consume_lem (record c { last_failure = some f }) es

  exit_verdict_lem :
      (type : ResultType) (w : Waiting F)
      → let w' = exit_verdict type w in
        (w'.retval ≡ value type)
        × (w'.result.type ≡ type)
        × (w'.result.failure ≡ reported type w.events_reader.events)
  unfolding exit_verdict set_failure ctest_result_set_failure consumer child_event_consumer_init
  exit_verdict_lem result_pass w = (refl, refl, refl)
  exit_verdict_lem result_fail w = (
    refl,
    refl,
    ap (option_map from_child) (consume_lem child_event_consumer_init w.events_reader.events),
  )
  exit_verdict_lem result_skipped w = (
    refl,
    refl,
    ap (option_map from_child) (consume_lem child_event_consumer_init w.events_reader.events),
  )
  exit_verdict_lem result_error w = (
    refl,
    refl,
    ap (option_map from_child) (consume_lem child_event_consumer_init w.events_reader.events),
  )

  deliver_lem :
      (text : List ℕ) (room : Bool) (b : Built) (w : Waiting F)
      → Builds true room text b
      → (o : Option Output) × ((deliver b w ≡ some (w.retval, record w.result { output = o }))
          × Delivers text o)
  unfolding deliver
  deliver_lem [] room b w e = rw (e, deliver) (none, (refl, refl))
  deliver_lem (x ∷ text) room b w (o, e, bytes, _) =
      rw (e, deliver) (some o, (refl, (o, (refl, bytes))))

module _ {F : Type 0} (storage : Storage F) where
  drained_lem :
      (es : List (Event F)) (text : List ℕ) (status : ℕ) (w : Waiting F)
      → Drained storage es text w
      → let type = coerce_result_type status in
        (r' : Result (Failure F) Output) × ((deliver
              (output_reader_build true w.output_reader).0
              (finish (exited status) w)
            ≡ some (value type, r'))
          × ((r'.type ≡ type) × (r'.failure ≡ reported type es) × Delivers text r'.output))
  unfolding finish
  drained_lem es text status w drained =
      let type : ResultType = coerce_result_type status in
      let room : Bool = ltb w.output_reader.length (output_length w.output_reader.output) in
      let b : Built = (output_reader_build true w.output_reader).0 in
      let built_all : Builds true room text b =
        subst (λ (l : List ℕ). Builds true room l b) drained.captured
          (output_reader_build-Builds true w.output_reader drained.is_sized) in
      let (value_same, type_same, failure_same) = exit_verdict_lem type w in
      let (o, (delivered, all)) = deliver_lem text room b (exit_verdict type w) built_all in
      let r' : Result (Failure F) Output = record (exit_verdict type w).result { output = o } in
      (
        r',
        (
          delivered ∙ ap (λ (v : ℤ). some (v, r')) value_same,
          (type_same, failure_same ∙ ap (reported type) drained.told, all),
        ),
      )

  -- wait_for_child__ on a child that reports `es`, writes `text` and exits with `status` ends, and
  -- gives a result of the type that the status stands for, with the last failure reported unless
  -- the test passed, and all of the text. It returns 1 for FAIL and ERROR. The descriptors are not
  -- 0, allocations succeed, and both pipes can be read in more rounds than they carry bytes.
  pub wait_for_child-reports :
      (es : List (Event F)) (text : List ℕ) (ns : List (ℕ × ℕ)) (status hooks output : ℕ)
      (r : Result (Failure F) Output)
      → AllSendable storage es
      → length (written storage es) < length ns
      → length text < length ns
      → let type = coerce_result_type status in
        (r' : Result (Failure F) Output) × ((wait_for_child storage
              (all_readable storage ns)
              (exited status)
              true
              r
              (suc hooks)
              (suc output)
              (written storage es)
              text
            ≡ some (value type, r'))
          × ((r'.type ≡ type) × (r'.failure ≡ reported type es) × Delivers text r'.output))
  unfolding wait_for_child start_waiting exec_event_reader_init reader_prep_next_msg
      output_reader_init
  wait_for_child-reports es text ns status hooks output r s p q =
      let (w, (run, drained)) =
        poll_loop-Drained storage es text ns
          (start_waiting r (suc hooks) (suc output) (written storage es) text)
          (
            record {
              pending = es;
              phase = in_header (init-InHeader storage es);
              sendable = s;
              events_same = refl;
              hooks_going = inl (hooks, (refl, p));
            },
            record { sized = refl; text_same = refl; output_going = inl (output, (refl, q)) },
          ) in
      let (r', (delivered, facts)) = drained_lem es text status w drained in
      (r', (rw (run, wait_for_child) delivered, facts))
