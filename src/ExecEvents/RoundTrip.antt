-- ===== src/ExecEvents/RoundTrip.antt =====
-- The writer and the reader of src/exec/exec_events.c together.
use ctest.Prelude.{
  ℕ, zero, suc, ◌+◌, ◌≤◌, ◌<◌, ◌≡◌, refl, ap, ◌∙◌, sym, negsuc, true, List, [], ◌∷◌, ◌++◌, none,
  some, length, take, map, append-nil, length-append, length-take, arith,
}
use ctest.Pipe.{Answer, fails, grants}
use ctest.ExecEvents.{Event, stage_change, failure, Storage, bytes_of}
use ctest.ExecEvents.Bytes.{length-bytes_of, length-header_of}
use ctest.ExecEvents.Writer.{header_of, written}
use ctest.ExecEvents.Reader.{
  Buf, null_buf, Reader, destination, exec_event_reader_init, reader_prep_next_msg,
  reader_on_data_available, run_reader,
}
use ctest.ExecEvents.Phase.{
  AllSendable, written-stage_change, written-failure, InHeader, Phase, in_header, in_stage,
  in_failure,
}
use ctest.ExecEvents.Step.{Moved, reader_on_data_available-Moved}

-- What is read of a part, at the end of the stream.
short : (n : ℕ) (w xs ys : List ℕ) → take n w ++ [] ≡ xs ++ ys → length xs + length ys ≤ n
short n w xs ys e =
    let t : length (take n w) + 0 ≡ length xs + length ys =
      sym (length-append (take n w) []) ∙ ap length e ∙ length-append xs ys in
    omega (arith, t, length-take n w)

null-destination : (o : ℕ) → 1 ≤ o → destination null_buf o ≡ none
unfolding destination
null-destination zero p = ground arith
null-destination (suc o) p = refl

module _ {F : Type 0} (storage : Storage F) where
  pub init-InHeader :
      (es : List (Event F)) → InHeader storage exec_event_reader_init es (written storage es)
  unfolding exec_event_reader_init reader_prep_next_msg
  init-InHeader es = record {
    at_header = refl;
    header_next = refl;
    header_cap = refl;
    header_ofs = omega arith;
    word_size = refl;
    ahead = refl;
  }

  run_reader-fails :
      (n : ℕ) (answers : List Answer) (r : Reader F) (rest : List ℕ)
      → run_reader storage (fails n ∷ answers) r rest ≡ run_reader storage answers r rest
  unfolding run_reader reader_on_data_available
  run_reader-fails n answers r rest = refl

  -- What was told and what is to come, after any calls.
  run_reader_lem :
      (answers : List Answer) (r : Reader F) (es : List (Event F)) (rest : List ℕ)
      → AllSendable storage es
      → Phase storage r es rest
      → (r' : Reader F) × (es' : List (Event F)) × (rest' : List ℕ) × ((run_reader storage answers r
              rest
            ≡ some (r', rest'))
          × Phase storage r' es' rest'
          × (r'.events ++ es' ≡ r.events ++ es))
  unfolding run_reader
  run_reader_lem [] r es rest s p = (r, es, rest, (refl, p, refl))
  run_reader_lem (fails n ∷ answers) r es rest s p =
      let (r', es', rest', (run, phase, same)) = run_reader_lem answers r es rest s p in
      (r', es', rest', (run_reader-fails n answers r rest ∙ run, phase, same))
  run_reader_lem (grants n ∷ answers) r es rest s p =
      let m : Moved storage r es rest (reader_on_data_available storage true (grants n) r rest) =
        reader_on_data_available-Moved storage n r es rest s p in
      let (r', es', rest', (run, phase, same)) =
        run_reader_lem answers m.reader m.pending m.stream m.sendable m.phase in
      (r', es', rest', (rw (m.result, run_reader) run, phase, same ∙ m.same))

  -- At the end of the stream nothing is to come.
  written-empty :
      (es : List (Event F)) → AllSendable storage es → length (written storage es) < 4 → es ≡ []
  written-empty [] s p = refl
  written-empty (stage_change n ∷ es) s p =
      let l : length (written storage (stage_change n ∷ es)) ≡ _ =
        ap length (written-stage_change storage n es)
        ∙ length-append (header_of 0 4) (bytes_of 4 n ++ written storage es) in
      let h : length (header_of 0 4) ≡ 4 = length-header_of 0 4 in ground arith
  written-empty (failure f ∷ es) ((b, eb, _, _, _), _) p =
      let l : length (written storage (failure f ∷ es)) ≡ _ =
        ap length (written-failure storage f b es eb)
        ∙ length-append (header_of 1 (length b)) (b ++ written storage es) in
      let h : length (header_of 1 (length b)) ≡ 4 = length-header_of 1 (length b) in ground arith

  pub Phase-end :
      (r : Reader F) (es : List (Event F))
      → AllSendable storage es
      → Phase storage r es []
      → es ≡ []
  Phase-end r es s (in_header h) =
      written-empty es s
        (omega (arith, h.header_ofs, short r.ofs r.word [] (written storage es) h.ahead))
  Phase-end r es0 s (in_stage {s = stage} {es = es} h) =
      let l : 4 + length (written storage es) ≤ r.ofs = omega (
        arith,
        length-bytes_of 4 stage,
        short r.ofs r.word (bytes_of 4 stage) (written storage es) h.ahead,
      ) in
      let o : r.ofs < 4 = h.stage_ofs in ground arith
  Phase-end r es0 s (in_failure {f = f} {b = block} {es = es} h) =
      let l : length block + length (written storage es) ≤ r.ofs =
        short r.ofs r.block block (written storage es) h.ahead in
      let o : r.ofs < length block = h.block_ofs in ground arith

  run_reader-all :
      (ns : List ℕ) (r : Reader F) (es : List (Event F)) (rest : List ℕ)
      → AllSendable storage es
      → Phase storage r es rest
      → length rest ≤ length ns
      → (r' : Reader F) × ((run_reader storage (map grants ns) r rest ≡ some (r', []))
          × (r'.events ≡ r.events ++ es))
  unfolding run_reader
  run_reader-all [] r es [] s p q = (
    r,
    (
      refl,
      sym (append-nil r.events)
          ∙ ap (λ (l : List (Event F)). r.events ++ l) (sym (Phase-end r es s p)),
    ),
  )
  run_reader-all [] r es (x ∷ rest) s p q = ground arith
  run_reader-all (n ∷ ns) r es rest s p q =
      let m : Moved storage r es rest (reader_on_data_available storage true (grants n) r rest) =
        reader_on_data_available-Moved storage n r es rest s p in
      let (r', (run, told)) =
        run_reader-all ns m.reader m.pending m.stream m.sendable m.phase
          (omega (arith, q, m.shorter)) in
      (r', (rw (m.result, run_reader) run, told ∙ m.same))

  -- Whatever the pieces in which the stream comes, and whichever reads fail, the consumer is told a
  -- first part of the reported events, in order, if each is one that a message can carry.
  pub run_reader-prefix :
      (answers : List Answer) (es : List (Event F))
      → AllSendable storage es
      → (r : Reader F) × (later : List (Event F)) × (rest : List ℕ) × ((run_reader storage answers
              exec_event_reader_init
              (written storage es)
            ≡ some (r, rest))
          × (r.events ++ later ≡ es))
  unfolding exec_event_reader_init reader_prep_next_msg
  run_reader-prefix answers es s =
      let (r, later, rest, (run, _, same)) =
        run_reader_lem answers exec_event_reader_init es (written storage es) s
          (in_header (init-InHeader es)) in
      (r, later, rest, (run, same))

  -- The consumer is told the reported events, all and in order, when the reader was called as often
  -- as there are bytes, however few of them each call gets, if each is one that a message can carry.
  pub run_reader-written :
      (ns : List ℕ) (es : List (Event F))
      → AllSendable storage es
      → length (written storage es) ≤ length ns
      → (r : Reader F) × ((run_reader storage
              (map grants ns)
              exec_event_reader_init
              (written storage es)
            ≡ some (r, []))
          × (r.events ≡ es))
  unfolding exec_event_reader_init reader_prep_next_msg
  run_reader-written ns es s p =
      run_reader-all ns exec_event_reader_init es (written storage es) s
        (in_header (init-InHeader es)) p

  null_buf-fails :
      (n : ℕ) (r : Reader F) (rest : List ℕ)
      → r.buf ≡ null_buf
      → 1 ≤ r.ofs
      → reader_on_data_available storage true (grants n) r rest ≡ some (negsuc 0, r, rest)
  unfolding reader_on_data_available
  null_buf-fails n r rest e p =
      let d : destination r.buf r.ofs ≡ none =
        ap (λ (b : Buf). destination b r.ofs) e ∙ null-destination r.ofs p in
      rw (d, reader_on_data_available) refl

  pub null_buf-stuck :
      (ns : List ℕ) (r : Reader F) (rest : List ℕ)
      → r.buf ≡ null_buf
      → 1 ≤ r.ofs
      → run_reader storage (map grants ns) r rest ≡ some (r, rest)
  unfolding run_reader
  null_buf-stuck [] r rest e p = refl
  null_buf-stuck (n ∷ ns) r rest e p =
      rw (null_buf-fails n r rest e p, run_reader) (null_buf-stuck ns r rest e p)
