-- ===== src/ExecEvents/Done.antt =====
-- What the reader of src/exec/exec_events.c does when a header or a body is complete.
use ctest.Prelude.{
  ℕ, ◌+◌, ◌^◌, ◌≤◌, ◌<◌, ◌≡◌, refl, ap, ◌∙◌, sym, true, false, List, [], ◌∷◌, ◌++◌, some, ltb,
  length, take, drop, length-append, length-replicate, arith,
}
use ctest.ExecEvents.{Event, stage_change, failure, Storage, bytes_of, value_of}
use ctest.ExecEvents.Writer.{header_of, written}
use ctest.ExecEvents.Reader.{
  failure_buf, on_state_change_done, on_failure_done, Reader, reader_prep_next_msg, prep_body,
  reader_on_msg_header_done, reader_after_body, tell, reader_on_failure_done, body_done,
  reader_on_msg_body_done,
}
use ctest.ExecEvents.Bytes.{
  length-bytes_of, value_of-bytes_of_4, length-header_of, header-type, header-length, append-cancel,
}
use ctest.ExecEvents.Phase.{
  take-all, AllSendable, InHeader, Phase, in_stage, in_failure, written-stage_change,
  written-failure,
}

module _ {F : Type 0} (storage : Storage F) where
  -- The header of a message is complete.
  pub header_done :
      (r : Reader F) (es : List (Event F)) (rest : List ℕ)
      → AllSendable storage es
      → length r.word ≡ 4
      → r.word ++ rest ≡ written storage es
      → let r' = reader_on_msg_header_done true r in
        Phase storage r' es rest × (r'.events ≡ r.events)
  unfolding reader_on_msg_header_done prep_body written
  header_done r [] rest s p e =
      let z : length r.word + length rest ≡ 0 = sym (length-append r.word rest) ∙ ap length e in
      ground arith
  header_done r (stage_change n ∷ es) rest (s, ss) p e =
      let body : List ℕ = bytes_of 4 n ++ written storage es in
      let (ew, er) =
        append-cancel r.word rest (header_of 0 4) body (p ∙ sym (length-header_of 0 4))
          (e ∙ written-stage_change storage n es) in
      let type : value_of (take 2 r.word) ≡ 0 =
        ap (λ (w : List ℕ). value_of (take 2 w)) ew ∙ header-type 0 4 (omega arith) in
      let len : value_of (take 2 (drop 2 r.word)) ≡ 4 =
        ap (λ (w : List ℕ). value_of (take 2 (drop 2 w))) ew ∙ header-length 0 4 in
      rw (type, len)
        (
          in_stage (record {
            at_stage = refl;
            stage_next = refl;
            stage_done = refl;
            stage_cap = refl;
            stage_len = refl;
            stage_ofs = omega arith;
            word_size = p;
            small = s;
            ahead = er;
          }),
          refl,
        )
  header_done r (failure f ∷ es) rest ((b, eb, b1, b2, back), ss) p e =
      let n : ℕ = length b in
      let (ew, er) =
        append-cancel r.word rest (header_of 1 n) (b ++ written storage es)
          (p ∙ sym (length-header_of 1 n)) (e ∙ written-failure storage f b es eb) in
      let type : value_of (take 2 r.word) ≡ 1 =
        ap (λ (w : List ℕ). value_of (take 2 w)) ew ∙ header-type 1 n (omega arith) in
      let len : value_of (take 2 (drop 2 r.word)) ≡ n =
        ap (λ (w : List ℕ). value_of (take 2 (drop 2 w))) ew
        ∙ header-length 1 n
        ∙ omega (arith, b2) in
      rw (type, len)
        (
          in_failure (record {
            at_block = refl;
            block_next = refl;
            block_done = refl;
            block_cap = refl;
            block_len = refl;
            block_ofs = omega (arith, b1);
            word_size = p;
            block_size = length-replicate n 0;
            read_back = back;
            ahead = er;
          }),
          refl,
        )

  -- The body of a message is complete, and the next header is expected.
  pub next_header :
      (r : Reader F) (es : List (Event F)) (rest : List ℕ)
      → length r.word ≡ 4
      → rest ≡ written storage es
      → InHeader storage (reader_prep_next_msg r) es rest
  unfolding reader_prep_next_msg
  next_header r es rest p e = record {
    at_header = refl;
    header_next = refl;
    header_cap = refl;
    header_ofs = omega arith;
    word_size = p;
    ahead = e;
  }

  pub stage_done_lem :
      (r : Reader F) (n : ℕ) (es : List (Event F)) (rest : List ℕ)
      → n < 2 ^ 32
      → length r.word ≡ 4
      → r.body_on_done ≡ on_state_change_done
      → ltb r.cap r.len ≡ false
      → r.word ++ rest ≡ bytes_of 4 n ++ written storage es
      → (r' : Reader F) × (reader_on_msg_body_done storage r ≡ some r')
        × InHeader storage r' es rest
        × (r'.events ≡ r.events ++ (stage_change n ∷ []))
  unfolding reader_on_msg_body_done body_done reader_after_body tell reader_prep_next_msg
  stage_done_lem r n es rest s p d full e =
      let (ew, er) =
        append-cancel r.word rest (bytes_of 4 n) (written storage es)
          (p ∙ sym (length-bytes_of 4 n)) e in
      let told : value_of (take 4 r.word) ≡ n =
        ap value_of (take-all 4 r.word (omega (arith, p)) ∙ ew) ∙ value_of-bytes_of_4 n s in
      let r' : Reader F = record r {
        body_on_done = on_state_change_done;
        events = r.events ++ stage_change n ∷ [];
      } in
      rw (d, full, told) (reader_prep_next_msg r', refl, next_header r' es rest p er, refl)

  pub failure_done_lem :
      (r : Reader F) (f : F) (b : List ℕ) (es : List (Event F)) (rest : List ℕ)
      → storage.deserialize b ≡ some f
      → length r.word ≡ 4
      → length r.block ≡ length b
      → length b ≤ r.ofs
      → r.buf ≡ failure_buf
      → r.body_on_done ≡ on_failure_done
      → ltb r.cap r.len ≡ false
      → r.block ++ rest ≡ b ++ written storage es
      → (r' : Reader F) × (reader_on_msg_body_done storage r ≡ some r')
        × InHeader storage r' es rest
        × (r'.events ≡ r.events ++ (failure f ∷ []))
  unfolding reader_on_msg_body_done body_done reader_on_failure_done reader_after_body tell
      reader_prep_next_msg
  failure_done_lem r f b es rest back p q o at d full e =
      let (eb, er) = append-cancel r.block rest b (written storage es) q e in
      let told : storage.deserialize (take r.ofs r.block) ≡ some f =
        ap storage.deserialize (take-all r.ofs r.block (omega (arith, q, o)) ∙ eb) ∙ back in
      let r' : Reader F = record r {
        buf = failure_buf;
        body_on_done = on_failure_done;
        events = r.events ++ failure f ∷ [];
      } in
      rw (d, at, told, reader_on_msg_body_done, full)
        (reader_prep_next_msg r', refl, next_header r' es rest p er, refl)
