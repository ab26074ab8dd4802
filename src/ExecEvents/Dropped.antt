-- ===== src/ExecEvents/Dropped.antt =====
-- The reader of src/exec/exec_events.c on a message of an unknown type, which it means to drop.
use ctest.Prelude.{
  ℕ, suc, ◌+◌, ◌-◌, ◌^◌, ◌≤◌, ◌<◌, ◌≡◌, refl, ap, ap₂, ◌∙◌, true, false, List, [], ◌∷◌, ◌++◌,
  Option, none, some, ℤ, ◌==◌, leb, min, length, take, drop, map, length-take, arith, pos,
}
use ctest.Pipe.{grants}
use ctest.Output.Reader.{store}
use ctest.ExecEvents.{Storage, bytes_of}
use ctest.ExecEvents.Bytes.{header-type, header-length}
use ctest.ExecEvents.Writer.{header_of}
use ctest.ExecEvents.Reader.{
  Reader, null_buf, on_ignored_msg_done, on_msg_body_done, destination, room, receive, after_read,
  call_on_done, prep_body, reader_on_msg_header_done, reader_on_data_available,
  exec_event_reader_init, reader_prep_next_msg, run_reader,
}
use ctest.ExecEvents.RoundTrip.{null_buf-stuck}

module _ {F : Type 0} (storage : Storage F) where
  -- The reader once it has `ofs` bytes of a message of `n` bytes that is to be dropped.
  abbrev pub dropping : List ℕ → ℕ → ℕ → Reader F
  dropping word n ofs = record {
    buf = null_buf;
    ofs = ofs;
    cap = n;
    len = n;
    word = word;
    block = [];
    body_on_done = on_ignored_msg_done;
    on_done = on_msg_body_done;
    events = [];
  }

  prep_body-unknown : (type n : ℕ) (r : Reader F) → 2 ≤ type → prep_body true type n r ≡ r
  unfolding prep_body
  prep_body-unknown type n r p =
      let no_stage : (type == 0) ≡ false = ground arith in
      let no_failure : (type == 1) ≡ false = ground arith in rw (no_stage, no_failure) refl

  header-dropping :
      (type n : ℕ) (body : List ℕ)
      → 2 ≤ type
      → type < 2 ^ 16
      → n < 2 ^ 16
      → reader_on_data_available storage true
          (grants 3)
          exec_event_reader_init
          (header_of type n ++ body)
        ≡ some (pos 4, dropping (header_of type n) n 0, body)
  unfolding reader_on_data_available destination room receive after_read call_on_done
      reader_on_msg_header_done exec_event_reader_init reader_prep_next_msg store header_of bytes_of
  header-dropping type n body p q r =
      ap₂ (λ (t m : ℕ). some (pos 4, prep_body true t m (dropping (header_of type n) m 0), body))
        (header-type type n q) (header-length type n ∙ omega (arith, r))
      ∙ ap (λ (r : Reader F). some (pos 4, r, body))
          (prep_body-unknown type n (dropping (header_of type n) n 0) p)

  after_read-dropping :
      (word : List ℕ) (n ofs : ℕ)
      → ofs < n
      → after_read storage true (dropping word n ofs) ≡ some (dropping word n ofs)
  unfolding after_read
  after_read-dropping word n ofs p =
      let more : leb n ofs ≡ false = ground arith in rw (more, after_read) refl

  body-dropping :
      (word : List ℕ) (n k : ℕ) (body : List ℕ)
      → suc k < n
      → suc k ≤ 1024
      → suc k ≤ length body
      → reader_on_data_available storage true (grants k) (dropping word n 0) body
        ≡ some (pos (suc k), dropping word n (suc k), drop (suc k) body)
  unfolding reader_on_data_available destination room receive
  body-dropping word n k body p q r =
      let read : ℕ → Option (ℤ × Reader F × List ℕ) = λ m.
        elim (after_read storage true (dropping word n (0 + length (take m body)))) [
          | none ↦ none
          | some r' ↦ some (pos (length (take m body)), r', drop m body)
        ] in
      let told : ℕ → Option (ℤ × Reader F × List ℕ) = λ m.
        elim (after_read storage true (dropping word n (0 + m))) [
          | none ↦ none
          | some r' ↦ some (pos m, r', drop (suc k) body)
        ] in
      let piece : min (min (n - 0) 1024) (suc k) ≡ suc k = omega (arith, p, q) in
      let len : length (take (suc k) body) ≡ suc k = omega (arith, length-take (suc k) body, r) in
      let next : 0 + suc k ≡ suc k = omega arith in
      ap read piece
      ∙ ap told len
      ∙ ap
          (λ (o : Option (Reader F)). elim o [
            | none ↦ none
            | some r' ↦ some (pos (suc k), r', drop (suc k) body)
          ])
          (ap (λ (m : ℕ). after_read storage true (dropping word n m)) next
            ∙ after_read-dropping word n (suc k) p)

  -- A message of an unknown type is not dropped when its body comes in pieces: after its header and
  -- the first piece of its body the reader never reads again, however often it is called. The
  -- consumer has been told nothing, and the rest of the pipe stays there, with all messages behind
  -- it. The header comes in one piece, and the first piece of the body is shorter than the body and
  -- is at most 1024 bytes long.
  pub run_reader-stuck :
      (type n k : ℕ) (body : List ℕ) (ns : List ℕ)
      → 2 ≤ type
      → type < 2 ^ 16
      → n < 2 ^ 16
      → suc k < n
      → suc k ≤ 1024
      → suc k ≤ length body
      → (r : Reader F) × ((run_reader storage
              (grants 3 ∷ grants k ∷ map grants ns)
              exec_event_reader_init
              (header_of type n ++ body)
            ≡ some (r, drop (suc k) body))
          × (r.events ≡ []))
  unfolding run_reader
  run_reader-stuck type n k body ns unknown small short partial fits enough =
      let word : List ℕ = header_of type n in
      let stuck : Reader F = dropping word n (suc k) in
      (
        stuck,
        (
          rw
              (
                header-dropping type n body unknown small short,
                run_reader,
                body-dropping word n k body partial fits enough,
                run_reader,
              )
              (null_buf-stuck storage ns stuck (drop (suc k) body) refl (omega arith)),
          refl,
        ),
      )
