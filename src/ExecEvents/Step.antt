-- ===== src/ExecEvents/Step.antt =====
-- One call of the reader of src/exec/exec_events.c moves it along the stream.
use ctest.Prelude.{
  ℕ, ◌+◌, ◌-◌, ◌≤◌, ◌≡◌, refl, ap, ◌∙◌, ℤ, pos, true, List, [], ◌∷◌, ◌++◌, Option, some, length,
  arith,
}
use ctest.Pipe.{grants, taken, left, read_rc, length-left, length-taken-left, taken-empty}
use ctest.ExecEvents.{Event, stage_change, failure, Storage}
use ctest.ExecEvents.Reader.{
  Buf, header_buf, stage_buf, failure_buf, Reader, destination, receive, room, after_read,
  reader_on_data_available,
}
use ctest.ExecEvents.Read.{word_read, block_read, Goes, header_read, stage_read, failure_read}
use ctest.ExecEvents.Phase.{AllSendable, Phase, in_header, in_stage, in_failure}

module _ {F : Type 0} (storage : Storage F) where
  -- A reader and the stream after a call: what it told and what is to come are as before.
  pub record Moved (r : Reader F) (es : List (Event F)) (rest : List ℕ)
      (o : Option (ℤ × Reader F × List ℕ)) : Type 0 where
    pub count : ℕ
    pub emptied : count ≡ 0 → rest ≡ []
    pub reader : Reader F
    pub pending : List (Event F)
    pub stream : List ℕ
    pub result : o ≡ some (pos count, reader, stream)
    pub phase : Phase storage reader pending stream
    pub same : reader.events ++ pending ≡ r.events ++ es
    pub sendable : AllSendable storage pending
    pub counted : count + length stream ≡ length rest
    pub shorter : length stream ≤ length rest - 1

  -- A call, by where the bytes go and what follows.
  call_lem :
      (r r1 r' : Reader F) (b : Buf) (n : ℕ) (rest : List ℕ)
      → destination r.buf r.ofs ≡ some b
      → receive b (taken (grants n) (room b (r.cap - r.ofs)) rest) r ≡ r1
      → after_read storage true r1 ≡ some r'
      → let k = room b (r.cap - r.ofs) in
        reader_on_data_available storage true (grants n) r rest
        ≡ some (read_rc (grants n) k rest, r', left (grants n) k rest)
  unfolding reader_on_data_available
  call_lem r r1 r' b n rest d g a = rw (d, g, a, reader_on_data_available) refl

  Goes-Moved :
      (r r1 r' : Reader F) (b : Buf) (es es' : List (Event F)) (n : ℕ) (rest : List ℕ)
      → destination r.buf r.ofs ≡ some b
      → 1 ≤ room b (r.cap - r.ofs)
      → r1.events ≡ r.events
      → receive b (taken (grants n) (room b (r.cap - r.ofs)) rest) r ≡ r1
      → Goes storage r1 es es' (left (grants n) (room b (r.cap - r.ofs)) rest) r'
      → Moved r es rest (reader_on_data_available storage true (grants n) r rest)
  Goes-Moved r r1 r' b es es' n rest d room_left untold g (a, phase, same, sendable) =
      let k : ℕ = room b (r.cap - r.ofs) in
      record {
        count = length (taken (grants n) k rest);
        emptied = taken-empty n k rest room_left;
        reader = r';
        pending = es';
        stream = left (grants n) k rest;
        result = call_lem r r1 r' b n rest d g a;
        phase = phase;
        same = same ∙ ap (λ (l : List (Event F)). l ++ es) untold;
        sendable = sendable;
        counted = length-taken-left (grants n) k rest;
        shorter = length-left n k rest room_left;
      }

  -- A call that the kernel answers keeps the reader in a sound phase, and takes at least one byte.
  pub reader_on_data_available-Moved :
      (n : ℕ) (r : Reader F) (es : List (Event F)) (rest : List ℕ)
      → AllSendable storage es
      → Phase storage r es rest
      → Moved r es rest (reader_on_data_available storage true (grants n) r rest)
  unfolding destination room receive
  reader_on_data_available-Moved n r es rest s (in_header h) =
      let (r', es', goes) = header_read storage r es rest n s h in
      Goes-Moved r (word_read storage r (taken (grants n) (r.cap - r.ofs) rest)) r' header_buf es
        es' n rest (ap (λ (b : Buf). destination b r.ofs) h.at_header)
        (omega (arith, h.header_cap, h.header_ofs)) refl refl goes
  reader_on_data_available-Moved n r es0 rest s (in_stage {s = stage} {es = es} h) =
      let (r', es', goes) = stage_read storage stage r es rest n s.1 h in
      Goes-Moved r (word_read storage r (taken (grants n) (r.cap - r.ofs) rest)) r' stage_buf
        (stage_change stage ∷ es) es' n rest (ap (λ (b : Buf). destination b r.ofs) h.at_stage)
        (omega (arith, h.stage_cap, h.stage_ofs)) refl refl goes
  reader_on_data_available-Moved n r es0 rest s (in_failure {f = f} {b = block} {es = es} h) =
      let (r', es', goes) = failure_read storage f block r es rest n s h in
      Goes-Moved r (block_read storage r (taken (grants n) (r.cap - r.ofs) rest)) r' failure_buf
        (failure f ∷ es) es' n rest (ap (λ (b : Buf). destination b r.ofs) h.at_block)
        (omega (arith, h.block_cap, h.block_ofs)) refl refl goes
