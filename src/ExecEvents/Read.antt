-- ===== src/ExecEvents/Read.antt =====
-- A read of the reader of src/exec/exec_events.c, in each phase of a message.
use ctest.Prelude.{
  ℕ, ◌+◌, ◌-◌, ◌≤◌, ◌≡◌, refl, ap, ◌∙◌, sym, true, List, [], ◌∷◌, ◌++◌, some, leb, length, take,
  append_assoc, Bool-cases, inl, inr, arith,
}
use ctest.Pipe.{grants, taken, left}
use ctest.Output.Reader.{store}
use ctest.ExecEvents.{Event, stage_change, failure, Storage, bytes_of}
use ctest.ExecEvents.Writer.{written}
use ctest.ExecEvents.Reader.{
  on_msg_header_done, on_msg_body_done, Reader, reader_on_msg_header_done, call_on_done, after_read,
}
use ctest.ExecEvents.Done.{header_done, stage_done_lem, failure_done_lem}
use ctest.ExecEvents.Phase.{
  length-store-chunk, take-store-chunk, take-all, AllSendable, InHeader, InStage, InFailure, Phase,
  in_header, in_stage, in_failure,
}

-- A read into the memory `w` of `cap` bytes behind the first `ofs`: with what is left of `rest` it
-- makes up `target`, all of `w` once it is full.
read_into :
    (w : List ℕ) (ofs cap n : ℕ) (rest target : List ℕ)
    → length w ≡ cap
    → ofs ≤ cap
    → take ofs w ++ rest ≡ target
    → let bytes = taken (grants n) (cap - ofs) rest in
      let w' = store w ofs bytes in
      let rest' = left (grants n) (cap - ofs) rest in
      (length w' ≡ cap)
      × (take (ofs + length bytes) w' ++ rest' ≡ target)
      × (leb cap (ofs + length bytes) ≡ true → w' ++ rest' ≡ target)
read_into w ofs cap n rest target size o ahead =
    let bytes : List ℕ = taken (grants n) (cap - ofs) rest in
    let w' : List ℕ = store w ofs bytes in
    let rest' : List ℕ = left (grants n) (cap - ofs) rest in
    let size' : length w' ≡ cap = length-store-chunk w ofs cap n rest size o in
    let ahead' : take (ofs + length bytes) w' ++ rest' ≡ target =
      take-store-chunk w ofs cap n rest size o ∙ ahead in
    (
      size',
      ahead',
      λ t.
          let all : take (ofs + length bytes) w' ≡ w' =
            take-all (ofs + length bytes) w' (ground arith) in
          ap (λ (l : List ℕ). l ++ rest') (sym all) ∙ ahead',
    )

module _ {F : Type 0} (storage : Storage F) where
  -- The reader after a read of `bytes` into the word, or into the block.
  abbrev pub word_read : Reader F → List ℕ → Reader F
  word_read r bytes = record r { ofs = r.ofs + length bytes; word = store r.word r.ofs bytes }

  abbrev pub block_read : Reader F → List ℕ → Reader F
  block_read r bytes = record r { ofs = r.ofs + length bytes; block = store r.block r.ofs bytes }

  -- What a read that ends in `r1` leads to.
  abbrev pub Goes : Reader F → List (Event F) → List (Event F) → List ℕ → Reader F → Type 0
  Goes r1 es es' rest' r' =
      (after_read storage true r1 ≡ some r')
      × Phase storage r' es' rest'
      × (r'.events ++ es' ≡ r1.events ++ es)
      × AllSendable storage es'

  pub header_read :
      (r : Reader F) (es : List (Event F)) (rest : List ℕ) (n : ℕ)
      → AllSendable storage es
      → InHeader storage r es rest
      → (r' : Reader F) × (es' : List (Event F)) × Goes
          (word_read r (taken (grants n) (r.cap - r.ofs) rest))
          es
          es'
          (left (grants n) (r.cap - r.ofs) rest)
          r'
  unfolding after_read call_on_done
  header_read r es rest n s h =
      let bytes : List ℕ = taken (grants n) (4 - r.ofs) rest in
      let rest' : List ℕ = left (grants n) (4 - r.ofs) rest in
      let (size, ahead', full) =
        read_into r.word r.ofs 4 n rest (written storage es) h.word_size
          (omega (arith, h.header_ofs)) h.ahead in
      let r1 : Reader F = record (word_read r bytes) { cap = 4; on_done = on_msg_header_done } in
      rw (h.header_cap, h.header_next)
        (elim (Bool-cases (leb 4 (r.ofs + length bytes))) [
          | inl t ↦
              let (phase, told) = header_done storage r1 es rest' s size (full t) in
              rw (t, after_read)
                (
                  reader_on_msg_header_done true r1,
                  es,
                  (refl, phase, ap (λ (l : List (Event F)). l ++ es) told, s),
                )
          | inr t ↦
              rw (t, after_read)
                (
                  r1,
                  es,
                  (
                    refl,
                    in_header (record {
                      at_header = h.at_header;
                      header_next = refl;
                      header_cap = refl;
                      header_ofs = ground arith;
                      word_size = size;
                      ahead = ahead';
                    }),
                    refl,
                    s,
                  ),
                )
        ])

  pub stage_read :
      (s : ℕ) (r : Reader F) (es : List (Event F)) (rest : List ℕ) (n : ℕ)
      → AllSendable storage es
      → InStage storage s r es rest
      → (r' : Reader F) × (es' : List (Event F)) × Goes
          (word_read r (taken (grants n) (r.cap - r.ofs) rest))
          (stage_change s ∷ es)
          es'
          (left (grants n) (r.cap - r.ofs) rest)
          r'
  unfolding after_read call_on_done
  stage_read s r es rest n ss h =
      let bytes : List ℕ = taken (grants n) (4 - r.ofs) rest in
      let rest' : List ℕ = left (grants n) (4 - r.ofs) rest in
      let (size, ahead', full) =
        read_into r.word r.ofs 4 n rest (bytes_of 4 s ++ written storage es) h.word_size
          (omega (arith, h.stage_ofs)) h.ahead in
      let r1 : Reader F = record (word_read r bytes) {
        cap = 4;
        len = 4;
        on_done = on_msg_body_done;
      } in
      rw (h.stage_cap, h.stage_len, h.stage_next)
        (elim (Bool-cases (leb 4 (r.ofs + length bytes))) [
          | inl t ↦
              let (r', done, header, told) =
                stage_done_lem storage r1 s es rest' h.small size h.stage_done refl (full t) in
              rw (t, after_read, done)
                (
                  r',
                  es,
                  (
                    refl,
                    in_header header,
                    ap (λ (l : List (Event F)). l ++ es) told
                        ∙ append_assoc r.events (stage_change s ∷ []) es,
                    ss,
                  ),
                )
          | inr t ↦
              rw (t, after_read)
                (
                  r1,
                  stage_change s ∷ es,
                  (
                    refl,
                    in_stage (record {
                      at_stage = h.at_stage;
                      stage_next = refl;
                      stage_done = h.stage_done;
                      stage_cap = refl;
                      stage_len = refl;
                      stage_ofs = ground arith;
                      word_size = size;
                      small = h.small;
                      ahead = ahead';
                    }),
                    refl,
                    (h.small, ss),
                  ),
                )
        ])

  pub failure_read :
      (f : F) (b : List ℕ) (r : Reader F) (es : List (Event F)) (rest : List ℕ) (n : ℕ)
      → AllSendable storage (failure f ∷ es)
      → InFailure storage f b r es rest
      → (r' : Reader F) × (es' : List (Event F)) × Goes
          (block_read r (taken (grants n) (r.cap - r.ofs) rest))
          (failure f ∷ es)
          es'
          (left (grants n) (r.cap - r.ofs) rest)
          r'
  unfolding after_read call_on_done
  failure_read f b r es rest n ss h =
      let k : ℕ = length b in
      let bytes : List ℕ = taken (grants n) (k - r.ofs) rest in
      let rest' : List ℕ = left (grants n) (k - r.ofs) rest in
      let (size, ahead', full) =
        read_into r.block r.ofs k n rest (b ++ written storage es) h.block_size
          (omega (arith, h.block_ofs)) h.ahead in
      let r1 : Reader F = record (block_read r bytes) {
        cap = k;
        len = k;
        on_done = on_msg_body_done;
      } in
      rw (h.block_cap, h.block_len, h.block_next)
        (elim (Bool-cases (leb k (r.ofs + length bytes))) [
          | inl t ↦
              let (r', done, header, told) =
                failure_done_lem storage r1 f b es rest' h.read_back h.word_size size (ground arith)
                  h.at_block h.block_done (ground arith) (full t) in
              rw (t, after_read, done)
                (
                  r',
                  es,
                  (
                    refl,
                    in_header header,
                    ap (λ (l : List (Event F)). l ++ es) told
                        ∙ append_assoc r.events (failure f ∷ []) es,
                    ss.1,
                  ),
                )
          | inr t ↦
              rw (t, after_read)
                (
                  r1,
                  failure f ∷ es,
                  (
                    refl,
                    in_failure (record {
                      at_block = h.at_block;
                      block_next = refl;
                      block_done = h.block_done;
                      block_cap = refl;
                      block_len = refl;
                      block_ofs = ground arith;
                      word_size = h.word_size;
                      block_size = size;
                      read_back = h.read_back;
                      ahead = ahead';
                    }),
                    refl,
                    ss,
                  ),
                )
        ])
