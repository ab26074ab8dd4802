-- ===== src/ExecEvents/Phase.antt =====
-- Where the reader of src/exec/exec_events.c is in the stream: what it has of a message, with what
-- waits in the pipe, is what the writer has to say.
use ctest.Prelude.{
  ℕ, zero, suc, ◌+◌, ◌-◌, ◌^◌, ◌≤◌, ◌<◌, ◌≡◌, refl, ap, ◌∙◌, List, [], ◌∷◌, ◌++◌, some, length,
  take, append_assoc, arith,
}
use ctest.Pipe.{grants, taken, left, taken-left, length-taken-le}
use ctest.Output.Reader.{store}
use ctest.Output.Sized.{length-store, take-store}
use ctest.ExecEvents.{Event, stage_change, failure, Storage, bytes_of}
use ctest.ExecEvents.Writer.{
  whole, header_of, write_message, writer_on_stage_change, writer_on_failure, writer_on_event,
  written, exec_event_stage_change, exec_event_failure,
}
use ctest.ExecEvents.Reader.{
  header_buf, stage_buf, failure_buf, on_msg_header_done, on_msg_body_done, on_state_change_done,
  on_failure_done, Reader,
}

-- One read into memory of `cap` bytes of which `ofs` are there.
pub length-chunk :
    (w : List ℕ) (ofs cap n : ℕ) (rest : List ℕ)
    → length w ≡ cap
    → ofs ≤ cap
    → ofs + length (taken (grants n) (cap - ofs) rest) ≤ cap
length-chunk w ofs cap n rest p q = omega (arith, p, q, length-taken-le (grants n) (cap - ofs) rest)

pub length-store-chunk :
    (w : List ℕ) (ofs cap n : ℕ) (rest : List ℕ)
    → length w ≡ cap
    → ofs ≤ cap
    → length (store w ofs (taken (grants n) (cap - ofs) rest)) ≡ cap
length-store-chunk w ofs cap n rest p q =
    length-store w ofs (taken (grants n) (cap - ofs) rest)
      (omega (arith, p, length-chunk w ofs cap n rest p q))
    ∙ p

pub take-store-chunk :
    (w : List ℕ) (ofs cap n : ℕ) (rest : List ℕ)
    → length w ≡ cap
    → ofs ≤ cap
    → let bytes = taken (grants n) (cap - ofs) rest in
      take (ofs + length bytes) (store w ofs bytes) ++ left (grants n) (cap - ofs) rest
      ≡ take ofs w ++ rest
take-store-chunk w ofs cap n rest p q =
    let bytes : List ℕ = taken (grants n) (cap - ofs) rest in
    let rest' : List ℕ = left (grants n) (cap - ofs) rest in
    ap (λ (b : List ℕ). b ++ rest') (take-store w ofs bytes (omega (arith, p, q)))
    ∙ append_assoc (take ofs w) bytes rest'
    ∙ ap (λ (b : List ℕ). take ofs w ++ b) (taken-left (grants n) (cap - ofs) rest)

pub take-all : (n : ℕ) (xs : List ℕ) → length xs ≤ n → take n xs ≡ xs
take-all zero [] p = refl
take-all zero (x ∷ xs) p = ground arith
take-all (suc n) [] p = refl
take-all (suc n) (x ∷ xs) p = ap (◌∷◌ x) (take-all n xs (omega (arith, p)))

module _ {F : Type 0} (storage : Storage F) where
  -- A stage is a 32-bit number; a failure has a block that its message can hold and that is read
  -- back.
  abbrev pub IsSendable : Event F → Type 0
  IsSendable (stage_change s) = s < 2 ^ 32
  IsSendable (failure f) =
      (b : List ℕ) × (storage.serialize f ≡ some b)
      × (1 ≤ length b)
      × (length b < 2 ^ 16)
      × (storage.deserialize b ≡ some f)

  abbrev pub AllSendable : List (Event F) → Type 0
  AllSendable [] = record {}
  AllSendable (e ∷ es) = IsSendable e × AllSendable es

  pub record InHeader (r : Reader F) (es : List (Event F)) (rest : List ℕ) : Type 0 where
    pub at_header : r.buf ≡ header_buf
    pub header_next : r.on_done ≡ on_msg_header_done
    pub header_cap : r.cap ≡ 4
    pub header_ofs : r.ofs < 4
    pub word_size : length r.word ≡ 4
    pub ahead : take r.ofs r.word ++ rest ≡ written storage es

  pub record InStage (s : ℕ) (r : Reader F) (es : List (Event F)) (rest : List ℕ) : Type 0 where
    pub at_stage : r.buf ≡ stage_buf
    pub stage_next : r.on_done ≡ on_msg_body_done
    pub stage_done : r.body_on_done ≡ on_state_change_done
    pub stage_cap : r.cap ≡ 4
    pub stage_len : r.len ≡ 4
    pub stage_ofs : r.ofs < 4
    pub word_size : length r.word ≡ 4
    pub small : s < 2 ^ 32
    pub ahead : take r.ofs r.word ++ rest ≡ bytes_of 4 s ++ written storage es

  pub record InFailure (f : F) (b : List ℕ) (r : Reader F) (es : List (Event F)) (rest : List ℕ)
      : Type 0 where
    pub at_block : r.buf ≡ failure_buf
    pub block_next : r.on_done ≡ on_msg_body_done
    pub block_done : r.body_on_done ≡ on_failure_done
    pub block_cap : r.cap ≡ length b
    pub block_len : r.len ≡ length b
    pub block_ofs : r.ofs < length b
    pub word_size : length r.word ≡ 4
    pub block_size : length r.block ≡ length b
    pub read_back : storage.deserialize b ≡ some f
    pub ahead : take r.ofs r.block ++ rest ≡ b ++ written storage es

  pub data Phase (r : Reader F) : List (Event F) → List ℕ → Type 0 where
    in_header : {es : List (Event F)} {rest : List ℕ} → InHeader r es rest → Phase r es rest
    in_stage :
        {s : ℕ} {es : List (Event F)} {rest : List ℕ}
        → InStage s r es rest
        → Phase r (stage_change s ∷ es) rest
    in_failure :
        {f : F} {b : List ℕ} {es : List (Event F)} {rest : List ℕ}
        → InFailure f b r es rest
        → Phase r (failure f ∷ es) rest

  -- What the writer puts into the pipe for an event, header first.
  pub written-stage_change :
      (s : ℕ) (es : List (Event F))
      → written storage (stage_change s ∷ es)
        ≡ header_of exec_event_stage_change 4 ++ (bytes_of 4 s ++ written storage es)
  unfolding written writer_on_event writer_on_stage_change write_message bytes_of
  written-stage_change s es =
      append_assoc (header_of exec_event_stage_change 4) (bytes_of 4 s) (written storage es)

  writer_on_failure_lem :
      (f : F) (b : List ℕ)
      → storage.serialize f ≡ some b
      → writer_on_failure storage whole whole f ≡ header_of exec_event_failure (length b) ++ b
  unfolding writer_on_failure write_message
  writer_on_failure_lem f b e = rw (e, writer_on_failure) refl

  pub written-failure :
      (f : F) (b : List ℕ) (es : List (Event F))
      → storage.serialize f ≡ some b
      → written storage (failure f ∷ es)
        ≡ header_of exec_event_failure (length b) ++ (b ++ written storage es)
  unfolding written writer_on_event
  written-failure f b es e =
      ap (λ (w : List ℕ). w ++ written storage es) (writer_on_failure_lem f b e)
      ∙ append_assoc (header_of exec_event_failure (length b)) b (written storage es)
