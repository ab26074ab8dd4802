-- ===== src/ExecEvents/Reader.antt =====
-- The reader of src/exec/exec_events.c: a state machine that is called for each piece of data.
use ctest.Prelude.{
  ℕ, zero, suc, ◌+◌, ◌-◌, min, ℤ, negsuc, Bool, true, false, List, [], ◌∷◌, ◌++◌, Option, none,
  some, ◌==◌, ltb, leb, if◌then◌else◌, length, take, drop, replicate,
}
use ctest.Pipe.{Answer, fails, grants, taken, left, read_rc}
use ctest.Output.Reader.{store}
use ctest.ExecEvents.{Event, stage_change, failure, Storage, value_of}
use ctest.ExecEvents.Writer.{exec_event_stage_change, exec_event_failure, stage_size}

-- What `reader->buf` points to.
pub data Buf : Type 0 where
  null_buf : Buf
  header_buf : Buf
  stage_buf : Buf
  failure_buf : Buf

-- `reader->on_done`
pub data OnDone : Type 0 where
  on_msg_header_done : OnDone
  on_msg_body_done : OnDone
  prep_next_msg : OnDone

-- `reader->state.read_body.on_done`
pub data BodyOnDone : Type 0 where
  on_ignored_msg_done : BodyOnDone
  on_state_change_done : BodyOnDone
  on_failure_done : BodyOnDone

-- `word` is the memory that the header and the stage share in the union, `block` what malloc gave
-- for a failure, and `events` what the consumer was told.
pub record Reader (F : Type 0) : Type 0 where
  pub buf : Buf
  pub ofs : ℕ
  pub cap : ℕ
  pub len : ℕ
  pub word : List ℕ
  pub block : List ℕ
  pub body_on_done : BodyOnDone
  pub on_done : OnDone
  pub events : List (Event F)

-- sizeof(exec_event_msg_header_t__)
abbrev pub header_size : ℕ
header_size = 4

-- Where read(2) puts the bytes: `none` is an address that is neither NULL nor mapped, which fails
-- since the reader asks for one byte at least there: it has less than the capacity.
unfoldable pub destination : Buf → ℕ → Option Buf
destination null_buf zero = some null_buf
destination null_buf (suc ofs) = none
destination b ofs = some b

-- The garbage buffer is 1024 bytes long.
unfoldable pub room : Buf → ℕ → ℕ
room null_buf n = min n 1024
room b n = n

module _ {F : Type 0} where
  unfoldable pub reader_prep_next_msg : Reader F → Reader F
  reader_prep_next_msg r = record r {
    buf = header_buf;
    ofs = 0;
    cap = header_size;
    len = header_size;
    on_done = on_msg_header_done;
  }

  -- memset, and the first message.
  unfoldable pub exec_event_reader_init : Reader F
  exec_event_reader_init = reader_prep_next_msg (record {
    buf = null_buf;
    ofs = 0;
    cap = 0;
    len = 0;
    word = replicate 4 0;
    block = [];
    body_on_done = on_ignored_msg_done;
    on_done = prep_next_msg;
    events = [];
  })

  -- The switch on the type of a message of `n` bytes; `allocated` says whether malloc succeeds.
  unfoldable pub prep_body : Bool → ℕ → ℕ → Reader F → Reader F
  prep_body allocated type n r =
      if type == exec_event_stage_change
      then (if leb stage_size n
          then record r { buf = stage_buf; cap = stage_size; body_on_done = on_state_change_done }
          else r)
      else if type == exec_event_failure
      then record r {
        buf = if allocated then failure_buf else null_buf;
        block = replicate n 0;
        body_on_done = on_failure_done;
      }
      else r

  unfoldable pub reader_on_msg_header_done : Bool → Reader F → Reader F
  reader_on_msg_header_done allocated r =
      let type = value_of (take 2 r.word) in
      let n = value_of (take 2 (drop 2 r.word)) in
      prep_body allocated type n (record r {
        buf = null_buf;
        ofs = 0;
        cap = n;
        len = n;
        body_on_done = on_ignored_msg_done;
        on_done = on_msg_body_done;
      })

  -- The rest of a message that is longer than expected is dropped.
  unfoldable pub reader_after_body : Reader F → Reader F
  reader_after_body r =
      if ltb r.cap r.len
      then record r { buf = null_buf; cap = r.len; on_done = prep_next_msg }
      else reader_prep_next_msg r

  -- The bytes that are read, at their place, and `reader->ofs += rc`.
  unfoldable pub receive : Buf → List ℕ → Reader F → Reader F
  receive null_buf bytes r = record r { ofs = r.ofs + length bytes }
  receive failure_buf bytes r = record r {
    ofs = r.ofs + length bytes;
    block = store r.block r.ofs bytes;
  }
  receive b bytes r = record r { ofs = r.ofs + length bytes; word = store r.word r.ofs bytes }

  unfoldable pub tell : Event F → Reader F → Reader F
  tell e r = record r { events = r.events ++ (e ∷ []) }

module _ {F : Type 0} (storage : Storage F) where
  -- `none` is a read through a NULL pointer.
  unfoldable pub reader_on_failure_done : Buf → Reader F → Option (Reader F)
  reader_on_failure_done failure_buf r = elim (storage.deserialize (take r.ofs r.block)) [
    | none ↦ some r
    | some f ↦ some (tell (failure f) r)
  ]
  reader_on_failure_done b r = none

  unfoldable pub body_done : BodyOnDone → Reader F → Option (Reader F)
  body_done on_ignored_msg_done r = some r
  body_done on_state_change_done r =
      some (tell (stage_change (value_of (take stage_size r.word))) r)
  body_done on_failure_done r = reader_on_failure_done r.buf r

  unfoldable pub reader_on_msg_body_done : Reader F → Option (Reader F)
  reader_on_msg_body_done r = elim (body_done r.body_on_done r) [
    | none ↦ none
    | some r' ↦ some (reader_after_body r')
  ]

  unfoldable pub call_on_done : Bool → OnDone → Reader F → Option (Reader F)
  call_on_done allocated on_msg_header_done r = some (reader_on_msg_header_done allocated r)
  call_on_done allocated on_msg_body_done r = reader_on_msg_body_done r
  call_on_done allocated prep_next_msg r = some (reader_prep_next_msg r)

  unfoldable pub after_read : Bool → Reader F → Option (Reader F)
  after_read allocated r = elim (leb r.cap r.ofs) [
    | true ↦ call_on_done allocated r.on_done r
    | false ↦ some r
  ]

  -- reader_op_on_data_available__ on the bytes that wait: its value, the reader, the bytes left.
  unfoldable pub reader_on_data_available :
      Bool → Answer → Reader F → List ℕ → Option (ℤ × Reader F × List ℕ)
  reader_on_data_available allocated (fails n) r stream = some (negsuc n, r, stream)
  reader_on_data_available allocated (grants n) r stream = elim (destination r.buf r.ofs) [
    | none ↦ some (negsuc 0, r, stream)
    | some b ↦
        let k = room b (r.cap - r.ofs) in
        let bytes = taken (grants n) k stream in
        elim (after_read allocated (receive b bytes r)) [
          | none ↦ none
          | some r' ↦ some (read_rc (grants n) k stream, r', left (grants n) k stream)
        ]
  ]

  -- The calls for a sequence of answers.
  unfoldable pub run_reader : List Answer → Reader F → List ℕ → Option (Reader F × List ℕ)
  run_reader [] r stream = some (r, stream)
  run_reader (k ∷ answers) r stream = elim (reader_on_data_available true k r stream) [
    | none ↦ none
    | some (_, r', stream') ↦ run_reader answers r' stream'
  ]
