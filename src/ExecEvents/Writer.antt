-- ===== src/ExecEvents/Writer.antt =====
-- The writer of src/exec/exec_events.c: what its operations put into the pipe.
use ctest.Prelude.{
  ℕ, ◌%◌, ◌^◌, Bool, true, List, [], ◌∷◌, ◌++◌, none, some, length, take, leb, if◌then◌else◌,
}
use ctest.ExecEvents.{Event, stage_change, failure, Storage, bytes_of}

-- What write(2) accepts: all bytes, or only so many of them.
pub data Accepts : Type 0 where
  whole : Accepts
  at_most : ℕ → Accepts

abbrev pub accepted : Accepts → List ℕ → List ℕ
accepted whole bytes = bytes
accepted (at_most n) bytes = take n bytes

-- write(fd, bytes, length) == length
abbrev pub is_whole : Accepts → List ℕ → Bool
is_whole whole bytes = true
is_whole (at_most n) bytes = leb (length bytes) n

-- `exec_event_type_t__`
abbrev pub exec_event_stage_change : ℕ
exec_event_stage_change = 0

abbrev pub exec_event_failure : ℕ
exec_event_failure = 1

-- `exec_event_msg_header_t__`: two 16-bit numbers, so the length wraps.
unfoldable pub header_of : ℕ → ℕ → List ℕ
header_of type len = bytes_of 2 type ++ bytes_of 2 (len % 2 ^ 16)

-- The header is written, and the body if the header went out whole.
unfoldable pub write_message : Accepts → Accepts → ℕ → List ℕ → List ℕ
write_message a b type body =
    let header = header_of type (length body) in
    if is_whole a header then header ++ accepted b body else accepted a header

-- sizeof(ctest_stage_t)
abbrev pub stage_size : ℕ
stage_size = 4

unfoldable pub writer_on_stage_change : Accepts → Accepts → ℕ → List ℕ
writer_on_stage_change a b stage =
    write_message a b exec_event_stage_change (bytes_of stage_size stage)

module _ {F : Type 0} (storage : Storage F) where
  unfoldable pub writer_on_failure : Accepts → Accepts → F → List ℕ
  writer_on_failure a b f = elim (storage.serialize f) [
    | none ↦ []
    | some buf ↦ write_message a b exec_event_failure buf
  ]

  unfoldable pub writer_on_event : Accepts → Accepts → Event F → List ℕ
  writer_on_event a b (stage_change stage) = writer_on_stage_change a b stage
  writer_on_event a b (failure f) = writer_on_failure a b f

  -- What a child writes that reports `events` into a pipe that takes it all.
  unfoldable pub written : List (Event F) → List ℕ
  written [] = []
  written (e ∷ events) = writer_on_event whole whole e ++ written events
