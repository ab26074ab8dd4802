-- ===== src/FailureStorage/Carried.antt =====
-- Failures in the messages of src/exec/exec_events.c: what the writer makes of a failure before it
-- writes it, and the reader of the bytes that it has read. This is what the events need of a Storage.
use ctest.Prelude.{
  ℕ, ◌+◌, ◌^◌, ◌≤◌, ◌<◌, ◌≡◌, ap, ◌∙◌, List, [], ◌∷◌, Option, none, some, length, map, ◌==◌,
  ==-refl, if◌then◌else◌, arith,
}
use ctest.Pipe.{grants}
use ctest.ExecEvents.{Event, stage_change, failure, Storage}
use ctest.ExecEvents.Writer.{written}
use ctest.ExecEvents.Reader.{Reader, exec_event_reader_init, run_reader}
use ctest.ExecEvents.Phase.{IsSendable, AllSendable}
use ctest.ExecEvents.RoundTrip.{run_reader-written}
use ctest.FailureStorage.{
  Failure, failure_storage_size, Write, apply_writes, failure_storage_format,
}
use ctest.FailureStorage.Image.{
  failure_at, serialized, length-serialized, failure_storage_size-positive,
}
use ctest.FailureStorage.Relocate.{failure_storage_serialize, failure_storage_deserialize}
use ctest.FailureStorage.Moved.{
  failure_storage_serialize-failure_at, failure_storage_deserialize-serialized,
}
use ctest.FailureStorage.Laid.{failure_storage_format-failure_at}
use ctest.FailureStorage.Read.{read_failure}
use ctest.FailureStorage.ReadFailure.{IsFailure, read_failure-failure_at}

-- `failure_storage_format(buf, len, failure) != (int)len`, and the serialization.
unfoldable pub serialize_formatted : ℕ → ℕ → Option ℕ × List Write → List ℕ → Option (List ℕ)
serialize_formatted buf len (none, writes) block = none
serialize_formatted buf len (some rc, writes) block =
    if rc == len then failure_storage_serialize buf (apply_writes writes block) else none

-- The body of the message for a failure. The array `buf[len]` is on the stack of the writer, with
-- `old len` in it.
unfoldable pub writer_serialize : ℕ → (ℕ → List ℕ) → Failure → Option (List ℕ)
writer_serialize buf old f =
    let len = failure_storage_size f in
    serialize_formatted buf len (failure_storage_format buf len f) (old len)

unfoldable pub read_block : ℕ → Option (List ℕ) → Option Failure
read_block buf none = none
read_block buf (some block) = some (read_failure buf block)

-- The failure that the consumer is given for a body that has been read to the address `buf`.
unfoldable pub reader_deserialize : ℕ → List ℕ → Option Failure
reader_deserialize buf bytes = read_block buf (failure_storage_deserialize buf bytes)

-- The writer's array is at `buf`, and the reader has its block at `buf'`.
abbrev pub messages : ℕ → (ℕ → List ℕ) → ℕ → Storage Failure
messages buf old buf' = record {
  serialize = writer_serialize buf old;
  deserialize = reader_deserialize buf';
}

-- A failure that a message can carry between blocks at `buf` and `buf'`.
abbrev pub IsCarried : ℕ → ℕ → Event Failure → Type 0
IsCarried buf buf' (stage_change stage) = stage < 2 ^ 32
IsCarried buf buf' (failure f) =
    IsFailure f
    × (failure_storage_size f < 2 ^ 16)
    × (buf + failure_storage_size f < 2 ^ 64)
    × (buf' + failure_storage_size f < 2 ^ 64)

abbrev pub AllCarried : ℕ → ℕ → List (Event Failure) → Type 0
AllCarried buf buf' [] = record {}
AllCarried buf buf' (e ∷ es) = IsCarried buf buf' e × AllCarried buf buf' es

serialize_formatted-some :
    (buf len : ℕ) (part : Option ℕ × List Write) (block after : List ℕ)
    → part.0 ≡ some len
    → apply_writes part.1 block ≡ after
    → serialize_formatted buf len part block ≡ failure_storage_serialize buf after
unfolding serialize_formatted
serialize_formatted-some buf len (none, writes) block after e made = absurd (cc e)
serialize_formatted-some buf len (some rc, writes) block after e made =
    let same : rc ≡ len = cc e in
    rw same (rw (==-refl len) (ap (failure_storage_serialize buf) made))

module _ (buf : ℕ) (old : ℕ → List ℕ) (buf' : ℕ) (sized : (n : ℕ) → length (old n) ≡ n) where
  writer_serialize-serialized :
      (f : Failure)
      → failure_storage_size f < 2 ^ 16
      → buf + failure_storage_size f < 2 ^ 64
      → writer_serialize buf old f ≡ some (serialized f)
  unfolding writer_serialize
  writer_serialize-serialized f small fits =
      let len : ℕ = failure_storage_size f in
      let (done, made) =
        failure_storage_format-failure_at buf f (old len) (omega (arith, small)) (sized len) in
      serialize_formatted-some buf len (failure_storage_format buf len f) (old len)
        (failure_at buf f) done made
      ∙ failure_storage_serialize-failure_at buf f fits

  reader_deserialize-serialized :
      (f : Failure)
      → IsFailure f
      → buf' + failure_storage_size f < 2 ^ 64
      → reader_deserialize buf' (serialized f) ≡ some f
  unfolding reader_deserialize read_block
  reader_deserialize-serialized f is fits =
      ap (read_block buf') (failure_storage_deserialize-serialized buf' f fits)
      ∙ ap some (read_failure-failure_at buf' f fits is)

  IsCarried-IsSendable :
      (e : Event Failure) → IsCarried buf buf' e → IsSendable (messages buf old buf') e
  IsCarried-IsSendable (stage_change stage) lt = lt
  IsCarried-IsSendable (failure f) (is, small, fits, fits') = (
    serialized f,
    writer_serialize-serialized f small fits,
    omega (arith, length-serialized f, failure_storage_size-positive f),
    omega (arith, length-serialized f, small),
    reader_deserialize-serialized f is fits',
  )

  AllCarried-AllSendable :
      (es : List (Event Failure)) → AllCarried buf buf' es → AllSendable (messages buf old buf') es
  AllCarried-AllSendable [] all = all
  AllCarried-AllSendable (e ∷ es) (this, all) =
      (IsCarried-IsSendable e this, AllCarried-AllSendable es all)

  -- The consumer of the parent is told the stages and failures that the child has reported, all, in
  -- order, and each failure as it was: its stage, description, location and stack trace, with the
  -- texts of both, read from a block at another address. The reader is called as often as there are
  -- bytes. Each failure holds texts without a 0 and numbers of their widths, its block is below
  -- 2^16 bytes, and is in the address space on both sides.
  pub run_reader-failures :
      (ns : List ℕ) (es : List (Event Failure))
      → AllCarried buf buf' es
      → length (written (messages buf old buf') es) ≤ length ns
      → (r : Reader Failure) × (run_reader
            (messages buf old buf')
            (map grants ns)
            exec_event_reader_init
            (written (messages buf old buf') es)
          ≡ some (r, []))
        × (r.events ≡ es)
  run_reader-failures ns es all enough =
      let (r, (runs, told)) =
        run_reader-written (messages buf old buf') ns es (AllCarried-AllSendable es all) enough in
      (r, runs, told)
