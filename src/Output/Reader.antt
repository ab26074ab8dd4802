-- ===== src/Output/Reader.antt =====
-- src/exec/output_reader.c: the state of the reader, one call for data that waits, and the object
-- built at the end.
use ctest.Prelude.{
  ℕ, zero, suc, ◌+◌, ◌-◌, ◌*◌, ℤ, Bool, List, [], ◌∷◌, ◌++◌, Option, none, some, ltb, leb,
  if◌then◌else◌, take, drop, set, length,
}
use ctest.Pipe.{Answer, taken, left, read_rc}
use ctest.Output.{Output, ctest_output_create, ctest_output_resize}

-- `length` counts the bytes of the output that are read.
pub record OutputReader : Type 0 where
  pub fd : ℕ
  pub output : Option Output
  pub length : ℕ

unfoldable pub output_reader_init : ℕ → OutputReader
output_reader_init fd = record { fd = fd; output = none; length = 0 }

-- Bytes that read(2) puts at `ofs` of a block.
unfoldable pub store : List ℕ → ℕ → List ℕ → List ℕ
store block ofs bytes = take ofs block ++ (bytes ++ drop (ofs + length bytes) block)

-- The storage before the read: created at first, doubled when it is full.
unfoldable pub grow : Bool → Option Output → ℕ → Option Output
grow allocated none len = ctest_output_create allocated 128
grow allocated (some o) len =
    if leb o.length len then (ctest_output_resize allocated (some o) (len * 2)).1 else some o

-- The read itself: into the room left, or into a buffer that is dropped.
unfoldable pub read_output :
    Answer → Option Output → OutputReader → List ℕ → ℤ × OutputReader × List ℕ
read_output k none r stream =
    (read_rc k 4096 stream, record r { output = none }, left k 4096 stream)
read_output k (some o) r stream =
    let room = o.length - r.length in
    let bytes = taken k room stream in
    let block = record o { data_bytes = store o.data_bytes r.length bytes } in
    if leb o.length r.length
    then (read_rc k 4096 stream, record r { output = some o }, left k 4096 stream)
    else (
      read_rc k room stream,
      record r { output = some block; length = r.length + length bytes },
      left k room stream,
    )

-- One call of op_on_data_available__ on the bytes that wait in the pipe: what it returns, the
-- reader, and the bytes left. `allocated` says whether the allocation of this call succeeds.
unfoldable pub on_data_available : Bool → Answer → OutputReader → List ℕ → ℤ × OutputReader × List ℕ
on_data_available allocated k r stream = read_output k (grow allocated r.output r.length) r stream

-- The calls for a sequence of allocations and answers.
unfoldable pub collect : List (Bool × Answer) → OutputReader → List ℕ → OutputReader × List ℕ
collect [] r stream = (r, stream)
collect ((allocated, k) ∷ rest) r stream =
    let (_, r', stream') = on_data_available allocated k r stream in collect rest r' stream'

-- What output_reader_build does: it gives NULL, an object, or writes the terminator past the end of
-- the storage.
pub data Built : Type 0 where
  no_output : Built
  built : Output → Built
  out_of_bounds : Built

-- `output->data[length] = '\0'`
unfoldable pub terminate : Option Output → ℕ → Built
terminate none len = out_of_bounds
terminate (some o) len =
    if ltb len o.length
    then built (record o { data_bytes = set o.data_bytes len 0 })
    else out_of_bounds

-- The object, by `reader->output` and `reader->length`.
unfoldable pub build_from : Bool → Option Output → ℕ → Built
build_from allocated none len = no_output
build_from allocated (some o) zero = no_output
build_from allocated (some o) (suc n) =
    terminate (ctest_output_resize allocated (some o) (suc n + 1)).1 (suc n)

-- The reader is reset only where an object is built.
unfoldable pub reset_built : Built → OutputReader → Built × OutputReader
reset_built no_output r = (no_output, r)
reset_built (built o) r = (built o, record r { output = none; length = 0 })
reset_built out_of_bounds r = (out_of_bounds, record r { output = none; length = 0 })

unfoldable pub output_reader_build : Bool → OutputReader → Built × OutputReader
output_reader_build allocated r = reset_built (build_from allocated r.output r.length) r
