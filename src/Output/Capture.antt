-- ===== src/Output/Capture.antt =====
-- A whole capture by src/exec/output_reader.c: from the empty reader to the object.
use ctest.Prelude.{ℕ, ◌≤◌, refl, subst, true, List, ltb, length}
use ctest.Output.{output_length}
use ctest.Output.Reader.{output_reader_init, collect, output_reader_build}
use ctest.Output.Kept.{with_memory, collect-with_memory, collect-IsSized}
use ctest.Output.Build.{Builds, output_reader_build-Builds}

-- A reader that is initialised on a pipe, called while bytes come in, and built from, gives NULL
-- for an empty stream and else the bytes of the stream, all and in order, and a 0, if there is
-- memory, no read fails and it is called as often as there are bytes.
pub output_reader-Builds :
    (fd : ℕ) (ns : List ℕ) (stream : List ℕ)
    → length stream ≤ length ns
    → let (r, _) = collect (with_memory ns) (output_reader_init fd) stream in
      Builds true (ltb r.length (output_length r.output)) stream (output_reader_build true r).0
unfolding output_reader_init
output_reader-Builds fd ns stream p =
    let (r, _) = collect (with_memory ns) (output_reader_init fd) stream in
    let (all, _) = collect-with_memory ns (output_reader_init fd) stream refl p in
    subst
      (λ (bytes : List ℕ).
        Builds true (ltb r.length (output_length r.output)) bytes (output_reader_build true r).0)
      all
      (output_reader_build-Builds true r
        (collect-IsSized (with_memory ns) (output_reader_init fd) stream refl))
