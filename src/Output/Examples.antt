-- ===== src/Output/Examples.antt =====
-- A capture of five bytes in two reads, and one that runs out of memory.
use ctest.Prelude.{ℕ, ◌≡◌, refl, true, false, List, [], ◌∷◌, some, ltb, arith}
use ctest.Pipe.{fails, grants}
use ctest.Output.{output_length, ctest_output_create, ctest_output_resize}
use ctest.Output.Reader.{
  OutputReader, output_reader_init, collect, on_data_available, read_output, store, grow,
  output_reader_build, build_from, reset_built, terminate, out_of_bounds,
}
use ctest.Output.Sized.{IsSized, contents}
use ctest.Output.Kept.{with_memory, collect-IsSized}
use ctest.Output.Build.{Builds, output_reader_build-Builds}
use ctest.Output.Capture.{output_reader-Builds}

abbrev hello : List ℕ
hello = 104 ∷ 101 ∷ 108 ∷ 108 ∷ 111 ∷ []

-- A reader whose four bytes are full.
abbrev full_reader : OutputReader
full_reader = record {
  fd = 7;
  output = some (record { length = 4; data_bytes = 1 ∷ 2 ∷ 3 ∷ 4 ∷ [] });
  length = 4;
}

full_reader-IsSized : IsSized full_reader
full_reader-IsSized = (refl, omega arith, omega arith)

-- The terminator has no room when the last resize fails.
build_runs : (output_reader_build false full_reader).0 ≡ out_of_bounds
unfolding output_reader_build build_from reset_built terminate ctest_output_resize
build_runs = refl

-- One read that fails, one that finds no memory and one that does.
collect_runs :
    contents
      (collect ((true, fails 0) ∷ (false, grants 1) ∷ (true, grants 9) ∷ []) full_reader hello).0
    ≡ 1 ∷ 2 ∷ 3 ∷ 4 ∷ 104 ∷ 101 ∷ 108 ∷ 108 ∷ []
unfolding collect on_data_available read_output grow store ctest_output_create ctest_output_resize
collect_runs = refl

output_reader-Builds_example :
    let (r, _) = collect (with_memory (4 ∷ 0 ∷ 2 ∷ 0 ∷ 0 ∷ [])) (output_reader_init 7) hello in
    Builds true (ltb r.length (output_length r.output)) hello (output_reader_build true r).0
output_reader-Builds_example = output_reader-Builds 7 (4 ∷ 0 ∷ 2 ∷ 0 ∷ 0 ∷ []) hello (omega arith)

output_reader_build-Builds_example :
    Builds false false (contents full_reader) (output_reader_build false full_reader).0
output_reader_build-Builds_example =
    output_reader_build-Builds false full_reader full_reader-IsSized

collect-IsSized_example :
    IsSized
      (collect ((false, grants 3) ∷ (true, grants 0) ∷ (true, fails 5) ∷ []) full_reader hello).0
collect-IsSized_example =
    collect-IsSized ((false, grants 3) ∷ (true, grants 0) ∷ (true, fails 5) ∷ []) full_reader hello
      full_reader-IsSized
