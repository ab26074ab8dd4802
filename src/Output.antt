-- ===== src/Output.antt =====
-- The captured output of a test: src/exec/output.c, and the reader that collects it from a pipe,
-- src/exec/output_reader.c.
pub mod Reader
pub mod Sized
pub mod Kept
pub mod Build
pub mod Capture
mod Examples
use ctest.Prelude.{
  ℕ, zero, ◌-◌, ℤ, pos, negsuc, Bool, true, false, List, [], ◌++◌, Option, none, some, take,
  replicate,
}

-- `length` counts the bytes of `data`.
pub record Output : Type 0 where
  pub length : ℕ
  pub data_bytes : List ℕ

-- calloc gives zeros; the first argument says whether it gives anything.
unfoldable pub ctest_output_create : Bool → ℕ → Option Output
ctest_output_create false capacity = none
ctest_output_create true capacity =
    some (record { length = capacity; data_bytes = replicate capacity 0 })

abbrev pub output_length : Option Output → ℕ
output_length none = 0
output_length (some o) = o.length

abbrev pub output_bytes : Option Output → List ℕ
output_bytes none = []
output_bytes (some o) = o.data_bytes

-- The return code and *p_output after the call; the first argument says whether realloc succeeds.
unfoldable pub ctest_output_resize : Bool → Option Output → ℕ → ℤ × Option Output
ctest_output_resize false o capacity = (negsuc 0, o)
ctest_output_resize true o capacity = (
  pos 0,
  some (record {
    length = capacity;
    data_bytes = take capacity (output_bytes o) ++ replicate (capacity - output_length o) 0;
  }),
)
