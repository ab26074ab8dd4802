-- ===== src/ExecEvents.antt =====
-- The pipe on which a child process reports to the runner, src/exec/exec_events.c: messages, and
-- the bytes of the numbers in them (of a little-endian machine).
pub mod Writer
pub mod Reader
pub mod Bytes
pub mod Phase
mod Done
mod Read
pub mod Step
pub mod RoundTrip
pub mod Dropped
mod Examples
use ctest.Prelude.{ℕ, zero, suc, ◌+◌, ◌*◌, ◌/◌, ◌%◌, List, [], ◌∷◌, Option}

-- What a consumer is told; `F` is the type of failures.
pub data Event (F : Type 0) : Type 0 where
  stage_change : ℕ → Event F
  failure : F → Event F

-- The memory block of a failure, with relative pointers, and back: src/exec/failure.c.
pub record Storage (F : Type 0) : Type 0 where
  pub serialize : F → Option (List ℕ)
  pub deserialize : List ℕ → Option F

-- The `k` bytes of a number in memory, and the number of some bytes.
unfoldable pub bytes_of : ℕ → ℕ → List ℕ
bytes_of zero n = []
bytes_of (suc k) n = n % 256 ∷ bytes_of k (n / 256)

unfoldable pub value_of : List ℕ → ℕ
value_of [] = 0
value_of (b ∷ bytes) = b + 256 * value_of bytes
