-- ===== src/Memory.antt =====
-- A memory block as its bytes: what memset, memcpy and the assignment of a field do to it.
pub mod Apart
use ctest.Prelude.{
  ℕ, zero, suc, ◌+◌, List, [], ◌∷◌, ◌++◌, Option, none, some, length, take, drop, replicate,
}
use ctest.ExecEvents.{value_of}

-- `size` bytes of 0.
abbrev pub zeros : ℕ → List ℕ
zeros size = replicate size 0

-- The bytes of a string with its 0.
abbrev pub text_bytes : List ℕ → List ℕ
text_bytes s = s ++ 0 ∷ []

-- The block with `bytes` written from `ofs` on; what is past the end of the block is lost.
abbrev pub store : ℕ → List ℕ → List ℕ → List ℕ
store ofs bytes [] = []
store zero [] (b ∷ block) = b ∷ block
store zero (x ∷ bytes) (b ∷ block) = x ∷ store zero bytes block
store (suc ofs) bytes (b ∷ block) = b ∷ store ofs bytes block

abbrev pub load : ℕ → ℕ → List ℕ → List ℕ
load ofs size block = take size (drop ofs block)

-- The pointer at `ofs`, as a number; 0 is NULL.
unfoldable pub pointer_at : ℕ → List ℕ → ℕ
pointer_at ofs block = value_of (load ofs 8 block)
