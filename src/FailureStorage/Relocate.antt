-- ===== src/FailureStorage/Relocate.antt =====
-- The conversion of the pointers in a block: the serialize and deserialize functions of
-- src/exec/failure.c, location.c and stacktrace.c. `none` is a return value other than 0.
use ctest.Prelude.{
  ℕ, zero, suc, ◌+◌, ◌-◌, ◌*◌, List, ◌++◌, Option, none, some, take, drop, ◌==◌, if◌then◌else◌,
}
use ctest.Memory.{store, pointer_at}
use ctest.FailureStorage.{pointer}

-- serialize_rel_ptr_from_abs and serialize_abs_ptr_from_rel
unfoldable pub rel_ptr_from_abs : ℕ → ℕ → ℕ
rel_ptr_from_abs base ptr = ptr - base

unfoldable pub abs_ptr_from_rel : ℕ → ℕ → ℕ
abs_ptr_from_rel base ptr = base + ptr

-- `if (x->field != NULL) x->field = convert(x->field, buf);`
unfoldable pub relocate : (ℕ → ℕ) → ℕ → List ℕ → List ℕ
relocate convert field block =
    let p = pointer_at field block in
    if p == 0 then block else store field (pointer (convert p)) block

unfoldable pub location_storage_serialize : ℕ → List ℕ → Option (List ℕ)
location_storage_serialize buf block = some (relocate (rel_ptr_from_abs buf) 0 block)

unfoldable pub location_storage_deserialize : ℕ → List ℕ → Option (List ℕ)
location_storage_deserialize buf block = some (relocate (abs_ptr_from_rel buf) 0 block)

-- The loop over the frames: frame `i` and the `n - 1` after it.
unfoldable pub relocate_frames : (ℕ → ℕ) → ℕ → ℕ → List ℕ → List ℕ
relocate_frames convert i zero block = block
relocate_frames convert i (suc n) block =
    relocate_frames convert (suc i) n (relocate convert (8 + 24 * i + 8) block)

-- The number of frames stands at the start of the block.
unfoldable pub stacktrace_storage_serialize : ℕ → List ℕ → Option (List ℕ)
stacktrace_storage_serialize buf block =
    some (relocate_frames (rel_ptr_from_abs buf) 0 (pointer_at 0 block) block)

unfoldable pub stacktrace_storage_deserialize : ℕ → List ℕ → Option (List ℕ)
stacktrace_storage_deserialize buf block =
    some (relocate_frames (abs_ptr_from_rel buf) 0 (pointer_at 0 block) block)

-- A part of the block is changed in place, from `ofs` on.
unfoldable pub behind : List ℕ → Option (List ℕ) → Option (List ℕ)
behind front none = none
behind front (some part) = some (front ++ part)

unfoldable pub part_at : ℕ → (List ℕ → Option (List ℕ)) → List ℕ → Option (List ℕ)
part_at ofs convert block = behind (take ofs block) (convert (drop ofs block))

-- `if (... != 0) return -1;` between two parts.
unfoldable pub then_block : Option (List ℕ) → (List ℕ → Option (List ℕ)) → Option (List ℕ)
then_block none next = none
then_block (some block) next = next block

-- A part is serialized at its address, and then its pointer is made relative.
unfoldable pub serialize_part : ℕ → ℕ → (ℕ → List ℕ → Option (List ℕ)) → List ℕ → Option (List ℕ)
serialize_part buf field serialize block =
    let p = pointer_at field block in
    if p == 0
    then some block
    else then_block (part_at (p - buf) (serialize p) block)
        (λ block. some (store field (pointer (rel_ptr_from_abs buf p)) block))

-- The pointer of a part is made absolute, and then the part is deserialized at its address.
unfoldable pub deserialize_part : ℕ → ℕ → (ℕ → List ℕ → Option (List ℕ)) → List ℕ → Option (List ℕ)
deserialize_part buf field deserialize block =
    let r = pointer_at field block in
    let p = abs_ptr_from_rel buf r in
    if r == 0 then some block else part_at (p - buf) (deserialize p) (store field (pointer p) block)

-- The block stands at `buf`.
unfoldable pub failure_storage_serialize : ℕ → List ℕ → Option (List ℕ)
failure_storage_serialize buf block =
    then_block
      (serialize_part buf 16 location_storage_serialize (relocate (rel_ptr_from_abs buf) 8 block))
      (serialize_part buf 24 stacktrace_storage_serialize)

unfoldable pub failure_storage_deserialize : ℕ → List ℕ → Option (List ℕ)
failure_storage_deserialize buf block =
    then_block
      (deserialize_part buf 16 location_storage_deserialize
        (relocate (abs_ptr_from_rel buf) 8 block))
      (deserialize_part buf 24 stacktrace_storage_deserialize)
