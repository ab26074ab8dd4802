-- ===== src/FailureStorage/Moved.antt =====
-- The whole block of a failure through failure_storage_serialize and failure_storage_deserialize of
-- src/exec/failure.c.
use ctest.Prelude.{
  ℕ, ◌+◌, ◌-◌, ◌^◌, ◌<◌, ◌≡◌, ap, ◌∙◌, sym, List, [], ◌++◌, Option, some, length, append_assoc,
  length-append, arith,
}
use ctest.FailureStorage.{
  Location, StackFrame, Failure, add_location, add_stacktrace, storage_size, failure_storage_size,
  location_storage_size, stacktrace_storage_size,
}
use ctest.FailureStorage.Filled.{le-add_location, le-add_stacktrace}
use ctest.FailureStorage.Image.{
  name_pointer, header, location_image, stacktrace_image, location_part, stacktrace_part,
  part_pointer, description_bytes, described, location_at, located, stacktrace_at, failure_image,
  failure_at, serialized, length-location_part, length-description_bytes, location_part-append,
}
use ctest.FailureStorage.Relocate.{
  rel_ptr_from_abs, abs_ptr_from_rel, location_storage_serialize, location_storage_deserialize,
  stacktrace_storage_serialize, stacktrace_storage_deserialize, then_block, serialize_part,
  deserialize_part, failure_storage_serialize, failure_storage_deserialize,
}
use ctest.FailureStorage.Relocated.{
  rel_ptr_from_abs-Moves, abs_ptr_from_rel-Moves, location_storage_serialize-location_image,
  location_storage_deserialize-location_image, stacktrace_storage_serialize-stacktrace_image,
  stacktrace_storage_deserialize-stacktrace_image,
}
use ctest.FailureStorage.Serialized.{
  location-IsHeader, stacktrace-IsHeader, serialize_part-aligned, deserialize_part-aligned,
  relocate-description,
}

-- A failure whose block at `buf` is inside the address space.
module _ (buf : ℕ) (f : Failure) (fits : buf + failure_storage_size f < 2 ^ 64) where
  pub ends : buf + add_stacktrace f.stacktrace (located f) < 2 ^ 64
  unfolding failure_storage_size storage_size
  ends = fits

  pub described_below : buf + described f < 2 ^ 64
  described_below = omega (
    arith,
    ends,
    le-add_location f.location (described f),
    le-add_stacktrace f.stacktrace (located f),
  )

  pub location_below :
      (l : Location) → f.location ≡ some l → buf + location_at f + location_storage_size l < 2 ^ 64
  unfolding add_location
  location_below l same =
      let e : located f ≡ location_at f + location_storage_size l =
        ap (λ (part : Option Location). add_location part (described f)) same in
      omega (arith, e, ends, le-add_stacktrace f.stacktrace (located f))

  pub stacktrace_below :
      (frames : List StackFrame)
      → f.stacktrace ≡ some frames
      → buf + stacktrace_at f + stacktrace_storage_size frames < 2 ^ 64
  unfolding add_stacktrace
  stacktrace_below frames same =
      let e : add_stacktrace f.stacktrace (located f)
          ≡ stacktrace_at f + stacktrace_storage_size frames =
        ap (λ (part : Option (List StackFrame)). add_stacktrace part (located f)) same in
      omega (arith, e, ends)

  -- What stands in front of the stack trace.
  pub front : ℕ → List ℕ
  front base =
      description_bytes f.description
      ++ location_part (location_at f - described f) base f.location []

  pub length-front : (base : ℕ) → 32 + length (front base) ≡ located f
  unfolding front
  length-front base = omega (
    arith,
    length-description_bytes f.description,
    length-location_part (described f) base f.location [],
    length-append (description_bytes f.description)
        (location_part (location_at f - described f) base f.location []),
  )

  pub front_lem :
      (base : ℕ) (rest : List ℕ)
      → description_bytes f.description
          ++ location_part (location_at f - described f) base f.location rest
        ≡ front base ++ rest
  unfolding front
  front_lem base rest =
      let pad : ℕ = location_at f - described f in
      ap (λ (l : List ℕ). description_bytes f.description ++ l)
        (location_part-append pad base f.location [] rest)
      ∙ sym (
          append_assoc (description_bytes f.description) (location_part pad base f.location [])
            rest)

  -- The three steps of a conversion, each on one field of the failure.
  stacktrace_tail : ℕ → List ℕ
  stacktrace_tail base = stacktrace_part (stacktrace_at f - located f) base f.stacktrace []

  -- Serialization makes all pointers relative, and changes nothing else.
  pub failure_storage_serialize-failure_at :
      failure_storage_serialize buf (failure_at buf f) ≡ some (serialized f)
  unfolding failure_storage_serialize then_block failure_at serialized failure_image stacktrace_tail
  failure_storage_serialize-failure_at =
      let d : ℕ = name_pointer 0 f.description 32 in
      let l : ℕ → ℕ = λ base. part_pointer base f.location (location_at f) in
      let s : ℕ → ℕ = λ base. part_pointer base f.stacktrace (stacktrace_at f) in
      let lb : ℕ = buf + location_at f in
      let sb : ℕ = buf + stacktrace_at f in
      let next : List ℕ → Option (List ℕ) =
        λ block. serialize_part buf 24 stacktrace_storage_serialize block in
      ap
        (λ (block : List ℕ).
          then_block (serialize_part buf 16 location_storage_serialize block) next)
        (relocate-description buf 0 (rel_ptr_from_abs buf) f.stage (l buf) (s buf) f.description
          (description_bytes f.description
            ++ location_part (location_at f - described f) lb f.location (stacktrace_tail sb))
          (rel_ptr_from_abs-Moves buf) described_below)
      ∙ ap (λ (m : Option (List ℕ)). then_block m next)
          (serialize_part-aligned (location-IsHeader f.stage d (s buf)) location_image
            location_storage_serialize buf (described f) (description_bytes f.description)
            f.location (stacktrace_tail sb) (length-description_bytes f.description)
            (λ a same. (
              omega (arith, location_below a same),
              location_storage_serialize-location_image lb a (stacktrace_tail sb)
                  (location_below a same),
            )))
      ∙ ap (λ (body : List ℕ). next (header f.stage d (l 0) (s buf) body))
          (front_lem 0 (stacktrace_tail sb))
      ∙ serialize_part-aligned (stacktrace-IsHeader f.stage d (l 0)) stacktrace_image
          stacktrace_storage_serialize buf (located f) (front 0) f.stacktrace [] (length-front 0)
          (λ a same. (
            omega (arith, stacktrace_below a same),
            stacktrace_storage_serialize-stacktrace_image sb a [] (stacktrace_below a same),
          ))
      ∙ ap (λ (body : List ℕ). some (header f.stage d (l 0) (s 0) body))
          (sym (front_lem 0 (stacktrace_tail 0)))

  -- Deserialization at an address makes the block of the failure at that address.
  pub failure_storage_deserialize-serialized :
      failure_storage_deserialize buf (serialized f) ≡ some (failure_at buf f)
  unfolding failure_storage_deserialize then_block failure_at serialized failure_image
      stacktrace_tail
  failure_storage_deserialize-serialized =
      let d : ℕ = name_pointer buf f.description 32 in
      let l : ℕ → ℕ = λ base. part_pointer base f.location (location_at f) in
      let s : ℕ → ℕ = λ base. part_pointer base f.stacktrace (stacktrace_at f) in
      let lb : ℕ = buf + location_at f in
      let sb : ℕ = buf + stacktrace_at f in
      let next : List ℕ → Option (List ℕ) =
        λ block. deserialize_part buf 24 stacktrace_storage_deserialize block in
      ap
        (λ (block : List ℕ).
          then_block (deserialize_part buf 16 location_storage_deserialize block) next)
        (relocate-description 0 buf (abs_ptr_from_rel buf) f.stage (l 0) (s 0) f.description
          (description_bytes f.description
            ++ location_part (location_at f - described f) 0 f.location (stacktrace_tail 0))
          (abs_ptr_from_rel-Moves buf) (omega (arith, described_below)))
      ∙ ap (λ (m : Option (List ℕ)). then_block m next)
          (deserialize_part-aligned (location-IsHeader f.stage d (s 0)) location_image
            location_storage_deserialize buf (described f) (description_bytes f.description)
            f.location (stacktrace_tail 0) (length-description_bytes f.description)
            (λ a same. (
              omega (arith, location_below a same),
              location_storage_deserialize-location_image lb a (stacktrace_tail 0)
                  (omega (arith, location_below a same)),
            )))
      ∙ ap (λ (body : List ℕ). next (header f.stage d (l buf) (s 0) body))
          (front_lem lb (stacktrace_tail 0))
      ∙ deserialize_part-aligned (stacktrace-IsHeader f.stage d (l buf)) stacktrace_image
          stacktrace_storage_deserialize buf (located f) (front lb) f.stacktrace []
          (length-front lb)
          (λ a same. (
            omega (arith, stacktrace_below a same),
            stacktrace_storage_deserialize-stacktrace_image sb a []
                (omega (arith, stacktrace_below a same)),
          ))
      ∙ ap (λ (body : List ℕ). some (header f.stage d (l buf) (s buf) body))
          (sym (front_lem lb (stacktrace_tail sb)))
