-- ===== src/FailureStorage/Laid.antt =====
-- failure_storage_format of src/exec/failure.c as a whole, and what comes of a block that is
-- formatted, serialized and deserialized.
use ctest.Prelude.{
  ℕ, ◌+◌, ◌-◌, ◌^◌, ◌≤◌, ◌<◌, ◌≡◌, refl, ap, ◌∙◌, sym, zero, suc, List, [], ◌∷◌, ◌++◌, Option, none,
  some, length, append_assoc, append-nil, length-append, length-replicate, arith,
}
use ctest.Memory.{zeros, store}
use ctest.FailureStorage.{
  Location, StackFrame, Failure, int, pad_size, description_size, add_description, add_location,
  add_stacktrace, storage_size, failure_storage_size, location_storage_size,
  stacktrace_storage_size, Write, wrote, apply_writes, and_then, guarded, format_description,
  format_location, format_stacktrace, storage_format, copy_description, failure_storage_format,
}
use ctest.FailureStorage.Layout.{le-pad_size_8}
use ctest.FailureStorage.Filled.{le-add_description, le-add_location, le-add_stacktrace}
use ctest.FailureStorage.Image.{
  name_pointer, header, location_part, stacktrace_part, part_pointer, description_bytes, described,
  location_at, located, stacktrace_at, failure_image, failure_at, length-location_part,
  location_part-append, pad_size_1,
}
use ctest.FailureStorage.Parts.{
  Makes, Makes-from, and_then-Makes, guarded-Makes, zeros-split, int_return-Makes,
}
use ctest.FailureStorage.Formatted.{
  room, format_location-Makes, format_stacktrace-Makes, format_description-Makes,
  copy_description-Makes, store-all, stage_written,
}

-- The room of a part is what its size function adds.
add_location-room :
    (l : Option Location) (ofs : ℕ)
    → add_location l ofs ≡ ofs + room location_storage_size (pad_size ofs 8 - ofs) l
unfolding add_location
add_location-room none ofs = omega arith
add_location-room (some l) ofs = omega (arith, le-pad_size_8 ofs)

add_stacktrace-room :
    (frames : Option (List StackFrame)) (ofs : ℕ)
    → add_stacktrace frames ofs ≡ ofs + room stacktrace_storage_size (pad_size ofs 8 - ofs) frames
unfolding add_stacktrace
add_stacktrace-room none ofs = omega arith
add_stacktrace-room (some frames) ofs = omega (arith, le-pad_size_8 ofs)

add_description_lem : (n ofs : ℕ) → add_description n ofs ≡ ofs + n
unfolding add_description
add_description_lem zero ofs = omega arith
add_description_lem (suc n) ofs = omega (arith, pad_size_1 ofs)

-- A failure, the address of its block, and what is in the block, whose size is that of the failure
-- and is below 2^31.
module _ (buf : ℕ) (f : Failure) (block : List ℕ) (small : failure_storage_size f < 2 ^ 31)
    (sized : length block ≡ failure_storage_size f) where
  abbrev n : ℕ
  n = description_size f.description

  abbrev total : ℕ
  total = add_stacktrace f.stacktrace (located f)

  abbrev location_room : ℕ
  location_room = room location_storage_size (location_at f - described f) f.location

  abbrev stacktrace_room : ℕ
  stacktrace_room = room stacktrace_storage_size (stacktrace_at f - located f) f.stacktrace

  abbrev tail : List ℕ
  tail = stacktrace_part (stacktrace_at f - located f) (buf + stacktrace_at f) f.stacktrace []

  abbrev d : ℕ
  d = name_pointer buf f.description 32

  abbrev l : ℕ
  l = part_pointer buf f.location (location_at f)

  abbrev s : ℕ
  s = part_pointer buf f.stacktrace (stacktrace_at f)

  -- The location in front of what follows it.
  abbrev body : List ℕ → List ℕ
  body rest = location_part (location_at f - described f) (buf + location_at f) f.location rest

  body_lem : (xs rest : List ℕ) → xs ++ body rest ≡ (xs ++ body []) ++ rest
  body_lem xs rest =
      ap (λ (ys : List ℕ). xs ++ ys)
        (location_part-append (location_at f - described f) (buf + location_at f) f.location []
          rest)
      ∙ sym (append_assoc xs (body []) rest)

  length-body : 32 + length (zeros n ++ body []) ≡ located f
  length-body = omega (
    arith,
    length-location_part (described f) (buf + location_at f) f.location [],
    length-append (zeros n) (body []),
    length-replicate {A = ℕ} n 0,
    add_description_lem n 32,
  )

  total_lem : total ≡ 32 + (n + (location_room + stacktrace_room))
  total_lem = omega (
    arith,
    add_stacktrace-room f.stacktrace (located f),
    add_location-room f.location (described f),
    add_description_lem n 32,
  )

  sized_lem : length block ≡ total
  unfolding failure_storage_size storage_size
  sized_lem = sized

  small_lem : total < 2 ^ 31
  unfolding failure_storage_size storage_size
  small_lem = small

  -- memset and the stage: the rooms of the parts are 0.
  cleared :
      apply_writes (wrote 0 (zeros total) ∷ wrote 0 (int f.stage) ∷ []) block
      ≡ header f.stage 0 0 0 (zeros n ++ (zeros location_room ++ (zeros stacktrace_room ++ [])))
  unfolding apply_writes
  cleared =
      ap (λ (b : List ℕ). store 0 (int f.stage) b)
        (store-all (zeros total) block (length-replicate total 0 ∙ sym sized_lem)
          ∙ sym (append-nil (zeros total))
          ∙ zeros-split total 32 (n + (location_room + stacktrace_room)) [] total_lem
          ∙ ap (λ (rest : List ℕ). zeros 32 ++ rest)
              (zeros-split (n + (location_room + stacktrace_room)) n
                  (location_room + stacktrace_room) [] refl
                ∙ ap (λ (rest : List ℕ). zeros n ++ rest)
                    (zeros-split (location_room + stacktrace_room) location_room stacktrace_room []
                      refl)))
      ∙ stage_written f.stage (zeros n ++ (zeros location_room ++ (zeros stacktrace_room ++ [])))

  located_le : located f ≤ total
  located_le = le-add_stacktrace f.stacktrace (located f)

  described_le : described f ≤ total
  described_le = omega (arith, located_le, le-add_location f.location (described f))

  -- All but the text of the description.
  storage_format-Makes :
      Makes
        (storage_format buf total f.stage n f.location f.stacktrace)
        block
        total
        (header f.stage d l s (zeros n ++ body tail))
  unfolding storage_format
  storage_format-Makes =
      let st : List ℕ = zeros stacktrace_room ++ [] in
      let rest : List ℕ = zeros n ++ (zeros location_room ++ st) in
      let after : List ℕ = header f.stage d l s (zeros n ++ body tail) in
      let third : ℕ → Option ℕ × List Write = λ ofs. format_stacktrace buf total f.stacktrace ofs in
      let second : ℕ → Option ℕ × List Write =
        λ ofs. and_then (format_location buf total f.location ofs) third in
      let (done, made) =
        Makes-from (third (located f)) (header f.stage d l 0 (zeros n ++ body st))
          (header f.stage d l 0 ((zeros n ++ body []) ++ st))
          (header f.stage d l s ((zeros n ++ body []) ++ tail)) total
          (ap (λ (b : List ℕ). header f.stage d l 0 b) (body_lem (zeros n) st))
          (format_stacktrace-Makes buf total (located f) f.stage d l f.stacktrace
            (zeros n ++ body []) [] length-body (omega arith) small_lem) in
      let first : ℕ → Option ℕ × List Write =
        λ ofs. and_then (format_description buf total n ofs) second in
      int_return-Makes
        (and_then (guarded total 32 (wrote 0 (zeros total) ∷ wrote 0 (int f.stage) ∷ [])) first)
        block after total small_lem
        (and_then-Makes (guarded total 32 (wrote 0 (zeros total) ∷ wrote 0 (int f.stage) ∷ []))
          (λ ofs. and_then (format_description buf total n ofs) second) block
          (header f.stage 0 0 0 rest) after 32 total
          (guarded-Makes total 32 (wrote 0 (zeros total) ∷ wrote 0 (int f.stage) ∷ []) block
            (header f.stage 0 0 0 rest) (omega (arith, described_le, le-add_description n 32))
            cleared)
          (and_then-Makes (format_description buf total n 32) second (header f.stage 0 0 0 rest)
            (header f.stage d 0 0 rest) after (described f) total
            (format_description-Makes buf total f.stage 0 0 f.description rest described_le)
            (and_then-Makes (format_location buf total f.location (described f)) third
              (header f.stage d 0 0 rest) (header f.stage d l 0 (zeros n ++ body st)) after
              (located f) total
              (format_location-Makes buf total (described f) f.stage d 0 f.location (zeros n) st
                (omega (arith, add_description_lem n 32, length-replicate {A = ℕ} n 0)) located_le
                small_lem)
              (
                done,
                made ∙ ap (λ (b : List ℕ). header f.stage d l s b) (sym (body_lem (zeros n) tail)),
              ))))

  -- failure_storage_format returns the size of the failure, and the block is the image of the failure
  -- at its address, whatever it has been. The size is below 2^31.
  pub failure_storage_format-failure_at :
      Makes
        (failure_storage_format buf (failure_storage_size f) f)
        block
        (failure_storage_size f)
        (failure_at buf f)
  unfolding failure_storage_format failure_storage_size storage_size failure_at failure_image
  failure_storage_format-failure_at =
      and_then-Makes (storage_format buf total f.stage n f.location f.stacktrace)
        (λ rc. (some rc, copy_description f.description)) block
        (header f.stage d l s (zeros n ++ body tail))
        (header f.stage d l s (description_bytes f.description ++ body tail)) total total
        storage_format-Makes (refl, copy_description-Makes f.stage d l s f.description (body tail))
