-- ===== src/FailureStorage/Whole.antt =====
-- storage_format__ of src/exec/failure.c and what is built on it.
use ctest.Prelude.{
  ℕ, zero, suc, ◌+◌, ◌-◌, ◌^◌, ◌≤◌, ◌<◌, ◌≡◌, refl, true, List, [], ◌∷◌, ◌++◌, Option, none, some,
  length-replicate, arith,
}
use ctest.ExecEvents.Bytes.{length-bytes_of}
use ctest.Memory.{zeros, text_bytes}
use ctest.Memory.Apart.{length-text_bytes}
use ctest.FailureStorage.{
  Location, StackFrame, Failure, pad_size, string_size, location_storage_size,
  stacktrace_storage_size, add_description, add_location, add_stacktrace, storage_size,
  description_size, failure_storage_size, pointer, int, Write, wrote, and_then, nested, guarded,
  location_storage_format, stacktrace_storage_format, format_description, format_location,
  format_stacktrace, storage_format, copy_description, failure_storage_format, created,
  ctest_failure_create_va,
}
use ctest.FailureStorage.Layout.{
  within, Fills, within-append, guarded-Fills, and_then-Fills, nested-Fills, int_return-Fills,
}
use ctest.FailureStorage.Filled.{
  within-one, within-two, within-word, le-add_description, le-add_location, le-add_stacktrace,
  location_storage_format-Fills, stacktrace_storage_format-Fills,
}

-- The parts come after the 32 bytes of the failure itself.
format_description-Fills :
    (buf len n ofs : ℕ)
    → ofs ≤ len
    → 32 ≤ len
    → Fills len (add_description n ofs) (format_description buf len n ofs)
unfolding add_description format_description
format_description-Fills buf len zero ofs le room =
    (refl, le, within-word len 8 0 (omega (arith, room)))
format_description-Fills buf len (suc n) ofs le room =
    guarded-Fills len (pad_size ofs 1 + suc n) (wrote 8 (pointer (buf + pad_size ofs 1)) ∷ [])
      (λ fits. within-word len 8 (buf + pad_size ofs 1) (omega (arith, room)))

format_location-Fills :
    (buf len : ℕ) (l : Option Location) (ofs : ℕ)
    → ofs ≤ len
    → 32 ≤ len
    → len < 2 ^ 31
    → Fills len (add_location l ofs) (format_location buf len l ofs)
unfolding add_location format_location
format_location-Fills buf len none ofs le room small =
    (refl, le, within-word len 16 0 (omega (arith, room)))
format_location-Fills buf len (some l) ofs le room small =
    let at : ℕ = pad_size ofs 8 in
    and_then-Fills len at (at + location_storage_size l)
      (guarded len at (wrote 16 (pointer (buf + at)) ∷ []))
      (λ ofs. nested ofs (location_storage_format (buf + ofs) (len - ofs) l))
      (guarded-Fills len at (wrote 16 (pointer (buf + at)) ∷ [])
        (λ fits. within-word len 16 (buf + at) (omega (arith, room))))
      (omega arith)
      (λ fits.
        nested-Fills len at (location_storage_size l)
          (location_storage_format (buf + at) (len - at) l) fits
          (location_storage_format-Fills (buf + at) (len - at) l (omega (arith, small))))

format_stacktrace-Fills :
    (buf len : ℕ) (frames : Option (List StackFrame)) (ofs : ℕ)
    → ofs ≤ len
    → 32 ≤ len
    → len < 2 ^ 31
    → Fills len (add_stacktrace frames ofs) (format_stacktrace buf len frames ofs)
unfolding add_stacktrace format_stacktrace
format_stacktrace-Fills buf len none ofs le room small =
    (refl, le, within-word len 24 0 (omega (arith, room)))
format_stacktrace-Fills buf len (some frames) ofs le room small =
    let at : ℕ = pad_size ofs 8 in
    and_then-Fills len at (at + stacktrace_storage_size frames)
      (guarded len at (wrote 24 (pointer (buf + at)) ∷ []))
      (λ ofs. nested ofs (stacktrace_storage_format (buf + ofs) (len - ofs) frames))
      (guarded-Fills len at (wrote 24 (pointer (buf + at)) ∷ [])
        (λ fits. within-word len 24 (buf + at) (omega (arith, room))))
      (omega arith)
      (λ fits.
        nested-Fills len at (stacktrace_storage_size frames)
          (stacktrace_storage_format (buf + at) (len - at) frames) fits
          (stacktrace_storage_format-Fills (buf + at) (len - at) frames (omega (arith, small))))

storage_format-Fills :
    (buf len stage n : ℕ) (l : Option Location) (frames : Option (List StackFrame))
    → len < 2 ^ 31
    → Fills len (storage_size n l frames) (storage_format buf len stage n l frames)
unfolding storage_size storage_format
storage_format-Fills buf len stage n l frames small =
    let described : ℕ = add_description n 32 in
    let located : ℕ = add_location l described in
    let size : ℕ = add_stacktrace frames located in
    let described_part : ℕ → Option ℕ × List Write = λ ofs.
      and_then (format_description buf len n ofs)
        (λ ofs. and_then (format_location buf len l ofs) (format_stacktrace buf len frames)) in
    int_return-Fills len size
      (and_then (guarded len 32 (wrote 0 (zeros len) ∷ wrote 0 (int stage) ∷ [])) described_part)
      small
      (and_then-Fills len 32 size (guarded len 32 (wrote 0 (zeros len) ∷ wrote 0 (int stage) ∷ []))
        described_part
        (guarded-Fills len 32 (wrote 0 (zeros len) ∷ wrote 0 (int stage) ∷ []) (λ room.
          within-two len 0 len 0 4 (zeros len) (int stage) (length-replicate len 0) (omega arith)
            (length-bytes_of 4 stage) (omega (arith, room))))
        (omega (
          arith,
          le-add_description n 32,
          le-add_location l described,
          le-add_stacktrace frames located,
        ))
        (λ room.
          and_then-Fills len described size (format_description buf len n 32)
            (λ ofs. and_then (format_location buf len l ofs) (format_stacktrace buf len frames))
            (format_description-Fills buf len n 32 room room)
            (omega (arith, le-add_location l described, le-add_stacktrace frames located))
            (λ fits.
              and_then-Fills len located size (format_location buf len l described)
                (format_stacktrace buf len frames)
                (format_location-Fills buf len l described fits room small)
                (le-add_stacktrace frames located)
                (λ fits. format_stacktrace-Fills buf len frames located fits room small))))

-- The copy of the description is inside of the block.
copy_description-within :
    (len : ℕ) (text : Option (List ℕ)) (l : Option Location) (frames : Option (List StackFrame))
    → storage_size (description_size text) l frames ≤ len
    → within len (copy_description text) ≡ true
unfolding copy_description description_size storage_size add_description
copy_description-within len none l frames fits = refl
copy_description-within len (some text) l frames fits =
    let described : ℕ = pad_size 32 1 + string_size text in
    within-one len (pad_size 32 1) (string_size text) (text_bytes text) (length-text_bytes text) (
      omega (
        arith,
        fits,
        le-add_location l described,
        le-add_stacktrace frames (add_location l described),
      ))

-- In a block below 2^31 bytes, failure_storage_format returns the size that failure_storage_size
-- gives if the block has room for it, and a negative value else, and it writes nothing outside the
-- block.
pub failure_storage_format-Fills :
    (buf len : ℕ) (f : Failure)
    → len < 2 ^ 31
    → Fills len (failure_storage_size f) (failure_storage_format buf len f)
unfolding failure_storage_size failure_storage_format
failure_storage_format-Fills buf len f small =
    let n : ℕ = description_size f.description in
    let size : ℕ = storage_size n f.location f.stacktrace in
    and_then-Fills len size size (storage_format buf len f.stage n f.location f.stacktrace)
      (λ rc. (some rc, copy_description f.description))
      (storage_format-Fills buf len f.stage n f.location f.stacktrace small) (omega arith)
      (λ fits. (refl, fits, copy_description-within len f.description f.location f.stacktrace fits))

created-within :
    (size : ℕ) (text : Option (List ℕ)) (part : Option ℕ × List Write)
    → Fills size size part
    → within size (copy_description text) ≡ true
    → (writes : List Write) × (created text part ≡ some writes) × (within size writes ≡ true)
unfolding created
created-within size text (none, writes) (over, w) copied = absurd (omega (arith, over))
created-within size text (some rc, writes) (same, fits, w) copied = (
  writes ++ copy_description text,
  refl,
  within-append size writes (copy_description text) w copied,
)

-- Once its block is allocated, with the size that storage_size__ gives, and that is below 2^31,
-- ctest_failure_create_va gives a failure, and it writes nothing outside the block.
pub ctest_failure_create_va-within :
    (buf stage : ℕ) (text : Option (List ℕ)) (l : Option Location)
    (frames : Option (List StackFrame))
    → storage_size (description_size text) l frames < 2 ^ 31
    → (writes : List Write) × (ctest_failure_create_va true buf stage text l frames ≡ some writes)
      × (within (storage_size (description_size text) l frames) writes ≡ true)
unfolding ctest_failure_create_va
ctest_failure_create_va-within buf stage text l frames small =
    let size : ℕ = storage_size (description_size text) l frames in
    created-within size text (storage_format buf size stage (description_size text) l frames)
      (storage_format-Fills buf size stage (description_size text) l frames small)
      (copy_description-within size text l frames (omega arith))
