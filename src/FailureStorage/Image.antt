-- ===== src/FailureStorage/Image.antt =====
-- The bytes of a failure that is laid out in one block, as an independent description of what
-- src/exec/failure.c makes: the parts one after the other, each pointer `base + offset`.
use ctest.Prelude.{
  ℕ, ◌+◌, ◌-◌, ◌*◌, ◌≤◌, ◌≡◌, refl, ap, ◌∙◌, sym, List, [], ◌∷◌, ◌++◌, Option, none, some, length,
  append_assoc, length-append, length-replicate, arith,
}
use ctest.ExecEvents.{bytes_of}
use ctest.ExecEvents.Bytes.{length-bytes_of}
use ctest.Memory.{zeros, text_bytes}
use ctest.Memory.Apart.{length-text_bytes}
use ctest.FailureStorage.{
  Location, StackFrame, Failure, pointer, int, pad_size, add_filename, location_storage_size,
  stacktrace_storage_size, add_filenames, add_description, add_location, add_stacktrace,
  description_size, storage_size, failure_storage_size,
}
use ctest.FailureStorage.Layout.{le-pad_size_8}
use ctest.FailureStorage.Filled.{le-add_description, le-add_location, le-add_stacktrace}

-- Each image is followed by `rest`. A file name, and the pointer to it.
abbrev pub name_bytes : Option (List ℕ) → List ℕ → List ℕ
name_bytes none rest = rest
name_bytes (some name) rest = text_bytes name ++ rest

abbrev pub name_pointer : ℕ → Option (List ℕ) → ℕ → ℕ
name_pointer base none ofs = 0
name_pointer base (some name) ofs = base + pad_size ofs 1

abbrev pub location_head : ℕ → ℕ → List ℕ → List ℕ
location_head p line rest = pointer p ++ (int line ++ (zeros 4 ++ rest))

abbrev pub location_image : ℕ → Location → List ℕ → List ℕ
location_image base l rest =
    location_head (name_pointer base l.filename 16) l.line (name_bytes l.filename rest)

abbrev pub frame_head : ℕ → ℕ → ℕ → List ℕ → List ℕ
frame_head addr p line rest = pointer addr ++ (pointer p ++ (int line ++ (zeros 4 ++ rest)))

abbrev pub frame_heads : ℕ → ℕ → List StackFrame → List ℕ → List ℕ
frame_heads base ofs [] rest = rest
frame_heads base ofs (f ∷ frames) rest =
    frame_head f.addr (name_pointer base f.filename ofs) f.line
      (frame_heads base (add_filename f.filename ofs) frames rest)

abbrev pub frame_names : List StackFrame → List ℕ → List ℕ
frame_names [] rest = rest
frame_names (f ∷ frames) rest = name_bytes f.filename (frame_names frames rest)

abbrev pub stacktrace_image : ℕ → List StackFrame → List ℕ → List ℕ
stacktrace_image base frames rest =
    bytes_of 8 (length frames)
    ++ frame_heads base (8 + 24 * length frames) frames (frame_names frames rest)

abbrev pub header : ℕ → ℕ → ℕ → ℕ → List ℕ → List ℕ
header stage description location stacktrace rest =
    int stage
    ++ (zeros 4 ++ (pointer description ++ (pointer location ++ (pointer stacktrace ++ rest))))

-- A part with the bytes that align it.
abbrev pub aligned : {A : Type 0} → (ℕ → A → List ℕ → List ℕ) → ℕ → ℕ → Option A → List ℕ → List ℕ
aligned image pad base none rest = rest
aligned image pad base (some part) rest = zeros pad ++ image base part rest

abbrev pub location_part : ℕ → ℕ → Option Location → List ℕ → List ℕ
location_part = aligned location_image

abbrev pub stacktrace_part : ℕ → ℕ → Option (List StackFrame) → List ℕ → List ℕ
stacktrace_part = aligned stacktrace_image

abbrev pub part_pointer : {A : Type 0} → ℕ → Option A → ℕ → ℕ
part_pointer base none at = 0
part_pointer base (some part) at = base + at

abbrev pub description_bytes : Option (List ℕ) → List ℕ
description_bytes none = []
description_bytes (some text) = text_bytes text

-- Where the description ends, where the location is, where that ends, and where the stack trace is.
abbrev pub described : Failure → ℕ
described f = add_description (description_size f.description) 32

abbrev pub location_at : Failure → ℕ
location_at f = pad_size (described f) 8

abbrev pub located : Failure → ℕ
located f = add_location f.location (described f)

abbrev pub stacktrace_at : Failure → ℕ
stacktrace_at f = pad_size (located f) 8

-- The block with the pointers of the failure, of its location and of its stack trace from a base
-- of their own.
unfoldable pub failure_image : ℕ → ℕ → ℕ → Failure → List ℕ
failure_image base location_base stacktrace_base f =
    header f.stage (name_pointer base f.description 32)
      (part_pointer base f.location (location_at f))
      (part_pointer base f.stacktrace (stacktrace_at f))
      (description_bytes f.description
        ++ location_part (location_at f - described f) location_base f.location
            (stacktrace_part (stacktrace_at f - located f) stacktrace_base f.stacktrace []))

-- The block of a failure at the address `buf`, and its serialization.
unfoldable pub failure_at : ℕ → Failure → List ℕ
failure_at buf f = failure_image buf (buf + location_at f) (buf + stacktrace_at f) f

unfoldable pub serialized : Failure → List ℕ
serialized f = failure_image 0 0 0 f

-- The sizes of the images are those of the size functions.
pub pad_size_1 : (ofs : ℕ) → pad_size ofs 1 ≡ ofs
unfolding pad_size
pad_size_1 ofs = omega arith

pub length-name_bytes :
    (name : Option (List ℕ)) (ofs : ℕ) (rest : List ℕ)
    → ofs + length (name_bytes name rest) ≡ add_filename name ofs + length rest
unfolding add_filename
length-name_bytes none ofs rest = refl
length-name_bytes (some name) ofs rest =
    omega (arith, pad_size_1 ofs, length-append (text_bytes name) rest, length-text_bytes name)

pub length-location_image :
    (base : ℕ) (l : Location) (rest : List ℕ)
    → length (location_image base l rest) ≡ location_storage_size l + length rest
unfolding bytes_of location_storage_size
length-location_image base l rest = omega (arith, length-name_bytes l.filename 16 rest)

pub length-location_part :
    (ofs base : ℕ) (l : Option Location) (rest : List ℕ)
    → ofs + length (location_part (pad_size ofs 8 - ofs) base l rest)
      ≡ add_location l ofs + length rest
unfolding add_location
length-location_part ofs base none rest = refl
length-location_part ofs base (some l) rest = omega (
  arith,
  le-pad_size_8 ofs,
  length-location_image base l rest,
  length-append (zeros (pad_size ofs 8 - ofs)) (location_image base l rest),
  length-replicate {A = ℕ} (pad_size ofs 8 - ofs) 0,
)

pub length-description_bytes :
    (description : Option (List ℕ))
    → 32 + length (description_bytes description)
      ≡ add_description (description_size description) 32
unfolding description_size add_description
length-description_bytes none = refl
length-description_bytes (some text) = omega (arith, pad_size_1 32, length-text_bytes text)

-- What stands in front of a part.
pub name_bytes-append :
    (name : Option (List ℕ)) (xs ys : List ℕ)
    → name_bytes name (xs ++ ys) ≡ name_bytes name xs ++ ys
name_bytes-append none xs ys = refl
name_bytes-append (some name) xs ys = sym (append_assoc (text_bytes name) xs ys)

pub location_part-append :
    (pad base : ℕ) (l : Option Location) (xs ys : List ℕ)
    → location_part pad base l (xs ++ ys) ≡ location_part pad base l xs ++ ys
unfolding bytes_of
location_part-append pad base none xs ys = refl
location_part-append pad base (some l) xs ys =
    ap (λ (rest : List ℕ). zeros pad ++ location_head (name_pointer base l.filename 16) l.line rest)
      (name_bytes-append l.filename xs ys)
    ∙ sym (append_assoc (zeros pad) (location_image base l xs) ys)

-- Stack traces.
pub length-frame_heads :
    (base ofs : ℕ) (frames : List StackFrame) (rest : List ℕ)
    → length (frame_heads base ofs frames rest) ≡ 24 * length frames + length rest
unfolding bytes_of
length-frame_heads base ofs [] rest = omega arith
length-frame_heads base ofs (f ∷ frames) rest =
    omega (arith, length-frame_heads base (add_filename f.filename ofs) frames rest)

length-frame_names :
    (frames : List StackFrame) (ofs : ℕ) (rest : List ℕ)
    → ofs + length (frame_names frames rest) ≡ add_filenames frames ofs + length rest
unfolding add_filenames
length-frame_names [] ofs rest = refl
length-frame_names (f ∷ frames) ofs rest = omega (
  arith,
  length-name_bytes f.filename ofs (frame_names frames rest),
  length-frame_names frames (add_filename f.filename ofs) rest,
)

length-stacktrace_part :
    (ofs base : ℕ) (frames : Option (List StackFrame)) (rest : List ℕ)
    → ofs + length (stacktrace_part (pad_size ofs 8 - ofs) base frames rest)
      ≡ add_stacktrace frames ofs + length rest
unfolding add_stacktrace stacktrace_storage_size
length-stacktrace_part ofs base none rest = refl
length-stacktrace_part ofs base (some frames) rest =
    let names_at : ℕ = 8 + 24 * length frames in
    let heads : List ℕ = frame_heads base names_at frames (frame_names frames rest) in
    omega (
      arith,
      le-pad_size_8 ofs,
      length-append (zeros (pad_size ofs 8 - ofs)) (bytes_of 8 (length frames) ++ heads),
      length-append (bytes_of 8 (length frames)) heads,
      length-bytes_of 8 (length frames),
      length-replicate {A = ℕ} (pad_size ofs 8 - ofs) 0,
      length-frame_heads base names_at frames (frame_names frames rest),
      length-frame_names frames names_at rest,
    )

-- The image of a failure has the size that failure_storage_size gives.
pub length-serialized : (f : Failure) → length (serialized f) ≡ failure_storage_size f
unfolding serialized failure_image failure_storage_size storage_size bytes_of
length-serialized f =
    let tail : List ℕ = stacktrace_part (stacktrace_at f - located f) 0 f.stacktrace [] in
    let body : List ℕ = location_part (location_at f - described f) 0 f.location tail in
    omega (
      arith,
      length-append (description_bytes f.description) body,
      length-description_bytes f.description,
      length-location_part (described f) 0 f.location tail,
      length-stacktrace_part (located f) 0 f.stacktrace [],
    )

pub failure_storage_size-positive : (f : Failure) → 32 ≤ failure_storage_size f
unfolding failure_storage_size storage_size
failure_storage_size-positive f = omega (
  arith,
  le-add_description (description_size f.description) 32,
  le-add_location f.location (described f),
  le-add_stacktrace f.stacktrace (located f),
)
