-- ===== src/FailureStorage/Formatted.antt =====
-- What failure_storage_format of src/exec/failure.c makes of a block, whatever was in it.
use ctest.Prelude.{
  ℕ, ◌+◌, ◌-◌, ◌^◌, ◌≤◌, ◌<◌, ◌≡◌, refl, ap, ◌∙◌, sym, subst, List, [], ◌∷◌, ◌++◌, Option, none,
  some, length, append_assoc, append-nil, length-replicate, arith,
}
use ctest.ExecEvents.{bytes_of}
use ctest.Memory.{zeros, text_bytes, store}
use ctest.Memory.Apart.{store-over, length-text_bytes}
use ctest.FailureStorage.{
  Location, StackFrame, pointer, int, pad_size, string_size, description_size, add_description,
  add_location, add_stacktrace, location_storage_size, stacktrace_storage_size, Write, wrote,
  apply_writes, and_then, nested, guarded, format_description, format_location, format_stacktrace,
  location_storage_format, stacktrace_storage_format, copy_description,
}
use ctest.FailureStorage.Image.{
  name_pointer, header, location_image, stacktrace_image, location_part, stacktrace_part,
  part_pointer, description_bytes,
}
use ctest.FailureStorage.Serialized.{IsHeader, location-IsHeader, stacktrace-IsHeader, pad_front}
use ctest.FailureStorage.Parts.{
  Makes, and_then-Makes, guarded-Makes, nested-Makes, zeros-split, location_storage_format-Makes,
}
use ctest.FailureStorage.Frames.{stacktrace_storage_format-Makes}

nested_at-Makes :
    (ofs : ℕ) (front : List ℕ) (part : Option ℕ × List Write) (block after : List ℕ) (rc : ℕ)
    → length front ≡ ofs
    → Makes part block rc after
    → Makes (nested ofs part) (front ++ block) (ofs + rc) (front ++ after)
nested_at-Makes ofs front part block after rc e made =
    subst (λ k. Makes (nested k part) (front ++ block) (k + rc) (front ++ after)) e
      (nested-Makes front part block after rc made)

-- The room of a part, with the bytes that align it.
abbrev pub room : {A : Type 0} → (A → ℕ) → ℕ → Option A → ℕ
room size pad none = 0
room size pad (some part) = pad + size part

-- A part behind `xs`, with its pointer.
module _ {A : Type 0} (format : ℕ → ℕ → A → Option ℕ × List Write) (size : A → ℕ)
    (image : ℕ → A → List ℕ → List ℕ)
    (formats : (buf len : ℕ) (a : A) (rest : List ℕ)
      → size a ≤ len
      → len < 2 ^ 31
      → Makes (format buf len a) (zeros (size a) ++ rest) (size a) (image buf a rest))
    {field : ℕ} {put : ℕ → List ℕ → List ℕ} (h : IsHeader field put) where
  part-Makes :
      (buf len ofs : ℕ) (a : A) (xs rest : List ℕ)
      → 32 + length xs ≡ ofs
      → pad_size ofs 8 + size a ≤ len
      → len < 2 ^ 31
      → Makes
          (and_then
            (guarded len (pad_size ofs 8) (wrote field (pointer (buf + pad_size ofs 8)) ∷ []))
            (λ ofs. nested ofs (format (buf + ofs) (len - ofs) a)))
          (put 0 (xs ++ (zeros (pad_size ofs 8 - ofs + size a) ++ rest)))
          (pad_size ofs 8 + size a)
          (put
            (buf + pad_size ofs 8)
            (xs ++ (zeros (pad_size ofs 8 - ofs) ++ image (buf + pad_size ofs 8) a rest)))
  unfolding apply_writes
  part-Makes buf len ofs a xs rest e le small =
      let at : ℕ = pad_size ofs 8 in
      let p : ℕ = buf + at in
      let pad : List ℕ = zeros (at - ofs) in
      let start : List ℕ = xs ++ (zeros (at - ofs + size a) ++ rest) in
      let front : List ℕ = put p (xs ++ pad) in
      let join : (tail : List ℕ) → put p (xs ++ (pad ++ tail)) ≡ front ++ tail = λ tail.
        ap (λ (body : List ℕ). put p body) (sym (append_assoc xs pad tail))
        ∙ h.front p (xs ++ pad) tail in
      let split : start ≡ xs ++ (pad ++ (zeros (size a) ++ rest)) =
        ap (λ (tail : List ℕ). xs ++ tail)
          (zeros-split (at - ofs + size a) (at - ofs) (size a) rest refl) in
      let (done, made) =
        nested_at-Makes at front (format p (len - at) a) (zeros (size a) ++ rest) (image p a rest)
          (size a) (h.size p (xs ++ pad) ∙ pad_front ofs xs e)
          (formats p (len - at) a rest (omega (arith, le)) (omega (arith, small))) in
      and_then-Makes (guarded len at (wrote field (pointer p) ∷ []))
        (λ ofs. nested ofs (format (buf + ofs) (len - ofs) a)) (put 0 start)
        (front ++ (zeros (size a) ++ rest)) (put p (xs ++ (pad ++ image p a rest))) at (at + size a)
        (guarded-Makes len at (wrote field (pointer p) ∷ []) (put 0 start)
          (front ++ (zeros (size a) ++ rest)) (omega (arith, le))
          ((h.holds start).1 0 p
            ∙ ap (λ (body : List ℕ). put p body) split
            ∙ join (zeros (size a) ++ rest)))
        (done, made ∙ sym (join (image p a rest)))

pub format_location-Makes :
    (buf len ofs stage d s : ℕ) (l : Option Location) (xs rest : List ℕ)
    → 32 + length xs ≡ ofs
    → add_location l ofs ≤ len
    → len < 2 ^ 31
    → Makes
        (format_location buf len l ofs)
        (header stage d 0 s
          (xs ++ (zeros (room location_storage_size (pad_size ofs 8 - ofs) l) ++ rest)))
        (add_location l ofs)
        (header stage d
          (part_pointer buf l (pad_size ofs 8))
          s
          (xs ++ location_part (pad_size ofs 8 - ofs) (buf + pad_size ofs 8) l rest))
unfolding format_location add_location apply_writes
format_location-Makes buf len ofs stage d s none xs rest e le small =
    (refl, ((location-IsHeader stage d s).holds (xs ++ rest)).1 0 0)
format_location-Makes buf len ofs stage d s (some l) xs rest e le small =
    part-Makes location_storage_format location_storage_size location_image
      location_storage_format-Makes (location-IsHeader stage d s) buf len ofs l xs rest e le small

pub format_stacktrace-Makes :
    (buf len ofs stage d l : ℕ) (frames : Option (List StackFrame)) (xs rest : List ℕ)
    → 32 + length xs ≡ ofs
    → add_stacktrace frames ofs ≤ len
    → len < 2 ^ 31
    → Makes
        (format_stacktrace buf len frames ofs)
        (header stage d l 0
          (xs ++ (zeros (room stacktrace_storage_size (pad_size ofs 8 - ofs) frames) ++ rest)))
        (add_stacktrace frames ofs)
        (header stage d l
          (part_pointer buf frames (pad_size ofs 8))
          (xs ++ stacktrace_part (pad_size ofs 8 - ofs) (buf + pad_size ofs 8) frames rest))
unfolding format_stacktrace add_stacktrace apply_writes
format_stacktrace-Makes buf len ofs stage d l none xs rest e le small =
    (refl, ((stacktrace-IsHeader stage d l).holds (xs ++ rest)).1 0 0)
format_stacktrace-Makes buf len ofs stage d l (some frames) xs rest e le small =
    part-Makes stacktrace_storage_format stacktrace_storage_size stacktrace_image
      stacktrace_storage_format-Makes (stacktrace-IsHeader stage d l) buf len ofs frames xs rest e
      le small

-- The pointer to the description.
pub format_description-Makes :
    (buf len stage l s : ℕ) (description : Option (List ℕ)) (rest : List ℕ)
    → add_description (description_size description) 32 ≤ len
    → Makes
        (format_description buf len (description_size description) 32)
        (header stage 0 l s rest)
        (add_description (description_size description) 32)
        (header stage (name_pointer buf description 32) l s rest)
unfolding format_description add_description description_size apply_writes bytes_of
format_description-Makes buf len stage l s none rest le = (refl, refl)
format_description-Makes buf len stage l s (some text) rest le =
    guarded-Makes len (pad_size 32 1 + string_size text)
      (wrote 8 (pointer (buf + pad_size 32 1)) ∷ []) (header stage 0 l s rest)
      (header stage (buf + pad_size 32 1) l s rest) le refl

-- The text of the description, once the rest is there.
pub copy_description-Makes :
    (stage d l s : ℕ) (description : Option (List ℕ)) (rest : List ℕ)
    → apply_writes
        (copy_description description)
        (header stage d l s (zeros (description_size description) ++ rest))
      ≡ header stage d l s (description_bytes description ++ rest)
unfolding copy_description description_size apply_writes bytes_of pad_size
copy_description-Makes stage d l s none rest = refl
copy_description-Makes stage d l s (some text) rest =
    ap (λ (tail : List ℕ). header stage d l s tail)
      (store-over (text_bytes text) (zeros (string_size text)) rest
        (length-text_bytes text ∙ sym (length-replicate (string_size text) 0)))

-- memset, and the stage.
pub store-all : (bytes block : List ℕ) → length bytes ≡ length block → store 0 bytes block ≡ bytes
store-all bytes block e =
    ap (λ (b : List ℕ). store 0 bytes b) (sym (append-nil block))
    ∙ store-over bytes block [] e
    ∙ append-nil bytes

pub stage_written :
    (stage : ℕ) (rest : List ℕ) → store 0 (int stage) (zeros 32 ++ rest) ≡ header stage 0 0 0 rest
unfolding bytes_of
stage_written stage rest = refl
