-- ===== src/FailureStorage.antt =====
-- src/exec/failure.c, location.c, stacktrace.c and serialization.h: the layout of a failure in one
-- block, with the sizes and alignments of an LP64 machine. A format function is its return value,
-- `none` if that is negative, and the writes it has made to the block.
pub mod Layout
pub mod Filled
pub mod Whole
pub mod Relocate
pub mod Image
pub mod Relocated
pub mod Serialized
pub mod Moved
pub mod Parts
pub mod Among
pub mod Frames
pub mod Formatted
pub mod Laid
pub mod Read
pub mod ReadFrames
pub mod ReadFailure
pub mod Created
pub mod Carried
mod Examples
use ctest.Prelude.{
  ℕ, zero, suc, ◌+◌, ◌-◌, ◌*◌, ◌/◌, ◌%◌, ◌^◌, Bool, true, false, List, [], ◌∷◌, ◌++◌, Option, none,
  some, length, map, leb, ltb, if◌then◌else◌,
}
use ctest.ExecEvents.{bytes_of}
use ctest.Memory.{zeros, text_bytes, store}

-- A failure; strings are without their 0.
pub record Location : Type 0 where
  pub filename : Option (List ℕ)
  pub line : ℕ

pub record StackFrame : Type 0 where
  pub addr : ℕ
  pub filename : Option (List ℕ)
  pub line : ℕ

pub record Failure : Type 0 where
  pub stage : ℕ
  pub description : Option (List ℕ)
  pub location : Option Location
  pub stacktrace : Option (List StackFrame)

-- serialize_pad_size
unfoldable pub pad_size : ℕ → ℕ → ℕ
pad_size size alignment = ((size + alignment - 1) / alignment) * alignment

-- strlen(s) + 1
abbrev pub string_size : List ℕ → ℕ
string_size s = suc (length s)

unfoldable pub add_filename : Option (List ℕ) → ℕ → ℕ
add_filename none size = size
add_filename (some name) size = pad_size size 1 + string_size name

unfoldable pub location_storage_size : Location → ℕ
location_storage_size l = add_filename l.filename 16

unfoldable pub add_filenames : List StackFrame → ℕ → ℕ
add_filenames [] size = size
add_filenames (f ∷ frames) size = add_filenames frames (add_filename f.filename size)

-- The first summand is the size of a pointer, as in the source, and that of the length.
unfoldable pub stacktrace_storage_size : List StackFrame → ℕ
stacktrace_storage_size frames = add_filenames frames (8 + 24 * length frames)

unfoldable pub add_description : ℕ → ℕ → ℕ
add_description zero size = size
add_description (suc n) size = pad_size size 1 + suc n

unfoldable pub add_location : Option Location → ℕ → ℕ
add_location none size = size
add_location (some l) size = pad_size size 8 + location_storage_size l

unfoldable pub add_stacktrace : Option (List StackFrame) → ℕ → ℕ
add_stacktrace none size = size
add_stacktrace (some frames) size = pad_size size 8 + stacktrace_storage_size frames

unfoldable pub storage_size : ℕ → Option Location → Option (List StackFrame) → ℕ
storage_size description_len location stacktrace =
    add_stacktrace stacktrace (add_location location (add_description description_len 32))

unfoldable pub description_size : Option (List ℕ) → ℕ
description_size none = 0
description_size (some s) = string_size s

unfoldable pub failure_storage_size : Failure → ℕ
failure_storage_size f = storage_size (description_size f.description) f.location f.stacktrace

-- A write to the block: its offset and the bytes.
pub record Write : Type 0 where
  pub ofs : ℕ
  pub bytes : List ℕ

abbrev pub wrote : ℕ → List ℕ → Write
wrote ofs bytes = record { ofs = ofs; bytes = bytes }

unfoldable pub apply_writes : List Write → List ℕ → List ℕ
apply_writes [] block = block
apply_writes (w ∷ writes) block = apply_writes writes (store w.ofs w.bytes block)

-- A pointer, NULL and an `int`.
abbrev pub pointer : ℕ → List ℕ
pointer p = bytes_of 8 p

abbrev pub null : List ℕ
null = bytes_of 8 0

abbrev pub int : ℕ → List ℕ
int n = bytes_of 4 n

-- `if (rc < 0) return rc;` between two parts.
unfoldable pub and_then :
    Option ℕ × List Write → (ℕ → Option ℕ × List Write) → Option ℕ × List Write
and_then (none, writes) next = (none, writes)
and_then (some ofs, writes) next = let (rc, more) = next ofs in (rc, writes ++ more)

-- A part is formatted at an offset of the block.
unfoldable pub nested : ℕ → Option ℕ × List Write → Option ℕ × List Write
nested ofs (none, writes) = (none, map (λ w. wrote (ofs + w.ofs) w.bytes) writes)
nested ofs (some rc, writes) = (some (ofs + rc), map (λ w. wrote (ofs + w.ofs) w.bytes) writes)

-- `if (ofs > len) return -1;`
unfoldable pub guarded : ℕ → ℕ → List Write → Option ℕ × List Write
guarded len ofs writes = if leb ofs len then (some ofs, writes) else (none, [])

-- The `int` that a size_t becomes when it is returned: its low 32 bits. It is negative from 2^31 on.
unfoldable pub to_int : ℕ → Option ℕ
to_int n = let low = n % 2 ^ 32 in if ltb low (2 ^ 31) then some low else none

-- `return ofs;` in a function that returns an int.
unfoldable pub int_return : Option ℕ × List Write → Option ℕ × List Write
int_return (none, writes) = (none, writes)
int_return (some ofs, writes) = (to_int ofs, writes)

-- The format functions take the address `buf` and the length of the block. A file name comes after
-- `ofs`, and its pointer stands at `field`.
unfoldable pub format_filename : ℕ → ℕ → ℕ → Option (List ℕ) → ℕ → Option ℕ × List Write
format_filename buf len field none ofs = (some ofs, wrote field null ∷ [])
format_filename buf len field (some name) ofs =
    let at = pad_size ofs 1 in
    guarded len (at + string_size name)
      (wrote field (pointer (buf + at)) ∷ wrote at (text_bytes name) ∷ [])

unfoldable pub location_storage_format : ℕ → ℕ → Location → Option ℕ × List Write
location_storage_format buf len l = int_return (
    and_then (guarded len 16 []) (λ ofs.
      and_then (format_filename buf len 0 l.filename ofs)
        (λ ofs. (some ofs, wrote 8 (int l.line) ∷ []))))

-- Frame `i` and those after it.
unfoldable pub format_frames : ℕ → ℕ → ℕ → List StackFrame → ℕ → Option ℕ × List Write
format_frames buf len i [] ofs = (some ofs, [])
format_frames buf len i (f ∷ frames) ofs =
    let at : ℕ = 8 + 24 * i in
    and_then (format_filename buf len (at + 8) f.filename ofs) (λ ofs.
      and_then (some ofs, wrote at (pointer f.addr) ∷ wrote (at + 16) (int f.line) ∷ [])
        (format_frames buf len (suc i) frames))

unfoldable pub stacktrace_storage_format : ℕ → ℕ → List StackFrame → Option ℕ × List Write
stacktrace_storage_format buf len frames = int_return (
    and_then (guarded len (8 + 24 * length frames) (wrote 0 (bytes_of 8 (length frames)) ∷ []))
      (format_frames buf len 0 frames))

unfoldable pub format_description : ℕ → ℕ → ℕ → ℕ → Option ℕ × List Write
format_description buf len zero ofs = (some ofs, wrote 8 null ∷ [])
format_description buf len (suc n) ofs =
    guarded len (pad_size ofs 1 + suc n) (wrote 8 (pointer (buf + pad_size ofs 1)) ∷ [])

unfoldable pub format_location : ℕ → ℕ → Option Location → ℕ → Option ℕ × List Write
format_location buf len none ofs = (some ofs, wrote 16 null ∷ [])
format_location buf len (some l) ofs =
    and_then (guarded len (pad_size ofs 8) (wrote 16 (pointer (buf + pad_size ofs 8)) ∷ []))
      (λ ofs. nested ofs (location_storage_format (buf + ofs) (len - ofs) l))

unfoldable pub format_stacktrace : ℕ → ℕ → Option (List StackFrame) → ℕ → Option ℕ × List Write
format_stacktrace buf len none ofs = (some ofs, wrote 24 null ∷ [])
format_stacktrace buf len (some frames) ofs =
    and_then (guarded len (pad_size ofs 8) (wrote 24 (pointer (buf + pad_size ofs 8)) ∷ []))
      (λ ofs. nested ofs (stacktrace_storage_format (buf + ofs) (len - ofs) frames))

-- storage_format__: memset, the stage, and the parts.
unfoldable pub storage_format :
    ℕ → ℕ → ℕ → ℕ → Option Location → Option (List StackFrame) → Option ℕ × List Write
storage_format buf len stage description_len location stacktrace = int_return (
    and_then (guarded len 32 (wrote 0 (zeros len) ∷ wrote 0 (int stage) ∷ [])) (λ ofs.
      and_then (format_description buf len description_len ofs) (λ ofs.
        and_then (format_location buf len location ofs) (format_stacktrace buf len stacktrace))))

-- The description is copied to the place that storage_format__ has given it.
unfoldable pub copy_description : Option (List ℕ) → List Write
copy_description none = []
copy_description (some s) = wrote (pad_size 32 1) (text_bytes s) ∷ []

unfoldable pub failure_storage_format : ℕ → ℕ → Failure → Option ℕ × List Write
failure_storage_format buf len f =
    and_then
      (storage_format buf len f.stage (description_size f.description) f.location f.stacktrace)
      (λ rc. (some rc, copy_description f.description))

-- What ctest_failure_create_va does with the result of storage_format__: NULL, or the description is
-- printed to its place.
unfoldable pub created : Option (List ℕ) → Option ℕ × List Write → Option (List Write)
created text (none, writes) = none
created text (some rc, writes) = some (writes ++ copy_description text)

-- The writes to the block at `buf` for a description that prints as `text`, and `none` where
-- vsnprintf fails: it returns -1, and 1 is added to that. The first argument says whether calloc
-- succeeds.
unfoldable pub ctest_failure_create_va :
    Bool
    → ℕ
    → ℕ
    → Option (List ℕ)
    → Option Location
    → Option (List StackFrame)
    → Option (List Write)
ctest_failure_create_va false buf stage text location stacktrace = none
ctest_failure_create_va true buf stage text location stacktrace = created text (
    storage_format buf (storage_size (description_size text) location stacktrace) stage
      (description_size text) location stacktrace)
