-- ===== src/FailureStorage/Filled.antt =====
-- The format functions of src/exec/failure.c, location.c and stacktrace.c against their size
-- functions.
use ctest.Prelude.{
  ℕ, zero, suc, ◌+◌, ◌*◌, ◌^◌, ◌≤◌, ◌<◌, ◌≡◌, refl, true, List, [], ◌∷◌, Option, none, some, length,
  arith,
}
use ctest.FailureStorage.{
  Location, StackFrame, pad_size, string_size, add_filename, location_storage_size, add_filenames,
  stacktrace_storage_size, add_description, add_location, add_stacktrace, Write, wrote, and_then,
  guarded, pointer, int, format_filename, location_storage_format, format_frames,
  stacktrace_storage_format,
}
use ctest.ExecEvents.{bytes_of}
use ctest.ExecEvents.Bytes.{length-bytes_of}
use ctest.Memory.{text_bytes}
use ctest.Memory.Apart.{length-text_bytes}
use ctest.FailureStorage.Layout.{
  within, Fills, &&-both, le-leb, le-pad_size_1, le-pad_size_8, guarded-Fills, and_then-Fills,
  int_return-Fills,
}

pub within-one :
    (len ofs size : ℕ) (bytes : List ℕ)
    → length bytes ≡ size
    → ofs + size ≤ len
    → within len (wrote ofs bytes ∷ []) ≡ true
within-one len ofs size bytes e le =
    &&-both (le-leb (ofs + length bytes) len (omega (arith, e, le))) refl

pub within-two :
    (len ofs size ofs' size' : ℕ) (bytes bytes' : List ℕ)
    → length bytes ≡ size
    → ofs + size ≤ len
    → length bytes' ≡ size'
    → ofs' + size' ≤ len
    → within len (wrote ofs bytes ∷ wrote ofs' bytes' ∷ []) ≡ true
within-two len ofs size ofs' size' bytes bytes' e le e' le' =
    &&-both (le-leb (ofs + length bytes) len (omega (arith, e, le)))
      (within-one len ofs' size' bytes' e' le')

-- A pointer or a `size_t`.
pub within-word :
    (len ofs n : ℕ) → ofs + 8 ≤ len → within len (wrote ofs (bytes_of 8 n) ∷ []) ≡ true
within-word len ofs n le = within-one len ofs 8 (bytes_of 8 n) (length-bytes_of 8 n) le

pub le-add_filename : (name : Option (List ℕ)) (size : ℕ) → size ≤ add_filename name size
unfolding add_filename
le-add_filename none size = omega arith
le-add_filename (some name) size = omega (arith, le-pad_size_1 size)

pub le-add_filenames : (frames : List StackFrame) (size : ℕ) → size ≤ add_filenames frames size
unfolding add_filenames
le-add_filenames [] size = omega arith
le-add_filenames (f ∷ frames) size =
    omega (
      arith,
      le-add_filename f.filename size,
      le-add_filenames frames (add_filename f.filename size),
    )

pub le-add_description : (n size : ℕ) → size ≤ add_description n size
unfolding add_description
le-add_description zero size = omega arith
le-add_description (suc n) size = omega (arith, le-pad_size_1 size)

pub le-add_location : (l : Option Location) (size : ℕ) → size ≤ add_location l size
unfolding add_location
le-add_location none size = omega arith
le-add_location (some l) size = omega (arith, le-pad_size_8 size)

pub le-add_stacktrace :
    (frames : Option (List StackFrame)) (size : ℕ) → size ≤ add_stacktrace frames size
unfolding add_stacktrace
le-add_stacktrace none size = omega arith
le-add_stacktrace (some frames) size = omega (arith, le-pad_size_8 size)

format_filename-Fills :
    (buf len field : ℕ) (name : Option (List ℕ)) (ofs : ℕ)
    → ofs ≤ len
    → field + 8 ≤ ofs
    → Fills len (add_filename name ofs) (format_filename buf len field name ofs)
unfolding add_filename format_filename
format_filename-Fills buf len field none ofs le below =
    (refl, le, within-word len field 0 (omega (arith, le, below)))
format_filename-Fills buf len field (some name) ofs le below =
    let at : ℕ = pad_size ofs 1 in
    guarded-Fills len (at + string_size name)
      (wrote field (pointer (buf + at)) ∷ wrote at (text_bytes name) ∷ [])
      (λ fits.
        within-two len field 8 at (string_size name) (pointer (buf + at)) (text_bytes name)
          (length-bytes_of 8 (buf + at)) (omega (arith, le, below)) (length-text_bytes name) fits)

pub location_storage_format-Fills :
    (buf len : ℕ) (l : Location)
    → len < 2 ^ 31
    → Fills len (location_storage_size l) (location_storage_format buf len l)
unfolding location_storage_size location_storage_format
location_storage_format-Fills buf len l small =
    let size : ℕ = add_filename l.filename 16 in
    int_return-Fills len size
      (and_then (guarded len 16 []) (λ ofs.
        and_then (format_filename buf len 0 l.filename ofs)
          (λ ofs. (some ofs, wrote 8 (int l.line) ∷ []))))
      small
      (and_then-Fills len 16 size (guarded len 16 [])
        (λ ofs.
          and_then (format_filename buf len 0 l.filename ofs)
            (λ ofs. (some ofs, wrote 8 (int l.line) ∷ [])))
        (guarded-Fills len 16 [] (λ le. refl)) (le-add_filename l.filename 16)
        (λ le.
          and_then-Fills len size size (format_filename buf len 0 l.filename 16)
            (λ ofs. (some ofs, wrote 8 (int l.line) ∷ []))
            (format_filename-Fills buf len 0 l.filename 16 le (omega arith)) (omega arith)
            (λ fits. (
              refl,
              fits,
              within-one len 8 4 (int l.line) (length-bytes_of 4 l.line) (omega (arith, le)),
            ))))

format_frames-Fills :
    (buf len i : ℕ) (frames : List StackFrame) (ofs : ℕ)
    → ofs ≤ len
    → 8 + 24 * (i + length frames) ≤ ofs
    → Fills len (add_filenames frames ofs) (format_frames buf len i frames ofs)
unfolding add_filenames format_frames
format_frames-Fills buf len i [] ofs le below = (refl, le, refl)
format_frames-Fills buf len i (f ∷ frames) ofs le below =
    let at : ℕ = 8 + 24 * i in
    let size : ℕ = add_filename f.filename ofs in
    let total : ℕ = add_filenames frames size in
    let writes : List Write = wrote at (pointer f.addr) ∷ wrote (at + 16) (int f.line) ∷ [] in
    let grows : ofs ≤ size = le-add_filename f.filename ofs in
    and_then-Fills len size total (format_filename buf len (at + 8) f.filename ofs)
      (λ ofs. and_then (some ofs, writes) (format_frames buf len (suc i) frames))
      (format_filename-Fills buf len (at + 8) f.filename ofs le (omega (arith, below)))
      (le-add_filenames frames size)
      (λ fits.
        and_then-Fills len size total (some size, writes) (format_frames buf len (suc i) frames)
          (
            refl,
            fits,
            within-two len at 8 (at + 16) 4 (pointer f.addr) (int f.line) (length-bytes_of 8 f.addr)
                (omega (arith, below, le)) (length-bytes_of 4 f.line) (omega (arith, below, le)),
          )
          (le-add_filenames frames size)
          (λ fits.
            format_frames-Fills buf len (suc i) frames size fits (omega (arith, below, grows))))

pub stacktrace_storage_format-Fills :
    (buf len : ℕ) (frames : List StackFrame)
    → len < 2 ^ 31
    → Fills len (stacktrace_storage_size frames) (stacktrace_storage_format buf len frames)
unfolding stacktrace_storage_size stacktrace_storage_format
stacktrace_storage_format-Fills buf len frames small =
    let size : ℕ = 8 + 24 * length frames in
    let counted : List Write = wrote 0 (bytes_of 8 (length frames)) ∷ [] in
    int_return-Fills len (add_filenames frames size)
      (and_then (guarded len size counted) (format_frames buf len 0 frames)) small
      (and_then-Fills len size (add_filenames frames size) (guarded len size counted)
        (format_frames buf len 0 frames)
        (guarded-Fills len size counted
          (λ le. within-word len 0 (length frames) (omega (arith, le))))
        (le-add_filenames frames size)
        (λ le. format_frames-Fills buf len 0 frames size le (omega arith)))
