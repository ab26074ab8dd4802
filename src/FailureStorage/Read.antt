-- ===== src/FailureStorage/Read.antt =====
-- What can be read from the block of a failure at its address, as src/exec/console_reporter.c reads
-- it: through the pointers, with each string up to its first 0.
use ctest.Prelude.{
  ℕ, zero, suc, ◌+◌, ◌-◌, ◌*◌, ◌^◌, ◌≤◌, ◌<◌, ◌≡◌, refl, ap, ap₂, ◌∙◌, List, [], ◌∷◌, ◌++◌, Option,
  none, some, length, drop, drop-append, append_assoc, ◌==◌, if◌then◌else◌, arith,
}
use ctest.ExecEvents.{bytes_of, value_of}
use ctest.ExecEvents.Bytes.{value_of-bytes_of_4}
use ctest.Memory.{text_bytes, load, pointer_at}
use ctest.Memory.Apart.{value_of-bytes_of_8}
use ctest.ConsoleReporter.{c_string}
use ctest.ConsoleReporter.Shown.{IsText, c_string-append}
use ctest.FailureStorage.{
  Location, StackFrame, Failure, pad_size, add_filename, location_storage_size,
}
use ctest.FailureStorage.Layout.{le-pad_size_1}
use ctest.FailureStorage.Image.{name_pointer, name_bytes, location_head, location_image, pad_size_1}
use ctest.FailureStorage.Relocated.{eq-zero}

-- The string that `p` points to, in a block at `base`. `none` is a NULL pointer, and a string
-- without a 0 in the block.
unfoldable pub read_text : ℕ → ℕ → List ℕ → Option (List ℕ)
read_text base p block = if p == 0 then none else c_string (drop (p - base) block)

unfoldable pub read_location : ℕ → List ℕ → Location
read_location base block = record {
  filename = read_text base (pointer_at 0 block) block;
  line = value_of (load 8 4 block);
}

unfoldable pub read_frame : ℕ → ℕ → List ℕ → StackFrame
read_frame base at block = record {
  addr = pointer_at at block;
  filename = read_text base (pointer_at (at + 8) block) block;
  line = value_of (load (at + 16) 4 block);
}

-- `n` frames from the frame `i` on.
unfoldable pub read_frames : ℕ → ℕ → ℕ → List ℕ → List StackFrame
read_frames base i zero block = []
read_frames base i (suc n) block =
    read_frame base (8 + 24 * i) block ∷ read_frames base (suc i) n block

unfoldable pub read_stacktrace : ℕ → List ℕ → List StackFrame
read_stacktrace base block = read_frames base 0 (pointer_at 0 block) block

unfoldable pub read_part : {A : Type 0} → ℕ → ℕ → (ℕ → List ℕ → A) → List ℕ → Option A
read_part base p read block = if p == 0 then none else some (read p (drop (p - base) block))

unfoldable pub read_failure : ℕ → List ℕ → Failure
read_failure base block = record {
  stage = value_of (load 0 4 block);
  description = read_text base (pointer_at 8 block) block;
  location = read_part base (pointer_at 16 block) read_location block;
  stacktrace = read_part base (pointer_at 24 block) read_stacktrace block;
}

-- What the fields of a failure can hold: texts without a 0, and numbers of their widths.
abbrev pub IsName : Option (List ℕ) → Type 0
IsName none = record {}
IsName (some name) = IsText name

abbrev pub IsLocation : Location → Type 0
IsLocation l = IsName l.filename × (l.line < 2 ^ 32)

abbrev pub IsFrame : StackFrame → Type 0
IsFrame f = (f.addr < 2 ^ 64) × IsName f.filename × (f.line < 2 ^ 32)

abbrev pub AreFrames : List StackFrame → Type 0
AreFrames [] = record {}
AreFrames (f ∷ frames) = IsFrame f × AreFrames frames

-- A name in a block that has it at `ofs`, behind `front`.
pub read_text-name :
    (base ofs : ℕ) (name : Option (List ℕ)) (front rest : List ℕ)
    → IsName name
    → length front ≡ ofs
    → 1 ≤ ofs
    → read_text base (name_pointer base name ofs) (front ++ name_bytes name rest) ≡ name
unfolding read_text
read_text-name base ofs none front rest is_name at pos = refl
read_text-name base ofs (some name) front rest is_name at pos =
    let back : base + pad_size ofs 1 - base ≡ length front = omega (arith, at, pad_size_1 ofs) in
    rw (eq-zero (base + pad_size ofs 1) (omega (arith, le-pad_size_1 ofs, pos))) (
      rw back (
        ap c_string (drop-append front (text_bytes name ++ rest) ∙ append_assoc name (0 ∷ []) rest)
        ∙ c_string-append name rest is_name))

pub below-pointer :
    (base ofs : ℕ) (name : Option (List ℕ))
    → base + add_filename name ofs < 2 ^ 64
    → name_pointer base name ofs < 2 ^ 64
unfolding add_filename
below-pointer base ofs none lt = omega arith
below-pointer base ofs (some name) lt = omega (arith, lt)

location_fields :
    (p line : ℕ) (rest : List ℕ)
    → (pointer_at 0 (location_head p line rest) ≡ value_of (bytes_of 8 p))
      × (load 8 4 (location_head p line rest) ≡ bytes_of 4 line)
unfolding pointer_at bytes_of
location_fields p line rest = (refl, refl)

location_front :
    (p line : ℕ) (rest : List ℕ)
    → (location_head p line rest ≡ location_head p line [] ++ rest)
      × (length (location_head p line []) ≡ 16)
unfolding bytes_of
location_front p line rest = (refl, refl)

pub location-ext :
    (l : Location) (filename : Option (List ℕ)) (line : ℕ)
    → filename ≡ l.filename
    → line ≡ l.line
    → ◌≡◌ {A = Location} (record { filename = filename; line = line }) l
location-ext l filename line e e' = λ i. record { filename = e i; line = e' i }

pub read_location-location_image :
    (base : ℕ) (l : Location) (rest : List ℕ)
    → IsLocation l
    → base + location_storage_size l < 2 ^ 64
    → read_location base (location_image base l rest) ≡ l
unfolding read_location location_storage_size
read_location-location_image base l rest (is_name, line_lt) lt =
    let p : ℕ = name_pointer base l.filename 16 in
    let block : List ℕ = location_image base l rest in
    let (at_p, at_line) = location_fields p l.line (name_bytes l.filename rest) in
    let (parts, size) = location_front p l.line (name_bytes l.filename rest) in
    let points : pointer_at 0 block ≡ p =
      at_p ∙ value_of-bytes_of_8 p (below-pointer base 16 l.filename lt) in
    location-ext l (read_text base (pointer_at 0 block) block) (value_of (load 8 4 block))
      (ap₂ (λ (q : ℕ) (b : List ℕ). read_text base q b) points parts
        ∙ read_text-name base 16 l.filename (location_head p l.line []) rest is_name size
            (omega arith))
      (ap value_of at_line ∙ value_of-bytes_of_4 l.line line_lt)
