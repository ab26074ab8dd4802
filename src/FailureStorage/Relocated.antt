-- ===== src/FailureStorage/Relocated.antt =====
-- A block is serialized and deserialized: src/exec/location.c and stacktrace.c change the base of the
-- pointers in their part of it, and nothing else.
use ctest.Prelude.{
  ℕ, suc, ◌+◌, ◌*◌, ◌^◌, ◌≤◌, ◌<◌, ◌≡◌, refl, ap, ◌∙◌, sym, false, List, [], ◌∷◌, ◌++◌, Option,
  none, some, length, take, drop, append_assoc, length-append, ◌==◌, arith,
}
use ctest.ExecEvents.{bytes_of, value_of}
use ctest.ExecEvents.Bytes.{length-bytes_of}
use ctest.Memory.{store, pointer_at}
use ctest.Memory.Apart.{store-append, value_of-bytes_of_8}
use ctest.FailureStorage.{
  Location, StackFrame, pointer, pad_size, add_filename, add_filenames, location_storage_size,
  stacktrace_storage_size,
}
use ctest.FailureStorage.Layout.{le-pad_size_1}
use ctest.FailureStorage.Filled.{le-add_filename, le-add_filenames}
use ctest.FailureStorage.Image.{
  name_pointer, name_bytes, location_head, location_image, frame_head, frame_heads, frame_names,
  stacktrace_image,
}
use ctest.FailureStorage.Relocate.{
  rel_ptr_from_abs, abs_ptr_from_rel, relocate, relocate_frames, location_storage_serialize,
  location_storage_deserialize, stacktrace_storage_serialize, stacktrace_storage_deserialize,
}

-- A conversion that moves the pointers from one base to another.
abbrev pub Moves : ℕ → ℕ → (ℕ → ℕ) → Type 0
Moves from to convert = (k : ℕ) → convert (from + k) ≡ to + k

pub rel_ptr_from_abs-Moves : (buf : ℕ) → Moves buf 0 (rel_ptr_from_abs buf)
unfolding rel_ptr_from_abs
rel_ptr_from_abs-Moves buf k = omega arith

pub abs_ptr_from_rel-Moves : (buf : ℕ) → Moves 0 buf (abs_ptr_from_rel buf)
unfolding abs_ptr_from_rel
abs_ptr_from_rel-Moves buf k = omega arith

pub eq-zero : (n : ℕ) → 1 ≤ n → (n == 0) ≡ false
eq-zero n p = ground arith

pub drop-add : (xs ys : List ℕ) (n : ℕ) → drop (length xs + n) (xs ++ ys) ≡ drop n ys
drop-add [] ys n = let e : length {A = ℕ} [] + n ≡ n = omega arith in ap (λ k. drop k ys) e
drop-add (x ∷ xs) ys n =
    let e : suc (length xs) + n ≡ suc (length xs + n) = omega arith in
    ap (λ k. drop k (x ∷ (xs ++ ys))) e ∙ drop-add xs ys n

-- A pointer field at `field`: `put p` is the block with `p` in it.
abbrev pub IsField : ℕ → (ℕ → List ℕ) → Type 0
IsField field put =
    ((p : ℕ) → p < 2 ^ 64 → pointer_at field (put p) ≡ p)
    × ((p q : ℕ) → store field (pointer q) (put p) ≡ put q)

-- The field of a part behind `front`.
pub IsField-append :
    (front : List ℕ) (field : ℕ) (put : ℕ → List ℕ)
    → IsField field put
    → IsField (length front + field) (λ p. front ++ put p)
unfolding pointer_at
IsField-append front field put (holds, stores) = (
  λ p lt. ap (λ part. value_of (take 8 part)) (drop-add front (put p) field) ∙ holds p lt,
  λ p q. store-append front (put p) (pointer q) field ∙ ap (λ part. front ++ part) (stores p q),
)

pub location_head-IsField : (line : ℕ) (rest : List ℕ) → IsField 0 (λ p. location_head p line rest)
unfolding pointer_at bytes_of
location_head-IsField line rest = (λ p lt. value_of-bytes_of_8 p lt, λ p q. refl)

pub frame_head-IsField :
    (addr line : ℕ) (rest : List ℕ) → IsField 8 (λ p. frame_head addr p line rest)
unfolding pointer_at bytes_of
frame_head-IsField addr line rest = (λ p lt. value_of-bytes_of_8 p lt, λ p q. refl)

pub relocate-null :
    (convert : ℕ → ℕ) (field : ℕ) (put : ℕ → List ℕ)
    → IsField field put
    → relocate convert field (put 0) ≡ put 0
unfolding relocate
relocate-null convert field put (holds, stores) = rw (holds 0 (omega arith)) refl

pub relocate-pointer :
    (convert : ℕ → ℕ) (field p : ℕ) (put : ℕ → List ℕ)
    → IsField field put
    → 1 ≤ p
    → p < 2 ^ 64
    → relocate convert field (put p) ≡ put (convert p)
unfolding relocate
relocate-pointer convert field p put (holds, stores) pos lt =
    rw (holds p lt) (rw (eq-zero p pos) (stores p (convert p)))

-- The pointer to a file name that comes after `ofs`.
pub relocate-name :
    (from to : ℕ) (convert : ℕ → ℕ) (field ofs : ℕ) (name : Option (List ℕ)) (put : ℕ → List ℕ)
    → Moves from to convert
    → IsField field put
    → 1 ≤ ofs
    → from + add_filename name ofs < 2 ^ 64
    → relocate convert field (put (name_pointer from name ofs)) ≡ put (name_pointer to name ofs)
unfolding add_filename
relocate-name from to convert field ofs none put moves is_field pos lt =
    relocate-null convert field put is_field
relocate-name from to convert field ofs (some name) put moves is_field pos lt =
    relocate-pointer convert field (from + pad_size ofs 1) put is_field
      (omega (arith, le-pad_size_1 ofs, pos)) (omega (arith, lt))
    ∙ ap put (moves (pad_size ofs 1))

pub relocate-location_image :
    (from to : ℕ) (convert : ℕ → ℕ) (l : Location) (rest : List ℕ)
    → Moves from to convert
    → from + location_storage_size l < 2 ^ 64
    → relocate convert 0 (location_image from l rest) ≡ location_image to l rest
unfolding location_storage_size
relocate-location_image from to convert l rest moves lt =
    relocate-name from to convert 0 16 l.filename
      (λ p. location_head p l.line (name_bytes l.filename rest)) moves
      (location_head-IsField l.line (name_bytes l.filename rest)) (omega arith) lt

frame_front :
    (front : List ℕ) (addr p line : ℕ) (rest : List ℕ)
    → front ++ frame_head addr p line rest ≡ (front ++ frame_head addr p line []) ++ rest
unfolding bytes_of
frame_front front addr p line rest = sym (append_assoc front (frame_head addr p line []) rest)

length-frame_front :
    (front : List ℕ) (addr p line i : ℕ)
    → length front ≡ 8 + 24 * i
    → length (front ++ frame_head addr p line []) ≡ 8 + 24 * suc i
unfolding bytes_of
length-frame_front front addr p line i at =
    omega (arith, at, length-append front (frame_head addr p line []))

-- The number of frames is read back, and is below the size of the block.
pub count_at : (n : ℕ) (rest : List ℕ) → n < 2 ^ 64 → pointer_at 0 (bytes_of 8 n ++ rest) ≡ n
unfolding pointer_at bytes_of
count_at n rest lt = value_of-bytes_of_8 n lt

pub few_frames : (frames : List StackFrame) → length frames ≤ stacktrace_storage_size frames
unfolding stacktrace_storage_size
few_frames frames = omega (arith, le-add_filenames frames (8 + 24 * length frames))

pub relocate_frames-frame_heads :
    (from to : ℕ) (convert : ℕ → ℕ) (i ofs : ℕ) (frames : List StackFrame) (front rest : List ℕ)
    → Moves from to convert
    → length front ≡ 8 + 24 * i
    → 1 ≤ ofs
    → from + add_filenames frames ofs < 2 ^ 64
    → relocate_frames convert i (length frames) (front ++ frame_heads from ofs frames rest)
      ≡ front ++ frame_heads to ofs frames rest
unfolding relocate_frames add_filenames
relocate_frames-frame_heads from to convert i ofs [] front rest moves at pos lt = refl
relocate_frames-frame_heads from to convert i ofs (f ∷ frames) front rest moves at pos lt =
    let ofs' : ℕ = add_filename f.filename ofs in
    let grows : ofs ≤ ofs' = le-add_filename f.filename ofs in
    let put : ℕ → List ℕ =
      λ p. front ++ frame_head f.addr p f.line (frame_heads from ofs' frames rest) in
    let q : ℕ = name_pointer to f.filename ofs in
    let field : length front + 8 ≡ 8 + 24 * i + 8 = omega (arith, at) in
    let step : relocate convert (length front + 8) (put (name_pointer from f.filename ofs))
        ≡ put q =
      relocate-name from to convert (length front + 8) ofs f.filename put moves
        (IsField-append front 8
          (λ p. frame_head f.addr p f.line (frame_heads from ofs' frames rest))
          (frame_head-IsField f.addr f.line (frame_heads from ofs' frames rest)))
        pos (omega (arith, lt, le-add_filenames frames ofs')) in
    let front' : List ℕ = front ++ frame_head f.addr q f.line [] in
    ap (λ (block : List ℕ). relocate_frames convert (suc i) (length frames) block)
      (ap (λ (k : ℕ). relocate convert k (put (name_pointer from f.filename ofs))) (sym field)
        ∙ (step ∙ frame_front front f.addr q f.line (frame_heads from ofs' frames rest)))
    ∙ (relocate_frames-frame_heads from to convert (suc i) ofs' frames front' rest moves
          (length-frame_front front f.addr q f.line i at) (omega (arith, pos, grows)) lt
        ∙ sym (frame_front front f.addr q f.line (frame_heads to ofs' frames rest)))

-- The number of frames, and what the loop does with them.
pub relocate_frames-stacktrace_image :
    (from to : ℕ) (convert : ℕ → ℕ) (frames : List StackFrame) (rest : List ℕ)
    → Moves from to convert
    → from + stacktrace_storage_size frames < 2 ^ 64
    → length frames < 2 ^ 64
    → relocate_frames convert 0
        (pointer_at 0 (stacktrace_image from frames rest))
        (stacktrace_image from frames rest)
      ≡ stacktrace_image to frames rest
unfolding stacktrace_storage_size
relocate_frames-stacktrace_image from to convert frames rest moves lt few =
    let names_at : ℕ = 8 + 24 * length frames in
    ap (λ (n : ℕ). relocate_frames convert 0 n (stacktrace_image from frames rest))
      (count_at (length frames) (frame_heads from names_at frames (frame_names frames rest)) few)
    ∙ relocate_frames-frame_heads from to convert 0 names_at frames (bytes_of 8 (length frames))
        (frame_names frames rest) moves
        (let e : length (bytes_of 8 (length frames)) ≡ 8 + 24 * 0 =
            omega (arith, length-bytes_of 8 (length frames)) in
          e)
        (omega arith) lt

-- The four conversions of a part.
pub location_storage_serialize-location_image :
    (buf : ℕ) (l : Location) (rest : List ℕ)
    → buf + location_storage_size l < 2 ^ 64
    → location_storage_serialize buf (location_image buf l rest) ≡ some (location_image 0 l rest)
unfolding location_storage_serialize
location_storage_serialize-location_image buf l rest lt =
    ap some
      (relocate-location_image buf 0 (rel_ptr_from_abs buf) l rest (rel_ptr_from_abs-Moves buf) lt)

pub location_storage_deserialize-location_image :
    (buf : ℕ) (l : Location) (rest : List ℕ)
    → location_storage_size l < 2 ^ 64
    → location_storage_deserialize buf (location_image 0 l rest) ≡ some (location_image buf l rest)
unfolding location_storage_deserialize
location_storage_deserialize-location_image buf l rest lt = ap some (
    relocate-location_image 0 buf (abs_ptr_from_rel buf) l rest (abs_ptr_from_rel-Moves buf)
      (omega (arith, lt)))

pub stacktrace_storage_serialize-stacktrace_image :
    (buf : ℕ) (frames : List StackFrame) (rest : List ℕ)
    → buf + stacktrace_storage_size frames < 2 ^ 64
    → stacktrace_storage_serialize buf (stacktrace_image buf frames rest)
      ≡ some (stacktrace_image 0 frames rest)
unfolding stacktrace_storage_serialize
stacktrace_storage_serialize-stacktrace_image buf frames rest lt = ap some (
    relocate_frames-stacktrace_image buf 0 (rel_ptr_from_abs buf) frames rest
      (rel_ptr_from_abs-Moves buf) lt (omega (arith, lt, few_frames frames)))

pub stacktrace_storage_deserialize-stacktrace_image :
    (buf : ℕ) (frames : List StackFrame) (rest : List ℕ)
    → stacktrace_storage_size frames < 2 ^ 64
    → stacktrace_storage_deserialize buf (stacktrace_image 0 frames rest)
      ≡ some (stacktrace_image buf frames rest)
unfolding stacktrace_storage_deserialize
stacktrace_storage_deserialize-stacktrace_image buf frames rest lt = ap some (
    relocate_frames-stacktrace_image 0 buf (abs_ptr_from_rel buf) frames rest
      (abs_ptr_from_rel-Moves buf) (omega (arith, lt)) (omega (arith, lt, few_frames frames)))
