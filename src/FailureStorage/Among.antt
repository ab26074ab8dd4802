-- ===== src/FailureStorage/Among.antt =====
-- The parts of the block of a stack trace in src/exec/stacktrace.c, while its frames are written.
use ctest.Prelude.{
  ℕ, ◌+◌, ◌*◌, ◌≡◌, refl, ap, ◌∙◌, sym, List, [], ◌∷◌, ◌++◌, some, length, append_assoc,
  length-append, length-replicate, arith,
}
use ctest.ExecEvents.{bytes_of}
use ctest.Memory.{zeros, store}
use ctest.Memory.Apart.{store-append}
use ctest.FailureStorage.{
  StackFrame, pointer, int, add_filename, add_filenames, wrote, apply_writes,
}
use ctest.FailureStorage.Image.{name_bytes, frame_head, name_bytes-append}
use ctest.FailureStorage.Parts.{Makes, name_size, add_filename_lem, IsFront, zeros-split}

abbrev pub names_size : List StackFrame → ℕ
names_size [] = 0
names_size (f ∷ frames) = name_size f.filename + names_size frames

pub add_filenames_lem :
    (frames : List StackFrame) (ofs : ℕ) → add_filenames frames ofs ≡ ofs + names_size frames
unfolding add_filenames
add_filenames_lem [] ofs = omega arith
add_filenames_lem (f ∷ frames) ofs =
    omega (
      arith,
      add_filenames_lem frames (add_filename f.filename ofs),
      add_filename_lem f.filename ofs,
    )

-- A frame among the frames: what is in front of it, and the room of those after it.
abbrev pub among : List ℕ → ℕ → List ℕ → ℕ → ℕ → ℕ → List ℕ → List ℕ
among front after names addr line p rest =
    front ++ frame_head addr p line (zeros after ++ (names ++ rest))

module _ (front : List ℕ) (after : ℕ) (names : List ℕ) where
  pub among-IsFront :
      (field ofs : ℕ)
      → field ≡ length front + 8
      → ofs ≡ length front + 24 + after + length names
      → IsFront field ofs (λ p rest. among front after names 0 0 p rest)
  unfolding bytes_of
  among-IsFront field ofs at e = record {
    stores = λ p q rest.
        let tail : List ℕ = frame_head 0 p 0 (zeros after ++ (names ++ rest)) in
        ap (λ (k : ℕ). store k (pointer q) (front ++ tail)) at
        ∙ store-append front tail (pointer q) 8;
    before = λ p xs ys.
        ap (λ (tail : List ℕ). front ++ frame_head 0 p 0 tail)
          (ap (λ (tail : List ℕ). zeros after ++ tail) (sym (append_assoc names xs ys))
            ∙ sym (append_assoc (zeros after) (names ++ xs) ys))
        ∙ sym (append_assoc front (frame_head 0 p 0 (zeros after ++ (names ++ xs))) ys);
    size = λ p. omega (
      arith,
      e,
      length-append front (frame_head 0 p 0 (zeros after ++ (names ++ []))),
      length-append (zeros after) (names ++ []),
      length-append names [],
      length-replicate {A = ℕ} after 0,
    );
  }

  -- The address and the line are written when the file name is.
  pub among-Makes :
      (at addr line p ofs : ℕ) (rest : List ℕ)
      → at ≡ length front
      → Makes
          (some ofs, wrote at (pointer addr) ∷ wrote (at + 16) (int line) ∷ [])
          (among front after names 0 0 p rest)
          ofs
          (among front after names addr line p rest)
  unfolding bytes_of apply_writes
  among-Makes at addr line p ofs rest e =
      let tail : ℕ → List ℕ = λ addr. frame_head addr p 0 (zeros after ++ (names ++ rest)) in
      let zero_ofs : at ≡ length front + 0 = omega (arith, e) in
      (
        refl,
        ap (λ (block : List ℕ). store (at + 16) (int line) block)
              (ap (λ (k : ℕ). store k (pointer addr) (front ++ tail 0)) zero_ofs
                ∙ store-append front (tail 0) (pointer addr) 0)
            ∙ ap (λ (k : ℕ). store (k + 16) (int line) (front ++ tail addr)) e
            ∙ store-append front (tail addr) (int line) 16,
      )

pub frame_head-zeros : (rest : List ℕ) → zeros 24 ++ rest ≡ frame_head 0 0 0 rest
unfolding bytes_of
frame_head-zeros rest = refl

-- The frame becomes a part of what is in front of the others, and its name of the names before.
pub among_lem :
    (front : List ℕ) (after : ℕ) (names : List ℕ) (f : StackFrame) (p : ℕ) (rest : List ℕ)
    → among front after names f.addr f.line p (name_bytes f.filename rest)
      ≡ (front ++ frame_head f.addr p f.line [])
        ++ (zeros after ++ ((names ++ name_bytes f.filename []) ++ rest))
unfolding bytes_of
among_lem front after names f p rest =
    ap (λ (tail : List ℕ). front ++ frame_head f.addr p f.line (zeros after ++ tail))
      (ap (λ (tail : List ℕ). names ++ tail) (name_bytes-append f.filename [] rest)
        ∙ sym (append_assoc names (name_bytes f.filename []) rest))
    ∙ sym (
        append_assoc front (frame_head f.addr p f.line [])
          (zeros after ++ ((names ++ name_bytes f.filename []) ++ rest)))

pub heads_lem :
    (front names : List ℕ) (f : StackFrame) (p : ℕ) (rest : List ℕ) (heads : List ℕ → List ℕ)
    → (front ++ frame_head f.addr p f.line [])
        ++ heads ((names ++ name_bytes f.filename []) ++ rest)
      ≡ front ++ frame_head f.addr p f.line (heads (names ++ name_bytes f.filename rest))
unfolding bytes_of
heads_lem front names f p rest heads =
    append_assoc front (frame_head f.addr p f.line [])
      (heads ((names ++ name_bytes f.filename []) ++ rest))
    ∙ ap (λ (tail : List ℕ). front ++ frame_head f.addr p f.line (heads tail))
        (append_assoc names (name_bytes f.filename []) rest
          ∙ ap (λ (tail : List ℕ). names ++ tail) (sym (name_bytes-append f.filename [] rest)))

-- The room of the first frame and of its name.
pub room_lem :
    (front names : List ℕ) (f : StackFrame) (frames : List StackFrame) (rest : List ℕ)
    → front
        ++ (zeros (24 * length (f ∷ frames))
            ++ (names ++ (zeros (names_size (f ∷ frames)) ++ rest)))
      ≡ among front
          (24 * length frames)
          names
          0
          0
          0
          (zeros (name_size f.filename) ++ (zeros (names_size frames) ++ rest))
room_lem front names f frames rest =
    let after : ℕ = 24 * length frames in
    let names_room : List ℕ = zeros (name_size f.filename) ++ (zeros (names_size frames) ++ rest) in
    ap (λ (tail : List ℕ). front ++ (zeros (24 * length (f ∷ frames)) ++ (names ++ tail)))
      (zeros-split (names_size (f ∷ frames)) (name_size f.filename) (names_size frames) rest refl)
    ∙ ap (λ (tail : List ℕ). front ++ tail)
        (zeros-split (24 * length (f ∷ frames)) 24 after (names ++ names_room) (omega arith)
          ∙ frame_head-zeros (zeros after ++ (names ++ names_room)))
