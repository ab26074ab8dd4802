-- ===== src/FailureStorage/ReadFrames.antt =====
-- The frames of a stack trace, read from its block.
use ctest.Prelude.{
  ℕ, suc, ◌+◌, ◌*◌, ◌^◌, ◌<◌, ◌≡◌, refl, ap, ap₂, ◌∙◌, sym, List, [], ◌∷◌, ◌++◌, Option, length,
  take, drop, append_assoc, length-append, arith,
}
use ctest.ExecEvents.{bytes_of, value_of}
use ctest.ExecEvents.Bytes.{length-bytes_of, value_of-bytes_of_4}
use ctest.Memory.{load, pointer_at}
use ctest.Memory.Apart.{value_of-bytes_of_8}
use ctest.FailureStorage.{StackFrame, add_filename, add_filenames, stacktrace_storage_size}
use ctest.FailureStorage.Filled.{le-add_filenames}
use ctest.FailureStorage.Image.{
  name_pointer, name_bytes, frame_head, frame_heads, frame_names, stacktrace_image,
  name_bytes-append, length-name_bytes, length-frame_heads,
}
use ctest.FailureStorage.Relocated.{drop-add, count_at, few_frames}
use ctest.FailureStorage.Parts.{add_filename_lem}
use ctest.FailureStorage.Read.{
  read_text, read_frame, read_frames, read_stacktrace, IsFrame, AreFrames, read_text-name,
  below-pointer,
}

frame-ext :
    (f : StackFrame) (addr : ℕ) (filename : Option (List ℕ)) (line : ℕ)
    → addr ≡ f.addr
    → filename ≡ f.filename
    → line ≡ f.line
    → ◌≡◌ {A = StackFrame} (record { addr = addr; filename = filename; line = line }) f
frame-ext f addr filename line e e' e'' = λ i. record { addr = e i; filename = e' i; line = e'' i }

-- The three fields of a frame behind `front`.
frame_fields :
    (front : List ℕ) (addr p line at : ℕ) (rest : List ℕ)
    → length front ≡ at
    → (pointer_at at (front ++ frame_head addr p line rest) ≡ value_of (bytes_of 8 addr))
      × (pointer_at (at + 8) (front ++ frame_head addr p line rest) ≡ value_of (bytes_of 8 p))
      × (load (at + 16) 4 (front ++ frame_head addr p line rest) ≡ bytes_of 4 line)
unfolding pointer_at bytes_of
frame_fields front addr p line at rest e =
    let head : List ℕ = frame_head addr p line rest in
    let start : length front + 0 ≡ at = omega (arith, e) in
    let there : (k : ℕ) → drop (at + k) (front ++ head) ≡ drop k head =
      λ k. ap (λ (n : ℕ). drop (n + k) (front ++ head)) (sym e) ∙ drop-add front head k in
    let first : drop at (front ++ head) ≡ head =
      ap (λ (n : ℕ). drop n (front ++ head)) (sym start) ∙ drop-add front head 0 in
    (
      ap (λ (part : List ℕ). value_of (take 8 part)) first,
      ap (λ (part : List ℕ). value_of (take 8 part)) (there 8),
      ap (λ (part : List ℕ). take 4 part) (there 16),
    )

frame_heads-append :
    (base ofs : ℕ) (frames : List StackFrame) (xs ys : List ℕ)
    → frame_heads base ofs frames (xs ++ ys) ≡ frame_heads base ofs frames xs ++ ys
unfolding bytes_of
frame_heads-append base ofs [] xs ys = refl
frame_heads-append base ofs (f ∷ frames) xs ys =
    ap (λ (rest : List ℕ). frame_head f.addr (name_pointer base f.filename ofs) f.line rest)
      (frame_heads-append base (add_filename f.filename ofs) frames xs ys)

-- The frames from the frame `i` on, their names behind `names`.
module _ (base : ℕ) where
  frames_block : List ℕ → ℕ → List StackFrame → List ℕ → List ℕ → List ℕ
  frames_block front ofs frames names rest =
      front ++ frame_heads base ofs frames (names ++ frame_names frames rest)

  -- The name of the first frame, and all that is in front of it.
  name_front :
      (front : List ℕ) (ofs : ℕ) (f : StackFrame) (frames : List StackFrame) (names rest : List ℕ)
      → ofs ≡ length front + 24 * length (f ∷ frames) + length names
      → (before : List ℕ) × (length before ≡ ofs)
        × (frames_block front ofs (f ∷ frames) names rest
            ≡ before ++ name_bytes f.filename (frame_names frames rest))
  unfolding frames_block
  name_front front ofs f frames names rest e =
      let heads : List ℕ = frame_heads base ofs (f ∷ frames) names in
      let tail : List ℕ = name_bytes f.filename (frame_names frames rest) in
      (
        front ++ heads,
        omega (arith, e, length-append front heads, length-frame_heads base ofs (f ∷ frames) names),
        ap (λ (part : List ℕ). front ++ part) (frame_heads-append base ofs (f ∷ frames) names tail)
            ∙ sym (append_assoc front heads tail),
      )

  -- The first frame joins what is in front of the others.
  frames_block-next :
      (front : List ℕ) (ofs : ℕ) (f : StackFrame) (frames : List StackFrame) (names rest : List ℕ)
      → frames_block front ofs (f ∷ frames) names rest
        ≡ frames_block
            (front ++ frame_head f.addr (name_pointer base f.filename ofs) f.line [])
            (add_filename f.filename ofs)
            frames
            (names ++ name_bytes f.filename [])
            rest
  unfolding frames_block bytes_of
  frames_block-next front ofs f frames names rest =
      let p : ℕ = name_pointer base f.filename ofs in
      let ofs' : ℕ = add_filename f.filename ofs in
      ap
        (λ (tail : List ℕ). front ++ frame_head f.addr p f.line (frame_heads base ofs' frames tail))
        (ap (λ (tail : List ℕ). names ++ tail)
            (name_bytes-append f.filename [] (frame_names frames rest))
          ∙ sym (append_assoc names (name_bytes f.filename []) (frame_names frames rest)))
      ∙ sym (
          append_assoc front (frame_head f.addr p f.line []) (
            frame_heads base ofs' frames
              ((names ++ name_bytes f.filename []) ++ frame_names frames rest)))

  length-next :
      (front : List ℕ) (addr p line i : ℕ)
      → length front ≡ 8 + 24 * i
      → length (front ++ frame_head addr p line []) ≡ 8 + 24 * suc i
  unfolding bytes_of
  length-next front addr p line i at =
      omega (arith, at, length-append front (frame_head addr p line []))

  read_frame-block :
      (i ofs : ℕ) (f : StackFrame) (frames : List StackFrame) (front names rest : List ℕ)
      → IsFrame f
      → length front ≡ 8 + 24 * i
      → ofs ≡ length front + 24 * length (f ∷ frames) + length names
      → base + add_filename f.filename ofs < 2 ^ 64
      → read_frame base (8 + 24 * i) (frames_block front ofs (f ∷ frames) names rest) ≡ f
  unfolding read_frame frames_block
  read_frame-block i ofs f frames front names rest (addr_lt, is_name, line_lt) at e lt =
      let p : ℕ = name_pointer base f.filename ofs in
      let block : List ℕ = frames_block front ofs (f ∷ frames) names rest in
      let (before, size, parts) = name_front front ofs f frames names rest e in
      let (at_addr, at_p, at_line) =
        frame_fields front f.addr p f.line (8 + 24 * i)
          (frame_heads base (add_filename f.filename ofs) frames
            (names ++ frame_names (f ∷ frames) rest))
          at in
      let points : pointer_at (8 + 24 * i + 8) block ≡ p =
        at_p ∙ value_of-bytes_of_8 p (below-pointer base ofs f.filename lt) in
      frame-ext f (pointer_at (8 + 24 * i) block)
        (read_text base (pointer_at (8 + 24 * i + 8) block) block)
        (value_of (load (8 + 24 * i + 16) 4 block)) (at_addr ∙ value_of-bytes_of_8 f.addr addr_lt)
        (ap₂ (λ (q : ℕ) (b : List ℕ). read_text base q b) points parts
          ∙ read_text-name base ofs f.filename before (frame_names frames rest) is_name size
              (omega (arith, e, at)))
        (ap value_of at_line ∙ value_of-bytes_of_4 f.line line_lt)

  read_frames-block :
      (i ofs : ℕ) (frames : List StackFrame) (front names rest : List ℕ)
      → AreFrames frames
      → length front ≡ 8 + 24 * i
      → ofs ≡ length front + 24 * length frames + length names
      → base + add_filenames frames ofs < 2 ^ 64
      → read_frames base i (length frames) (frames_block front ofs frames names rest) ≡ frames
  unfolding read_frames add_filenames
  read_frames-block i ofs [] front names rest are at e lt = refl
  read_frames-block i ofs (f ∷ frames) front names rest (is, are) at e lt =
      let ofs' : ℕ = add_filename f.filename ofs in
      let p : ℕ = name_pointer base f.filename ofs in
      let next_at : length (front ++ frame_head f.addr p f.line []) ≡ 8 + 24 * suc i =
        length-next front f.addr p f.line i at in
      ap₂ (λ (g : StackFrame) (gs : List StackFrame). g ∷ gs)
        (read_frame-block i ofs f frames front names rest is at e
          (omega (arith, lt, le-add_filenames frames ofs')))
        (ap (λ (b : List ℕ). read_frames base (suc i) (length frames) b)
            (frames_block-next front ofs f frames names rest)
          ∙ read_frames-block (suc i) ofs' frames (front ++ frame_head f.addr p f.line [])
              (names ++ name_bytes f.filename []) rest are next_at
              (omega (
                arith,
                e,
                next_at,
                at,
                add_filename_lem f.filename ofs,
                add_filename_lem f.filename 0,
                length-append names (name_bytes f.filename []),
                length-name_bytes f.filename 0 [],
              ))
              lt)

  pub read_stacktrace-stacktrace_image :
      (frames : List StackFrame) (rest : List ℕ)
      → AreFrames frames
      → base + stacktrace_storage_size frames < 2 ^ 64
      → read_stacktrace base (stacktrace_image base frames rest) ≡ frames
  unfolding read_stacktrace stacktrace_storage_size frames_block
  read_stacktrace-stacktrace_image frames rest are lt =
      let heads_at : ℕ = 8 + 24 * length frames in
      let count : List ℕ = bytes_of 8 (length frames) in
      let eight : length count ≡ 8 = length-bytes_of 8 (length frames) in
      ap (λ (n : ℕ). read_frames base 0 n (stacktrace_image base frames rest))
        (count_at (length frames) (frame_heads base heads_at frames (frame_names frames rest))
          (omega (arith, lt, few_frames frames)))
      ∙ read_frames-block 0 heads_at frames count [] rest are (omega (arith, eight))
          (omega (arith, eight)) lt
