-- ===== src/FailureStorage/Frames.antt =====
-- What stacktrace_storage_format of src/exec/stacktrace.c writes into a block of 0s.
use ctest.Prelude.{
  ℕ, suc, ◌+◌, ◌*◌, ◌^◌, ◌≤◌, ◌<◌, ◌≡◌, refl, ap, ◌∙◌, sym, List, [], ◌∷◌, ◌++◌, Option, some,
  length, length-append, arith,
}
use ctest.ExecEvents.{bytes_of}
use ctest.ExecEvents.Bytes.{length-bytes_of}
use ctest.Memory.{zeros}
use ctest.Memory.Apart.{store-over}
use ctest.FailureStorage.{
  StackFrame, pointer, int, add_filename, add_filenames, stacktrace_storage_size, Write, wrote,
  apply_writes, and_then, guarded, format_filename, format_frames, stacktrace_storage_format,
}
use ctest.FailureStorage.Filled.{le-add_filenames}
use ctest.FailureStorage.Image.{
  name_pointer, name_bytes, frame_head, frame_heads, frame_names, stacktrace_image,
  length-name_bytes,
}
use ctest.FailureStorage.Parts.{
  Makes, Makes-from, and_then-Makes, guarded-Makes, name_size, add_filename_lem,
  format_filename-Makes, zeros-split, int_return-Makes,
}
use ctest.FailureStorage.Among.{
  among-IsFront, among-Makes, names_size, add_filenames_lem, among, among_lem, heads_lem, room_lem,
}

length-front :
    (front : List ℕ) (addr p line i : ℕ)
    → length front ≡ 8 + 24 * i
    → length (front ++ frame_head addr p line []) ≡ 8 + 24 * suc i
unfolding bytes_of
length-front front addr p line i at =
    omega (arith, at, length-append front (frame_head addr p line []))

-- The pointer and the name of a frame, its address and its line, and the frames after it.
format_frame-Makes :
    (buf len i ofs after : ℕ) (f : StackFrame) (front names rest made : List ℕ) (total : ℕ)
    (next : ℕ → Option ℕ × List Write)
    → length front ≡ 8 + 24 * i
    → ofs ≡ length front + 24 + after + length names
    → add_filename f.filename ofs ≤ len
    → Makes
        (next (add_filename f.filename ofs))
        (among front after names f.addr f.line
          (name_pointer buf f.filename ofs)
          (name_bytes f.filename rest))
        total
        made
    → Makes
        (and_then (format_filename buf len (8 + 24 * i + 8) f.filename ofs) (λ ofs.
          and_then
            (
              some ofs,
              wrote (8 + 24 * i) (pointer f.addr) ∷ wrote (8 + 24 * i + 16) (int f.line) ∷ [],
            )
            next))
        (among front after names 0 0 0 (zeros (name_size f.filename) ++ rest))
        total
        made
format_frame-Makes buf len i ofs after f front names rest made total next at e le later =
    let ofs' : ℕ = add_filename f.filename ofs in
    let p : ℕ = name_pointer buf f.filename ofs in
    let named : List ℕ = name_bytes f.filename rest in
    let writes : List Write =
      wrote (8 + 24 * i) (pointer f.addr) ∷ wrote (8 + 24 * i + 16) (int f.line) ∷ [] in
    let start : List ℕ = among front after names 0 0 0 (zeros (name_size f.filename) ++ rest) in
    and_then-Makes (format_filename buf len (8 + 24 * i + 8) f.filename ofs)
      (λ ofs. and_then (some ofs, writes) next) start (among front after names 0 0 p named) made
      ofs' total
      (format_filename-Makes buf len (8 + 24 * i + 8) ofs f.filename
        (λ p rest. among front after names 0 0 p rest) rest
        (among-IsFront front after names (8 + 24 * i + 8) ofs (omega (arith, at))
          (omega (arith, e)))
        le)
      (and_then-Makes (some ofs', writes) next (among front after names 0 0 p named)
        (among front after names f.addr f.line p named) made ofs' total
        (among-Makes front after names (8 + 24 * i) f.addr f.line p ofs' named (sym at)) later)

format_frames-Makes :
    (buf len i ofs : ℕ) (frames : List StackFrame) (front names rest : List ℕ)
    → length front ≡ 8 + 24 * i
    → ofs ≡ length front + 24 * length frames + length names
    → add_filenames frames ofs ≤ len
    → Makes
        (format_frames buf len i frames ofs)
        (front ++ (zeros (24 * length frames) ++ (names ++ (zeros (names_size frames) ++ rest))))
        (add_filenames frames ofs)
        (front ++ frame_heads buf ofs frames (names ++ frame_names frames rest))
unfolding format_frames add_filenames apply_writes
format_frames-Makes buf len i ofs [] front names rest at e le = (refl, refl)
format_frames-Makes buf len i ofs (f ∷ frames) front names rest at e le =
    let ofs' : ℕ = add_filename f.filename ofs in
    let total : ℕ = add_filenames frames ofs' in
    let after : ℕ = 24 * length frames in
    let p : ℕ = name_pointer buf f.filename ofs in
    let front' : List ℕ = front ++ frame_head f.addr p f.line [] in
    let names' : List ℕ = names ++ name_bytes f.filename [] in
    let rest' : List ℕ = zeros (names_size frames) ++ rest in
    let heads : List ℕ → List ℕ = λ tail. frame_heads buf ofs' frames tail in
    let made : List ℕ = front' ++ heads (names' ++ frame_names frames rest) in
    let later : Makes (format_frames buf len (suc i) frames ofs')
        (front' ++ (zeros after ++ (names' ++ rest'))) total made =
      format_frames-Makes buf len (suc i) ofs' frames front' names' rest
        (length-front front f.addr p f.line i at)
        (omega (
          arith,
          e,
          length-front front f.addr p f.line i at,
          at,
          add_filename_lem f.filename ofs,
          length-append names (name_bytes f.filename []),
          length-name_bytes f.filename 0 [],
          add_filename_lem f.filename 0,
        ))
        le in
    let named : List ℕ = name_bytes f.filename rest' in
    let next : ℕ → Option ℕ × List Write = λ ofs. format_frames buf len (suc i) frames ofs in
    let start : List ℕ = among front after names 0 0 0 (zeros (name_size f.filename) ++ rest') in
    let (done, applied) =
      Makes-from (format_frames buf len i (f ∷ frames) ofs)
        (front
          ++ (zeros (24 * length (f ∷ frames))
              ++ (names ++ (zeros (names_size (f ∷ frames)) ++ rest))))
        start made total (room_lem front names f frames rest)
        (format_frame-Makes buf len i ofs after f front names rest' made total next at
          (omega (arith, e)) (omega (arith, le, le-add_filenames frames ofs'))
          (Makes-from (next ofs') (among front after names f.addr f.line p named)
            (front' ++ (zeros after ++ (names' ++ rest'))) made total
            (among_lem front after names f p rest') later)) in
    (done, applied ∙ heads_lem front names f p (frame_names frames rest) heads)

count_written :
    (count room : List ℕ)
    → length count ≡ 8
    → apply_writes (wrote 0 count ∷ []) (zeros 8 ++ room) ≡ count ++ room
unfolding apply_writes
count_written count room e = store-over count (zeros 8) room e

-- A stack trace in a block with room for it.
pub stacktrace_storage_format-Makes :
    (buf len : ℕ) (frames : List StackFrame) (rest : List ℕ)
    → stacktrace_storage_size frames ≤ len
    → len < 2 ^ 31
    → Makes
        (stacktrace_storage_format buf len frames)
        (zeros (stacktrace_storage_size frames) ++ rest)
        (stacktrace_storage_size frames)
        (stacktrace_image buf frames rest)
unfolding stacktrace_storage_format stacktrace_storage_size
stacktrace_storage_format-Makes buf len frames rest le small =
    let n : ℕ = length frames in
    let heads : ℕ = 24 * n in
    let room : List ℕ = zeros heads ++ (zeros (names_size frames) ++ rest) in
    let total : ℕ = add_filenames frames (8 + heads) in
    let count : List ℕ = bytes_of 8 n in
    let eight : length count ≡ 8 = length-bytes_of 8 n in
    let part : Option ℕ × List Write =
      and_then (guarded len (8 + heads) (wrote 0 count ∷ []))
        (λ ofs. format_frames buf len 0 frames ofs) in
    int_return-Makes part (zeros total ++ rest) (stacktrace_image buf frames rest) total
      (omega (arith, le, small))
      (Makes-from part (zeros total ++ rest) (zeros 8 ++ room) (stacktrace_image buf frames rest)
        total
        (zeros-split total 8 (heads + names_size frames) rest
            (omega (arith, add_filenames_lem frames (8 + heads)))
          ∙ ap (λ (tail : List ℕ). zeros 8 ++ tail)
              (zeros-split (heads + names_size frames) heads (names_size frames) rest refl))
        (and_then-Makes (guarded len (8 + heads) (wrote 0 count ∷ []))
          (λ ofs. format_frames buf len 0 frames ofs) (zeros 8 ++ room) (count ++ room)
          (stacktrace_image buf frames rest) (8 + heads) total
          (guarded-Makes len (8 + heads) (wrote 0 count ∷ []) (zeros 8 ++ room) (count ++ room)
            (omega (arith, le, le-add_filenames frames (8 + heads)))
            (count_written count room eight))
          (format_frames-Makes buf len 0 (8 + heads) frames count [] rest (omega (arith, eight))
            (omega (arith, eight)) le)))
