-- ===== src/Output/Kept.antt =====
-- What the reader of src/exec/output_reader.c does with the bytes of its pipe.
use ctest.Prelude.{
  ℕ, ◌+◌, ◌-◌, ◌≤◌, ◌<◌, ◌≡◌, refl, sym, ap, ◌∙◌, pos, Bool, true, false, List, [], ◌∷◌, ◌++◌,
  Option, none, some, leb, length, take, map, append_assoc, Bool-cases, Option-cases, append-nil,
  inl, inr, arith,
}
use ctest.Pipe.{
  Answer, grants, taken, left, taken-left, length-taken-le, length-left, length-taken-left,
  taken-empty,
}
use ctest.Output.{Output, output_length}
use ctest.Output.Reader.{OutputReader, grow, read_output, on_data_available, collect}
use ctest.Output.Sized.{
  HasSize, IsSized, contents, length-store, take-store, grow-HasSize, grow-room,
}

-- The read keeps the sizes.
read_output-IsSized :
    (k : Answer) (o : Option Output) (r : OutputReader) (stream : List ℕ)
    → HasSize o r.length
    → IsSized (read_output k o r stream).1
unfolding read_output
read_output-IsSized k none r stream p = p
read_output-IsSized k (some o) r stream p = elim (Bool-cases (leb o.length r.length)) [
  | inl e ↦ rw (e) p
  | inr e ↦
      let room : ℕ = o.length - r.length in
      let le : length (taken k room stream) ≤ room = length-taken-le k room stream in
      rw (e) (
        length-store o.data_bytes r.length (taken k room stream) (omega (arith, p, le)) ∙ p.0,
        omega (arith, p, le),
        p.2,
      )
]

-- Every call of `on_data_available` keeps the sizes, also where an allocation or the read fails.
pub on_data_available-IsSized :
    (allocated : Bool) (k : Answer) (r : OutputReader) (stream : List ℕ)
    → IsSized r
    → IsSized (on_data_available allocated k r stream).1
unfolding on_data_available
on_data_available-IsSized allocated k r stream p =
    read_output-IsSized k (grow allocated r.output r.length) r stream
      (grow-HasSize allocated r.output r.length p).0

-- With room, the read appends what it takes.
read_output-contents :
    (k : Answer) (o : Option Output) (r : OutputReader) (stream : List ℕ)
    → HasSize o r.length
    → r.length < output_length o
    → let (_, r', stream') = read_output k o r stream in
      contents r' ++ stream' ≡ contents (record r { output = o }) ++ stream
unfolding read_output
read_output-contents k none r stream p q = ground arith
read_output-contents k (some o) r stream p q =
    let e : leb o.length r.length ≡ false = ground arith in
    let bytes : List ℕ = taken k (o.length - r.length) stream in
    let rest : List ℕ = left k (o.length - r.length) stream in
    rw (e, take-store o.data_bytes r.length bytes (omega (arith, p)))
      (append_assoc (take r.length o.data_bytes) bytes rest
        ∙ ap (λ (b : List ℕ). take r.length o.data_bytes ++ b)
            (taken-left k (o.length - r.length) stream))

-- A call whose allocation succeeds keeps every byte: those read before, those it takes, and those
-- that stay in the pipe make up what there was.
pub on_data_available-contents :
    (k : Answer) (r : OutputReader) (stream : List ℕ)
    → IsSized r
    → let (_, r', stream') = on_data_available true k r stream in
      contents r' ++ stream' ≡ contents r ++ stream
unfolding on_data_available
on_data_available-contents k r stream p =
    let o : Option Output = grow true r.output r.length in
    let (sized, same) = grow-HasSize true r.output r.length p in
    read_output-contents k o r stream sized (grow-room r.output r.length p)
    ∙ ap (λ (b : List ℕ). b ++ stream) same

-- A call that the kernel answers takes at least one of the bytes that wait.
pub length-on_data_available :
    (n : ℕ) (r : OutputReader) (stream : List ℕ)
    → IsSized r
    → length (on_data_available true (grants n) r stream).2 ≤ length stream - 1
unfolding on_data_available read_output
length-on_data_available n r stream p = elim (Option-cases (grow true r.output r.length)) [
  | inl e ↦ rw (e) (length-left n 4096 stream (omega arith))
  | inr (o, e) ↦ rw (e) (elim (Bool-cases (leb o.length r.length)) [
    | inl t ↦ rw (t) (length-left n 4096 stream (omega arith))
    | inr t ↦ rw (t) (length-left n (o.length - r.length) stream (ground arith))
  ])
]

-- The calls for a sequence of answers, each with its allocation.
abbrev pub with_memory : List ℕ → List (Bool × Answer)
with_memory ns = map (λ n. (true, grants n)) ns

-- If the allocations and reads succeed, the reader that starts empty holds all that was written to
-- the pipe, in order, once it was called as often as there are bytes, however few each call takes.
pub collect-with_memory :
    (ns : List ℕ) (r : OutputReader) (stream : List ℕ)
    → IsSized r
    → length stream ≤ length ns
    → let (r', stream') = collect (with_memory ns) r stream in
      (contents r' ≡ contents r ++ stream) × (stream' ≡ [])
unfolding collect
collect-with_memory [] r [] p q = (sym (append-nil (contents r)), refl)
collect-with_memory [] r (x ∷ stream) p q = ground arith
collect-with_memory (n ∷ ns) r stream p q =
    let (_, r', stream') = on_data_available true (grants n) r stream in
    let (all, nothing) =
      collect-with_memory ns r' stream' (on_data_available-IsSized true (grants n) r stream p)
        (omega (arith, q, length-on_data_available n r stream p)) in
    (all ∙ on_data_available-contents (grants n) r stream p, nothing)

-- No sequence of calls writes outside the storage, whatever fails in it.
pub collect-IsSized :
    (calls : List (Bool × Answer)) (r : OutputReader) (stream : List ℕ)
    → IsSized r
    → IsSized (collect calls r stream).0
unfolding collect
collect-IsSized [] r stream p = p
collect-IsSized ((allocated, k) ∷ calls) r stream p =
    let (_, r', stream') = on_data_available allocated k r stream in
    collect-IsSized calls r' stream' (on_data_available-IsSized allocated k r stream p)

-- Such a call returns 0 only at the end of the stream, and never fails.
pub on_data_available-rc :
    (n : ℕ) (r : OutputReader) (stream : List ℕ)
    → IsSized r
    → (c : ℕ) × (((on_data_available true (grants n) r stream).0 ≡ pos c)
        × (c ≡ 0 → stream ≡ [])
        × (c + length (on_data_available true (grants n) r stream).2 ≡ length stream))
unfolding on_data_available read_output
on_data_available-rc n r stream p = elim (Option-cases (grow true r.output r.length)) [
  | inl e ↦ rw (e) (
    length (taken (grants n) 4096 stream),
    (refl, taken-empty n 4096 stream (omega arith), length-taken-left (grants n) 4096 stream),
  )
  | inr (o, e) ↦ rw (e) (elim (Bool-cases (leb o.length r.length)) [
    | inl t ↦ rw (t) (
      length (taken (grants n) 4096 stream),
      (refl, taken-empty n 4096 stream (omega arith), length-taken-left (grants n) 4096 stream),
    )
    | inr t ↦ rw (t) (
      length (taken (grants n) (o.length - r.length) stream),
      (
        refl,
        taken-empty n (o.length - r.length) stream (ground arith),
        length-taken-left (grants n) (o.length - r.length) stream,
      ),
    )
  ])
]
