-- ===== src/Output/Sized.antt =====
-- The storage of the reader of src/exec/output_reader.c holds what was read: its sizes agree, and
-- writes stay inside it.
use ctest.Prelude.{
  ℕ, zero, suc, ◌+◌, ◌-◌, ◌*◌, ◌≤◌, ◌<◌, min, ◌≡◌, refl, ap, ◌∙◌, Bool, true, false, List, [], ◌∷◌,
  ◌++◌, Option, none, some, leb, length, take, drop, replicate, take-append, length-take,
  length-drop, length-append, length-replicate, Bool-cases, inl, inr, arith,
}
use ctest.Output.{Output, output_bytes, output_length, ctest_output_create, ctest_output_resize}
use ctest.Output.Reader.{OutputReader, store, grow}

-- Nothing is read without storage; with storage, the count of bytes read is within it.
abbrev pub HasSize : Option Output → ℕ → Type 0
HasSize none len = len ≡ 0
HasSize (some o) len = (length o.data_bytes ≡ o.length) × (len ≤ o.length) × (1 ≤ o.length)

abbrev pub IsSized : OutputReader → Type 0
IsSized r = HasSize r.output r.length

-- The bytes read so far.
abbrev pub contents : OutputReader → List ℕ
contents r = take r.length (output_bytes r.output)

pub length-store :
    (block : List ℕ) (ofs : ℕ) (bytes : List ℕ)
    → ofs + length bytes ≤ length block
    → length (store block ofs bytes) ≡ length block
unfolding store
length-store block ofs bytes p = omega (
  arith,
  length-append (take ofs block) (bytes ++ drop (ofs + length bytes) block),
  length-append bytes (drop (ofs + length bytes) block),
  length-take ofs block,
  length-drop (ofs + length bytes) block,
)

-- A prefix that ends inside the first list, or at the end of it.
pub take-append-le : (n : ℕ) (xs ys : List ℕ) → n ≤ length xs → take n (xs ++ ys) ≡ take n xs
take-append-le zero xs ys p = refl
take-append-le (suc n) [] ys p = ground arith
take-append-le (suc n) (x ∷ xs) ys p = ap (◌∷◌ x) (take-append-le n xs ys (omega (arith, p)))

pub take-take : (n m : ℕ) (xs : List ℕ) → n ≤ m → take n (take m xs) ≡ take n xs
take-take zero m xs p = refl
take-take (suc n) zero xs p = ground arith
take-take (suc n) (suc m) [] p = refl
take-take (suc n) (suc m) (x ∷ xs) p = ap (◌∷◌ x) (take-take n m xs (omega (arith, p)))

pub take-store :
    (block : List ℕ) (ofs : ℕ) (bytes : List ℕ)
    → ofs ≤ length block
    → take (ofs + length bytes) (store block ofs bytes) ≡ take ofs block ++ bytes
unfolding store
take-store block zero bytes p =
    let z : 0 + length bytes ≡ length bytes = omega arith in
    rw (z) (take-append bytes (drop (length bytes) block))
take-store [] (suc ofs) bytes p = ground arith
take-store (x ∷ block) (suc ofs) bytes p =
    let z : suc ofs + length bytes ≡ suc (ofs + length bytes) = omega arith in
    rw (z) (ap (◌∷◌ x) (take-store block ofs bytes (omega (arith, p))))

-- The storage of a call keeps the bytes read.
pub grow-HasSize :
    (allocated : Bool) (o : Option Output) (len : ℕ)
    → HasSize o len
    → HasSize (grow allocated o len) len
      × (take len (output_bytes (grow allocated o len)) ≡ take len (output_bytes o))
unfolding grow ctest_output_create ctest_output_resize
grow-HasSize false none len p = (p, refl)
grow-HasSize true none len p =
    ((refl, omega (arith, p), omega arith), let z : len ≡ 0 = p in rw (z) refl)
grow-HasSize false (some o) len p = elim (Bool-cases (leb o.length len)) [
  | inl e ↦ rw (e) (p, refl)
  | inr e ↦ rw (e) (p, refl)
]
grow-HasSize true (some o) len p = elim (Bool-cases (leb o.length len)) [
  | inl e ↦
      let kept : List ℕ = take (len * 2) o.data_bytes in
      let zeros : List ℕ = replicate (len * 2 - o.length) 0 in
      let n : length kept ≡ min (len * 2) (length o.data_bytes) =
        length-take (len * 2) o.data_bytes in
      let le : o.length ≤ len = ground arith in
      rw (e) (
        (
          omega (
            arith,
            p,
            le,
            n,
            length-append kept zeros,
            length-replicate {A = ℕ} (len * 2 - o.length) 0,
          ),
          omega arith,
          omega (arith, p, le),
        ),
        take-append-le len kept zeros (omega (arith, n, p, le))
            ∙ take-take len (len * 2) o.data_bytes (omega arith),
      )
  | inr e ↦ rw (e) (p, refl)
]

-- With its allocation, the storage has room.
pub grow-room :
    (o : Option Output) (len : ℕ) → HasSize o len → len < output_length (grow true o len)
unfolding grow ctest_output_create ctest_output_resize
grow-room none len p = omega (arith, p)
grow-room (some o) len p = ground arith
