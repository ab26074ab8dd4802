-- ===== src/FailureStorage/Serialized.antt =====
-- failure_storage_serialize and failure_storage_deserialize of src/exec/failure.c on the block of a
-- failure.
use ctest.Prelude.{
  ℕ, ◌+◌, ◌-◌, ◌^◌, ◌<◌, ◌≡◌, refl, ap, ap₂, ◌∙◌, sym, List, ◌++◌, Option, none, some, length,
  take-append, drop-append, append_assoc, length-append, length-replicate, arith,
}
use ctest.ExecEvents.{bytes_of}
use ctest.Memory.{zeros, pointer_at}
use ctest.Memory.Apart.{store-nil, value_of-bytes_of_8}
use ctest.FailureStorage.{pad_size, description_size, add_description}
use ctest.FailureStorage.Layout.{le-pad_size_1, le-pad_size_8}
use ctest.FailureStorage.Image.{name_pointer, header, aligned, part_pointer}
use ctest.FailureStorage.Relocate.{
  rel_ptr_from_abs, abs_ptr_from_rel, relocate, behind, part_at, then_block, serialize_part,
  deserialize_part,
}
use ctest.FailureStorage.Relocated.{IsField, Moves, eq-zero, relocate-null, relocate-pointer}

-- A pointer in the 32 bytes of the failure itself: `put p rest` is the block with `p` in it.
pub record IsHeader (field : ℕ) (put : ℕ → List ℕ → List ℕ) : Type 0 where
  pub holds : (rest : List ℕ) → IsField field (λ p. put p rest)
  pub front : (p : ℕ) (xs ys : List ℕ) → put p (xs ++ ys) ≡ put p xs ++ ys
  pub size : (p : ℕ) (xs : List ℕ) → length (put p xs) ≡ 32 + length xs

pub description-IsHeader : (stage l s : ℕ) → IsHeader 8 (λ p rest. header stage p l s rest)
unfolding pointer_at bytes_of
description-IsHeader stage l s = record {
  holds = λ rest. (λ p lt. value_of-bytes_of_8 p lt, λ p q. refl);
  front = λ p xs ys. refl;
  size = λ p xs. omega arith;
}

pub location-IsHeader : (stage d s : ℕ) → IsHeader 16 (λ p rest. header stage d p s rest)
unfolding pointer_at bytes_of
location-IsHeader stage d s = record {
  holds = λ rest. (λ p lt. value_of-bytes_of_8 p lt, λ p q. refl);
  front = λ p xs ys. refl;
  size = λ p xs. omega arith;
}

pub stacktrace-IsHeader : (stage d l : ℕ) → IsHeader 24 (λ p rest. header stage d l p rest)
unfolding pointer_at bytes_of
stacktrace-IsHeader stage d l = record {
  holds = λ rest.
      (λ p lt. value_of-bytes_of_8 p lt, λ p q. ap (λ r. header stage d l q r) (store-nil rest));
  front = λ p xs ys. refl;
  size = λ p xs. omega arith;
}

-- A part that is converted behind what stands in front of it.
part_at-append :
    (front part part' : List ℕ) (convert : List ℕ → Option (List ℕ)) (ofs : ℕ)
    → length front ≡ ofs
    → convert part ≡ some part'
    → part_at ofs convert (front ++ part) ≡ some (front ++ part')
unfolding part_at behind
part_at-append front part part' convert ofs at e =
    let there : part_at (length front) convert (front ++ part) ≡ some (front ++ part') =
      ap₂ (λ (xs : List ℕ) (p : Option (List ℕ)). behind xs p) (take-append front part)
        (ap convert (drop-append front part) ∙ e) in
    ap (λ (k : ℕ). part_at k convert (front ++ part)) (sym at) ∙ there

-- What is in front of a part, with the bytes that align it.
pub pad_front :
    (ofs : ℕ) (xs : List ℕ)
    → 32 + length xs ≡ ofs
    → 32 + length (xs ++ zeros (pad_size ofs 8 - ofs)) ≡ pad_size ofs 8
pad_front ofs xs e = omega (
  arith,
  e,
  le-pad_size_8 ofs,
  length-append xs (zeros (pad_size ofs 8 - ofs)),
  length-replicate {A = ℕ} (pad_size ofs 8 - ofs) 0,
)

module _ {field : ℕ} {put : ℕ → List ℕ → List ℕ} (h : IsHeader field put) where
  null_at : (rest : List ℕ) → pointer_at field (put 0 rest) ≡ 0
  null_at rest = (h.holds rest).0 0 (omega arith)

  -- A part without its pointer is left alone.
  serialize_part-null :
      (buf : ℕ) (serialize : ℕ → List ℕ → Option (List ℕ)) (rest : List ℕ)
      → serialize_part buf field serialize (put 0 rest) ≡ some (put 0 rest)
  unfolding serialize_part
  serialize_part-null buf serialize rest = rw (null_at rest) refl

  deserialize_part-null :
      (buf : ℕ) (deserialize : ℕ → List ℕ → Option (List ℕ)) (rest : List ℕ)
      → deserialize_part buf field deserialize (put 0 rest) ≡ some (put 0 rest)
  unfolding deserialize_part
  deserialize_part-null buf deserialize rest = rw (null_at rest) refl

  -- A part at the offset `at`, behind `xs`.
  serialize_part-put :
      (buf at : ℕ) (serialize : ℕ → List ℕ → Option (List ℕ)) (xs part part' : List ℕ)
      → 32 + length xs ≡ at
      → buf + at < 2 ^ 64
      → serialize (buf + at) part ≡ some part'
      → serialize_part buf field serialize (put (buf + at) (xs ++ part))
        ≡ some (put at (xs ++ part'))
  unfolding serialize_part then_block rel_ptr_from_abs
  serialize_part-put buf at serialize xs part part' e lt done =
      let p : ℕ = buf + at in
      let back : p - buf ≡ at = omega arith in
      let changed : part_at at (serialize p) (put p (xs ++ part)) ≡ some (put p (xs ++ part')) =
        ap (λ (block : List ℕ). part_at at (serialize p) block) (h.front p xs part)
        ∙ part_at-append (put p xs) part part' (serialize p) at (h.size p xs ∙ e) done
        ∙ ap some (sym (h.front p xs part')) in
      rw ((h.holds (xs ++ part)).0 p lt) (
        rw (eq-zero p (omega (arith, e)))
          (rw back (rw changed (ap some ((h.holds (xs ++ part')).1 p at)))))

  deserialize_part-put :
      (buf at : ℕ) (deserialize : ℕ → List ℕ → Option (List ℕ)) (xs part part' : List ℕ)
      → 32 + length xs ≡ at
      → buf + at < 2 ^ 64
      → deserialize (buf + at) part ≡ some part'
      → deserialize_part buf field deserialize (put at (xs ++ part))
        ≡ some (put (buf + at) (xs ++ part'))
  unfolding deserialize_part abs_ptr_from_rel
  deserialize_part-put buf at deserialize xs part part' e lt done =
      let p : ℕ = buf + at in
      let back : p - buf ≡ at = omega arith in
      let changed : part_at at (deserialize p) (put p (xs ++ part)) ≡ some (put p (xs ++ part')) =
        ap (λ (block : List ℕ). part_at at (deserialize p) block) (h.front p xs part)
        ∙ part_at-append (put p xs) part part' (deserialize p) at (h.size p xs ∙ e) done
        ∙ ap some (sym (h.front p xs part')) in
      rw ((h.holds (xs ++ part)).0 at (omega (arith, lt)))
        (rw (eq-zero at (omega (arith, e))) (rw back (rw ((h.holds (xs ++ part)).1 at p) changed)))

  pub serialize_part-aligned :
      {A : Type 0} (image : ℕ → A → List ℕ → List ℕ) (convert : ℕ → List ℕ → Option (List ℕ))
      (buf ofs : ℕ) (xs : List ℕ) (part : Option A) (rest : List ℕ)
      → 32 + length xs ≡ ofs
      → ((a : A)
          → part ≡ some a
          → (buf + pad_size ofs 8 < 2 ^ 64)
            × (convert (buf + pad_size ofs 8) (image (buf + pad_size ofs 8) a rest)
                ≡ some (image 0 a rest)))
      → serialize_part buf field convert (
          put
            (part_pointer buf part (pad_size ofs 8))
            (xs ++ aligned image (pad_size ofs 8 - ofs) (buf + pad_size ofs 8) part rest))
        ≡ some (
            put
              (part_pointer 0 part (pad_size ofs 8))
              (xs ++ aligned image (pad_size ofs 8 - ofs) 0 part rest))
  serialize_part-aligned image convert buf ofs xs none rest e converts =
      serialize_part-null buf convert (xs ++ rest)
  serialize_part-aligned image convert buf ofs xs (some a) rest e converts =
      let at : ℕ = pad_size ofs 8 in
      let pad : List ℕ = zeros (at - ofs) in
      let (lt, done) = converts a refl in
      let from : List ℕ = image (buf + pad_size ofs 8) a rest in
      let to : List ℕ = image 0 a rest in
      let zero_base : 0 + at ≡ at = omega arith in
      ap₂ (λ (p : ℕ) (body : List ℕ). serialize_part buf field convert (put p body)) refl
        (sym (append_assoc xs pad from))
      ∙ serialize_part-put buf at convert (xs ++ pad) from to (pad_front ofs xs e) lt done
      ∙ ap₂ (λ (p : ℕ) (body : List ℕ). some (put p body)) (sym zero_base) (append_assoc xs pad to)

  pub deserialize_part-aligned :
      {A : Type 0} (image : ℕ → A → List ℕ → List ℕ) (convert : ℕ → List ℕ → Option (List ℕ))
      (buf ofs : ℕ) (xs : List ℕ) (part : Option A) (rest : List ℕ)
      → 32 + length xs ≡ ofs
      → ((a : A)
          → part ≡ some a
          → (buf + pad_size ofs 8 < 2 ^ 64)
            × (convert (buf + pad_size ofs 8) (image 0 a rest)
                ≡ some (image (buf + pad_size ofs 8) a rest)))
      → deserialize_part buf field convert (
          put
            (part_pointer 0 part (pad_size ofs 8))
            (xs ++ aligned image (pad_size ofs 8 - ofs) 0 part rest))
        ≡ some (
            put
              (part_pointer buf part (pad_size ofs 8))
              (xs ++ aligned image (pad_size ofs 8 - ofs) (buf + pad_size ofs 8) part rest))
  deserialize_part-aligned image convert buf ofs xs none rest e converts =
      deserialize_part-null buf convert (xs ++ rest)
  deserialize_part-aligned image convert buf ofs xs (some a) rest e converts =
      let at : ℕ = pad_size ofs 8 in
      let pad : List ℕ = zeros (at - ofs) in
      let (lt, done) = converts a refl in
      let from : List ℕ = image 0 a rest in
      let to : List ℕ = image (buf + pad_size ofs 8) a rest in
      let zero_base : 0 + at ≡ at = omega arith in
      ap₂ (λ (p : ℕ) (body : List ℕ). deserialize_part buf field convert (put p body)) zero_base
        (sym (append_assoc xs pad from))
      ∙ deserialize_part-put buf at convert (xs ++ pad) from to (pad_front ofs xs e) lt done
      ∙ ap₂ (λ (p : ℕ) (body : List ℕ). some (put p body)) refl (append_assoc xs pad to)

-- A file name or a description with its pointer.
pub relocate-description :
    (from to : ℕ) (convert : ℕ → ℕ) (stage l s : ℕ) (description : Option (List ℕ)) (rest : List ℕ)
    → Moves from to convert
    → from + add_description (description_size description) 32 < 2 ^ 64
    → relocate convert 8 (header stage (name_pointer from description 32) l s rest)
      ≡ header stage (name_pointer to description 32) l s rest
unfolding add_description description_size
relocate-description from to convert stage l s none rest moves lt =
    relocate-null convert 8 (λ p. header stage p l s rest)
      ((description-IsHeader stage l s).holds rest)
relocate-description from to convert stage l s (some text) rest moves lt =
    relocate-pointer convert 8 (from + pad_size 32 1) (λ p. header stage p l s rest)
      ((description-IsHeader stage l s).holds rest) (omega (arith, le-pad_size_1 32))
      (omega (arith, lt))
    ∙ ap (λ p. header stage p l s rest) (moves (pad_size 32 1))
