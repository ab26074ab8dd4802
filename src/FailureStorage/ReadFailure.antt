-- ===== src/FailureStorage/ReadFailure.antt =====
-- A whole failure, read from its block.
use ctest.Prelude.{
  ℕ, ◌+◌, ◌-◌, ◌^◌, ◌<◌, ◌≡◌, refl, ap, ap₂, ◌∙◌, sym, subst, List, [], ◌++◌, Option, none, some,
  length, drop-append, append_assoc, arith,
}
use ctest.ExecEvents.{bytes_of, value_of}
use ctest.ExecEvents.Bytes.{value_of-bytes_of_4}
use ctest.Memory.{zeros, load, pointer_at}
use ctest.FailureStorage.{
  Location, StackFrame, Failure, pad_size, description_size, add_description, failure_storage_size,
}
use ctest.FailureStorage.Image.{
  name_pointer, name_bytes, header, aligned, location_image, stacktrace_image, location_part,
  stacktrace_part, part_pointer, description_bytes, described, location_at, located, stacktrace_at,
  failure_image, failure_at, length-description_bytes,
}
use ctest.FailureStorage.Relocated.{eq-zero}
use ctest.FailureStorage.Serialized.{
  IsHeader, description-IsHeader, location-IsHeader, stacktrace-IsHeader, pad_front,
}
use ctest.FailureStorage.Moved.{
  front, front_lem, length-front, described_below, location_below, stacktrace_below,
}
use ctest.FailureStorage.Read.{
  read_text, read_location, read_stacktrace, read_part, read_failure, IsName, IsLocation, AreFrames,
  read_text-name, read_location-location_image,
}
use ctest.FailureStorage.ReadFrames.{read_stacktrace-stacktrace_image}

abbrev pub IsOptionalLocation : Option Location → Type 0
IsOptionalLocation none = record {}
IsOptionalLocation (some l) = IsLocation l

abbrev pub AreOptionalFrames : Option (List StackFrame) → Type 0
AreOptionalFrames none = record {}
AreOptionalFrames (some frames) = AreFrames frames

-- The fields hold what a `ctest_failure_t` can hold.
abbrev pub IsFailure : Failure → Type 0
IsFailure f =
    (f.stage < 2 ^ 32)
    × IsName f.description
    × IsOptionalLocation f.location
    × AreOptionalFrames f.stacktrace

failure-ext :
    (f : Failure) (stage : ℕ) (description : Option (List ℕ)) (location : Option Location)
    (stacktrace : Option (List StackFrame))
    → stage ≡ f.stage
    → description ≡ f.description
    → location ≡ f.location
    → stacktrace ≡ f.stacktrace
    → ◌≡◌ {A = Failure}
        (record {
          stage = stage;
          description = description;
          location = location;
          stacktrace = stacktrace;
        })
        f
failure-ext f stage description location stacktrace a b c d =
    λ i. record { stage = a i; description = b i; location = c i; stacktrace = d i }

-- A part behind `xs`, read through its pointer.
module _ {field : ℕ} {put : ℕ → List ℕ → List ℕ} (h : IsHeader field put) where
  read_part-aligned :
      {A : Type 0} (image : ℕ → A → List ℕ → List ℕ) (read : ℕ → List ℕ → A) (buf ofs : ℕ)
      (xs : List ℕ) (part : Option A) (rest : List ℕ)
      → 32 + length xs ≡ ofs
      → ((a : A)
          → part ≡ some a
          → (buf + pad_size ofs 8 < 2 ^ 64)
            × (read (buf + pad_size ofs 8) (image (buf + pad_size ofs 8) a rest) ≡ a))
      → read_part buf
          (pointer_at field (
            put
              (part_pointer buf part (pad_size ofs 8))
              (xs ++ aligned image (pad_size ofs 8 - ofs) (buf + pad_size ofs 8) part rest)))
          read
          (put
            (part_pointer buf part (pad_size ofs 8))
            (xs ++ aligned image (pad_size ofs 8 - ofs) (buf + pad_size ofs 8) part rest))
        ≡ part
  unfolding read_part
  read_part-aligned image read buf ofs xs none rest e reads =
      rw ((h.holds (xs ++ rest)).0 0 (omega arith)) refl
  read_part-aligned image read buf ofs xs (some a) rest e reads =
      let at : ℕ = pad_size ofs 8 in
      let p : ℕ = buf + at in
      let pad : List ℕ = zeros (at - ofs) in
      let part : List ℕ = image p a rest in
      let before : List ℕ = put p (xs ++ pad) in
      let (lt, done) = reads a refl in
      let parts : put p (xs ++ (pad ++ part)) ≡ before ++ part =
        ap (λ (body : List ℕ). put p body) (sym (append_assoc xs pad part))
        ∙ h.front p (xs ++ pad) part in
      let back : p - buf ≡ length before =
        omega (arith, h.size p (xs ++ pad), pad_front ofs xs e) in
      rw ((h.holds (xs ++ (pad ++ part))).0 p lt) (
        rw (eq-zero p (omega (arith, pad_front ofs xs e)))
          (rw back (rw parts (ap some (ap (read p) (drop-append before part) ∙ done)))))

name_bytes_lem :
    (description : Option (List ℕ)) (rest : List ℕ)
    → description_bytes description ++ rest ≡ name_bytes description rest
name_bytes_lem none rest = refl
name_bytes_lem (some text) rest = refl

header_stage :
    (stage d l s : ℕ) (rest : List ℕ) → load 0 4 (header stage d l s rest) ≡ bytes_of 4 stage
unfolding bytes_of
header_stage stage d l s rest = refl

description_below :
    (base : ℕ) (description : Option (List ℕ))
    → base + add_description (description_size description) 32 < 2 ^ 64
    → name_pointer base description 32 < 2 ^ 64
unfolding add_description description_size
description_below base none lt = omega arith
description_below base (some text) lt = omega (arith, lt)

-- The block of a failure, at its address, is read as the failure.
module _ (buf : ℕ) (f : Failure) (fits : buf + failure_storage_size f < 2 ^ 64)
    (is_failure : IsFailure f) where
  pub read_failure-failure_at : read_failure buf (failure_at buf f) ≡ f
  unfolding read_failure failure_at failure_image
  read_failure-failure_at =
      let (stage_lt, is_name, is_location, are_frames) = is_failure in
      let lb : ℕ = buf + location_at f in
      let sb : ℕ = buf + stacktrace_at f in
      let d : ℕ = name_pointer buf f.description 32 in
      let l : ℕ = part_pointer buf f.location (location_at f) in
      let s : ℕ = part_pointer buf f.stacktrace (stacktrace_at f) in
      let tail : List ℕ = stacktrace_part (stacktrace_at f - located f) sb f.stacktrace [] in
      let body : List ℕ = location_part (location_at f - described f) lb f.location tail in
      let rest : List ℕ = description_bytes f.description ++ body in
      let block : List ℕ = header f.stage d l s rest in
      let in_header : IsHeader 8 (λ p rest. header f.stage p l s rest) =
        description-IsHeader f.stage l s in
      let points : pointer_at 8 block ≡ d =
        (in_header.holds rest).0 d
          (description_below buf f.description (described_below buf f fits)) in
      let named : block ≡ header f.stage d l s [] ++ name_bytes f.description body =
        in_header.front d [] rest
        ∙ ap (λ (part : List ℕ). header f.stage d l s [] ++ part)
            (name_bytes_lem f.description body) in
      failure-ext f (value_of (load 0 4 block)) (read_text buf (pointer_at 8 block) block)
        (read_part buf (pointer_at 16 block) read_location block)
        (read_part buf (pointer_at 24 block) read_stacktrace block)
        (ap value_of (header_stage f.stage d l s rest) ∙ value_of-bytes_of_4 f.stage stage_lt)
        (ap₂ (λ (q : ℕ) (b : List ℕ). read_text buf q b) points named
          ∙ read_text-name buf 32 f.description (header f.stage d l s []) body is_name
              (in_header.size d []) (omega arith))
        (read_part-aligned (location-IsHeader f.stage d s) location_image read_location buf
          (described f) (description_bytes f.description) f.location tail
          (length-description_bytes f.description)
          (λ a same. (
            omega (arith, location_below buf f fits a same),
            read_location-location_image lb a tail (subst IsOptionalLocation same is_location)
                (location_below buf f fits a same),
          )))
        (ap
            (λ (b : List ℕ).
              let whole : List ℕ = header f.stage d l s b in
              read_part buf (pointer_at 24 whole) read_stacktrace whole)
            (front_lem buf f fits lb tail)
          ∙ read_part-aligned (stacktrace-IsHeader f.stage d l) stacktrace_image read_stacktrace buf
              (located f) (front buf f fits lb) f.stacktrace [] (length-front buf f fits lb)
              (λ a same. (
                omega (arith, stacktrace_below buf f fits a same),
                read_stacktrace-stacktrace_image sb a [] (subst AreOptionalFrames same are_frames)
                    (stacktrace_below buf f fits a same),
              )))
