-- ===== src/FailureStorage/Parts.antt =====
-- What the format functions of src/exec/location.c and stacktrace.c write: a block of 0s becomes the
-- image of a location or of a stack trace.
use ctest.Prelude.{
  ℕ, ◌+◌, ◌^◌, ◌≤◌, ◌<◌, ◌≡◌, refl, ap, ap₂, ◌∙◌, sym, List, [], ◌∷◌, ◌++◌, Option, none, some,
  length, map, append_assoc, length-replicate, arith,
}
use ctest.ExecEvents.{bytes_of}
use ctest.Memory.{zeros, text_bytes, store}
use ctest.Memory.Apart.{store-append, store-over, zeros-add, length-text_bytes}
use ctest.FailureStorage.{
  Location, pointer, int, pad_size, string_size, add_filename, location_storage_size, Write, wrote,
  apply_writes, and_then, nested, guarded, to_int, int_return, format_filename,
  location_storage_format,
}
use ctest.FailureStorage.Layout.{le-leb, to_int-small}
use ctest.FailureStorage.Filled.{le-add_filename}
use ctest.FailureStorage.Image.{name_pointer, name_bytes, location_head, location_image, pad_size_1}

-- The format function returns `rc`, and its writes make `after` of `block`.
abbrev pub Makes : Option ℕ × List Write → List ℕ → ℕ → List ℕ → Type 0
Makes (result, writes) block rc after = (result ≡ some rc) × (apply_writes writes block ≡ after)

pub Makes-from :
    (part : Option ℕ × List Write) (block block' after : List ℕ) (rc : ℕ)
    → block ≡ block'
    → Makes part block' rc after
    → Makes part block rc after
Makes-from (result, writes) block block' after rc e (done, made) =
    (done, ap (λ (start : List ℕ). apply_writes writes start) e ∙ made)

apply_writes-append :
    (a b : List Write) (block : List ℕ)
    → apply_writes (a ++ b) block ≡ apply_writes b (apply_writes a block)
unfolding apply_writes
apply_writes-append [] b block = refl
apply_writes-append (w ∷ a) b block = apply_writes-append a b (store w.ofs w.bytes block)

pub and_then-Makes :
    (part : Option ℕ × List Write) (next : ℕ → Option ℕ × List Write) (block between after : List ℕ)
    (ofs rc : ℕ)
    → Makes part block ofs between
    → Makes (next ofs) between rc after
    → Makes (and_then part next) block rc after
unfolding and_then
and_then-Makes (none, writes) next block between after ofs rc (failed, made) (done, made') =
    absurd (cc failed)
and_then-Makes (some o, writes) next block between after ofs rc (same, made) (done, made') =
    let e : o ≡ ofs = cc same in
    rw e (
      done,
      apply_writes-append writes (next ofs).1 block ∙ ap (apply_writes (next ofs).1) made ∙ made',
    )

pub guarded-Makes :
    (len ofs : ℕ) (writes : List Write) (block after : List ℕ)
    → ofs ≤ len
    → apply_writes writes block ≡ after
    → Makes (guarded len ofs writes) block ofs after
unfolding guarded
guarded-Makes len ofs writes block after le made = rw (le-leb ofs len le) (refl, made)

apply_writes-behind :
    (front : List ℕ) (writes : List Write) (block : List ℕ)
    → apply_writes (map (λ w. wrote (length front + w.ofs) w.bytes) writes) (front ++ block)
      ≡ front ++ apply_writes writes block
unfolding apply_writes
apply_writes-behind front [] block = refl
apply_writes-behind front (w ∷ writes) block =
    ap (apply_writes (map (λ w. wrote (length front + w.ofs) w.bytes) writes))
      (store-append front block w.bytes w.ofs)
    ∙ apply_writes-behind front writes (store w.ofs w.bytes block)

-- No value below 2^31 is lost.
pub int_return-Makes :
    (part : Option ℕ × List Write) (block after : List ℕ) (rc : ℕ)
    → rc < 2 ^ 31
    → Makes part block rc after
    → Makes (int_return part) block rc after
unfolding int_return
int_return-Makes (none, writes) block after rc small (failed, made) = absurd (cc failed)
int_return-Makes (some o, writes) block after rc small (same, made) =
    let e : o ≡ rc = cc same in (ap to_int e ∙ to_int-small rc small, made)

-- A part that is formatted behind `front`.
pub nested-Makes :
    (front : List ℕ) (part : Option ℕ × List Write) (block after : List ℕ) (rc : ℕ)
    → Makes part block rc after
    → Makes (nested (length front) part) (front ++ block) (length front + rc) (front ++ after)
unfolding nested
nested-Makes front (none, writes) block after rc (failed, made) = absurd (cc failed)
nested-Makes front (some o, writes) block after rc (same, made) =
    let e : o ≡ rc = cc same in
    (
      ap (λ (k : ℕ). some (length front + k)) e,
      apply_writes-behind front writes block ∙ ap (λ part. front ++ part) made,
    )

-- The room of a file name.
abbrev pub name_size : Option (List ℕ) → ℕ
name_size none = 0
name_size (some name) = string_size name

pub add_filename_lem :
    (name : Option (List ℕ)) (ofs : ℕ) → add_filename name ofs ≡ ofs + name_size name
unfolding add_filename
add_filename_lem none ofs = omega arith
add_filename_lem (some name) ofs = omega (arith, pad_size_1 ofs)

-- A pointer at `field`, and `ofs` bytes in front of what follows.
pub record IsFront (field ofs : ℕ) (put : ℕ → List ℕ → List ℕ) : Type 0 where
  pub stores : (p q : ℕ) (rest : List ℕ) → store field (pointer q) (put p rest) ≡ put q rest
  pub before : (p : ℕ) (xs ys : List ℕ) → put p (xs ++ ys) ≡ put p xs ++ ys
  pub size : (p : ℕ) → length (put p []) ≡ ofs

-- A store over the first bytes of what follows.
IsFront-store :
    {field ofs : ℕ} {put : ℕ → List ℕ → List ℕ}
    → IsFront field ofs put
    → (p : ℕ) (bytes room rest : List ℕ) → length bytes ≡ length room
    → store ofs bytes (put p (room ++ rest)) ≡ put p (bytes ++ rest)
IsFront-store {field} {ofs} {put} h p bytes room rest e =
    let at : length (put p []) + 0 ≡ ofs = omega (arith, h.size p) in
    ap₂ (λ (k : ℕ) (block : List ℕ). store k bytes block) (sym at) (h.before p [] (room ++ rest))
    ∙ store-append (put p []) (room ++ rest) bytes 0
    ∙ ap (λ tail. put p [] ++ tail) (store-over bytes room rest e)
    ∙ sym (h.before p [] (bytes ++ rest))

pub format_filename-Makes :
    (buf len field ofs : ℕ) (name : Option (List ℕ)) (put : ℕ → List ℕ → List ℕ) (rest : List ℕ)
    → IsFront field ofs put
    → add_filename name ofs ≤ len
    → Makes
        (format_filename buf len field name ofs)
        (put 0 (zeros (name_size name) ++ rest))
        (add_filename name ofs)
        (put (name_pointer buf name ofs) (name_bytes name rest))
unfolding format_filename add_filename apply_writes
format_filename-Makes buf len field ofs none put rest h le = (refl, h.stores 0 0 rest)
format_filename-Makes buf len field ofs (some name) put rest h le =
    let room : List ℕ = zeros (string_size name) in
    let p : ℕ = buf + pad_size ofs 1 in
    guarded-Makes len (pad_size ofs 1 + string_size name)
      (wrote field (pointer p) ∷ wrote (pad_size ofs 1) (text_bytes name) ∷ [])
      (put 0 (room ++ rest)) (put p (text_bytes name ++ rest)) le
      (ap (store (pad_size ofs 1) (text_bytes name)) (h.stores 0 p (room ++ rest))
        ∙ ap (λ k. store k (text_bytes name) (put p (room ++ rest))) (pad_size_1 ofs)
        ∙ IsFront-store h p (text_bytes name) room rest
            (length-text_bytes name ∙ sym (length-replicate (string_size name) 0)))

-- Zeros for one part and for what follows.
pub zeros-split :
    (total m n : ℕ) (rest : List ℕ)
    → total ≡ m + n
    → zeros total ++ rest ≡ zeros m ++ (zeros n ++ rest)
zeros-split total m n rest e =
    ap (λ (k : ℕ). zeros k ++ rest) e
    ∙ ap (λ (l : List ℕ). l ++ rest) (zeros-add m n)
    ∙ append_assoc (zeros m) (zeros n) rest

location_head-IsFront : IsFront 0 16 (λ p rest. location_head p 0 rest)
unfolding bytes_of
location_head-IsFront = record {
  stores = λ p q rest. refl;
  before = λ p xs ys. refl;
  size = λ p. refl;
}

location_head-zeros : (rest : List ℕ) → zeros 16 ++ rest ≡ location_head 0 0 rest
unfolding bytes_of
location_head-zeros rest = refl

location_head-line :
    (p line : ℕ) (rest : List ℕ)
    → store 8 (int line) (location_head p 0 rest) ≡ location_head p line rest
unfolding bytes_of
location_head-line p line rest = refl

-- A location in a block with room for it.
pub location_storage_format-Makes :
    (buf len : ℕ) (l : Location) (rest : List ℕ)
    → location_storage_size l ≤ len
    → len < 2 ^ 31
    → Makes
        (location_storage_format buf len l)
        (zeros (location_storage_size l) ++ rest)
        (location_storage_size l)
        (location_image buf l rest)
unfolding location_storage_format location_storage_size apply_writes
location_storage_format-Makes buf len l rest le small =
    let size : ℕ = add_filename l.filename 16 in
    let room : List ℕ = zeros (name_size l.filename) ++ rest in
    let p : ℕ = name_pointer buf l.filename 16 in
    let named : List ℕ = name_bytes l.filename rest in
    let start : zeros size ++ rest ≡ location_head 0 0 room =
      zeros-split size 16 (name_size l.filename) rest (add_filename_lem l.filename 16)
      ∙ location_head-zeros room in
    int_return-Makes
      (and_then (guarded len 16 []) (λ ofs.
        and_then (format_filename buf len 0 l.filename ofs)
          (λ ofs. (some ofs, wrote 8 (int l.line) ∷ []))))
      (zeros size ++ rest) (location_head p l.line named) size (omega (arith, le, small))
      (and_then-Makes (guarded len 16 [])
        (λ ofs.
          and_then (format_filename buf len 0 l.filename ofs)
            (λ ofs. (some ofs, wrote 8 (int l.line) ∷ [])))
        (zeros size ++ rest) (location_head 0 0 room) (location_head p l.line named) 16 size
        (guarded-Makes len 16 [] (zeros size ++ rest) (location_head 0 0 room)
          (omega (arith, le, le-add_filename l.filename 16)) start)
        (and_then-Makes (format_filename buf len 0 l.filename 16)
          (λ ofs. (some ofs, wrote 8 (int l.line) ∷ [])) (location_head 0 0 room)
          (location_head p 0 named) (location_head p l.line named) size size
          (format_filename-Makes buf len 0 16 l.filename (λ p rest. location_head p 0 rest) rest
            location_head-IsFront le)
          (refl, location_head-line p l.line named)))
