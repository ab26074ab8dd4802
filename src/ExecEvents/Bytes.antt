-- ===== src/ExecEvents/Bytes.antt =====
-- The bytes of numbers and of headers in the messages of src/exec/exec_events.c, read back.
use ctest.Prelude.{
  ℕ, zero, suc, ◌/◌, ◌%◌, ◌^◌, ◌<◌, ◌≡◌, refl, ap, ap₂, ◌∙◌, sym, List, ◌++◌, length, take, drop,
  take-append, drop-append, arith,
}
use ctest.ExecEvents.{bytes_of, value_of}
use ctest.ExecEvents.Writer.{header_of}

pub length-bytes_of : (k n : ℕ) → length (bytes_of k n) ≡ k
unfolding bytes_of
length-bytes_of zero n = refl
length-bytes_of (suc k) n = ap suc (length-bytes_of k (n / 256))

-- A number below 2^32 is its four bytes.
pub value_of-bytes_of_4 : (n : ℕ) → n < 2 ^ 32 → value_of (bytes_of 4 n) ≡ n
unfolding bytes_of value_of
value_of-bytes_of_4 n p = omega (arith, p)

pub value_of-bytes_of_2 : (n : ℕ) → n < 2 ^ 16 → value_of (bytes_of 2 n) ≡ n
unfolding bytes_of value_of
value_of-bytes_of_2 n p = omega (arith, p)

pub length-header_of : (type n : ℕ) → length (header_of type n) ≡ 4
unfolding header_of bytes_of
length-header_of type n = refl

-- The two fields of a header.
pub header-type : (type n : ℕ) → type < 2 ^ 16 → value_of (take 2 (header_of type n)) ≡ type
unfolding header_of bytes_of
header-type type n p =
    ap value_of (take-append (bytes_of 2 type) (bytes_of 2 (n % 2 ^ 16)))
    ∙ value_of-bytes_of_2 type p

pub header-length : (type n : ℕ) → value_of (take 2 (drop 2 (header_of type n))) ≡ n % 2 ^ 16
unfolding header_of bytes_of value_of
header-length type n = omega arith

-- What follows a prefix of the same length on both sides.
pub append-cancel :
    (xs ys us vs : List ℕ) → length xs ≡ length us → xs ++ ys ≡ us ++ vs → (xs ≡ us) × (ys ≡ vs)
append-cancel xs ys us vs p e = (
  sym (take-append xs ys) ∙ ap₂ take p e ∙ take-append us vs,
  sym (drop-append xs ys) ∙ ap₂ drop p e ∙ drop-append us vs,
)
