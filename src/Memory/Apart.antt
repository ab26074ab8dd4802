-- ===== src/Memory/Apart.antt =====
-- Stores into a block that is made of parts.
use ctest.Prelude.{
  ℕ, zero, suc, ◌+◌, ◌^◌, ◌<◌, ◌≡◌, refl, ap, ◌∙◌, List, [], ◌∷◌, ◌++◌, length, arith,
}
use ctest.ExecEvents.{bytes_of, value_of}
use ctest.Memory.{zeros, text_bytes, store}

pub length-store : (ofs : ℕ) (bytes block : List ℕ) → length (store ofs bytes block) ≡ length block
length-store zero bytes [] = refl
length-store (suc ofs) bytes [] = refl
length-store zero [] (b ∷ block) = refl
length-store zero (x ∷ bytes) (b ∷ block) = ap suc (length-store zero bytes block)
length-store (suc ofs) bytes (b ∷ block) = ap suc (length-store ofs bytes block)

-- A store after the part `xs`.
pub store-append :
    (xs ys bytes : List ℕ) (ofs : ℕ)
    → store (length xs + ofs) bytes (xs ++ ys) ≡ xs ++ store ofs bytes ys
store-append [] ys bytes ofs =
    let e : length {A = ℕ} [] + ofs ≡ ofs = omega arith in ap (λ k. store k bytes ys) e
store-append (x ∷ xs) ys bytes ofs =
    let e : suc (length xs) + ofs ≡ suc (length xs + ofs) = omega arith in
    ap (λ k. store k bytes (x ∷ (xs ++ ys))) e ∙ ap (◌∷◌ x) (store-append xs ys bytes ofs)

-- A store over the whole part `xs`.
pub store-over :
    (bytes xs ys : List ℕ) → length bytes ≡ length xs → store 0 bytes (xs ++ ys) ≡ bytes ++ ys
store-over [] [] [] e = refl
store-over [] [] (y ∷ ys) e = refl
store-over [] (x ∷ xs) ys e = absurd (omega (arith, e))
store-over (b ∷ bytes) [] ys e = absurd (omega (arith, e))
store-over (b ∷ bytes) (x ∷ xs) ys e = ap (◌∷◌ b) (store-over bytes xs ys (omega (arith, e)))

pub zeros-add : (m n : ℕ) → zeros (m + n) ≡ zeros m ++ zeros n
zeros-add zero n = let e : 0 + n ≡ n = omega arith in ap zeros e
zeros-add (suc m) n =
    let e : suc m + n ≡ suc (m + n) = omega arith in ap zeros e ∙ ap (◌∷◌ 0) (zeros-add m n)

pub length-text_bytes : (s : List ℕ) → length (text_bytes s) ≡ suc (length s)
length-text_bytes [] = refl
length-text_bytes (c ∷ s) = ap suc (length-text_bytes s)

-- A number of eight bytes.
pub value_of-bytes_of_8 : (n : ℕ) → n < 2 ^ 64 → value_of (bytes_of 8 n) ≡ n
unfolding bytes_of value_of
value_of-bytes_of_8 n p = omega (arith, p)

pub store-nil : (block : List ℕ) → store 0 [] block ≡ block
store-nil [] = refl
store-nil (b ∷ block) = refl
