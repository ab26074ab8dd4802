-- ===== src/Output/Build.antt =====
-- What output_reader_build of src/exec/output_reader.c gives, with and without memory.
use ctest.Prelude.{
  ℕ, zero, suc, ◌+◌, ◌-◌, ◌≤◌, ◌<◌, ◌≡◌, refl, ap, ◌∙◌, Bool, true, false, List, [], ◌∷◌, ◌++◌,
  Option, none, some, ltb, length, take, set, min, replicate, List-cases, length-take,
  length-append, length-replicate, Bool-cases, inl, inr, arith,
}
use ctest.Output.{Output, output_bytes, output_length, ctest_output_resize}
use ctest.Output.Reader.{
  OutputReader, Built, no_output, built, out_of_bounds, terminate, build_from, reset_built,
  output_reader_build,
}
use ctest.Output.Sized.{HasSize, IsSized, contents, take-append-le, take-take}

-- A write at `n` splits the list there.
take-set :
    (xs : List ℕ) (n v : ℕ) → n < length xs → take (n + 1) (set xs n v) ≡ take n xs ++ (v ∷ [])
take-set [] n v p = ground arith
take-set (x ∷ xs) zero v p = refl
take-set (x ∷ xs) (suc n) v p =
    let z : suc n + 1 ≡ suc (n + 1) = omega arith in
    rw (z) (ap (◌∷◌ x) (take-set xs n v (omega (arith, p))))

-- What may come of a reader that holds `bytes`, by whether the final resize gets its memory and
-- whether there is room without it.
abbrev pub Builds : Bool → Bool → List ℕ → Built → Type 0
Builds allocated room [] b = b ≡ no_output
Builds true room (x ∷ bytes) b =
    (o : Output) × (b ≡ built o)
    × (o.data_bytes ≡ (x ∷ bytes) ++ (0 ∷ []))
    × (o.length ≡ length (x ∷ bytes) + 1)
Builds false true (x ∷ bytes) b =
    (o : Output) × (b ≡ built o)
    × (take (length (x ∷ bytes) + 1) o.data_bytes ≡ (x ∷ bytes) ++ (0 ∷ []))
Builds false false (x ∷ bytes) b = b ≡ out_of_bounds

set-last : (xs : List ℕ) (n v : ℕ) → length xs ≡ n + 1 → set xs n v ≡ take n xs ++ (v ∷ [])
set-last [] n v p = ground arith
set-last (x ∷ []) zero v p = refl
set-last (x ∷ y ∷ xs) zero v p = ground arith
set-last (x ∷ xs) (suc n) v p = ap (◌∷◌ x) (set-last xs n v (omega (arith, p)))

-- The storage cut to `n + 1` bytes, with a 0 at `n`.
cut-set :
    (xs : List ℕ) (n m : ℕ)
    → length xs ≡ m
    → n ≤ m
    → set (take (n + 1) xs ++ replicate (n + 1 - m) 0) n 0 ≡ take n xs ++ (0 ∷ [])
cut-set xs n m p q =
    let kept : List ℕ = take (n + 1) xs in
    let zeros : List ℕ = replicate (n + 1 - m) 0 in
    let k : length kept ≡ min (n + 1) (length xs) = length-take (n + 1) xs in
    set-last (kept ++ zeros) n 0
      (omega (arith, p, q, k, length-append kept zeros, length-replicate {A = ℕ} (n + 1 - m) 0))
    ∙ ap (λ (l : List ℕ). l ++ (0 ∷ []))
        (take-append-le n kept zeros (omega (arith, p, q, k))
          ∙ take-take n (n + 1) xs (omega arith))

build_from-Builds :
    (allocated : Bool) (o : Option Output) (len : ℕ)
    → HasSize o len
    → Builds allocated
        (ltb len (output_length o))
        (take len (output_bytes o))
        (build_from allocated o len)
unfolding build_from terminate ctest_output_resize
build_from-Builds allocated none len p = let z : len ≡ 0 = p in rw (z) refl
build_from-Builds allocated (some o) zero p = refl
build_from-Builds true (some o) (suc len) p = elim (List-cases o.data_bytes) [
  | inl e ↦ ground arith
  | inr (x, xs, e) ↦
      let t : ltb (suc len) (suc len + 1) ≡ true = ground arith in
      let c : set (take (suc len + 1) o.data_bytes ++ replicate (suc len + 1 - o.length) 0)
            (suc len) 0
          ≡ take (suc len) o.data_bytes ++ (0 ∷ []) =
        cut-set o.data_bytes (suc len) o.length p.0 p.1 in
      rw (t, c, e)
        (
          record { length = suc len + 1; data_bytes = take (suc len) (x ∷ xs) ++ (0 ∷ []) },
          refl,
          refl,
          omega (arith, p, ap length e, length-take len xs),
        )
]
build_from-Builds false (some o) (suc len) p = elim (List-cases o.data_bytes) [
  | inl e ↦ ground arith
  | inr (x, xs, e) ↦ elim (Bool-cases (ltb (suc len) o.length)) [
    | inl t ↦
        let q : suc len < length (x ∷ xs) =
          (let lt : suc len < o.length = ground arith in omega (arith, p, lt, ap length e)) in
        let n : length (x ∷ take len xs) + 1 ≡ suc len + 1 = omega (arith, q, length-take len xs) in
        rw (t, e)
          (
            record { length = o.length; data_bytes = set (x ∷ xs) (suc len) 0 },
            refl,
            rw (n) (take-set (x ∷ xs) (suc len) 0 q),
          )
    | inr t ↦ rw (t, e) refl
  ]
]

reset_built-fst : (b : Built) (r : OutputReader) → (reset_built b r).0 ≡ b
unfolding reset_built
reset_built-fst no_output r = refl
reset_built-fst (built o) r = refl
reset_built-fst out_of_bounds r = refl

-- output_reader_build gives NULL where nothing was read; else the bytes read and a 0, and no more
-- of them if its resize succeeds. If it does not, the 0 is written past the end of a full storage.
pub output_reader_build-Builds :
    (allocated : Bool) (r : OutputReader)
    → IsSized r
    → Builds allocated
        (ltb r.length (output_length r.output))
        (contents r)
        (output_reader_build allocated r).0
unfolding output_reader_build
output_reader_build-Builds allocated r p =
    rw (reset_built-fst (build_from allocated r.output r.length) r)
      (build_from-Builds allocated r.output r.length p)
