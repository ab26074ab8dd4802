-- ===== src/Prelude/Keep.antt =====
-- Laws of `keep_if`, the sublist that passes a Boolean test.
use Prim.Native.Nat.{◌+◌}
use mathlib.Core.Path.{◌≡◌, refl, ap, ◌∙◌}
use mathlib.Core.Bool.{Bool, true, false, not, ◌&&◌}
use mathlib.Core.Logic.{inl, inr}
use mathlib.Core.List.{List, [], ◌∷◌, ◌++◌}
use native.Mathlib.Omega.{arith}
use ctest.Prelude.Tests.{Bool-cases}
use ctest.Prelude.Lists.{length, keep_if}

module _ {ℓ} {A : Type ℓ} where
  pub keep_if-append :
      (p : A → Bool) (xs ys : List A) → keep_if p (xs ++ ys) ≡ keep_if p xs ++ keep_if p ys
  keep_if-append p [] ys = refl
  keep_if-append p (x ∷ xs) ys = elim (Bool-cases (p x)) [
    | inl e ↦ rw (e, keep_if-append p xs ys)
    | inr e ↦ rw (e, keep_if-append p xs ys)
  ]

  pub keep_if-keep_if :
      (p q : A → Bool) (xs : List A) → keep_if p (keep_if q xs) ≡ keep_if (λ x. q x && p x) xs
  keep_if-keep_if p q [] = refl
  keep_if-keep_if p q (x ∷ xs) = elim (Bool-cases (q x)) [
    | inl e ↦ elim (Bool-cases (p x)) [
      | inl d ↦ rw (e, d, keep_if-keep_if p q xs)
      | inr d ↦ rw (e, d, keep_if-keep_if p q xs)
    ]
    | inr e ↦ rw (e, keep_if-keep_if p q xs)
  ]

  pub keep_if-congr :
      (p q : A → Bool) (xs : List A) → ((x : A) → p x ≡ q x) → keep_if p xs ≡ keep_if q xs
  keep_if-congr p q [] h = refl
  keep_if-congr p q (x ∷ xs) h = rw (h x, keep_if-congr p q xs h)

  pub keep_if-none : (p : A → Bool) (xs : List A) → ((x : A) → p x ≡ false) → keep_if p xs ≡ []
  keep_if-none p [] h = refl
  keep_if-none p (x ∷ xs) h = rw (h x, keep_if-none p xs h)

  -- Two selections of which the second test implies the first, contradicts it, or commutes with it.
  pub keep_if_implied :
      (p q : A → Bool) (xs : List A)
      → ((x : A) → q x ≡ true → p x ≡ true)
      → keep_if p (keep_if q xs) ≡ keep_if q xs
  keep_if_implied p q xs h =
      keep_if-keep_if p q xs ∙ keep_if-congr (λ x. q x && p x) q xs (λ x. both (q x) (p x) (h x))
    where
      both : (a b : Bool) → (a ≡ true → b ≡ true) → (a && b) ≡ a
      both true b i = i refl
      both false b i = refl

  pub keep_if_excluded :
      (p q : A → Bool) (xs : List A)
      → ((x : A) → q x ≡ true → p x ≡ false)
      → keep_if p (keep_if q xs) ≡ []
  keep_if_excluded p q xs h =
      keep_if-keep_if p q xs ∙ keep_if-none (λ x. q x && p x) xs (λ x. neither (q x) (p x) (h x))
    where
      neither : (a b : Bool) → (a ≡ true → b ≡ false) → (a && b) ≡ false
      neither true b i = i refl
      neither false b i = refl

  pub keep_if_comm :
      (p q : A → Bool) (xs : List A) → keep_if p (keep_if q xs) ≡ keep_if q (keep_if p xs)
  keep_if_comm p q xs =
      rw (keep_if-keep_if p q xs, keep_if-keep_if q p xs)
        (keep_if-congr (λ x. q x && p x) (λ x. p x && q x) xs (λ x. swap (q x) (p x)))
    where
      swap : (a b : Bool) → (a && b) ≡ (b && a)
      swap true true = refl
      swap true false = refl
      swap false true = refl
      swap false false = refl

  -- A test and its negation share the elements out.
  pub length-keep_if-not :
      (p : A → Bool) (xs : List A)
      → length (keep_if p xs) + length (keep_if (λ x. not (p x)) xs) ≡ length xs
  length-keep_if-not p [] = omega arith
  length-keep_if-not p (x ∷ xs) = elim (Bool-cases (p x)) [
    | inl e ↦ rw e (omega (arith, length-keep_if-not p xs))
    | inr e ↦ rw e (omega (arith, length-keep_if-not p xs))
  ]

  pub keep_if-not_none :
      (p : A → Bool) (xs : List A) → keep_if p xs ≡ [] → keep_if (λ x. not (p x)) xs ≡ xs
  keep_if-not_none p [] h = refl
  keep_if-not_none p (x ∷ xs) h = elim (Bool-cases (p x)) [
    | inl e ↦ absurd (cc (rw e at h))
    | inr e ↦ rw e (ap (◌∷◌ x) (keep_if-not_none p xs (rw e at h)))
  ]

  pub keep_if-head :
      (p : A → Bool) (xs : List A) (y : A) (ys : List A) → keep_if p xs ≡ y ∷ ys → p y ≡ true
  keep_if-head p [] y ys h = cc
  keep_if-head p (x ∷ xs) y ys h = elim (Bool-cases (p x)) [
    | inl e ↦ let same : x ≡ y = cc (rw e at h) in rw (← same) e
    | inr e ↦ keep_if-head p xs y ys (rw e at h)
  ]
