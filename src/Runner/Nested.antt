-- ===== src/Runner/Nested.antt =====
-- Two keys, of which the finer decides the coarser: grouping by the finer one respects the coarser.
use ctest.Prelude.{
  ℕ, ◌≡◌, refl, ap₂, ap, ◌∙◌, sym, inl, inr, Bool, true, false, List, [], ◌∷◌, ◌++◌, ◌==◌, not,
  Bool-cases, ==_iff, ==-refl, keep_if, keep_if_implied, keep_if_excluded, keep_if-append,
  keep_if_comm, append_assoc,
}
use ctest.Runner.Group.{has, lacks, front, group_by, group_by-append}
use ctest.Runner.Grouped.{IsGrouped, first_keys, first_keys-lacks, keep_if-IsGrouped}

module _ {ℓ} {A : Type ℓ} (key : A → ℕ) where
  -- A selection that goes by the key commutes with grouping.
  pub keep_if-group_by :
      (p : A → Bool) (xs : List A)
      → ((x y : A) → key x ≡ key y → p x ≡ p y)
      → keep_if p (group_by key xs) ≡ group_by key (keep_if p xs)
  unfolding group_by
  keep_if-group_by p [] r = refl
  keep_if-group_by p (x ∷ xs) r = elim (Bool-cases (p x)) [
    | inl e ↦ rw (
      e,
      keep_if-append p (keep_if (has key k) rest),
      keep_if_comm p (has key k) rest,
      keep_if_comm p (lacks key k) rest,
      keep_if-group_by p xs r,
    )
    | inr e ↦
        rw
          (
            e,
            keep_if-append p (keep_if (has key k) rest),
            keep_if_excluded p (has key k) rest (λ z h. r z x ((==_iff (key z) k).0 h) ∙ e),
            keep_if_comm p (lacks key k) rest,
            keep_if_implied (lacks key k) p rest (other e),
          )
          (keep_if-group_by p xs r)
  ]
    where
      k : ℕ
      k = key x

      rest : List A
      rest = group_by key xs

      other : p x ≡ false → (z : A) → p z ≡ true → lacks key k z ≡ true
      other e z h = elim (Bool-cases (key z == k)) [
        | inl same ↦ absurd (cc (r z x ((==_iff (key z) k).0 same)))
        | inr differs ↦ rw differs
      ]

module _ {ℓ} {A : Type ℓ} (fine coarse : A → ℕ)
    (decides : (x y : A) → fine x ≡ fine y → coarse x ≡ coarse y) where
  -- What has the finer key of an element has the coarser key of it.
  same_coarse : (x y : A) → has fine (fine x) y ≡ true → has coarse (coarse x) y ≡ true
  same_coarse x y h = rw (decides y x ((==_iff (fine y) (fine x)).0 h)) (==-refl (coarse x))

  other_fine : (x y : A) → lacks coarse (coarse x) y ≡ true → has fine (fine x) y ≡ false
  other_fine x y h = elim (Bool-cases (fine y == fine x)) [
    | inl e ↦
        let same : has coarse (coarse x) y ≡ true = same_coarse x y e in absurd (cc (rw same at h))
    | inr e ↦ e
  ]

  module _ (x : A) (xs : List A) where
    keep_fine :
        keep_if (has coarse (coarse x)) (keep_if (has fine (fine x)) xs)
        ≡ keep_if (has fine (fine x)) xs
    keep_fine = keep_if_implied (has coarse (coarse x)) (has fine (fine x)) xs (same_coarse x)

    drop_fine : keep_if (lacks coarse (coarse x)) (keep_if (has fine (fine x)) xs) ≡ []
    drop_fine =
        keep_if_excluded (lacks coarse (coarse x)) (has fine (fine x)) xs
          (λ y h. ap not (same_coarse x y h))

    drop_others :
        keep_if (lacks coarse (coarse x)) (keep_if (lacks fine (fine x)) xs)
        ≡ keep_if (lacks coarse (coarse x)) xs
    drop_others =
        keep_if_comm (lacks coarse (coarse x)) (lacks fine (fine x)) xs
        ∙ keep_if_implied (lacks fine (fine x)) (lacks coarse (coarse x)) xs
            (λ y h. ap not (other_fine x y h))

    drop_front :
        keep_if (lacks coarse (coarse x)) (front fine (fine x) xs)
        ≡ keep_if (lacks coarse (coarse x)) xs
    drop_front =
        keep_if-append (lacks coarse (coarse x)) (keep_if (has fine (fine x)) xs) _
        ∙ ap₂ ◌++◌ drop_fine drop_others

  -- If the coarser key's elements lead, they still do when those of the finer key come first.
  front_leads :
      (x : A) (xs ys : List A)
      → front coarse (coarse x) ys ≡ ys
      → let run = keep_if (has fine (fine x)) xs ++ keep_if (lacks fine (fine x)) ys in
        front coarse (coarse x) run ≡ run
  front_leads x xs ys h =
      let k = coarse x in
      let j = fine x in
      let run = keep_if (has fine j) xs in
      let kept : keep_if (has coarse k) (keep_if (lacks fine j) ys) ++ keep_if (lacks coarse k) ys
          ≡ keep_if (lacks fine j) ys =
        ap₂ ◌++◌ (keep_if_comm (has coarse k) (lacks fine j) ys)
          (sym (drop_others x ys) ∙ keep_if_comm (lacks coarse k) (lacks fine j) ys)
        ∙ sym (
            keep_if-append (lacks fine j) (keep_if (has coarse k) ys) (keep_if (lacks coarse k) ys))
        ∙ ap (keep_if (lacks fine j)) h in
      rw
        (
          keep_if-append (has coarse k) run,
          keep_fine x xs,
          keep_if-append (lacks coarse k) run,
          drop_fine x xs,
          drop_others x ys,
          append_assoc run,
        )
        (ap (◌++◌ run) kept)

  front-IsGrouped :
      (x : A) (xs ys : List A)
      → front coarse (coarse x) ys ≡ ys
      → IsGrouped coarse ys
      → IsGrouped coarse (keep_if (has fine (fine x)) xs ++ keep_if (lacks fine (fine x)) ys)
  front-IsGrouped x [] ys h g = keep_if-IsGrouped coarse (lacks fine (fine x)) ys g
  front-IsGrouped x (z ∷ xs) ys h g = elim (Bool-cases (fine z == fine x)) [
    | inl e ↦
        let same : coarse z ≡ coarse x = decides z x ((==_iff (fine z) (fine x)).0 e) in
        rw e (rw same (front_leads x xs ys h), front-IsGrouped x xs ys h g)
    | inr e ↦ rw e (front-IsGrouped x xs ys h g)
  ]

  apart :
      (x : A) (xs : List A) (z : A)
      → has coarse (coarse x) z ≡ true
      → keep_if (has fine (fine z)) (keep_if (lacks coarse (coarse x)) xs) ≡ []
  apart x xs z p =
      rw (sym ((==_iff (coarse z) (coarse x)).0 p))
        (keep_if_excluded (has fine (fine z)) (lacks coarse (coarse z)) xs (other_fine z))

  pub group_by-IsGrouped_coarse :
      (xs : List A) → IsGrouped coarse xs → IsGrouped coarse (group_by fine xs)
  unfolding group_by
  group_by-IsGrouped_coarse [] g = tt
  group_by-IsGrouped_coarse (x ∷ xs) g =
      let rest = group_by fine xs in
      let leads : front coarse (coarse x) rest ≡ rest =
        ap₂ ◌++◌
          (keep_if-group_by fine (has coarse (coarse x)) xs
            (λ y z e. ap (λ (m : ℕ). m == coarse x) (decides y z e)))
          (keep_if-group_by fine (lacks coarse (coarse x)) xs
            (λ y z e. ap (λ (m : ℕ). not (m == coarse x)) (decides y z e)))
        ∙ sym (
            group_by-append fine (has coarse (coarse x)) xs (keep_if (lacks coarse (coarse x)) xs)
              (apart x xs))
        ∙ ap (group_by fine) g.0 in
      (
        front_leads x rest rest leads,
        front-IsGrouped x rest rest leads (group_by-IsGrouped_coarse xs g.1),
      )

  pub first_keys-group_by_coarse :
      (xs : List A) → first_keys coarse (group_by fine xs) ≡ first_keys coarse xs
  unfolding group_by
  first_keys-group_by_coarse [] = refl
  first_keys-group_by_coarse (x ∷ xs) =
      let rest = group_by fine xs in
      let k = coarse x in
      ap (◌∷◌ k) (
        sym (first_keys-lacks coarse k (front fine (fine x) rest))
        ∙ ap (first_keys coarse) (drop_front x rest)
        ∙ first_keys-lacks coarse k rest
        ∙ ap (keep_if (λ j. not (j == k))) (first_keys-group_by_coarse xs))
