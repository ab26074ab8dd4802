-- ===== src/Runner/Grouped.antt =====
-- Two views of a list with keys: equal keys side by side, and the keys in the order of their first
-- occurrence.
use ctest.Prelude.{
  ℕ, ◌≡◌, refl, ap₂, ap, ◌∙◌, sym, inl, inr, Bool, true, not, List, [], ◌∷◌, ◌++◌, arith, ◌==◌,
  Bool-cases, ==_iff, ==-refl, keep_if, keep_if_implied, keep_if-append, keep_if_comm, append-nil,
}
use ctest.Runner.Group.{
  has, lacks, front, group_by, has-has, has-lacks, lacks-has, lacks-lacks, has-front,
  lacks-front_eq,
}

module _ {ℓ} {A : Type ℓ} (key : A → ℕ) where
  -- Whatever shares the key of an element and stands behind it stands directly behind it.
  abbrev pub IsGrouped : List A → Type ℓ
  IsGrouped [] = Unit
  IsGrouped (x ∷ xs) = (front key (key x) xs ≡ xs) × IsGrouped xs

  -- The keys in the order of their first occurrence.
  abbrev pub first_keys : List A → List ℕ
  first_keys [] = []
  first_keys (x ∷ xs) = key x ∷ keep_if (λ j. not (j == key x)) (first_keys xs)

module _ {ℓ} {A : Type ℓ} (key : A → ℕ) where
  pub keep_if-IsGrouped :
      (p : A → Bool) (xs : List A) → IsGrouped key xs → IsGrouped key (keep_if p xs)
  keep_if-IsGrouped p [] h = tt
  keep_if-IsGrouped p (x ∷ xs) h = elim (Bool-cases (p x)) [
    | inl e ↦ rw e (moved ∙ ap (keep_if p) h.0, keep_if-IsGrouped p xs h.1)
    | inr e ↦ rw e (keep_if-IsGrouped p xs h.1)
  ]
    where
      moved : front key (key x) (keep_if p xs) ≡ keep_if p (front key (key x) xs)
      moved =
          rw (keep_if-append p)
            (ap₂ ◌++◌ (keep_if_comm (has key (key x)) p xs) (keep_if_comm (lacks key (key x)) p xs))

  front-front : (k : ℕ) (g : List A) → front key k (front key k g) ≡ front key k g
  front-front k g = ap₂ ◌++◌ (has-front key k k g) (lacks-front_eq key k k g (ground arith))

  lead :
      (j k : ℕ) (xs ys : List A)
      → (j == k) ≡ true
      → let run = keep_if (has key k) xs ++ keep_if (lacks key k) ys in front key j run ≡ run
  lead j k xs ys e = rw (
    (==_iff j k).0 e,
    keep_if-append (has key k),
    keep_if-append (lacks key k),
    has-has,
    has-lacks,
    lacks-has,
    lacks-lacks key k ys,
    append-nil (keep_if (has key k) xs),
  )

  -- Elements of one key in front of a grouped list without that key.
  run-IsGrouped :
      (k : ℕ) (xs ys : List A)
      → IsGrouped key (keep_if (lacks key k) ys)
      → IsGrouped key (keep_if (has key k) xs ++ keep_if (lacks key k) ys)
  run-IsGrouped k [] ys h = h
  run-IsGrouped k (x ∷ xs) ys h = elim (Bool-cases (key x == k)) [
    | inl e ↦ rw e (lead (key x) k xs ys e, run-IsGrouped k xs ys h)
    | inr e ↦ rw e (run-IsGrouped k xs ys h)
  ]

  pub group_by-IsGrouped : (xs : List A) → IsGrouped key (group_by key xs)
  unfolding group_by
  group_by-IsGrouped [] = tt
  group_by-IsGrouped (x ∷ xs) =
      let rest = group_by key xs in
      (
        front-front (key x) rest,
        run-IsGrouped (key x) rest rest
            (keep_if-IsGrouped (lacks key (key x)) rest (group_by-IsGrouped xs)),
      )

  pub first_keys-lacks :
      (k : ℕ) (xs : List A)
      → first_keys key (keep_if (lacks key k) xs) ≡ keep_if (λ j. not (j == k)) (first_keys key xs)
  first_keys-lacks k [] = refl
  first_keys-lacks k (x ∷ xs) = elim (Bool-cases (key x == k)) [
    | inl e ↦ rw e (first_keys-lacks k xs ∙ again (key x) (first_keys key xs) e)
    | inr e ↦
        rw e (ap (◌∷◌ (key x)) (rw (first_keys-lacks k xs) (keep_if_comm _ _ (first_keys key xs))))
  ]
    where
      again :
          (i : ℕ) (ks : List ℕ)
          → (i == k) ≡ true
          → keep_if (λ j. not (j == k)) ks
            ≡ keep_if (λ j. not (j == k)) (keep_if (λ j. not (j == i)) ks)
      again i ks e = rw ((==_iff i k).0 e) (sym (keep_if_implied _ _ ks (λ x h. h)))

  pub first_keys-group_by : (xs : List A) → first_keys key (group_by key xs) ≡ first_keys key xs
  unfolding group_by
  first_keys-group_by [] = refl
  first_keys-group_by (x ∷ xs) =
      let rest = group_by key xs in
      let k = key x in
      ap (◌∷◌ k) (
        sym (first_keys-lacks k (front key k rest))
        ∙ ap (first_keys key) (lacks-front_eq key k k rest (==-refl k))
        ∙ first_keys-lacks k rest
        ∙ ap (keep_if (λ j. not (j == k))) (first_keys-group_by xs))
