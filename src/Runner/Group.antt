-- ===== src/Runner/Group.antt =====
-- What `runner_utils.h` promises of a partition: equal keys side by side, in the order of their
-- first occurrence, and the order within a key kept.
use ctest.Prelude.{
  length, length-append, length-keep_if-not, ℕ, ◌≡◌, refl, ap₂, ◌∙◌, inl, inr, Bool, true, false,
  not, List, [], ◌∷◌, ◌++◌, arith, ◌==◌, Bool-cases, ==_iff, ==-refl, keep_if, keep_if-append,
  keep_if_implied, keep_if_excluded, keep_if_comm, append-nil, append_assoc, keep_if-not_none,
}

module _ {ℓ} {A : Type ℓ} (key : A → ℕ) where
  abbrev pub has : ℕ → A → Bool
  has k x = key x == k

  abbrev pub lacks : ℕ → A → Bool
  lacks k x = not (key x == k)

  unfoldable pub group_by : List A → List A
  group_by [] = []
  group_by (x ∷ xs) =
      let rest = group_by xs in x ∷ (keep_if (has (key x)) rest ++ keep_if (lacks (key x)) rest)

module _ {ℓ} {A : Type ℓ} (key : A → ℕ) where
  -- A selection by one key sees only that key.
  pub has-has :
      (k : ℕ) (xs : List A) → keep_if (has key k) (keep_if (has key k) xs) ≡ keep_if (has key k) xs
  has-has k xs = keep_if_implied (has key k) (has key k) xs (λ x h. h)

  pub has-lacks : (k : ℕ) (xs : List A) → keep_if (has key k) (keep_if (lacks key k) xs) ≡ []
  has-lacks k xs = keep_if_excluded (has key k) (lacks key k) xs (λ x h. ground arith)

  pub lacks-has : (k : ℕ) (xs : List A) → keep_if (lacks key k) (keep_if (has key k) xs) ≡ []
  lacks-has k xs = keep_if_excluded (lacks key k) (has key k) xs (λ x h. ground arith)

  pub lacks-lacks :
      (k : ℕ) (xs : List A)
      → keep_if (lacks key k) (keep_if (lacks key k) xs) ≡ keep_if (lacks key k) xs
  lacks-lacks k xs = keep_if_implied (lacks key k) (lacks key k) xs (λ x h. h)

  pub has-lacks_ne :
      (k j : ℕ) (xs : List A)
      → (j == k) ≡ false
      → keep_if (has key k) (keep_if (lacks key j) xs) ≡ keep_if (has key k) xs
  has-lacks_ne k j xs h =
      keep_if_comm _ _ xs ∙ keep_if_implied (lacks key j) (has key k) xs (λ x p. ground arith)

  pub has-has_ne :
      (k j : ℕ) (xs : List A) → (j == k) ≡ false → keep_if (has key k) (keep_if (has key j) xs) ≡ []
  has-has_ne k j xs h = keep_if_excluded (has key k) (has key j) xs (λ x p. ground arith)

  pub lacks-has_ne :
      (k j : ℕ) (xs : List A)
      → (j == k) ≡ false
      → keep_if (lacks key k) (keep_if (has key j) xs) ≡ keep_if (has key j) xs
  lacks-has_ne k j xs h = keep_if_implied (lacks key k) (has key j) xs (λ x p. ground arith)

  -- Bringing one key to the front.
  abbrev pub front : ℕ → List A → List A
  front j g = keep_if (has key j) g ++ keep_if (lacks key j) g

  pub has-front : (k j : ℕ) (g : List A) → keep_if (has key k) (front j g) ≡ keep_if (has key k) g
  has-front k j g = elim (Bool-cases (j == k)) [
    | inl e ↦
        rw ((==_iff j k).0 e, keep_if-append (has key k), has-has, has-lacks)
          (append-nil (keep_if (has key k) g))
    | inr e ↦ rw (keep_if-append (has key k), has-has_ne k j g e, has-lacks_ne k j g e)
  ]

  pub lacks-front_eq :
      (k j : ℕ) (g : List A)
      → (j == k) ≡ true
      → keep_if (lacks key k) (front j g) ≡ keep_if (lacks key k) g
  lacks-front_eq k j g e =
      rw ((==_iff j k).0 e, keep_if-append (lacks key k), lacks-has, lacks-lacks k g)

  lacks-front_ne :
      (k j : ℕ) (g : List A)
      → (j == k) ≡ false
      → keep_if (lacks key k) (front j g) ≡ front j (keep_if (lacks key k) g)
  lacks-front_ne k j g e = rw (keep_if-append (lacks key k)) (
      ap₂ ◌++◌ (keep_if_comm (lacks key k) (has key j) g)
        (keep_if_comm (lacks key k) (lacks key j) g))

  -- Grouping keeps the order within a key.
  pub has-group_by :
      (k : ℕ) (xs : List A) → keep_if (has key k) (group_by key xs) ≡ keep_if (has key k) xs
  unfolding group_by
  has-group_by k [] = refl
  has-group_by k (x ∷ xs) = rw (has-front k (key x) (group_by key xs), has-group_by k xs)

  -- What grouping leaves when a key is taken out is the grouping of what is left.
  pub lacks-group_by :
      (k : ℕ) (xs : List A)
      → keep_if (lacks key k) (group_by key xs) ≡ group_by key (keep_if (lacks key k) xs)
  unfolding group_by
  lacks-group_by k [] = refl
  lacks-group_by k (x ∷ xs) = elim (Bool-cases (key x == k)) [
    | inl e ↦ rw (e, lacks-front_eq k (key x) (group_by key xs) e, lacks-group_by k xs)
    | inr e ↦ rw (e, lacks-front_ne k (key x) (group_by key xs) e, lacks-group_by k xs)
  ]

  -- The first key's elements come first, in order, and the others are grouped behind them.
  pub group_by-cons :
      (x : A) (xs : List A)
      → group_by key (x ∷ xs)
        ≡ x ∷ (keep_if (has key (key x)) xs ++ group_by key (keep_if (lacks key (key x)) xs))
  unfolding group_by
  group_by-cons x xs = rw (has-group_by (key x) xs, lacks-group_by (key x) xs)

  pub group_by-nil : group_by key [] ≡ []
  unfolding group_by
  group_by-nil = refl

  -- The same with the first element among those of its key.
  pub group_by_head :
      (x : A) (xs : List A)
      → group_by key (x ∷ xs)
        ≡ keep_if (has key (key x)) (x ∷ xs) ++ group_by key (keep_if (lacks key (key x)) (x ∷ xs))
  group_by_head x xs = rw (group_by-cons x xs, ==-refl (key x))

  -- Lists without a common key are grouped one after the other.
  pub group_by-append :
      (p : A → Bool) (xs ys : List A)
      → ((x : A) → p x ≡ true → keep_if (has key (key x)) ys ≡ [])
      → group_by key (keep_if p xs ++ ys) ≡ group_by key (keep_if p xs) ++ group_by key ys
  unfolding group_by
  group_by-append p [] ys h = refl
  group_by-append p (x ∷ xs) ys h = elim (Bool-cases (p x)) [
    | inl e ↦
        let k = key x in
        let absent : keep_if (has key k) (group_by key ys) ≡ [] = has-group_by k ys ∙ h x e in
        rw (
          e,
          group_by-append p xs ys h,
          keep_if-append (has key k),
          keep_if-append (lacks key k),
          absent,
          keep_if-not_none (has key k) (group_by key ys) absent,
          append-nil (keep_if (has key k) (group_by key (keep_if p xs))),
          append_assoc (keep_if (has key k) (group_by key (keep_if p xs))),
        )
    | inr e ↦ rw e (group_by-append p xs ys h)
  ]

  pub length-group_by : (xs : List A) → length (group_by key xs) ≡ length xs
  unfolding group_by
  length-group_by [] = refl
  length-group_by (x ∷ xs) =
      let rest = group_by key xs in
      omega (
        arith,
        length-append (keep_if (has key (key x)) rest) (keep_if (lacks key (key x)) rest),
        length-keep_if-not (has key (key x)) rest,
        length-group_by xs,
      )
