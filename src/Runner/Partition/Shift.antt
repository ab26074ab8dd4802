-- ===== src/Runner/Partition/Shift.antt =====
-- What `move_forward` does to an array: the element at `read` joins those in front of `write`.
use ctest.Prelude.{
  ℕ, suc, ◌+◌, ◌-◌, ◌≡◌, refl, ap, inl, inr, List, [], ◌∷◌, ◌++◌, append_assoc, arith, ◌==◌,
  Bool-cases, ==-refl, length, set, drop, get_or, get_or-append, take-append, length-append,
}
use ctest.Runner.Partition.{memmove, move_forward}

module _ {ℓ} {A : Type ℓ} where
  drop_past : (xs rest : List A) (x : A) → drop (suc (length xs)) (xs ++ x ∷ rest) ≡ rest
  drop_past [] rest x = refl
  drop_past (y ∷ xs) rest x = drop_past xs rest x

  shift :
      (done skipped rest : List A) (x : A)
      → let write = length done in
        set (memmove (done ++ (skipped ++ x ∷ rest)) (suc write) write (length skipped)) write x
        ≡ done ++ (x ∷ (skipped ++ rest))
  unfolding memmove
  shift [] [] rest x = refl
  shift [] (y ∷ skipped) rest x =
      ap (λ t. x ∷ (y ∷ t)) (rw (take-append skipped (x ∷ rest), drop_past skipped rest x))
  shift (d ∷ done) skipped rest x = ap (◌∷◌ d) (shift done skipped rest x)

  -- The element at `read` is behind those already in place and those skipped.
  pub get_or_at :
      (done skipped rest : List A) (x d : A) (read : ℕ)
      → read ≡ length done + length skipped
      → get_or (done ++ (skipped ++ x ∷ rest)) read d ≡ x
  get_or_at done skipped rest x d read e =
      rw (e, ← length-append done skipped, ← append_assoc done skipped (x ∷ rest))
        (get_or-append (done ++ skipped) rest x d)

  pub move_forward_at :
      (done skipped rest : List A) (x : A) (write read : ℕ)
      → write ≡ length done
      → read ≡ length done + length skipped
      → move_forward (done ++ (skipped ++ x ∷ rest)) write read x ≡ done ++ (x ∷ (skipped ++ rest))
  unfolding move_forward
  move_forward_at done [] rest x write read e f =
      let same : write ≡ read = omega arith in rw (same, ==-refl read)
  move_forward_at done (y ∷ skipped) rest x write read e f =
      let gap : read - write ≡ length (y ∷ skipped) = omega arith in
      elim (Bool-cases (write == read)) [
        | inl t ↦ absurd (ground arith)
        | inr t ↦ rw (t, gap, e) (shift done (y ∷ skipped) rest x)
      ]
