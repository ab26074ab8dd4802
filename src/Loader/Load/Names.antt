-- ===== src/Loader/Load/Names.antt =====
-- The name of a test case in src/exec/loader.c, as testcase_create__ puts it together.
use ctest.Prelude.{
  ℕ, ◌+◌, ◌≤◌, ◌≡◌, refl, sym, ap, ◌∙◌, subst, List, [], ◌∷◌, ◌++◌, length, take, drop,
  length-append, length-take, length-drop, take-append-drop, append_assoc, append-nil, arith,
}
use ctest.Memory.{text_bytes, store}
use ctest.Memory.Apart.{length-text_bytes, store-append, store-over}
use ctest.Loader.Load.{format_name}

-- A block of `size` bytes that begins with `done`.
abbrev Begins : List ℕ → ℕ → List ℕ → Type 0
Begins done size block =
    (rest : List ℕ) × (block ≡ done ++ rest) × (length done + length rest ≡ size)

Begins-store :
    (done bytes block : List ℕ) (size k : ℕ)
    → Begins done size block
    → k ≡ length done
    → length done + length bytes ≤ size
    → Begins (done ++ bytes) size (store k bytes block)
Begins-store done bytes block size k (room, b, e) at p =
    let n : ℕ = length bytes in
    let at_end : k ≡ length done + 0 = omega (arith, at) in
    let same : length bytes ≡ length (take n room) = omega (arith, p, e, length-take n room) in
    (
      drop n room,
      ap (λ i. store i bytes block) at_end
          ∙ ap (store (length done + 0) bytes) b
          ∙ store-append done room bytes 0
          ∙ ap (λ r. done ++ store 0 bytes r) (sym (take-append-drop n room))
          ∙ ap (λ r. done ++ r) (store-over bytes (take n room) (drop n room) same)
          ∙ sym (append_assoc done bytes (drop n room)),
      omega (arith, p, e, length-drop n room, length-append done bytes),
    )

-- A beginning of a beginning.
Begins-shorter :
    (done bytes block : List ℕ) (size : ℕ)
    → Begins (done ++ bytes) size block
    → Begins done size block
Begins-shorter done bytes block size (rest, b, e) = (
  bytes ++ rest,
  b ∙ append_assoc done bytes rest,
  omega (arith, e, length-append bytes rest, length-append done bytes),
)

Begins-whole :
    (done block : List ℕ) (size : ℕ) → Begins done size block → length done ≡ size → block ≡ done
Begins-whole done block size ([], b, e) w = b ∙ append-nil done
Begins-whole done block size (x ∷ rest, b, e) w = absurd (omega (arith, e, w))

-- A store of a text whose 0 is overwritten by what follows.
Begins-text :
    (done text bytes block : List ℕ) (size k : ℕ)
    → Begins done size block
    → bytes ≡ text_bytes text
    → k ≡ length done
    → length done + length text + 1 ≤ size
    → Begins (done ++ text) size (store k bytes block)
Begins-text done text bytes block size k b w at p =
    Begins-shorter (done ++ text) (0 ∷ []) (store k bytes block) size (
      subst (λ all. Begins all size (store k bytes block)) (sym (append_assoc done text (0 ∷ [])))
        (subst (λ l. Begins (done ++ text_bytes text) size (store k l block)) (sym w)
          (Begins-store done (text_bytes text) block size k b at
            (omega (arith, p, length-text_bytes text)))))

abbrev opened : List ℕ → List ℕ
opened name = name ++ 91 ∷ []

abbrev closed : List ℕ → List ℕ → List ℕ
closed name text = (opened name ++ text) ++ 93 ∷ []

-- name[text], with its 0.
abbrev pub bracketed : List ℕ → List ℕ → List ℕ
bracketed name text = closed name text ++ 0 ∷ []

length-opened : (name : List ℕ) → length (opened name) ≡ length name + 1
length-opened name = length-append name (91 ∷ [])

length-closed : (name text : List ℕ) → length (closed name text) ≡ length name + 1 + length text + 1
length-closed name text = omega (
  arith,
  length-opened name,
  length-append (opened name) text,
  length-append (opened name ++ text) (93 ∷ []),
)

pub format_name-bracketed :
    (name text : List ℕ) (write : ℕ → List ℕ) (block : List ℕ)
    → write (length text + 1 + 1) ≡ text_bytes text
    → length block ≡ length name + 1 + length text + 1 + 1
    → format_name name (length text) write block ≡ bracketed name text
unfolding format_name
format_name-bracketed name text write block w e =
    let n : ℕ = length name in
    let m : ℕ = length text in
    let size : ℕ = n + 1 + m + 1 + 1 in
    let o = length-opened name in
    let l = length-append (opened name) text in
    let c = length-closed name text in
    Begins-whole (bracketed name text) _ size
      (Begins-store (closed name text) (0 ∷ []) _ size (n + 1 + m + 1)
        (Begins-store (opened name ++ text) (93 ∷ []) _ size (n + 1 + m)
          (Begins-text (opened name) text (write (m + 1 + 1)) _ size (n + 1)
            (Begins-store name (91 ∷ []) _ size n
              (Begins-store [] name block size 0 (block, refl, omega (arith, e)) refl (omega arith))
              refl (omega arith))
            w (omega (arith, o)) (omega (arith, o)))
          (omega (arith, o, l)) (omega (arith, o, l)))
        (omega (arith, c)) (omega (arith, c)))
      (omega (arith, c, length-append (closed name text) (0 ∷ [])))
