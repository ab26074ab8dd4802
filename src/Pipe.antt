-- ===== src/Pipe.antt =====
-- read(2) on the pipes that the runners of src/exec/ poll: what the kernel answers is chosen by the
-- environment, within what the call allows.
use ctest.Prelude.{
  ℕ, suc, ◌-◌, ◌≤◌, min, ◌≡◌, refl, sym, ap, ◌∙◌, ◌+◌, length-append, [], ◌∷◌, ℤ, pos, negsuc, List,
  ◌++◌, length, take, drop, take-append-drop, length-take, length-drop, arith,
}

-- `fails n` is a negative answer; `grants n` gives up to `n + 1` of the bytes that wait.
pub data Answer : Type 0 where
  fails : ℕ → Answer
  grants : ℕ → Answer

-- The bytes that read(fd, buf, len) takes.
abbrev pub taken : Answer → ℕ → List ℕ → List ℕ
taken (fails n) len stream = []
taken (grants n) len stream = take (min len (suc n)) stream

-- The bytes that stay in the pipe.
abbrev pub left : Answer → ℕ → List ℕ → List ℕ
left (fails n) len stream = stream
left (grants n) len stream = drop (min len (suc n)) stream

-- The value of the call.
abbrev pub read_rc : Answer → ℕ → List ℕ → ℤ
read_rc (fails n) len stream = negsuc n
read_rc (grants n) len stream = pos (length (take (min len (suc n)) stream))

pub taken-left : (k : Answer) (len : ℕ) (s : List ℕ) → taken k len s ++ left k len s ≡ s
taken-left (fails n) len s = refl
taken-left (grants n) len s = take-append-drop (min len (suc n)) s

pub length-taken-le : (k : Answer) (len : ℕ) (s : List ℕ) → length (taken k len s) ≤ len
length-taken-le (fails n) len s = omega arith
length-taken-le (grants n) len s = omega (arith, length-take (min len (suc n)) s)

pub length-left : (n len : ℕ) (s : List ℕ) → 1 ≤ len → length (left (grants n) len s) ≤ length s - 1
length-left n len s p = omega (arith, length-drop (min len (suc n)) s)

-- A call that is granted bytes and takes none has found the end of the stream.
pub taken-empty : (n len : ℕ) (s : List ℕ) → 1 ≤ len → length (taken (grants n) len s) ≡ 0 → s ≡ []
taken-empty n len [] p e = refl
taken-empty n len (x ∷ s) p e =
    let l : length (take (min len (suc n)) (x ∷ s)) ≡ min (min len (suc n)) (suc (length s)) =
      length-take (min len (suc n)) (x ∷ s) in
    ground arith

pub length-taken-left :
    (k : Answer) (len : ℕ) (s : List ℕ) → length (taken k len s) + length (left k len s) ≡ length s
length-taken-left k len s =
    sym (length-append (taken k len s) (left k len s)) ∙ ap length (taken-left k len s)
