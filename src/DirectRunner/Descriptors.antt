-- ===== src/DirectRunner/Descriptors.antt =====
-- The descriptors of src/exec/direct_runner.c: a table of what each of them refers to, what the calls
-- do to it, and that the redirection is undone.
use ctest.Prelude.{
  ℕ, zero, suc, ◌≤◌, ◌<◌, ◌≡◌, refl, sym, ap, ◌∙◌, Bool, true, false, List, [], ◌∷◌, Option, none,
  some, ◌==◌, if◌then◌else◌, arith, Bool-cases, inl, inr,
}
use ctest.DirectRunner.{
  Answers, Act, dup_fd, open_null, open_temp, close_fd, dup2_fd, reporter_start, execute_testcase,
  reporter_complete,
}

-- /dev/null, the temporary file, and all other files.
pub data File : Type 0 where
  null_file : File
  temp_file : File
  other_file : ℕ → File

-- What each descriptor refers to; `none` is a descriptor that is not open.
abbrev pub Table : Type 0
Table = ℕ → Option File

abbrev pub put : ℕ → Option File → Table → Table
put fd file t n = if n == fd then file else t n

-- A dup2 that fails leaves its target.
abbrev pub source_of : Bool → ℕ → ℕ → Table → Option File
source_of true fd to t = t fd
source_of false fd to t = t to

-- The descriptors that are what they were before the test case: all but those of the standard
-- descriptors that cannot be restored.
abbrev pub survives : Answers → ℕ → Bool
survives a zero = a.stdin_restored
survives a (suc zero) = a.stdout_restored
survives a (suc (suc zero)) = a.stderr_restored
survives a (suc (suc (suc n))) = true

==-sound : (n m : ℕ) → (n == m) ≡ true → n ≡ m
==-sound n m e = ground arith

pub put-here : (fd : ℕ) (file : Option File) (t : Table) → put fd file t fd ≡ file
put-here fd file t = let e : (fd == fd) ≡ true = ground arith in rw e refl

pub put-other :
    (fd n : ℕ) (file : Option File) (t : Table) → (n == fd) ≡ false → put fd file t n ≡ t n
put-other fd n file t e = rw e refl

-- A descriptor that is open is not the one that is opened.
pub put-open :
    (fd n : ℕ) (file : Option File) (g : File) (t : Table)
    → t fd ≡ none
    → t n ≡ some g
    → put fd file t n ≡ some g
put-open fd n file g t closed is_open = elim (Bool-cases (n == fd)) [
  | inl same ↦ absurd (cc (ap t (==-sound n fd same), closed, is_open))
  | inr other ↦ put-other fd n file t other ∙ is_open
]

-- A descriptor that is closed again.
pub closed_again :
    (fd n : ℕ) (file : Option File) (t t' : Table)
    → t fd ≡ none
    → t' n ≡ put fd file t n
    → put fd none t' n ≡ t n
closed_again fd n file t t' closed e = elim (Bool-cases (n == fd)) [
  | inl same ↦ rw same (sym closed ∙ ap t (sym (==-sound n fd same)))
  | inr other ↦ put-other fd n none t' other ∙ e ∙ put-other fd n file t other
]

-- What is above the standard descriptors is not changed by what is done to them.
put-above : (fd x : ℕ) (file : Option File) (t : Table) → fd < 3 → 3 ≤ x → put fd file t x ≡ t x
put-above fd x file t p q = put-other fd x file t (ground arith)

-- The three calls of close and of dup2.
abbrev pub closed_three : Table → Table
closed_three t = put 2 none (put 1 none (put 0 none t))

closed_three-above : (t : Table) (x : ℕ) → 3 ≤ x → closed_three t x ≡ t x
closed_three-above t x p =
    put-above 2 x none (put 1 none (put 0 none t)) (omega arith) p
    ∙ put-above 1 x none (put 0 none t) (omega arith) p
    ∙ put-above 0 x none t (omega arith) p

abbrev pub copied_three : Bool → Bool → Bool → ℕ → ℕ → ℕ → Table → Table
copied_three a b c i j k t =
    let t0 : Table = put 0 (source_of a i 0 t) t in
    let t1 : Table = put 1 (source_of b j 1 t0) t0 in put 2 (source_of c k 2 t1) t1

copied_three-above :
    (a b c : Bool) (i j k : ℕ) (t : Table) (x : ℕ) → 3 ≤ x → copied_three a b c i j k t x ≡ t x
copied_three-above a b c i j k t x p =
    let t0 : Table = put 0 (source_of a i 0 t) t in
    let t1 : Table = put 1 (source_of b j 1 t0) t0 in
    put-above 2 x (source_of c k 2 t1) t1 (omega arith) p
    ∙ put-above 1 x (source_of b j 1 t0) t0 (omega arith) p
    ∙ put-above 0 x (source_of a i 0 t) t (omega arith) p

-- The table after the redirection, the test case, and its undoing.
abbrev pub redirected : Answers → ℕ → ℕ → Table → Table
redirected a m o t =
    copied_three a.stdin_redirected a.stdout_redirected a.stderr_redirected m o o (closed_three t)

abbrev pub restored : Answers → ℕ → ℕ → ℕ → Table → Table
restored a i j k t =
    copied_three a.stdin_restored a.stdout_restored a.stderr_restored i j k (closed_three t)

-- A standard descriptor that cannot be redirected is closed.
abbrev pub given : Bool → File → Option File
given true file = some file
given false file = none

-- The standard input is /dev/null, and the output is the temporary file.
abbrev pub IsRedirected : Answers → Option Table → Type 0
IsRedirected a none = record {}
IsRedirected a (some t) =
    (t 0 ≡ given a.stdin_redirected null_file)
    × (t 1 ≡ given a.stdout_redirected temp_file)
    × (t 2 ≡ given a.stderr_redirected temp_file)

pub redirected_lem :
    (a : Answers) (m o : ℕ) (t : Table)
    → 3 ≤ m
    → 3 ≤ o
    → t m ≡ some null_file
    → t o ≡ some temp_file
    → IsRedirected a (some (redirected a m o t))
redirected_lem a m o t p q e e' =
    (zeroth a.stdin_redirected, one a.stdout_redirected, two a.stderr_redirected)
  where
    c : Table
    c = closed_three t

    c0 : Table
    c0 = put 0 (source_of a.stdin_redirected m 0 c) c

    c1 : Table
    c1 = put 1 (source_of a.stdout_redirected o 1 c0) c0

    at_o : c0 o ≡ some temp_file
    at_o =
        put-above 0 o (source_of a.stdin_redirected m 0 c) c (omega arith) q
        ∙ closed_three-above t o q
        ∙ e'

    zeroth : (ok : Bool) → source_of ok m 0 c ≡ given ok null_file
    zeroth true = closed_three-above t m p ∙ e
    zeroth false = refl

    one : (ok : Bool) → source_of ok o 1 c0 ≡ given ok temp_file
    one true = at_o
    one false = refl

    two : (ok : Bool) → source_of ok o 2 c1 ≡ given ok temp_file
    two true = put-above 1 o (source_of a.stdout_redirected o 1 c0) c0 (omega arith) q ∙ at_o
    two false = refl

-- `during` is what the test case itself does to the table: it leaves all but the standard
-- descriptors as they are.
module _ (during : Table → Table) (keeps : (t : Table) (x : ℕ) → 3 ≤ x → during t x ≡ t x)
    (a : Answers) where
  abbrev pub undone : ℕ → ℕ → ℕ → ℕ → ℕ → Table → Table
  undone i j k m o t = restored a i j k (during (redirected a m o t))

  -- A saved descriptor keeps its file.
  during-above :
      (m o : ℕ) (t : Table) (x : ℕ) → 3 ≤ x → closed_three (during (redirected a m o t)) x ≡ t x
  during-above m o t x p =
      closed_three-above (during (redirected a m o t)) x p
      ∙ keeps (redirected a m o t) x p
      ∙ copied_three-above a.stdin_redirected a.stdout_redirected a.stderr_redirected m o o
          (closed_three t) x p
      ∙ closed_three-above t x p

  pub undone_lem :
      (i j k m o : ℕ) (t : Table) (n : ℕ)
      → 3 ≤ i
      → 3 ≤ j
      → 3 ≤ k
      → t i ≡ t 0
      → t j ≡ t 1
      → t k ≡ t 2
      → survives a n ≡ true
      → undone i j k m o t n ≡ t n
  undone_lem i j k m o t zero p q r e e' e'' s =
      let c : Table = closed_three (during (redirected a m o t)) in
      ap (λ (ok : Bool). source_of ok i 0 c) s ∙ during-above m o t i p ∙ e
  undone_lem i j k m o t (suc zero) p q r e e' e'' s =
      let c : Table = closed_three (during (redirected a m o t)) in
      let c0 : Table = put 0 (source_of a.stdin_restored i 0 c) c in
      ap (λ (ok : Bool). source_of ok j 1 c0) s
      ∙ put-above 0 j (source_of a.stdin_restored i 0 c) c (omega arith) q
      ∙ during-above m o t j q
      ∙ e'
  undone_lem i j k m o t (suc (suc zero)) p q r e e' e'' s =
      let c : Table = closed_three (during (redirected a m o t)) in
      let c0 : Table = put 0 (source_of a.stdin_restored i 0 c) c in
      let c1 : Table = put 1 (source_of a.stdout_restored j 1 c0) c0 in
      ap (λ (ok : Bool). source_of ok k 2 c1) s
      ∙ put-above 1 k (source_of a.stdout_restored j 1 c0) c0 (omega arith) r
      ∙ put-above 0 k (source_of a.stdin_restored i 0 c) c (omega arith) r
      ∙ during-above m o t k r
      ∙ e''
  undone_lem i j k m o t (suc (suc (suc n))) p q r e e' e'' s =
      let x : ℕ = suc (suc (suc n)) in
      let c : Table = closed_three (during (redirected a m o t)) in
      copied_three-above a.stdin_restored a.stdout_restored a.stderr_restored i j k c x
        (omega arith)
      ∙ during-above m o t x (omega arith)

-- `during` is what the test case itself does to the table.
module _ {F : Type 0} (during : Table → Table) where
  abbrev pub step : Table → Act F → Table
  step t (dup_fd fd new) = put new (t fd) t
  step t (open_null new) = put new (some null_file) t
  step t (open_temp new) = put new (some temp_file) t
  step t (close_fd fd) = put fd none t
  step t (dup2_fd ok fd to) = put to (source_of ok fd to t) t
  step t execute_testcase = during t
  step t reporter_start = t
  step t (reporter_complete r) = t

  abbrev pub steps : Table → List (Act F) → Table
  steps t [] = t
  steps t (act ∷ acts) = steps (step t act) acts

  -- The system opens no descriptor that is open.
  abbrev pub Grants : Table → Act F → Type 0
  Grants t (dup_fd fd new) = t new ≡ none
  Grants t (open_null new) = t new ≡ none
  Grants t (open_temp new) = t new ≡ none
  Grants t act = record {}

  abbrev pub AllGranted : Table → List (Act F) → Type 0
  AllGranted t [] = record {}
  AllGranted t (act ∷ acts) = Grants t act × AllGranted (step t act) acts

  -- The table with which the test case is executed, if it is.
  abbrev pub at_testcase : Table → List (Act F) → Option Table
  at_testcase t [] = none
  at_testcase t (execute_testcase ∷ acts) = some t
  at_testcase t (act ∷ acts) = at_testcase (step t act) acts
