-- ===== src/DirectRunner/Opened.antt =====
-- The five descriptors that src/exec/direct_runner.c opens, in the table.
use ctest.Prelude.{ℕ, zero, suc, ◌≤◌, ◌≡◌, sym, ◌∙◌, none, some, arith}
use ctest.DirectRunner.Descriptors.{File, null_file, temp_file, Table, put, put-here, put-open}

-- A descriptor that is closed while the standard descriptors are open is above them.
above :
    (t : Table) (fd : ℕ) (f g h : File)
    → t 0 ≡ some f
    → t 1 ≡ some g
    → t 2 ≡ some h
    → t fd ≡ none
    → 3 ≤ fd
above t zero f g h e e' e'' closed = absurd (cc (e, closed))
above t (suc zero) f g h e e' e'' closed = absurd (cc (e', closed))
above t (suc (suc zero)) f g h e e' e'' closed = absurd (cc (e'', closed))
above t (suc (suc (suc n))) f g h e e' e'' closed = omega arith

-- The table with one descriptor more, up to all five.
abbrev pub t1 : Table → ℕ → Table
t1 t i = put i (t 0) t

abbrev pub t2 : Table → ℕ → ℕ → Table
t2 t i j = put j (t1 t i 1) (t1 t i)

abbrev pub t3 : Table → ℕ → ℕ → ℕ → Table
t3 t i j k = put k (t2 t i j 2) (t2 t i j)

abbrev pub t4 : Table → ℕ → ℕ → ℕ → ℕ → Table
t4 t i j k m = put m (some null_file) (t3 t i j k)

abbrev pub t5 : Table → ℕ → ℕ → ℕ → ℕ → ℕ → Table
t5 t i j k m o = put o (some temp_file) (t4 t i j k m)

-- The saved descriptors are above the standard descriptors, and refer to the same files.
abbrev pub AreSaved : Table → ℕ → ℕ → ℕ → Type 0
AreSaved t i j k = (3 ≤ i) × (3 ≤ j) × (3 ≤ k) × (t i ≡ t 0) × (t j ≡ t 1) × (t k ≡ t 2)

pub t5-AreSaved :
    (t : Table) (i j k m o : ℕ) (f g h : File)
    → t 0 ≡ some f
    → t 1 ≡ some g
    → t 2 ≡ some h
    → t i ≡ none
    → t1 t i j ≡ none
    → t2 t i j k ≡ none
    → t3 t i j k m ≡ none
    → t4 t i j k m o ≡ none
    → AreSaved (t5 t i j k m o) i j k
t5-AreSaved t i j k m o f g h e e' e'' ci cj ck cm co =
    let at1 : (x : ℕ) (file : File) → t x ≡ some file → t1 t i x ≡ some file =
      λ x file p. put-open i x (t 0) file t ci p in
    let at2 : (x : ℕ) (file : File) → t1 t i x ≡ some file → t2 t i j x ≡ some file =
      λ x file p. put-open j x (t1 t i 1) file (t1 t i) cj p in
    let at3 : (x : ℕ) (file : File) → t2 t i j x ≡ some file → t3 t i j k x ≡ some file =
      λ x file p. put-open k x (t2 t i j 2) file (t2 t i j) ck p in
    let at5 : (x : ℕ) (file : File) → t3 t i j k x ≡ some file → t5 t i j k m o x ≡ some file =
      λ x file p.
        put-open o x (some temp_file) file (t4 t i j k m) co
          (put-open m x (some null_file) file (t3 t i j k) cm p) in
    let g1 : t1 t i 1 ≡ some g = at1 1 g e' in
    let h2 : t2 t i j 2 ≡ some h = at2 2 h (at1 2 h e'') in
    (
      above t i f g h e e' e'' ci,
      above (t1 t i) j f g h (at1 0 f e) g1 (at1 2 h e'') cj,
      above (t2 t i j) k f g h (at2 0 f (at1 0 f e)) (at2 1 g g1) h2 ck,
      at5 i f (at3 i f (at2 i f (put-here i (t 0) t ∙ e)))
          ∙ sym (at5 0 f (at3 0 f (at2 0 f (at1 0 f e)))),
      at5 j g (at3 j g (put-here j (t1 t i 1) (t1 t i) ∙ g1))
          ∙ sym (at5 1 g (at3 1 g (at2 1 g g1))),
      at5 k h (put-here k (t2 t i j 2) (t2 t i j) ∙ h2) ∙ sym (at5 2 h (at3 2 h h2)),
    )

-- The new descriptors are above the standard descriptors too.
abbrev pub AreNew : Table → ℕ → ℕ → Type 0
AreNew t m o = (3 ≤ m) × (3 ≤ o) × (t m ≡ some null_file) × (t o ≡ some temp_file)

pub t5-AreNew :
    (t : Table) (i j k m o : ℕ) (f g h : File)
    → t 0 ≡ some f
    → t 1 ≡ some g
    → t 2 ≡ some h
    → t i ≡ none
    → t1 t i j ≡ none
    → t2 t i j k ≡ none
    → t3 t i j k m ≡ none
    → t4 t i j k m o ≡ none
    → AreNew (t5 t i j k m o) m o
t5-AreNew t i j k m o f g h e e' e'' ci cj ck cm co =
    let at3 : (x : ℕ) (file : File) → t x ≡ some file → t3 t i j k x ≡ some file = λ x file p.
      put-open k x (t2 t i j 2) file (t2 t i j) ck
        (put-open j x (t1 t i 1) file (t1 t i) cj (put-open i x (t 0) file t ci p)) in
    let at4 : (x : ℕ) (file : File) → t x ≡ some file → t4 t i j k m x ≡ some file =
      λ x file p. put-open m x (some null_file) file (t3 t i j k) cm (at3 x file p) in
    (
      above (t3 t i j k) m f g h (at3 0 f e) (at3 1 g e') (at3 2 h e'') cm,
      above (t4 t i j k m) o f g h (at4 0 f e) (at4 1 g e') (at4 2 h e'') co,
      put-open o m (some temp_file) null_file (t4 t i j k m) co
          (put-here m (some null_file) (t3 t i j k)),
      put-here o (some temp_file) (t4 t i j k m),
    )
