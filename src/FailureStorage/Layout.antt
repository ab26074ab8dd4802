-- ===== src/FailureStorage/Layout.antt =====
-- Parts of a block of src/exec/failure.c, and writes that are inside of it.
use ctest.Prelude.{
  ℕ, ◌+◌, ◌-◌, ◌≤◌, ◌<◌, ◌%◌, ◌^◌, ◌≡◌, refl, Bool, true, false, ◌&&◌, List, [], ◌∷◌, ◌++◌, Option,
  none, some, length, map, leb, ltb, arith, Bool-cases, inl, inr,
}
use ctest.FailureStorage.{pad_size, Write, wrote, and_then, nested, guarded, to_int, int_return}

-- All writes are inside a block of `len` bytes.
abbrev pub within : ℕ → List Write → Bool
within len [] = true
within len (w ∷ writes) = leb (w.ofs + length w.bytes) len && within len writes

-- The return value is the size if there is room for it and negative else, and no write is outside the
-- block.
abbrev pub Fills : ℕ → ℕ → Option ℕ × List Write → Type 0
Fills len size (some rc, writes) = (rc ≡ size) × (size ≤ len) × (within len writes ≡ true)
Fills len size (none, writes) = (len < size) × (within len writes ≡ true)

pub &&-both : {a b : Bool} → a ≡ true → b ≡ true → (a && b) ≡ true
&&-both {a} {b} p q = rw p q

&&-split : (a b : Bool) → (a && b) ≡ true → (a ≡ true) × (b ≡ true)
&&-split true b p = (refl, p)
&&-split false b p = absurd (cc p)

leb-true : (a b : ℕ) → leb a b ≡ true → a ≤ b
leb-true a b p = ground arith

leb-false : (a b : ℕ) → leb a b ≡ false → b < a
leb-false a b p = ground arith

pub le-leb : (a b : ℕ) → a ≤ b → leb a b ≡ true
le-leb a b p = ground arith

pub within-append :
    (len : ℕ) (a b : List Write)
    → within len a ≡ true
    → within len b ≡ true
    → within len (a ++ b) ≡ true
within-append len [] b p q = q
within-append len (w ∷ a) b p q =
    let (here, later) = &&-split (leb (w.ofs + length w.bytes) len) (within len a) p in
    &&-both here (within-append len a b later q)

pub within-nested :
    (len ofs : ℕ) (a : List Write)
    → ofs ≤ len
    → within (len - ofs) a ≡ true
    → within len (map (λ w. wrote (ofs + w.ofs) w.bytes) a) ≡ true
within-nested len ofs [] le p = refl
within-nested len ofs (w ∷ a) le p =
    let (here, later) =
      &&-split (leb (w.ofs + length w.bytes) (len - ofs)) (within (len - ofs) a) p in
    let fits : w.ofs + length w.bytes ≤ len - ofs =
      leb-true (w.ofs + length w.bytes) (len - ofs) here in
    &&-both (le-leb (ofs + w.ofs + length w.bytes) len (omega (arith, fits, le)))
      (within-nested len ofs a le later)

pub le-pad_size_1 : (size : ℕ) → size ≤ pad_size size 1
unfolding pad_size
le-pad_size_1 size = omega arith

pub le-pad_size_8 : (size : ℕ) → size ≤ pad_size size 8
unfolding pad_size
le-pad_size_8 size = omega arith

pub guarded-Fills :
    (len ofs : ℕ) (writes : List Write)
    → (ofs ≤ len → within len writes ≡ true)
    → Fills len ofs (guarded len ofs writes)
unfolding guarded
guarded-Fills len ofs writes w = elim (Bool-cases (leb ofs len)) [
  | inl fits ↦ let le : ofs ≤ len = leb-true ofs len fits in rw fits (refl, le, w le)
  | inr over ↦ rw over (leb-false ofs len over, refl)
]

add-Fills :
    (len total : ℕ) (writes : List Write) (rest : Option ℕ × List Write)
    → within len writes ≡ true
    → Fills len total rest
    → Fills len total (rest.0, writes ++ rest.1)
add-Fills len total writes (none, more) w (over, v) = (over, within-append len writes more w v)
add-Fills len total writes (some ofs, more) w (same, fits, v) =
    (same, fits, within-append len writes more w v)

pub and_then-Fills :
    (len size total : ℕ) (part : Option ℕ × List Write) (next : ℕ → Option ℕ × List Write)
    → Fills len size part
    → size ≤ total
    → (size ≤ len → Fills len total (next size))
    → Fills len total (and_then part next)
unfolding and_then
and_then-Fills len size total (none, writes) next (over, w) le n = (omega (arith, over, le), w)
and_then-Fills len size total (some ofs, writes) next (same, fits, w) le n =
    add-Fills len total writes (next ofs) w (rw same (n fits))

pub nested-Fills :
    (len ofs size : ℕ) (part : Option ℕ × List Write)
    → ofs ≤ len
    → Fills (len - ofs) size part
    → Fills len (ofs + size) (nested ofs part)
unfolding nested
nested-Fills len ofs size (none, writes) le (over, w) =
    (omega (arith, over, le), within-nested len ofs writes le w)
nested-Fills len ofs size (some o, writes) le (same, fits, w) =
    (omega (arith, same), omega (arith, fits, le), within-nested len ofs writes le w)

pub to_int-small : (n : ℕ) → n < 2 ^ 31 → to_int n ≡ some n
unfolding to_int
to_int-small n small =
    let low : n % 2 ^ 32 ≡ n = omega (arith, small) in
    let fits : ltb n (2 ^ 31) ≡ true = ground arith in rw (low, fits) refl

-- In a block below 2^31 bytes no value is lost.
pub int_return-Fills :
    (len size : ℕ) (part : Option ℕ × List Write)
    → len < 2 ^ 31
    → Fills len size part
    → Fills len size (int_return part)
unfolding int_return
int_return-Fills len size (none, writes) small fills = fills
int_return-Fills len size (some rc, writes) small (same, fits, w) =
    rw (to_int-small rc (omega (arith, same, fits, small))) (same, fits, w)
