-- ===== src/Loader/Load/Freed.antt =====
-- What ctest_load_testsuite of src/exec/loader.c takes from the system, and what it and the destructor
-- of the suite give back.
use ctest.Prelude.{
  ℕ, ◌+◌, ◌≤◌, ◌≡◌, refl, ap, ◌∙◌, Bool, true, false, List, [], ◌∷◌, ◌++◌, Option, none, some,
  total, total-append, arith, subst, append_assoc,
}
use ctest.Loader.Load.{
  TestDef, SuiteDef, Test, Testsuite, Act, allocate, release, dlinit, dlexit, dladvise_init,
  dladvise_destroy, dlopen, dlclose, TestAnswers, ModuleAnswers,
}
use ctest.Loader.Load.Create.{
  destroy_tests, end_tests, load_tests, or_undo, acquire, load_suite, load_module, require,
  ctest_load_testsuite, free_array, testsuite_destroy,
}
use ctest.Loader.Load.Settled.{
  Resource, takes, gives, Undoes, release-Undoes, dlexit-Undoes, dladvise_destroy-Undoes,
  dlclose-Undoes, Settles, Settles-block, Settles-done, SettlesAll, two_blocks,
  create_tests-Settles,
}

regrouped : (a b c d e : List Act) → ((a ++ (b ++ c)) ++ d) ++ e ≡ a ++ (b ++ (c ++ (d ++ e)))
regrouped a b c d e =
    append_assoc (a ++ (b ++ c)) d e
    ∙ append_assoc a (b ++ c) (d ++ e)
    ∙ ap (λ l. a ++ l) (append_assoc b c (d ++ e))

module _ (r : Resource) where
  abbrev t : List Act → ℕ
  t acts = total (takes r) acts

  abbrev g : List Act → ℕ
  g acts = total (gives r) acts

  -- The array of the tests, if it is the resource.
  abbrev held : Option ℕ → ℕ
  held none = 0
  held (some a) = takes r (allocate a)

  -- A suite is undone; where there is none, all is given back but the array of the tests at most.
  abbrev Left : Option ℕ → (Testsuite → List Act) → Option Testsuite × List Act → Type 0
  Left array undo (none, acts) = (extra : ℕ) × (t acts ≡ g acts + extra) × (extra ≤ held array)
  Left array undo (some s, acts) = Settles r acts (undo s)

  abbrev destroy_suite : Testsuite → List Act
  destroy_suite s = destroy_tests s.tests ++ (free_array s.array ++ (release s.address ∷ []))

  Left-none : (array : Option ℕ) (undo : Testsuite → List Act) → Left array undo (none, [])
  Left-none array undo = (0, refl, omega arith)

  suite-Left :
      (a : ℕ) (def : SuiteDef) (created : Bool × List Test × List Act) (array : Option ℕ)
      → SettlesAll r destroy_tests created
      → Left array destroy_suite
          (acquire true (allocate a) (release a) (end_tests a def none created))
  unfolding acquire or_undo end_tests free_array
  suite-Left a def (true, tests, acts) array s = Settles-block r a acts (destroy_tests tests) s
  suite-Left a def (false, tests, acts) array s =
      let settled : Settles r (acts ++ destroy_tests tests) [] =
        Settles-done r acts (destroy_tests tests) s in
      let all : Settles r (allocate a ∷ ((acts ++ destroy_tests tests) ++ (release a ∷ []))) [] =
        Settles-done r (allocate a ∷ (acts ++ destroy_tests tests)) (release a ∷ [])
          (Settles-block r a (acts ++ destroy_tests tests) [] settled) in
      (0, omega (arith, all), omega arith)

  -- With the array of the tests, which the failure leaves.
  suite_with_array-Left :
      (a array : ℕ) (def : SuiteDef) (created : Bool × List Test × List Act)
      → SettlesAll r destroy_tests created
      → Left (some array) destroy_suite (
          acquire true (allocate a) (release a) (
            (end_tests a def (some array) created).0,
            allocate array ∷ (end_tests a def (some array) created).1,
          ))
  unfolding acquire or_undo end_tests free_array
  suite_with_array-Left a array def (true, tests, acts) s =
      two_blocks r a array acts (destroy_tests tests) s
  suite_with_array-Left a array def (false, tests, acts) s =
      let settled : Settles r (acts ++ destroy_tests tests) [] =
        Settles-done r acts (destroy_tests tests) s in
      let (e, e', e'') = release-Undoes r a in
      let (f, f', f'') = release-Undoes r array in
      let more : List Act = acts ++ destroy_tests tests in
      (
        takes r (allocate array),
        omega (
          arith,
          settled,
          e,
          e',
          e'',
          f',
          f'',
          total-append (takes r) more (release a ∷ []),
          total-append (gives r) more (release a ∷ []),
        ),
        omega arith,
      )

  block_undone :
      (a : ℕ) → Left none destroy_suite (acquire true (allocate a) (release a) (none, []))
  unfolding acquire or_undo
  block_undone a =
      let all : Settles r (allocate a ∷ release a ∷ []) [] =
        Settles-done r (allocate a ∷ []) (release a ∷ []) (Settles-block r a [] [] refl) in
      (0, omega (arith, all), omega arith)

  load_tests-Left :
      (a : ℕ) (def : SuiteDef) (defs : List TestDef) (array : Option ℕ) (answers : ℕ → TestAnswers)
      → Left array destroy_suite
          (acquire true (allocate a) (release a) (load_tests a def defs array answers))
  unfolding load_tests
  load_tests-Left a def [] array answers =
      suite-Left a def _ array (create_tests-Settles r a answers 0 [])
  load_tests-Left a def (d ∷ defs) none answers = block_undone a
  load_tests-Left a def (d ∷ defs) (some array) answers =
      suite_with_array-Left a array def _ (create_tests-Settles r a answers 0 (d ∷ defs))

  load_suite-Left :
      (answer : Option ℕ) (def : SuiteDef) (answers : ModuleAnswers)
      → Left answers.array destroy_suite (load_suite answer def answers)
  unfolding load_suite
  load_suite-Left none def answers = Left-none answers.array destroy_suite
  load_suite-Left (some a) def answers = load_tests-Left a def def.tests answers.array answers.test

  -- The same with what a suite that is loaded keeps for good.
  abbrev Kept : Option ℕ → ℕ → (Testsuite → List Act) → Option Testsuite × List Act → Type 0
  Kept array k undo (none, acts) = (extra : ℕ) × (t acts ≡ g acts + extra) × (extra ≤ held array)
  Kept array k undo (some s, acts) = t acts + t (undo s) ≡ g acts + g (undo s) + k

  Kept-none :
      (array : Option ℕ) (k : ℕ) (undo : Testsuite → List Act) → Kept array k undo (none, [])
  Kept-none array k undo = (0, refl, omega arith)

  Left-Kept :
      (array : Option ℕ) (undo : Testsuite → List Act) (result : Option Testsuite × List Act)
      → Left array undo result
      → Kept array 0 undo result
  Left-Kept array undo (none, acts) h = h
  Left-Kept array undo (some s, acts) h = omega (arith, h)

  require-Kept :
      (array : Option ℕ) (k : ℕ) (undo : Testsuite → List Act) (ok : Bool)
      (result : Option Testsuite × List Act)
      → Kept array k undo result
      → Kept array k undo (require ok result)
  unfolding require
  require-Kept array k undo false result h = Kept-none array k undo
  require-Kept array k undo true result h = h

  -- A failure undoes what is acquired, and the destructor undoes it too.
  acquire-Kept :
      (array : Option ℕ) (k : ℕ) (undo : Testsuite → List Act) (ok : Bool) (act back : Act)
      (result : Option Testsuite × List Act)
      → Undoes r act back
      → Kept array k undo result
      → Kept array k (λ s. undo s ++ (back ∷ [])) (acquire ok act back result)
  unfolding acquire or_undo
  acquire-Kept array k undo false act back (result, acts) u h = Kept-none array k undo
  acquire-Kept array k undo true act back (none, acts) (e, e', e'') (extra, h, h') = (
    extra,
    omega (
      arith,
      h,
      e,
      e',
      e'',
      total-append (takes r) acts (back ∷ []),
      total-append (gives r) acts (back ∷ []),
    ),
    h',
  )
  acquire-Kept array k undo true act back (some s, acts) (e, e', e'') h = omega (
    arith,
    h,
    e,
    e',
    e'',
    total-append (takes r) (undo s) (back ∷ []),
    total-append (gives r) (undo s) (back ∷ []),
  )

  -- A failure undoes what is acquired, and the destructor does not.
  acquire-Kept_for_good :
      (array : Option ℕ) (undo : Testsuite → List Act) (ok : Bool) (act back : Act)
      (result : Option Testsuite × List Act)
      → Undoes r act back
      → Kept array 0 undo result
      → Kept array (takes r act) undo (acquire ok act back result)
  unfolding acquire or_undo
  acquire-Kept_for_good array undo false act back (result, acts) u h =
      Kept-none array (takes r act) undo
  acquire-Kept_for_good array undo true act back (none, acts) (e, e', e'') (extra, h, h') = (
    extra,
    omega (
      arith,
      h,
      e,
      e',
      e'',
      total-append (takes r) acts (back ∷ []),
      total-append (gives r) acts (back ∷ []),
    ),
    h',
  )
  acquire-Kept_for_good array undo true act back (some s, acts) (e, e', e'') h =
      omega (arith, h, e'')

  load_module-Kept :
      (def : Option SuiteDef) (answers : ModuleAnswers)
      → Kept answers.array 0 destroy_suite (load_module def answers)
  unfolding load_module
  load_module-Kept none answers = Kept-none answers.array 0 destroy_suite
  load_module-Kept (some def) answers =
      require-Kept answers.array 0 destroy_suite _ _
        (Left-Kept answers.array destroy_suite _ (load_suite-Left answers.block def answers))

  abbrev pub Balanced : Option ℕ → Option Testsuite × List Act → Type 0
  Balanced array result = Kept array (takes r dladvise_init) testsuite_destroy result

  -- The destructor, with its last two calls at the end.
  Kept-Balanced :
      (array : Option ℕ) (result : Option Testsuite × List Act)
      → Kept array
          (takes r dladvise_init)
          (λ s. (destroy_suite s ++ (dlclose ∷ [])) ++ (dlexit ∷ []))
          result
      → Balanced array result
  unfolding testsuite_destroy
  Kept-Balanced array (none, acts) h = h
  Kept-Balanced array (some s, acts) h =
      subst (λ undo. t acts + t undo ≡ g acts + g undo + takes r dladvise_init)
        (regrouped (destroy_tests s.tests) (free_array s.array) (release s.address ∷ [])
          (dlclose ∷ []) (dlexit ∷ []))
        h

  -- What is taken is given back: by ctest_load_testsuite itself where it fails, but for the array of
  -- the tests at most, and by the destructor of the suite that it gives, but for the advice.
  pub ctest_load_testsuite-Balanced :
      (answers : ModuleAnswers) → Balanced answers.array (ctest_load_testsuite answers)
  unfolding ctest_load_testsuite
  ctest_load_testsuite-Balanced answers = Kept-Balanced answers.array _ (
      acquire-Kept answers.array (takes r dladvise_init) (λ s. destroy_suite s ++ (dlclose ∷ []))
        answers.initialised dlinit dlexit _ (dlexit-Undoes r)
        (acquire-Kept_for_good answers.array _ answers.advised dladvise_init dladvise_destroy _
          (dladvise_destroy-Undoes r)
          (require-Kept answers.array 0 _ answers.advised_local _ (
            acquire-Kept answers.array 0 destroy_suite answers.opened dlopen dlclose _
              (dlclose-Undoes r) (load_module-Kept answers.suite_def answers)))))
