-- ===== src/Loader/Load/FromModule.antt =====
-- ctest_load_testsuite of src/exec/loader.c as a whole.
use ctest.Prelude.{
  ℕ, ◌≡◌, refl, Bool, true, false, List, [], ◌∷◌, Option, none, some, ◌==◌, ◌&&◌, ◌↔◌, arith,
}
use ctest.Loader.Load.{
  TestDef, SuiteDef, Test, Testsuite, Act, allocate, release, dlinit, dlexit, dladvise_init,
  dladvise_destroy, dlopen, dlclose, ModuleAnswers, TestAnswers,
}
use ctest.Loader.Load.Create.{
  create_tests, end_tests, load_tests, or_undo, acquire, load_suite, require, load_module,
  ctest_load_testsuite, suite_magic, suite_version,
}
use ctest.Loader.Load.Loaded.{
  Given, TestGranted, IsSuite, HasSuite, IsGranted, IsSized, Makes, MakesAll, AreTests, IsTestsuite,
  IsLoaded, ModulePrints, AllPrint,
}
use ctest.Loader.Load.Made.{Makes-under, create_tests-MakesAll}

module _ (text : TestDef → ℕ → List ℕ) where
  end_tests-Makes :
      (a : ℕ) (defs : List TestDef) (def : SuiteDef) (array : Option ℕ) (granted : Type 0)
      (created : Bool × List Test × List Act)
      → MakesAll (AreTests text a defs) granted created
      → Makes (IsTestsuite text defs def) granted (end_tests a def array created)
  unfolding end_tests
  end_tests-Makes a defs def array granted (true, tests, acts) m = (refl, m)
  end_tests-Makes a defs def array granted (false, tests, acts) m = m

  Makes-acts :
      {A : Type 0} (Good : A → Type 0) (granted : Type 0) (made : Option A) (acts acts' : List Act)
      → Makes Good granted (made, acts)
      → Makes Good granted (made, acts')
  Makes-acts Good granted none acts acts' m = m
  Makes-acts Good granted (some a) acts acts' m = m

  load_tests-Makes :
      (a : ℕ) (def : SuiteDef) (defs : List TestDef) (array : Option ℕ) (answers : ℕ → TestAnswers)
      → AllPrint text defs
      → ((j k : ℕ) → IsSized ((answers j).testcase k).old)
      → Makes
          (IsTestsuite text defs def)
          (Given array × ((j : ℕ) → TestGranted (answers j)))
          (load_tests a def defs array answers)
  unfolding load_tests
  load_tests-Makes a def [] array answers p sized =
      Makes-under (IsTestsuite text [] def) ((j : ℕ) → TestGranted (answers j))
        (Given array × ((j : ℕ) → TestGranted (answers j)))
        (end_tests a def none (create_tests a answers 0 [])) (λ all. all.1)
        (end_tests-Makes a [] def none ((j : ℕ) → TestGranted (answers j)) _
          (create_tests-MakesAll text a answers 0 [] p sized))
  load_tests-Makes a def (d ∷ defs) none answers p sized = λ all. all.0
  load_tests-Makes a def (d ∷ defs) (some array) answers p sized =
      let created = create_tests a answers 0 (d ∷ defs) in
      let result = end_tests a def (some array) created in
      Makes-under (IsTestsuite text (d ∷ defs) def) ((j : ℕ) → TestGranted (answers j))
        (Unit × ((j : ℕ) → TestGranted (answers j))) (result.0, allocate array ∷ result.1)
        (λ all. all.1)
        (Makes-acts (IsTestsuite text (d ∷ defs) def) _ result.0 result.1 _ (
          end_tests-Makes a (d ∷ defs) def (some array) ((j : ℕ) → TestGranted (answers j)) created
            (create_tests-MakesAll text a answers 0 (d ∷ defs) p sized)))

  refused : false ≡ true → ⊥
  refused e = cc e

  acquire-Makes :
      (Good : Testsuite → Type 0) (granted : Type 0) (ok : Bool) (act undo : Act)
      (result : Option Testsuite × List Act)
      → Makes Good granted result
      → Makes Good ((ok ≡ true) × granted) (acquire ok act undo result)
  unfolding acquire or_undo
  acquire-Makes Good granted false act undo (result, acts) m = λ all. refused all.0
  acquire-Makes Good granted true act undo (none, acts) m = λ all. m all.1
  acquire-Makes Good granted true act undo (some s, acts) m = m

  require-Makes :
      (Good : Testsuite → Type 0) (granted : Type 0) (ok : Bool)
      (result : Option Testsuite × List Act)
      → (ok ≡ true → Makes Good granted result)
      → Makes Good ((ok ≡ true) × granted) (require ok result)
  unfolding require
  require-Makes Good granted false result m = λ all. refused all.0
  require-Makes Good granted true (none, acts) m = λ all. m refl all.1
  require-Makes Good granted true (some s, acts) m = m refl

  load_suite-Makes :
      (answer : Option ℕ) (def : SuiteDef) (answers : ModuleAnswers)
      → AllPrint text def.tests
      → ((j k : ℕ) → IsSized ((answers.test j).testcase k).old)
      → Makes
          (IsTestsuite text def.tests def)
          (Given answer × Given answers.array × ((j : ℕ) → TestGranted (answers.test j)))
          (load_suite answer def answers)
  unfolding load_suite
  load_suite-Makes none def answers p sized = λ all. all.0
  load_suite-Makes (some a) def answers p sized =
      Makes-under (IsTestsuite text def.tests def)
        ((true ≡ true) × (Given answers.array × ((j : ℕ) → TestGranted (answers.test j))))
        (Unit × Given answers.array × ((j : ℕ) → TestGranted (answers.test j)))
        (acquire true (allocate a) (release a)
          (load_tests a def def.tests answers.array answers.test))
        (λ all. (refl, (all.1, all.2)))
        (acquire-Makes (IsTestsuite text def.tests def) _ true (allocate a) (release a) _
          (load_tests-Makes a def def.tests answers.array answers.test p sized))

  IsSuite-iff :
      (def : SuiteDef)
      → ((def.magic == suite_magic && def.version == suite_version) ≡ true) ↔ IsSuite def
  IsSuite-iff def = (ground arith, ground arith)

  Makes-good :
      {A : Type 0} (Good Good' : A → Type 0) (granted : Type 0) (made : Option A × List Act)
      → ((a : A) → Good a → Good' a)
      → Makes Good granted made
      → Makes Good' granted made
  Makes-good Good Good' granted (none, acts) f m = m
  Makes-good Good Good' granted (some a, acts) f m = f a m

  abbrev Blocks : ModuleAnswers → Type 0
  Blocks answers =
      Given answers.block × Given answers.array × ((j : ℕ) → TestGranted (answers.test j))

  load_module-Makes :
      (def : Option SuiteDef) (answers : ModuleAnswers)
      → ModulePrints text def
      → ((j k : ℕ) → IsSized ((answers.test j).testcase k).old)
      → Makes (IsLoaded text def) (HasSuite def × Blocks answers) (load_module def answers)
  unfolding load_module
  load_module-Makes none answers p sized = λ all. all.0
  load_module-Makes (some def) answers p sized =
      let ok : Bool = def.magic == suite_magic && def.version == suite_version in
      Makes-under (IsLoaded text (some def)) ((ok ≡ true) × Blocks answers)
        (IsSuite def × Blocks answers) (require ok (load_suite answers.block def answers))
        (λ all. ((IsSuite-iff def).1 all.0, all.1))
        (require-Makes (IsLoaded text (some def)) (Blocks answers) ok _ (λ e.
          Makes-good (IsTestsuite text def.tests def) (IsLoaded text (some def)) (Blocks answers) _
            (λ s loaded. ((IsSuite-iff def).0 e, loaded))
            (load_suite-Makes answers.block def answers p sized)))

  -- What ctest_load_testsuite gives is a suite with a test for each definition in the module and a
  -- test case for each element of its data, in order, each with its name, the address of its data
  -- and the test or suite that it belongs to, and the magic number and the version of the module are
  -- right; it gives none only where something is refused. The data print as snprintf does, and
  -- malloc gives what it is asked for.
  pub ctest_load_testsuite-IsLoaded :
      (answers : ModuleAnswers)
      → ModulePrints text answers.suite_def
      → ((j k : ℕ) → IsSized ((answers.test j).testcase k).old)
      → Makes (IsLoaded text answers.suite_def) (IsGranted answers) (ctest_load_testsuite answers)
  unfolding ctest_load_testsuite
  ctest_load_testsuite-IsLoaded answers p sized =
      let Good : Testsuite → Type 0 = IsLoaded text answers.suite_def in
      let Inner : Type 0 = HasSuite answers.suite_def × Blocks answers in
      Makes-under Good
        ((answers.initialised ≡ true)
          × ((answers.advised ≡ true)
              × ((answers.advised_local ≡ true) × ((answers.opened ≡ true) × Inner))))
        (IsGranted answers) (ctest_load_testsuite answers)
        (λ g. (
          g.initialised,
          (g.advised, (g.advised_local, (g.opened, (g.suite, (g.block, g.array, g.test))))),
        ))
        (acquire-Makes Good _ answers.initialised dlinit dlexit _ (
          acquire-Makes Good _ answers.advised dladvise_init dladvise_destroy _ (
            require-Makes Good _ answers.advised_local _ (λ e.
              acquire-Makes Good Inner answers.opened dlopen dlclose _
                (load_module-Makes answers.suite_def answers p sized)))))
