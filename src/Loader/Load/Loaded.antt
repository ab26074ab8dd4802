-- ===== src/Loader/Load/Loaded.antt =====
-- The suite that ctest_load_testsuite of src/exec/loader.c makes of the definitions in a module.
use ctest.Prelude.{
  ℕ, zero, suc, ◌+◌, ◌*◌, ◌≡◌, pos, Bool, true, false, List, [], ◌∷◌, Option, none, some, length,
  take,
}
use ctest.Memory.{text_bytes}
use ctest.Loader.Load.{
  DataProvider, TestDef, SuiteDef, Name, def_name, buffer, Testcase, Test, Testsuite, Act,
  TestcaseAnswers, TestAnswers, ModuleAnswers,
}
use ctest.Loader.Load.Create.{provider_of, suite_magic, suite_version}
use ctest.Loader.Load.Names.{bracketed}

-- An answer that is not NULL.
abbrev pub Given : {A : Type 0} → Option A → Type 0
Given none = ⊥
Given (some a) = Unit

abbrev pub TestcaseGranted : TestcaseAnswers → Type 0
TestcaseGranted answers = Given answers.block × Given answers.name_block

abbrev pub TestGranted : TestAnswers → Type 0
TestGranted answers =
    Given answers.block × Given answers.array × ((i : ℕ) → TestcaseGranted (answers.testcase i))

abbrev pub IsSuite : SuiteDef → Type 0
IsSuite def = (def.magic ≡ suite_magic) × (def.version ≡ suite_version)

abbrev pub HasSuite : Option SuiteDef → Type 0
HasSuite none = ⊥
HasSuite (some def) = IsSuite def

-- Nothing that the loading of the module asks for is refused.
pub record IsGranted (answers : ModuleAnswers) : Type 0 where
  pub initialised : answers.initialised ≡ true
  pub advised : answers.advised ≡ true
  pub advised_local : answers.advised_local ≡ true
  pub opened : answers.opened ≡ true
  pub suite : HasSuite answers.suite_def
  pub block : Given answers.block
  pub array : Given answers.array
  pub test : (i : ℕ) → TestGranted (answers.test i)

-- What malloc gives has the size that it is asked for.
abbrev pub IsSized : (ℕ → List ℕ) → Type 0
IsSized old = (n : ℕ) → length (old n) ≡ n

-- to_string prints as snprintf does: it gives the length of the text, and writes what the buffer has
-- room for, with a 0.
pub record Prints (provider : DataProvider) (text : ℕ → List ℕ) : Type 0 where
  pub gives : (e : ℕ) → (provider.to_string 0 e).0 ≡ pos (length (text e))
  pub writes : (e n : ℕ) → (provider.to_string (suc n) e).1 ≡ text_bytes (take n (text e))

abbrev pub spelled : Name → List ℕ
spelled (def_name name) = text_bytes name
spelled (buffer a bytes) = bytes

-- The name alone for data that prints as nothing.
abbrev pub name_with : List ℕ → List ℕ → List ℕ
name_with name [] = text_bytes name
name_with name (c ∷ cs) = bracketed name (c ∷ cs)

-- A step that gives something good, unless something is refused.
abbrev pub Makes : {A : Type 0} → (A → Type 0) → Type 0 → Option A × List Act → Type 0
Makes Good granted (none, acts) = granted → ⊥
Makes Good granted (some a, acts) = Good a

abbrev pub MakesAll : {A : Type 0} → (List A → Type 0) → Type 0 → Bool × List A × List Act → Type 0
MakesAll Good granted (true, made, acts) = Good made
MakesAll Good granted (false, made, acts) = granted → ⊥

module _ (text : TestDef → ℕ → List ℕ) where
  -- `e` is the address of the data.
  abbrev pub IsTestcase : ℕ → TestDef → ℕ → Testcase → Type 0
  IsTestcase test def e tc =
      (tc.test ≡ test) × (tc.element ≡ e) × (spelled tc.name ≡ name_with def.name (text def e))

  abbrev pub element_at : TestDef → ℕ → ℕ
  element_at def i = (provider_of def).elements + i * (provider_of def).size

  -- A test case for each of `n` elements from `i` on.
  abbrev pub AreTestcases : ℕ → TestDef → ℕ → ℕ → List Testcase → Type 0
  AreTestcases test def i zero [] = Unit
  AreTestcases test def i zero (tc ∷ testcases) = ⊥
  AreTestcases test def i (suc n) [] = ⊥
  AreTestcases test def i (suc n) (tc ∷ testcases) =
      IsTestcase test def (element_at def i) tc × AreTestcases test def (suc i) n testcases

  abbrev pub IsTest : ℕ → TestDef → Test → Type 0
  IsTest testsuite def t =
      (t.testsuite ≡ testsuite)
      × (t.def ≡ def)
      × AreTestcases t.address def 0 (provider_of def).count t.testcases

  abbrev pub AreTests : ℕ → List TestDef → List Test → Type 0
  AreTests testsuite [] [] = Unit
  AreTests testsuite [] (t ∷ tests) = ⊥
  AreTests testsuite (def ∷ defs) [] = ⊥
  AreTests testsuite (def ∷ defs) (t ∷ tests) =
      IsTest testsuite def t × AreTests testsuite defs tests

  abbrev pub IsTestsuite : List TestDef → SuiteDef → Testsuite → Type 0
  IsTestsuite defs def s = (s.def ≡ def) × AreTests s.address defs s.tests

  -- What is loaded from the symbol of a module.
  abbrev pub IsLoaded : Option SuiteDef → Testsuite → Type 0
  IsLoaded none s = ⊥
  IsLoaded (some def) s = IsSuite def × IsTestsuite def.tests def s

  abbrev pub AllPrint : List TestDef → Type 0
  AllPrint [] = Unit
  AllPrint (def ∷ defs) = Prints (provider_of def) (text def) × AllPrint defs

  abbrev pub ModulePrints : Option SuiteDef → Type 0
  ModulePrints none = Unit
  ModulePrints (some def) = AllPrint def.tests
