-- ===== src/Loader/Load/Settled.antt =====
-- What the creation of tests in src/exec/loader.c takes from the system, and what it and the
-- destructors give back.
use ctest.Prelude.{
  ℕ, zero, suc, ◌+◌, ◌*◌, ◌≡◌, refl, ℤ, pos, negsuc, Bool, true, false, List, [], ◌∷◌, ◌++◌, Option,
  none, some, ◌==◌, if◌then◌else◌, total, total-append, arith,
}
use ctest.Loader.Load.{
  DataProvider, TestDef, Name, Testcase, Test, Act, allocate, release, dlinit, dlexit,
  dladvise_init, dladvise_destroy, dlopen, dlclose, TestcaseAnswers, TestAnswers, in_buffer,
  make_name, complete_testcase, testcase_at, testcase_create, destroy_name, testcase_destroy,
}
use ctest.Loader.Load.Create.{
  destroy_testcases, next_created, create_testcases, provider_of, end_test, test_at, test_create,
  test_destroy, destroy_tests, create_tests,
}

-- The blocks at each address, the library, the advice for it and the module.
pub data Resource : Type 0 where
  block : ℕ → Resource
  library : Resource
  advice : Resource
  module_handle : Resource

abbrev pub takes : Resource → Act → ℕ
takes (block b) (allocate a) = if a == b then 1 else 0
takes library dlinit = 1
takes advice dladvise_init = 1
takes module_handle dlopen = 1
takes r act = 0

abbrev pub gives : Resource → Act → ℕ
gives (block b) (release a) = if a == b then 1 else 0
gives library dlexit = 1
gives advice dladvise_destroy = 1
gives module_handle dlclose = 1
gives r act = 0

abbrev pub Undoes : Resource → Act → Act → Type 0
Undoes r act undo = (takes r act ≡ gives r undo) × (takes r undo ≡ 0) × (gives r act ≡ 0)

pub release-Undoes : (r : Resource) (a : ℕ) → Undoes r (allocate a) (release a)
release-Undoes (block b) a = (refl, refl, refl)
release-Undoes library a = (refl, refl, refl)
release-Undoes advice a = (refl, refl, refl)
release-Undoes module_handle a = (refl, refl, refl)

pub dlexit-Undoes : (r : Resource) → Undoes r dlinit dlexit
dlexit-Undoes (block b) = (refl, refl, refl)
dlexit-Undoes library = (refl, refl, refl)
dlexit-Undoes advice = (refl, refl, refl)
dlexit-Undoes module_handle = (refl, refl, refl)

pub dladvise_destroy-Undoes : (r : Resource) → Undoes r dladvise_init dladvise_destroy
dladvise_destroy-Undoes (block b) = (refl, refl, refl)
dladvise_destroy-Undoes library = (refl, refl, refl)
dladvise_destroy-Undoes advice = (refl, refl, refl)
dladvise_destroy-Undoes module_handle = (refl, refl, refl)

pub dlclose-Undoes : (r : Resource) → Undoes r dlopen dlclose
dlclose-Undoes (block b) = (refl, refl, refl)
dlclose-Undoes library = (refl, refl, refl)
dlclose-Undoes advice = (refl, refl, refl)
dlclose-Undoes module_handle = (refl, refl, refl)

module _ (r : Resource) where
  abbrev pub t : List Act → ℕ
  t acts = total (takes r) acts

  abbrev pub g : List Act → ℕ
  g acts = total (gives r) acts

  -- `undo` gives back what is left after `acts`.
  abbrev pub Settles : List Act → List Act → Type 0
  Settles acts undo = t acts + t undo ≡ g acts + g undo

  -- Two pieces of work, and the two that undo them.
  pub Settles-append :
      (acts more undo undo' : List Act)
      → Settles acts undo
      → Settles more undo'
      → Settles (acts ++ more) (undo ++ undo')
  Settles-append acts more undo undo' s s' = omega (
    arith,
    s,
    s',
    total-append (takes r) acts more,
    total-append (gives r) acts more,
    total-append (takes r) undo undo',
    total-append (gives r) undo undo',
  )

  -- A block in front of what is done, and behind what undoes it.
  pub Settles-block :
      (a : ℕ) (acts undo : List Act)
      → Settles acts undo
      → Settles (allocate a ∷ acts) (undo ++ (release a ∷ []))
  Settles-block a acts undo s =
      let (e, e', e'') = release-Undoes r a in
      omega (
        arith,
        s,
        e,
        e',
        e'',
        total-append (takes r) undo (release a ∷ []),
        total-append (gives r) undo (release a ∷ []),
      )

  -- What is undone at once.
  pub Settles-done : (acts undo : List Act) → Settles acts undo → Settles (acts ++ undo) []
  Settles-done acts undo s =
      omega (arith, s, total-append (takes r) acts undo, total-append (gives r) acts undo)

  -- A result and what undoes it: nothing if there is none.
  abbrev pub SettlesResult : {A : Type 0} → (A → List Act) → Option A × List Act → Type 0
  SettlesResult undo (none, acts) = Settles acts []
  SettlesResult undo (some a, acts) = Settles acts (undo a)

  in_buffer-Settles :
      (name : List ℕ) (n : ℕ) (write old : ℕ → List ℕ) (answer : Option ℕ)
      → SettlesResult destroy_name (in_buffer name n write old answer)
  unfolding in_buffer destroy_name
  in_buffer-Settles name n write old none = refl
  in_buffer-Settles name n write old (some a) = Settles-block a [] [] refl

  make_name-Settles :
      (data_length : ℤ) (name : List ℕ) (write old : ℕ → List ℕ) (answer : Option ℕ)
      → SettlesResult destroy_name (make_name data_length name write old answer)
  unfolding make_name destroy_name
  make_name-Settles (pos (suc n)) name write old answer =
      in_buffer-Settles name (suc n) write old answer
  make_name-Settles (pos zero) name write old answer = refl
  make_name-Settles (negsuc n) name write old answer = refl

  complete_testcase-Settles :
      (a test element : ℕ) (named : Option Name × List Act)
      → SettlesResult destroy_name named
      → SettlesResult testcase_destroy (complete_testcase a test element named)
  unfolding complete_testcase testcase_destroy
  complete_testcase-Settles a test element (none, acts) s =
      Settles-done (allocate a ∷ acts) (release a ∷ []) (Settles-block a acts [] s)
  complete_testcase-Settles a test element (some name, acts) s =
      Settles-block a acts (destroy_name name) s

  testcase_at-Settles :
      (block : Option ℕ) (test : ℕ) (def : TestDef) (provider : DataProvider) (element : ℕ)
      (answers : TestcaseAnswers)
      → SettlesResult testcase_destroy (testcase_at block test def provider element answers)
  unfolding testcase_at
  testcase_at-Settles none test def provider element answers = refl
  testcase_at-Settles (some a) test def provider element answers =
      complete_testcase-Settles a test element _ (
        make_name-Settles (provider.to_string 0 element).0 def.name
          (λ len. (provider.to_string len element).1) answers.old answers.name_block)

  -- A loop that creates, and what destroys what it has created.
  abbrev pub SettlesAll : {A : Type 0} → (List A → List Act) → Bool × List A × List Act → Type 0
  SettlesAll undo (all, made, acts) = Settles acts (undo made)

  next_testcase-Settles :
      (one : Option Testcase × List Act) (later : Bool × List Testcase × List Act)
      → SettlesResult testcase_destroy one
      → SettlesAll destroy_testcases later
      → SettlesAll destroy_testcases (next_created one later)
  unfolding next_created destroy_testcases
  next_testcase-Settles (none, acts) later s s' = s
  next_testcase-Settles (some tc, acts) (all, more, acts') s s' =
      Settles-append acts acts' (testcase_destroy tc) (destroy_testcases more) s s'

  create_testcases-Settles :
      (test : ℕ) (def : TestDef) (provider : DataProvider) (answers : ℕ → TestcaseAnswers) (i n : ℕ)
      → SettlesAll destroy_testcases (create_testcases test def provider answers i n)
  unfolding create_testcases destroy_testcases testcase_create
  create_testcases-Settles test def provider answers i zero = refl
  create_testcases-Settles test def provider answers i (suc n) =
      next_testcase-Settles _ _
        (testcase_at-Settles (answers i).block test def provider
          (provider.elements + i * provider.size) (answers i))
        (create_testcases-Settles test def provider answers (suc i) n)

  pub two_blocks :
      (a b : ℕ) (acts undo : List Act)
      → Settles acts undo
      → Settles (allocate a ∷ allocate b ∷ acts) (undo ++ (release b ∷ release a ∷ []))
  two_blocks a b acts undo s =
      let (e, e', e'') = release-Undoes r a in
      let (f, f', f'') = release-Undoes r b in
      omega (
        arith,
        s,
        e,
        e',
        e'',
        f,
        f',
        f'',
        total-append (takes r) undo (release b ∷ release a ∷ []),
        total-append (gives r) undo (release b ∷ release a ∷ []),
      )

  end_test-Settles :
      (testsuite : ℕ) (def : TestDef) (a array : ℕ) (created : Bool × List Testcase × List Act)
      → SettlesAll destroy_testcases created
      → SettlesResult test_destroy (end_test testsuite def a array created)
  unfolding end_test test_destroy
  end_test-Settles testsuite def a array (true, testcases, acts) s =
      two_blocks a array acts (destroy_testcases testcases) s
  end_test-Settles testsuite def a array (false, testcases, acts) s =
      Settles-done (allocate a ∷ allocate array ∷ acts)
        (destroy_testcases testcases ++ (release array ∷ release a ∷ []))
        (two_blocks a array acts (destroy_testcases testcases) s)

  test_at-Settles :
      (block array : Option ℕ) (testsuite : ℕ) (def : TestDef) (answers : ℕ → TestcaseAnswers)
      → SettlesResult test_destroy (test_at block array testsuite def answers)
  unfolding test_at
  test_at-Settles none array testsuite def answers = refl
  test_at-Settles (some a) none testsuite def answers =
      Settles-done (allocate a ∷ []) (release a ∷ []) (Settles-block a [] [] refl)
  test_at-Settles (some a) (some array) testsuite def answers =
      end_test-Settles testsuite def a array _
        (create_testcases-Settles a def (provider_of def) answers 0 (provider_of def).count)

  next_test-Settles :
      (one : Option Test × List Act) (later : Bool × List Test × List Act)
      → SettlesResult test_destroy one
      → SettlesAll destroy_tests later
      → SettlesAll destroy_tests (next_created one later)
  unfolding next_created destroy_tests
  next_test-Settles (none, acts) later s s' = s
  next_test-Settles (some test, acts) (all, more, acts') s s' =
      Settles-append acts acts' (test_destroy test) (destroy_tests more) s s'

  pub create_tests-Settles :
      (testsuite : ℕ) (answers : ℕ → TestAnswers) (i : ℕ) (defs : List TestDef)
      → SettlesAll destroy_tests (create_tests testsuite answers i defs)
  unfolding create_tests destroy_tests test_create
  create_tests-Settles testsuite answers i [] = refl
  create_tests-Settles testsuite answers i (def ∷ defs) =
      next_test-Settles _ _
        (test_at-Settles (answers i).block (answers i).array testsuite def (answers i).testcase)
        (create_tests-Settles testsuite answers (suc i) defs)
