-- ===== src/Loader/Load.antt =====
-- The loading of a test module in src/exec/loader.c: the suite, its tests and their test cases as data,
-- and the creation of a test case, with what is allocated and released on the way.
pub mod Names
pub mod Loaded
pub mod Made
pub mod FromModule
pub mod Registered
pub mod Settled
pub mod Create
pub mod Freed
mod Examples
use ctest.Prelude.{
  ℕ, zero, suc, ◌+◌, ◌*◌, ℤ, pos, negsuc, Bool, true, false, List, [], ◌∷◌, ◌++◌, Option, none,
  some, ◌&&◌, ◌==◌, length,
}
use ctest.Memory.{store}

-- `ctest_def_data_provider_t__`. The function to_string takes the length of a buffer and the address
-- of the data; it gives its value and the bytes that it writes.
pub record DataProvider : Type 0 where
  pub elements : ℕ
  pub count : ℕ
  pub size : ℕ
  pub to_string : ℕ → ℕ → ℤ × List ℕ

-- `ctest_def_test_t__` without the functions that a test case calls.
pub record TestDef : Type 0 where
  pub name : List ℕ
  pub data_provider : Option DataProvider

-- `ctest_def_suite_t__`
pub record SuiteDef : Type 0 where
  pub magic : ℕ
  pub version : ℕ
  pub name : List ℕ
  pub tests : List TestDef

unfoldable pub null_to_string : ℕ → ℕ → ℤ × List ℕ
null_to_string zero address = (pos 0, [])
null_to_string (suc len) address = (pos 0, 0 ∷ [])

abbrev pub null_data_provider : DataProvider
null_data_provider = record { elements = 0; count = 1; size = 0; to_string = null_to_string }

-- The name of a test case: that of its test, or a buffer of its own.
pub data Name : Type 0 where
  def_name : List ℕ → Name
  buffer : ℕ → List ℕ → Name

pub record Testcase : Type 0 where
  pub address : ℕ
  pub test : ℕ
  pub name : Name
  pub element : ℕ

pub record Test : Type 0 where
  pub address : ℕ
  pub testsuite : ℕ
  pub def : TestDef
  pub array : ℕ
  pub testcases : List Testcase

pub record Testsuite : Type 0 where
  pub address : ℕ
  pub def : SuiteDef
  pub array : Option ℕ
  pub tests : List Test

-- What is taken from the system and given back.
pub data Act : Type 0 where
  allocate : ℕ → Act
  release : ℕ → Act
  dlinit : Act
  dlexit : Act
  dladvise_init : Act
  dladvise_destroy : Act
  dlopen : Act
  dlclose : Act

-- The answers of calloc for a test case and of malloc for its name, an address or NULL; `old` is what
-- is in the buffer of the name.
pub record TestcaseAnswers : Type 0 where
  pub block : Option ℕ
  pub name_block : Option ℕ
  pub old : ℕ → List ℕ

pub record TestAnswers : Type 0 where
  pub block : Option ℕ
  pub array : Option ℕ
  pub testcase : ℕ → TestcaseAnswers

-- What the system answers to ctest_load_testsuite; `suite_def` is what the symbol of the module
-- points to.
pub record ModuleAnswers : Type 0 where
  pub initialised : Bool
  pub advised : Bool
  pub advised_local : Bool
  pub opened : Bool
  pub suite_def : Option SuiteDef
  pub block : Option ℕ
  pub array : Option ℕ
  pub test : ℕ → TestAnswers

-- name[data], in a buffer of `length name + 1 + n + 1 + 1` bytes; `write len` is what to_string
-- writes into a buffer of `len`.
unfoldable pub format_name : List ℕ → ℕ → (ℕ → List ℕ) → List ℕ → List ℕ
format_name name n write block =
    let block = store 0 name block in
    let block = store (length name) (91 ∷ []) block in
    let block = store (length name + 1) (write (n + 1 + 1)) block in
    let block = store (length name + 1 + n) (93 ∷ []) block in
    store (length name + 1 + n + 1) (0 ∷ []) block

unfoldable pub in_buffer :
    List ℕ → ℕ → (ℕ → List ℕ) → (ℕ → List ℕ) → Option ℕ → Option Name × List Act
in_buffer name n write old none = (none, [])
in_buffer name n write old (some a) = (
  some (buffer a (format_name name n write (old (length name + 1 + n + 1 + 1)))),
  allocate a ∷ [],
)

-- By `data_length`.
unfoldable pub make_name :
    ℤ → List ℕ → (ℕ → List ℕ) → (ℕ → List ℕ) → Option ℕ → Option Name × List Act
make_name (pos (suc n)) name write old answer = in_buffer name (suc n) write old answer
make_name (pos zero) name write old answer = (some (def_name name), [])
make_name (negsuc n) name write old answer = (some (def_name name), [])

unfoldable pub complete_testcase : ℕ → ℕ → ℕ → Option Name × List Act → Option Testcase × List Act
complete_testcase a test element (none, acts) = (none, allocate a ∷ (acts ++ (release a ∷ [])))
complete_testcase a test element (some name, acts) =
    (some (record { address = a; test = test; name = name; element = element }), allocate a ∷ acts)

-- testcase_create__ after its calloc; `test` is the address of the test.
unfoldable pub testcase_at :
    Option ℕ → ℕ → TestDef → DataProvider → ℕ → TestcaseAnswers → Option Testcase × List Act
testcase_at none test def provider element answers = (none, [])
testcase_at (some a) test def provider element answers = complete_testcase a test element (
    make_name (provider.to_string 0 element).0 def.name (λ len. (provider.to_string len element).1)
      answers.old answers.name_block)

-- testcase_create__ for the element `index`.
unfoldable pub testcase_create :
    ℕ → TestDef → DataProvider → ℕ → TestcaseAnswers → Option Testcase × List Act
testcase_create test def provider index answers =
    testcase_at answers.block test def provider (provider.elements + index * provider.size) answers

-- `if (testcase->name != testcase->test->def->name)`
unfoldable pub destroy_name : Name → List Act
destroy_name (def_name name) = []
destroy_name (buffer a bytes) = release a ∷ []

unfoldable pub testcase_destroy : Testcase → List Act
testcase_destroy tc = destroy_name tc.name ++ (release tc.address ∷ [])
