-- ===== src/Loader/Load/Examples.antt =====
-- A module of two tests, one with data, and what becomes of it when malloc fails.
use ctest.Prelude.{
  negsuc, ◌==◌, if◌then◌else◌, ℕ, zero, suc, ◌*◌, ◌+◌, ◌%◌, ◌≡◌, refl, sym, ℤ, pos, true, List, [],
  ◌∷◌, Option, none, some, take, length, length-replicate,
}
use ctest.Memory.{zeros, text_bytes}
use ctest.Loader.Load.{
  DataProvider, TestDef, SuiteDef, null_data_provider, null_to_string, TestcaseAnswers,
  ModuleAnswers,
}
use ctest.Loader.Load.Create.{provider_of, ctest_load_testsuite}
use ctest.Loader.Load.Loaded.{IsLoaded, IsGranted, Makes, Prints}
use ctest.Loader.Load.FromModule.{ctest_load_testsuite-IsLoaded}
use ctest.Loader.Load.{Testcase, Testsuite, def_name, buffer}
use ctest.Loader.Load.Names.{bracketed}
use ctest.Loader.Load.Registered.{
  find_testcase, all_testcases, registry_of, AreApart, runner_run_testsuites-loaded,
}
use ctest.Runner.Trace.{Host, live}
use ctest.Runner.Run.{runner_run_testsuites}
use ctest.Loader.Load.Settled.{block}
use ctest.Loader.Load.Freed.{Balanced, ctest_load_testsuite-Balanced}

-- Data at 1000 and 1004, printed as a letter.
abbrev letter : ℕ → List ℕ
letter e = (65 + e % 26) ∷ []

abbrev printed : (ℕ → List ℕ) → ℕ → ℕ → ℤ × List ℕ
printed text zero e = (pos (length (text e)), [])
printed text (suc n) e = (pos (length (text e)), text_bytes (take n (text e)))

abbrev letters : DataProvider
letters = record { elements = 1000; count = 2; size = 4; to_string = printed letter }

abbrev plain : TestDef
plain = record { name = 112 ∷ []; data_provider = none }

abbrev lettered : TestDef
lettered = record { name = 108 ∷ 116 ∷ []; data_provider = some letters }

abbrev text_of : TestDef → ℕ → List ℕ
text_of def e = elim def.data_provider [ none ↦ [] | some provider ↦ letter e ]

abbrev suite : SuiteDef
suite = record { magic = 0x72db2d; version = 0; name = 115 ∷ []; tests = plain ∷ lettered ∷ [] }

-- malloc for the names gives `named`.
abbrev testcase_answers : Option ℕ → ℕ → ℕ → TestcaseAnswers
testcase_answers named i j = record {
  block = some (100 + 10 * i + j);
  name_block = named;
  old = zeros;
}

abbrev answers : Option ℕ → ModuleAnswers
answers named = record {
  initialised = true;
  advised = true;
  advised_local = true;
  opened = true;
  suite_def = some suite;
  block = some 50;
  array = some 60;
  test = λ i. record {
    block = some (70 + i);
    array = some (80 + i);
    testcase = testcase_answers named i;
  };
}

letters-Prints : Prints letters letter
letters-Prints = record { gives = λ e. refl; writes = λ e n. refl }

take_nil : (n : ℕ) → text_bytes (take {A = ℕ} n []) ≡ 0 ∷ []
take_nil zero = refl
take_nil (suc n) = refl

null-Prints : Prints null_data_provider (λ e. [])
unfolding null_to_string
null-Prints = record { gives = λ e. refl; writes = λ e n. sym (take_nil n) }

ctest_load_testsuite-IsLoaded_example :
    Makes
      (IsLoaded text_of (some suite))
      (IsGranted (answers (some 90)))
      (ctest_load_testsuite (answers (some 90)))
unfolding provider_of
ctest_load_testsuite-IsLoaded_example =
    ctest_load_testsuite-IsLoaded text_of (answers (some 90)) (null-Prints, (letters-Prints, tt))
      (λ j k n. length-replicate n 0)

ctest_load_testsuite-Balanced_example :
    Balanced (block 60) (some 60) (ctest_load_testsuite (answers none))
ctest_load_testsuite-Balanced_example = ctest_load_testsuite-Balanced (block 60) (answers none)

-- What is loaded, as a suite.
abbrev letter_case : ℕ → ℕ → Testcase
letter_case i e = record {
  address = 110 + i;
  test = 71;
  name = buffer 90 (bracketed (108 ∷ 116 ∷ []) (letter e));
  element = e;
}

abbrev loaded : Testsuite
loaded = record {
  address = 50;
  def = suite;
  array = some 60;
  tests =
      record {
        address = 70;
        testsuite = 50;
        def = plain;
        array = 80;
        testcases =
            record { address = 100; test = 70; name = def_name (112 ∷ []); element = 0 } ∷ [];
      }
      ∷ record {
        address = 71;
        testsuite = 50;
        def = lettered;
        array = 81;
        testcases = letter_case 0 1000 ∷ letter_case 1 1004 ∷ [];
      }
      ∷ [];
}

loaded-IsLoaded : IsLoaded text_of (some suite) loaded
unfolding provider_of
loaded-IsLoaded = (
  (refl, refl),
  (
    refl,
    (
      (refl, refl, ((refl, refl, refl), tt)),
      ((refl, refl, ((refl, refl, refl), ((refl, refl, refl), tt))), tt),
    ),
  ),
)

loaded-AreApart : AreApart (all_testcases loaded.tests)
unfolding find_testcase
loaded-AreApart = (refl, (refl, (refl, tt)))

-- The callback breaks off at the first letter.
abbrev broken_off : Host
broken_off = record { reports = λ t e. true; outcome = λ t k. if k == 110 then negsuc 0 else pos 1 }

runner_run_testsuites-loaded_example :
    live (registry_of loaded) (runner_run_testsuites (registry_of loaded) broken_off (50 ∷ []) []).1
    ≡ some []
runner_run_testsuites-loaded_example =
    runner_run_testsuites-loaded text_of (some suite) loaded broken_off loaded-IsLoaded
      loaded-AreApart
