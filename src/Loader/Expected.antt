-- ===== src/Loader/Expected.antt =====
-- What the hooks are to be told of a test case that src/exec/loader.c executes, said without the
-- state of the execution.
use ctest.Prelude.{ℕ, ◌≡◌, refl, List, [], ◌∷◌, Option, none, some}
use ctest.Loader.{
  AbortType, abort_none, abort_skip, abort_fail, Act, report, abort, Failure, Told, on_stage_change,
  on_skip, on_failure, stage_setup, stage_execution, stage_teardown,
}
use ctest.Loader.Execute.{failure_create, keep_first, keep_type, ends_with}

-- The failure after a function of the module that is in `stage`: the first one reported whose text
-- could be kept.
abbrev pub first_failure : ℕ → List Act → Option Failure → Option Failure
first_failure stage acts (some f) = some f
first_failure stage [] none = none
first_failure stage (report (some text) ∷ acts) none = some (record { stage = stage; text = text })
first_failure stage (report none ∷ acts) none = first_failure stage acts none
first_failure stage (abort t ∷ acts) none = none

-- The abort with which a function ends, if it does.
abbrev pub first_abort : List Act → Option AbortType
first_abort [] = none
first_abort (report text ∷ acts) = first_abort acts
first_abort (abort t ∷ acts) = some t

-- The abort that counts: the first, and one of the teardown if that was of no type.
abbrev pub winner : AbortType → Option AbortType → AbortType
winner abort_none (some t) = t
winner t o = t

-- The hook for an abort.
abbrev pub ending : AbortType → Option Failure → Told
ending abort_none f = on_failure f
ending abort_skip f = on_skip f
ending abort_fail f = on_failure f

-- The functions of a teardown, none of which is called if there is none.
abbrev pub acts_of : Option (List Act) → List Act
acts_of none = []
acts_of (some acts) = acts

-- What an abort of type `t` tells, with the failure so far: the teardown runs in the same stage.
abbrev pub aborted : ℕ → AbortType → Option (List Act) → Option Failure → Told
aborted stage t teardown f =
    ending (winner t (first_abort (acts_of teardown))) (first_failure stage (acts_of teardown) f)

-- What is told after the test: a failure without an abort is a failure.
abbrev pub completed : Option AbortType → Option Failure → List Told
completed (some t) f = ending t f ∷ []
completed none none = []
completed none (some f) = on_failure (some f) ∷ []

-- From each stage on, by the abort in it.
abbrev pub from_execution : Option AbortType → Option (List Act) → Option Failure → List Told
from_execution (some t) teardown f = aborted stage_execution t teardown f ∷ []
from_execution none teardown f =
    on_stage_change stage_teardown
    ∷ completed (first_abort (acts_of teardown)) (first_failure stage_teardown (acts_of teardown) f)

abbrev pub from_setup : Option AbortType → List Act → Option (List Act) → Option Failure → List Told
from_setup (some t) body teardown f = aborted stage_setup t teardown f ∷ []
from_setup none body teardown f =
    on_stage_change stage_execution
    ∷ from_execution (first_abort body) teardown (first_failure stage_execution body f)

pub first_failure-nil : (stage : ℕ) (f : Option Failure) → first_failure stage [] f ≡ f
first_failure-nil stage none = refl
first_failure-nil stage (some f) = refl

pub first_failure-abort :
    (stage : ℕ) (t : AbortType) (acts : List Act) (f : Option Failure)
    → first_failure stage (abort t ∷ acts) f ≡ f
first_failure-abort stage t acts none = refl
first_failure-abort stage t acts (some f) = refl

pub first_failure-report :
    (stage : ℕ) (text : Option ℕ) (acts : List Act) (f : Option Failure)
    → first_failure stage acts (keep_first f (failure_create stage text))
      ≡ first_failure stage (report text ∷ acts) f
unfolding keep_first failure_create
first_failure-report stage none acts none = refl
first_failure-report stage (some text) acts none = refl
first_failure-report stage text acts (some f) = refl

-- What an abort in the teardown adds to the type of the abort that called it.
abbrev pub or_type : Option AbortType → AbortType → AbortType
or_type none t = t
or_type (some t') t = keep_type t t'

pub ends_with-winner :
    (o : Option AbortType) (t : AbortType) (f : Option Failure)
    → ends_with (or_type o (keep_type abort_none t)) f ≡ ending (winner t o) f
unfolding ends_with keep_type
ends_with-winner none abort_none f = refl
ends_with-winner none abort_skip f = refl
ends_with-winner none abort_fail f = refl
ends_with-winner (some abort_none) abort_none f = refl
ends_with-winner (some abort_skip) abort_none f = refl
ends_with-winner (some abort_fail) abort_none f = refl
ends_with-winner (some t) abort_skip f = refl
ends_with-winner (some t) abort_fail f = refl

pub winner-none : (t : AbortType) → winner t none ≡ t
winner-none abort_none = refl
winner-none abort_skip = refl
winner-none abort_fail = refl
