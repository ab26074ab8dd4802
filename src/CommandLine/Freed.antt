-- ===== src/CommandLine/Freed.antt =====
-- What `run` of src/cli/main.c makes and destroys.
use ctest.Prelude.{
  total, total-append, ℕ, ◌+◌, ◌≡◌, refl, ap, ℤ, Bool, true, false, List, [], ◌∷◌, ◌++◌, Option,
  ◌==◌, if◌then◌else◌, map, arith,
}
use ctest.CommandLine.{
  RunOption, Act, load_testsuite, destroy_testsuite, create_reporter, destroy_reporter,
  create_runner, destroy_runner, Parsed, exits, runs, parse_options, load_all, end_load,
  load_testsuites, Env, with_runner, with_reporter, with_testsuites, run_parsed, run,
}

-- What is made and destroyed.
pub data Resource : Type 0 where
  testsuite : ℕ → Resource
  reporter : Resource
  runner : Resource

abbrev pub makes : Resource → Act → ℕ
makes (testsuite s) (load_testsuite n) = if n == s then 1 else 0
makes reporter create_reporter = 1
makes runner (create_runner isolated) = 1
makes r act = 0

abbrev pub destroys : Resource → Act → ℕ
destroys (testsuite s) (destroy_testsuite n) = if n == s then 1 else 0
destroys reporter destroy_reporter = 1
destroys runner destroy_runner = 1
destroys r act = 0

-- A suite is destroyed by the counterpart of the call that has made it.
made-destroyed :
    (r : Resource) (suites : List ℕ)
    → (total (destroys r) (map load_testsuite suites) ≡ 0)
      × (total (makes r) (map destroy_testsuite suites) ≡ 0)
      × (total (makes r) (map load_testsuite suites)
          ≡ total (destroys r) (map destroy_testsuite suites))
made-destroyed r [] = (refl, refl, refl)
made-destroyed (testsuite s) (n ∷ suites) =
    let (a, b, c) = made-destroyed (testsuite s) suites in
    (omega (arith, a), omega (arith, b), ap (λ k. (if n == s then 1 else 0) + k) c)
made-destroyed reporter (n ∷ suites) =
    let (a, b, c) = made-destroyed reporter suites in
    (omega (arith, a), omega (arith, b), omega (arith, c))
made-destroyed runner (n ∷ suites) =
    let (a, b, c) = made-destroyed runner suites in
    (omega (arith, a), omega (arith, b), omega (arith, c))

-- Everything made is destroyed.
abbrev pub IsFreed : List Act → Type 0
IsFreed acts = (r : Resource) → total (destroys r) acts ≡ total (makes r) acts

-- Suites are loaded, used and destroyed.
pub suites-IsFreed :
    (suites : List ℕ) (acts : List Act)
    → IsFreed acts
    → IsFreed (map load_testsuite suites ++ (acts ++ map destroy_testsuite suites))
suites-IsFreed suites acts freed r =
    let loads : List Act = map load_testsuite suites in
    let ends : List Act = map destroy_testsuite suites in
    let (a, b, c) = made-destroyed r suites in
    omega (
      arith,
      a,
      b,
      c,
      freed r,
      total-append (destroys r) loads (acts ++ ends),
      total-append (makes r) loads (acts ++ ends),
      total-append (destroys r) acts ends,
      total-append (makes r) acts ends,
    )

with_runner-IsFreed :
    (created isolated : Bool) (failure_count : List ℕ → ℤ) (suites : List ℕ)
    → IsFreed (with_runner created isolated failure_count suites).1
unfolding with_runner
with_runner-IsFreed false isolated failure_count suites r = refl
with_runner-IsFreed true isolated failure_count suites (testsuite s) = refl
with_runner-IsFreed true isolated failure_count suites reporter = refl
with_runner-IsFreed true isolated failure_count suites runner = refl

with_reporter-IsFreed :
    (created : Bool) (inner : ℕ × List Act)
    → IsFreed inner.1
    → IsFreed (with_reporter created inner).1
unfolding with_reporter
with_reporter-IsFreed false (status, acts) freed r = refl
with_reporter-IsFreed true (status, acts) freed (testsuite s) = omega (
  arith,
  freed (testsuite s),
  total-append (destroys (testsuite s)) acts (destroy_reporter ∷ []),
  total-append (makes (testsuite s)) acts (destroy_reporter ∷ []),
)
with_reporter-IsFreed true (status, acts) freed reporter = omega (
  arith,
  freed reporter,
  total-append (destroys reporter) acts (destroy_reporter ∷ []),
  total-append (makes reporter) acts (destroy_reporter ∷ []),
)
with_reporter-IsFreed true (status, acts) freed runner = omega (
  arith,
  freed runner,
  total-append (destroys runner) acts (destroy_reporter ∷ []),
  total-append (makes runner) acts (destroy_reporter ∷ []),
)

with_end_load-IsFreed :
    (loaded : Bool × List ℕ) (use_suites : List ℕ → ℕ × List Act)
    → ((suites : List ℕ) → IsFreed (use_suites suites).1)
    → IsFreed (with_testsuites (end_load loaded) use_suites).1
unfolding with_testsuites end_load
with_end_load-IsFreed (true, suites) use_suites freed =
    suites-IsFreed suites (use_suites suites).1 (freed suites)
with_end_load-IsFreed (false, suites) use_suites freed = suites-IsFreed suites [] (λ r. refl)

with_testsuites-IsFreed :
    (allocated : Bool) (files : List (Option ℕ)) (use_suites : List ℕ → ℕ × List Act)
    → ((suites : List ℕ) → IsFreed (use_suites suites).1)
    → IsFreed (with_testsuites (load_testsuites allocated files) use_suites).1
unfolding with_testsuites load_testsuites
with_testsuites-IsFreed false files use_suites freed = λ r. refl
with_testsuites-IsFreed true files use_suites freed =
    with_end_load-IsFreed (load_all files) use_suites freed

run_parsed-IsFreed : (parsed : Parsed) (env : Env) → IsFreed (run_parsed parsed env).1
unfolding run_parsed
run_parsed-IsFreed (exits status) env = λ r. refl
run_parsed-IsFreed (runs isolated) env =
    with_testsuites-IsFreed env.allocated env.files
      (λ suites.
        with_reporter env.reporter_created
          (with_runner env.runner_created isolated env.failure_count suites))
      (λ suites.
        with_reporter-IsFreed env.reporter_created
          (with_runner env.runner_created isolated env.failure_count suites)
          (with_runner-IsFreed env.runner_created isolated env.failure_count suites))

-- Whatever the options are and whatever fails, `run` destroys each suite, the reporter and the
-- runner as often as it makes it.
pub run-IsFreed :
    (options : List RunOption) (env : Env) (r : Resource)
    → total (destroys r) (run options env).1 ≡ total (makes r) (run options env).1
unfolding run
run-IsFreed options env = run_parsed-IsFreed (parse_options true options) env
