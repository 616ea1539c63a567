-- ===== src/MergeQueue/Ci.antt =====
-- internal/mergequeue/ci.go: starting the CI jobs of a pull request. The jobs run one after the
-- other here and their results arrive in that order; in the program they run side by side.
use directorius.Prelude.{ℕ, String, Option, none, some, List, [], ◌∷◌, lookup, insert}
use directorius.Errors.{Err, Result, ok, err, message, wrapped}
use directorius.Retry.{run}
use directorius.MergeQueue.PullRequest.{Build, set_last_started_ci_builds}
use directorius.MergeQueue.World.{Ref, Env, World, set_pr, build, get_build}

-- One attempt of `Client.Build`.
abbrev pub try_build : Env → String → World × ℕ → (World × ℕ) × Option Err
try_build env job (w, id) =
    let calls = build job ∷ w.calls in
    elim (env.build calls) [
      | ok id' ↦ ((record w { calls = calls }, id'), none)
      | err e ↦ ((record w { calls = calls }, id), some e)
    ]

-- One attempt of `Client.GetBuildFromQueueItemID`.
abbrev pub try_get_build : Env → ℕ → World × Option Build → (World × Option Build) × Option Err
try_get_build env id (w, b) =
    let calls = get_build id ∷ w.calls in
    elim (env.get_build calls) [
      | ok b' ↦ ((record w { calls = calls }, some b'), none)
      | err e ↦ ((record w { calls = calls }, b), some e)
    ]

-- The second half of `runCIJob`. A nil build with no error does not occur.
unfoldable pub await_build : Env → ℕ → World → World × Result Build
await_build env id w =
    let ((w', b), failed) = run (env.schedule w.calls) (try_get_build env id) (w, none) in
    elim failed [
      | some e ↦ (w', err (wrapped "retrieving build information for queue item failed" e))
      | none ↦ elim b [ some b ↦ (w', ok b) | none ↦ (w', err (message "nil build")) ]
    ]

-- `runCIJob`
unfoldable pub run_ci_job : Env → Ref → String → World → World × Result Build
unfolding await_build
run_ci_job env r template w = elim (env.template template (w.prs r).number (w.prs r).branch) [
  | err e ↦ (w, err (wrapped "templating jenkins job failed" e))
  | ok job ↦
      let ((w', id), failed) = run (env.schedule w.calls) (try_build env job) (w, 0) in
      elim failed [
        | some e ↦ (w', err (wrapped "triggering ci build failed" e))
        | none ↦ await_build env id w'
      ]
]

-- The first loop of `CI.Run`: the results of the jobs that are configured.
unfoldable pub run_jobs : Env → Ref → List String → World → World × List (Result Build)
unfolding run_ci_job
run_jobs env r [] w = (w, [])
run_jobs env r (context ∷ contexts) w = elim (lookup (env.to_lower context) env.jobs) [
  | none ↦ run_jobs env r contexts w
  | some template ↦
      let (w₁, result) = run_ci_job env r template w in
      let (w₂, results) = run_jobs env r contexts w₁ in (w₂, result ∷ results)
]

-- The second loop of `CI.Run` over the results, in the order in which they arrive: the started
-- builds by the name of their job, and the errors.
unfoldable pub collect :
    List (String × Build) → List (Result Build) → List (String × Build) × List Err
collect builds [] = (builds, [])
collect builds (ok b ∷ results) = collect (insert b.job_name b builds) results
collect builds (err e ∷ results) =
    let (builds', errs) = collect builds results in (builds', e ∷ errs)

-- `errors.Join`
abbrev pub join : List Err → Option Err
join [] = none
join (e ∷ errs) = some (wrapped "joined" e)

-- `CI.Run`: the error is that of the jobs that could not be started.
unfoldable pub ci_run : Env → Ref → List String → World → World × Option Err
unfolding run_jobs collect
ci_run env r contexts w =
    let (w', results) = run_jobs env r contexts w in
    let (builds, errs) = collect [] results in
    (set_pr (set_last_started_ci_builds builds) r w', join errs)
