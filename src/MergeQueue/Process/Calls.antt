-- ===== src/MergeQueue/Process/Calls.antt =====
-- internal/mergequeue/queue.go, queue_processpr.go and ci.go: the requests of `processPR` to GitHub
-- and Jenkins change no pull request.
use directorius.Prelude.{
  ℕ, String, false, ◌≡◌, refl, ap, Option, none, List, [], ◌∷◌, arith, Option-cases, ◌∙◌,
  lookup as lookup_text, inl, inr,
}
use directorius.Errors.{Result, ok, err, Result-cases}
use directorius.Retry.Laws.{run_preserves}
use directorius.Retry.{run}
use directorius.Github.Pages.{ReadyForMergeStatus}
use directorius.MergeQueue.PullRequest.{Build, set_last_started_ci_builds}
use directorius.MergeQueue.World.{Ref, Env, World}
use directorius.MergeQueue.World.Numbers.{SameNumbers, set_pr-SameNumbers}
use directorius.MergeQueue.Queue.{State}
use directorius.MergeQueue.Ci.{
  try_build, try_get_build, await_build, run_ci_job, run_jobs, collect, ci_run,
}
use directorius.MergeQueue.ProcessPr.{
  try_ready_for_merge, pr_ready_for_merge_status, Updating, after_update, try_update,
  update_pr_with_base,
}
use directorius.MergeQueue.Eval.{eval_ready, eval_pr_action}

module _ (env : Env) where
  try_ready-prs :
      (n : ℕ) (t : World × Option ReadyForMergeStatus)
      → (try_ready_for_merge env n t).0.0.prs ≡ t.0.prs
  try_ready-prs n (w, status) = ground arith

  -- The pull requests after a run of the retryer are those before.
  pub ready_status-prs : (r : Ref) (w : World) → (pr_ready_for_merge_status env r w).0.prs ≡ w.prs
  unfolding pr_ready_for_merge_status
  ready_status-prs r w =
      let n = (w.prs r).number in
      let kept =
        run_preserves (λ (t : World × Option ReadyForMergeStatus). t.0.prs ≡ w.prs)
          (try_ready_for_merge env n) (λ t p. try_ready-prs n t ∙ p) (env.schedule w.calls)
          (w, none) refl in
      ground (arith, kept)

  try_update-prs : (poll n : ℕ) (u : Updating) → (try_update env poll n u).0.0.prs ≡ u.0.prs
  unfolding try_update after_update
  try_update-prs poll n (w, changed, head) = ground arith

  update-prs : (poll : ℕ) (r : Ref) (w : World) → (update_pr_with_base env poll r w).0.prs ≡ w.prs
  unfolding update_pr_with_base
  update-prs poll r w =
      let n = (w.prs r).number in
      let kept =
        run_preserves (λ (u : Updating). u.0.prs ≡ w.prs) (try_update env poll n)
          (λ u p. try_update-prs poll n u ∙ p) (env.schedule w.calls) (w, false, "") refl in
      ground (arith, kept)

  eval_ready-prs :
      (r : Ref) (s : State) (x : World × Result ReadyForMergeStatus)
      → (eval_ready env r s x).0.prs ≡ x.0.prs
  unfolding eval_ready
  eval_ready-prs r s (w, err e) = refl
  eval_ready-prs r s (w, ok status) = ground (arith, update-prs s.update_branch_poll_interval r w)

  -- `evalPRAction` changes no pull request.
  pub eval_pr_action-prs : (r : Ref) (s : State) → (eval_pr_action env r s).0.prs ≡ s.prs
  unfolding eval_pr_action
  eval_pr_action-prs r s =
      eval_ready-prs r s (pr_ready_for_merge_status env r s.world) ∙ ready_status-prs r s.world

  try_build-prs : (job : String) (t : World × ℕ) → (try_build env job t).0.0.prs ≡ t.0.prs
  try_build-prs job (w, id) = ground arith

  try_get_build-prs :
      (id : ℕ) (t : World × Option Build) → (try_get_build env id t).0.0.prs ≡ t.0.prs
  try_get_build-prs id (w, b) = ground arith

  await_build-prs : (id : ℕ) (w : World) → (await_build env id w).0.prs ≡ w.prs
  unfolding await_build
  await_build-prs id w =
      let kept =
        run_preserves (λ (t : World × Option Build). t.0.prs ≡ w.prs) (try_get_build env id)
          (λ t p. try_get_build-prs id t ∙ p) (env.schedule w.calls) (w, none) refl in
      ground (arith, kept)

  run_ci_job-prs :
      (r : Ref) (template : String) (w : World) → (run_ci_job env r template w).0.prs ≡ w.prs
  unfolding run_ci_job
  run_ci_job-prs r template w =
      elim (Result-cases (env.template template (w.prs r).number (w.prs r).branch)) [
        | inr (e, h) ↦ ground arith
        | inl (job, h) ↦
            let w' = (run (env.schedule w.calls) (try_build env job) (w, 0)).0.0 in
            let id = (run (env.schedule w.calls) (try_build env job) (w, 0)).0.1 in
            let kept =
              run_preserves (λ (t : World × ℕ). t.0.prs ≡ w.prs) (try_build env job)
                (λ t p. try_build-prs job t ∙ p) (env.schedule w.calls) (w, 0) refl in
            ground (arith, kept, await_build-prs id w')
      ]

  run_jobs-prs :
      (r : Ref) (contexts : List String) (w : World) → (run_jobs env r contexts w).0.prs ≡ w.prs
  unfolding run_jobs
  run_jobs-prs r [] w = refl
  run_jobs-prs r (c ∷ cs) w = elim (Option-cases (lookup_text (env.to_lower c) env.jobs)) [
    | inl e ↦ rw (e, run_jobs) (run_jobs-prs r cs w)
    | inr (template, e) ↦
        let w' = (run_ci_job env r template w).0 in
        ground (arith, run_ci_job-prs r template w, run_jobs-prs r cs w')
  ]

  pub ci_run-SameNumbers :
      (r : Ref) (contexts : List String) (w : World) → SameNumbers w (ci_run env r contexts w).0
  unfolding ci_run set_last_started_ci_builds
  ci_run-SameNumbers r contexts w =
      let w' = (run_jobs env r contexts w).0 in
      let builds = (collect [] (run_jobs env r contexts w).1).0 in
      let same = set_pr-SameNumbers (set_last_started_ci_builds builds) r w' refl in
      record { same = λ r'. same.same r' ∙ ap (λ prs. (prs r').number) (run_jobs-prs r contexts w) }
