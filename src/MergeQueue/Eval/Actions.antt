-- ===== src/MergeQueue/Eval/Actions.antt =====
-- internal/mergequeue/queue_processpr.go: what `evalPRAction` decides.
use directorius.Prelude.{
  ℕ, String, Bool, true, false, ◌≡◌, refl, ◌&&◌, not, List, [], ◌∷◌, any, arith, Bool-cases, inl,
  inr,
}
use directorius.Errors.{Result, ok, err, Result-cases}
use directorius.Github.CiStatus.{CiStatus}
use directorius.Github.Pages.{ReadyForMergeStatus}
use directorius.MergeQueue.PullRequest.{PullRequest}
use directorius.MergeQueue.World.{Ref, Env}
use directorius.MergeQueue.Queue.{State}
use directorius.MergeQueue.ProcessPr.{
  Action, RequiredActions, action_trigger_ci_jobs, action_suspend, action_dequeue,
  pr_ready_for_merge_status, update_pr_with_base, is_pr_stale, expected_ci_jobs,
}
use directorius.MergeQueue.Eval.{
  is_approved, eval_failure, eval_ci_status, eval_updated, eval_ready, eval_pr_action,
}

abbrev pub is_trigger : Action → Bool
is_trigger action_trigger_ci_jobs = true
is_trigger _ = false

-- The action takes the pull request out of the active queue.
abbrev pub is_removal : Action → Bool
is_removal action_suspend = true
is_removal action_dequeue = true
is_removal _ = false

abbrev pub triggers : Result RequiredActions → Bool
triggers (ok a) = any is_trigger a.actions
triggers (err e) = false

abbrev pub removes : Result RequiredActions → Bool
removes (ok a) = any is_removal a.actions
removes (err e) = false

-- No action follows one that takes the pull request out of the active queue.
abbrev pub removal_is_last : List Action → Bool
removal_is_last [] = true
removal_is_last (a ∷ []) = true
removal_is_last (a ∷ b ∷ actions) = not (is_removal a) && removal_is_last (b ∷ actions)

abbrev pub result_is_last : Result RequiredActions → Bool
result_is_last (ok a) = removal_is_last a.actions
result_is_last (err e) = true

abbrev pub is_expected : CiStatus → Bool
is_expected CiStatus.expected = true
is_expected _ = false

eval_failure_lem :
    (env : Env) (p : PullRequest) (status : ReadyForMergeStatus) (head : String)
    → (triggers (eval_failure env p status head) ≡ false)
      × (result_is_last (eval_failure env p status head) ≡ true)
unfolding eval_failure
eval_failure_lem env p status head = ground arith

module _ (env : Env) (timeout : ℕ) (p : PullRequest) (status : ReadyForMergeStatus) where
  eval_ci_status_lem :
      (head : String) (ci : CiStatus)
      → (triggers (eval_ci_status env p status head ci) ≡ is_expected ci)
        × (result_is_last (eval_ci_status env p status head ci) ≡ true)
  unfolding eval_ci_status
  eval_ci_status_lem head CiStatus.success = (refl, refl)
  eval_ci_status_lem head CiStatus.pending = (refl, refl)
  eval_ci_status_lem head CiStatus.expected = (refl, refl)
  eval_ci_status_lem head CiStatus.failure = eval_failure_lem env p status head
  eval_ci_status_lem head (CiStatus.unknown s) = (refl, refl)

  eval_updated_lem :
      (updated : Result (Bool × String))
      → result_is_last (eval_updated env timeout p status updated) ≡ true
  unfolding eval_updated
  eval_updated_lem (err e) = ground arith
  eval_updated_lem (ok (changed, head)) = ground (arith, eval_ci_status_lem head status.ci_status)

  -- CI jobs are triggered only for a pull request that is not stale, that the update left as it
  -- was, and whose status is expected.
  eval_updated-trigger :
      (updated : Result (Bool × String)) (a : RequiredActions)
      → eval_updated env timeout p status updated ≡ ok a
      → any is_trigger a.actions ≡ true
      → (head : String) × (updated ≡ ok (false, head))
        × (is_pr_stale env.now timeout p ≡ false)
        × (is_expected status.ci_status ≡ true)
        × (eval_ci_status env p status head status.ci_status ≡ ok a)
  unfolding eval_updated
  eval_updated-trigger (err e) a h t = ground arith
  eval_updated-trigger (ok (true, head)) a h t = ground arith
  eval_updated-trigger (ok (false, head)) a h t =
      let l = eval_ci_status_lem head status.ci_status in
      (head, refl, ground (arith, l), ground (arith, l), ground (arith, l))

  eval_ci_status-expected :
      (head : String) (ci : CiStatus) (a : RequiredActions)
      → is_expected ci ≡ true
      → eval_ci_status env p status head ci ≡ ok a
      → (a.head_commit_id ≡ head) × (a.expected_ci_runs ≡ expected_ci_jobs status.statuses)
  unfolding eval_ci_status
  eval_ci_status-expected head CiStatus.expected a e h = ground arith
  eval_ci_status-expected head CiStatus.success a e h = ground arith
  eval_ci_status-expected head CiStatus.pending a e h = ground arith
  eval_ci_status-expected head CiStatus.failure a e h = ground arith
  eval_ci_status-expected head (CiStatus.unknown s) a e h = ground arith

-- What holds when `evalPRAction` decides to trigger CI jobs: the pull request is approved, updating
-- it with its base branch changed nothing, it is not stale, and the status of the jobs that are
-- triggered, for the commit that the update returned, is expected.
pub record MayTrigger (env : Env) (r : Ref) (s : State) (a : RequiredActions) : Type 0 where
  status : ReadyForMergeStatus
  is_ready : (pr_ready_for_merge_status env r s.world).1 ≡ ok status
  approved : is_approved status.review_decision ≡ true
  unchanged :
      (update_pr_with_base env s.update_branch_poll_interval r
        (pr_ready_for_merge_status env r s.world).0).1
      ≡ ok (false, a.head_commit_id)
  not_stale : is_pr_stale env.now s.stale_timeout ((eval_pr_action env r s).0.prs r) ≡ false
  expected : status.ci_status ≡ CiStatus.expected
  jobs : a.expected_ci_runs ≡ expected_ci_jobs status.statuses

expected-eq : (ci : CiStatus) → is_expected ci ≡ true → ci ≡ CiStatus.expected
expected-eq CiStatus.expected h = refl
expected-eq CiStatus.success h = ground arith
expected-eq CiStatus.pending h = ground arith
expected-eq CiStatus.failure h = ground arith
expected-eq (CiStatus.unknown s) h = ground arith

module _ (env : Env) (r : Ref) (s : State) where
  -- `evalPRAction` decides to trigger CI jobs only when the pull request is approved, updating it
  -- with its base branch changed nothing, it is not stale and its CI status is expected; the jobs
  -- are those whose status is expected, and the commit is the one that the update returned.
  pub eval_pr_action-MayTrigger :
      (a : RequiredActions)
      → (eval_pr_action env r s).1 ≡ ok a
      → any is_trigger a.actions ≡ true
      → MayTrigger env r s a
  unfolding eval_pr_action eval_ready
  eval_pr_action-MayTrigger a h t =
      elim (Result-cases (pr_ready_for_merge_status env r s.world).1) [
        | inr (e, f) ↦ ground arith
        | inl (status, f) ↦ elim (Bool-cases (is_approved status.review_decision)) [
          | inr n ↦ ground arith
          | inl y ↦
              let w = (pr_ready_for_merge_status env r s.world).0 in
              let w' = (update_pr_with_base env s.update_branch_poll_interval r w).0 in
              let updated = (update_pr_with_base env s.update_branch_poll_interval r w).1 in
              let h' : eval_updated env s.stale_timeout (w'.prs r) status updated ≡ ok a =
                ground arith in
              let (head, u, st, ex, ci) =
                eval_updated-trigger env s.stale_timeout (w'.prs r) status updated a h' t in
              let (commit, jobs) =
                eval_ci_status-expected env s.stale_timeout (w'.prs r) status head status.ci_status
                  a ex ci in
              record {
                status = status;
                is_ready = f;
                approved = y;
                unchanged = rw commit u;
                not_stale = ground arith;
                expected = expected-eq status.ci_status ex;
                jobs = jobs;
              }
        ]
      ]

  -- Among the actions that `evalPRAction` decides on, none follows one that suspends or dequeues
  -- the pull request.
  pub eval_pr_action-removal_is_last :
      (a : RequiredActions) → (eval_pr_action env r s).1 ≡ ok a → removal_is_last a.actions ≡ true
  unfolding eval_pr_action eval_ready
  eval_pr_action-removal_is_last a h =
      elim (Result-cases (pr_ready_for_merge_status env r s.world).1) [
        | inr (e, f) ↦ ground arith
        | inl (status, f) ↦
            let w = (pr_ready_for_merge_status env r s.world).0 in
            let w' = (update_pr_with_base env s.update_branch_poll_interval r w).0 in
            let updated = (update_pr_with_base env s.update_branch_poll_interval r w).1 in
            let l = eval_updated_lem env s.stale_timeout (w'.prs r) status updated in
            ground (arith, l)
      ]
