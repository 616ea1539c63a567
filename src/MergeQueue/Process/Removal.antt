-- ===== src/MergeQueue/Process/Removal.antt =====
-- internal/mergequeue/queue.go: why `processPR` takes a pull request out of the active queue.
use directorius.Prelude.{
  ℕ, true, false, ◌⊎◌, inl, inr, ◌≡◌, refl, ◌∙◌, ap, none, some, List, [], ◌∷◌, any, arith,
  if_keeps, Bool-cases, Option-cases,
}
use directorius.Errors.{Err, Result, ok, err, is_canceled}
use directorius.OrderedMap.{get}
use directorius.Github.Pages.{ReadyForMergeStatus}
use directorius.MergeQueue.PullRequest.{set_state_unchanged_since_if_zero}
use directorius.MergeQueue.World.{Task, Ref, Env}
use directorius.MergeQueue.Queue.{State, on_pr}
use directorius.MergeQueue.ProcessPr.{
  Action, RequiredActions, pr_ready_for_merge_status, update_pr_with_base, action_undefined,
  action_none, action_suspend, action_dequeue, action_create_pull_request_comment,
  action_update_state_unchanged, action_create_successful_github_status, action_wait_for_merge,
  action_add_first_in_queue_github_label, action_trigger_ci_jobs,
}
use directorius.MergeQueue.Eval.{eval_pr_action}
use directorius.MergeQueue.Eval.Actions.{removes, is_removal}
use directorius.MergeQueue.Eval.Removal.{RemovalReason, eval_pr_action-removes}
use directorius.MergeQueue.Process.{
  trigger_ci_jobs, process_action, process_actions, process_result, inc_process_pr_runs,
  process_first, process_pr_of, is_first_active,
}

-- The active queue stays as it is.
abbrev IsSameActive : State → State → Type 0
IsSameActive s t = t.active ≡ s.active

-- `evalPRAction` fails, and not because it is canceled.
abbrev pub HasFailed : Result RequiredActions → Type 0
HasFailed result = (e : Err) × (result ≡ err e) × (is_canceled e ≡ false)

module _ (env : Env) (r : Ref) (task : Task) where
  process_action-IsSameActive :
      (required : RequiredActions) (a : Action) (s : State)
      → is_removal a ≡ false
      → IsSameActive s (process_action env r task required a s).0
  unfolding process_action trigger_ci_jobs
  process_action-IsSameActive required action_update_state_unchanged s h = refl
  process_action-IsSameActive required action_suspend s h = absurd (ground arith)
  process_action-IsSameActive required action_dequeue s h = absurd (ground arith)
  process_action-IsSameActive required action_create_pull_request_comment s h = refl
  process_action-IsSameActive required action_add_first_in_queue_github_label s h = refl
  process_action-IsSameActive required action_create_successful_github_status s h = refl
  process_action-IsSameActive required action_trigger_ci_jobs s h = ground arith
  process_action-IsSameActive required action_wait_for_merge s h = refl
  process_action-IsSameActive required action_none s h = refl
  process_action-IsSameActive required action_undefined s h = refl

  process_actions-IsSameActive :
      (required : RequiredActions) (actions : List Action) (s : State)
      → any is_removal actions ≡ false
      → IsSameActive s (process_actions env r task required actions s)
  unfolding process_actions
  process_actions-IsSameActive required [] s h = refl
  process_actions-IsSameActive required (a ∷ actions) s h =
      let t = (process_action env r task required a s).0 in
      let one = process_action-IsSameActive required a s (ground arith) in
      if_keeps (IsSameActive s) (process_action env r task required a s).1
        (process_actions-IsSameActive required actions t (ground arith) ∙ one) one

  process_result-cases :
      (result : Result RequiredActions) (s : State)
      → IsSameActive s (process_result env r task s result)
        ⊎ (HasFailed result ⊎ (removes result ≡ true))
  unfolding process_result
  process_result-cases (err e) s = elim (Bool-cases (is_canceled e)) [
    | inl t ↦ inl (ground arith)
    | inr f ↦ inr (inl (e, refl, f))
  ]
  process_result-cases (ok required) s = elim (Bool-cases (any is_removal required.actions)) [
    | inl t ↦ inr (inr t)
    | inr f ↦ inl (process_actions-IsSameActive required required.actions s f)
  ]

  process_first-cases :
      (s : State)
      → IsSameActive s (process_first env r task s)
        ⊎ (HasFailed (eval_pr_action env r s).1 ⊎ (removes (eval_pr_action env r s).1 ≡ true))
  unfolding process_first inc_process_pr_runs
  process_first-cases s = elim (Option-cases (env.ctx_err s.calls)) [
    | inr (e, h) ↦ inl (rw (h, process_first) refl)
    | inl h ↦ elim (Bool-cases (is_first_active r s)) [
      | inr f ↦ inl (rw (h, f, process_first) refl)
      | inl f ↦
          let (w, result) = eval_pr_action env r s in
          elim (process_result-cases result (record s { world = w })) [
            | inl same ↦ inl (rw (h, f, process_first) same)
            | inr why ↦ inr why
          ]
    ]
  ]

  -- `processPR` takes a pull request out of the active queue only if `evalPRAction` failed with an error
  -- other than that of a canceled context, or if the pull request that is processed is not approved, is
  -- closed, has a merge conflict, is stale, or has a required CI job that failed in a build that is not
  -- older than the last one started.
  pub process_pr-removes :
      (s : State) (n : ℕ) (x : Ref)
      → get n s.active ≡ some x
      → get n (process_pr_of env r task s).active ≡ none
      → let t = on_pr (set_state_unchanged_since_if_zero env.now) r s in
        let (w, ready) = pr_ready_for_merge_status env r t.world in
        let (w', updated) = update_pr_with_base env s.update_branch_poll_interval r w in
        HasFailed (eval_pr_action env r t).1
        ⊎ ((status : ReadyForMergeStatus) × (ready ≡ ok status)
            × RemovalReason env s.stale_timeout (w'.prs r) status updated)
  unfolding process_pr_of
  process_pr-removes s n x h k =
      let t = on_pr (set_state_unchanged_since_if_zero env.now) r s in
      elim (Bool-cases s.paused) [
        | inl f ↦ absurd (ground arith)
        | inr f ↦ elim (process_first-cases t) [
          | inl same ↦ absurd (ground (arith, ap (get n) same))
          | inr (inl failed) ↦ inl failed
          | inr (inr removed) ↦ inr (eval_pr_action-removes env r t removed)
        ]
      ]
