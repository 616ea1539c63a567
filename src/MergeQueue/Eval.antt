-- ===== src/MergeQueue/Eval.antt =====
-- internal/mergequeue/queue_processpr.go: `evalPRAction`, which decides what to do with the first
-- pull request of a queue.
pub mod Actions
pub mod Removal
use directorius.Prelude.{
  ℕ, String, Bool, true, false, not, Option, none, some, List, [], ◌∷◌, if◌then◌else◌,
}
use directorius.Errors.{
  Err, Result, ok, err, message, wrapped, is_merge_conflict, is_closed_sentinel,
}
use directorius.Github.CiStatus.{CiStatus}
use directorius.Github.Pages.{ReviewDecision, ReadyForMergeStatus}
use directorius.MergeQueue.PullRequest.{PullRequest}
use directorius.MergeQueue.World.{Ref, Env, World}
use directorius.MergeQueue.Queue.{State}
use directorius.MergeQueue.ProcessPr.{
  Action, RequiredActions, action_none, action_suspend, action_dequeue,
  action_create_pull_request_comment, action_update_state_unchanged,
  action_create_successful_github_status, action_add_first_in_queue_github_label,
  action_trigger_ci_jobs, pr_ready_for_merge_status, update_pr_with_base, is_pr_stale,
  failed_required_statuses, expected_ci_jobs, failed_required_ci_statuses_are_obsolete,
}

abbrev pub is_approved : ReviewDecision → Bool
is_approved ReviewDecision.approved = true
is_approved _ = false

-- `&requiredActions{…}` without `ExpectedCIRuns`
abbrev pub required : List Action → String → String → RequiredActions
required actions reason commit = record {
  actions = actions;
  reason = reason;
  head_commit_id = commit;
  expected_ci_runs = [];
}

-- The case `CIStatusFailure` of the `switch` of `evalPRAction`.
unfoldable pub eval_failure :
    Env → PullRequest → ReadyForMergeStatus → String → Result RequiredActions
unfolding failed_required_statuses
eval_failure env p status head = elim status.statuses [
  | [] ↦ err (message "ready for merge status has negative CI status but statuses list is empty")
  | s ∷ ss ↦ elim (failed_required_statuses (s ∷ ss)) [
    | [] ↦ err (
        message
          "ready for merge status has negative CI status but statuses list has no required and failed statuses")
    | f ∷ fs ↦
        elim (failed_required_ci_statuses_are_obsolete env.parse_build_url (f ∷ fs)
          p.last_started_ci_builds) [
            | err e ↦ err e
            | ok obsolete ↦ ok (
                if obsolete
                then required (action_none ∷ [])
                    "overall ci job status is negative but none of the last triggered jobs failed"
                    head
                else required (action_suspend ∷ []) "ci jobs failed" head)
          ]
  ]
]

-- The `switch` of `evalPRAction` on the CI status.
unfoldable pub eval_ci_status :
    Env → PullRequest → ReadyForMergeStatus → String → CiStatus → Result RequiredActions
unfolding eval_failure expected_ci_jobs
eval_ci_status env p status head CiStatus.success = ok (
    required (action_create_successful_github_status ∷ action_none ∷ [])
      "merge requirements are met" head)
eval_ci_status env p status head CiStatus.pending = ok (
    required (action_add_first_in_queue_github_label ∷ action_create_successful_github_status ∷ [])
      "ci jobs running" head)
eval_ci_status env p status head CiStatus.expected = ok (record {
  actions =
      action_add_first_in_queue_github_label ∷ action_trigger_ci_jobs
      ∷ action_create_successful_github_status ∷ [];
  reason = "ci jobs not running";
  head_commit_id = head;
  expected_ci_runs = expected_ci_jobs status.statuses;
})
eval_ci_status env p status head CiStatus.failure = eval_failure env p status head
eval_ci_status env p status head (CiStatus.unknown s) =
    err (message "BUG: pull request ci status has unexpected value")

-- `evalPRAction` from the results of `prReadyForMergeStatus` and `updatePRWithBase` on.
unfoldable pub eval_updated :
    Env → ℕ → PullRequest → ReadyForMergeStatus → Result (Bool × String) → Result RequiredActions
unfolding is_pr_stale eval_ci_status is_closed_sentinel is_merge_conflict
eval_updated env stale_timeout p status (err e) =
    if is_closed_sentinel e
    then ok (required (action_dequeue ∷ []) "pull request is closed" "")
    else if is_merge_conflict e
    then ok (
        required (action_create_pull_request_comment ∷ action_suspend ∷ [])
          "update with base branch failed: merge conflict" status.commit)
    else err e
eval_updated env stale_timeout p status (ok (branch_changed, head)) =
    if branch_changed
    then ok (
        required (action_update_state_unchanged ∷ [])
          "pull request branch has been updated with base branch" head)
    else if is_pr_stale env.now stale_timeout p
    then ok (required (action_suspend ∷ []) "pull request is stale" status.commit)
    else eval_ci_status env p status head status.ci_status

-- `evalPRAction` from the result of `prReadyForMergeStatus` on.
unfoldable pub eval_ready :
    Env → Ref → State → World × Result ReadyForMergeStatus → World × Result RequiredActions
unfolding eval_updated
eval_ready env r s (w, err e) =
    (w, err (wrapped "retrieving ready to merge status from github failed" e))
eval_ready env r s (w, ok status) =
    if not (is_approved status.review_decision)
    then (w, ok (required (action_suspend ∷ []) "not approved" ""))
    else let (w', updated) = update_pr_with_base env s.update_branch_poll_interval r w in
      (w', eval_updated env s.stale_timeout (w'.prs r) status updated)

-- `evalPRAction`
unfoldable pub eval_pr_action : Env → Ref → State → World × Result RequiredActions
unfolding eval_ready
eval_pr_action env r s = eval_ready env r s (pr_ready_for_merge_status env r s.world)
