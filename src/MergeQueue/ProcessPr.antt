-- ===== src/MergeQueue/ProcessPr.antt =====
-- internal/mergequeue/queue_processpr.go and queue.go: evaluating the first pull request of a queue.
use directorius.Prelude.{
  ℕ, ◌+◌, String, Bool, true, false, ◌&&◌, ◌||◌, Option, none, some, List, [], ◌∷◌, map, filter,
  leb, ltb, ◌==◌, if◌then◌else◌, lookup,
}
use text.Mathlib.Text.{find?}
use directorius.Errors.{
  Err, Result, ok, err, message, wrapped, merge_conflict, retryable, pull_request_is_closed,
  github_pull_request_is_closed, unwrap, new_retryable_error,
}
use directorius.Retry.{run}
use directorius.Github.CiStatus.{CiStatus, CiJobStatus}
use directorius.Github.Pages.{ReadyForMergeStatus}
use directorius.MergeQueue.PullRequest.{PullRequest, Build}
use directorius.Github.Client.{UpdateBranchResult}
use directorius.MergeQueue.World.{Ref, Env, World, ready_for_merge, update_branch}

-- `Action`
pub data Action : Type 0 where
  action_undefined action_none action_suspend action_dequeue : Action
  action_create_pull_request_comment action_update_state_unchanged : Action
  action_create_successful_github_status action_wait_for_merge : Action
  action_add_first_in_queue_github_label action_trigger_ci_jobs : Action

-- `requiredActions`; the reason has no details of an error or a time.
pub record RequiredActions : Type 0 where
  pub actions : List Action
  pub reason : String
  pub head_commit_id : String
  pub expected_ci_runs : List String

abbrev pub mentions_closed : String → Bool
mentions_closed text = elim (find? text "pull request is closed") [ none ↦ false | some _ ↦ true ]

-- Whether the text of the error contains "pull request is closed".
unfoldable pub text_mentions_closed : Err → Bool
text_mentions_closed pull_request_is_closed = true
text_mentions_closed github_pull_request_is_closed = true
text_mentions_closed (message text) = mentions_closed text
text_mentions_closed (wrapped text cause) = mentions_closed text || text_mentions_closed cause
text_mentions_closed (merge_conflict cause) = text_mentions_closed cause
text_mentions_closed (retryable after cause) = text_mentions_closed cause
text_mentions_closed _ = false

-- `isPRIsClosedErr`
unfoldable pub is_pr_is_closed_err : Err → Bool
unfolding unwrap text_mentions_closed
is_pr_is_closed_err e =
    (elim (unwrap e) [ none ↦ false | some cause ↦ text_mentions_closed cause ])
    || text_mentions_closed e

-- One attempt of `prReadyForMergeStatus`.
abbrev pub try_ready_for_merge :
    Env → ℕ → World × Option ReadyForMergeStatus → (World × Option ReadyForMergeStatus) × Option Err
try_ready_for_merge env n (w, status) =
    let calls = ready_for_merge n ∷ w.calls in
    elim (env.ready_for_merge calls) [
      | ok status' ↦ ((record w { calls = calls }, some status'), none)
      | err e ↦ ((record w { calls = calls }, none), some e)
    ]

-- `prReadyForMergeStatus`. A nil status with no error does not occur.
unfoldable pub pr_ready_for_merge_status : Env → Ref → World → World × Result ReadyForMergeStatus
pr_ready_for_merge_status env r w =
    let ((w', status), failed) =
      run (env.schedule w.calls) (try_ready_for_merge env (w.prs r).number) (w, none) in
    elim failed [
      | some e ↦ (w', err e)
      | none ↦ elim status [
        | some status ↦ (w', ok status)
        | none ↦ (w', err (message "nil status"))
      ]
    ]

-- The variables of `updatePRWithBase` that an attempt sets: `changed` and `headCommit`.
abbrev pub Updating : Type 0
Updating = World × Bool × String

-- One attempt of `updatePRWithBase`, from the answer of the client.
unfoldable pub after_update :
    Env → ℕ → Updating → Result (Option UpdateBranchResult) → Updating × Option Err
unfolding new_retryable_error
after_update env poll u (err e) = (u, some e)
after_update env poll u (ok none) = (u, some (message "BUG: updateBranch returned nil result"))
after_update env poll (w, changed, head) (ok (some result)) =
    if result.scheduled
    then (
      (w, true, head),
      some (
          new_retryable_error
            (message "branch update was scheduled, retrying until update was done")
            (env.now + poll)),
    )
    else ((w, (if changed then changed else result.changed), result.head_commit_id), none)

unfoldable pub try_update : Env → ℕ → ℕ → Updating → Updating × Option Err
unfolding after_update
try_update env poll n (w, changed, head) =
    let calls = update_branch n ∷ w.calls in
    after_update env poll (record w { calls = calls }, changed, head) (env.update_branch calls)

-- `updatePRWithBase`: whether the branch changed, and its head commit.
unfoldable pub update_pr_with_base : Env → ℕ → Ref → World → World × Result (Bool × String)
unfolding is_pr_is_closed_err try_update
update_pr_with_base env poll r w =
    let ((w', changed, head), failed) =
      run (env.schedule w.calls) (try_update env poll (w.prs r).number) (w, false, "") in
    elim failed [
      | some e ↦ (w', err (if is_pr_is_closed_err e then pull_request_is_closed else e))
      | none ↦ (w', ok (changed, head))
    ]

-- `isPRStale`
unfoldable pub is_pr_stale : ℕ → ℕ → PullRequest → Bool
is_pr_stale now stale_timeout p =
    if p.state_unchanged_since == 0
    then false
    else ltb (p.state_unchanged_since + stale_timeout) now

abbrev pub is_failed_required : CiJobStatus → Bool
is_failed_required s = s.required && (elim s.status [ CiStatus.failure ↦ true | _ ↦ false ])

-- `failedRequiredStatuses`
unfoldable pub failed_required_statuses : List CiJobStatus → List CiJobStatus
failed_required_statuses = filter is_failed_required

-- `expectedCIJobs`
unfoldable pub expected_ci_jobs : List CiJobStatus → List String
expected_ci_jobs statuses =
    map (λ s. s.name)
      (filter (λ s. elim s.status [ CiStatus.expected ↦ true | _ ↦ false ]) statuses)

-- `failedRequiredCIStatusesAreObsolete`
unfoldable pub failed_required_ci_statuses_are_obsolete :
    (String → Result Build) → List CiJobStatus → List (String × Build) → Result Bool
failed_required_ci_statuses_are_obsolete parse [] builds = ok true
failed_required_ci_statuses_are_obsolete parse (s ∷ statuses) builds =
    let rest = failed_required_ci_statuses_are_obsolete parse statuses builds in
    elim (parse s.job_url) [
      | err e ↦ err (wrapped "parsing ci job url as jenkins build url failed" e)
      | ok failed_build ↦ elim (lookup failed_build.job_name builds) [
        | none ↦ ok false
        | some last_build ↦ if leb last_build.number failed_build.number then ok false else rest
      ]
    ]
