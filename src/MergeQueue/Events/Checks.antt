-- ===== src/MergeQueue/Events/Checks.antt =====
-- internal/mergequeue/coordinator.go: the events on pushes, reviews, check runs and commit statuses. An
-- error is only logged.
use directorius.Prelude.{
  String, Bool, ◌||◌, not, none, some, List, [], ◌∷◌, map, filter, length, ◌==◌, str_eq,
  if◌then◌else◌,
}
use directorius.Errors.{ok, err}
use directorius.MergeQueue.World.{task_none, task_trigger_ci, Env}
use directorius.MergeQueue.Queue.{resume_all_prs, schedule_first}
use directorius.MergeQueue.Coordinator.{
  Coordinator, get_queue, put_queue, state_of, store, set_pr_stale_since_in,
  trigger_process_pr_if_first, trigger_process_pr_if_first_all_queues, pr_number, pr_branch,
}
use directorius.MergeQueue.Coordinator.Repository.{
  set_pr_stale_since_by_branch_in, resume_if_status_positive,
}
use directorius.MergeQueue.Events.{
  ReviewEvent, CheckRunPr, CheckRunEvent, StatusEvent, new_base_branch, branch_ref_to_ref,
}

-- `prBranches`
unfoldable pub pr_branches : List CheckRunPr → List String
pr_branches prs = filter (λ b. not (str_eq b "")) (map (λ p. p.head_ref) prs)

abbrev pub is_negative_conclusion : String → Bool
is_negative_conclusion s =
    str_eq s "cancelled" || str_eq s "failure" || str_eq s "timed_out" || str_eq s "action_required"

abbrev pub is_positive_conclusion : String → Bool
is_positive_conclusion s =
    str_eq s "" || str_eq s "neutral" || str_eq s "success" || str_eq s "skipped"

module _ (env : Env) (owner repo : String) where
  -- `processPushEvent`: the loop over the queues resumes those of the queue of the branch.
  unfoldable pub process_push_event : String → Coordinator → Coordinator
  unfolding new_base_branch branch_ref_to_ref get_queue put_queue schedule_first resume_all_prs
  process_push_event ref c = elim (new_base_branch owner repo (branch_ref_to_ref ref)) [
    | err e ↦ c
    | ok b ↦ elim (get_queue b c.queues) [
      | none ↦ c
      | some q ↦ store b (resume_all_prs env (schedule_first task_trigger_ci (state_of c q))) c
    ]
  ]

  -- The part of `processPullRequestReviewEvent` for a review that no longer approves.
  unfoldable pub review_negative : ReviewEvent → Coordinator → Coordinator
  unfolding new_base_branch trigger_process_pr_if_first
  review_negative ev c = elim (new_base_branch owner repo ev.base_ref) [
    | err e ↦ c
    | ok b ↦ (trigger_process_pr_if_first b (pr_number ev.number) task_none c).0
  ]

  -- `processPullRequestReviewEvent`
  unfoldable pub process_pull_request_review_event : ReviewEvent → Coordinator → Coordinator
  unfolding resume_if_status_positive review_negative
  process_pull_request_review_event ev c =
      if str_eq ev.review_state "approved"
      then if str_eq ev.action "submitted"
        then resume_if_status_positive owner repo (ev.head_ref ∷ []) c
        else if str_eq ev.action "dismissed"
        then review_negative ev c
        else c
      else if str_eq ev.review_state "changes_requested"
      then review_negative ev c
      else c

  -- The loop of `processCheckRunEvent` over the pull requests.
  unfoldable pub touch_prs : List CheckRunPr → Coordinator → Coordinator
  unfolding new_base_branch set_pr_stale_since_in
  touch_prs [] c = c
  touch_prs (p ∷ prs) c = touch_prs prs (elim (new_base_branch owner repo p.base_ref) [
    | err e ↦ c
    | ok b ↦ (set_pr_stale_since_in b p.number env.now c).0
  ])

  -- The loop over the branches after a negative result.
  unfoldable pub trigger_branches : List String → Coordinator → Coordinator
  unfolding trigger_process_pr_if_first_all_queues
  trigger_branches [] c = c
  trigger_branches (b ∷ branches) c =
      trigger_branches branches
        (trigger_process_pr_if_first_all_queues owner repo (pr_branch b) c).0

  -- `processCheckRunEvent`
  unfoldable pub process_check_run_event : CheckRunEvent → Coordinator → Coordinator
  unfolding pr_branches touch_prs trigger_branches resume_if_status_positive
  process_check_run_event ev c =
      let branches = pr_branches ev.pull_requests in
      let c' = touch_prs ev.pull_requests c in
      if length branches == 0
      then c
      else if is_negative_conclusion ev.conclusion
      then trigger_branches branches c'
      else if is_positive_conclusion ev.conclusion
      then resume_if_status_positive owner repo branches c'
      else c'

  -- `processStatusEvent`
  unfoldable pub process_status_event : StatusEvent → Coordinator → Coordinator
  unfolding set_pr_stale_since_by_branch_in trigger_branches resume_if_status_positive
  process_status_event ev c =
      let c' = (set_pr_stale_since_by_branch_in owner repo ev.branches ev.updated_at c).0 in
      if length ev.branches == 0
      then c
      else if str_eq ev.state "error" || str_eq ev.state "failure"
      then trigger_branches ev.branches c'
      else if str_eq ev.state "pending" || str_eq ev.state "success"
      then resume_if_status_positive owner repo ev.branches c'
      else c'
