-- ===== src/MergeQueue/Events/Kept.antt =====
-- internal/mergequeue/coordinator.go: the handlers of events keep the queues valid, and the queues of the
-- other repositories as they are.
pub mod Requests
pub mod Checks
use directorius.Prelude.{
  String, Bool, true, not, ◌||◌, ◌≡◌, refl, some, List, [], ◌∷◌, Option, arith, eq_iff, str_eq,
  if◌then◌else◌, Option-cases, inl, inr, length, ◌==◌,
}
use directorius.Errors.{ok, err, Result-cases}
use directorius.MergeQueue.World.{task_none, task_trigger_ci, Ref, Env}
use directorius.MergeQueue.World.Numbers.{SameNumbers, SameNumbers-trans, SameNumbers-refl}
use directorius.MergeQueue.Queue.{BranchId, Queue, resume_all_prs, schedule_first}
use directorius.MergeQueue.Queue.Valid.Resume.{resume_all_prs-SameNumbers, resume_all_prs-IsValid}
use directorius.MergeQueue.Manage.{contains}
use directorius.MergeQueue.Manage.Touched.{schedule_first_contents, schedule_first-IsValid}
use directorius.MergeQueue.Coordinator.{
  Coordinator, get_queue, state_of, store, enqueue_in, dequeue_from, trigger_process_pr_if_first,
  set_pr_stale_since_in, is_repository, pr_number, pr_branch,
}
use directorius.MergeQueue.Coordinator.Repository.{resume_if_status_positive}
use directorius.MergeQueue.Coordinator.Kept.{Kept, Kept-refl, Kept-trans, if_Kept, store-Kept}
use directorius.MergeQueue.Coordinator.Kept.Branch.{
  resume_in-Kept, set_pr_stale_since_in-Kept, set_pr_assignees-Kept,
  trigger_process_pr_if_first-Kept,
}
use directorius.MergeQueue.Coordinator.Kept.Moved.{
  enqueue_in-Kept, dequeue_from-Kept, change_base_branch-Kept,
}
use directorius.MergeQueue.Coordinator.Kept.Repository.{
  trigger_all_queues-Kept, resume_if_status_positive-Kept, set_pr_stale_since_by_branch_in-Kept,
}
use directorius.MergeQueue.Events.{
  Config, GhPullRequest, PullRequestEvent, ReviewEvent, CheckRunPr, CheckRunEvent, StatusEvent,
  Event, Payload, pull_request, push, status, check_run, review, other, new_base_branch,
  branch_ref_to_ref, base_ref_of, state_of_pr, merged_of, assignees_of, is_monitored_repository,
}
use directorius.MergeQueue.Events.Incoming.{
  new_pull_request_from_event, pull_request_from_event, assignee_logins,
}
use directorius.MergeQueue.Events.Fresh.{incoming-AreValid}
use directorius.MergeQueue.Events.Handlers.{
  with_pull_request, enqueue_event, dequeue_event, labeled, unlabeled, synchronize, edited,
  assigned, process_pull_request_event,
}
use directorius.MergeQueue.Events.Checks.{
  process_push_event, review_negative, process_pull_request_review_event, pr_branches, touch_prs,
  trigger_branches, is_negative_conclusion, is_positive_conclusion, process_check_run_event,
  process_status_event,
}
use directorius.MergeQueue.Events.Dispatch.{handle, process_event}
use directorius.MergeQueue.Events.Kept.Requests.{process_pull_request_event-Kept}
use directorius.MergeQueue.Events.Kept.Checks.{
  process_push_event-Kept, review-Kept, check_run-Kept, status-Kept,
}

handle-Kept :
    (cfg : Config) (env : Env) (owner repo : String) (p : Payload) (c : Coordinator)
    → Kept owner repo c (handle cfg env owner repo p c)
unfolding handle
handle-Kept cfg env owner repo (pull_request ev) c =
    process_pull_request_event-Kept env owner repo cfg ev c
handle-Kept cfg env owner repo (push ref) c = process_push_event-Kept env owner repo ref c
handle-Kept cfg env owner repo (status ev) c = status-Kept env owner repo ev c
handle-Kept cfg env owner repo (check_run ev) c = check_run-Kept env owner repo ev c
handle-Kept cfg env owner repo (review ev) c = review-Kept env owner repo ev c
handle-Kept cfg env owner repo other c = Kept-refl c

-- `processEvent` keeps every queue valid, and the queues of all other repositories as they are.
pub process_event-Kept :
    (cfg : Config) (env : Env) (ev : Event) (c : Coordinator)
    → Kept ev.owner ev.repo c (process_event cfg env ev c)
unfolding process_event
process_event-Kept cfg env ev c =
    if_Kept (is_monitored_repository cfg ev.owner ev.repo)
      (handle-Kept cfg env ev.owner ev.repo ev.payload c) (Kept-refl c)
