-- ===== src/Tests/Processing.antt =====
-- Processing: evaluating and processing the first pull request of an example queue.
use directorius.Prelude.{
  if◌then◌else◌, String, ◌≡◌, ◌↔◌, ◌⊎◌, refl, List, [], ◌∷◌, all, true, inr, lookup as lookup_text,
  insert as insert_text,
}
use directorius.Errors.{ok}
use directorius.Retry.{run, after_failure, retry_in}
use directorius.Github.CiStatus.{CiStatus}
use directorius.Github.Pages.{ReadyForMergeStatus}
use directorius.OrderedMap.{first, dequeue}
use directorius.MergeQueue.PullRequest.{Build, set_last_started_ci_builds}
use directorius.MergeQueue.PullRequest.{set_state_unchanged_since_if_zero}
use directorius.MergeQueue.Queue.{on_pr}
use directorius.MergeQueue.World.{task_none, task_trigger_ci, Env, set_pr}
use directorius.MergeQueue.Queue.Place.{place}
use directorius.MergeQueue.Ci.{await_build, run_ci_job, run_jobs, collect, ci_run}
use directorius.MergeQueue.ProcessPr.{
  RequiredActions, pr_ready_for_merge_status, after_update, try_update, update_pr_with_base,
  is_pr_stale, failed_required_statuses, expected_ci_jobs, failed_required_ci_statuses_are_obsolete,
  action_add_first_in_queue_github_label, action_trigger_ci_jobs,
  action_create_successful_github_status,
}
use directorius.MergeQueue.Eval.{
  eval_failure, eval_ci_status, eval_updated, eval_ready, eval_pr_action,
}
use directorius.MergeQueue.Eval.Actions.{MayTrigger, eval_pr_action-MayTrigger}
use directorius.MergeQueue.Eval.Removal.{is_obsolete, are_obsolete_iff, RemovalReason}
use directorius.MergeQueue.Process.{
  ci_trigger_needed, trigger_ci_jobs, is_first_active, process_pr_of, process_first, process_result,
  process_action, process_actions, inc_process_pr_runs,
}
use directorius.MergeQueue.Process.Removal.{HasFailed, process_pr-removes}
use directorius.MergeQueue.Process.Retrigger.{suspend-ci_trigger_needed}
use directorius.OrderedMap.{lookup, get, delete, remove}
use directorius.MergeQueue.Queue.{State, suspend, dequeue_active, suspend_rest}
use directorius.MergeQueue.PullRequest.{set_ci_triggered_commit}
use directorius.MergeQueue.Process.Places.{process_pr-place}
use directorius.MergeQueue.Process.Trigger.{trigger_ci_jobs_once, process_pr-idle}
use directorius.MergeQueue.Manage.{stop}
use directorius.MergeQueue.Manage.Stop.{stop_removes_first}
use directorius.Tests.{env, env_with, state, element, state-IsValid, build_job}

program : Unit {0}
unfolding run after_failure retry_in pr_ready_for_merge_status after_update try_update
    update_pr_with_base is_pr_stale failed_required_statuses expected_ci_jobs
    failed_required_ci_statuses_are_obsolete eval_failure eval_ci_status eval_updated eval_ready
    eval_pr_action lookup_text insert_text await_build run_ci_job run_jobs collect ci_run
    ci_trigger_needed trigger_ci_jobs set_pr set_last_started_ci_builds first is_first_active
    process_pr_of process_first process_result process_action process_actions inc_process_pr_runs
    set_state_unchanged_since_if_zero suspend dequeue_active suspend_rest dequeue lookup get delete
    remove
program = tt

process_pr-place_example : place 2 (process_pr_of env 1 task_trigger_ci state).q ≡ place 2 state.q
process_pr-place_example = process_pr-place env 1 task_trigger_ci state 2 state-IsValid refl

abbrev start_jobs : RequiredActions
start_jobs = record {
  actions =
      action_add_first_in_queue_github_label ∷ action_trigger_ci_jobs
      ∷ action_create_successful_github_status ∷ [];
  reason = "ci jobs not running";
  head_commit_id = "c1";
  expected_ci_runs = "build" ∷ [];
}

eval_pr_action-MayTrigger_example : MayTrigger env 1 state start_jobs
unfolding program
eval_pr_action-MayTrigger_example = eval_pr_action-MayTrigger env 1 state start_jobs refl refl

-- The job failed in the build that was started last.
abbrev env_failed : Env
env_failed = env_with CiStatus.failure

process_pr-removes_example :
    let s = on_pr (set_state_unchanged_since_if_zero env_failed.now) 1 state in
    let (w, ready) = pr_ready_for_merge_status env_failed 1 s.world in
    let (w', updated) = update_pr_with_base env_failed 2 1 w in
    HasFailed (eval_pr_action env_failed 1 s).1
    ⊎ ((status : ReadyForMergeStatus) × (ready ≡ ok status)
        × RemovalReason env_failed 1000 (w'.prs 1) status updated)
unfolding program
process_pr-removes_example = process_pr-removes env_failed 1 task_none state 1 1 refl refl

-- A newer build than the failed one was started.
abbrev newer : List (String × Build)
newer = ("build", record { job_name = "build"; number = 8 }) ∷ []

are_obsolete_iff_example :
    (failed_required_ci_statuses_are_obsolete env.parse_build_url
        (build_job CiStatus.failure ∷ [])
        newer
      ≡ ok true)
    ↔ (all (is_obsolete env.parse_build_url newer) (build_job CiStatus.failure ∷ []) ≡ true)
are_obsolete_iff_example =
    are_obsolete_iff env.parse_build_url newer (build_job CiStatus.failure ∷ [])

trigger_ci_jobs_once_example :
    trigger_ci_jobs env 1 task_trigger_ci start_jobs
      (trigger_ci_jobs env 1 task_none start_jobs state).0
    ≡ ((trigger_ci_jobs env 1 task_none start_jobs state).0, true)
unfolding program
trigger_ci_jobs_once_example =
    trigger_ci_jobs_once env 1 task_none start_jobs state task_trigger_ci refl refl

-- The pull request with the number 2 is not the first active one.
process_pr-idle_example :
    process_pr_of env 2 task_none state
    ≡ (if state.paused then state else on_pr (set_state_unchanged_since_if_zero env.now) 2 state)
unfolding program
process_pr-idle_example = process_pr-idle env 2 task_none state (inr (inr refl))

stop_removes_first_example :
    ((stop state).active ≡ (dequeue 1 state.active).0) × ((stop state).suspended ≡ [])
stop_removes_first_example =
    stop_removes_first state (element 1) (element 2 ∷ []) state-IsValid refl

-- The jobs had been triggered for the same commit.
abbrev triggered : State
triggered = record state { world = set_pr (set_ci_triggered_commit "c1") 1 state.world }

suspend-ci_trigger_needed_example :
    ci_trigger_needed task_none "c1" ((suspend env 1 triggered).0.prs 1).ci_triggered_commit ≡ true
unfolding program lookup get
suspend-ci_trigger_needed_example =
    suspend-ci_trigger_needed env 1 triggered 1 task_none "c1" refl refl
