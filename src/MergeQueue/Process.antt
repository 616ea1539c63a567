-- ===== src/MergeQueue/Process.antt =====
-- internal/mergequeue/queue.go: `processPR`, which carries out the actions, and
-- `resumeIfPRMergeStatusPositive`.
pub mod Calls
pub mod Valid
pub mod Places
pub mod Trigger
pub mod Retrigger
pub mod Removal
use Prim.Native.Nat.{◌%◌}
use directorius.Prelude.{
  ℕ, ◌+◌, String, Bool, true, false, ◌||◌, not, Option, none, some, List, [], ◌∷◌, ◌==◌, str_eq,
  if◌then◌else◌,
}
use directorius.Errors.{Err, Result, ok, err, not_found, wrapped, is_canceled}
use directorius.OrderedMap.{lookup}
use directorius.Github.CiStatus.{CiStatus}
use directorius.Github.Pages.{ReviewDecision, ReadyForMergeStatus}
use directorius.MergeQueue.PullRequest.{
  PullRequest, StatusState, set_state_unchanged_since_if_newer, set_state_unchanged_since_if_zero,
  set_ci_triggered_commit,
}
use directorius.MergeQueue.World.{
  Task, task_none, task_trigger_ci, Ref, Env, World, create_issue_comment, set_pr,
  pr_add_queue_head_label, pr_create_commit_status,
}
use directorius.MergeQueue.Queue.{
  State, Work, process_pr, resume_if_positive, on_pr, first_active, suspend, dequeue_pr, resume_pr,
}
use directorius.MergeQueue.Ci.{ci_run}
use directorius.MergeQueue.ProcessPr.{
  Action, RequiredActions, action_undefined, action_none, action_suspend, action_dequeue,
  action_create_pull_request_comment, action_update_state_unchanged,
  action_create_successful_github_status, action_wait_for_merge,
  action_add_first_in_queue_github_label, action_trigger_ci_jobs, pr_ready_for_merge_status,
}
use directorius.MergeQueue.Eval.{eval_pr_action, is_approved}

-- `ciTriggerNeeded`
unfoldable pub ci_trigger_needed : Task → String → String → Bool
ci_trigger_needed task head_commit triggered_commit =
    if str_eq head_commit ""
    then (elim task [ task_trigger_ci ↦ true | task_none ↦ false ])
    else not (str_eq head_commit triggered_commit)

-- The case `ActionTriggerCIJobs`: the new state, and whether `processPR` goes on.
unfoldable pub trigger_ci_jobs : Env → Ref → Task → RequiredActions → State → State × Bool
unfolding ci_trigger_needed
trigger_ci_jobs env r task required s =
    if not (ci_trigger_needed task required.head_commit_id (s.prs r).ci_triggered_commit)
    then (s, true)
    else let (w, failed) = ci_run env r required.expected_ci_runs s.world in
      elim failed [
        | some e ↦ (record s { world = w }, false)
        | none ↦ (
          record s {
            world =
                set_pr
                  (λ p.
                    set_state_unchanged_since_if_newer env.now
                      (set_ci_triggered_commit required.head_commit_id p))
                  r w;
          },
          true,
        )
      ]

-- The body of the loop of `processPR`: the new state, and whether the loop goes on. An error of a
-- call is only logged.
unfoldable pub process_action : Env → Ref → Task → RequiredActions → Action → State → State × Bool
unfolding trigger_ci_jobs
process_action env r task required action_update_state_unchanged s =
    (on_pr (set_state_unchanged_since_if_newer env.now) r s, true)
process_action env r task required action_suspend s = ((suspend env (s.prs r).number s).0, true)
process_action env r task required action_dequeue s =
    ((dequeue_pr env (s.prs r).number false s).0, true)
process_action env r task required action_create_pull_request_comment s = (
  record s { world = record s.world { calls = create_issue_comment (s.prs r).number ∷ s.calls } },
  true,
)
process_action env r task required action_add_first_in_queue_github_label s =
    (record s { world = pr_add_queue_head_label env s.head_label r s.world }, true)
process_action env r task required action_create_successful_github_status s = (
  record s {
    world = pr_create_commit_status env r required.head_commit_id StatusState.success s.world;
  },
  true,
)
process_action env r task required action_trigger_ci_jobs s = trigger_ci_jobs env r task required s
process_action env r task required action_wait_for_merge s = (s, true)
process_action env r task required action_none s = (s, true)
process_action env r task required action_undefined s = (s, true)

-- The loop of `processPR` over the actions.
unfoldable pub process_actions : Env → Ref → Task → RequiredActions → List Action → State → State
unfolding process_action
process_actions env r task required [] s = s
process_actions env r task required (a ∷ actions) s =
    let (s', goes_on) = process_action env r task required a s in
    let rest = process_actions env r task required actions s' in if goes_on then rest else s'

-- What `processPR` does with the result of `evalPRAction`.
unfoldable pub process_result : Env → Ref → Task → State → Result RequiredActions → State
unfolding process_actions is_canceled
process_result env r task s (ok required) = process_actions env r task required required.actions s
process_result env r task s (err e) =
    if is_canceled e then s else (suspend env (s.prs r).number s).0

abbrev pub u64_mod : ℕ
u64_mod = 18446744073709551616

-- `incProcessPRRuns`
unfoldable pub inc_process_pr_runs : State → State
inc_process_pr_runs s = record s {
  q = record s.q { process_pr_runs = (s.process_pr_runs + 1) % u64_mod };
}

-- `isFirstActive`
unfoldable pub is_first_active : Ref → State → Bool
is_first_active r s = elim (first_active s.q) [
  | none ↦ false
  | some f ↦ (s.prs f).number == (s.prs r).number
]

-- `processPR` of a queue that is not paused, after `SetStateUnchangedSinceIfZero`.
unfoldable pub process_first : Env → Ref → Task → State → State
unfolding is_first_active process_result inc_process_pr_runs
process_first env r task s = elim (env.ctx_err s.calls) [
  | some e ↦ s
  | none ↦
      if not (is_first_active r s)
      then s
      else let (w, result) = eval_pr_action env r s in
        inc_process_pr_runs (process_result env r task (record s { world = w }) result)
]

-- `processPR`
unfoldable pub process_pr_of : Env → Ref → Task → State → State
unfolding process_first
process_pr_of env r task s =
    if s.paused
    then s
    else process_first env r task (on_pr (set_state_unchanged_since_if_zero env.now) r s)

abbrev pub is_positive : CiStatus → Bool
is_positive CiStatus.success = true
is_positive CiStatus.pending = true
is_positive _ = false

-- What follows the call of `ResumePR` in `resumeIfPRMergeStatusPositive`.
abbrev pub resume_outcome : State × Result (Unit {0}) → State × Result (Unit {0})
resume_outcome (s, ok _) = (s, ok tt)
resume_outcome (s, err e) = (s, err (wrapped "resuming updates failed" e))

-- `resumeIfPRMergeStatusPositive`, from the result of `prReadyForMergeStatus` on.
unfoldable pub resume_if_ready :
    Env → Ref → State → Result ReadyForMergeStatus → State × Result (Unit {0})
resume_if_ready env r s (err e) = (s, err (wrapped "retrieving ready for merge status failed" e))
resume_if_ready env r s (ok status) =
    if not (is_approved status.review_decision)
    then (s, ok tt)
    else if is_positive status.ci_status
    then resume_outcome (resume_pr env (s.prs r).number s)
    else (s, ok tt)

-- `resumeIfPRMergeStatusPositive`
unfoldable pub resume_if_pr_merge_status_positive : Env → Ref → State → State × Result (Unit {0})
unfolding resume_if_ready
resume_if_pr_merge_status_positive env r s = elim (lookup (s.prs r).number s.suspended) [
  | none ↦ (s, err not_found)
  | some _ ↦
      let (w, result) = pr_ready_for_merge_status env r s.world in
      resume_if_ready env r (record s { world = w }) result
]

-- The functions that `scheduleProcessPR` and `ScheduleProcessPRIfStatusPositive` queue, between
-- the two calls of `setExecuting`.
unfoldable pub run_work : Env → Work → State → State
unfolding process_pr_of resume_if_pr_merge_status_positive
run_work env work s =
    let s₁ = λ (n : ℕ). record s {
      q = record s.q { executing = some (record { pr = n; canceled = false }) };
    } in
    let s₂ : State = elim work [
      | process_pr r task ↦ process_pr_of env r task (s₁ (s.prs r).number)
      | resume_if_positive r ↦ (resume_if_pr_merge_status_positive env r (s₁ (s.prs r).number)).0
    ] in
    record s₂ { q = record s₂.q { executing = none } }

-- The worker of `actionPool` takes the oldest work and runs it.
unfoldable pub work_next : Env → State → State
unfolding run_work
work_next env s = elim s.action_pool [
  | [] ↦ s
  | work ∷ rest ↦ run_work env work (record s { q = record s.q { action_pool = rest } })
]
