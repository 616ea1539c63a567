-- ===== src/MergeQueue/Process/Valid.antt =====
-- internal/mergequeue/queue.go: processing a pull request keeps its queue valid.
use directorius.Prelude.{
  ℕ, false, ◌≡◌, refl, ap, List, [], ◌∷◌, arith, Option-cases, Bool-cases, inl, inr, not, if_keeps,
}
use directorius.Errors.{Result, ok, err, is_canceled}
use directorius.OrderedMap.{lookup}
use directorius.Github.Pages.{ReadyForMergeStatus}
use directorius.MergeQueue.PullRequest.{
  PullRequest, StatusState, set_state_unchanged_since_if_newer, set_state_unchanged_since_if_zero,
  set_ci_triggered_commit,
}
use directorius.MergeQueue.World.{Task, task_none, Ref, Env, World}
use directorius.MergeQueue.World.Numbers.{
  SameNumbers, set_pr-SameNumbers, add_label-SameNumbers, create_status-SameNumbers,
}
use directorius.MergeQueue.Queue.{State, on_pr, resume_pr, Work, process_pr, resume_if_positive}
use directorius.MergeQueue.Queue.Valid.{IsValid, IsValid-SameNumbers, IsValid-same_contents}
use directorius.MergeQueue.Queue.Valid.Dequeue.{dequeue_pr-IsValid}
use directorius.MergeQueue.Queue.Valid.Enqueue.{resume_pr-IsValid}
use directorius.MergeQueue.Queue.Valid.Suspend.{suspend-IsValid}
use directorius.MergeQueue.Ci.{ci_run}
use directorius.MergeQueue.ProcessPr.{
  Action, RequiredActions, action_undefined, action_none, action_suspend, action_dequeue,
  action_create_pull_request_comment, action_update_state_unchanged,
  action_create_successful_github_status, action_wait_for_merge,
  action_add_first_in_queue_github_label, action_trigger_ci_jobs, pr_ready_for_merge_status,
}
use directorius.MergeQueue.Eval.{eval_pr_action, is_approved}
use directorius.MergeQueue.Process.{
  trigger_ci_jobs, process_action, process_actions, process_result, inc_process_pr_runs,
  process_first, is_first_active, is_positive, resume_outcome, process_pr_of, resume_if_ready,
  resume_if_pr_merge_status_positive, run_work,
}
use directorius.MergeQueue.Process.Calls.{eval_pr_action-prs, ready_status-prs, ci_run-SameNumbers}

abbrev pub IsValidState : State → Type 0
IsValidState s = IsValid s.world s.q

pub prs-SameNumbers : {w w' : World} → w'.prs ≡ w.prs → SameNumbers w w'
prs-SameNumbers e = record { same = λ r. ap (λ prs. (prs r).number) e }

pub if_newer-number :
    (t : ℕ) (p : PullRequest) → (set_state_unchanged_since_if_newer t p).number ≡ p.number
unfolding set_state_unchanged_since_if_newer
if_newer-number t p = ground arith

pub if_zero-number :
    (t : ℕ) (p : PullRequest) → (set_state_unchanged_since_if_zero t p).number ≡ p.number
unfolding set_state_unchanged_since_if_zero
if_zero-number t p = ground arith

module _ (env : Env) (r : Ref) (task : Task) where
  pub trigger-SameNumbers :
      (required : RequiredActions) (s : State)
      → SameNumbers s.world (trigger_ci_jobs env r task required s).0.world
  unfolding trigger_ci_jobs set_ci_triggered_commit
  trigger-SameNumbers required s =
      let w = (ci_run env r required.expected_ci_runs s.world).0 in
      let ran = ci_run-SameNumbers env r required.expected_ci_runs s.world in
      let f = λ (p : PullRequest).
        set_state_unchanged_since_if_newer env.now
          (set_ci_triggered_commit required.head_commit_id p) in
      let mark =
        set_pr-SameNumbers f r w
          (if_newer-number env.now (set_ci_triggered_commit required.head_commit_id (w.prs r))) in
      record { same = λ r'. ground (arith, ran.same r', mark.same r') }

  pub trigger-q :
      (required : RequiredActions) (s : State) → (trigger_ci_jobs env r task required s).0.q ≡ s.q
  unfolding trigger_ci_jobs
  trigger-q required s = ground arith

  pub process_action-IsValid :
      (required : RequiredActions) (a : Action) (s : State)
      → IsValidState s
      → IsValidState (process_action env r task required a s).0
  unfolding process_action
  process_action-IsValid required action_undefined s v = v
  process_action-IsValid required action_none s v = v
  process_action-IsValid required action_wait_for_merge s v = v
  process_action-IsValid required action_suspend s v = suspend-IsValid env (s.prs r).number s v
  process_action-IsValid required action_dequeue s v =
      dequeue_pr-IsValid env (s.prs r).number false s v
  process_action-IsValid required action_create_pull_request_comment s v =
      IsValid-SameNumbers (prs-SameNumbers refl) v
  process_action-IsValid required action_update_state_unchanged s v =
      IsValid-SameNumbers
        (set_pr-SameNumbers (set_state_unchanged_since_if_newer env.now) r s.world
          (if_newer-number env.now (s.prs r)))
        v
  process_action-IsValid required action_create_successful_github_status s v =
      IsValid-SameNumbers
        (create_status-SameNumbers env r required.head_commit_id StatusState.success s.world) v
  process_action-IsValid required action_add_first_in_queue_github_label s v =
      IsValid-SameNumbers (add_label-SameNumbers env s.head_label r s.world) v
  process_action-IsValid required action_trigger_ci_jobs s v =
      rw (trigger-q required s) (IsValid-SameNumbers (trigger-SameNumbers required s) v)

  pub process_actions-IsValid :
      (required : RequiredActions) (actions : List Action) (s : State)
      → IsValidState s
      → IsValidState (process_actions env r task required actions s)
  unfolding process_actions
  process_actions-IsValid required [] s v = v
  process_actions-IsValid required (a ∷ actions) s v =
      let v' = process_action-IsValid required a s v in
      let s' = (process_action env r task required a s).0 in
      elim (Bool-cases (process_action env r task required a s).1) [
        | inl on ↦ rw (on, process_actions) (process_actions-IsValid required actions s' v')
        | inr off ↦ rw (off, process_actions) v'
      ]

  process_result-IsValid :
      (s : State) (result : Result RequiredActions)
      → IsValidState s
      → IsValidState (process_result env r task s result)
  unfolding process_result
  process_result-IsValid s (ok required) v = process_actions-IsValid required required.actions s v
  process_result-IsValid s (err e) v = elim (Bool-cases (is_canceled e)) [
    | inl c ↦ rw (c, process_result) v
    | inr c ↦ rw (c, process_result) (suspend-IsValid env (s.prs r).number s v)
  ]

  process_first-IsValid : (s : State) → IsValidState s → IsValidState (process_first env r task s)
  unfolding process_first inc_process_pr_runs
  process_first-IsValid s v = elim (Option-cases (env.ctx_err s.calls)) [
    | inr (e, h) ↦ rw (h, process_first) v
    | inl h ↦
        rw (h, process_first)
          (if_keeps IsValidState (not (is_first_active r s)) v (
            IsValid-same_contents refl refl (
              process_result-IsValid (record s { world = (eval_pr_action env r s).0 })
                (eval_pr_action env r s).1
                (IsValid-SameNumbers (prs-SameNumbers (eval_pr_action-prs env r s)) v))))
  ]

  -- `processPR` keeps the queue valid, whatever GitHub and Jenkins answer and whenever it is
  -- canceled.
  pub process_pr-IsValid : (s : State) → IsValidState s → IsValidState (process_pr_of env r task s)
  unfolding process_pr_of
  process_pr-IsValid s v = if_keeps IsValidState s.paused v (
      process_first-IsValid (on_pr (set_state_unchanged_since_if_zero env.now) r s) (
        IsValid-SameNumbers
          (set_pr-SameNumbers (set_state_unchanged_since_if_zero env.now) r s.world
            (if_zero-number env.now (s.prs r)))
          v))

  outcome-IsValid :
      (x : State × Result (Unit {0})) → IsValidState x.0 → IsValidState (resume_outcome x).0
  outcome-IsValid (t, ok _) w = w
  outcome-IsValid (t, err e) w = w

  resume_if_ready-IsValid :
      (s : State) (x : Result ReadyForMergeStatus)
      → IsValidState s
      → IsValidState (resume_if_ready env r s x).0
  unfolding resume_if_ready
  resume_if_ready-IsValid s (err e) v = v
  resume_if_ready-IsValid s (ok status) v =
      let w = resume_pr-IsValid env (s.prs r).number s v in
      if_keeps (λ (x : State × Result (Unit {0})). IsValidState x.0)
        (not (is_approved status.review_decision)) v
        (if_keeps (λ (x : State × Result (Unit {0})). IsValidState x.0)
          (is_positive status.ci_status) (outcome-IsValid (resume_pr env (s.prs r).number s) w) v)

  resume_if_positive-IsValid :
      (s : State) → IsValidState s → IsValidState (resume_if_pr_merge_status_positive env r s).0
  unfolding resume_if_pr_merge_status_positive
  resume_if_positive-IsValid s v = elim (Option-cases (lookup (s.prs r).number s.suspended)) [
    | inl e ↦ rw (e, resume_if_pr_merge_status_positive) v
    | inr (x, e) ↦
        rw (e, resume_if_pr_merge_status_positive)
          (resume_if_ready-IsValid
            (record s { world = (pr_ready_for_merge_status env r s.world).0 })
            (pr_ready_for_merge_status env r s.world).1
            (IsValid-SameNumbers (prs-SameNumbers (ready_status-prs env r s.world)) v))
  ]

-- What a worker of the pool runs keeps the queue valid.
pub run_work-IsValid :
    (env : Env) (work : Work) (s : State) → IsValidState s → IsValidState (run_work env work s)
unfolding run_work
run_work-IsValid env (process_pr r task) s v =
    IsValid-same_contents refl refl
      (process_pr-IsValid env r task _ (IsValid-same_contents refl refl v))
run_work-IsValid env (resume_if_positive r) s v =
    IsValid-same_contents refl refl
      (resume_if_positive-IsValid env r task_none _ (IsValid-same_contents refl refl v))
