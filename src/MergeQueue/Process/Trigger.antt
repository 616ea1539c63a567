-- ===== src/MergeQueue/Process/Trigger.antt =====
-- internal/mergequeue/queue.go: when `processPR` triggers CI jobs, and when it does nothing.
use directorius.Prelude.{
  ℕ, if◌then◌else◌, true, false, ◌≡◌, refl, ◌∙◌, some, arith, ==_refl, str_eq, eq_iff, ◌⊎◌, inl,
  inr,
}
use directorius.Errors.{Err}
use directorius.OrderedMap.{first}
use directorius.MergeQueue.PullRequest.{
  PullRequest, set_state_unchanged_since_if_newer, set_state_unchanged_since_if_zero,
  set_ci_triggered_commit,
}
use directorius.MergeQueue.World.{Task, Ref, Env, set_pr}
use directorius.MergeQueue.Queue.{State, on_pr}
use directorius.MergeQueue.Ci.{ci_run}
use directorius.MergeQueue.ProcessPr.{RequiredActions}
use directorius.MergeQueue.Process.Valid.{if_zero-number}
use directorius.MergeQueue.Process.{
  ci_trigger_needed, trigger_ci_jobs, process_first, is_first_active, process_pr_of,
}

if_newer-commit :
    (t : ℕ) (p : PullRequest)
    → (set_state_unchanged_since_if_newer t p).ci_triggered_commit ≡ p.ci_triggered_commit
unfolding set_state_unchanged_since_if_newer
if_newer-commit t p = ground arith

trigger_not_needed :
    (env : Env) (r : Ref) (task : Task) (required : RequiredActions) (s : State)
    → ci_trigger_needed task required.head_commit_id (s.prs r).ci_triggered_commit ≡ false
    → trigger_ci_jobs env r task required s ≡ (s, true)
unfolding trigger_ci_jobs
trigger_not_needed env r task required s h = rw h refl

module _ (env : Env) (r : Ref) (task : Task) (required : RequiredActions) (s : State) where
  -- After CI jobs were triggered without an error, the head commit is the one that is remembered
  -- as triggered.
  trigger_ci_jobs-commit :
      str_eq required.head_commit_id "" ≡ false
      → (trigger_ci_jobs env r task required s).1 ≡ true
      → ((trigger_ci_jobs env r task required s).0.prs r).ci_triggered_commit
        ≡ required.head_commit_id
  unfolding trigger_ci_jobs ci_trigger_needed set_pr set_ci_triggered_commit
  trigger_ci_jobs-commit h ran =
      let w = (ci_run env r required.expected_ci_runs s.world).0 in
      ground (
        arith,
        ==_refl r,
        eq_iff required.head_commit_id (s.prs r).ci_triggered_commit,
        if_newer-commit env.now (set_ci_triggered_commit required.head_commit_id (w.prs r)),
      )

  -- For a head commit that is known, CI jobs are triggered once: when `processPR` triggered them
  -- without an error, triggering them for the same commit again, for whatever task, changes nothing.
  pub trigger_ci_jobs_once :
      (task' : Task)
      → str_eq required.head_commit_id "" ≡ false
      → (trigger_ci_jobs env r task required s).1 ≡ true
      → trigger_ci_jobs env r task' required (trigger_ci_jobs env r task required s).0
        ≡ ((trigger_ci_jobs env r task required s).0, true)
  unfolding ci_trigger_needed
  trigger_ci_jobs_once task' h ran =
      let t = (trigger_ci_jobs env r task required s).0 in
      let c = trigger_ci_jobs-commit h ran in
      let e : ci_trigger_needed task' required.head_commit_id (t.prs r).ci_triggered_commit
          ≡ false =
        ground (arith, eq_iff required.head_commit_id (t.prs r).ci_triggered_commit) in
      trigger_not_needed env r task' required t e

module _ (env : Env) (r : Ref) (task : Task) (s : State) where
  first_idle :
      (t : State)
      → ((e : Err) × (env.ctx_err t.calls ≡ some e)) ⊎ (is_first_active r t ≡ false)
      → process_first env r task t ≡ t
  unfolding process_first
  first_idle t (inl (e, h)) = rw (h, process_first) refl
  first_idle t (inr h) = ground arith

  still_first :
      is_first_active r (on_pr (set_state_unchanged_since_if_zero env.now) r s)
      ≡ is_first_active r s
  unfolding is_first_active first set_pr
  still_first = ground (arith, if_zero-number env.now (s.prs r))

  -- When the queue is paused, when its context is canceled at the start, or when the pull request is
  -- not the first active one, `processPR` changes no queue and makes no request to GitHub or Jenkins: a
  -- paused queue leaves everything as it is, and else the only change is that the time since when the
  -- state of the pull request is unchanged is set to now, if it was the zero time.
  pub process_pr-idle :
      (s.paused ≡ true)
        ⊎ (((e : Err) × (env.ctx_err s.calls ≡ some e)) ⊎ (is_first_active r s ≡ false))
      → process_pr_of env r task s
        ≡ (if s.paused then s else on_pr (set_state_unchanged_since_if_zero env.now) r s)
  unfolding process_pr_of set_pr
  process_pr-idle (inl p) = ground arith
  process_pr-idle (inr i) =
      let t = on_pr (set_state_unchanged_since_if_zero env.now) r s in
      let j : ((e : Err) × (env.ctx_err t.calls ≡ some e)) ⊎ (is_first_active r t ≡ false) =
        elim i [ inl h ↦ inl h | inr h ↦ inr (still_first ∙ h) ] in
      ground (arith, first_idle t j)
