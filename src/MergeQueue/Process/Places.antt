-- ===== src/MergeQueue/Process/Places.antt =====
-- internal/mergequeue/queue.go: processing a pull request moves no other one.
use directorius.Prelude.{
  ℕ, false, ◌≡◌, refl, sym, ap, List, [], ◌∷◌, arith, ◌==◌, Option-cases, Bool-cases, inl, inr, not,
  if_keeps,
}
use directorius.Errors.{Result, ok, err, is_canceled}
use directorius.MergeQueue.PullRequest.{
  StatusState, set_state_unchanged_since_if_newer, set_state_unchanged_since_if_zero,
}
use directorius.MergeQueue.World.{Task, Ref, Env, World}
use directorius.MergeQueue.World.Numbers.{
  SameNumbers, SameNumbers-refl, SameNumbers-trans, set_pr-SameNumbers, add_label-SameNumbers,
  create_status-SameNumbers,
}
use directorius.MergeQueue.Queue.{State, on_pr, suspend, dequeue_pr}
use directorius.MergeQueue.Queue.Place.{place, dequeue_pr-place, suspend-place}
use directorius.MergeQueue.Queue.Valid.{IsValid-SameNumbers}
use directorius.MergeQueue.Queue.Valid.Dequeue.{dequeue_pr-SameNumbers}
use directorius.MergeQueue.Queue.Valid.Suspend.{suspend-SameNumbers}
use directorius.MergeQueue.ProcessPr.{
  Action, RequiredActions, action_undefined, action_none, action_suspend, action_dequeue,
  action_create_pull_request_comment, action_update_state_unchanged,
  action_create_successful_github_status, action_wait_for_merge,
  action_add_first_in_queue_github_label, action_trigger_ci_jobs,
}
use directorius.MergeQueue.Eval.{eval_pr_action}
use directorius.MergeQueue.Process.{
  process_action, process_actions, process_result, inc_process_pr_runs, process_first,
  is_first_active, process_pr_of,
}
use directorius.MergeQueue.Process.Calls.{eval_pr_action-prs}
use directorius.MergeQueue.Process.Valid.{
  IsValidState, prs-SameNumbers, if_newer-number, if_zero-number, trigger-SameNumbers, trigger-q,
  process_action-IsValid,
}

-- From the first state to the second one, only the pull request with the number moves, and numbers
-- do not change.
record OnlyMoves (n : ℕ) (s t : State) : Type 0 where
  others : (k : ℕ) → (n == k) ≡ false → place k t.q ≡ place k s.q
  numbers : SameNumbers s.world t.world

OnlyMoves-world :
    {n : ℕ} {s : State} {w : World} → SameNumbers s.world w → OnlyMoves n s (record s { world = w })
OnlyMoves-world same = record { others = λ k e. refl; numbers = same }

OnlyMoves-trans : {n : ℕ} {s t u : State} → OnlyMoves n s t → OnlyMoves n t u → OnlyMoves n s u
OnlyMoves-trans a b = record {
  others = λ k e. ground (arith, a.others k e, b.others k e);
  numbers = SameNumbers-trans a.numbers b.numbers;
}

suspend-OnlyMoves :
    (env : Env) (n : ℕ) (s : State) → IsValidState s → OnlyMoves n s (suspend env n s).0
suspend-OnlyMoves env n s v = record {
  others = λ k e. ground (arith, suspend-place env n s k v.is_apart);
  numbers = suspend-SameNumbers env n s;
}

dequeue_pr-OnlyMoves :
    (env : Env) (n : ℕ) (s : State) → IsValidState s → OnlyMoves n s (dequeue_pr env n false s).0
dequeue_pr-OnlyMoves env n s v = record {
  others = λ k e. ground (arith, dequeue_pr-place env n false s k v.is_apart);
  numbers = dequeue_pr-SameNumbers env n false s;
}

module _ (env : Env) (r : Ref) (task : Task) (required : RequiredActions) where
  process_action-OnlyMoves :
      (a : Action) (s : State)
      → IsValidState s
      → OnlyMoves (s.prs r).number s (process_action env r task required a s).0
  unfolding process_action
  process_action-OnlyMoves action_undefined s v = OnlyMoves-world (SameNumbers-refl s.world)
  process_action-OnlyMoves action_none s v = OnlyMoves-world (SameNumbers-refl s.world)
  process_action-OnlyMoves action_wait_for_merge s v = OnlyMoves-world (SameNumbers-refl s.world)
  process_action-OnlyMoves action_suspend s v = suspend-OnlyMoves env (s.prs r).number s v
  process_action-OnlyMoves action_dequeue s v = dequeue_pr-OnlyMoves env (s.prs r).number s v
  process_action-OnlyMoves action_create_pull_request_comment s v =
      OnlyMoves-world (prs-SameNumbers refl)
  process_action-OnlyMoves action_update_state_unchanged s v = OnlyMoves-world (
      set_pr-SameNumbers (set_state_unchanged_since_if_newer env.now) r s.world
        (if_newer-number env.now (s.prs r)))
  process_action-OnlyMoves action_create_successful_github_status s v =
      OnlyMoves-world
        (create_status-SameNumbers env r required.head_commit_id StatusState.success s.world)
  process_action-OnlyMoves action_add_first_in_queue_github_label s v =
      OnlyMoves-world (add_label-SameNumbers env s.head_label r s.world)
  process_action-OnlyMoves action_trigger_ci_jobs s v = record {
    others = λ k e. ap (place k) (trigger-q env r task required s);
    numbers = trigger-SameNumbers env r task required s;
  }

  process_actions-OnlyMoves :
      (actions : List Action) (s : State)
      → IsValidState s
      → OnlyMoves (s.prs r).number s (process_actions env r task required actions s)
  unfolding process_actions
  process_actions-OnlyMoves [] s v = OnlyMoves-world (SameNumbers-refl s.world)
  process_actions-OnlyMoves (a ∷ actions) s v =
      let m = process_action-OnlyMoves a s v in
      let s' = (process_action env r task required a s).0 in
      let v' = process_action-IsValid env r task required a s v in
      elim (Bool-cases (process_action env r task required a s).1) [
        | inl on ↦
            rw (on, process_actions)
              (OnlyMoves-trans m
                (rw (sym (m.numbers.same r)) (process_actions-OnlyMoves actions s' v')))
        | inr off ↦ rw (off, process_actions) m
      ]

module _ (env : Env) (r : Ref) (task : Task) where
  process_result-OnlyMoves :
      (s : State) (result : Result RequiredActions)
      → IsValidState s
      → OnlyMoves (s.prs r).number s (process_result env r task s result)
  unfolding process_result
  process_result-OnlyMoves s (ok required) v =
      process_actions-OnlyMoves env r task required required.actions s v
  process_result-OnlyMoves s (err e) v =
      if_keeps (OnlyMoves (s.prs r).number s) (is_canceled e)
        (OnlyMoves-world (SameNumbers-refl s.world)) (suspend-OnlyMoves env (s.prs r).number s v)

  process_first-OnlyMoves :
      (s : State) → IsValidState s → OnlyMoves (s.prs r).number s (process_first env r task s)
  unfolding process_first inc_process_pr_runs place
  process_first-OnlyMoves s v = elim (Option-cases (env.ctx_err s.calls)) [
    | inr (e, h) ↦ rw (h, process_first) (OnlyMoves-world (SameNumbers-refl s.world))
    | inl h ↦
        let w = (eval_pr_action env r s).0 in
        let same = prs-SameNumbers (eval_pr_action-prs env r s) in
        let result = (eval_pr_action env r s).1 in
        let m =
          process_result-OnlyMoves (record s { world = w }) result (IsValid-SameNumbers same v) in
        let number : (w.prs r).number ≡ (s.prs r).number = same.same r in
        let m' : OnlyMoves (s.prs r).number s
            (process_result env r task (record s { world = w }) result) =
          OnlyMoves-trans (OnlyMoves-world same) (rw (sym number) m) in
        let counted : State =
          inc_process_pr_runs (process_result env r task (record s { world = w }) result) in
        let m'' : OnlyMoves (s.prs r).number s counted = record {
          others = m'.others;
          numbers = m'.numbers;
        } in
        let stays : OnlyMoves (s.prs r).number s s = OnlyMoves-world (SameNumbers-refl s.world) in
        rw (h, process_first)
          (if_keeps (OnlyMoves (s.prs r).number s) (not (is_first_active r s)) stays m'')
  ]

  process_pr-OnlyMoves :
      (s : State) → IsValidState s → OnlyMoves (s.prs r).number s (process_pr_of env r task s)
  unfolding process_pr_of
  process_pr-OnlyMoves s v =
      let same =
        set_pr-SameNumbers (set_state_unchanged_since_if_zero env.now) r s.world
          (if_zero-number env.now (s.prs r)) in
      let s' = on_pr (set_state_unchanged_since_if_zero env.now) r s in
      let m = process_first-OnlyMoves s' (IsValid-SameNumbers same v) in
      if_keeps (OnlyMoves (s.prs r).number s) s.paused (OnlyMoves-world (SameNumbers-refl s.world))
        (OnlyMoves-trans (OnlyMoves-world same) (rw (sym (same.same r)) m))

  -- `processPR` moves no pull request but the one that it is called for: in a valid queue any other
  -- one stays active, suspended or out of the queue.
  pub process_pr-place :
      (s : State) (k : ℕ)
      → IsValidState s
      → ((s.prs r).number == k) ≡ false
      → place k (process_pr_of env r task s).q ≡ place k s.q
  process_pr-place s k v e = (process_pr-OnlyMoves s v).others k e

  -- `processPR` changes the number of no pull request.
  pub process_pr-SameNumbers :
      (s : State) → IsValidState s → SameNumbers s.world (process_pr_of env r task s).world
  process_pr-SameNumbers s v = (process_pr-OnlyMoves s v).numbers
