-- ===== src/MergeQueue/Process/Retrigger.antt =====
-- internal/mergequeue/queue.go: a suspended pull request gets its CI jobs triggered again.
use directorius.Prelude.{
  ℕ, String, true, false, ◌≡◌, ap, Option, some, arith, ◌+◌, ==_refl, str_eq, if◌then◌else◌,
}
use Prim.Native.Nat.{◌%◌}
use directorius.OrderedMap.{get}
use directorius.MergeQueue.PullRequest.{
  StatusState, set_state_unchanged_since, set_ci_triggered_commit, u32_mod,
}
use directorius.MergeQueue.World.{
  Task, Ref, Call, Env, World, set_pr, run_call, pr_remove_queue_head_label,
  create_commit_status_of, remove_label, create_head_commit_status, create_commit_status,
  status_description,
}
use directorius.MergeQueue.World.Numbers.{run_call-prs}
use directorius.MergeQueue.Queue.{State, dequeue_active, suspend_rest, suspend, schedule_process_pr}
use directorius.MergeQueue.Queue.Place.{dequeue_active-get}
use directorius.MergeQueue.Process.{ci_trigger_needed}

abbrev commit_of : World → Ref → String
commit_of w r = (w.prs r).ci_triggered_commit

run_call-commit :
    (env : Env) (c : Call) (w : World) (k : Ref) → commit_of (run_call env c w).0 k ≡ commit_of w k
run_call-commit env c w k = ap (λ prs. (prs k).ci_triggered_commit) (run_call-prs env c w)

remove_label-commit :
    (env : Env) (label : String) (r : Ref) (w : World) (k : Ref)
    → commit_of (pr_remove_queue_head_label env label r w) k ≡ commit_of w k
unfolding pr_remove_queue_head_label set_pr
remove_label-commit env label r w k =
    let w' = set_pr (λ p. record p { has_head_label = false }) r w in
    ground (arith, run_call-commit env (remove_label (w.prs r).number label) w' k)

create_status-commit :
    (env : Env) (r : Ref) (commit : String) (state : StatusState) (w : World) (k : Ref)
    → commit_of (create_commit_status_of env r commit state w).0 k ≡ commit_of w k
unfolding create_commit_status_of set_pr
create_status-commit env r commit state w k =
    let c : Call =
      if str_eq commit ""
      then create_head_commit_status (w.prs r).number state (status_description state)
      else create_commit_status commit state (status_description state) in
    ground (arith, run_call-commit env c w k)

suspend_rest-commit :
    (env : Env) (n : ℕ) (s : State) (r : Ref) (new_first : Option Ref)
    → commit_of (suspend_rest env n s (some r, new_first)).0.world r ≡ ""
unfolding suspend_rest schedule_process_pr set_pr set_ci_triggered_commit
suspend_rest-commit env n s r new_first =
    let w₁ =
      set_pr
        (λ p. set_ci_triggered_commit "" (
          set_state_unchanged_since 0
            (record p { suspend_count = (p.suspend_count + 1) % u32_mod })))
        r s.world in
    let w₂ = pr_remove_queue_head_label env s.head_label r w₁ in
    ground (
      arith,
      ==_refl r,
      remove_label-commit env s.head_label r w₁ r,
      create_status-commit env r "" StatusState.pending w₂ r,
    )

-- After `suspend` of an active pull request, its CI jobs are triggered again for any head commit that
-- is known, also for the one for which they had been triggered before.
pub suspend-ci_trigger_needed :
    (env : Env) (n : ℕ) (s : State) (r : Ref) (task : Task) (head : String)
    → get n s.active ≡ some r
    → str_eq head "" ≡ false
    → ci_trigger_needed task head ((suspend env n s).0.prs r).ci_triggered_commit ≡ true
unfolding suspend ci_trigger_needed
suspend-ci_trigger_needed env n s r task head h k =
    let t : State = record s { q = (dequeue_active n s.q).0 } in
    let (kept, same, removed) = dequeue_active-get n n s.q in
    ground (arith, h, removed, suspend_rest-commit env n t r (dequeue_active n s.q).2)
