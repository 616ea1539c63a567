-- ===== src/MergeQueue/World/Numbers.antt =====
-- internal/mergequeue/queue.go: requests to GitHub and Jenkins, labels and commit statuses leave the
-- numbers of the pull requests alone.
use directorius.Prelude.{String, true, false, ◌≡◌, refl, ◌∙◌, ap, arith, if◌then◌else◌, ◌∷◌, str_eq}
use directorius.Retry.Laws.{run_preserves}
use directorius.MergeQueue.PullRequest.{PullRequest, StatusState}
use directorius.MergeQueue.World.{
  Ref, Call, Env, World, set_pr, run_call, pr_add_queue_head_label, pr_remove_queue_head_label,
  create_commit_status_of, add_label, remove_label, create_head_commit_status, create_commit_status,
  status_description,
}

-- The second world has the pull requests of the first, under the same numbers.
pub record SameNumbers (w w' : World) : Type 0 where
  pub same : (r : Ref) → (w'.prs r).number ≡ (w.prs r).number

pub SameNumbers-refl : (w : World) → SameNumbers w w
SameNumbers-refl w = record { same = λ r. refl }

pub SameNumbers-trans : {u v w : World} → SameNumbers u v → SameNumbers v w → SameNumbers u w
SameNumbers-trans p q = record { same = λ r. q.same r ∙ p.same r }

pub set_pr-SameNumbers :
    (f : PullRequest → PullRequest) (r : Ref) (w : World)
    → (f (w.prs r)).number ≡ (w.prs r).number
    → SameNumbers w (set_pr f r w)
unfolding set_pr
set_pr-SameNumbers f r w h = record { same = λ r'. ground arith }

pub run_call-prs : (env : Env) (c : Call) (w : World) → (run_call env c w).0.prs ≡ w.prs
unfolding run_call
run_call-prs env c w =
    run_preserves (λ v. v.prs ≡ w.prs)
      (λ v. (record v { calls = c ∷ v.calls }, env.respond (c ∷ v.calls))) (λ t p. p)
      (env.schedule w.calls) w refl

pub run_call-SameNumbers : (env : Env) (c : Call) (w : World) → SameNumbers w (run_call env c w).0
run_call-SameNumbers env c w = record {
  same = λ r. ap (λ prs. (prs r).number) (run_call-prs env c w);
}

pub add_label-SameNumbers :
    (env : Env) (label : String) (r : Ref) (w : World)
    → SameNumbers w (pr_add_queue_head_label env label r w)
unfolding pr_add_queue_head_label
add_label-SameNumbers env label r w =
    let c = add_label (w.prs r).number label in
    let w' = (run_call env c w).0 in
    let step = run_call-SameNumbers env c w in
    let mark = set_pr-SameNumbers (λ p. record p { has_head_label = true }) r w' refl in
    record { same = λ r'. ground (arith, step.same r', mark.same r') }

pub remove_label-SameNumbers :
    (env : Env) (label : String) (r : Ref) (w : World)
    → SameNumbers w (pr_remove_queue_head_label env label r w)
unfolding pr_remove_queue_head_label
remove_label-SameNumbers env label r w =
    SameNumbers-trans (set_pr-SameNumbers (λ p. record p { has_head_label = false }) r w refl) (
      run_call-SameNumbers env (remove_label (w.prs r).number label)
        (set_pr (λ p. record p { has_head_label = false }) r w))

pub create_status-SameNumbers :
    (env : Env) (r : Ref) (commit : String) (state : StatusState) (w : World)
    → SameNumbers w (create_commit_status_of env r commit state w).0
unfolding create_commit_status_of
create_status-SameNumbers env r commit state w =
    let c : Call =
      if str_eq commit ""
      then create_head_commit_status (w.prs r).number state (status_description state)
      else create_commit_status commit state (status_description state) in
    let w' = (run_call env c w).0 in
    let step = run_call-SameNumbers env c w in
    let mark =
      set_pr-SameNumbers
        (λ p. record p { github_status_last_set_state = record { commit = commit; state = state } })
        r w' refl in
    record { same = λ r'. ground (arith, step.same r', mark.same r') }
