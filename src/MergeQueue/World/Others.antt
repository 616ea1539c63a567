-- ===== src/MergeQueue/World/Others.antt =====
-- internal/mergequeue/queue.go: labels and commit statuses of a pull request leave the fields of the others
-- alone.
use directorius.Prelude.{String, true, false, ◌≡◌, ◌∙◌, ap, arith, if◌then◌else◌, str_eq, ◌==◌}
use directorius.MergeQueue.PullRequest.{PullRequest, StatusState}
use directorius.MergeQueue.World.{
  Ref, Call, Env, World, set_pr, run_call, pr_add_queue_head_label, pr_remove_queue_head_label,
  create_commit_status_of, add_label, remove_label, create_head_commit_status, create_commit_status,
  status_description,
}
use directorius.MergeQueue.World.Numbers.{run_call-prs}

module _ (x r : Ref) (apart : (x == r) ≡ false) where
  pub set_pr-other : (f : PullRequest → PullRequest) (w : World) → (set_pr f x w).prs r ≡ w.prs r
  unfolding set_pr
  set_pr-other f w = ground arith

  pub add_label-other :
      (env : Env) (label : String) (w : World)
      → (pr_add_queue_head_label env label x w).prs r ≡ w.prs r
  unfolding pr_add_queue_head_label
  add_label-other env label w =
      let c = add_label (w.prs x).number label in
      let w' = (run_call env c w).0 in
      ground (
        arith,
        ap (λ prs. prs r) (run_call-prs env c w),
        set_pr-other (λ p. record p { has_head_label = true }) w',
      )

  pub remove_label-other :
      (env : Env) (label : String) (w : World)
      → (pr_remove_queue_head_label env label x w).prs r ≡ w.prs r
  unfolding pr_remove_queue_head_label
  remove_label-other env label w =
      let w' = set_pr (λ p. record p { has_head_label = false }) x w in
      ap (λ prs. prs r) (run_call-prs env (remove_label (w.prs x).number label) w')
      ∙ set_pr-other (λ p. record p { has_head_label = false }) w

  pub create_status-other :
      (env : Env) (commit : String) (state : StatusState) (w : World)
      → (create_commit_status_of env x commit state w).0.prs r ≡ w.prs r
  unfolding create_commit_status_of
  create_status-other env commit state w =
      let c : Call =
        if str_eq commit ""
        then create_head_commit_status (w.prs x).number state (status_description state)
        else create_commit_status commit state (status_description state) in
      let w' = (run_call env c w).0 in
      ground (
        arith,
        ap (λ prs. prs r) (run_call-prs env c w),
        set_pr-other
            (λ p. record p {
              github_status_last_set_state = record { commit = commit; state = state };
            })
            w',
      )
