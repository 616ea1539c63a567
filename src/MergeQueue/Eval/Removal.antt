-- ===== src/MergeQueue/Eval/Removal.antt =====
-- internal/mergequeue/queue_processpr.go: why `evalPRAction` takes a pull request out of the active
-- queue, and which failed CI jobs count.
use directorius.Prelude.{
  ℕ, String, Bool, true, false, ◌≡◌, refl, not, none, some, List, [], ◌∷◌, any, all, arith,
  Bool-cases, inl, inr, leb, lookup, ◌↔◌,
}
use directorius.Errors.{Err, Result, ok, err, Result-cases, is_closed_sentinel, is_merge_conflict}
use directorius.Github.CiStatus.{CiStatus, CiJobStatus}
use directorius.Github.Pages.{ReadyForMergeStatus}
use directorius.MergeQueue.PullRequest.{PullRequest, Build}
use directorius.MergeQueue.World.{Ref, Env}
use directorius.MergeQueue.Queue.{State}
use directorius.MergeQueue.ProcessPr.{
  pr_ready_for_merge_status, update_pr_with_base, is_pr_stale, failed_required_statuses,
  failed_required_ci_statuses_are_obsolete,
}
use directorius.MergeQueue.Eval.{
  is_approved, eval_failure, eval_ci_status, eval_updated, eval_ready, eval_pr_action,
}
use directorius.MergeQueue.Eval.Actions.{removes}

module _ (parse : String → Result Build) (builds : List (String × Build)) where
  -- The build that the status is about is not older than the last started build of its job.
  abbrev pub is_current : CiJobStatus → Bool
  is_current s = elim (parse s.job_url) [
    | err e ↦ false
    | ok b ↦ elim (lookup b.job_name builds) [ none ↦ true | some last ↦ leb last.number b.number ]
  ]

  -- A newer build of the job of the status was started.
  abbrev pub is_obsolete : CiJobStatus → Bool
  is_obsolete s = elim (parse s.job_url) [
    | err e ↦ false
    | ok b ↦ elim (lookup b.job_name builds) [
      | none ↦ false
      | some last ↦ not (leb last.number b.number)
    ]
  ]

  -- Failed statuses are obsolete exactly if of each one's job a newer build was started.
  pub are_obsolete_iff :
      (statuses : List CiJobStatus)
      → (failed_required_ci_statuses_are_obsolete parse statuses builds ≡ ok true)
        ↔ (all is_obsolete statuses ≡ true)
  unfolding failed_required_ci_statuses_are_obsolete
  are_obsolete_iff [] = (λ _. refl, λ _. refl)
  are_obsolete_iff (s ∷ statuses) =
      let (to, from) = are_obsolete_iff statuses in
      (λ h. ground (arith, to), λ h. ground (arith, from))

  are_not_obsolete :
      (statuses : List CiJobStatus)
      → failed_required_ci_statuses_are_obsolete parse statuses builds ≡ ok false
      → any is_current statuses ≡ true
  unfolding failed_required_ci_statuses_are_obsolete
  are_not_obsolete [] h = ground arith
  are_not_obsolete (s ∷ statuses) h = ground (arith, are_not_obsolete statuses)

-- Why a pull request may leave the active queue, from the results of the two requests.
pub data RemovalReason (env : Env) (timeout : ℕ) (p : PullRequest) (status : ReadyForMergeStatus)
    (updated : Result (Bool × String)) : Type 0 where
  not_approved :
      is_approved status.review_decision ≡ false → RemovalReason env timeout p status updated
  closed :
      (e : Err)
      → updated ≡ err e
      → is_closed_sentinel e ≡ true
      → RemovalReason env timeout p status updated
  conflict :
      (e : Err)
      → updated ≡ err e
      → is_merge_conflict e ≡ true
      → RemovalReason env timeout p status updated
  stale :
      (head : String)
      → updated ≡ ok (false, head)
      → is_pr_stale env.now timeout p ≡ true
      → RemovalReason env timeout p status updated
  failed :
      (head : String)
      → updated ≡ ok (false, head)
      → status.ci_status ≡ CiStatus.failure
      → any
          (is_current env.parse_build_url p.last_started_ci_builds)
          (failed_required_statuses status.statuses)
        ≡ true
      → RemovalReason env timeout p status updated

module _ (env : Env) (timeout : ℕ) (p : PullRequest) (status : ReadyForMergeStatus) where
  eval_failure-removes :
      (head : String)
      → removes (eval_failure env p status head) ≡ true
      → any
          (is_current env.parse_build_url p.last_started_ci_builds)
          (failed_required_statuses status.statuses)
        ≡ true
  unfolding eval_failure
  eval_failure-removes head h = ground (
    arith,
    are_not_obsolete env.parse_build_url p.last_started_ci_builds
        (failed_required_statuses status.statuses),
  )

  eval_ci_status-removes :
      (head : String) (ci : CiStatus)
      → removes (eval_ci_status env p status head ci) ≡ true
      → (ci ≡ CiStatus.failure)
        × (any
              (is_current env.parse_build_url p.last_started_ci_builds)
              (failed_required_statuses status.statuses)
            ≡ true)
  unfolding eval_ci_status
  eval_ci_status-removes head CiStatus.failure h = (refl, eval_failure-removes head h)
  eval_ci_status-removes head CiStatus.success h = ground arith
  eval_ci_status-removes head CiStatus.pending h = ground arith
  eval_ci_status-removes head CiStatus.expected h = ground arith
  eval_ci_status-removes head (CiStatus.unknown s) h = ground arith

  eval_updated-removes :
      (updated : Result (Bool × String))
      → removes (eval_updated env timeout p status updated) ≡ true
      → RemovalReason env timeout p status updated
  unfolding eval_updated
  eval_updated-removes (err e) h = elim (Bool-cases (is_closed_sentinel e)) [
    | inl c ↦ closed e refl c
    | inr c ↦ conflict e refl (ground arith)
  ]
  eval_updated-removes (ok (true, head)) h = ground arith
  eval_updated-removes (ok (false, head)) h = elim (Bool-cases (is_pr_stale env.now timeout p)) [
    | inl y ↦ stale head refl y
    | inr n ↦
        let (ci, current) = eval_ci_status-removes head status.ci_status (ground arith) in
        failed head refl ci current
  ]

-- The actions of `evalPRAction` take the pull request out of the active queue only for such a reason.
pub eval_pr_action-removes :
    (env : Env) (r : Ref) (s : State)
    → removes (eval_pr_action env r s).1 ≡ true
    → let (w, ready) = pr_ready_for_merge_status env r s.world in
      let (w', updated) = update_pr_with_base env s.update_branch_poll_interval r w in
      (status : ReadyForMergeStatus) × (ready ≡ ok status)
      × RemovalReason env s.stale_timeout (w'.prs r) status updated
unfolding eval_pr_action eval_ready
eval_pr_action-removes env r s h = elim (Result-cases (pr_ready_for_merge_status env r s.world).1) [
  | inr (e, f) ↦ ground arith
  | inl (status, f) ↦ (
    status,
    f,
    elim (Bool-cases (is_approved status.review_decision)) [
      | inr n ↦ not_approved n
      | inl y ↦
          let w = (pr_ready_for_merge_status env r s.world).0 in
          let w' = (update_pr_with_base env s.update_branch_poll_interval r w).0 in
          let updated = (update_pr_with_base env s.update_branch_poll_interval r w).1 in
          eval_updated-removes env s.stale_timeout (w'.prs r) status updated (ground arith)
    ],
  )
]
