-- ===== src/Github/Ready.antt =====
-- internal/githubclt/readyformergestatus.go: what `ReadyForMerge` says of the required jobs.
use directorius.Prelude.{
  String, Bool, true, false, ◌&&◌, ◌≡◌, refl, Option, none, some, [], ◌∷◌, map, any, arith,
  Option-cases, inl, inr, lookup, ◌∙◌,
}
use directorius.Errors.{Err, ok, >>=-eq-ok}
use directorius.Github.CiStatus.{
  CiStatus, CiJobStatus, StatusMap, statuses_by_name, to_ci_job_statuses,
}
use directorius.Github.Pages.{QueryResult, ReadyForMergeStatus, ready_for_merge}
use directorius.Github.Reports.{
  status_at, required_at, or_else, last_run, last_context, is_required, statuses_by_name_reports,
}
use directorius.Github.Summary.{
  is_failure, is_expected, is_pending, has_required, overall_ci_status-success_iff,
}

-- What no job of the map satisfies, the job with the name does not.
lookup-any :
    (p : CiJobStatus → Bool) (k : String) (m : StatusMap) (e : CiJobStatus)
    → lookup k m ≡ some e
    → any p (map (λ x. x.1) m) ≡ false
    → p e ≡ false
unfolding lookup
lookup-any p k [] e h n = cc
lookup-any p k ((j, x) ∷ m) e h n = ground (arith, lookup-any p k m e)

-- The job was reported, and not as failed, expected or pending.
pub record IsReported (reported : Option CiStatus) : Type 0 where
  status : CiStatus
  is_last : reported ≡ some status
  not_failed : is_failure status ≡ false
  not_expected : is_expected status ≡ false
  not_pending : is_pending status ≡ false

job-IsReported :
    (k : String) (m : StatusMap) (reported : Option CiStatus)
    → status_at k m ≡ or_else reported (some CiStatus.expected)
    → required_at k m ≡ true
    → has_required is_failure (map (λ x. x.1) m) ≡ false
    → has_required is_expected (map (λ x. x.1) m) ≡ false
    → has_required is_pending (map (λ x. x.1) m) ≡ false
    → IsReported reported
job-IsReported k m none at required f e p = elim (Option-cases (lookup k m)) [
  | inl n ↦ absurd (ground arith)
  | inr (x, h) ↦
      let fresh = lookup-any (λ s. s.required && is_expected s.status) k m x h e in
      absurd (ground (arith, fresh))
]
job-IsReported k m (some s) at required f e p = elim (Option-cases (lookup k m)) [
  | inl n ↦ absurd (ground arith)
  | inr (x, h) ↦
      let a = lookup-any (λ s. s.required && is_failure s.status) k m x h f in
      let b = lookup-any (λ s. s.required && is_expected s.status) k m x h e in
      let c = lookup-any (λ s. s.required && is_pending s.status) k m x h p in
      let same : x.status ≡ s = ground arith in
      record {
        status = s;
        is_last = refl;
        not_failed = ground (arith, a, same);
        not_expected = ground (arith, b, same);
        not_pending = ground (arith, c, same);
      }
]

-- If `ReadyForMerge` returns the CI status success, each context that the branch protection requires
-- was reported, and the last commit status of its name, or else its last check run, is not failed,
-- expected or pending: a required job that nothing reports is never passed over.
pub ready_for_merge-success :
    (wrap : Err → Err) (q : QueryResult) (status : ReadyForMergeStatus) (k : String)
    → ready_for_merge wrap (ok q) ≡ ok status
    → status.ci_status ≡ CiStatus.success
    → is_required k q.required_contexts ≡ true
    → IsReported (or_else (last_context k q.status_contexts) (last_run k q.check_runs))
unfolding ready_for_merge to_ci_job_statuses
ready_for_merge-success wrap q status k answer success required =
    let (statuses, parsed, made) =
      >>=-eq-ok (to_ci_job_statuses q.required_contexts q.check_runs q.status_contexts) _ answer in
    let (m, named, listed) =
      >>=-eq-ok (statuses_by_name q.required_contexts q.check_runs q.status_contexts) _ parsed in
    let (at, marked) =
      statuses_by_name_reports k q.required_contexts q.check_runs q.status_contexts named in
    let (to, from) = overall_ci_status-success_iff q.rollup_state statuses in
    let (f, e, p, r) = to (ground (arith, made)) in
    let all : map (λ x. x.1) m ≡ statuses = ground arith in
    job-IsReported k m (or_else (last_context k q.status_contexts) (last_run k q.check_runs))
      (ground (arith, at)) (marked ∙ required) (rw all f) (rw all e) (rw all p)
