-- ===== src/Github/Reports.antt =====
-- internal/githubclt/readyformergestatus.go: which report decides the status of a CI job.
use directorius.Prelude.{
  String, Bool, true, false, ◌||◌, ◌≡◌, Option, none, some, List, [], ◌∷◌, any, arith,
  if◌then◌else◌, Option-cases, inl, inr, lookup, insert, lookup-insert, str_eq, eq_iff,
}
use directorius.Errors.{Result, ok, err, Result-cases, >>=-eq-ok}
use directorius.Github.CiStatus.{
  CiStatus, CiJobStatus, CheckRun, StatusContext, StatusMap, check_run_result_to_ci_status,
  context_status_state_to_ci_status, add_required, report, add_check_runs, add_commit_statuses,
  statuses_by_name,
}

-- The status of the job with the name, and whether it is required.
abbrev status_of : Option CiJobStatus → Option CiStatus
status_of none = none
status_of (some e) = some e.status

abbrev required_of : Option CiJobStatus → Bool
required_of none = false
required_of (some e) = e.required

abbrev pub status_at : String → StatusMap → Option CiStatus
status_at name m = status_of (lookup name m)

abbrev pub required_at : String → StatusMap → Bool
required_at name m = required_of (lookup name m)

abbrev pub or_else : Option CiStatus → Option CiStatus → Option CiStatus
or_else (some s) t = some s
or_else none t = t

abbrev result_status : Result CiStatus → Option CiStatus
result_status (ok s) = some s
result_status (err e) = none

-- The status that the last check run of the name reports.
abbrev pub last_run : String → List CheckRun → Option CiStatus
last_run name [] = none
last_run name (r ∷ runs) = or_else (last_run name runs) (
    if str_eq r.name name
    then result_status (check_run_result_to_ci_status r.status r.conclusion)
    else none)

-- The status that the last commit status of the name reports.
abbrev pub last_context : String → List StatusContext → Option CiStatus
last_context name [] = none
last_context name (s ∷ contexts) = or_else (last_context name contexts) (
    if str_eq s.context name
    then result_status (context_status_state_to_ci_status s.state)
    else none)

abbrev pub is_required : String → List String → Bool
is_required name = any (λ c. str_eq c name)

module _ (name k : String) (s : CiStatus) (url : String) (m : StatusMap) where
  status_at-report :
      status_at k (report name s url m) ≡ (if str_eq name k then some s else status_at k m)
  unfolding report
  status_at-report = elim (Option-cases (lookup name m)) [
    | inl e ↦
        rw (e, report)
          (ground (
            arith,
            lookup-insert name k
                (record { name = name; status = s; required = false; job_url = url }) m,
          ))
    | inr (old, e) ↦
        rw (e, report)
          (ground (arith, lookup-insert name k (record old { status = s; job_url = url }) m))
  ]

  required_at-report : required_at k (report name s url m) ≡ required_at k m
  unfolding report
  required_at-report = elim (Option-cases (lookup name m)) [
    | inl e ↦
        rw (e, report)
          (ground (
            arith,
            eq_iff name k,
            lookup-insert name k
                (record { name = name; status = s; required = false; job_url = url }) m,
          ))
    | inr (old, e) ↦
        rw (e, report)
          (ground (
            arith,
            eq_iff name k,
            lookup-insert name k (record old { status = s; job_url = url }) m,
          ))
  ]

module _ (k : String) where
  add_check_runs_reports :
      (m : StatusMap) (runs : List CheckRun) {m' : StatusMap}
      → add_check_runs m runs ≡ ok m'
      → (status_at k m' ≡ or_else (last_run k runs) (status_at k m))
        × (required_at k m' ≡ required_at k m)
  unfolding add_check_runs
  add_check_runs_reports m [] h = ground arith
  add_check_runs_reports m (r ∷ runs) {m'} h =
      elim (Result-cases (check_run_result_to_ci_status r.status r.conclusion)) [
        | inl (s, e) ↦
            let m₁ = report r.name s r.details_url m in
            let h' : add_check_runs m₁ runs ≡ ok m' = ground arith in
            ground (
              arith,
              status_at-report r.name k s r.details_url m,
              required_at-report r.name k s r.details_url m,
              add_check_runs_reports m₁ runs h',
            )
        | inr (x, e) ↦ ground arith
      ]

  add_commit_statuses_reports :
      (m : StatusMap) (contexts : List StatusContext) {m' : StatusMap}
      → add_commit_statuses m contexts ≡ ok m'
      → (status_at k m' ≡ or_else (last_context k contexts) (status_at k m))
        × (required_at k m' ≡ required_at k m)
  unfolding add_commit_statuses
  add_commit_statuses_reports m [] h = ground arith
  add_commit_statuses_reports m (s ∷ contexts) {m'} h =
      elim (Result-cases (context_status_state_to_ci_status s.state)) [
        | inl (st, e) ↦
            let m₁ = report s.context st s.target_url m in
            let h' : add_commit_statuses m₁ contexts ≡ ok m' = ground arith in
            ground (
              arith,
              status_at-report s.context k st s.target_url m,
              required_at-report s.context k st s.target_url m,
              add_commit_statuses_reports m₁ contexts h',
            )
        | inr (x, e) ↦ ground arith
      ]

  -- The status and the mark of a context that is among the required ones.
  add_required_marks :
      (m : StatusMap) (contexts : List String) {m' : StatusMap}
      → add_required m contexts ≡ ok m'
      → (status_at k m'
          ≡ (if is_required k contexts then some CiStatus.expected else status_at k m))
        × (required_at k m' ≡ (is_required k contexts || required_at k m))
  unfolding add_required
  add_required_marks m [] h = ground arith
  add_required_marks m (c ∷ contexts) {m'} h = elim (Option-cases (lookup c m)) [
    | inl e ↦
        let job : CiJobStatus = record {
          name = c;
          status = CiStatus.expected;
          required = true;
          job_url = "";
        } in
        let h' : add_required (insert c job m) contexts ≡ ok m' = ground arith in
        ground (
          arith,
          eq_iff c k,
          lookup-insert c k job m,
          add_required_marks (insert c job m) contexts h',
        )
    | inr (old, e) ↦ ground arith
  ]

-- The map of the statuses: the status of a job is that of the last commit status of its name, or
-- else that of the last check run of its name, or else expected if it is among the required
-- contexts; no other name has an entry. A job is marked as required exactly when its name is among
-- the required contexts.
pub statuses_by_name_reports :
    (k : String) (required : List String) (runs : List CheckRun) (contexts : List StatusContext)
    {m : StatusMap}
    → statuses_by_name required runs contexts ≡ ok m
    → (status_at k m
        ≡ or_else (last_context k contexts) (
            or_else
              (last_run k runs)
              (if is_required k required then some CiStatus.expected else none)))
      × (required_at k m ≡ is_required k required)
unfolding statuses_by_name lookup
statuses_by_name_reports k required runs contexts {m} h =
    let (m₁, e₁, h₁) = >>=-eq-ok (add_required [] required) _ h in
    let (m₂, e₂, h₂) = >>=-eq-ok (add_check_runs m₁ runs) _ h₁ in
    ground (
      arith,
      add_required_marks k [] required e₁,
      add_check_runs_reports k m₁ runs e₂,
      add_commit_statuses_reports k m₂ contexts h₂,
    )
