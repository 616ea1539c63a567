-- ===== src/Github/Summary.antt =====
-- internal/githubclt/readyformergestatus.go: what the summary of the CI jobs says of them.
use directorius.Prelude.{
  Bool, true, false, ◌&&◌, ◌||◌, ◌≡◌, ◌↔◌, List, [], ◌∷◌, any, arith, if◌then◌else◌,
}
use directorius.Github.CiStatus.{
  CiStatus, CiJobStatus, StatusState, required_from, required_ci_status, overall_ci_status,
}

abbrev pub is_failure : CiStatus → Bool
is_failure CiStatus.failure = true
is_failure _ = false

abbrev pub is_expected : CiStatus → Bool
is_expected CiStatus.expected = true
is_expected _ = false

abbrev pub is_pending : CiStatus → Bool
is_pending CiStatus.pending = true
is_pending _ = false

-- Whether a required job of the list has a status of the kind.
abbrev pub has_required : (CiStatus → Bool) → List CiJobStatus → Bool
has_required kind = any (λ s. s.required && kind s.status)

-- The summary by the worst status: failure, then expected, then pending.
abbrev summary_from : CiStatus → List CiJobStatus → CiStatus
summary_from result statuses =
    if has_required is_failure statuses
    then CiStatus.failure
    else if is_expected result || has_required is_expected statuses
    then CiStatus.expected
    else if has_required is_pending statuses
    then CiStatus.pending
    else result

abbrev pub summary : List CiJobStatus → CiStatus
summary statuses =
    if has_required is_failure statuses
    then CiStatus.failure
    else if has_required is_expected statuses
    then CiStatus.expected
    else if has_required is_pending statuses
    then CiStatus.pending
    else CiStatus.success

required_from-summary_from :
    (result : CiStatus) (statuses : List CiJobStatus)
    → required_from result statuses ≡ summary_from result statuses
unfolding required_from
required_from-summary_from result [] = ground arith
required_from-summary_from result (s ∷ statuses) = ground (
  arith,
  required_from-summary_from result statuses,
  required_from-summary_from CiStatus.expected statuses,
  required_from-summary_from CiStatus.pending statuses,
)

-- The status of the required jobs is the worst of their statuses, whatever their order: failure,
-- then expected, then pending; jobs that are not required do not count.
pub required_ci_status-summary :
    (statuses : List CiJobStatus) → required_ci_status statuses ≡ summary statuses
unfolding required_ci_status
required_ci_status-summary statuses = required_from-summary_from CiStatus.success statuses

-- Whether the rollup state of GitHub says that something is outstanding.
abbrev pub is_outstanding : StatusState → Bool
is_outstanding StatusState.pending = true
is_outstanding StatusState.expected = true
is_outstanding _ = false

-- The overall status is success exactly when no required job failed, is expected or is pending and
-- the rollup state is neither pending nor expected.
pub overall_ci_status-success_iff :
    (rollup : StatusState) (statuses : List CiJobStatus)
    → (overall_ci_status rollup statuses ≡ CiStatus.success) ↔ (
        (has_required is_failure statuses ≡ false)
        × (has_required is_expected statuses ≡ false)
        × (has_required is_pending statuses ≡ false)
        × (is_outstanding rollup ≡ false))
unfolding overall_ci_status
overall_ci_status-success_iff rollup statuses = ground (arith, required_ci_status-summary statuses)

-- A rollup state that is pending hides a failed required job: the overall status is then pending.
pub overall_ci_status_hides_failure :
    (statuses : List CiJobStatus)
    → has_required is_failure statuses ≡ true
    → (required_ci_status statuses ≡ CiStatus.failure)
      × (overall_ci_status StatusState.pending statuses ≡ CiStatus.pending)
unfolding overall_ci_status
overall_ci_status_hides_failure statuses h = ground (arith, required_ci_status-summary statuses)
