-- ===== src/Github/CiStatus.antt =====
-- internal/githubclt/readyformergestatus.go: the status of each CI job and their summary.
use directorius.Prelude.{
  String, Bool, true, false, Option, none, some, List, [], ◌∷◌, map, lookup, insert, if◌then◌else◌,
}
use directorius.Errors.{message, wrapped, Result, ok, err, ◌>>=◌}

-- `CIStatus`; `unknown` stands for any other text of the string type.
pub data CiStatus : Type 0 where
  expected pending success failure : CiStatus
  unknown : String → CiStatus

-- `CIJobStatus`
pub record CiJobStatus : Type 0 where
  pub name : String
  pub status : CiStatus
  pub required : Bool
  pub job_url : String

-- The states of the GitHub API; `unsupported` stands for a value that the API does not document.
pub data StatusState : Type 0 where
  expected error failure pending success : StatusState
  unsupported : String → StatusState

pub data CheckStatusState : Type 0 where
  requested queued in_progress completed waiting pending : CheckStatusState
  unsupported : String → CheckStatusState

pub data CheckConclusionState : Type 0 where
  action_required timed_out cancelled failure success neutral : CheckConclusionState
  skipped startup_failure stale : CheckConclusionState
  unsupported : String → CheckConclusionState

-- `queryCheckStatus`
pub record CheckRun : Type 0 where
  pub name : String
  pub conclusion : CheckConclusionState
  pub status : CheckStatusState
  pub details_url : String

-- `queryStatusContext`
pub record StatusContext : Type 0 where
  pub state : StatusState
  pub context : String
  pub target_url : String

-- `checkConclusiontoCIStatus`
unfoldable pub check_conclusion_to_ci_status : CheckConclusionState → Result CiStatus
check_conclusion_to_ci_status CheckConclusionState.cancelled = ok CiStatus.failure
check_conclusion_to_ci_status CheckConclusionState.failure = ok CiStatus.failure
check_conclusion_to_ci_status CheckConclusionState.stale = ok CiStatus.failure
check_conclusion_to_ci_status CheckConclusionState.startup_failure = ok CiStatus.failure
check_conclusion_to_ci_status CheckConclusionState.timed_out = ok CiStatus.failure
check_conclusion_to_ci_status CheckConclusionState.action_required = ok CiStatus.pending
check_conclusion_to_ci_status CheckConclusionState.neutral = ok CiStatus.success
check_conclusion_to_ci_status CheckConclusionState.skipped = ok CiStatus.success
check_conclusion_to_ci_status CheckConclusionState.success = ok CiStatus.success
check_conclusion_to_ci_status (CheckConclusionState.unsupported s) =
    err (message "unsupported conclusion value")

-- `checkRunResultToCiStatus`
unfoldable pub check_run_result_to_ci_status :
    CheckStatusState → CheckConclusionState → Result CiStatus
unfolding check_conclusion_to_ci_status
check_run_result_to_ci_status CheckStatusState.in_progress conclusion = ok CiStatus.pending
check_run_result_to_ci_status CheckStatusState.pending conclusion = ok CiStatus.pending
check_run_result_to_ci_status CheckStatusState.queued conclusion = ok CiStatus.pending
check_run_result_to_ci_status CheckStatusState.requested conclusion = ok CiStatus.pending
check_run_result_to_ci_status CheckStatusState.waiting conclusion = ok CiStatus.pending
check_run_result_to_ci_status CheckStatusState.completed conclusion =
    check_conclusion_to_ci_status conclusion
check_run_result_to_ci_status (CheckStatusState.unsupported s) conclusion =
    err (message "unsupported status value")

-- `contextStatusStateToCIStatus`
unfoldable pub context_status_state_to_ci_status : StatusState → Result CiStatus
context_status_state_to_ci_status StatusState.error = ok CiStatus.failure
context_status_state_to_ci_status StatusState.failure = ok CiStatus.failure
context_status_state_to_ci_status StatusState.expected = ok CiStatus.expected
context_status_state_to_ci_status StatusState.pending = ok CiStatus.pending
context_status_state_to_ci_status StatusState.success = ok CiStatus.success
context_status_state_to_ci_status (StatusState.unsupported s) =
    err (message "unsupported status state value")

-- The `switch` of `requiredCIStatus` for a required job: the new value of `result`, or `none` where
-- the function returns `CIStatusFailure` at once.
unfoldable pub required_step : CiStatus → CiStatus → Option CiStatus
required_step result CiStatus.expected = some CiStatus.expected
required_step CiStatus.expected CiStatus.pending = some CiStatus.expected
required_step result CiStatus.pending = some CiStatus.pending
required_step result CiStatus.failure = none
required_step result _ = some result

-- The loop of `requiredCIStatus`, from the value `result` on.
unfoldable pub required_from : CiStatus → List CiJobStatus → CiStatus
unfolding required_step
required_from result [] = result
required_from result (s ∷ statuses) =
    elim (if s.required then required_step result s.status else some result) [
      | none ↦ CiStatus.failure
      | some result' ↦ required_from result' statuses
    ]

-- `requiredCIStatus`
unfoldable pub required_ci_status : List CiJobStatus → CiStatus
unfolding required_from
required_ci_status statuses = required_from CiStatus.success statuses

-- The `switch` of `overallCIStatus` on the rollup state.
unfoldable pub rollup_or : StatusState → CiStatus → CiStatus
rollup_or StatusState.pending required = CiStatus.pending
rollup_or StatusState.expected required = CiStatus.expected
rollup_or _ required = required

-- `overallCIStatus`
unfoldable pub overall_ci_status : StatusState → List CiJobStatus → CiStatus
unfolding required_ci_status rollup_or
overall_ci_status rollup statuses = elim (required_ci_status statuses) [
  | CiStatus.expected ↦ CiStatus.expected
  | required ↦ rollup_or rollup required
]

-- `statusesByName`
abbrev pub StatusMap : Type 0
StatusMap = List (String × CiJobStatus)

-- The first loop of `toCIJobStatuses`: the required contexts.
unfoldable pub add_required : StatusMap → List String → Result StatusMap
add_required m [] = ok m
add_required m (context ∷ contexts) = elim (lookup context m) [
  | some _ ↦ err (message "found 2 required status with the same context values")
  | none ↦
      add_required
        (insert context
          (record { name = context; status = CiStatus.expected; required = true; job_url = "" }) m)
        contexts
]

-- The body of the other two loops once the status is known: an entry is overwritten in place, and
-- a name that has no entry is added as a job that is not required.
unfoldable pub report : String → CiStatus → String → StatusMap → StatusMap
report name status url m = elim (lookup name m) [
  | some entry ↦ insert name (record entry { status = status; job_url = url }) m
  | none ↦ insert name (record { name = name; status = status; required = false; job_url = url }) m
]

-- The second loop of `toCIJobStatuses`: the check runs.
unfoldable pub add_check_runs : StatusMap → List CheckRun → Result StatusMap
unfolding report
add_check_runs m [] = ok m
add_check_runs m (run ∷ runs) = elim (check_run_result_to_ci_status run.status run.conclusion) [
  | err e ↦ err (wrapped "converting checkRun CIstatus failed" e)
  | ok status ↦ add_check_runs (report run.name status run.details_url m) runs
]

-- The third loop of `toCIJobStatuses`: the commit statuses.
unfoldable pub add_commit_statuses : StatusMap → List StatusContext → Result StatusMap
unfolding report
add_commit_statuses m [] = ok m
add_commit_statuses m (s ∷ statuses) = elim (context_status_state_to_ci_status s.state) [
  | err e ↦ err (wrapped "converting status context to CIstatus failed" e)
  | ok status ↦ add_commit_statuses (report s.context status s.target_url m) statuses
]

-- `toCIJobStatuses` up to its result, the map of the statuses by name.
unfoldable pub statuses_by_name :
    List String → List CheckRun → List StatusContext → Result StatusMap
unfolding add_required add_check_runs add_commit_statuses
statuses_by_name required_checks check_runs commit_statuses = do
  m ← add_required [] required_checks
  m' ← add_check_runs m check_runs
  add_commit_statuses m' commit_statuses

-- `toCIJobStatuses`. Go lists the entries of the map in any order; here they stand in the order of
-- their insertion.
unfoldable pub to_ci_job_statuses :
    List String → List CheckRun → List StatusContext → Result (List CiJobStatus)
unfolding statuses_by_name
to_ci_job_statuses required_checks check_runs commit_statuses = do
  m ← statuses_by_name required_checks check_runs commit_statuses
  ok (map (λ e. e.1) m)
