-- ===== src/Tests/Statuses.antt =====
-- Statuses: the statuses of CI jobs, the order of pull requests and retries on examples.
use Prim.Native.Nat.{Ordering}
use directorius.Prelude.{
  ℕ, zero, suc, String, Bool, true, false, ◌≡◌, refl, Option, none, some, List, [], ◌∷◌, ◌-◌, arith,
  eq_iff, ltb, inr, lookup, insert, if◌then◌else◌,
}
use directorius.Errors.{Result, ok, Err, message, retryable}
use directorius.Github.CiStatus.{
  CiStatus, CiJobStatus, StatusState, CheckStatusState, CheckConclusionState, CheckRun,
  StatusContext, StatusMap, check_conclusion_to_ci_status, check_run_result_to_ci_status,
  required_ci_status, overall_ci_status, add_required, report, add_check_runs, add_commit_statuses,
  statuses_by_name,
}
use directorius.Github.Summary.{overall_ci_status_hides_failure}
use directorius.Github.Reports.{status_at, required_at, or_else, statuses_by_name_reports}
use directorius.Github.Ready.{IsReported, ready_for_merge-success}
use directorius.Github.CiStatus.{
  to_ci_job_statuses, context_status_state_to_ci_status, required_from, required_step, rollup_or,
}
use directorius.Github.Pages.{
  QueryResult, ReadyForMergeStatus, ready_for_merge, ReviewDecision, Node, Commit, Page, loop_start,
  review_and_ci_status,
}
use directorius.Github.Paging.{
  Serves, last_page, next_page, result_of, review_and_ci_status_complete,
  review_and_ci_status_keeps_old_commit,
}
use directorius.MergeQueue.PullRequest.{PullRequest}
use directorius.MergeQueue.OrderBefore.{order_before}
use directorius.MergeQueue.OrderBefore.Laws.{order_before_cycle}
use directorius.Tests.{build_job, pull_request}

abbrev failed : List CiJobStatus
failed = build_job CiStatus.expected ∷ build_job CiStatus.failure ∷ []

overall_ci_status_hides_failure_example :
    (required_ci_status failed ≡ CiStatus.failure)
    × (overall_ci_status StatusState.pending failed ≡ CiStatus.pending)
overall_ci_status_hides_failure_example = overall_ci_status_hides_failure failed refl

abbrev check_run : String → CheckRun
check_run name = record {
  name = name;
  conclusion = CheckConclusionState.success;
  status = CheckStatusState.completed;
  details_url = "";
}

abbrev no_context : StatusContext
no_context = record { state = StatusState.success; context = ""; target_url = "" }

abbrev lint_context : StatusContext
lint_context = record { state = StatusState.failure; context = "lint"; target_url = "" }

-- A required job that a check run reports, and one that nothing reports.
abbrev reported : StatusMap
reported =
    ("build", record { name = "build"; status = CiStatus.success; required = true; job_url = "" })
    ∷ ("test", record { name = "test"; status = CiStatus.expected; required = true; job_url = "" })
    ∷ []

statuses_by_name_reports_example :
    (status_at "build" reported
      ≡ or_else none (or_else (some CiStatus.success) (some CiStatus.expected)))
    × (required_at "build" reported ≡ true)
unfolding statuses_by_name add_required add_check_runs report add_commit_statuses lookup insert
    check_run_result_to_ci_status check_conclusion_to_ci_status
statuses_by_name_reports_example =
    statuses_by_name_reports "build" ("build" ∷ "test" ∷ []) (check_run "build" ∷ []) []
      {m = reported} refl

abbrev node : String → Node
node name = record { check_run = check_run name; status_context = no_context }

-- A commit with one check run on its page, which has a successor when a cursor is given.
abbrev commit : String → String → Bool → String → Commit
commit oid name has_next cursor = record {
  oid = oid;
  state = StatusState.success;
  nodes = node name ∷ [];
  has_next_page = has_next;
  end_cursor = cursor;
}

abbrev page : Commit → Page
page c = record {
  review_decision = ReviewDecision.approved;
  required_status_check_contexts = "build" ∷ [];
  commits = c ∷ [];
}

abbrev first_commit : Commit
first_commit = commit "c1" "build" true "x"

abbrev last_commit : Commit
last_commit = commit "c1" "test" false ""

abbrev two_pages : ℕ → Option String → Result Page
two_pages zero after = ok (page first_commit)
two_pages (suc n) after = ok (page last_commit)

abbrev two_pages-Serves :
    Serves two_pages "c1" (page last_commit) last_commit 0 none (node "build" ∷ node "test" ∷ [])
two_pages-Serves =
    next_page (page first_commit) first_commit [] refl refl refl refl refl (inr refl, tt)
      (last_page [] refl refl refl refl (inr refl, tt))

review_and_ci_status_complete_example :
    review_and_ci_status 2 two_pages
    ≡ some (
        ok (
          result_of
            (page last_commit)
            last_commit
            "c1"
            loop_start
            (node "build" ∷ node "test" ∷ [])))
review_and_ci_status_complete_example =
    review_and_ci_status_complete 2 two_pages-Serves (omega arith)

abbrev new_commit : Commit
new_commit = commit "c2" "test" false ""

-- HEAD changes after the first page.
abbrev moving : ℕ → Option String → Result Page
moving zero after = ok (page first_commit)
moving (suc n) after = ok (page new_commit)

review_and_ci_status_keeps_old_commit_example :
    review_and_ci_status 3 moving
    ≡ some (
        ok (
          result_of
            (page new_commit)
            new_commit
            "c2"
            (record loop_start { check_runs = check_run "build" ∷ []; status_contexts = [] })
            (node "test" ∷ [])))
review_and_ci_status_keeps_old_commit_example =
    review_and_ci_status_keeps_old_commit moving (page first_commit) (page new_commit)
      (page new_commit) first_commit new_commit new_commit refl refl refl refl refl (inr refl, tt)
      refl refl (λ h. ground (arith, eq_iff "c2" "c1")) refl refl refl (inr refl, tt)

abbrev waiting : ℕ → ℕ → PullRequest
waiting n since = record (pull_request n) { in_active_queue_since = since; enqueued_at = 1000 - n }

order_before_cycle_example :
    (order_before 0 (waiting 2 50000000001) (waiting 1 1) ≡ Ordering.lt)
    × (order_before 0 (waiting 3 100000000001) (waiting 2 50000000001) ≡ Ordering.lt)
    × (order_before 0 (waiting 1 1) (waiting 3 100000000001) ≡ Ordering.lt)
order_before_cycle_example =
    order_before_cycle 0 (waiting 1 1) (waiting 2 50000000001) (waiting 3 100000000001) refl refl
      refl refl refl (omega arith) (omega arith) (omega arith) (omega arith) (omega arith)
      (omega arith) (omega arith) (omega arith) (omega arith)

-- An action that fails until it was tried three times.
abbrev count_to_three : ℕ → ℕ × Option Err
count_to_three n = (suc n, if ltb n 2 then some (retryable 0 (message "again")) else none)

-- The answers of GitHub for a pull request whose one required job succeeded.
abbrev query_result : QueryResult
query_result = record {
  review_decision = ReviewDecision.approved;
  rollup_state = StatusState.success;
  required_contexts = "build" ∷ [];
  check_runs = check_run "build" ∷ [];
  status_contexts = lint_context ∷ [];
  commit = "c1";
}

abbrev ready_status : ReadyForMergeStatus
ready_status = record {
  review_decision = ReviewDecision.approved;
  ci_status = CiStatus.success;
  statuses =
      record { name = "build"; status = CiStatus.success; required = true; job_url = "" }
      ∷ record { name = "lint"; status = CiStatus.failure; required = false; job_url = "" }
      ∷ [];
  commit = "c1";
}

ready_for_merge-success_example : IsReported (some CiStatus.success)
unfolding ready_for_merge to_ci_job_statuses statuses_by_name add_required add_check_runs report
    add_commit_statuses lookup insert check_run_result_to_ci_status check_conclusion_to_ci_status
    context_status_state_to_ci_status overall_ci_status required_ci_status required_from
    required_step rollup_or
ready_for_merge-success_example =
    ready_for_merge-success (λ e. e) query_result ready_status "build" refl refl refl
