-- ===== src/MergeQueue/PullRequest.antt =====
-- internal/mergequeue/pullrequest.go: a pull request and its setters. A time is a number of
-- nanoseconds, and 0 is the zero time. The log fields and the locks are left out.
use directorius.Prelude.{ℕ, String, Bool, false, List, [], leb, ltb, ◌==◌, str_eq, if◌then◌else◌}
use directorius.Prelude.Int.{ℤ, pos}
use directorius.Errors.{message, Result, ok, err}

-- `githubclt.StatusState`; `unset` is the empty text.
pub data StatusState : Type 0 where
  unset pending success error failure : StatusState

-- `jenkins.Build` without its URL
pub record Build : Type 0 where
  pub job_name : String
  pub number : ℕ

-- `ReportedStatusState`
pub record ReportedStatusState : Type 0 where
  pub commit : String
  pub state : StatusState

-- `PullRequest`
pub record PullRequest : Type 0 where
  pub number : ℕ
  pub branch : String
  pub author : String
  pub title : String
  pub link : String
  pub assignees : List String
  pub in_active_queue_since : ℕ
  pub enqueued_at : ℕ
  pub priority : ℤ
  pub suspend_count : ℕ
  pub last_started_ci_builds : List (String × Build)
  pub ci_triggered_commit : String
  pub state_unchanged_since : ℕ
  pub github_status_last_set_state : ReportedStatusState
  pub has_head_label : Bool

abbrev pub u32_mod : ℕ
u32_mod = 4294967296

-- `NewPullRequest`, at the time `now`. A number below 1 is 0 here.
unfoldable pub new_pull_request : ℕ → ℕ → String → String → String → String → Result PullRequest
new_pull_request now nr branch author title link =
    if leb nr 0
    then err (message "number must be >0")
    else if str_eq branch ""
    then err (message "branch is empty")
    else ok (record {
      number = nr;
      branch = branch;
      author = author;
      title = title;
      link = link;
      assignees = [];
      in_active_queue_since = 0;
      enqueued_at = now;
      priority = pos 0;
      suspend_count = 0;
      last_started_ci_builds = [];
      ci_triggered_commit = "";
      state_unchanged_since = 0;
      github_status_last_set_state = record { commit = ""; state = StatusState.unset };
      has_head_label = false;
    })

-- `SetStateUnchangedSinceIfNewer`
unfoldable pub set_state_unchanged_since_if_newer : ℕ → PullRequest → PullRequest
set_state_unchanged_since_if_newer t p =
    if ltb p.state_unchanged_since t then record p { state_unchanged_since = t } else p

-- `SetStateUnchangedSince`
unfoldable pub set_state_unchanged_since : ℕ → PullRequest → PullRequest
set_state_unchanged_since t p = record p { state_unchanged_since = t }

-- `SetStateUnchangedSinceIfZero`
unfoldable pub set_state_unchanged_since_if_zero : ℕ → PullRequest → PullRequest
set_state_unchanged_since_if_zero t p =
    if p.state_unchanged_since == 0 then record p { state_unchanged_since = t } else p

-- `SetInActiveQueueSince`, at the time `now`
unfoldable pub set_in_active_queue_since : ℕ → PullRequest → PullRequest
set_in_active_queue_since now p = record p { in_active_queue_since = now }

-- `SetLastStartedCIBuilds`
unfoldable pub set_last_started_ci_builds : List (String × Build) → PullRequest → PullRequest
set_last_started_ci_builds m p = record p { last_started_ci_builds = m }

-- `SetCITriggeredCommit`
unfoldable pub set_ci_triggered_commit : String → PullRequest → PullRequest
set_ci_triggered_commit commit p = record p { ci_triggered_commit = commit }

-- `SetAssignees`
unfoldable pub set_assignees : List String → PullRequest → PullRequest
set_assignees logins p = record p { assignees = logins }
