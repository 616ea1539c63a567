-- ===== src/MergeQueue/Events.antt =====
-- internal/mergequeue/coordinator.go: the webhook events that the coordinator processes, with the
-- fields that it reads. A missing part of an event has the zero value that the getters of the GitHub
-- library give. Also internal/mergequeue/basebranch.go and the settings of
-- internal/mergequeue/config.go that decide about events.
pub mod Incoming
pub mod Handlers
pub mod Checks
pub mod Dispatch
pub mod Fresh
pub mod Kept
pub mod Reached
pub mod Effects
pub mod Isolation
use Prim.Native.String.{len, slice}
use text.Mathlib.Text.{starts_with}
use directorius.Prelude.{
  ℕ, String, Bool, ◌&&◌, Option, none, some, List, any, str_eq, if◌then◌else◌,
}
use directorius.Errors.{Result, ok, err, message}
use directorius.MergeQueue.Queue.{BranchId}

-- The settings of `Config` that decide about events. A repository is its owner and its name.
pub record Config : Type 0 where
  pub monitored_repositories : List (String × String)
  pub trigger_on_automerge : Bool
  pub trigger_labels : List String

-- `github.PullRequest`; the assignees are their logins, which may be empty.
pub record GhPullRequest : Type 0 where
  pub number : ℕ
  pub head_ref : String
  pub base_ref : String
  pub user_login : String
  pub title : String
  pub html_href : String
  pub assignees : List String
  pub state : String
  pub merged : Bool

-- `github.PullRequestEvent`; `old_base_ref` is `changes.base.ref.from`.
pub record PullRequestEvent : Type 0 where
  pub action : String
  pub number : ℕ
  pub label_name : String
  pub old_base_ref : Option String
  pub pull_request : Option GhPullRequest

-- `github.PullRequestReviewEvent`
pub record ReviewEvent : Type 0 where
  pub action : String
  pub review_state : String
  pub number : ℕ
  pub head_ref : String
  pub base_ref : String

-- A pull request of a check run.
pub record CheckRunPr : Type 0 where
  pub number : ℕ
  pub head_ref : String
  pub base_ref : String

-- `github.CheckRunEvent`
pub record CheckRunEvent : Type 0 where
  pub conclusion : String
  pub pull_requests : List CheckRunPr

-- `github.StatusEvent`
pub record StatusEvent : Type 0 where
  pub state : String
  pub branches : List String
  pub updated_at : ℕ

-- What an event says; `other` stands for the types that are ignored.
pub data Payload : Type 0 where
  pull_request : PullRequestEvent → Payload
  push : String → Payload
  status : StatusEvent → Payload
  check_run : CheckRunEvent → Payload
  review : ReviewEvent → Payload
  other : Payload

-- An event for the repository of an owner.
pub record Event : Type 0 where
  pub owner : String
  pub repo : String
  pub payload : Payload

-- `isMonitoredRepository`
unfoldable pub is_monitored_repository : Config → String → String → Bool
is_monitored_repository cfg owner repo =
    any (λ r. str_eq r.0 owner && str_eq r.1 repo) cfg.monitored_repositories

-- `NewBaseBranch`
unfoldable pub new_base_branch : String → String → String → Result BranchId
new_base_branch owner repo branch =
    if str_eq owner ""
    then err (message "repositoryOwner is empty")
    else if str_eq repo ""
    then err (message "repository is empty")
    else if str_eq branch ""
    then err (message "branch is empty")
    else ok (record { repository_owner = owner; repository = repo; branch = branch })

-- `branchRefToRef`
unfoldable pub branch_ref_to_ref : String → String
branch_ref_to_ref ref =
    if starts_with ref "refs/heads/" then slice ref (len "refs/heads/") (len ref) else ref

-- `GetBase().GetRef()` of a pull request that may be missing
abbrev pub base_ref_of : Option GhPullRequest → String
base_ref_of none = ""
base_ref_of (some p) = p.base_ref

-- `GetState()`
abbrev pub state_of_pr : Option GhPullRequest → String
state_of_pr none = ""
state_of_pr (some p) = p.state

-- `GetMerged()`
abbrev pub merged_of : Option GhPullRequest → Bool
merged_of none = Bool.false
merged_of (some p) = p.merged

abbrev pub assignees_of : Option GhPullRequest → List String
assignees_of none = List.[]
assignees_of (some p) = p.assignees
