-- ===== src/Github/Client.antt =====
-- internal/githubclt/client.go and errors.go: updating a pull request with its base branch, removing a
-- label, and which errors are retried. The answers of the REST API are parameters.
pub mod Update
use directorius.Prelude.{
  ℕ, String, Bool, true, false, ◌&&◌, not, ◌≡◌, refl, ◌⊎◌, inl, inr, Option, none, some, leb, ltb,
  ◌==◌, str_eq, if◌then◌else◌, arith, Bool-cases,
}
use text.Mathlib.Text.{find?}
use directorius.Errors.{
  Err, Result, ok, err, message, wrapped, merge_conflict, github_pull_request_is_closed,
  new_retryable_error, new_retryable_anytime_error, Result-cases,
}

-- The errors of the REST library that the client tells apart.
pub data RestError : Type 0 where
  -- `RateLimitError` with the time of the reset
  rate_limit_error : ℕ → RestError
  -- `ErrorResponse` with the HTTP status and the message
  error_response : ℕ → String → RestError
  -- `AcceptedError`
  accepted_error : RestError
  other_error : String → RestError

pub data Answer {ℓ} (A : Type ℓ) : Type ℓ where
  answered : A → Answer A
  refused : RestError → Answer A

-- The error as a Go value; its text is the message only.
abbrev pub cause_of : RestError → Err
cause_of (rate_limit_error reset) = message "rate limit exceeded"
cause_of (error_response status text) = message text
cause_of accepted_error = message "job scheduled on GitHub side; try again later"
cause_of (other_error text) = message text

abbrev pub is_server_error : ℕ → Bool
is_server_error status = leb 500 status && ltb status 600

-- `wrapRESTRetryableErrors`
unfoldable pub wrap_rest_retryable_errors : RestError → Err
unfolding new_retryable_error new_retryable_anytime_error
wrap_rest_retryable_errors (rate_limit_error reset) =
    new_retryable_error (cause_of (rate_limit_error reset)) reset
wrap_rest_retryable_errors (error_response status text) =
    let e = cause_of (error_response status text) in
    if is_server_error status then new_retryable_anytime_error e else e
wrap_rest_retryable_errors e = cause_of e

-- The fields of a pull request that are read; a missing text is empty.
pub record RestPullRequest : Type 0 where
  pub state : String
  pub mergeable_state : String
  -- the SHA and the branch
  pub head : Option (String × String)
  pub base : Option String

-- `BranchIsBehindBase`, from the field `BehindBy` of the answer
unfoldable pub branch_is_behind_base : Answer (Option ℕ) → Result Bool
unfolding wrap_rest_retryable_errors
branch_is_behind_base (refused e) = err (wrap_rest_retryable_errors e)
branch_is_behind_base (answered none) =
    err (new_retryable_anytime_error (message "github returned a nil BehindBy field"))
branch_is_behind_base (answered (some n)) = ok (ltb 0 n)

-- The end of `PRIsUptodate`.
unfoldable pub compared : String → Result Bool → Result (Bool × String)
compared sha (err e) = err (wrapped "evaluating if branch is behind base failed" e)
compared sha (ok is_behind) = ok (not is_behind, sha)

-- `PRIsUptodate`; the second argument answers the comparison of a base branch with a commit.
unfoldable pub pr_is_uptodate :
    Answer RestPullRequest → (String → String → Answer (Option ℕ)) → Result (Bool × String)
unfolding wrap_rest_retryable_errors branch_is_behind_base compared
pr_is_uptodate (refused e) compare_commits = err (wrap_rest_retryable_errors e)
pr_is_uptodate (answered pr) compare_commits =
    if str_eq pr.state "closed" then err github_pull_request_is_closed else elim pr.head [
      | none ↦ err (message "got pull request object with empty head")
      | some (sha, ref) ↦
          if str_eq sha ""
          then err (message "got pull request object with empty head sha")
          else if str_eq pr.mergeable_state "behind"
          then ok (false, sha)
          else if str_eq ref ""
          then err (message "got pull request object with empty ref field")
          else elim pr.base [
            | none ↦ err (message "got pull request object with empty base field")
            | some base ↦
                if str_eq base ""
                then err (message "got pull request object with empty base ref field")
                else compared sha (branch_is_behind_base (compare_commits base sha))
          ]
    ]

-- `UpdateBranchResult`
pub record UpdateBranchResult : Type 0 where
  pub changed : Bool
  pub scheduled : Bool
  pub head_commit_id : String

abbrev pub mentions : String → String → Bool
mentions text words = elim (find? text words) [ none ↦ false | some _ ↦ true ]

-- What `UpdateBranch` makes of the answer to the request that updates the branch at the commit.
unfoldable pub updated : String → Option RestError → Result UpdateBranchResult
unfolding wrap_rest_retryable_errors
updated sha none = ok (record { changed = true; scheduled = false; head_commit_id = sha })
updated sha (some accepted_error) =
    ok (record { changed = true; scheduled = true; head_commit_id = "" })
updated sha (some (error_response status text)) =
    let e = cause_of (error_response status text) in
    if status == 422 && mentions text "merge conflict"
    then err (merge_conflict e)
    else if status == 422 && mentions text "expected head sha didn’t match current head ref"
    then err (new_retryable_anytime_error e)
    else if status == 422 && mentions text "no new commits on the base branch"
    then ok (record { changed = false; scheduled = false; head_commit_id = sha })
    else err (wrap_rest_retryable_errors (error_response status text))
updated sha (some e) = err (wrap_rest_retryable_errors e)

-- `UpdateBranch`, from the result of `PRIsUptodate`; the second argument answers the request for the
-- expected head commit, which is sent only if it is needed.
unfoldable pub update_branch_of :
    Result (Bool × String) → (String → Option RestError) → Result UpdateBranchResult
unfolding updated
update_branch_of (err e) request =
    err (wrapped "evaluating if PR is up-to-date with base branch failed" e)
update_branch_of (ok (true, sha)) request =
    ok (record { changed = false; scheduled = false; head_commit_id = sha })
update_branch_of (ok (false, sha)) request = updated sha (request sha)

-- `wrapGraphQLRetryableErrors`; the first argument reads the HTTP status out of the text.
unfoldable pub wrap_graph_ql_retryable_errors : (Err → Option ℕ) → Err → Err
wrap_graph_ql_retryable_errors status_of e = elim (status_of e) [
  | none ↦ e
  | some status ↦ if is_server_error status then new_retryable_anytime_error e else e
]

-- `RemoveLabel`, from the answer to the request: an error that is no `ErrorResponse` is dropped.
unfoldable pub remove_label_of : (Err → Option ℕ) → Option RestError → Option Err
unfolding wrap_graph_ql_retryable_errors
remove_label_of status_of none = none
remove_label_of status_of (some (error_response status text)) =
    if status == 404
    then none
    else some (wrap_graph_ql_retryable_errors status_of (cause_of (error_response status text)))
remove_label_of status_of (some e) = none
