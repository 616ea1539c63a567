-- ===== src/Tests/Updates.antt =====
-- Updates: the answers of GitHub for a pull request that contains its base branch.
use directorius.Prelude.{ℕ, String, false, ◌≡◌, refl, ◌⊎◌, Option, none, some, str_eq}
use directorius.Github.Client.{
  RestError, Answer, answered, RestPullRequest, UpdateBranchResult, branch_is_behind_base, compared,
  pr_is_uptodate, update_branch_of,
}
use directorius.Github.Client.Update.{IsNotBehind, HasNoNewCommits, update_branch_unchanged}

abbrev open_request : RestPullRequest
open_request = record {
  state = "open";
  mergeable_state = "clean";
  head = some ("c1", "feature");
  base = some "main";
}

abbrev not_behind : String → String → Answer (Option ℕ)
not_behind base sha = answered (some 0)

abbrev no_update : String → Option RestError
no_update sha = none

abbrev unchanged : UpdateBranchResult
unchanged = record { changed = false; scheduled = false; head_commit_id = "c1" }

update_branch_unchanged_example :
    (str_eq "open" "closed" ≡ false)
    × (str_eq "c1" "" ≡ false)
    × (IsNotBehind open_request not_behind "c1" ⊎ HasNoNewCommits (no_update "c1"))
unfolding pr_is_uptodate compared branch_is_behind_base update_branch_of
update_branch_unchanged_example =
    update_branch_unchanged open_request not_behind no_update unchanged refl refl
