-- ===== src/Tests/Syncing.antt =====
-- Syncing: a repository with two pages of pull requests, one of which has the head label.
use directorius.Prelude.{ℕ, ◌+◌, String, false, ◌≡◌, refl, some, List, [], ◌∷◌, ◌++◌, arith, length}
use directorius.Sorting.{sorted_func}
use directorius.Errors.{message}
use directorius.Retry.{run}
use directorius.MergeQueue.World.{run_call, create_commit_status_of, set_pr}
use directorius.MergeQueue.Coordinator.{is_branch, get_queue}
use directorius.Github.ListPrs.{Pr, PrNode, PrIter, list_prs, page_prs, to_pr}
use directorius.Github.ListPrs.Laws.{remaining}
use directorius.MergeQueue.Events.{new_base_branch}
use directorius.MergeQueue.Sync.{
  SyncItem, enqueue, unlabel, is_queued_head, sync_items, evaluate_actions,
}
use directorius.MergeQueue.Sync.Fetch.{fetch_all}
use directorius.MergeQueue.Sync.Fetch.Laws.{AllSeen, fetch_all_sees_all}
use directorius.MergeQueue.Sync.Perform.{sync_repository}
use directorius.MergeQueue.Sync.First.{IsFirst}
use directorius.MergeQueue.Sync.Heads.{heads, others, sort_items-heads_first, sync_repository_head}
use directorius.MergeQueue.Sync.Init.{Source, init_sync}
use directorius.MergeQueue.Sync.Init.Laws.{IsQueuedAfter, init_sync_queues}
use directorius.MergeQueue.Sync.{sort_items}
use directorius.MergeQueue.Sync.Items.{here}
use directorius.Tests.{env, once}
use directorius.Tests.Branches.{main}
use directorius.Tests.Events.{cfg, no_queues}

abbrev node : ℕ → List String → PrNode
node n labels = record {
  head_ref_name = "feature";
  base_ref_name = "main";
  title = "a change";
  permalink = "";
  author = "alice";
  assignees = [];
  number = n;
  labels = labels;
  enabled_at = 0;
  oid = "c1";
  contexts = ("directorius", "success") ∷ [];
}

abbrev pages : List (List PrNode)
pages =
    (node 6 ("queue" ∷ []) ∷ node 5 ("queue" ∷ []) ∷ [])
    ∷ (node 7 ("first" ∷ "queue" ∷ []) ∷ [])
    ∷ []

abbrev lower : String → String
lower text = text

-- The first query fails.
abbrev iter : PrIter
iter = list_prs pages (some (message "bad gateway") ∷ [])

fetch_all_sees_all_example :
    AllSeen lower
      (λ n. once)
      ([] ++ remaining lower iter)
      (fetch_all lower (length (remaining lower iter) + 1) (λ n. once) iter [])
fetch_all_sees_all_example =
    fetch_all_sees_all lower (length (remaining lower iter) + 1) (λ n. once) iter [] (omega arith)

abbrev source : String → String → Source
source owner repo = record { pages = pages; failures = []; schedule = λ n. once }

abbrev wanted : Pr
wanted = record {
  number = 5;
  branch = "feature";
  base_branch = "main";
  head_commit = "c1";
  author = "alice";
  assignees = [];
  title = "a change";
  link = "";
  statuses = record { context = "directorius"; state = "success" } ∷ [];
  labels = "queue" ∷ [];
  auto_merge_enabled = false;
}

init_sync_queues_example :
    IsQueuedAfter env cfg source main 5 no_queues (init_sync env cfg source no_queues)
unfolding page_prs to_pr sorted_func evaluate_actions new_base_branch
init_sync_queues_example =
    init_sync_queues env cfg source no_queues "o" "r" wanted main here here refl refl

abbrev pr : ℕ → List String → Pr
pr n labels = record {
  number = n;
  branch = "feature";
  base_branch = "main";
  head_commit = "c1";
  author = "alice";
  assignees = [];
  title = "a change";
  link = "";
  statuses = [];
  labels = labels;
  auto_merge_enabled = false;
}

abbrev prs : List Pr
prs = pr 6 ("queue" ∷ []) ∷ pr 7 ("first" ∷ "queue" ∷ []) ∷ []

abbrev head_item : SyncItem
head_item = record { gh_pr = pr 7 ("first" ∷ "queue" ∷ []); actions = unlabel ∷ enqueue ∷ [] }

abbrev other_item : SyncItem
other_item = record { gh_pr = pr 6 ("queue" ∷ []); actions = enqueue ∷ [] }

sort_items-heads_first_example :
    sort_items (other_item ∷ head_item ∷ [])
    ≡ heads (other_item ∷ head_item ∷ []) ++ others (other_item ∷ head_item ∷ [])
sort_items-heads_first_example = sort_items-heads_first (other_item ∷ head_item ∷ [])

-- The pull request 7 has the head label, and stands after another one of the branch.
sync_repository_head_example :
    IsFirst main 7 (sync_repository env "o" "r" cfg prs no_queues).0.coordinator
unfolding sync_repository run run_call create_commit_status_of set_pr is_branch get_queue
    new_base_branch is_queued_head sync_items evaluate_actions
sync_repository_head_example =
    sync_repository_head env "o" "r" cfg prs no_queues main head_item [] [] refl refl tt refl refl
      refl
