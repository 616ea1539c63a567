-- ===== src/MergeQueue/Sync.antt =====
-- internal/mergequeue/sync.go: the initial synchronisation of the queues with GitHub. The log is left
-- out.
pub mod Fetch
pub mod Perform
pub mod First
pub mod Stepped
pub mod Actions
pub mod Items
pub mod Complete
pub mod Heads
pub mod Init
use Prim.Native.Nat.{Ordering}
use directorius.Prelude.{
  String, Bool, true, false, ◌&&◌, not, List, [], ◌∷◌, ◌++◌, any, str_eq, if◌then◌else◌,
}
use directorius.Sorting.{sorted_func}
use directorius.Github.ListPrs.{Pr, Status}
use directorius.MergeQueue.Manage.{contains}
use directorius.MergeQueue.Events.{Config}

-- `syncAction`
pub data SyncAction : Type 0 where
  undefined enqueue unlabel reset_status_state : SyncAction

-- `syncItem`
pub record SyncItem : Type 0 where
  pub gh_pr : Pr
  pub actions : List SyncAction

abbrev pub is_enqueue : SyncAction → Bool
is_enqueue enqueue = true
is_enqueue _ = false

abbrev pub is_unlabel : SyncAction → Bool
is_unlabel unlabel = true
is_unlabel _ = false

-- `isQueuedHead`
unfoldable pub is_queued_head : SyncItem → Bool
is_queued_head s = any is_enqueue s.actions && any is_unlabel s.actions

-- `appName`
abbrev pub app_name : String
app_name = "directorius"

-- The loop of `evaluateActions` over the labels.
unfoldable pub label_actions : Config → String → List String → List SyncAction
label_actions cfg head_label [] = []
label_actions cfg head_label (label ∷ labels) =
    let rest = label_actions cfg head_label labels in
    if str_eq label head_label
    then unlabel ∷ rest
    else if contains cfg.trigger_labels label
    then enqueue ∷ rest
    else rest

-- The loop of `evaluateActions` over the commit statuses.
unfoldable pub status_actions : List Status → List SyncAction
status_actions [] = []
status_actions (s ∷ statuses) =
    let rest = status_actions statuses in
    if str_eq s.context app_name && not (str_eq s.state "pending")
    then reset_status_state ∷ rest
    else rest

-- `evaluateActions`
unfoldable pub evaluate_actions : Config → String → Pr → List SyncAction
unfolding label_actions status_actions
evaluate_actions cfg head_label pr =
    let merging = if pr.auto_merge_enabled && cfg.trigger_on_automerge then enqueue ∷ [] else [] in
    label_actions cfg head_label pr.labels ++ (merging ++ status_actions pr.statuses)

-- The items of the pull requests that are not in sync.
unfoldable pub sync_items : Config → String → List Pr → List SyncItem
unfolding evaluate_actions
sync_items cfg head_label [] = []
sync_items cfg head_label (pr ∷ prs) =
    let rest = sync_items cfg head_label prs in
    elim (evaluate_actions cfg head_label pr) [
      | [] ↦ rest
      | a ∷ actions ↦ record { gh_pr = pr; actions = a ∷ actions } ∷ rest
    ]

-- The comparison of `slices.SortStableFunc`: queued heads come first.
unfoldable pub compare_items : SyncItem → SyncItem → Ordering
unfolding is_queued_head
compare_items x y =
    if is_queued_head x
    then if is_queued_head y then Ordering.eq else Ordering.lt
    else if is_queued_head y
    then Ordering.gt
    else Ordering.eq

unfoldable pub sort_items : List SyncItem → List SyncItem
unfolding compare_items sorted_func
sort_items items = sorted_func compare_items items
