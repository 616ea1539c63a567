-- ===== src/MergeQueue/Manage.antt =====
-- internal/mergequeue/queue.go: the operations that sort, pause, resume and stop a queue, and those
-- that look pull requests up and set their fields.
pub mod Stop
pub mod Touched
pub mod Spared
use Prim.Native.Nat.{Ordering}
use directorius.Prelude.{
  ℕ, String, Bool, true, false, not, Option, none, some, List, [], ◌∷◌, ◌++◌, map, any, filter,
  ◌==◌, str_eq, if◌then◌else◌,
}
use directorius.Prelude.Int.{ℤ}
use directorius.Errors.{Result, ok, err, not_found}
use directorius.OrderedMap.{get, first, as_slice, sort_by_key, len, lookup, foreach}
use directorius.MergeQueue.PullRequest.{
  PullRequest, set_state_unchanged_since, set_state_unchanged_since_if_newer,
}
use directorius.MergeQueue.World.{Task, task_trigger_ci, Ref, Env, World, set_pr}
use directorius.MergeQueue.Queue.{
  Queue, State, RunningOperation, on_pr, order_refs, dequeue_active, schedule_first,
}

-- The comparison of `SortActiveQueue`, for the number of the first pull request.
unfoldable pub compare_keys : Env → State → ℕ → ℕ → ℕ → Ordering
unfolding get
compare_keys env s first_nr a b =
    if a == first_nr
    then Ordering.lt
    else if b == first_nr
    then Ordering.gt
    else elim (get a s.active) [
      | none ↦ Ordering.eq
      | some x ↦ elim (get b s.active) [ none ↦ Ordering.eq | some y ↦ order_refs env s.world x y ]
    ]

-- `SortActiveQueue`
unfoldable pub sort_active_queue : Env → State → State
unfolding compare_keys
sort_active_queue env s = elim (first s.active) [
  | none ↦ s
  | some r ↦ record s {
    q = record s.q { active = sort_by_key (compare_keys env s (s.prs r).number) s.active };
  }
]

-- The context of the running operation is canceled.
unfoldable pub cancel_executing : Queue → Queue
cancel_executing q = elim q.executing [
  | none ↦ q
  | some running ↦ record q { executing = some (record running { canceled = true }) }
]

-- `Stop` up to the wait for `actionPool`. The loop over `suspended` runs after the map is replaced
-- by an empty one, so it does nothing.
unfoldable pub stop : State → State
unfolding cancel_executing
stop s =
    let s₁ : State = record s { q = record s.q { suspended = [] } } in
    let s₂ =
      foreach (λ (t : State). t.active.order)
        (λ r t. record t { q = (dequeue_active (t.prs r).number t.q).0 }) s₁ in
    record s₂ { q = cancel_executing s₂.q }

-- `Pause`
unfoldable pub pause : Queue → Queue
unfolding cancel_executing
pause q = cancel_executing (record q { paused = true })

-- `Resume`
unfoldable pub resume : State → State
resume s =
    let s₁ =
      foreach (λ (t : State). t.active.order) (λ r t. on_pr (set_state_unchanged_since 0) r t) s in
    schedule_first task_trigger_ci (record s₁ { q = record s₁.q { paused = false } })

-- `getPullRequest`
unfoldable pub get_pull_request : ℕ → Queue → Option Ref
get_pull_request n q = elim (lookup n q.suspended) [ some r ↦ some r | none ↦ get n q.active ]

-- `SetPullRequestPriority`
unfoldable pub set_pull_request_priority : ℕ → ℤ → State → State × Result (Unit {0})
unfolding get_pull_request
set_pull_request_priority n priority s = elim (get_pull_request n s.q) [
  | none ↦ (s, err not_found)
  | some r ↦ (on_pr (λ p. record p { priority = priority }) r s, ok tt)
]

-- `SetPRStaleSinceIfNewer`
unfoldable pub set_pr_stale_since_if_newer : ℕ → ℕ → State → State × Result (Unit {0})
unfolding get_pull_request
set_pr_stale_since_if_newer n t s = elim (get_pull_request n s.q) [
  | none ↦ (s, err not_found)
  | some r ↦ (on_pr (set_state_unchanged_since_if_newer t) r s, ok tt)
]

-- A `set.Set` of texts is the list of its members; `Contains`.
abbrev pub contains : List String → String → Bool
contains set v = any (str_eq v) set

-- The loops of `_activePRsByBranch` and `_suspendedPRsbyBranch` over the pull requests of the list:
-- those whose branch is in the set, and the branches for which there is none.
unfoldable pub refs_by_branch : World → List Ref → List String → List Ref × List String
refs_by_branch w refs branches = (
  filter (λ r. contains branches (w.prs r).branch) refs,
  filter (λ b. not (any (λ r. str_eq (w.prs r).branch b) refs)) branches,
)

-- `_activePRsByBranch`
unfoldable pub active_prs_by_branch : State → List String → List Ref × List String
unfolding refs_by_branch
active_prs_by_branch s branches = refs_by_branch s.world (as_slice s.active) branches

-- `_suspendedPRsbyBranch`
unfoldable pub suspended_prs_by_branch : State → List String → List Ref × List String
unfolding refs_by_branch
suspended_prs_by_branch s branches = refs_by_branch s.world (map (λ e. e.1) s.suspended) branches

-- `prsByBranch`: an active pull request counts only for a branch with no suspended one.
unfoldable pub prs_by_branch : State → List String → List Ref × List String
unfolding active_prs_by_branch suspended_prs_by_branch
prs_by_branch s branches =
    let (suspended, missing) = suspended_prs_by_branch s branches in
    let (active, unknown) = active_prs_by_branch s missing in (suspended ++ active, unknown)

-- The loop of `SetPRStaleSinceIfNewerByBranch`.
unfoldable pub set_stale_since : ℕ → List Ref → State → State
set_stale_since t [] s = s
set_stale_since t (r ∷ rs) s =
    set_stale_since t rs (on_pr (set_state_unchanged_since_if_newer t) r s)

-- `SetPRStaleSinceIfNewerByBranch`: the branches for which no pull request was found.
unfoldable pub set_pr_stale_since_if_newer_by_branch : List String → ℕ → State → State × List String
unfolding prs_by_branch set_stale_since
set_pr_stale_since_if_newer_by_branch branches t s =
    let (prs, unknown) = prs_by_branch s branches in (set_stale_since t prs s, unknown)
