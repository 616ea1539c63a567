-- ===== src/MergeQueue/Coordinator/Repository.antt =====
-- internal/mergequeue/coordinator.go: the operations on the queues of a repository, on the priorities
-- and on a whole queue.
use directorius.Prelude.{
  ℕ, String, ◌+◌, none, some, List, [], ◌∷◌, ◌++◌, map, filter, ltb, if◌then◌else◌,
}
use directorius.Prelude.Int.{ℤ}
use directorius.Errors.{ok, err}
use directorius.MergeQueue.World.{Env, World}
use directorius.MergeQueue.Queue.{BranchId, Queue, State, resume_if_positive}
use directorius.MergeQueue.Manage.{
  pause, resume, set_pull_request_priority, suspended_prs_by_branch,
  set_pr_stale_since_if_newer_by_branch, sort_active_queue, contains,
}
use directorius.MergeQueue.Coordinator.{
  Coordinator, get_queue, put_queue, state_of, store, is_repository,
}

-- `set.From`: a set is the list of its members.
unfoldable pub set_from : List String → List String
set_from [] = []
set_from (v ∷ vs) = let rest = set_from vs in if contains rest v then rest else v ∷ rest

-- The loop of `SetPRStaleSinceIfNewerByBranch` over the queues: the pull requests, and the branches
-- that are still missing.
unfoldable pub stale_since_by_branch :
    String
    → String
    → List String
    → ℕ
    → World
    → List (BranchId × Queue)
    → List String
    → World × List String
stale_since_by_branch owner repo names t w [] missing = (w, missing)
stale_since_by_branch owner repo names t w ((b, q) ∷ queues) missing =
    let (s, not_found_in_queue) =
      set_pr_stale_since_if_newer_by_branch names t (record { world = w; q = q }) in
    if is_repository owner repo b
    then stale_since_by_branch owner repo names t s.world queues
        (filter (contains not_found_in_queue) missing)
    else stale_since_by_branch owner repo names t w queues missing

-- `SetPRStaleSinceIfNewerByBranch`
unfoldable pub set_pr_stale_since_by_branch_in :
    String → String → List String → ℕ → Coordinator → Coordinator × List String
unfolding set_from stale_since_by_branch
set_pr_stale_since_by_branch_in owner repo names t c =
    let (w, missing) = stale_since_by_branch owner repo names t c.world c.queues (set_from names) in
    (record c { world = w }, missing)

-- `SuspendedPRsbyBranch` and, for each pull request, `ScheduleProcessPRIfStatusPositive`
unfoldable pub schedule_if_positive : List String → World → Queue → Queue
schedule_if_positive names w q =
    let (prs, missing) = suspended_prs_by_branch (record { world = w; q = q }) (set_from names) in
    record q { action_pool = q.action_pool ++ map resume_if_positive prs }

-- `ResumeIfStatusPositive`
unfoldable pub resume_if_status_positive : String → String → List String → Coordinator → Coordinator
unfolding schedule_if_positive
resume_if_status_positive owner repo names c = record c {
  queues =
      map
        (λ e.
          if is_repository owner repo e.0 then (e.0, schedule_if_positive names c.world e.1) else e)
        c.queues;
}

-- The loop of `SetPullRequestPriorities`: the state and the number of changes.
unfoldable pub set_priorities : List (ℕ × ℤ) → State → State × ℕ
set_priorities [] s = (s, 0)
set_priorities ((n, priority) ∷ updates) s =
    let (s', result) = set_pull_request_priority n priority s in
    let (s'', changes) = set_priorities updates s' in
    (s'', (elim result [ ok _ ↦ changes + 1 | err e ↦ changes ]))

-- `SetPullRequestPriorities`
unfoldable pub set_pull_request_priorities :
    Env → BranchId → List (ℕ × ℤ) → Coordinator → Coordinator
unfolding get_queue put_queue set_priorities
set_pull_request_priorities env b updates c = elim (get_queue b c.queues) [
  | none ↦ c
  | some q ↦
      let (s, changes) = set_priorities updates (state_of c q) in
      store b (if ltb 0 changes then sort_active_queue env s else s) c
]

-- `PauseQueue`
unfoldable pub pause_queue : BranchId → Coordinator → Coordinator
unfolding get_queue put_queue
pause_queue b c = elim (get_queue b c.queues) [
  | none ↦ c
  | some q ↦ store b (state_of c (pause q)) c
]

-- `ResumeQueue`
unfoldable pub resume_queue : BranchId → Coordinator → Coordinator
unfolding get_queue put_queue
resume_queue b c = elim (get_queue b c.queues) [
  | none ↦ c
  | some q ↦ store b (resume (state_of c q)) c
]
