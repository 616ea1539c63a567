-- ===== src/MergeQueue/Coordinator.antt =====
-- internal/mergequeue/coordinator.go: the queues of the base branches and the operations on them.
-- Each operation runs under `queuesLock`. A Go map stands as the list of its entries, in the order in
-- which a loop visits them.
pub mod Find
pub mod Valid
pub mod Moves
pub mod Drained
pub mod Repository
pub mod Keeps
pub mod Kept
use directorius.Prelude.{
  ℕ, zero, suc, String, Bool, true, false, ◌&&◌, not, Option, none, some, List, [], ◌∷◌, ◌++◌, map,
  any, filter, length, ltb, ◌==◌, ◌+◌, str_eq, if◌then◌else◌,
}
use directorius.Prelude.Int.{ℤ}
use directorius.Errors.{Err, Result, ok, err, not_found, wrapped, is_not_found, message}
use directorius.OrderedMap.{lookup}
use directorius.MergeQueue.PullRequest.{set_assignees}
use directorius.MergeQueue.World.{Task, task_none, Ref, Env, World}
use directorius.MergeQueue.Queue.{
  BranchId, Queue, State, Work, resume_if_positive, on_pr, new_queue, is_empty, first_active,
  schedule_first, enqueue, dequeue_pr, resume_pr,
}
use directorius.MergeQueue.Manage.{
  pause, resume, get_pull_request, set_pull_request_priority, set_pr_stale_since_if_newer,
  suspended_prs_by_branch, set_pr_stale_since_if_newer_by_branch, sort_active_queue, contains,
}
use directorius.MergeQueue.Process.{work_next}

-- `Coordinator`
pub record Coordinator : Type 0 where
  pub world : World
  pub queues : List (BranchId × Queue)
  pub head_label : String

unfoldable pub is_branch : BranchId → BranchId → Bool
is_branch a b =
    str_eq a.repository_owner b.repository_owner
    && str_eq a.repository b.repository
    && str_eq a.branch b.branch

-- `a.queues[b]`, which `getQueue` returns; `none` is nil.
unfoldable pub get_queue : BranchId → List (BranchId × Queue) → Option Queue
unfolding is_branch
get_queue b [] = none
get_queue b ((c, q) ∷ queues) = if is_branch c b then some q else get_queue b queues

-- `a.queues[b] = q`, and what an operation on the queue behind the pointer leaves
unfoldable pub put_queue : BranchId → Queue → List (BranchId × Queue) → List (BranchId × Queue)
put_queue b q [] = (b, q) ∷ []
put_queue b q ((c, p) ∷ queues) =
    let rest = put_queue b q queues in if is_branch c b then (c, q) ∷ queues else (c, p) ∷ rest

-- `delete(a.queues, b)`
unfoldable pub delete_queue : BranchId → List (BranchId × Queue) → List (BranchId × Queue)
delete_queue b [] = []
delete_queue b ((c, p) ∷ queues) =
    let rest = delete_queue b queues in if is_branch c b then rest else (c, p) ∷ rest

-- A queue as an operation of it sees it.
abbrev pub state_of : Coordinator → Queue → State
state_of c q = record { world = c.world; q = q }

-- The coordinator after an operation on the queue of the branch.
abbrev pub store : BranchId → State → Coordinator → Coordinator
store b s c = record c { world = s.world; queues = put_queue b s.q c.queues }

-- The queue of the branch, or a new one.
abbrev pub queue_or_new : BranchId → Coordinator → Queue
queue_or_new b c = elim (get_queue b c.queues) [ some q ↦ q | none ↦ new_queue b c.head_label ]

-- `Enqueue`; a new queue stays when an error is returned.
unfoldable pub enqueue_in : Env → BranchId → Ref → Coordinator → Coordinator × Result (Unit {0})
unfolding get_queue put_queue
enqueue_in env b r c =
    let (s, result) = enqueue env r (state_of c (queue_or_new b c)) in (store b s c, result)

-- `Wait`: the worker runs the work that waits.
unfoldable pub drain : ℕ → Env → State → State
drain zero env s = s
drain (suc n) env s = drain n env (work_next env s)

unfoldable pub wait : Env → State → State
unfolding drain
wait env s = drain (length s.action_pool) env s

-- An empty queue is removed.
unfoldable pub remove_if_empty : Env → BranchId → State → Coordinator → Coordinator
unfolding wait delete_queue put_queue is_empty
remove_if_empty env b s c =
    if is_empty s.q
    then record c { world = (wait env s).world; queues = delete_queue b c.queues }
    else store b s c

-- `Dequeue`
unfoldable pub dequeue_from : Env → BranchId → ℕ → Bool → Coordinator → Coordinator × Result Ref
unfolding get_queue remove_if_empty
dequeue_from env b n set_pending c = elim (get_queue b c.queues) [
  | none ↦ (c, err (wrapped "no queue for base branch exist" not_found))
  | some q ↦
      let (s, result) = dequeue_pr env n set_pending (state_of c q) in
      (
        remove_if_empty env b s c,
        elim result [ ok r ↦ ok r | err e ↦ err (wrapped "removing pr from merge queue failed" e) ],
      )
]

-- The end of `ChangeBaseBranch`, from the results of `Dequeue`.
unfoldable pub enqueue_moved :
    Env → BranchId → Coordinator × Result Ref → Coordinator × Result (Unit {0})
unfolding enqueue_in
enqueue_moved env b (c, err e) =
    (c, err (wrapped "could not remove pr from queue for old base branch" e))
enqueue_moved env b (c, ok r) =
    let (c', result) = enqueue_in env b r c in
    (
      c',
      elim result [
        | ok _ ↦ ok tt
        | err e ↦ err (wrapped "could not enqueue in queue for new base branch" e)
      ],
    )

-- `ChangeBaseBranch`
unfoldable pub change_base_branch :
    Env → BranchId → BranchId → ℕ → Coordinator → Coordinator × Result (Unit {0})
unfolding dequeue_from enqueue_moved
change_base_branch env old new n c = enqueue_moved env new (dequeue_from env old n true c)

-- What the operations on the queue of a branch share: the error if there is none.
unfoldable pub with_queue {ℓ} :
    {A : Type ℓ} → BranchId → (State → State × Result A) → Coordinator → Coordinator × Result A
unfolding get_queue put_queue
with_queue b f c = elim (get_queue b c.queues) [
  | none ↦ (c, err not_found)
  | some q ↦ let (s, result) = f (state_of c q) in (store b s c, result)
]

-- `Resume`
unfoldable pub resume_in : Env → BranchId → ℕ → Coordinator → Coordinator × Result (Unit {0})
unfolding with_queue
resume_in env b n = with_queue b (resume_pr env n)

-- `SetPRStaleSinceIfNewer`
unfoldable pub set_pr_stale_since_in :
    BranchId → ℕ → ℕ → Coordinator → Coordinator × Result (Unit {0})
unfolding with_queue
set_pr_stale_since_in b n t = with_queue b (set_pr_stale_since_if_newer n t)

-- `SetPRAssignees`
unfoldable pub set_pr_assignees :
    BranchId → ℕ → List String → Coordinator → Coordinator × Result (Unit {0})
unfolding with_queue
set_pr_assignees b n logins = with_queue b (λ s. elim (get_pull_request n s.q) [
  | none ↦ (s, err not_found)
  | some r ↦ (on_pr (set_assignees logins) r s, ok tt)
])

-- `PRSpecifier`
pub data PrSpecifier : Type 0 where
  pr_number : ℕ → PrSpecifier
  pr_branch : String → PrSpecifier

unfoldable pub is_specified : World → PrSpecifier → Ref → Bool
is_specified w (pr_number n) r = (w.prs r).number == n
is_specified w (pr_branch name) r = str_eq (w.prs r).branch name

-- `_triggerProcessPRIfFirst`
unfoldable pub trigger_if_first : PrSpecifier → Task → State → State × Result Ref
unfolding is_specified
trigger_if_first spec task s = elim (first_active s.q) [
  | none ↦ (s, err not_found)
  | some r ↦
      if is_specified s.world spec r then (schedule_first task s, ok r) else (s, err not_found)
]

-- `TriggerProcessPRIfFirst`
unfoldable pub trigger_process_pr_if_first :
    BranchId → PrSpecifier → Task → Coordinator → Coordinator × Result Ref
unfolding with_queue trigger_if_first
trigger_process_pr_if_first b spec task = with_queue b (trigger_if_first spec task)

abbrev pub is_repository : String → String → BranchId → Bool
is_repository owner repo b = str_eq b.repository repo && str_eq b.repository_owner owner

-- The loop of `TriggerProcessPRIfFirstAllQueues`.
unfoldable pub trigger_all :
    String
    → String
    → PrSpecifier
    → World
    → List (BranchId × Queue)
    → List (BranchId × Queue) × Result Ref
unfolding trigger_if_first
trigger_all owner repo spec w [] = ([], err not_found)
trigger_all owner repo spec w ((b, q) ∷ queues) =
    let (later, found) = trigger_all owner repo spec w queues in
    let (s, result) = trigger_if_first spec task_none (record { world = w; q = q }) in
    if not (is_repository owner repo b) then ((b, q) ∷ later, found) else elim result [
      | ok r ↦ ((b, s.q) ∷ queues, ok r)
      | err e ↦
          if is_not_found e
          then ((b, s.q) ∷ later, found)
          else ((b, s.q) ∷ queues, err (wrapped "queue" e))
    ]

-- `TriggerProcessPRIfFirstAllQueues`
unfoldable pub trigger_process_pr_if_first_all_queues :
    String → String → PrSpecifier → Coordinator → Coordinator × Result Ref
unfolding trigger_all
trigger_process_pr_if_first_all_queues owner repo spec c =
    let (queues, result) = trigger_all owner repo spec c.world c.queues in
    (record c { queues = queues }, result)
