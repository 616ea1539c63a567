-- ===== src/MergeQueue/Queue.antt =====
-- internal/mergequeue/queue.go: the state of a queue and its operations, without `processPR`. The
-- metrics and the log are left out. Each operation runs under the lock of the queue, or calls one
-- that does.
pub mod Place
pub mod Entries
pub mod ResumeAll
pub mod Valid
pub mod Head
pub mod Free
pub mod Spared
use Prim.Native.Nat.{Ordering, ◌%◌}
use directorius.Prelude.{
  ℕ, ◌+◌, String, Bool, true, false, ◌&&◌, not, Option, none, some, List, [], ◌∷◌, ◌++◌, map, any,
  filter, length, ltb, ◌==◌, str_eq, if◌then◌else◌,
}
use directorius.Prelude.Int.{ℤ}
use directorius.Errors.{Err, Result, ok, err, not_found, already_exists, wrapped, is_already_exists}
use directorius.OrderedMap.{
  Element, Map, new, insert_if_not_exist, get, dequeue, first, as_slice, next, sort_by_key, len,
  lookup, delete, insert,
}
use directorius.MergeQueue.PullRequest.{
  PullRequest, StatusState, set_state_unchanged_since, set_state_unchanged_since_if_newer,
  set_in_active_queue_since, set_ci_triggered_commit, u32_mod,
}
use directorius.MergeQueue.OrderBefore.{order_before}
use directorius.MergeQueue.World.{
  Task, task_none, task_trigger_ci, Ref, Env, World, set_pr, pr_add_queue_head_label,
  pr_remove_queue_head_label, pr_create_commit_status,
}

-- `BranchID`
pub record BranchId : Type 0 where
  pub repository_owner : String
  pub repository : String
  pub branch : String

-- `runningOperation`; the flag tells that its context was canceled.
pub record RunningOperation : Type 0 where
  pub pr : ℕ
  pub canceled : Bool

-- The functions that are queued in `actionPool`.
pub data Work : Type 0 where
  process_pr : Ref → Task → Work
  resume_if_positive : Ref → Work

-- `queue`
pub record Queue : Type 0 where
  pub base_branch : BranchId
  pub active : Map Ref
  pub suspended : List (ℕ × Ref)
  -- the work that waits in `actionPool`, the oldest first
  pub action_pool : List Work
  pub executing : Option RunningOperation
  pub process_pr_runs : ℕ
  pub stale_timeout : ℕ
  pub update_branch_poll_interval : ℕ
  pub head_label : String
  pub paused : Bool

-- A queue and what it shares with the others.
pub record State : Type 0 where
  pub world : World
  pub open world use *
  pub q : Queue
  pub open q use *

abbrev pub def_stale_timeout : ℕ
def_stale_timeout = 10800000000000

abbrev pub update_branch_poll_interval_default : ℕ
update_branch_poll_interval_default = 2000000000

-- `newQueue`
unfoldable pub new_queue : BranchId → String → Queue
new_queue base head_label = record {
  base_branch = base;
  active = new;
  suspended = [];
  action_pool = [];
  executing = none;
  process_pr_runs = 0;
  stale_timeout = def_stale_timeout;
  update_branch_poll_interval = update_branch_poll_interval_default;
  head_label = head_label;
  paused = false;
}

abbrev pub on_pr : (PullRequest → PullRequest) → Ref → State → State
on_pr f r s = record s { world = set_pr f r s.world }

-- `IsEmpty`
unfoldable pub is_empty : Queue → Bool
is_empty q = len q.active == 0 && length q.suspended == 0

-- `FirstActive`
abbrev pub first_active : Queue → Option Ref
first_active q = first q.active

-- `orderBefore` on pointers
abbrev pub order_refs : Env → World → Ref → Ref → Ordering
order_refs env w x y = order_before env.now (w.prs x) (w.prs y)

-- `scheduleProcessPR`
unfoldable pub schedule_process_pr : Ref → Task → State → State
schedule_process_pr r task s = record s {
  q = record s.q { action_pool = s.action_pool ++ process_pr r task ∷ [] };
}

-- `ScheduleProcessPR`
unfoldable pub schedule_first : Task → State → State
unfolding schedule_process_pr
schedule_first task s = elim (first_active s.q) [ none ↦ s | some r ↦ schedule_process_pr r task s ]

-- The end of `_enqueueActive`, from the results of `InsertIfNotExist`.
unfoldable pub enqueued : Ref → Map Ref × Bool × Bool → State → State × Result (Unit {0})
unfolding schedule_process_pr
enqueued r (m, new_first, false) s =
    (s, err (wrapped "pull request already exist in active queue" already_exists))
enqueued r (m, false, true) s = (record s { q = record s.q { active = m } }, ok tt)
enqueued r (m, true, true) s =
    (schedule_process_pr r task_trigger_ci (record s { q = record s.q { active = m } }), ok tt)

-- `_enqueueActive`
unfoldable pub enqueue_active : Env → Ref → State → State × Result (Unit {0})
unfolding enqueued
enqueue_active env r s =
    let s₁ = on_pr (set_in_active_queue_since env.now) r s in
    enqueued r (insert_if_not_exist (order_refs env s₁.world) (s₁.prs r).number r s₁.active) s₁

-- `Enqueue`
unfoldable pub enqueue : Env → Ref → State → State × Result (Unit {0})
unfolding enqueue_active
enqueue env r s = elim (lookup (s.prs r).number s.suspended) [
  | some _ ↦ (s, err (wrapped "pull request already exist in suspend queue" already_exists))
  | none ↦ enqueue_active env r s
]

-- `_dequeueSuspended`
unfoldable pub dequeue_suspended : ℕ → Queue → Queue × Result Ref
dequeue_suspended n q = elim (lookup n q.suspended) [
  | none ↦ (q, err not_found)
  | some r ↦ (record q { suspended = delete n q.suspended }, ok r)
]

abbrev pub is_same_ref : Option Ref → Option Ref → Bool
is_same_ref none none = true
is_same_ref (some a) (some b) = a == b
is_same_ref _ _ = false

-- `_dequeueActive`: the removed pull request, and the new first one if the first one changed.
unfoldable pub dequeue_active : ℕ → Queue → Queue × Option Ref × Option Ref
dequeue_active n q =
    let (m, pr) = dequeue n q.active in
    (record q { active = m }, pr, if is_same_ref (first q.active) (first m) then none else first m)

-- `cancelActionForPR`
unfoldable pub cancel_action_for_pr : ℕ → Queue → Queue
cancel_action_for_pr n q = elim q.executing [
  | none ↦ q
  | some running ↦
      if running.pr == n
      then record q { executing = some (record running { canceled = true }) }
      else q
]

-- `Dequeue` of an active pull request, from the results of `_dequeueActive`.
unfoldable pub dequeue_rest : Env → ℕ → Bool → State → Option Ref × Option Ref → State × Result Ref
unfolding cancel_action_for_pr schedule_process_pr
dequeue_rest env n set_pending s (none, new_first) = (s, err not_found)
dequeue_rest env n set_pending s (some r, new_first) =
    let w₁ = set_pr (set_state_unchanged_since 0) r s.world in
    let w₂ = pr_remove_queue_head_label env s.head_label r w₁ in
    let w₃ = if set_pending then pr_create_commit_status env r "" StatusState.pending w₂ else w₂ in
    let s₁ : State = record { world = w₃; q = cancel_action_for_pr n s.q } in
    elim new_first [
      | none ↦ (s₁, ok r)
      | some f ↦ (
        schedule_process_pr f task_none
            (record s₁ { world = pr_add_queue_head_label env s.head_label f w₃ }),
        ok r,
      )
    ]

-- `Dequeue`
unfoldable pub dequeue_pr : Env → ℕ → Bool → State → State × Result Ref
unfolding dequeue_suspended dequeue_active dequeue_rest
dequeue_pr env n set_pending s = elim (dequeue_suspended n s.q).1 [
  | ok r ↦ (
    record {
      world = set_pr (set_state_unchanged_since 0) r s.world;
      q = (dequeue_suspended n s.q).0;
    },
    ok r,
  )
  | err e ↦
      let (q, removed, new_first) = dequeue_active n s.q in
      dequeue_rest env n set_pending (record s { q = q }) (removed, new_first)
]

-- `suspend`, from the results of `_dequeueActive`.
unfoldable pub suspend_rest : Env → ℕ → State → Option Ref × Option Ref → State × Result (Unit {0})
unfolding cancel_action_for_pr schedule_process_pr
suspend_rest env n s (none, new_first) = (s, err (wrapped "pr not in active queue" not_found))
suspend_rest env n s (some r, new_first) =
    let w₁ =
      set_pr
        (λ p. set_ci_triggered_commit "" (
          set_state_unchanged_since 0
            (record p { suspend_count = (p.suspend_count + 1) % u32_mod })))
        r s.world in
    let q₁ = cancel_action_for_pr n s.q in
    let w₂ = pr_remove_queue_head_label env s.head_label r w₁ in
    let w₃ = pr_create_commit_status env r "" StatusState.pending w₂ in
    let s₁ : State = record { world = w₃; q = record q₁ { suspended = insert n r q₁.suspended } } in
    elim new_first [
      | none ↦ (s₁, ok tt)
      | some f ↦ (schedule_process_pr f task_trigger_ci s₁, ok tt)
    ]

-- `suspend`
unfoldable pub suspend : Env → ℕ → State → State × Result (Unit {0})
unfolding dequeue_active suspend_rest
suspend env n s =
    let (q, removed, new_first) = dequeue_active n s.q in
    suspend_rest env n (record s { q = q }) (removed, new_first)

-- The loop of `ResumeAllPRs` over the entries of `suspended`, in the order in which they stand.
unfoldable pub resume_entries : Env → List (ℕ × Ref) → State → State
unfolding enqueue_active dequeue_suspended
resume_entries env [] s = s
resume_entries env ((n, r) ∷ entries) s =
    let (s₁, result) = enqueue_active env r s in
    resume_entries env entries
      (elim result [ err e ↦ s₁ | ok _ ↦ record s₁ { q = (dequeue_suspended n s₁.q).0 } ])

-- `ResumeAllPRs`
unfoldable pub resume_all_prs : Env → State → State
unfolding resume_entries
resume_all_prs env s = resume_entries env s.suspended s

-- The end of `ResumePR`.
abbrev pub resumed : State × Result (Unit {0}) → State × Result (Unit {0})
resumed (s, ok _) = (s, ok tt)
resumed (s, err e) =
    if is_already_exists e
    then (s, ok tt)
    else (s, err (wrapped "enqueing previously suspended pr failed" e))

-- `ResumePR`
unfoldable pub resume_pr : Env → ℕ → State → State × Result (Unit {0})
unfolding dequeue_suspended enqueue is_already_exists
resume_pr env n s = elim (dequeue_suspended n s.q).1 [
  | err e ↦ (s, err e)
  | ok r ↦ resumed (enqueue env r (record s { q = (dequeue_suspended n s.q).0 }))
]
