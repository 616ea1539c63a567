-- ===== src/MergeQueue/Queue/Spared.antt =====
-- internal/mergequeue/queue.go: the operations on a queue change no field of a pull request that the queue
-- does not point to, and do not put it into the queue.
pub mod Dequeue
use directorius.Prelude.{
  ℕ, Bool, true, false, ◌≡◌, refl, ◌∙◌, Option, none, some, List, [], ◌∷◌, ◌++◌, map, arith, ◌==◌,
  if◌then◌else◌, Option-cases, inl, inr, if_keeps,
}
use directorius.Errors.{Result, ok, err, Result-cases}
use directorius.OrderedMap.{Map, lookup, insert_if_not_exist, first, dequeue}
use directorius.MergeQueue.PullRequest.{
  PullRequest, StatusState, set_state_unchanged_since, set_in_active_queue_since,
}
use directorius.MergeQueue.World.{
  Task, task_trigger_ci, task_none, Ref, Env, set_pr, pr_add_queue_head_label,
  pr_remove_queue_head_label, pr_create_commit_status,
}
use directorius.MergeQueue.World.Others.{
  set_pr-other, add_label-other, remove_label-other, create_status-other,
}
use directorius.MergeQueue.Queue.{
  Queue, State, Work, process_pr, on_pr, order_refs, schedule_process_pr, schedule_first, enqueued,
  enqueue_active, enqueue, dequeue_suspended, dequeue_active, cancel_action_for_pr, dequeue_rest,
  dequeue_pr, resume_entries, resume_all_prs, resumed, resume_pr,
}
use directorius.MergeQueue.Queue.Free.{
  IsFree, IsFreeMap, lookup_free, delete_free, insert_if_not_exist_free, dequeue_free,
  dequeued_free, first_free,
}
use directorius.MergeQueue.Events.Incoming.{work_ref}
use directorius.MergeQueue.Events.Fresh.{has}

-- The second state still does not point to the pull request, and its fields are those of the first.
pub record IsSpared (r : Ref) (s t : State) : Type 0 where
  pub free : IsFree r t.q
  pub fields : t.world.prs r ≡ s.world.prs r

module _ (r : Ref) where
  pub IsSpared-refl : (s : State) → IsFree r s.q → IsSpared r s s
  IsSpared-refl s h = record { free = h; fields = refl }

  pub IsSpared-trans : {s t u : State} → IsSpared r s t → IsSpared r t u → IsSpared r s u
  IsSpared-trans p q = record { free = q.free; fields = q.fields ∙ p.fields }

  pub on_pr-IsSpared :
      (f : PullRequest → PullRequest) (x : Ref) (s : State)
      → (x == r) ≡ false
      → IsFree r s.q
      → IsSpared r s (on_pr f x s)
  on_pr-IsSpared f x s e h = record { free = h; fields = set_pr-other x r e f s.world }

  pub schedule-IsSpared :
      (x : Ref) (task : Task) (s : State)
      → (x == r) ≡ false
      → IsFree r s.q
      → IsSpared r s (schedule_process_pr x task s)
  unfolding schedule_process_pr
  schedule-IsSpared x task s e h = record {
    free = record {
      active = h.active;
      suspended = h.suspended;
      pool = pool_append s.action_pool h.pool;
    };
    fields = refl;
  }
    where
      pool_append :
          (works : List Work)
          → has r (map work_ref works) ≡ false
          → has r (map work_ref (works ++ process_pr x task ∷ [])) ≡ false
      pool_append [] k = ground arith
      pool_append (w ∷ works) k = ground (arith, pool_append works)

  pub schedule_first-IsSpared :
      (task : Task) (s : State) → IsFree r s.q → IsSpared r s (schedule_first task s)
  unfolding schedule_first
  schedule_first-IsSpared task s h = elim (Option-cases (first s.active)) [
    | inl e ↦ rw (e, schedule_first) (IsSpared-refl s h)
    | inr (x, e) ↦
        rw (e, schedule_first) (schedule-IsSpared x task s (first_free r s.active x h.active e) h)
  ]

  pub set_active :
      (m : Map Ref) (q : Queue) → IsFreeMap r m → IsFree r q → IsFree r (record q { active = m })
  set_active m q k h = record { active = k; suspended = h.suspended; pool = h.pool }

  enqueued-IsSpared :
      (x : Ref) (results : Map Ref × Bool × Bool) (s : State)
      → (x == r) ≡ false
      → IsFreeMap r results.0
      → IsFree r s.q
      → IsSpared r s (enqueued x results s).0
  unfolding enqueued
  enqueued-IsSpared x (m, new_first, false) s e k h = IsSpared-refl s h
  enqueued-IsSpared x (m, false, true) s e k h = record {
    free = set_active m s.q k h;
    fields = refl;
  }
  enqueued-IsSpared x (m, true, true) s e k h =
      let t : State = record s { q = record s.q { active = m } } in
      let free = set_active m s.q k h in
      IsSpared-trans (record { free = free; fields = refl })
        (schedule-IsSpared x task_trigger_ci t e free)

  pub enqueue_active-IsSpared :
      (env : Env) (x : Ref) (s : State)
      → (x == r) ≡ false
      → IsFree r s.q
      → IsSpared r s (enqueue_active env x s).0
  unfolding enqueue_active
  enqueue_active-IsSpared env x s e h =
      let t = on_pr (set_in_active_queue_since env.now) x s in
      let cmp = order_refs env t.world in
      let k = (t.prs x).number in
      IsSpared-trans (on_pr-IsSpared (set_in_active_queue_since env.now) x s e h) (
        enqueued-IsSpared x (insert_if_not_exist cmp k x t.active) t e
          (insert_if_not_exist_free r cmp k x t.active h.active e) h)

  pub enqueue-IsSpared :
      (env : Env) (x : Ref) (s : State)
      → (x == r) ≡ false
      → IsFree r s.q
      → IsSpared r s (enqueue env x s).0
  unfolding enqueue
  enqueue-IsSpared env x s e h = elim (Option-cases (lookup (s.prs x).number s.suspended)) [
    | inl g ↦ rw (g, enqueue) (enqueue_active-IsSpared env x s e h)
    | inr (y, g) ↦ rw (g, enqueue) (IsSpared-refl s h)
  ]

  pub dequeue_suspended-IsFree :
      (n : ℕ) (q : Queue) → IsFree r q → IsFree r (dequeue_suspended n q).0
  unfolding dequeue_suspended
  dequeue_suspended-IsFree n q h = elim (Option-cases (lookup n q.suspended)) [
    | inl g ↦ rw (g, dequeue_suspended) h
    | inr (y, g) ↦
        rw (g, dequeue_suspended)
          (record {
            active = h.active;
            suspended = delete_free r (λ (z : Ref). z) n q.suspended h.suspended;
            pool = h.pool;
          })
  ]

  pub dequeue_suspended_other :
      (n : ℕ) (q : Queue) (x : Ref)
      → IsFree r q
      → (dequeue_suspended n q).1 ≡ ok x
      → (x == r) ≡ false
  unfolding dequeue_suspended
  dequeue_suspended_other n q x h e = elim (Option-cases (lookup n q.suspended)) [
    | inl g ↦ absurd (ground arith)
    | inr (y, g) ↦ ground (arith, lookup_free r (λ (z : Ref). z) n q.suspended y h.suspended g)
  ]

  pub resume_pr-IsSpared :
      (env : Env) (n : ℕ) (s : State) → IsFree r s.q → IsSpared r s (resume_pr env n s).0
  unfolding resume_pr
  resume_pr-IsSpared env n s h = elim (Result-cases (dequeue_suspended n s.q).1) [
    | inr (x, e) ↦ rw (e, resume_pr) (IsSpared-refl s h)
    | inl (x, e) ↦
        let t : State = record s { q = (dequeue_suspended n s.q).0 } in
        let spared =
          enqueue-IsSpared env x t (dequeue_suspended_other n s.q x h e)
            (dequeue_suspended-IsFree n s.q h) in
        rw (e, resume_pr, resumed_state (enqueue env x t))
          (record { free = spared.free; fields = spared.fields })
  ]
    where
      resumed_state : (y : State × Result (Unit {0})) → (resumed y).0 ≡ y.0
      resumed_state (u, ok _) = refl
      resumed_state (u, err e) = ground arith

  resume_entries-IsSpared :
      (env : Env) (entries : List (ℕ × Ref)) (s : State)
      → has r (map (λ e. e.1) entries) ≡ false
      → IsFree r s.q
      → IsSpared r s (resume_entries env entries s)
  unfolding resume_entries
  resume_entries-IsSpared env [] s k h = IsSpared-refl s h
  resume_entries-IsSpared env ((n, x) ∷ entries) s k h =
      let t = (enqueue_active env x s).0 in
      let one = enqueue_active-IsSpared env x s (ground arith) h in
      let gone : IsSpared r s (record t { q = (dequeue_suspended n t.q).0 }) = record {
        free = dequeue_suspended-IsFree n t.q one.free;
        fields = one.fields;
      } in
      elim (Result-cases (enqueue_active env x s).1) [
        | inr (e, g) ↦
            rw (g, resume_entries)
              (IsSpared-trans one (resume_entries-IsSpared env entries t (ground arith) one.free))
        | inl (u, g) ↦
            rw (g, resume_entries)
              (IsSpared-trans gone (resume_entries-IsSpared env entries _ (ground arith) gone.free))
      ]

  pub resume_all_prs-IsSpared :
      (env : Env) (s : State) → IsFree r s.q → IsSpared r s (resume_all_prs env s)
  unfolding resume_all_prs
  resume_all_prs-IsSpared env s h = resume_entries-IsSpared env s.suspended s h.suspended h
