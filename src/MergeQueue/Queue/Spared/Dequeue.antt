-- ===== src/MergeQueue/Queue/Spared/Dequeue.antt =====
-- internal/mergequeue/queue.go: `Dequeue` changes no field of a pull request that the queue does not point
-- to, and returns one that it points to.
use directorius.Prelude.{
  ℕ, Bool, false, ◌≡◌, refl, ◌∙◌, Option, none, some, arith, ◌==◌, if◌then◌else◌, Option-cases, inl,
  inr, if_keeps,
}
use directorius.Errors.{ok, Result-cases}
use directorius.OrderedMap.{dequeue}
use directorius.MergeQueue.PullRequest.{StatusState, set_state_unchanged_since}
use directorius.MergeQueue.World.{
  task_none, Ref, Env, set_pr, pr_add_queue_head_label, pr_remove_queue_head_label,
  pr_create_commit_status,
}
use directorius.MergeQueue.World.Others.{
  set_pr-other, add_label-other, remove_label-other, create_status-other,
}
use directorius.MergeQueue.Queue.{
  Queue, State, dequeue_suspended, dequeue_active, cancel_action_for_pr, dequeue_rest, dequeue_pr,
}
use directorius.MergeQueue.Queue.Free.{IsFree, dequeue_free, dequeued_free, first_free}
use directorius.MergeQueue.Queue.Spared.{
  IsSpared, IsSpared-refl, schedule-IsSpared, set_active, dequeue_suspended-IsFree,
  dequeue_suspended_other,
}

module _ (r : Ref) where
  cancel-IsFree : (n : ℕ) (q : Queue) → IsFree r q → IsFree r (cancel_action_for_pr n q)
  unfolding cancel_action_for_pr
  cancel-IsFree n q h = elim (Option-cases q.executing) [
    | inl e ↦ rw (e, cancel_action_for_pr) h
    | inr (x, e) ↦
        rw (e, cancel_action_for_pr)
          (if_keeps (IsFree r) (x.pr == n)
            (record { active = h.active; suspended = h.suspended; pool = h.pool }) h)
  ]

  dequeue_active_others :
      (n : ℕ) (q : Queue)
      → IsFree r q
      → IsFree r (dequeue_active n q).0
        × ((x : Ref) → (dequeue_active n q).1 ≡ some x → (x == r) ≡ false)
        × ((x : Ref) → (dequeue_active n q).2 ≡ some x → (x == r) ≡ false)
  unfolding dequeue_active
  dequeue_active_others n q h =
      let m = (dequeue n q.active).0 in
      let free = dequeue_free r n q.active h.active in
      (
        set_active r m q free h,
        λ x e. dequeued_free r n q.active x h.active e,
        λ x e. first_free r m x free (ground arith),
      )

  pub dequeue_rest-IsSpared :
      (env : Env) (n : ℕ) (set_pending : Bool) (s : State) (results : Option Ref × Option Ref)
      → IsFree r s.q
      → ((x : Ref) → results.0 ≡ some x → (x == r) ≡ false)
      → ((x : Ref) → results.1 ≡ some x → (x == r) ≡ false)
      → IsSpared r s (dequeue_rest env n set_pending s results).0
  unfolding dequeue_rest
  dequeue_rest-IsSpared env n set_pending s (none, new_first) h a b = IsSpared-refl r s h
  dequeue_rest-IsSpared env n set_pending s (some x, new_first) h a b =
      let e = a x refl in
      let w₁ = set_pr (set_state_unchanged_since 0) x s.world in
      let w₂ = pr_remove_queue_head_label env s.head_label x w₁ in
      let w₃ =
        if set_pending then pr_create_commit_status env x "" StatusState.pending w₂ else w₂ in
      let t : State = record { world = w₃; q = cancel_action_for_pr n s.q } in
      let same : w₃.prs r ≡ s.world.prs r = ground (
        arith,
        set_pr-other x r e (set_state_unchanged_since 0) s.world,
        remove_label-other x r e env s.head_label w₁,
        create_status-other x r e env "" StatusState.pending w₂,
      ) in
      let free = cancel-IsFree n s.q h in
      elim (Option-cases new_first) [
        | inl g ↦ rw (g, dequeue_rest) (record { free = free; fields = same })
        | inr (f, g) ↦
            let u : State = record t { world = pr_add_queue_head_label env s.head_label f w₃ } in
            let scheduled = schedule-IsSpared r f task_none u (b f g) free in
            rw (g, dequeue_rest)
              (record {
                free = scheduled.free;
                fields = scheduled.fields ∙ add_label-other f r (b f g) env s.head_label w₃ ∙ same;
              })
      ]

  pub dequeue_pr-IsSpared :
      (env : Env) (n : ℕ) (set_pending : Bool) (s : State)
      → IsFree r s.q
      → IsSpared r s (dequeue_pr env n set_pending s).0
  unfolding dequeue_pr
  dequeue_pr-IsSpared env n set_pending s h = elim (Result-cases (dequeue_suspended n s.q).1) [
    | inl (x, e) ↦
        rw (e, dequeue_pr)
          (record {
            free = dequeue_suspended-IsFree r n s.q h;
            fields =
                set_pr-other x r (dequeue_suspended_other r n s.q x h e)
                  (set_state_unchanged_since 0) s.world;
          })
    | inr (x, e) ↦
        let (free, a, b) = dequeue_active_others n s.q h in
        let t : State = record s { q = (dequeue_active n s.q).0 } in
        let results : Option Ref × Option Ref =
          ((dequeue_active n s.q).1, (dequeue_active n s.q).2) in
        let rest = dequeue_rest-IsSpared env n set_pending t results free a b in
        rw (e, dequeue_pr) (record { free = rest.free; fields = rest.fields })
  ]

  dequeue_rest_returns :
      (env : Env) (n : ℕ) (set_pending : Bool) (s : State) (results : Option Ref × Option Ref)
      (x : Ref)
      → (dequeue_rest env n set_pending s results).1 ≡ ok x
      → results.0 ≡ some x
  unfolding dequeue_rest
  dequeue_rest_returns env n set_pending s (none, f) x k = absurd (ground arith)
  dequeue_rest_returns env n set_pending s (some y, none) x k = ground arith
  dequeue_rest_returns env n set_pending s (some y, some f) x k = ground arith

  -- The pull request that `Dequeue` returns is one of the queue.
  pub dequeue_pr_other :
      (env : Env) (n : ℕ) (set_pending : Bool) (s : State) (x : Ref)
      → IsFree r s.q
      → (dequeue_pr env n set_pending s).1 ≡ ok x
      → (x == r) ≡ false
  unfolding dequeue_pr
  dequeue_pr_other env n set_pending s x h e = elim (Result-cases (dequeue_suspended n s.q).1) [
    | inl (y, g) ↦ ground (arith, dequeue_suspended_other r n s.q y h g)
    | inr (y, g) ↦
        let (free, a, b) = dequeue_active_others n s.q h in
        let t : State = record s { q = (dequeue_active n s.q).0 } in
        let results : Option Ref × Option Ref =
          ((dequeue_active n s.q).1, (dequeue_active n s.q).2) in
        let returned = dequeue_rest_returns env n set_pending t results x in
        a x (returned (ground arith))
  ]
