-- ===== src/MergeQueue/Queue/Valid/Dequeue.antt =====
-- internal/mergequeue/queue.go: `Dequeue` keeps a queue valid.
use directorius.Prelude.{
  ℕ, Bool, true, false, ◌≡◌, refl, Option, none, some, arith, if◌then◌else◌, Option-cases, inl, inr,
}
use directorius.OrderedMap.{lookup}
use directorius.MergeQueue.PullRequest.{StatusState, set_state_unchanged_since}
use directorius.MergeQueue.World.{
  Ref, Env, World, set_pr, pr_remove_queue_head_label, pr_create_commit_status,
}
use directorius.MergeQueue.World.Numbers.{
  SameNumbers, SameNumbers-refl, SameNumbers-trans, set_pr-SameNumbers, add_label-SameNumbers,
  remove_label-SameNumbers, create_status-SameNumbers,
}
use directorius.MergeQueue.Queue.{State, dequeue_active, dequeue_rest, dequeue_pr}
use directorius.MergeQueue.Queue.Valid.{
  IsValid, IsValid-SameNumbers, IsValid-same_contents, dequeue_active-IsValid,
  dequeue_suspended-IsValid,
}

pending-SameNumbers :
    (env : Env) (r : Ref) (w : World) (b : Bool)
    → SameNumbers w (if b then pr_create_commit_status env r "" StatusState.pending w else w)
pending-SameNumbers env r w true = create_status-SameNumbers env r "" StatusState.pending w
pending-SameNumbers env r w false = SameNumbers-refl w

-- What the end of `Dequeue` leaves: the queue with the same pull requests, under the same numbers.
module _ (env : Env) (n : ℕ) (set_pending : Bool) (s : State) where
  dequeue_rest_contents :
      (removed new_first : Option Ref)
      → let t = (dequeue_rest env n set_pending s (removed, new_first)).0 in
        (t.q.active ≡ s.active) × (t.q.suspended ≡ s.suspended)
  unfolding dequeue_rest
  dequeue_rest_contents none new_first = (refl, refl)
  dequeue_rest_contents (some r) new_first = ground arith

  abbrev freed : Ref → World
  freed r =
      let w =
        pr_remove_queue_head_label env s.head_label r
          (set_pr (set_state_unchanged_since 0) r s.world) in
      if set_pending then pr_create_commit_status env r "" StatusState.pending w else w

  freed-SameNumbers : (r : Ref) → SameNumbers s.world (freed r)
  unfolding set_state_unchanged_since
  freed-SameNumbers r =
      let w₁ = set_pr (set_state_unchanged_since 0) r s.world in
      SameNumbers-trans (set_pr-SameNumbers (set_state_unchanged_since 0) r s.world refl) (
        SameNumbers-trans (remove_label-SameNumbers env s.head_label r w₁) (
          pending-SameNumbers env r (pr_remove_queue_head_label env s.head_label r w₁) set_pending))

  dequeue_rest-SameNumbers :
      (removed new_first : Option Ref)
      → SameNumbers s.world (dequeue_rest env n set_pending s (removed, new_first)).0.world
  unfolding dequeue_rest set_state_unchanged_since
  dequeue_rest-SameNumbers none new_first = SameNumbers-refl s.world
  dequeue_rest-SameNumbers (some r) none = freed-SameNumbers r
  dequeue_rest-SameNumbers (some r) (some f) =
      SameNumbers-trans (freed-SameNumbers r) (add_label-SameNumbers env s.head_label f (freed r))

module _ (env : Env) (n : ℕ) (set_pending : Bool) (s : State) where
  -- `Dequeue` keeps the queue valid.
  pub dequeue_pr-IsValid :
      IsValid s.world s.q
      → IsValid (dequeue_pr env n set_pending s).0.world (dequeue_pr env n set_pending s).0.q
  unfolding dequeue_pr set_state_unchanged_since
  dequeue_pr-IsValid v = elim (Option-cases (lookup n s.suspended)) [
    | inr (r, e) ↦
        rw (e, dequeue_pr)
          (IsValid-SameNumbers (set_pr-SameNumbers (set_state_unchanged_since 0) r s.world refl)
            (dequeue_suspended-IsValid n s.world s.q v))
    | inl e ↦
        let t : State = record s { q = (dequeue_active n s.q).0 } in
        let removed = (dequeue_active n s.q).1 in
        let new_first = (dequeue_active n s.q).2 in
        let (a, b) = dequeue_rest_contents env n set_pending t removed new_first in
        rw (e, dequeue_pr)
          (IsValid-SameNumbers (dequeue_rest-SameNumbers env n set_pending t removed new_first)
            (IsValid-same_contents a b (dequeue_active-IsValid n s.world s.q v)))
  ]

-- `Dequeue` changes the number of no pull request.
pub dequeue_pr-SameNumbers :
    (env : Env) (n : ℕ) (set_pending : Bool) (s : State)
    → SameNumbers s.world (dequeue_pr env n set_pending s).0.world
unfolding dequeue_pr set_state_unchanged_since
dequeue_pr-SameNumbers env n set_pending s = elim (Option-cases (lookup n s.suspended)) [
  | inr (r, e) ↦
      rw (e, dequeue_pr) (set_pr-SameNumbers (set_state_unchanged_since 0) r s.world refl)
  | inl e ↦
      rw (e, dequeue_pr)
        (dequeue_rest-SameNumbers env n set_pending (record s { q = (dequeue_active n s.q).0 })
          (dequeue_active n s.q).1 (dequeue_active n s.q).2)
]
