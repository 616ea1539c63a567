-- ===== src/MergeQueue/Coordinator/Kept/Moved.antt =====
-- internal/mergequeue/coordinator.go: what `Enqueue`, `Dequeue` and `ChangeBaseBranch` keep.
use directorius.Prelude.{
  ℕ, String, Bool, true, false, Bool-cases, ◌==◌, ◌∙◌, ◌≡◌, refl, arith, Option-cases, inl, inr,
}
use directorius.Errors.{Result, ok, err, Result-cases}
use directorius.MergeQueue.World.{Ref, Env}
use directorius.MergeQueue.Queue.{BranchId, State, enqueue, dequeue_pr, is_empty, new_queue}
use directorius.MergeQueue.Coordinator.{
  Coordinator, get_queue, state_of, queue_or_new, remove_if_empty, wait, enqueue_in, dequeue_from,
  enqueue_moved, change_base_branch, is_repository,
}
use directorius.MergeQueue.Coordinator.Valid.{enqueue_in-AreValid, dequeue_from-AreValid}
use directorius.MergeQueue.Coordinator.Moves.{dequeue_from-others, enqueue_in-others}
use directorius.MergeQueue.Coordinator.Kept.{
  Kept, Spares, Spares-refl, Spares-trans, IsHeld, IsForeign, IsForeign-IsFree, store-Spares,
  delete-Spares,
}
use directorius.MergeQueue.Coordinator.Drained.{wait_drained}
use directorius.MergeQueue.Queue.Free.{IsFree}
use directorius.MergeQueue.Queue.Spared.{enqueue-IsSpared}
use directorius.MergeQueue.Coordinator.Keeps.{Keeps, Keeps-refl, Keeps-trans, other_branch}
use directorius.MergeQueue.Queue.Spared.Dequeue.{dequeue_pr-IsSpared, dequeue_pr_other}

module _ {owner repo : String} (b : BranchId) (here : is_repository owner repo b ≡ true) where
  pub enqueue_in-Keeps :
      (env : Env) (x : Ref) (c : Coordinator) → Keeps owner repo c (enqueue_in env b x c).0
  enqueue_in-Keeps env x c = record {
    valid = enqueue_in-AreValid env b x c;
    others = λ d k. enqueue_in-others env b x c d (other_branch owner repo b d here k);
  }

  queue_or_new-IsFree :
      (r : Ref) (c : Coordinator) → IsForeign owner repo r c → IsFree r (queue_or_new b c)
  unfolding new_queue
  queue_or_new-IsFree r c f = elim (Option-cases (get_queue b c.queues)) [
    | inr (q, e) ↦ rw (e, queue_or_new) (IsForeign-IsFree f b q here e)
    | inl e ↦
        rw (e, queue_or_new)
          (record {
            active = record { entries = refl; order = refl };
            suspended = refl;
            pool = refl;
          })
  ]

  -- Another pull request is enqueued.
  pub enqueue_in-Spares :
      (env : Env) (x : Ref) (c : Coordinator) (r : Ref)
      → (x == r) ≡ false
      → IsForeign owner repo r c
      → Spares owner repo r c (enqueue_in env b x c).0
  unfolding enqueue_in
  enqueue_in-Spares env x c r e f =
      let s = state_of c (queue_or_new b c) in
      let spared = enqueue-IsSpared r env x s e (queue_or_new-IsFree r c f) in
      store-Spares r b (enqueue env x s).0 c spared.free spared.fields f

  -- A pull request is enqueued that no queue of another repository points to.
  pub enqueue_in-Kept :
      (env : Env) (x : Ref) (c : Coordinator)
      → ((r : Ref) → IsHeld owner repo r c → (x == r) ≡ false)
      → Kept owner repo c (enqueue_in env b x c).0
  enqueue_in-Kept env x c new = record {
    keeps = enqueue_in-Keeps env x c;
    spares = λ r h f. enqueue_in-Spares env x c r (new r h) f;
  }

  remove_if_empty-Spares :
      (env : Env) (s : State) (c : Coordinator) (r : Ref)
      → IsFree r s.q
      → s.world.prs r ≡ c.world.prs r
      → IsForeign owner repo r c
      → Spares owner repo r c (remove_if_empty env b s c)
  unfolding remove_if_empty
  remove_if_empty-Spares env s c r h same f = elim (Bool-cases (is_empty s.q)) [
    | inr t ↦ rw (t, remove_if_empty) (store-Spares r b s c h same f)
    | inl t ↦
        rw (t, remove_if_empty)
          (delete-Spares r b (wait env s).world c (wait_drained r env s t h.pool ∙ same) f)
  ]

  pub dequeue_from-Kept :
      (env : Env) (n : ℕ) (set_pending : Bool) (c : Coordinator)
      → Kept owner repo c (dequeue_from env b n set_pending c).0
  unfolding dequeue_from
  dequeue_from-Kept env n set_pending c = record {
    keeps = record {
      valid = dequeue_from-AreValid env b n set_pending c;
      others =
          λ d k. dequeue_from-others env b n set_pending c d (other_branch owner repo b d here k);
    };
    spares = λ r h f. elim (Option-cases (get_queue b c.queues)) [
      | inl e ↦ rw (e, dequeue_from) (Spares-refl r c f)
      | inr (q, e) ↦
          let s = state_of c q in
          let spared = dequeue_pr-IsSpared r env n set_pending s (IsForeign-IsFree f b q here e) in
          rw (e, dequeue_from)
            (remove_if_empty-Spares env (dequeue_pr env n set_pending s).0 c r spared.free
              spared.fields f)
    ];
  }

  -- What `Dequeue` returns is a pull request of the branch.
  dequeue_from_other :
      (env : Env) (n : ℕ) (set_pending : Bool) (c : Coordinator) (r x : Ref)
      → IsForeign owner repo r c
      → (dequeue_from env b n set_pending c).1 ≡ ok x
      → (x == r) ≡ false
  unfolding dequeue_from
  dequeue_from_other env n set_pending c r x f h = elim (Option-cases (get_queue b c.queues)) [
    | inl e ↦ absurd (ground arith)
    | inr (q, e) ↦
        let s = state_of c q in
        elim (Result-cases (dequeue_pr env n set_pending s).1) [
          | inl (y, g) ↦
              ground
                (arith, dequeue_pr_other r env n set_pending s y (IsForeign-IsFree f b q here e) g)
          | inr (y, g) ↦ absurd (ground arith)
        ]
  ]

  enqueue_moved-Keeps :
      (env : Env) (x : Coordinator × Result Ref) → Keeps owner repo x.0 (enqueue_moved env b x).0
  unfolding enqueue_moved
  enqueue_moved-Keeps env (c, err e) = Keeps-refl c
  enqueue_moved-Keeps env (c, ok r) = enqueue_in-Keeps env r c

  enqueue_moved-Spares :
      (env : Env) (x : Coordinator × Result Ref) (r : Ref)
      → ((y : Ref) → x.1 ≡ ok y → (y == r) ≡ false)
      → IsForeign owner repo r x.0
      → Spares owner repo r x.0 (enqueue_moved env b x).0
  unfolding enqueue_moved
  enqueue_moved-Spares env (c, err e) r h f = Spares-refl r c f
  enqueue_moved-Spares env (c, ok y) r h f = enqueue_in-Spares env y c r (h y refl) f

-- `ChangeBaseBranch` between two branches of the repository.
pub change_base_branch-Kept :
    {owner repo : String} (env : Env) (old new : BranchId) (n : ℕ) (c : Coordinator)
    → is_repository owner repo old ≡ true
    → is_repository owner repo new ≡ true
    → Kept owner repo c (change_base_branch env old new n c).0
unfolding change_base_branch
change_base_branch-Kept env old new n c here there =
    let x = dequeue_from env old n true c in
    let taken = dequeue_from-Kept old here env n true c in
    record {
      keeps = Keeps-trans taken.keeps (enqueue_moved-Keeps new there env x);
      spares = λ r h f.
          let one = taken.spares r h f in
          Spares-trans one (
            enqueue_moved-Spares new there env x r
              (λ y e. dequeue_from_other old here env n true c r y f e) one.foreign);
    }
