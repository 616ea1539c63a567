-- ===== src/MergeQueue/Sync/First.antt =====
-- internal/mergequeue/sync.go: what is enqueued later does not push the first pull request of a queue
-- away.
use directorius.Prelude.{
  ℕ, true, ◌≡◌, refl, ◌∙◌, ap, subst, none, some, arith, map, Bool-cases, Option-cases, inl, inr,
}
use directorius.OrderedMap.{lookup, get, first, new}
use directorius.OrderedMap.Laws.{insert_if_not_exist-added, insert_if_not_exist-kept}
use directorius.OrderedMap.Order.{insert_if_not_exist-first}
use directorius.MergeQueue.PullRequest.{PullRequest}
use directorius.MergeQueue.World.{Ref, Env, World}
use directorius.MergeQueue.World.Numbers.{SameNumbers}
use directorius.MergeQueue.Queue.{BranchId, Queue, State, new_queue, order_refs, enqueue}
use directorius.MergeQueue.Queue.Valid.Enqueue.{
  since, inserted, enqueue_active_parts, enqueue-SameNumbers,
}
use directorius.MergeQueue.Coordinator.{
  Coordinator, is_branch, get_queue, state_of, queue_or_new, enqueue_in,
}
use directorius.MergeQueue.Coordinator.Find.{is_branch-eq, is_branch_refl, get_queue-put_queue}
use directorius.MergeQueue.Coordinator.Moves.{enqueue_in-others}
use directorius.MergeQueue.Events.Incoming.{
  active_refs, suspended_refs, listed_refs, queue_refs, allocate,
}
use directorius.MergeQueue.Events.Fresh.{has, has-left, has-right, in_queue, allocate_kept}

-- The first active pull request of the base branch.
pub record IsFirst (b : BranchId) (n : ℕ) (c : Coordinator) : Type 0 where
  pub queue : Queue
  pub pointer : Ref
  pub found : get_queue b c.queues ≡ some queue
  pub is_first : first queue.active ≡ some pointer
  pub numbered : (c.world.prs pointer).number ≡ n

module _ (env : Env) (r : Ref) (s : State) where
  inserted-first : (f : Ref) → first s.active ≡ some f → first (inserted env r s) ≡ some f
  inserted-first f h =
      let cmp = order_refs env (since env r s) in
      let n = ((since env r s).prs r).number in
      elim (Option-cases (get n s.active)) [
        | inl e ↦ ground (arith, (insert_if_not_exist-first cmp n r s.active e).0)
        | inr (x, e) ↦
            let added = insert_if_not_exist-added cmp n r s.active in
            let kept = insert_if_not_exist-kept cmp n r s.active (ground arith) in ap first kept ∙ h
      ]

  -- `Enqueue` keeps the first active pull request.
  pub enqueue-first :
      (f : Ref) → first s.active ≡ some f → first (enqueue env r s).0.q.active ≡ some f
  unfolding enqueue
  enqueue-first f h = elim (Option-cases (lookup (s.prs r).number s.suspended)) [
    | inl e ↦ rw (e, enqueue) (ap first (enqueue_active_parts env r s).1 ∙ inserted-first f h)
    | inr (x, e) ↦ rw (e, enqueue) h
  ]

-- In a new queue the pull request that is enqueued is the first one.
new_queue-first :
    (env : Env) (b : BranchId) (r : Ref) (c : Coordinator)
    → first (enqueue env r (state_of c (new_queue b c.head_label))).0.q.active ≡ some r
unfolding enqueue new_queue lookup get first
new_queue-first env b r c =
    let s = state_of c (new_queue b c.head_label) in
    let cmp = order_refs env (since env r s) in
    let n = ((since env r s).prs r).number in
    ap first (enqueue_active_parts env r s).1 ∙ (insert_if_not_exist-first cmp n r new refl).0

module _ (env : Env) (b : BranchId) (r : Ref) (c : Coordinator) where
  enqueue_in_found :
      get_queue b (enqueue_in env b r c).0.queues
      ≡ some (enqueue env r (state_of c (queue_or_new b c))).0.q
  unfolding enqueue_in
  enqueue_in_found = ground (
    arith,
    is_branch_refl b,
    get_queue-put_queue b b (enqueue env r (state_of c (queue_or_new b c))).0.q c.queues,
  )

  enqueue_in-number :
      (f : Ref) → ((enqueue_in env b r c).0.world.prs f).number ≡ (c.world.prs f).number
  unfolding enqueue_in
  enqueue_in-number f = (enqueue-SameNumbers env r (state_of c (queue_or_new b c))).same f

  -- A pull request that is enqueued for a base branch without a queue is its first one.
  pub enqueue_in-IsFirst :
      get_queue b c.queues ≡ none → IsFirst b (c.world.prs r).number (enqueue_in env b r c).0
  enqueue_in-IsFirst h =
      let fresh : queue_or_new b c ≡ new_queue b c.head_label = rw (h, queue_or_new) refl in
      record {
        queue = (enqueue env r (state_of c (queue_or_new b c))).0.q;
        pointer = r;
        found = enqueue_in_found;
        is_first = rw fresh (new_queue-first env b r c);
        numbered = enqueue_in-number r;
      }

  pub enqueue_in_keeps_IsFirst :
      (d : BranchId) (n : ℕ) → IsFirst d n c → IsFirst d n (enqueue_in env b r c).0
  enqueue_in_keeps_IsFirst d n h = elim (Bool-cases (is_branch b d)) [
    | inr f ↦ record {
      queue = h.queue;
      pointer = h.pointer;
      found = enqueue_in-others env b r c d f ∙ h.found;
      is_first = h.is_first;
      numbered = enqueue_in-number h.pointer ∙ h.numbered;
    }
    | inl t ↦
        let same = is_branch-eq b d t in
        let there : get_queue b c.queues ≡ some h.queue = rw same h.found in
        let known : queue_or_new b c ≡ h.queue = rw (there, queue_or_new) refl in
        let t = (enqueue env r (state_of c h.queue)).0 in
        let now : get_queue b (enqueue_in env b r c).0.queues ≡ some t.q =
          enqueue_in_found ∙ ap (λ q. some (enqueue env r (state_of c q)).0.q) known in
        record {
          queue = t.q;
          pointer = h.pointer;
          found = subst (λ x. get_queue x (enqueue_in env b r c).0.queues ≡ some t.q) same now;
          is_first = enqueue-first env r (state_of c h.queue) h.pointer h.is_first;
          numbered = enqueue_in-number h.pointer ∙ h.numbered;
        }
  ]

pub world_keeps_IsFirst :
    (w : World) (c : Coordinator) (d : BranchId) (n : ℕ)
    → SameNumbers c.world w
    → IsFirst d n c
    → IsFirst d n (record c { world = w })
world_keeps_IsFirst w c d n same h = record {
  queue = h.queue;
  pointer = h.pointer;
  found = h.found;
  is_first = h.is_first;
  numbered = same.same h.pointer ∙ h.numbered;
}

in_queue-first : (q : Queue) (r : Ref) → first q.active ≡ some r → in_queue r q ≡ true
unfolding first queue_refs
in_queue-first q r h =
    let listed : has r (map (λ e. e.value) q.active.order) ≡ true = ground arith in
    has-right r (active_refs q) _
      (has-right r (suspended_refs q) (listed_refs q) (has-left r _ _ listed))

pub allocate_keeps_IsFirst :
    (p : PullRequest) (c : Coordinator) (d : BranchId) (n : ℕ)
    → IsFirst d n c
    → IsFirst d n (allocate p c)
unfolding allocate
allocate_keeps_IsFirst p c d n h =
    let known = in_queue-first h.queue h.pointer h.is_first in
    record {
      queue = h.queue;
      pointer = h.pointer;
      found = h.found;
      is_first = h.is_first;
      numbered =
          ap (λ x. x.number) (allocate_kept p c d h.queue h.pointer h.found known) ∙ h.numbered;
    }
