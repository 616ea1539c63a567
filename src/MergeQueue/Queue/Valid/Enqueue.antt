-- ===== src/MergeQueue/Queue/Valid/Enqueue.antt =====
-- internal/mergequeue/queue.go: `Enqueue` and `ResumePR` keep a queue valid.
use directorius.Prelude.{ℕ, ◌≡◌, refl, none, arith, Option-cases, inl, inr}
use directorius.Errors.{Result, ok, err}
use directorius.OrderedMap.{Map, lookup, insert_if_not_exist}
use directorius.OrderedMap.Laws
use directorius.MergeQueue.PullRequest.{set_in_active_queue_since}
use directorius.MergeQueue.World.{Ref, Env, World, set_pr}
use directorius.MergeQueue.World.Numbers.{SameNumbers, SameNumbers-refl, set_pr-SameNumbers}
use directorius.MergeQueue.Queue.{
  State, order_refs, enqueued, enqueue_active, enqueue, dequeue_suspended, resume_pr, resumed,
}
use directorius.MergeQueue.Queue.Entries.{AreNumbered-SameNumbers}
use directorius.MergeQueue.Queue.Valid.{IsValid, dequeue_suspended-IsValid}

module _ (env : Env) (r : Ref) (s : State) where
  abbrev pub since : World
  since = set_pr (set_in_active_queue_since env.now) r s.world

  abbrev pub inserted : Map Ref
  inserted = (insert_if_not_exist (order_refs env since) (since.prs r).number r s.active).0

  pub enqueue_active_parts :
      ((enqueue_active env r s).0.world ≡ since)
      × ((enqueue_active env r s).0.q.active ≡ inserted)
      × ((enqueue_active env r s).0.q.suspended ≡ s.suspended)
  unfolding enqueue_active enqueued
  enqueue_active_parts =
      ground (
        arith,
        Laws.insert_if_not_exist-kept (order_refs env since) (since.prs r).number r s.active,
      )

  pub since-SameNumbers : SameNumbers s.world since
  unfolding set_in_active_queue_since
  since-SameNumbers = set_pr-SameNumbers (set_in_active_queue_since env.now) r s.world refl

  enqueue_active-IsValid :
      lookup (s.prs r).number s.suspended ≡ none
      → IsValid s.world s.q
      → IsValid (enqueue_active env r s).0.world (enqueue_active env r s).0.q
  enqueue_active-IsValid h v =
      let n = (since.prs r).number in
      let same = since-SameNumbers in
      let got = Laws.insert_if_not_exist-get (order_refs env since) n r s.active in
      rw enqueue_active_parts.0 (record {
        active_valid =
            rw enqueue_active_parts.1
              (Laws.insert_if_not_exist-IsValid (order_refs env since) n r s.active v.active_valid);
        active_numbered = λ k r' e.
            ground (arith, enqueue_active_parts, got k, same.same r', v.active_numbered k r');
        suspended_numbered =
            λ k r' e. ground (arith, enqueue_active_parts, same.same r', v.suspended_numbered k r');
        is_apart = record {
          apart = λ k. ground (arith, enqueue_active_parts, got k, same.same r, v.is_apart.apart k);
        };
        entries_numbered =
            rw enqueue_active_parts.2 (AreNumbered-SameNumbers s.suspended same v.entries_numbered);
      })

  enqueue_active-SameNumbers : SameNumbers s.world (enqueue_active env r s).0.world
  enqueue_active-SameNumbers = rw enqueue_active_parts.0 since-SameNumbers

  -- `Enqueue` changes the number of no pull request.
  pub enqueue-SameNumbers : SameNumbers s.world (enqueue env r s).0.world
  unfolding enqueue
  enqueue-SameNumbers = elim (Option-cases (lookup (s.prs r).number s.suspended)) [
    | inl e ↦ rw (e, enqueue) enqueue_active-SameNumbers
    | inr (x, e) ↦ rw (e, enqueue) (SameNumbers-refl s.world)
  ]

  -- `Enqueue` keeps the queue valid.
  pub enqueue-IsValid :
      IsValid s.world s.q → IsValid (enqueue env r s).0.world (enqueue env r s).0.q
  unfolding enqueue
  enqueue-IsValid v = elim (Option-cases (lookup (s.prs r).number s.suspended)) [
    | inl e ↦ rw (e, enqueue) (enqueue_active-IsValid e v)
    | inr (x, e) ↦ rw (e, enqueue) v
  ]

resumed-state : (x : State × Result (Unit {0})) → (resumed x).0 ≡ x.0
resumed-state (s, ok _) = refl
resumed-state (s, err e) = ground arith

-- `ResumePR` changes the number of no pull request.
pub resume_pr-SameNumbers :
    (env : Env) (n : ℕ) (s : State) → SameNumbers s.world (resume_pr env n s).0.world
unfolding resume_pr
resume_pr-SameNumbers env n s = elim (Option-cases (lookup n s.suspended)) [
  | inl e ↦ rw (e, resume_pr) (SameNumbers-refl s.world)
  | inr (r, e) ↦
      let t : State = record s { q = (dequeue_suspended n s.q).0 } in
      rw (e, resume_pr) (rw (resumed-state (enqueue env r t)) (enqueue-SameNumbers env r t))
]

-- `ResumePR` keeps the queue valid.
pub resume_pr-IsValid :
    (env : Env) (n : ℕ) (s : State)
    → IsValid s.world s.q
    → IsValid (resume_pr env n s).0.world (resume_pr env n s).0.q
unfolding resume_pr
resume_pr-IsValid env n s v = elim (Option-cases (lookup n s.suspended)) [
  | inl e ↦ rw (e, resume_pr) v
  | inr (r, e) ↦
      let t : State = record s { q = (dequeue_suspended n s.q).0 } in
      rw (e, resume_pr)
        (rw (resumed-state (enqueue env r t))
          (enqueue-IsValid env r t (dequeue_suspended-IsValid n s.world s.q v)))
]
