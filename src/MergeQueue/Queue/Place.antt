-- ===== src/MergeQueue/Queue/Place.antt =====
-- internal/mergequeue/queue.go: where a queue keeps a pull request, and how the operations move it.
use directorius.Prelude.{
  ℕ, Bool, ◌≡◌, none, some, arith, ◌==◌, if◌then◌else◌, Option-cases, ◌⊎◌, inl, inr,
}
use directorius.Errors.{ok, err, not_found, already_exists, wrapped}
use directorius.OrderedMap.{lookup, get}
use directorius.OrderedMap.Find.{lookup-insert, lookup-delete}
use directorius.OrderedMap.Laws.{
  insert_if_not_exist-get, insert_if_not_exist-added, dequeue-get, dequeue-removed,
}
use directorius.MergeQueue.PullRequest.{set_in_active_queue_since}
use directorius.MergeQueue.World.{Ref, Env, World, set_pr}
use directorius.MergeQueue.Queue.{
  Queue, State, on_pr, order_refs, enqueued, enqueue_active, enqueue, dequeue_active, dequeue_pr,
  suspend, resume_pr,
}

pub data Place : Type 0 where
  active suspended : Ref → Place
  absent : Place

-- Where the queue keeps the pull request with the number.
unfoldable pub place : ℕ → Queue → Place
place n q = elim (lookup n q.suspended) [
  | some r ↦ suspended r
  | none ↦ elim (get n q.active) [ some r ↦ active r | none ↦ absent ]
]

-- The pull requests of the abstract queue: a place for each number. What the operations do to it.
abbrev put_at : ℕ → Place → (ℕ → Place) → ℕ → Place
put_at n p places k = if n == k then p else places k

abbrev pub enqueue_at : ℕ → Ref → (ℕ → Place) → ℕ → Place
enqueue_at n r places k = elim (places n) [ absent ↦ put_at n (active r) places k | _ ↦ places k ]

abbrev pub dequeue_at : ℕ → (ℕ → Place) → ℕ → Place
dequeue_at n places k = put_at n absent places k

abbrev pub suspend_at : ℕ → (ℕ → Place) → ℕ → Place
suspend_at n places k = elim (places n) [
  | active r ↦ put_at n (suspended r) places k
  | _ ↦ places k
]

abbrev pub resume_at : ℕ → (ℕ → Place) → ℕ → Place
resume_at n places k = elim (places n) [ suspended r ↦ put_at n (active r) places k | _ ↦ places k ]

pub set_since-number :
    (now : ℕ) (r : Ref) (w : World)
    → ((set_pr (set_in_active_queue_since now) r w).prs r).number ≡ (w.prs r).number
unfolding set_pr set_in_active_queue_since
set_since-number now r w = ground arith

enqueue_active-place :
    (env : Env) (r : Ref) (s : State) (k : ℕ)
    → let n = (s.prs r).number in
      lookup n s.suspended ≡ none
      → place k (enqueue_active env r s).0.q ≡ enqueue_at n r (λ j. place j s.q) k
unfolding enqueue_active enqueued place
enqueue_active-place env r s k h =
    let s₁ = on_pr (set_in_active_queue_since env.now) r s in
    let cmp = order_refs env s₁.world in
    let n = (s₁.prs r).number in
    ground (
      arith,
      set_since-number env.now r s.world,
      insert_if_not_exist-get cmp n r s.active k,
      insert_if_not_exist-added cmp n r s.active,
    )

-- `Enqueue` puts a pull request that the queue does not have into the active queue and changes
-- the place of no other; one that it has stays where it is, and the error is `ErrAlreadyExists`.
pub enqueue-place :
    (env : Env) (r : Ref) (s : State) (k : ℕ)
    → (place k (enqueue env r s).0.q ≡ enqueue_at (s.prs r).number r (λ j. place j s.q) k)
      × ((enqueue env r s).1 ≡ (elim (place (s.prs r).number s.q) [
        | absent ↦ ok tt
        | active _ ↦ err (wrapped "pull request already exist in active queue" already_exists)
        | suspended _ ↦ err (wrapped "pull request already exist in suspend queue" already_exists)
      ]))
unfolding enqueue enqueue_active enqueued place
enqueue-place env r s k =
    let s₁ = on_pr (set_in_active_queue_since env.now) r s in
    let cmp = order_refs env s₁.world in
    let n = (s₁.prs r).number in
    ground (
      arith,
      set_since-number env.now r s.world,
      insert_if_not_exist-get cmp n r s.active k,
      insert_if_not_exist-added cmp n r s.active,
    )

pub dequeue_active-get :
    (n k : ℕ) (q : Queue)
    → (get k (dequeue_active n q).0.active ≡ (if n == k then none else get k q.active))
      × ((dequeue_active n q).0.suspended ≡ q.suspended)
      × ((dequeue_active n q).1 ≡ get n q.active)
unfolding dequeue_active
dequeue_active-get n k q = ground (arith, dequeue-get n q.active k, dequeue-removed n q.active)

-- No pull request is both active and suspended.
pub record IsApart (q : Queue) : Type 0 where
  pub apart : (n : ℕ) → (lookup n q.suspended ≡ none) ⊎ (get n q.active ≡ none)

-- Where no pull request is both active and suspended, `Dequeue` removes the pull request from the
-- queue, active or suspended, returns it, and changes the place of no other; if the queue does not
-- have it, the error is `ErrNotFound`.
pub dequeue_pr-place :
    (env : Env) (n : ℕ) (set_pending : Bool) (s : State) (k : ℕ)
    → IsApart s.q
    → (place k (dequeue_pr env n set_pending s).0.q ≡ dequeue_at n (λ j. place j s.q) k)
      × ((dequeue_pr env n set_pending s).1
          ≡ (elim (place n s.q) [ absent ↦ err not_found | active r ↦ ok r | suspended r ↦ ok r ]))
unfolding dequeue_pr place
dequeue_pr-place env n set_pending s k v =
    ground (arith, dequeue_active-get n k s.q, lookup-delete n k s.suspended, v.apart n)

-- Where no pull request is both active and suspended, `suspend` moves an active pull request to the
-- suspended ones and changes the place of no other; if it is not active, nothing moves and the error
-- is `ErrNotFound`.
pub suspend-place :
    (env : Env) (n : ℕ) (s : State) (k : ℕ)
    → IsApart s.q
    → (place k (suspend env n s).0.q ≡ suspend_at n (λ j. place j s.q) k)
      × ((suspend env n s).1 ≡ (elim (place n s.q) [
        | active r ↦ ok tt
        | _ ↦ err (wrapped "pr not in active queue" not_found)
      ]))
unfolding suspend place
suspend-place env n s k v = elim (Option-cases (get n s.active)) [
  | inl e ↦ ground (arith, dequeue_active-get n k s.q, v.apart n)
  | inr (r, e) ↦
      ground (arith, dequeue_active-get n k s.q, v.apart n, lookup-insert n k r s.suspended)
]

-- Where no pull request is both active and suspended and the one to resume stands under its number,
-- `ResumePR` moves a suspended pull request to the active queue and changes the place of no other;
-- if it is not suspended, nothing moves and the error is `ErrNotFound`.
pub resume_pr-place :
    (env : Env) (n : ℕ) (s : State) (k : ℕ)
    → IsApart s.q
    → ((r : Ref) → lookup n s.suspended ≡ some r → (s.prs r).number ≡ n)
    → (place k (resume_pr env n s).0.q ≡ resume_at n (λ j. place j s.q) k)
      × ((resume_pr env n s).1 ≡ (elim (place n s.q) [ suspended r ↦ ok tt | _ ↦ err not_found ]))
unfolding resume_pr enqueue enqueue_active enqueued place
resume_pr-place env n s k v numbered = elim (Option-cases (lookup n s.suspended)) [
  | inl e ↦ ground arith
  | inr (r, e) ↦
      let s₁ = on_pr (set_in_active_queue_since env.now) r s in
      let cmp = order_refs env s₁.world in
      let m = (s₁.prs r).number in
      ground (
        arith,
        numbered r e,
        set_since-number env.now r s.world,
        insert_if_not_exist-get cmp m r s.active k,
        insert_if_not_exist-added cmp m r s.active,
        lookup-delete n k s.suspended,
        lookup-delete n n s.suspended,
        v.apart n,
      )
]
