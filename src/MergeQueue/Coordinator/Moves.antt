-- ===== src/MergeQueue/Coordinator/Moves.antt =====
-- internal/mergequeue/coordinator.go: where the operations leave a pull request.
use directorius.Prelude.{
  ℕ, String, Bool, true, false, ◌≡◌, refl, ◌∙◌, Option, none, some, List, [], ◌∷◌, arith, ◌==◌,
  ==_refl, if◌then◌else◌, length, Option-cases, inl, inr,
}
use directorius.Errors.{Result, ok, err}
use directorius.OrderedMap.{Element, lookup, get, new}
use directorius.OrderedMap.Find.{find}
use directorius.MergeQueue.World.{Ref, Env, World}
use directorius.MergeQueue.Queue.{BranchId, Queue, State, new_queue, is_empty, enqueue, dequeue_pr}
use directorius.MergeQueue.Queue.Place.{
  Place, place, active, suspended, absent, enqueue_at, enqueue-place, dequeue_pr-place,
}
use directorius.MergeQueue.Queue.Valid.{IsValid}
use directorius.MergeQueue.Queue.Valid.Dequeue.{dequeue_pr-IsValid}
use directorius.MergeQueue.Coordinator.{
  Coordinator, is_branch, get_queue, state_of, queue_or_new, enqueue_in, remove_if_empty,
  dequeue_from, enqueue_moved, change_base_branch,
}
use directorius.MergeQueue.Coordinator.Find.{
  get_queue-put_queue, get_queue-delete_queue, is_branch_refl, is_branch_sym,
}
use directorius.MergeQueue.Coordinator.Valid.{AreValid, dequeue_from-SameNumbers}

-- Where the coordinator keeps the pull request of the base branch; nowhere, if there is no queue.
abbrev pub place_in : BranchId → ℕ → Coordinator → Place
place_in b n c = elim (get_queue b c.queues) [ some q ↦ place n q | none ↦ absent ]

abbrev pub ref_at : Place → Option Ref
ref_at (active r) = some r
ref_at (suspended r) = some r
ref_at absent = none

abbrev pub is_absent : Place → Bool
is_absent absent = true
is_absent _ = false

abbrev pub result_of {ℓ} : {A : Type ℓ} → Result A → Option A
result_of (ok a) = some a
result_of (err e) = none

abbrev pub is_ok {ℓ} : {A : Type ℓ} → Result A → Bool
is_ok (ok a) = true
is_ok (err e) = false

lookup_empty : {A : Type 0} (k : ℕ) (m : List (ℕ × A)) → (length m == 0) ≡ true → lookup k m ≡ none
unfolding lookup
lookup_empty k [] h = refl
lookup_empty k (e ∷ m) h = ground arith

find_empty :
    {V : Type 0} (i : ℕ) (es : List (Element V)) → (length es == 0) ≡ true → find i es ≡ none
unfolding find
find_empty i [] h = refl
find_empty i (e ∷ es) h = ground arith

-- An empty queue has no pull request.
is_empty-place :
    (w : World) (q : Queue) (k : ℕ) → IsValid w q → is_empty q ≡ true → place k q ≡ absent
unfolding is_empty place get
is_empty-place w q k v h = elim (Option-cases (lookup k q.active.m)) [
  | inl e ↦ ground (arith, lookup_empty k q.suspended)
  | inr (x, e) ↦ ground (arith, v.active_valid.listed k x e, find_empty x.id q.active.order)
]

module _ (env : Env) (b : BranchId) where
  -- After `Dequeue` the base branch has no queue, or one that is not empty.
  pub dequeue_from_not_empty :
      (n : ℕ) (set_pending : Bool) (c : Coordinator) (q : Queue)
      → get_queue b (dequeue_from env b n set_pending c).0.queues ≡ some q
      → is_empty q ≡ false
  unfolding dequeue_from remove_if_empty
  dequeue_from_not_empty n set_pending c q h = elim (Option-cases (get_queue b c.queues)) [
    | inl e ↦ ground arith
    | inr (p, e) ↦
        let t = (dequeue_pr env n set_pending (state_of c p)).0 in
        ground (
          arith,
          is_branch_refl b,
          get_queue-delete_queue b b c.queues,
          get_queue-put_queue b b t.q c.queues,
        )
  ]

  remove_if_empty-place :
      (s : State) (c : Coordinator) (k : ℕ)
      → IsValid s.world s.q
      → place_in b k (remove_if_empty env b s c) ≡ place k s.q
  unfolding remove_if_empty
  remove_if_empty-place s c k v = ground (
    arith,
    is_branch_refl b,
    is_empty-place s.world s.q k v,
    get_queue-delete_queue b b c.queues,
    get_queue-put_queue b b s.q c.queues,
  )

  -- If every queue is valid, `Dequeue` removes the pull request from the base branch and returns it, and changes the place of
  -- no other one of the branch; if the branch does not have it, an error is returned.
  pub dequeue_from-place :
      (n : ℕ) (set_pending : Bool) (c : Coordinator) (k : ℕ)
      → AreValid c
      → (place_in b k (dequeue_from env b n set_pending c).0
          ≡ (if n == k then absent else place_in b k c))
        × (result_of (dequeue_from env b n set_pending c).1 ≡ ref_at (place_in b n c))
  unfolding dequeue_from
  dequeue_from-place n set_pending c k v = elim (Option-cases (get_queue b c.queues)) [
    | inl e ↦ ground arith
    | inr (p, e) ↦
        let s = state_of c p in
        let u = v.valid b p e in
        let t = (dequeue_pr env n set_pending s).0 in
        let result = (dequeue_pr env n set_pending s).1 in
        ground (
          arith,
          dequeue_pr-place env n set_pending s k u.is_apart,
          remove_if_empty-place t c k (dequeue_pr-IsValid env n set_pending s u),
        )
  ]

  -- `Dequeue` leaves the queues of the other base branches as they are.
  pub dequeue_from-others :
      (n : ℕ) (set_pending : Bool) (c : Coordinator) (d : BranchId)
      → is_branch b d ≡ false
      → get_queue d (dequeue_from env b n set_pending c).0.queues ≡ get_queue d c.queues
  unfolding dequeue_from remove_if_empty
  dequeue_from-others n set_pending c d h = elim (Option-cases (get_queue b c.queues)) [
    | inl e ↦ ground arith
    | inr (p, e) ↦
        let t = (dequeue_pr env n set_pending (state_of c p)).0 in
        ground (arith, get_queue-delete_queue b d c.queues, get_queue-put_queue b d t.q c.queues)
  ]

  new_queue-place : (label : String) (k : ℕ) → place k (new_queue b label) ≡ absent
  unfolding new_queue place get lookup
  new_queue-place label k = refl

  -- `Enqueue` puts a pull request that the base branch does not have into its active queue, creating
  -- the queue if there is none, and changes the place of no other one of the branch.
  pub enqueue_in-place :
      (r : Ref) (c : Coordinator) (k : ℕ)
      → (place_in b k (enqueue_in env b r c).0
          ≡ enqueue_at (c.world.prs r).number r (λ j. place_in b j c) k)
        × (is_ok (enqueue_in env b r c).1 ≡ is_absent (place_in b (c.world.prs r).number c))
  unfolding enqueue_in
  enqueue_in-place r c k =
      let n = (c.world.prs r).number in
      let q = queue_or_new b c in
      let t = (enqueue env r (state_of c q)).0 in
      ground (
        arith,
        enqueue-place env r (state_of c q) k,
        new_queue-place c.head_label k,
        new_queue-place c.head_label n,
        is_branch_refl b,
        get_queue-put_queue b b t.q c.queues,
      )

  pub enqueue_in-others :
      (r : Ref) (c : Coordinator) (d : BranchId)
      → is_branch b d ≡ false
      → get_queue d (enqueue_in env b r c).0.queues ≡ get_queue d c.queues
  unfolding enqueue_in
  enqueue_in-others r c d h =
      let t = (enqueue env r (state_of c (queue_or_new b c))).0 in
      ground (arith, get_queue-put_queue b d t.q c.queues)

-- In valid queues a pull request stands under its number.
place_in-number :
    (b : BranchId) (n : ℕ) (c : Coordinator) (r : Ref)
    → AreValid c
    → ref_at (place_in b n c) ≡ some r
    → (c.world.prs r).number ≡ n
unfolding place
place_in-number b n c r v h = elim (Option-cases (get_queue b c.queues)) [
  | inl e ↦ ground arith
  | inr (q, e) ↦
      let u = v.valid b q e in ground (arith, u.active_numbered n r, u.suspended_numbered n r)
]

result_of-ok : (x : Result Ref) (r : Ref) → result_of x ≡ some r → x ≡ ok r
result_of-ok (ok a) r h = ground arith
result_of-ok (err e) r h = ground arith

enqueue_moved_ok :
    (env : Env) (b : BranchId) (x : Coordinator × Result Ref) (r : Ref)
    → x.1 ≡ ok r
    → ((enqueue_moved env b x).0 ≡ (enqueue_in env b r x.0).0)
      × (is_ok (enqueue_moved env b x).1 ≡ is_ok (enqueue_in env b r x.0).1)
unfolding enqueue_moved
enqueue_moved_ok env b (c, ok s) r h = ground arith
enqueue_moved_ok env b (c, err e) r h = ground arith

-- If every queue is valid, `ChangeBaseBranch` moves a pull request that the old base branch has, active or suspended, and the
-- new one has not, into the active queue of the new base branch, without an error.
pub change_base_branch-place :
    (env : Env) (old new : BranchId) (n : ℕ) (c : Coordinator) (r : Ref)
    → AreValid c
    → is_branch old new ≡ false
    → ref_at (place_in old n c) ≡ some r
    → place_in new n c ≡ absent
    → let (c', result) = change_base_branch env old new n c in
      (is_ok result ≡ true) × (place_in old n c' ≡ absent) × (place_in new n c' ≡ active r)
unfolding change_base_branch
change_base_branch-place env old new n c r v apart here there =
    let d = (dequeue_from env old n true c).0 in
    let (gone, returned) = dequeue_from-place env old n true c n v in
    let answered = result_of-ok (dequeue_from env old n true c).1 r (returned ∙ here) in
    let (moved, outcome) = enqueue_moved_ok env new (dequeue_from env old n true c) r answered in
    let others = dequeue_from-others env old n true c new apart in
    let same = dequeue_from-SameNumbers env old n true c v in
    let number : (d.world.prs r).number ≡ n = same.same r ∙ place_in-number old n c r v here in
    let kept = enqueue_in-others env new r d old (is_branch_sym old new apart) in
    let (put, done) = enqueue_in-place env new r d n in
    (
      ground (arith, others, outcome, number, done, there),
      ground (arith, kept, moved, gone, ==_refl n),
      ground (arith, moved, put, number, others, there, ==_refl n),
    )
