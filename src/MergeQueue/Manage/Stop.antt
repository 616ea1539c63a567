-- ===== src/MergeQueue/Manage/Stop.antt =====
-- internal/mergequeue/queue.go: what `Stop` leaves in a queue.
use directorius.Prelude.{
  ℕ, suc, ◌+◌, Bool, false, ◌≡◌, refl, ap, ◌∙◌, none, some, List, [], ◌∷◌, arith, ◌==◌, ==_refl,
  any, length, inl,
}
use directorius.OrderedMap.{
  Element, Map, lookup, remove, next, get, dequeue, front, foreach_from, foreach,
}
use directorius.OrderedMap.Find.{find}
use directorius.OrderedMap.Laws
use directorius.MergeQueue.World.{Ref}
use directorius.MergeQueue.Queue.{State, Queue, dequeue_active}
use directorius.MergeQueue.Queue.Valid.{IsValid}
use directorius.MergeQueue.Manage.{cancel_executing, stop}

module _ {ℓ} {V : Type ℓ} where
  abbrev contains_id : Element V → List (Element V) → Bool
  contains_id x = any (λ e. e.id == x.id)

  remove_absent : (x : Element V) (es : List (Element V)) → contains_id x (remove x es) ≡ false
  unfolding remove
  remove_absent x [] = refl
  remove_absent x (e ∷ es) = ground (arith, remove_absent x es)

  next_absent :
      (x : Element V) (es : List (Element V)) → contains_id x es ≡ false → next x es ≡ none
  unfolding next
  next_absent x [] h = refl
  next_absent x (e ∷ []) h = refl
  next_absent x (e ∷ e' ∷ es) h = ground (arith, next_absent x (e' ∷ es))

  -- An element that has left the list has no next one.
  next-remove : (x : Element V) (es : List (Element V)) → next x (remove x es) ≡ none
  next-remove x es = next_absent x (remove x es) (remove_absent x es)

  -- In a valid map the first element is the one under its key.
  front-keyed :
      (s : Map V) (e : Element V) (es : List (Element V))
      → Laws.IsValid s
      → s.order ≡ e ∷ es
      → (k : ℕ) × (lookup k s.m ≡ some e)
  unfolding find
  front-keyed s e es v h = v.keyed e.id e (rw h ground (arith, ==_refl e.id))

-- The first round of the loop of `Stop` ends it: the element that it removed has no next one.
module _ (s : State) (v : IsValid s.world s.q) where
  dequeue_first :
      (e : Element Ref) (es : List (Element Ref))
      → s.active.order ≡ e ∷ es
      → (dequeue_active (s.prs e.value).number s.q).0.active.order ≡ remove e s.active.order
  unfolding dequeue_active dequeue get
  dequeue_first e es h =
      let (k, l) = front-keyed s.active e es v.active_valid h in
      ground (arith, v.active_numbered k e.value)

module _ {ℓ κ} {V : Type ℓ} {S : Type κ} (order_of : S → List (Element V)) (body : V → S → S) where
  foreach_from-ends :
      (n : ℕ) (s : S) (e : Element V)
      → next e (order_of (body e.value s)) ≡ none
      → foreach_from order_of body (suc (suc n)) (some e) s ≡ body e.value s
  unfolding foreach_from
  foreach_from-ends n s e h = rw (h, foreach_from) refl

  -- A body that removes the element that it is called for ends the loop.
  foreach-removes :
      (s : S) (e : Element V) (es : List (Element V))
      → order_of s ≡ e ∷ es
      → order_of (body e.value s) ≡ remove e (order_of s)
      → foreach order_of body s ≡ body e.value s
  unfolding foreach front
  foreach-removes s e es h r =
      let fuel : length (e ∷ es) + 1 ≡ suc (suc (length es)) = ground arith in
      let ends = foreach_from-ends (length es) s e (ap (next e) r ∙ next-remove e (order_of s)) in
      rw (h, foreach, fuel) ends

-- The state when the loop of `Stop` begins.
abbrev unsuspended : State → State
unsuspended s = record s { q = record s.q { suspended = [] } }

unsuspended-IsValid :
    (s : State) → IsValid s.world s.q → IsValid (unsuspended s).world (unsuspended s).q
unfolding lookup
unsuspended-IsValid s v = record {
  active_valid = v.active_valid;
  active_numbered = v.active_numbered;
  suspended_numbered = λ k r e. ground arith;
  is_apart = record { apart = λ n. inl refl };
  entries_numbered = tt;
}

cancel_executing_contents :
    (q : Queue)
    → ((cancel_executing q).active ≡ q.active) × ((cancel_executing q).suspended ≡ q.suspended)
unfolding cancel_executing
cancel_executing_contents q = ground arith

-- In a valid queue with active pull requests `Stop` empties the suspended ones, but of the active ones
-- it removes the first one only: it leaves the active queue that dequeuing the first pull request leaves.
pub stop_removes_first :
    (s : State) (e : Element Ref) (es : List (Element Ref))
    → IsValid s.world s.q
    → s.active.order ≡ e ∷ es
    → ((stop s).active ≡ (dequeue (s.prs e.value).number s.active).0) × ((stop s).suspended ≡ [])
unfolding stop dequeue_active
stop_removes_first s e es v h =
    let t = unsuspended s in
    let removed = dequeue_first t (unsuspended-IsValid s v) e es h in
    let body : Ref → State → State =
      λ r u. record u { q = (dequeue_active (u.prs r).number u.q).0 } in
    let ends = foreach-removes (λ (u : State). u.active.order) body t e es h removed in
    let (a, b) = cancel_executing_contents (body e.value t).q in rw (ends, stop) (a, b)
