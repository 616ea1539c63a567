-- ===== src/MergeQueue/Queue/Free.antt =====
-- internal/mergequeue/queue.go: a queue that does not point to a pull request, and what keeps it so.
use Prim.Native.Nat.{Ordering}
use directorius.Prelude.{
  ℕ, Bool, false, ◌≡◌, refl, some, List, [], ◌∷◌, ◌++◌, map, filter, arith, any-append, ◌==◌,
  Option-cases, inl, inr, List-cases, ap,
}
use directorius.OrderedMap.{
  Element, Map, lookup, delete, insert, insert_before, insert_list, insert_if_not_exist, remove,
  dequeue, first, get,
}
use directorius.MergeQueue.World.{Ref}
use directorius.MergeQueue.Queue.{Queue}
use directorius.MergeQueue.Events.Incoming.{
  active_refs, suspended_refs, listed_refs, queue_refs, work_ref,
}
use directorius.MergeQueue.Events.Fresh.{has, in_queue}

-- The map does not have the pointer.
pub record IsFreeMap (r : Ref) (m : Map Ref) : Type 0 where
  pub entries : has r (map (λ e. e.1.value) m.m) ≡ false
  pub order : has r (map (λ e. e.value) m.order) ≡ false

-- The queue does not have the pointer.
pub record IsFree (r : Ref) (q : Queue) : Type 0 where
  pub active : IsFreeMap r q.active
  pub suspended : has r (suspended_refs q) ≡ false
  pub pool : has r (map work_ref q.action_pool) ≡ false

pub in_queue-IsFree : (r : Ref) (q : Queue) → in_queue r q ≡ false → IsFree r q
unfolding queue_refs
in_queue-IsFree r q h =
    let f : Ref → Bool = λ x. x == r in
    let one = any-append f (active_refs q) (suspended_refs q ++ listed_refs q) in
    let two = any-append f (suspended_refs q) (listed_refs q) in
    let three = any-append f (map (λ e. e.value) q.active.order) (map work_ref q.action_pool) in
    record {
      active = record { entries = ground (arith, one); order = ground (arith, one, two, three) };
      suspended = ground (arith, one, two);
      pool = ground (arith, one, two, three);
    }

module _ (r : Ref) where
  pub has-append :
      (xs ys : List Ref) → has r xs ≡ false → has r ys ≡ false → has r (xs ++ ys) ≡ false
  has-append xs ys h k = ground (arith, any-append (λ x. x == r) xs ys)

  pub has-filter : (f : Ref → Bool) (xs : List Ref) → has r xs ≡ false → has r (filter f xs) ≡ false
  has-filter f [] h = refl
  has-filter f (x ∷ xs) h = ground (arith, has-filter f xs)

  module _ {A : Type 0} (f : A → Ref) where
    abbrev refs_of : List (ℕ × A) → List Ref
    refs_of m = map (λ e. f e.1) m

    pub lookup_free :
        (k : ℕ) (m : List (ℕ × A)) (x : A)
        → has r (refs_of m) ≡ false
        → lookup k m ≡ some x
        → (f x == r) ≡ false
    unfolding lookup
    lookup_free k [] x h e = absurd (ground arith)
    lookup_free k ((j, y) ∷ m) x h e = ground (arith, lookup_free k m x)

    pub delete_free :
        (k : ℕ) (m : List (ℕ × A))
        → has r (refs_of m) ≡ false
        → has r (refs_of (delete k m)) ≡ false
    unfolding delete
    delete_free k [] h = refl
    delete_free k ((j, y) ∷ m) h = ground (arith, delete_free k m)

    pub insert_free :
        (k : ℕ) (x : A) (m : List (ℕ × A))
        → has r (refs_of m) ≡ false
        → (f x == r) ≡ false
        → has r (refs_of (insert k x m)) ≡ false
    unfolding insert
    insert_free k x [] h e = ground arith
    insert_free k x ((j, y) ∷ m) h e = ground (arith, insert_free k x m)

  abbrev is_free_order : List (Element Ref) → Bool
  is_free_order es = has r (map (λ e. e.value) es)

  remove_free :
      (x : Element Ref) (es : List (Element Ref))
      → is_free_order es ≡ false
      → is_free_order (remove x es) ≡ false
  unfolding remove
  remove_free x [] h = refl
  remove_free x (e ∷ es) h = ground (arith, remove_free x es)

  insert_before_free :
      (cmp : Ref → Ref → Ordering) (x : Element Ref) (es : List (Element Ref))
      → is_free_order es ≡ false
      → (x.value == r) ≡ false
      → is_free_order (insert_before cmp x es) ≡ false
  unfolding insert_before
  insert_before_free cmp x [] h k = ground arith
  insert_before_free cmp x (e ∷ es) h k = ground (arith, insert_before_free cmp x es)

  append_free :
      (x : Element Ref) (es : List (Element Ref))
      → is_free_order es ≡ false
      → (x.value == r) ≡ false
      → is_free_order (es ++ x ∷ []) ≡ false
  append_free x [] h k = ground arith
  append_free x (e ∷ es) h k = ground (arith, append_free x es)

  insert_list_free :
      (cmp : Ref → Ref → Ordering) (x : Element Ref) (es : List (Element Ref))
      → is_free_order es ≡ false
      → (x.value == r) ≡ false
      → is_free_order (insert_list cmp x es) ≡ false
  unfolding insert_list
  insert_list_free cmp x [] h k = ground arith
  insert_list_free cmp x (e ∷ es) h k =
      ground (arith, append_free x (e ∷ es), insert_before_free cmp x es)

  pub insert_if_not_exist_free :
      (cmp : Ref → Ref → Ordering) (k : ℕ) (x : Ref) (m : Map Ref)
      → IsFreeMap r m
      → (x == r) ≡ false
      → IsFreeMap r (insert_if_not_exist cmp k x m).0
  unfolding insert_if_not_exist
  insert_if_not_exist_free cmp k x m h e = elim (Option-cases (lookup k m.m)) [
    | inr (y, g) ↦ rw (g, insert_if_not_exist) h
    | inl g ↦
        let y : Element Ref = record { id = m.fresh; value = x } in
        rw (g, insert_if_not_exist)
          (record {
            entries = insert_free (λ z. z.value) k y m.m h.entries e;
            order = insert_list_free cmp y m.order h.order e;
          })
  ]

  pub dequeue_free : (k : ℕ) (m : Map Ref) → IsFreeMap r m → IsFreeMap r (dequeue k m).0
  unfolding dequeue
  dequeue_free k m h = elim (Option-cases (lookup k m.m)) [
    | inl g ↦ rw (g, dequeue) h
    | inr (y, g) ↦
        rw (g, dequeue)
          (record {
            entries = delete_free (λ (z : Element Ref). z.value) k m.m h.entries;
            order = remove_free y m.order h.order;
          })
  ]

  pub dequeued_free :
      (k : ℕ) (m : Map Ref) (x : Ref) → IsFreeMap r m → (dequeue k m).1 ≡ some x → (x == r) ≡ false
  unfolding dequeue
  dequeued_free k m x h e = elim (Option-cases (lookup k m.m)) [
    | inl g ↦ absurd (ground arith)
    | inr (y, g) ↦ ground (arith, lookup_free (λ (z : Element Ref). z.value) k m.m y h.entries g)
  ]

  pub first_free : (m : Map Ref) (x : Ref) → IsFreeMap r m → first m ≡ some x → (x == r) ≡ false
  unfolding first
  first_free m x h e = elim (List-cases m.order) [
    | inl g ↦ absurd (ground arith)
    | inr (y, ys, g) ↦ ground (arith, h.order, ap is_free_order g)
  ]

  pub get_free :
      (k : ℕ) (m : Map Ref) (x : Ref) → IsFreeMap r m → get k m ≡ some x → (x == r) ≡ false
  unfolding get
  get_free k m x h e = elim (Option-cases (lookup k m.m)) [
    | inl g ↦ absurd (ground arith)
    | inr (y, g) ↦ ground (arith, lookup_free (λ (z : Element Ref). z.value) k m.m y h.entries g)
  ]
