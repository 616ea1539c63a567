-- ===== src/OrderedMap/Laws.antt =====
-- internal/orderedmap/orderedmap.go: the list and the map of a `Map` agree, and what the operations
-- do to the contents.
use Prim.Native.Nat.{Ordering}
use directorius.Prelude.{
  ℕ, ◌<◌, ◌≡◌, inl, inr, true, false, Option, none, some, List, [], ◌∷◌, arith, ◌==◌, if◌then◌else◌,
  Option-cases, Bool-cases,
}
use directorius.OrderedMap.{
  Element, Map, lookup, insert, insert_if_not_exist, get, dequeue, first, new,
}
use directorius.OrderedMap.Find.{find, lookup-insert, lookup-delete, find-remove, find-insert_list}

-- The list holds exactly the elements that the map points to, each under one key, and the
-- identities of the elements have been allocated.
pub record IsValid {ℓ} {V : Type ℓ} (s : Map V) : Type ℓ where
  pub below : (i : ℕ) (e : Element V) → find i s.order ≡ some e → i < s.fresh
  pub listed : (k : ℕ) (e : Element V) → lookup k s.m ≡ some e → find e.id s.order ≡ some e
  pub keyed : (i : ℕ) (e : Element V) → find i s.order ≡ some e → (k : ℕ) × (lookup k s.m ≡ some e)
  pub separate :
      (j k : ℕ) (e f : Element V)
      → lookup j s.m ≡ some e
      → lookup k s.m ≡ some f
      → e.id ≡ f.id
      → j ≡ k

module _ {ℓ} {V : Type ℓ} where
  pub find-id : (i : ℕ) (e : Element V) (es : List (Element V)) → find i es ≡ some e → e.id ≡ i
  unfolding find
  find-id i e [] h = cc
  find-id i e (x ∷ es) h = ground (arith, find-id i e es)

  find-fresh : {s : Map V} → IsValid s → find s.fresh s.order ≡ none
  find-fresh {s} v = elim (Option-cases (find s.fresh s.order)) [
    | inl e ↦ e
    | inr (x, e) ↦ absurd (omega (arith, v.below s.fresh x e))
  ]

  pub new-IsValid : IsValid {V = V} new
  unfolding lookup find
  new-IsValid = record {
    below = λ i e h. cc;
    listed = λ k e h. cc;
    keyed = λ i e h. cc;
    separate = λ j k e f h. cc;
  }

  module _ (cmp : V → V → Ordering) (key : ℕ) (val : V) (s : Map V) where
    pub insert_if_not_exist-get :
        (k : ℕ)
        → get k (insert_if_not_exist cmp key val s).0
          ≡ (elim (get key s) [ none ↦ if key == k then some val else get k s | some _ ↦ get k s ])
    unfolding insert_if_not_exist get
    insert_if_not_exist-get k =
        ground (arith, lookup-insert key k (record { id = s.fresh; value = val }) s.m)

    -- `added` is true exactly when the key was not in the map.
    pub insert_if_not_exist-added :
        (insert_if_not_exist cmp key val s).2 ≡ (elim (get key s) [ none ↦ true | some _ ↦ false ])
    unfolding insert_if_not_exist get
    insert_if_not_exist-added = ground arith

    pub insert_if_not_exist-kept :
        (insert_if_not_exist cmp key val s).2 ≡ false → (insert_if_not_exist cmp key val s).0 ≡ s
    unfolding insert_if_not_exist
    insert_if_not_exist-kept h = ground arith

    keyed_after :
        IsValid s
        → lookup key s.m ≡ none
        → (i : ℕ) (e : Element V) {o : Option (Element V)}
        → o ≡ (if s.fresh == i then some (record { id = s.fresh; value = val }) else find i s.order)
        → o ≡ some e
        → (k : ℕ) × (lookup k (insert key (record { id = s.fresh; value = val }) s.m) ≡ some e)
    keyed_after v h i e {o} a g =
        let x : Element V = record { id = s.fresh; value = val } in
        elim (Bool-cases (s.fresh == i)) [
          | inl t ↦ (key, ground (arith, lookup-insert key key x s.m))
          | inr t ↦
              let g' : find i s.order ≡ some e = ground arith in
              let (k, q) = v.keyed i e g' in (k, ground (arith, lookup-insert key k x s.m))
        ]

    -- `InsertIfNotExist` keeps the map valid: its list holds exactly the elements of its keys.
    pub insert_if_not_exist-IsValid : IsValid s → IsValid (insert_if_not_exist cmp key val s).0
    unfolding insert_if_not_exist
    insert_if_not_exist-IsValid v = elim (Option-cases (lookup key s.m)) [
      | inr (e, h) ↦ rw (h, insert_if_not_exist) v
      | inl h ↦
          let x : Element V = record { id = s.fresh; value = val } in
          let fr = find-fresh v in
          rw (h, insert_if_not_exist)
            (record {
              below = λ i e g. ground (arith, find-insert_list cmp x i s.order fr, v.below i e);
              listed = λ k e g. ground (
                arith,
                lookup-insert key k x s.m,
                find-insert_list cmp x e.id s.order fr,
                v.listed k e,
                v.below e.id e,
              );
              keyed = λ i e g. keyed_after v h i e (find-insert_list cmp x i s.order fr) g;
              separate = λ j k e f p q r. ground (
                arith,
                lookup-insert key j x s.m,
                lookup-insert key k x s.m,
                v.separate j k e f,
                v.listed j e,
                v.below e.id e,
                v.listed k f,
                v.below f.id f,
              );
            })
    ]

  module _ (key : ℕ) (s : Map V) where
    pub dequeue-get : (k : ℕ) → get k (dequeue key s).0 ≡ (if key == k then none else get k s)
    unfolding dequeue get
    dequeue-get k = ground (arith, lookup-delete key k s.m)

    pub dequeue-removed : (dequeue key s).1 ≡ get key s
    unfolding dequeue get
    dequeue-removed = ground arith

    -- `Dequeue` keeps the map valid: its list holds exactly the elements of its keys.
    pub dequeue-IsValid : IsValid s → IsValid (dequeue key s).0
    unfolding dequeue
    dequeue-IsValid v = elim (Option-cases (lookup key s.m)) [
      | inl h ↦ rw (h, dequeue) v
      | inr (e, h) ↦
          rw (h, dequeue)
            (record {
              below = λ i f g. ground (arith, find-remove e i s.order, v.below i f);
              listed = λ k f g. ground (
                arith,
                lookup-delete key k s.m,
                find-remove e f.id s.order,
                v.listed k f,
                v.separate key k e f,
              );
              keyed = λ i f g.
                  let g' : find i s.order ≡ some f = ground (arith, find-remove e i s.order) in
                  let (k, q) = v.keyed i f g' in
                  (
                    k,
                    ground (
                      arith,
                      lookup-delete key k s.m,
                      find-remove e i s.order,
                      find-id i f s.order g',
                    ),
                  );
              separate = λ j k f f' p q r.
                  ground
                    (arith, lookup-delete key j s.m, lookup-delete key k s.m, v.separate j k f f');
            })
    ]

  front_value : List (Element V) → Option V
  front_value [] = none
  front_value (e ∷ _) = some e.value

  front_find :
      (es : List (Element V)) (x : V)
      → front_value es ≡ some x
      → (e : Element V) × (find e.id es ≡ some e) × (e.value ≡ x)
  unfolding find front_value
  front_find [] x h = cc
  front_find (e ∷ es) x h = (e, ground arith, ground arith)

  -- The first element of a valid map is under some key.
  pub first-keyed :
      (s : Map V) (x : V) → IsValid s → first s ≡ some x → (k : ℕ) × (get k s ≡ some x)
  unfolding first get front_value
  first-keyed s x v h =
      let (e, f, q) = front_find s.order x (ground arith) in
      let (k, g) = v.keyed e.id e f in (k, ground arith)
