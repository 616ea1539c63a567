-- ===== src/OrderedMap.antt =====
-- internal/orderedmap/orderedmap.go: a map whose elements have a fixed order. The keys are numbers,
-- the only kind of key that the program uses. The linked list stands as the sequence of its
-- elements; an element keeps its identity, as the pointer to it does, and its value never changes.
pub mod Find
pub mod Laws
pub mod Order
pub mod Sort
use Prim.Native.Nat.{Ordering}
use directorius.Prelude.{
  ℕ, zero, suc, ◌+◌, Bool, true, false, Option, none, some, List, [], ◌∷◌, ◌++◌, map, length, any,
  ltb, ◌==◌, if◌then◌else◌,
}
use directorius.Sorting.{sorted_func}

-- `linkedlist.Element`: the number is the identity of the pointer.
pub record Element {ℓ} (V : Type ℓ) : Type ℓ where
  pub id : ℕ
  pub value : V

-- `Map`; `fresh` is the identity of the next element that is allocated.
pub record Map {ℓ} (V : Type ℓ) : Type ℓ where
  pub order : List (Element V)
  pub m : List (ℕ × Element V)
  pub fresh : ℕ

-- Go maps with numbers as keys.
module _ {ℓ} {A : Type ℓ} where
  unfoldable pub lookup : ℕ → List (ℕ × A) → Option A
  lookup k [] = none
  lookup k ((j, a) ∷ m) = if j == k then some a else lookup k m

  -- `delete(m, k)`
  unfoldable pub delete : ℕ → List (ℕ × A) → List (ℕ × A)
  delete k [] = []
  delete k ((j, a) ∷ m) = let rest = delete k m in if j == k then rest else (j, a) ∷ rest

  -- `m[k] = a`
  unfoldable pub insert : ℕ → A → List (ℕ × A) → List (ℕ × A)
  insert k a [] = (k, a) ∷ []
  insert k a ((j, b) ∷ m) = if j == k then (k, a) ∷ m else (j, b) ∷ insert k a m

module _ {ℓ} {V : Type ℓ} where
  abbrev pub values : List (Element V) → List V
  values = map (λ e. e.value)

  -- `New`
  abbrev pub new : Map V
  new = record { order = []; m = []; fresh = 0 }

  -- The loop of `insertList`: before the first element that `val` is smaller than, or at the back.
  unfoldable pub insert_before :
      (V → V → Ordering) → Element V → List (Element V) → List (Element V)
  insert_before cmp x [] = x ∷ []
  insert_before cmp x (e ∷ es) =
      let rest = insert_before cmp x es in
      elim (cmp x.value e.value) [ Ordering.lt ↦ x ∷ e ∷ es | _ ↦ e ∷ rest ]

  -- `insertList`: the first element of the list is fixed.
  unfoldable pub insert_list : (V → V → Ordering) → Element V → List (Element V) → List (Element V)
  unfolding insert_before
  insert_list cmp x [] = x ∷ []
  insert_list cmp x (e ∷ es) =
      if ltb (length (e ∷ es)) 2 then (e ∷ es) ++ x ∷ [] else e ∷ insert_before cmp x es

  -- `InsertIfNotExist`: the new map, `isFirst` and `added`.
  unfoldable pub insert_if_not_exist : (V → V → Ordering) → ℕ → V → Map V → Map V × Bool × Bool
  unfolding lookup insert insert_list
  insert_if_not_exist cmp key val s = elim (lookup key s.m) [
    | some _ ↦ (s, false, false)
    | none ↦
        let x : Element V = record { id = s.fresh; value = val } in
        let order = insert_list cmp x s.order in
        (
          record { order = order; m = insert key x s.m; fresh = s.fresh + 1 },
          length order == 1,
          true,
        )
  ]

  -- `Get`; `none` is the zero value.
  unfoldable pub get : ℕ → Map V → Option V
  unfolding lookup
  get key s = elim (lookup key s.m) [ none ↦ none | some e ↦ some e.value ]

  -- `List.Remove`: the element leaves the list.
  unfoldable pub remove : Element V → List (Element V) → List (Element V)
  remove x [] = []
  remove x (e ∷ es) = let rest = remove x es in if e.id == x.id then rest else e ∷ rest

  -- `Dequeue`
  unfoldable pub dequeue : ℕ → Map V → Map V × Option V
  unfolding lookup delete remove
  dequeue key s = elim (lookup key s.m) [
    | none ↦ (s, none)
    | some e ↦ (record s { order = remove e s.order; m = delete key s.m }, some e.value)
  ]

  -- `First`
  unfoldable pub first : Map V → Option V
  first s = elim s.order [ [] ↦ none | e ∷ _ ↦ some e.value ]

  -- `Len`
  abbrev pub len : Map V → ℕ
  len s = length s.order

  -- `AsSlice`
  unfoldable pub as_slice : Map V → List V
  as_slice s = values s.order

  -- `Element.Next`: `nil` at the end of the list, and for an element that has left the list.
  unfoldable pub next : Element V → List (Element V) → Option (Element V)
  next x [] = none
  next x (e ∷ []) = none
  next x (e ∷ e' ∷ es) = if e.id == x.id then some e' else next x (e' ∷ es)

  -- `List.MoveToBack`: only an element of the list is moved.
  unfoldable pub move_to_back : Element V → List (Element V) → List (Element V)
  unfolding remove
  move_to_back x es = if any (λ e. e.id == x.id) es then remove x es ++ x ∷ [] else es

  -- The loop of `SortByKey` over the sorted keys.
  unfoldable pub move_all : List (ℕ × Element V) → List ℕ → List (Element V) → List (Element V)
  unfolding lookup move_to_back
  move_all m [] es = es
  move_all m (k ∷ ks) es =
      move_all m ks (elim (lookup k m) [ none ↦ es | some e ↦ move_to_back e es ])

  -- `SortByKey`
  unfoldable pub sort_by_key : (ℕ → ℕ → Ordering) → Map V → Map V
  unfolding move_all sorted_func
  sort_by_key cmp s =
      if len s == 0
      then s
      else record s { order = move_all s.m (sorted_func cmp (map (λ e. e.0) s.m)) s.order }

  -- `List.Front`
  unfoldable pub front : List (Element V) → Option (Element V)
  front [] = none
  front (e ∷ es) = some e

module _ {ℓ κ} {V : Type ℓ} {S : Type κ} (order_of : S → List (Element V)) (body : V → S → S) where
  -- The loop of `Foreach`, whose body may change the list that `order_of` reads.
  unfoldable pub foreach_from : ℕ → Option (Element V) → S → S
  unfolding next
  foreach_from zero e s = s
  foreach_from (suc fuel) none s = s
  foreach_from (suc fuel) (some e) s =
      let s' = body e.value s in foreach_from fuel (next e (order_of s')) s'

  -- `Foreach` with a body that always returns true; a round for each element is enough while the
  -- body adds none.
  unfoldable pub foreach : S → S
  unfolding foreach_from front
  foreach s = foreach_from (length (order_of s) + 1) (front (order_of s)) s
