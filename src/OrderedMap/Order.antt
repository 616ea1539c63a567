-- ===== src/OrderedMap/Order.antt =====
-- internal/orderedmap/orderedmap.go: the first element.
use Prim.Native.Nat.{Ordering}
use directorius.Prelude.{
  ℕ, suc, ◌≡◌, refl, Bool, true, false, Option, none, some, List, [], ◌∷◌, arith, ◌==◌, length,
}
use directorius.OrderedMap.{
  Element, Map, insert_before, insert_list, insert_if_not_exist, get, first,
}

module _ {ℓ} {V : Type ℓ} where
  -- The first value after an insertion, from the one before.
  abbrev pub first_or : V → Option V → Option V
  first_or v none = some v
  first_or v (some w) = some w

  abbrev pub is_none : Option V → Bool
  is_none none = true
  is_none (some _) = false

  abbrev front_value : List (Element V) → Option V
  front_value [] = none
  front_value (e ∷ _) = some e.value

  length-insert_before :
      (cmp : V → V → Ordering) (x : Element V) (es : List (Element V))
      → length (insert_before cmp x es) ≡ suc (length es)
  unfolding insert_before
  length-insert_before cmp x [] = refl
  length-insert_before cmp x (e ∷ es) = ground (arith, length-insert_before cmp x es)

  length-insert_list :
      (cmp : V → V → Ordering) (x : Element V) (es : List (Element V))
      → (length (insert_list cmp x es) == 1) ≡ is_none (front_value es)
  unfolding insert_list
  length-insert_list cmp x [] = refl
  length-insert_list cmp x (e ∷ []) = refl
  length-insert_list cmp x (e ∷ e' ∷ es) = ground (arith, length-insert_before cmp x (e' ∷ es))

  first-insert_list :
      (cmp : V → V → Ordering) (x : Element V) (es : List (Element V))
      → front_value (insert_list cmp x es) ≡ first_or x.value (front_value es)
  unfolding insert_list
  first-insert_list cmp x [] = refl
  first-insert_list cmp x (e ∷ es) = ground arith

  first-front_value : (s : Map V) → first s ≡ front_value s.order
  unfolding first
  first-front_value s = refl

  module _ (cmp : V → V → Ordering) (key : ℕ) (val : V) (s : Map V) where
    -- The first element of the map stays the first one, whatever the rank of the new value is; a
    -- value that is inserted into an empty map is the first one, and exactly then `isFirst` is
    -- true. The key is not in the map before.
    pub insert_if_not_exist-first :
        get key s ≡ none
        → (first (insert_if_not_exist cmp key val s).0 ≡ first_or val (first s))
          × ((insert_if_not_exist cmp key val s).1 ≡ is_none (first s))
    unfolding insert_if_not_exist get
    insert_if_not_exist-first h =
        let x : Element V = record { id = s.fresh; value = val } in
        ground (
          arith,
          first-front_value s,
          first-front_value (insert_if_not_exist cmp key val s).0,
          first-insert_list cmp x s.order,
          length-insert_list cmp x s.order,
        )
