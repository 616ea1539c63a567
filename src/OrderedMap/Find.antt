-- ===== src/OrderedMap/Find.antt =====
-- internal/orderedmap/orderedmap.go: how the operations change what is found by key or identity.
use Prim.Native.Nat.{Ordering}
use directorius.Prelude.{
  ℕ, ◌≡◌, refl, Option, none, some, List, [], ◌∷◌, ◌++◌, arith, ◌==◌, if◌then◌else◌,
}
use directorius.OrderedMap.{Element, lookup, delete, insert, insert_before, insert_list, remove}

module _ {ℓ} {A : Type ℓ} where
  pub lookup-insert :
      (k j : ℕ) (a : A) (m : List (ℕ × A))
      → lookup j (insert k a m) ≡ (if k == j then some a else lookup j m)
  unfolding lookup insert
  lookup-insert k j a [] = refl
  lookup-insert k j a ((i, b) ∷ m) = ground (arith, lookup-insert k j a m)

  pub lookup-delete :
      (k j : ℕ) (m : List (ℕ × A)) → lookup j (delete k m) ≡ (if k == j then none else lookup j m)
  unfolding lookup delete
  lookup-delete k j [] = ground arith
  lookup-delete k j ((i, b) ∷ m) = ground (arith, lookup-delete k j m)

module _ {ℓ} {V : Type ℓ} where
  -- The element of the list with the identity.
  unfoldable pub find : ℕ → List (Element V) → Option (Element V)
  find i [] = none
  find i (e ∷ es) = if e.id == i then some e else find i es

  pub find-remove :
      (x : Element V) (i : ℕ) (es : List (Element V))
      → find i (remove x es) ≡ (if x.id == i then none else find i es)
  unfolding find remove
  find-remove x i [] = ground arith
  find-remove x i (e ∷ es) = ground (arith, find-remove x i es)

  pub find-insert_before :
      (cmp : V → V → Ordering) (x : Element V) (i : ℕ) (es : List (Element V))
      → find x.id es ≡ none
      → find i (insert_before cmp x es) ≡ (if x.id == i then some x else find i es)
  unfolding find insert_before
  find-insert_before cmp x i [] h = refl
  find-insert_before cmp x i (e ∷ es) h = ground (arith, find-insert_before cmp x i es)

  pub find-append :
      (i : ℕ) (xs ys : List (Element V))
      → find i (xs ++ ys) ≡ (elim (find i xs) [ some e ↦ some e | none ↦ find i ys ])
  unfolding find
  find-append i [] ys = refl
  find-append i (x ∷ xs) ys = ground (arith, find-append i xs ys)

  pub find-insert_list :
      (cmp : V → V → Ordering) (x : Element V) (i : ℕ) (es : List (Element V))
      → find x.id es ≡ none
      → find i (insert_list cmp x es) ≡ (if x.id == i then some x else find i es)
  unfolding find insert_list
  find-insert_list cmp x i [] h = refl
  find-insert_list cmp x i (e ∷ es) h =
      ground (arith, find-append i es (x ∷ []), find-insert_before cmp x i es)
