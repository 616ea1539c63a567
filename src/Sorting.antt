-- ===== src/Sorting.antt =====
-- Go's `slices.SortedFunc`, as insertion sort: the sorted sequence is the same for every algorithm
-- where the comparison is a strict order of the keys.
use Prim.Native.Nat.{Ordering}
use directorius.Prelude.{List, [], ◌∷◌}

module _ {ℓ} {K : Type ℓ} where
  unfoldable pub insert_sorted : (K → K → Ordering) → K → List K → List K
  insert_sorted cmp k [] = k ∷ []
  insert_sorted cmp k (j ∷ ks) =
      let rest = insert_sorted cmp k ks in
      elim (cmp k j) [ Ordering.gt ↦ j ∷ rest | _ ↦ k ∷ j ∷ ks ]

  unfoldable pub sorted_func : (K → K → Ordering) → List K → List K
  unfolding insert_sorted
  sorted_func cmp [] = []
  sorted_func cmp (k ∷ ks) = insert_sorted cmp k (sorted_func cmp ks)
