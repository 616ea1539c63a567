-- ===== src/OrderedMap/Sort.antt =====
-- internal/orderedmap/orderedmap.go: `SortByKey` finds every element as before, so that it keeps the
-- map valid.
use Prim.Native.Nat.{Ordering}
use directorius.Prelude.{
  ℕ, true, ◌≡◌, refl, ◌∙◌, some, List, [], ◌∷◌, any, map, arith, ◌==◌, if_keeps, Option-cases, inl,
  inr,
}
use directorius.Sorting.{sorted_func}
use directorius.OrderedMap.{
  Element, Map, lookup, get, len, remove, move_to_back, move_all, sort_by_key,
}
use directorius.OrderedMap.Find.{find, find-remove, find-append}
use directorius.OrderedMap.Laws.{IsValid}

module _ {ℓ} {V : Type ℓ} where
  any_of_find :
      (i : ℕ) (x : Element V) (es : List (Element V))
      → find i es ≡ some x
      → any (λ e. e.id == i) es ≡ true
  unfolding find
  any_of_find i x [] h = ground arith
  any_of_find i x (e ∷ es) h = ground (arith, any_of_find i x es)

  find-move_to_back :
      (x : Element V) (i : ℕ) (es : List (Element V))
      → find x.id es ≡ some x
      → find i (move_to_back x es) ≡ find i es
  unfolding find move_to_back
  find-move_to_back x i es h =
      rw (any_of_find x.id x es h, find-append i (remove x es) (x ∷ []))
        (ground (arith, find-remove x i es))

  -- The elements of the map are in the list.
  record AreListed (m : List (ℕ × Element V)) (es : List (Element V)) : Type ℓ where
    listed : (k : ℕ) (e : Element V) → lookup k m ≡ some e → find e.id es ≡ some e

  AreListed-move_to_back :
      (m : List (ℕ × Element V)) (es : List (Element V)) (x : Element V)
      → AreListed m es
      → find x.id es ≡ some x
      → AreListed m (move_to_back x es)
  AreListed-move_to_back m es x h f = record {
    listed = λ k e g. find-move_to_back x e.id es f ∙ h.listed k e g;
  }

  find-move_all :
      (m : List (ℕ × Element V)) (ks : List ℕ) (es : List (Element V)) (i : ℕ)
      → AreListed m es
      → find i (move_all m ks es) ≡ find i es
  unfolding move_all
  find-move_all m [] es i h = refl
  find-move_all m (k ∷ ks) es i h = elim (Option-cases (lookup k m)) [
    | inl e ↦ rw e (find-move_all m ks es i h)
    | inr (x, e) ↦
        let f = h.listed k x e in
        rw e (
          find-move_all m ks (move_to_back x es) i (AreListed-move_to_back m es x h f)
          ∙ find-move_to_back x i es f)
  ]

  module _ (cmp : ℕ → ℕ → Ordering) (s : Map V) where
    -- `SortByKey` changes what no key is mapped to.
    pub sort_by_key-m : (sort_by_key cmp s).m ≡ s.m
    unfolding sort_by_key
    sort_by_key-m = ground arith

    pub sort_by_key-get : (k : ℕ) → get k (sort_by_key cmp s) ≡ get k s
    unfolding get
    sort_by_key-get k = rw sort_by_key-m refl

    -- `SortByKey` keeps the map valid.
    pub sort_by_key-IsValid : IsValid s → IsValid (sort_by_key cmp s)
    unfolding sort_by_key
    sort_by_key-IsValid v =
        let same = λ (i : ℕ).
          find-move_all s.m (sorted_func cmp (map (λ e. e.0) s.m)) s.order i
            (record { listed = v.listed }) in
        if_keeps IsValid (len s == 0) v (record {
          below = λ i e h. v.below i e (rw same at h);
          listed = λ k e h. same e.id ∙ v.listed k e h;
          keyed = λ i e h. v.keyed i e (rw same at h);
          separate = v.separate;
        })
