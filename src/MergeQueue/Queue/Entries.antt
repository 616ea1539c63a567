-- ===== src/MergeQueue/Queue/Entries.antt =====
-- internal/mergequeue/queue.go: every entry of the suspended pull requests stands under its number.
use directorius.Prelude.{ℕ, ◌≡◌, ◌∙◌, List, [], ◌∷◌, ◌==◌, Bool-cases, inl, inr}
use directorius.OrderedMap.{insert, delete}
use directorius.MergeQueue.World.{Ref, World}
use directorius.MergeQueue.World.Numbers.{SameNumbers}

abbrev pub AreNumbered : World → List (ℕ × Ref) → Type 0
AreNumbered w [] = Unit
AreNumbered w ((k, r) ∷ m) = ((w.prs r).number ≡ k) × AreNumbered w m

pub AreNumbered-SameNumbers :
    {w w' : World} (m : List (ℕ × Ref)) → SameNumbers w w' → AreNumbered w m → AreNumbered w' m
AreNumbered-SameNumbers [] same h = tt
AreNumbered-SameNumbers ((k, r) ∷ m) same h =
    (same.same r ∙ h.0, AreNumbered-SameNumbers m same h.1)

pub AreNumbered-insert :
    (w : World) (k : ℕ) (r : Ref) (m : List (ℕ × Ref))
    → (w.prs r).number ≡ k
    → AreNumbered w m
    → AreNumbered w (insert k r m)
unfolding insert
AreNumbered-insert w k r [] e h = (e, tt)
AreNumbered-insert w k r ((j, x) ∷ m) e h = elim (Bool-cases (j == k)) [
  | inl t ↦ rw t (e, h.1)
  | inr f ↦ rw f (h.0, AreNumbered-insert w k r m e h.1)
]

pub AreNumbered-delete :
    (w : World) (k : ℕ) (m : List (ℕ × Ref)) → AreNumbered w m → AreNumbered w (delete k m)
unfolding delete
AreNumbered-delete w k [] h = tt
AreNumbered-delete w k ((j, x) ∷ m) h = elim (Bool-cases (j == k)) [
  | inl t ↦ rw t (AreNumbered-delete w k m h.1)
  | inr f ↦ rw f (h.0, AreNumbered-delete w k m h.1)
]
