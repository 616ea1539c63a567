-- ===== src/MergeQueue/Coordinator/Keeps.antt =====
-- internal/mergequeue/coordinator.go: an operation for a repository keeps the queues valid, and the queues
-- of the other repositories.
use directorius.Prelude.{String, true, false, ◌≡◌, refl, ap, ◌∙◌, arith, Bool-cases, inl, inr}
use directorius.MergeQueue.World.{World}
use directorius.MergeQueue.World.Numbers.{SameNumbers}
use directorius.MergeQueue.Queue.{BranchId, State}
use directorius.MergeQueue.Queue.Valid.{IsValid-SameNumbers}
use directorius.MergeQueue.Process.Valid.{IsValidState}
use directorius.MergeQueue.Coordinator.{
  Coordinator, is_branch, get_queue, delete_queue, store, is_repository,
}
use directorius.MergeQueue.Coordinator.Find.{
  is_branch-eq, get_queue-put_queue, get_queue-delete_queue,
}
use directorius.MergeQueue.Coordinator.Valid.{AreValid, store-AreValid, delete-AreValid}

pub record Keeps (owner repo : String) (c c' : Coordinator) : Type 0 where
  pub valid : AreValid c → AreValid c'
  pub others :
      (d : BranchId)
      → is_repository owner repo d ≡ false
      → get_queue d c'.queues ≡ get_queue d c.queues

-- A branch of another repository is another branch.
pub other_branch :
    (owner repo : String) (b d : BranchId)
    → is_repository owner repo b ≡ true
    → is_repository owner repo d ≡ false
    → is_branch b d ≡ false
other_branch owner repo b d h k = elim (Bool-cases (is_branch b d)) [
  | inr f ↦ f
  | inl t ↦
      let same : is_repository owner repo b ≡ is_repository owner repo d =
        ap (is_repository owner repo) (is_branch-eq b d t) in
      ground arith
]

module _ {owner repo : String} where
  pub Keeps-refl : (c : Coordinator) → Keeps owner repo c c
  Keeps-refl c = record { valid = λ v. v; others = λ d h. refl }

  pub Keeps-trans :
      {a b c : Coordinator} → Keeps owner repo a b → Keeps owner repo b c → Keeps owner repo a c
  Keeps-trans p q = record {
    valid = λ v. q.valid (p.valid v);
    others = λ d h. q.others d h ∙ p.others d h;
  }

  pub store-Keeps :
      (b : BranchId) (s : State) (c : Coordinator)
      → is_repository owner repo b ≡ true
      → (AreValid c → SameNumbers c.world s.world × IsValidState s)
      → Keeps owner repo c (store b s c)
  store-Keeps b s c here h = record {
    valid = λ v. store-AreValid b s c v (h v).0 (h v).1;
    others = λ d k.
        ground (arith, get_queue-put_queue b d s.q c.queues, other_branch owner repo b d here k);
  }

  pub delete-Keeps :
      (b : BranchId) (w : World) (c : Coordinator)
      → is_repository owner repo b ≡ true
      → (AreValid c → SameNumbers c.world w)
      → Keeps owner repo c (record c { world = w; queues = delete_queue b c.queues })
  delete-Keeps b w c here h = record {
    valid = λ v. delete-AreValid b w c v (h v);
    others = λ d k.
        ground (arith, get_queue-delete_queue b d c.queues, other_branch owner repo b d here k);
  }

  -- Fields of pull requests are set.
  pub world-Keeps :
      (w : World) (c : Coordinator)
      → SameNumbers c.world w
      → Keeps owner repo c (record c { world = w })
  world-Keeps w c same = record {
    valid = λ v. record { valid = λ b q h. IsValid-SameNumbers same (v.valid b q h) };
    others = λ d k. refl;
  }
