-- ===== src/MergeQueue/Coordinator/Kept.antt =====
-- internal/mergequeue/coordinator.go: what an operation for a repository keeps, that is the validity of
-- the queues, the queues of the other repositories, and the fields of their pull requests.
pub mod Branch
pub mod Moved
pub mod Repository
use directorius.Prelude.{
  String, true, false, ◌≡◌, refl, ap, ◌∙◌, arith, if_keeps, Bool, if◌then◌else◌, some, ◌==◌, subst,
  List, [], ◌∷◌, Bool-cases, inl, inr,
}
use directorius.MergeQueue.World.{World, Ref}
use directorius.MergeQueue.World.Numbers.{SameNumbers}
use directorius.MergeQueue.Queue.{BranchId, Queue, State}
use directorius.MergeQueue.Queue.Free.{IsFree}
use directorius.MergeQueue.Queue.Spared.{IsSpared}
use directorius.MergeQueue.Events.Fresh.{in_queue}
use directorius.MergeQueue.Queue.Valid.{IsValid-SameNumbers}
use directorius.MergeQueue.Process.Valid.{IsValidState}
use directorius.MergeQueue.Coordinator.{
  Coordinator, is_branch, get_queue, put_queue, delete_queue, store, is_repository,
}
use directorius.MergeQueue.Coordinator.Find.{
  is_branch-eq, get_queue-put_queue, get_queue-delete_queue,
}
use directorius.MergeQueue.Coordinator.Valid.{AreValid, store-AreValid, delete-AreValid}
use directorius.MergeQueue.Coordinator.Keeps.{
  Keeps, Keeps-refl, Keeps-trans, store-Keeps, world-Keeps,
}

-- A queue of another repository points to the pull request.
pub record IsHeld (owner repo : String) (r : Ref) (c : Coordinator) : Type 0 where
  pub branch : BranchId
  pub queue : Queue
  pub other : is_repository owner repo branch ≡ false
  pub found : get_queue branch c.queues ≡ some queue
  pub inside : in_queue r queue ≡ true

-- No queue of the repository in the list points to the pull request.
unfoldable pub AreFree : String → String → Ref → List (BranchId × Queue) → Type 0
AreFree owner repo r [] = Unit
AreFree owner repo r ((b, q) ∷ qs) =
    (is_repository owner repo b ≡ true → IsFree r q) × AreFree owner repo r qs

pub record IsForeign (owner repo : String) (r : Ref) (c : Coordinator) : Type 0 where
  pub free : AreFree owner repo r c.queues

module _ (owner repo : String) (r : Ref) where
  get_queue-IsFree :
      (b : BranchId) (q : Queue) (qs : List (BranchId × Queue))
      → AreFree owner repo r qs
      → is_repository owner repo b ≡ true
      → get_queue b qs ≡ some q
      → IsFree r q
  unfolding get_queue AreFree
  get_queue-IsFree b q [] f here e = absurd (ground arith)
  get_queue-IsFree b q ((d, p) ∷ qs) (one, f) here e = elim (Bool-cases (is_branch d b)) [
    | inr t ↦ get_queue-IsFree b q qs f here (ground arith)
    | inl t ↦
        let g : p ≡ q = ground arith in
        subst (IsFree r) g (one (ap (is_repository owner repo) (is_branch-eq d b t) ∙ here))
  ]

  put_queue-AreFree :
      (b : BranchId) (q : Queue) (qs : List (BranchId × Queue))
      → IsFree r q
      → AreFree owner repo r qs
      → AreFree owner repo r (put_queue b q qs)
  unfolding put_queue AreFree
  put_queue-AreFree b q [] h f = (λ _. h, tt)
  put_queue-AreFree b q ((d, p) ∷ qs) h (one, f) =
      if_keeps (AreFree owner repo r) (is_branch d b) ((λ _. h), f)
        (one, put_queue-AreFree b q qs h f)

  delete_queue-AreFree :
      (b : BranchId) (qs : List (BranchId × Queue))
      → AreFree owner repo r qs
      → AreFree owner repo r (delete_queue b qs)
  unfolding delete_queue AreFree
  delete_queue-AreFree b [] f = tt
  delete_queue-AreFree b ((d, p) ∷ qs) (one, f) =
      if_keeps (AreFree owner repo r) (is_branch d b) (delete_queue-AreFree b qs f)
        (one, delete_queue-AreFree b qs f)

pub IsForeign-IsFree :
    {owner repo : String} {r : Ref} {c : Coordinator}
    → IsForeign owner repo r c
    → (b : BranchId) (q : Queue) → is_repository owner repo b ≡ true
    → get_queue b c.queues ≡ some q
    → IsFree r q
IsForeign-IsFree {owner} {repo} {r} {c} f b q here e =
    get_queue-IsFree owner repo r b q c.queues f.free here e

-- The pull request is still none of the repository, and has the same fields.
pub record Spares (owner repo : String) (r : Ref) (c c' : Coordinator) : Type 0 where
  pub foreign : IsForeign owner repo r c'
  pub fields : c'.world.prs r ≡ c.world.prs r

pub record Kept (owner repo : String) (c c' : Coordinator) : Type 0 where
  pub keeps : Keeps owner repo c c'
  pub spares :
      (r : Ref) → IsHeld owner repo r c → IsForeign owner repo r c → Spares owner repo r c c'

module _ {owner repo : String} where
  pub Keeps-IsHeld :
      {c c' : Coordinator} {r : Ref}
      → Keeps owner repo c c'
      → IsHeld owner repo r c
      → IsHeld owner repo r c'
  Keeps-IsHeld k h = record {
    branch = h.branch;
    queue = h.queue;
    other = h.other;
    found = k.others h.branch h.other ∙ h.found;
    inside = h.inside;
  }

  pub Spares-refl : (r : Ref) (c : Coordinator) → IsForeign owner repo r c → Spares owner repo r c c
  Spares-refl r c f = record { foreign = f; fields = refl }

  pub Spares-trans :
      {r : Ref} {a b c : Coordinator}
      → Spares owner repo r a b
      → Spares owner repo r b c
      → Spares owner repo r a c
  Spares-trans p q = record { foreign = q.foreign; fields = q.fields ∙ p.fields }

  pub Kept-refl : (c : Coordinator) → Kept owner repo c c
  Kept-refl c = record { keeps = Keeps-refl c; spares = λ r h f. Spares-refl r c f }

  pub Kept-trans :
      {a b c : Coordinator} → Kept owner repo a b → Kept owner repo b c → Kept owner repo a c
  Kept-trans p q = record {
    keeps = Keeps-trans p.keeps q.keeps;
    spares = λ r h f.
        let one = p.spares r h f in
        Spares-trans one (q.spares r (Keeps-IsHeld p.keeps h) one.foreign);
  }

  pub if_Kept :
      {c : Coordinator} (b : Bool) {d e : Coordinator}
      → Kept owner repo c d
      → Kept owner repo c e
      → Kept owner repo c (if b then d else e)
  if_Kept {c} b p q = if_keeps (λ x. Kept owner repo c x) b p q

  -- The queue of a branch of the repository is put, and does not point to the pull request.
  pub store-Spares :
      (r : Ref) (b : BranchId) (s : State) (c : Coordinator)
      → IsFree r s.q
      → s.world.prs r ≡ c.world.prs r
      → IsForeign owner repo r c
      → Spares owner repo r c (store b s c)
  store-Spares r b s c h same f = record {
    foreign = record { free = put_queue-AreFree owner repo r b s.q c.queues h f.free };
    fields = same;
  }

  pub delete-Spares :
      (r : Ref) (b : BranchId) (w : World) (c : Coordinator)
      → w.prs r ≡ c.world.prs r
      → IsForeign owner repo r c
      → Spares owner repo r c (record c { world = w; queues = delete_queue b c.queues })
  delete-Spares r b w c same f = record {
    foreign = record { free = delete_queue-AreFree owner repo r b c.queues f.free };
    fields = same;
  }

  pub store-Kept :
      (b : BranchId) (s : State) (c : Coordinator)
      → is_repository owner repo b ≡ true
      → (AreValid c → SameNumbers c.world s.world × IsValidState s)
      → ((r : Ref) → IsForeign owner repo r c → IsFree r s.q × (s.world.prs r ≡ c.world.prs r))
      → Kept owner repo c (store b s c)
  store-Kept b s c here h spared = record {
    keeps = store-Keeps b s c here h;
    spares = λ r held f. let (free, same) = spared r f in store-Spares r b s c free same f;
  }

  -- Fields of pull requests are set.
  pub world-Kept :
      (w : World) (c : Coordinator)
      → SameNumbers c.world w
      → ((r : Ref) → IsForeign owner repo r c → w.prs r ≡ c.world.prs r)
      → Kept owner repo c (record c { world = w })
  world-Kept w c same h = record {
    keeps = world-Keeps w c same;
    spares = λ r held f. record { foreign = record { free = f.free }; fields = h r f };
  }
