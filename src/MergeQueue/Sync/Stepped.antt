-- ===== src/MergeQueue/Sync/Stepped.antt =====
-- internal/mergequeue/sync.go: what every action of the synchronisation keeps.
use directorius.Prelude.{
  ℕ, String, false, ◌≡◌, refl, ◌∙◌, ap, subst, sym, arith, Bool-cases, inl, inr,
}
use directorius.Errors.{ok}
use directorius.MergeQueue.World.{Ref, Env, World}
use directorius.MergeQueue.World.Numbers.{SameNumbers, SameNumbers-refl, SameNumbers-trans}
use directorius.MergeQueue.Queue.{BranchId}
use directorius.MergeQueue.Queue.Place.{Place, enqueue_at}
use directorius.MergeQueue.Queue.Valid.Enqueue.{enqueue-SameNumbers}
use directorius.MergeQueue.Coordinator.{
  Coordinator, is_branch, get_queue, state_of, queue_or_new, enqueue_in,
}
use directorius.MergeQueue.Coordinator.Find.{is_branch-eq}
use directorius.MergeQueue.Coordinator.Moves.{
  place_in, is_absent, enqueue_in-place, enqueue_in-others,
}
use directorius.MergeQueue.Coordinator.Keeps.{Keeps, Keeps-refl, Keeps-trans, world-Keeps}
use directorius.MergeQueue.Coordinator.Kept.Moved.{enqueue_in-Keeps}
use directorius.MergeQueue.Events.{new_base_branch}
use directorius.MergeQueue.Events.Kept.Requests.{new_base_branch-repository}
use directorius.MergeQueue.Sync.First.{IsFirst, world_keeps_IsFirst, enqueue_in_keeps_IsFirst}

-- The base branch has the pull request, active or suspended.
pub record IsQueued (b : BranchId) (n : ℕ) (c : Coordinator) : Type 0 where
  pub queued : is_absent (place_in b n c) ≡ false

-- The second coordinator keeps what the first has: valid queues, the queues of other repositories,
-- the numbers of the pull requests, every queued one, the head label,
-- the first pull requests of the queues, and the queues of all base branches but the one that is named.
pub record Stepped (owner repo base : String) (c d : Coordinator) : Type 0 where
  pub kept : Keeps owner repo c d
  pub numbers : SameNumbers c.world d.world
  pub queued : (b : BranchId) (n : ℕ) → IsQueued b n c → IsQueued b n d
  pub label : d.head_label ≡ c.head_label
  pub apart :
      (b : BranchId)
      → ¬ (new_base_branch owner repo base ≡ ok b)
      → get_queue b d.queues ≡ get_queue b c.queues
  pub firsts : (b : BranchId) (n : ℕ) → IsFirst b n c → IsFirst b n d

module _ {owner repo base : String} where
  pub Stepped-refl : (c : Coordinator) → Stepped owner repo base c c
  Stepped-refl c = record {
    kept = Keeps-refl c;
    numbers = SameNumbers-refl c.world;
    queued = λ b n h. h;
    label = refl;
    firsts = λ b n h. h;
    apart = λ b h. refl;
  }

  pub Stepped-trans :
      {c d e : Coordinator}
      → Stepped owner repo base c d
      → Stepped owner repo base d e
      → Stepped owner repo base c e
  Stepped-trans p q = record {
    kept = Keeps-trans p.kept q.kept;
    numbers = SameNumbers-trans p.numbers q.numbers;
    queued = λ b n h. q.queued b n (p.queued b n h);
    label = q.label ∙ p.label;
    firsts = λ b n h. q.firsts b n (p.firsts b n h);
    apart = λ b h. q.apart b h ∙ p.apart b h;
  }

  pub world-Stepped :
      (w : World) (c : Coordinator)
      → SameNumbers c.world w
      → Stepped owner repo base c (record c { world = w })
  world-Stepped w c same = record {
    kept = world-Keeps w c same;
    numbers = same;
    queued = λ b n h. record { queued = h.queued };
    label = refl;
    firsts = λ b n h. world_keeps_IsFirst w c b n same h;
    apart = λ b h. refl;
  }

enqueue_at_keeps :
    (n : ℕ) (r : Ref) (places : ℕ → Place) (k : ℕ)
    → is_absent (places k) ≡ false
    → is_absent (enqueue_at n r places k) ≡ false
enqueue_at_keeps n r places k h = ground arith

enqueue_at_puts :
    (n : ℕ) (r : Ref) (places : ℕ → Place) → is_absent (enqueue_at n r places n) ≡ false
enqueue_at_puts n r places = ground arith

place_in-others :
    (d : BranchId) (n : ℕ) (c e : Coordinator)
    → get_queue d e.queues ≡ get_queue d c.queues
    → place_in d n e ≡ place_in d n c
place_in-others d n c e h = rw (h, place_in) refl

enqueue_in_keeps :
    (env : Env) (b : BranchId) (r : Ref) (c : Coordinator) (d : BranchId) (n : ℕ)
    → IsQueued d n c
    → IsQueued d n (enqueue_in env b r c).0
enqueue_in_keeps env b r c d n h = elim (Bool-cases (is_branch b d)) [
  | inr f ↦
      let same = place_in-others d n c (enqueue_in env b r c).0 (enqueue_in-others env b r c d f) in
      record { queued = ap is_absent same ∙ h.queued }
  | inl t ↦
      let g : IsQueued b n c = subst (λ x. IsQueued x n c) (sym (is_branch-eq b d t)) h in
      let (put, _) = enqueue_in-place env b r c n in
      let places = λ (j : ℕ). place_in b j c in
      let here : IsQueued b n (enqueue_in env b r c).0 = record {
        queued = ap is_absent put ∙ enqueue_at_keeps (c.world.prs r).number r places n g.queued;
      } in
      subst (λ x. IsQueued x n (enqueue_in env b r c).0) (is_branch-eq b d t) here
]

pub enqueue_in_puts :
    (env : Env) (b : BranchId) (r : Ref) (c : Coordinator) (n : ℕ)
    → (c.world.prs r).number ≡ n
    → IsQueued b n (enqueue_in env b r c).0
enqueue_in_puts env b r c n h =
    let m = (c.world.prs r).number in
    let (put, _) = enqueue_in-place env b r c m in
    let places = λ (j : ℕ). place_in b j c in
    let here : IsQueued b m (enqueue_in env b r c).0 = record {
      queued = ap is_absent put ∙ enqueue_at_puts m r places;
    } in
    subst (λ k. IsQueued b k (enqueue_in env b r c).0) h here

enqueue_in-SameNumbers :
    (env : Env) (b : BranchId) (r : Ref) (c : Coordinator)
    → SameNumbers c.world (enqueue_in env b r c).0.world
unfolding enqueue_in
enqueue_in-SameNumbers env b r c = enqueue-SameNumbers env r (state_of c (queue_or_new b c))

enqueue_in_label :
    (env : Env) (b : BranchId) (r : Ref) (c : Coordinator)
    → (enqueue_in env b r c).0.head_label ≡ c.head_label
unfolding enqueue_in
enqueue_in_label env b r c = refl

other_base :
    (owner repo base : String) (b d : BranchId)
    → new_base_branch owner repo base ≡ ok b
    → ¬ (new_base_branch owner repo base ≡ ok d)
    → is_branch b d ≡ false
other_base owner repo base b d e h = elim (Bool-cases (is_branch b d)) [
  | inr f ↦ f
  | inl t ↦ absurd (h (e ∙ ap ok (is_branch-eq b d t)))
]

pub enqueue_in-Stepped :
    {owner repo base : String} (env : Env) (b : BranchId) (r : Ref) (c : Coordinator)
    → new_base_branch owner repo base ≡ ok b
    → Stepped owner repo base c (enqueue_in env b r c).0
enqueue_in-Stepped {owner} {repo} {base} env b r c e = record {
  kept = enqueue_in-Keeps b (new_base_branch-repository owner repo base b e) env r c;
  numbers = enqueue_in-SameNumbers env b r c;
  queued = enqueue_in_keeps env b r c;
  label = enqueue_in_label env b r c;
  firsts = enqueue_in_keeps_IsFirst env b r c;
  apart = λ d h. enqueue_in-others env b r c d (other_base owner repo base b d e h);
}
