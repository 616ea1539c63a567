-- ===== src/MergeQueue/Events/Fresh.antt =====
-- internal/mergequeue/coordinator.go: new memory is none that a queue points to, so that a pull request
-- that an event describes changes no queued one.
use directorius.Prelude.{
  ℕ, ◌<◌, Bool, true, ◌≡◌, refl, ◌∙◌, ap, Option, some, List, [], ◌∷◌, ◌++◌, map, any, any-append,
  ◌==◌, arith, Option-cases, inl, inr,
}
use directorius.Errors.{Result-cases}
use directorius.OrderedMap.{lookup, get}
use directorius.MergeQueue.PullRequest.{PullRequest}
use directorius.MergeQueue.World.{Ref, Env, set_pr}
use directorius.MergeQueue.Queue.{BranchId, Queue}
use directorius.MergeQueue.Queue.Entries.{AreNumbered}
use directorius.MergeQueue.Coordinator.{Coordinator, get_queue}
use directorius.MergeQueue.Coordinator.Valid.{AreValid}
use directorius.MergeQueue.Events.{GhPullRequest}
use directorius.MergeQueue.Events.Incoming.{
  active_refs, suspended_refs, listed_refs, queue_refs, all_refs, above, next_ref, allocate,
  pull_request_from_event, new_pull_request_from_event,
}

abbrev pub has : Ref → List Ref → Bool
has r rs = any (λ x. x == r) rs

has-above : (r : Ref) (rs : List Ref) → has r rs ≡ true → r < above rs
unfolding above
has-above r [] h = ground arith
has-above r (x ∷ rs) h = ground (arith, has-above r rs)

has-lookup :
    {A : Type 0} (f : ℕ × A → Ref) (k : ℕ) (m : List (ℕ × A)) (x : A)
    → lookup k m ≡ some x
    → ((j : ℕ) → f (j, x) ≡ f (k, x))
    → has (f (k, x)) (map f m) ≡ true
unfolding lookup
has-lookup f k [] x h same = ground arith
has-lookup f k ((j, y) ∷ m) x h same = ground (arith, has-lookup f k m x, same j)

pub has-left : (r : Ref) (xs ys : List Ref) → has r xs ≡ true → has r (xs ++ ys) ≡ true
has-left r xs ys h = ground (arith, any-append (λ x. x == r) xs ys)

pub has-right : (r : Ref) (xs ys : List Ref) → has r ys ≡ true → has r (xs ++ ys) ≡ true
has-right r xs ys h = ground (arith, any-append (λ x. x == r) xs ys)

-- Whether the queue points to the pull request.
abbrev pub in_queue : Ref → Queue → Bool
in_queue r q = has r (queue_refs q)

in_queue-active : (k : ℕ) (r : Ref) (q : Queue) → get k q.active ≡ some r → in_queue r q ≡ true
unfolding get queue_refs
in_queue-active k r q h = elim (Option-cases (lookup k q.active.m)) [
  | inl e ↦ ground arith
  | inr (x, e) ↦
      let same : x.value ≡ r = ground arith in
      let here = rw same at (has-lookup (λ e. e.1.value) k q.active.m x e (λ j. refl)) in
      has-left r (active_refs q) _ here
]

in_queue_entry : (r : Ref) (q : Queue) → has r (suspended_refs q) ≡ true → in_queue r q ≡ true
unfolding queue_refs
in_queue_entry r q h =
    has-right r (active_refs q) _ (has-left r (suspended_refs q) (listed_refs q) h)

in_queue-suspended :
    (k : ℕ) (r : Ref) (q : Queue) → lookup k q.suspended ≡ some r → in_queue r q ≡ true
in_queue-suspended k r q h =
    in_queue_entry r q (has-lookup (λ e. e.1) k q.suspended r h (λ j. refl))

in_queue-all :
    (b : BranchId) (r : Ref) (q : Queue) (queues : List (BranchId × Queue))
    → get_queue b queues ≡ some q
    → in_queue r q ≡ true
    → has r (all_refs queues) ≡ true
unfolding get_queue all_refs
in_queue-all b r q [] h i = ground arith
in_queue-all b r q ((c, p) ∷ queues) h i =
    ground
      (arith, any-append (λ x. x == r) (queue_refs p) (all_refs queues), in_queue-all b r q queues)

-- Memory that a queue points to is not new.
pub in_queue-next_ref :
    (b : BranchId) (r : Ref) (q : Queue) (c : Coordinator)
    → get_queue b c.queues ≡ some q
    → in_queue r q ≡ true
    → r < next_ref c
unfolding next_ref
in_queue-next_ref b r q c h i = has-above r (all_refs c.queues) (in_queue-all b r q c.queues h i)

-- A new pull request is none that a queue holds: those keep all their fields.
pub allocate_kept :
    (p : PullRequest) (c : Coordinator) (b : BranchId) (q : Queue) (r : Ref)
    → get_queue b c.queues ≡ some q
    → in_queue r q ≡ true
    → (allocate p c).world.prs r ≡ c.world.prs r
unfolding allocate set_pr
allocate_kept p c b q r h i = ground (arith, in_queue-next_ref b r q c h i)

kept_numbered :
    (p : PullRequest) (c : Coordinator) (b : BranchId) (q : Queue)
    → get_queue b c.queues ≡ some q
    → (m : List (ℕ × Ref)) → ((r : Ref) → has r (map (λ e. e.1) m) ≡ true → in_queue r q ≡ true)
    → AreNumbered c.world m
    → AreNumbered (allocate p c).world m
kept_numbered p c b q h [] inside n = tt
kept_numbered p c b q h ((k, r) ∷ m) inside n = (
  ap (λ x. x.number) (allocate_kept p c b q r h (inside r (ground arith))) ∙ n.0,
  kept_numbered p c b q h m (λ r i. inside r (ground arith)) n.1,
)

pub allocate-AreValid : (p : PullRequest) (c : Coordinator) → AreValid c → AreValid (allocate p c)
unfolding allocate
allocate-AreValid p c v = record {
  valid = λ b q h.
      let u = v.valid b q h in
      record {
        active_valid = u.active_valid;
        active_numbered = λ k r e.
            ground
              (arith, allocate_kept p c b q r h (in_queue-active k r q e), u.active_numbered k r e);
        suspended_numbered = λ k r e. ground (
          arith,
          allocate_kept p c b q r h (in_queue-suspended k r q e),
          u.suspended_numbered k r e,
        );
        is_apart = u.is_apart;
        entries_numbered =
            kept_numbered p c b q h q.suspended (λ r i. in_queue_entry r q i) u.entries_numbered;
      };
}

-- `NewPullRequestFromEvent` keeps every queue valid.
pub incoming-AreValid :
    (env : Env) (ev : Option GhPullRequest) (c : Coordinator)
    → AreValid c
    → AreValid (new_pull_request_from_event env ev c).0
unfolding new_pull_request_from_event
incoming-AreValid env ev c v = elim (Result-cases (pull_request_from_event env.now ev)) [
  | inl (p, e) ↦ rw (e, new_pull_request_from_event) (allocate-AreValid p c v)
  | inr (x, e) ↦ rw (e, new_pull_request_from_event) v
]
