-- ===== src/MergeQueue/Events/Isolation.antt =====
-- internal/mergequeue/coordinator.go: an event reaches the queues of its repository only.
use directorius.Prelude.{
  true, false, Bool, String, ◌&&◌, not, ◌≡◌, refl, arith, Bool-cases, inl, inr, Option, none, some,
  List, [], ◌∷◌, map, all, ◌==◌, if◌then◌else◌, Option-cases, subst,
}
use directorius.MergeQueue.PullRequest.{PullRequest}
use directorius.MergeQueue.World.{Ref, Env}
use directorius.MergeQueue.Queue.{BranchId, Queue}
use directorius.MergeQueue.Queue.Free.{in_queue-IsFree}
use directorius.MergeQueue.Coordinator.{Coordinator, get_queue, is_repository}
use directorius.MergeQueue.Coordinator.Kept.{AreFree}
use directorius.MergeQueue.Events.{Config, Event, is_monitored_repository}
use directorius.MergeQueue.Events.Incoming.{queue_refs}
use directorius.MergeQueue.Events.Fresh.{has, in_queue}
use directorius.MergeQueue.Events.Kept.{process_event-Kept}
use directorius.MergeQueue.Events.Dispatch.{process_event}

-- The pointers that the queue of a base branch holds.
abbrev pub refs_in : BranchId → Coordinator → List Ref
refs_in d c = elim (get_queue d c.queues) [ none ↦ [] | some q ↦ queue_refs q ]

-- The queue of a base branch, if it has one, and the fields of all pull requests that it points to.
abbrev pub content_of : BranchId → Coordinator → Option (Queue × List PullRequest)
content_of d c = elim (get_queue d c.queues) [
  | none ↦ none
  | some q ↦ some (q, map c.world.prs (queue_refs q))
]

-- No queue of the repository points to the pull request.
abbrev pub is_foreign : String → String → Ref → List (BranchId × Queue) → Bool
is_foreign owner repo r queues =
    all (λ e. not (is_repository owner repo e.0 && in_queue r e.1)) queues

is_foreign-AreFree :
    (owner repo : String) (r : Ref) (queues : List (BranchId × Queue))
    → is_foreign owner repo r queues ≡ true
    → AreFree owner repo r queues
unfolding AreFree
is_foreign-AreFree owner repo r [] h = tt
is_foreign-AreFree owner repo r ((b, q) ∷ queues) h = (
  λ here. in_queue-IsFree r q (ground arith),
  is_foreign-AreFree owner repo r queues (ground arith),
)

all-has :
    (p : Ref → Bool) (rs : List Ref) (r : Ref) → all p rs ≡ true → has r rs ≡ true → p r ≡ true
all-has p [] r h k = absurd (ground arith)
all-has p (x ∷ rs) r h k = elim (Bool-cases (x == r)) [
  | inl t ↦ let g : x ≡ r = ground arith in subst (λ y. p y ≡ true) g (ground arith)
  | inr t ↦ all-has p rs r (ground arith) (ground arith)
]

map_same :
    (f g : Ref → PullRequest) (rs : List Ref)
    → ((r : Ref) → has r rs ≡ true → f r ≡ g r)
    → map f rs ≡ map g rs
map_same f g [] h = refl
map_same f g (x ∷ rs) h =
    ground (arith, h x (ground arith), map_same f g rs λ r k. h r (ground arith))

-- Where no queue of the repository of an event points to a pull request that the queue of a base branch of
-- another repository points to, the event leaves the branch its queue, or leaves it without one, and
-- changes no field of a pull request that the queue points to; and if the repository of the event is not
-- monitored, the event changes nothing at all.
pub process_event-isolated :
    (cfg : Config) (env : Env) (ev : Event) (c : Coordinator) (d : BranchId)
    → is_repository ev.owner ev.repo d ≡ false
    → all (λ r. is_foreign ev.owner ev.repo r c.queues) (refs_in d c) ≡ true
    → (content_of d (process_event cfg env ev c) ≡ content_of d c)
      × ((if is_monitored_repository cfg ev.owner ev.repo then c else process_event cfg env ev c)
          ≡ c)
unfolding process_event
process_event-isolated cfg env ev c d h k =
    let kept = process_event-Kept cfg env ev c in
    let same = kept.keeps.others d h in
    let foreign = λ (r : Ref). is_foreign ev.owner ev.repo r c.queues in
    (
      elim (Option-cases (get_queue d c.queues)) [
        | inl e ↦ ground arith
        | inr (q, e) ↦
            let held = λ (r : Ref) (i : in_queue r q ≡ true).
              kept.spares r (record { branch = d; queue = q; other = h; found = e; inside = i })
                (record {
                  free =
                      is_foreign-AreFree ev.owner ev.repo r c.queues
                        (all-has foreign (queue_refs q) r (ground arith) i);
                }) in
            let fields =
              map_same (process_event cfg env ev c).world.prs c.world.prs (queue_refs q)
                λ r i. (held r i).fields in
            ground (arith, same, fields)
      ],
      ground arith,
    )
