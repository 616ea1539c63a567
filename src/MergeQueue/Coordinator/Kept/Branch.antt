-- ===== src/MergeQueue/Coordinator/Kept/Branch.antt =====
-- internal/mergequeue/coordinator.go: what the operations on one base branch keep that move no pull request
-- between the branches.
use directorius.Prelude.{
  ℕ, String, true, Bool-cases, ◌≡◌, refl, none, some, List, arith, Option-cases, inl, inr,
}
use directorius.Errors.{Result, ok, err, not_found}
use directorius.MergeQueue.PullRequest.{set_assignees}
use directorius.MergeQueue.World.{Task, Ref, Env}
use directorius.MergeQueue.World.Numbers.{SameNumbers, SameNumbers-refl}
use directorius.MergeQueue.Queue.{BranchId, State, on_pr, resume_pr}
use directorius.MergeQueue.Queue.Valid.{IsValid-same_contents}
use directorius.MergeQueue.Queue.Valid.Enqueue.{resume_pr-IsValid, resume_pr-SameNumbers}
use directorius.MergeQueue.Manage.{get_pull_request, set_pr_stale_since_if_newer}
use directorius.MergeQueue.Manage.Touched.{
  Touched, Touched-refl, Touched-IsValid, on_pr-Touched, set_pr_stale_since_if_newer-Touched,
  schedule_first_contents,
}
use directorius.MergeQueue.Process.Valid.{IsValidState}
use directorius.MergeQueue.Coordinator.{
  Coordinator, get_queue, state_of, is_specified, with_queue, resume_in, set_pr_stale_since_in,
  set_pr_assignees, PrSpecifier, trigger_if_first, trigger_process_pr_if_first, is_repository,
}
use directorius.MergeQueue.Coordinator.Kept.{Kept, Kept-refl, IsForeign-IsFree, store-Kept}
use directorius.MergeQueue.Manage.Spared.{
  get_pull_request_other, set_pr_stale_since_if_newer-IsSpared,
}
use directorius.MergeQueue.Queue.Free.{IsFree}
use directorius.MergeQueue.Queue.Spared.{
  IsSpared, IsSpared-refl, on_pr-IsSpared, schedule_first-IsSpared, resume_pr-IsSpared,
}
use directorius.OrderedMap.{first}

-- `_triggerProcessPRIfFirst` only schedules work.
pub trigger_if_first_contents :
    (spec : PrSpecifier) (task : Task) (s : State)
    → let t = (trigger_if_first spec task s).0 in
      (t.world ≡ s.world) × (t.q.active ≡ s.active) × (t.q.suspended ≡ s.suspended)
unfolding trigger_if_first
trigger_if_first_contents spec task s = ground (arith, schedule_first_contents task s)

pub trigger_if_first-IsSpared :
    (r : Ref) (spec : PrSpecifier) (task : Task) (s : State)
    → IsFree r s.q
    → IsSpared r s (trigger_if_first spec task s).0
unfolding trigger_if_first
trigger_if_first-IsSpared r spec task s h = elim (Option-cases (first s.active)) [
  | inl e ↦ rw (e, trigger_if_first) (IsSpared-refl r s h)
  | inr (x, e) ↦ elim (Bool-cases (is_specified s.world spec x)) [
    | inl t ↦ rw (e, t, trigger_if_first) (schedule_first-IsSpared r task s h)
    | inr t ↦ rw (e, t, trigger_if_first) (IsSpared-refl r s h)
  ]
]

trigger_if_first-SameNumbers :
    (spec : PrSpecifier) (task : Task) (s : State)
    → SameNumbers s.world (trigger_if_first spec task s).0.world
trigger_if_first-SameNumbers spec task s =
    rw (trigger_if_first_contents spec task s).0 (SameNumbers-refl s.world)

trigger_if_first-IsValid :
    (spec : PrSpecifier) (task : Task) (s : State)
    → IsValidState s
    → IsValidState (trigger_if_first spec task s).0
trigger_if_first-IsValid spec task s v =
    let (w, a, b) = trigger_if_first_contents spec task s in rw w (IsValid-same_contents a b v)

-- What `SetPRAssignees` does to the queue.
abbrev assign : ℕ → List String → State → State × Result (Unit {0})
assign n logins s = elim (get_pull_request n s.q) [
  | none ↦ (s, err not_found)
  | some r ↦ (on_pr (set_assignees logins) r s, ok tt)
]

module _ {owner repo : String} (b : BranchId) (here : is_repository owner repo b ≡ true) where
  -- An operation on the queue of the branch that keeps it valid.
  pub with_queue-Kept :
      {A : Type 0} (f : State → State × Result A) (c : Coordinator)
      → ((s : State) → IsValidState s → SameNumbers s.world (f s).0.world × IsValidState (f s).0)
      → ((r : Ref) (s : State) → IsFree r s.q → IsSpared r s (f s).0)
      → Kept owner repo c (with_queue b f c).0
  unfolding with_queue
  with_queue-Kept f c h k = elim (Option-cases (get_queue b c.queues)) [
    | inl e ↦ rw (e, with_queue) (Kept-refl c)
    | inr (q, e) ↦
        let s = state_of c q in
        rw (e, with_queue)
          (store-Kept b (f s).0 c here (λ v. h s (v.valid b q e))
            λ r g.
              let spared = k r s (IsForeign-IsFree g b q here e) in (spared.free, spared.fields))
  ]

  touching-Kept :
      {A : Type 0} (f : State → State × Result A) (c : Coordinator)
      → ((s : State) → Touched s (f s).0)
      → ((r : Ref) (s : State) → IsFree r s.q → IsSpared r s (f s).0)
      → Kept owner repo c (with_queue b f c).0
  touching-Kept f c h k = with_queue-Kept f c (λ s v. ((h s).numbers, Touched-IsValid (h s) v)) k

  pub resume_in-Kept :
      (env : Env) (n : ℕ) (c : Coordinator) → Kept owner repo c (resume_in env b n c).0
  unfolding resume_in
  resume_in-Kept env n c =
      with_queue-Kept (resume_pr env n) c
        (λ s v. (resume_pr-SameNumbers env n s, resume_pr-IsValid env n s v))
        λ r s h. resume_pr-IsSpared r env n s h

  pub set_pr_stale_since_in-Kept :
      (n t : ℕ) (c : Coordinator) → Kept owner repo c (set_pr_stale_since_in b n t c).0
  unfolding set_pr_stale_since_in
  set_pr_stale_since_in-Kept n t c =
      touching-Kept (set_pr_stale_since_if_newer n t) c (set_pr_stale_since_if_newer-Touched n t)
        λ r s h. set_pr_stale_since_if_newer-IsSpared r n t s h

  pub set_pr_assignees-Kept :
      (n : ℕ) (logins : List String) (c : Coordinator)
      → Kept owner repo c (set_pr_assignees b n logins c).0
  unfolding set_pr_assignees set_assignees
  set_pr_assignees-Kept n logins c =
      touching-Kept (assign n logins) c
        (λ s. elim (Option-cases (get_pull_request n s.q)) [
          | inl e ↦ rw (e, assign) (Touched-refl s)
          | inr (r, e) ↦ rw (e, assign) (on_pr-Touched (set_assignees logins) r s refl)
        ])
        λ r s h. elim (Option-cases (get_pull_request n s.q)) [
          | inl e ↦ rw (e, assign) (IsSpared-refl r s h)
          | inr (x, e) ↦
              rw (e, assign)
                (on_pr-IsSpared r (set_assignees logins) x s (get_pull_request_other r n s.q x h e)
                  h)
        ]

  pub trigger_process_pr_if_first-Kept :
      (spec : PrSpecifier) (task : Task) (c : Coordinator)
      → Kept owner repo c (trigger_process_pr_if_first b spec task c).0
  unfolding trigger_process_pr_if_first
  trigger_process_pr_if_first-Kept spec task c =
      with_queue-Kept (trigger_if_first spec task) c
        (λ s v. (trigger_if_first-SameNumbers spec task s, trigger_if_first-IsValid spec task s v))
        λ r s h. trigger_if_first-IsSpared r spec task s h
