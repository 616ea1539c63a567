-- ===== src/MergeQueue/Events/Effects.antt =====
-- internal/mergequeue/coordinator.go: where the events leave the pull requests.
pub mod Requests
use directorius.Prelude.{
  ℕ, String, true, false, not, ◌≡◌, refl, ◌∙◌, ap, Option, some, arith, leb, ==_refl, str_eq,
  Option-cases, inl, inr,
}
use directorius.Errors.{Err, Result, ok, err, Result-cases}
use directorius.MergeQueue.PullRequest.{PullRequest, new_pull_request, set_assignees}
use directorius.MergeQueue.World.{task_trigger_ci, Ref, Env, set_pr}
use directorius.MergeQueue.Queue.{BranchId, Queue, resume_all_prs, schedule_first}
use directorius.MergeQueue.Queue.Place.{place}
use directorius.MergeQueue.Queue.ResumeAll.{resumed_place, resume_all_prs-place}
use directorius.MergeQueue.Manage.{contains}
use directorius.MergeQueue.Manage.Touched.{schedule_first_contents, schedule_first-IsValid}
use directorius.MergeQueue.Coordinator.{Coordinator, get_queue, state_of, enqueue_in, dequeue_from}
use directorius.MergeQueue.Coordinator.Find.{get_queue-put_queue, is_branch_refl}
use directorius.MergeQueue.Coordinator.Valid.{AreValid}
use directorius.MergeQueue.Coordinator.Moves.{place_in}
use directorius.MergeQueue.Events.{
  Config, PullRequestEvent, Event, Payload, pull_request, push, new_base_branch, branch_ref_to_ref,
  state_of_pr, merged_of, is_monitored_repository,
}
use directorius.MergeQueue.Events.Incoming.{pull_request_from_event, new_pull_request_from_event}
use directorius.MergeQueue.Events.Handlers.{
  with_base, with_pull_request, enqueue_event, dequeue_event, labeled, unlabeled,
  process_pull_request_event,
}
use directorius.MergeQueue.Events.Checks.{process_push_event}
use directorius.MergeQueue.Events.Dispatch.{handle, process_event}

handled :
    (cfg : Config) (env : Env) (owner repo : String) (p : Payload) (c : Coordinator)
    → is_monitored_repository cfg owner repo ≡ true
    → process_event cfg env (record { owner = owner; repo = repo; payload = p }) c
      ≡ handle cfg env owner repo p c
unfolding process_event
handled cfg env owner repo p c h = rw (h, process_event) refl

place-same_contents :
    (k : ℕ) (p q : Queue) → p.active ≡ q.active → p.suspended ≡ q.suspended → place k p ≡ place k q
unfolding place
place-same_contents k p q a b = ground arith

push-place :
    (env : Env) (owner repo ref : String) (b : BranchId) (c : Coordinator) (k : ℕ)
    → AreValid c
    → new_base_branch owner repo (branch_ref_to_ref ref) ≡ ok b
    → place_in b k (process_push_event env owner repo ref c) ≡ resumed_place (place_in b k c)
unfolding process_push_event
push-place env owner repo ref b c k v base = elim (Option-cases (get_queue b c.queues)) [
  | inl e ↦ rw (base, process_push_event) (ground arith)
  | inr (q, e) ↦
      let s = schedule_first task_trigger_ci (state_of c q) in
      let (_, a, d) = schedule_first_contents task_trigger_ci (state_of c q) in
      let u = schedule_first-IsValid task_trigger_ci (state_of c q) (v.valid b q e) in
      let t = resume_all_prs env s in
      let same = place-same_contents k s.q q a d in
      let moved : place k t.q ≡ resumed_place (place k s.q) = resume_all_prs-place env s k u in
      let found = get_queue-put_queue b b t.q c.queues in
      rw (base, process_push_event, e) (ground (arith, found, is_branch_refl b, moved, same))
]

module _ (cfg : Config) (env : Env) (owner repo : String) (ev : PullRequestEvent) where
  abbrev the_event : Event
  the_event = record { owner = owner; repo = repo; payload = pull_request ev }

module _ (cfg : Config) (env : Env) (owner repo : String) where
  -- In a monitored repository whose queues are valid, a push to a base branch moves every suspended
  -- pull request of the branch to the active queue, and leaves every active one where it is.
  pub process_event-push :
      (ref : String) (b : BranchId) (c : Coordinator) (k : ℕ)
      → AreValid c
      → is_monitored_repository cfg owner repo ≡ true
      → new_base_branch owner repo (branch_ref_to_ref ref) ≡ ok b
      → place_in b k
          (process_event cfg env (record { owner = owner; repo = repo; payload = push ref }) c)
        ≡ resumed_place (place_in b k c)
  unfolding handle process_push_event
  process_event-push ref b c k v monitored base =
      ap (place_in b k) (handled cfg env owner repo (push ref) c monitored)
      ∙ push-place env owner repo ref b c k v base
