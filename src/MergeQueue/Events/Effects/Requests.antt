-- ===== src/MergeQueue/Events/Effects/Requests.antt =====
-- internal/mergequeue/coordinator.go: the events that enqueue and dequeue a pull request, and what their
-- handlers come to.
use directorius.Prelude.{
  ℕ, String, Bool, true, false, not, ◌≡◌, refl, ◌∙◌, ap, Option, some, arith, leb, ==_refl, str_eq,
  inl, inr,
}
use directorius.Errors.{Err, Result, ok, err, Result-cases}
use directorius.MergeQueue.PullRequest.{PullRequest, new_pull_request, set_assignees}
use directorius.MergeQueue.World.{Ref, Env, set_pr}
use directorius.MergeQueue.Queue.{BranchId}
use directorius.MergeQueue.Manage.{contains}
use directorius.MergeQueue.Coordinator.{Coordinator, enqueue_in, dequeue_from}
use directorius.MergeQueue.Events.{
  Config, GhPullRequest, PullRequestEvent, new_base_branch, state_of_pr, merged_of,
}
use directorius.MergeQueue.Events.Incoming.{
  next_ref, allocate, pull_request_from_event, new_pull_request_from_event,
}
use directorius.MergeQueue.Events.Handlers.{
  with_base, with_pull_request, enqueue_event, dequeue_event, labeled, unlabeled,
  process_pull_request_event,
}

-- The event tells to enqueue its pull request.
pub data IsEnqueueEvent (cfg : Config) (ev : PullRequestEvent) : Type 0 where
  by_auto_merge :
      ev.action ≡ "auto_merge_enabled" → cfg.trigger_on_automerge ≡ true → IsEnqueueEvent cfg ev
  by_label :
      ev.action ≡ "labeled"
      → str_eq (state_of_pr ev.pull_request) "closed" ≡ false
      → str_eq ev.label_name "" ≡ false
      → contains cfg.trigger_labels ev.label_name ≡ true
      → IsEnqueueEvent cfg ev

-- The event tells to dequeue its pull request, with or without a pending commit status.
pub data IsDequeueEvent (cfg : Config) (ev : PullRequestEvent) : Bool → Type 0 where
  by_closing : ev.action ≡ "closed" → IsDequeueEvent cfg ev (not (merged_of ev.pull_request))
  by_auto_merge_disabled :
      ev.action ≡ "auto_merge_disabled"
      → cfg.trigger_on_automerge ≡ true
      → IsDequeueEvent cfg ev (not (merged_of ev.pull_request))
  by_removed_label :
      ev.action ≡ "unlabeled"
      → str_eq ev.label_name "" ≡ false
      → contains cfg.trigger_labels ev.label_name ≡ true
      → IsDequeueEvent cfg ev true

-- The event describes a pull request with a number and a branch, for a base branch.
pub record IsComplete (owner repo : String) (ev : PullRequestEvent) (p : GhPullRequest)
    (b : BranchId) : Type 0 where
  pub described : ev.pull_request ≡ some p
  pub base : new_base_branch owner repo p.base_ref ≡ ok b
  pub numbered : leb p.number 0 ≡ false
  pub has_branch : str_eq p.head_ref "" ≡ false

incoming_number :
    (now : ℕ) (p : GhPullRequest) (x : PullRequest)
    → pull_request_from_event now (some p) ≡ ok x
    → x.number ≡ p.number
unfolding pull_request_from_event new_pull_request set_assignees
incoming_number now p x h = ground arith

incoming_not_err :
    (now : ℕ) (p : GhPullRequest) (e : Err)
    → leb p.number 0 ≡ false
    → str_eq p.head_ref "" ≡ false
    → ¬ (pull_request_from_event now (some p) ≡ err e)
unfolding pull_request_from_event new_pull_request
incoming_not_err now p e numbered has_branch h = ground arith

-- A described pull request with a number and a branch is put into new memory.
incoming_ok :
    (env : Env) (p : GhPullRequest) (c : Coordinator)
    → leb p.number 0 ≡ false
    → str_eq p.head_ref "" ≡ false
    → (x : PullRequest) × (new_pull_request_from_event env (some p) c
        ≡ (allocate x c, ok (next_ref c)))
      × (x.number ≡ p.number)
unfolding new_pull_request_from_event
incoming_ok env p c numbered has_branch =
    elim (Result-cases (pull_request_from_event env.now (some p))) [
      | inl (x, e) ↦ (x, rw (e, new_pull_request_from_event) refl, incoming_number env.now p x e)
      | inr (y, e) ↦ absurd (incoming_not_err env.now p y numbered has_branch e)
    ]

pub allocate-number :
    (x : PullRequest) (c : Coordinator) → ((allocate x c).world.prs (next_ref c)).number ≡ x.number
unfolding allocate set_pr
allocate-number x c = ground (arith, ==_refl (next_ref c))

module _ (env : Env) (owner repo : String) where
  with_pull_request_ok :
      (pr : Option GhPullRequest) (f : Ref → Coordinator → Coordinator) (c d : Coordinator)
      (r : Ref)
      → new_pull_request_from_event env pr c ≡ (d, ok r)
      → with_pull_request env owner repo pr f c ≡ f r d
  with_pull_request_ok pr f c d r e =
      ap (λ (x : Coordinator × Result Ref). elim x.1 [ err y ↦ x.0 | ok r ↦ f r x.0 ]) e

  pub enqueue_event-eq :
      (ev : PullRequestEvent) (p : GhPullRequest) (b : BranchId) (c : Coordinator)
      → IsComplete owner repo ev p b
      → (x : PullRequest) × (enqueue_event env owner repo ev.pull_request c
          ≡ (enqueue_in env b (next_ref c) (allocate x c)).0)
        × (x.number ≡ p.number)
  unfolding enqueue_event
  enqueue_event-eq ev p b c h =
      let (x, e, n) = incoming_ok env p c h.numbered h.has_branch in
      let some_p = ap (λ pr. enqueue_event env owner repo pr c) h.described in
      let found =
        with_pull_request_ok (some p) (λ r d. (enqueue_in env b r d).0) c (allocate x c)
          (next_ref c) e in
      (x, some_p ∙ rw (enqueue_event, with_base, h.base) found, n)

  pub dequeue_event-eq :
      (set_pending : Bool) (ev : PullRequestEvent) (p : GhPullRequest) (b : BranchId)
      (c : Coordinator)
      → IsComplete owner repo ev p b
      → (x : PullRequest) × (dequeue_event env owner repo set_pending ev.pull_request c
          ≡ (dequeue_from env b p.number set_pending (allocate x c)).0)
  unfolding dequeue_event
  dequeue_event-eq set_pending ev p b c h =
      let (x, e, n) = incoming_ok env p c h.numbered h.has_branch in
      let same = allocate-number x c ∙ n in
      let some_p = ap (λ pr. dequeue_event env owner repo set_pending pr c) h.described in
      let found =
        with_pull_request_ok (some p)
          (λ r d. (dequeue_from env b (d.world.prs r).number set_pending d).0) c (allocate x c)
          (next_ref c) e in
      let named = ap (λ n. (dequeue_from env b n set_pending (allocate x c)).0) same in
      (x, some_p ∙ (rw (dequeue_event, with_base, h.base) found ∙ named))

  module _ (cfg : Config) (ev : PullRequestEvent) (c : Coordinator) where
    pub enqueues :
        IsEnqueueEvent cfg ev
        → process_pull_request_event env owner repo cfg ev c
          ≡ enqueue_event env owner repo ev.pull_request c
    unfolding process_pull_request_event labeled
    enqueues (by_auto_merge e on) = rw (e, on, process_pull_request_event) refl
    enqueues (by_label e opened named listed) =
        rw (e, opened, named, listed, process_pull_request_event) refl

    pub dequeues :
        {set_pending : Bool}
        → IsDequeueEvent cfg ev set_pending
        → process_pull_request_event env owner repo cfg ev c
          ≡ dequeue_event env owner repo set_pending ev.pull_request c
    unfolding process_pull_request_event unlabeled
    dequeues (by_closing e) = rw (e, process_pull_request_event) refl
    dequeues (by_auto_merge_disabled e on) = rw (e, on, process_pull_request_event) refl
    dequeues (by_removed_label e named listed) =
        rw (e, named, listed, process_pull_request_event) refl
