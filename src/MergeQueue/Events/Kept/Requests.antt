-- ===== src/MergeQueue/Events/Kept/Requests.antt =====
-- internal/mergequeue/coordinator.go: `processPullRequestEvent` keeps the queues valid, and the queues of
-- the other repositories as they are.
use directorius.Prelude.{
  String, Bool, true, false, ◌==◌, ap, sym, ◌∙◌, not, ◌||◌, ◌≡◌, refl, Option, arith, eq_iff,
  str_eq, Option-cases, inl, inr,
}
use directorius.Errors.{ok, err, Result-cases}
use directorius.MergeQueue.World.{task_trigger_ci, Ref, Env}
use directorius.MergeQueue.Queue.{BranchId}
use directorius.MergeQueue.Manage.{contains}
use directorius.MergeQueue.Coordinator.{
  Coordinator, get_queue, enqueue_in, dequeue_from, trigger_process_pr_if_first, is_repository,
  pr_number,
}
use directorius.MergeQueue.Coordinator.Kept.{IsHeld, Kept, Kept-refl, Kept-trans, if_Kept}
use directorius.MergeQueue.Coordinator.Kept.Branch.{
  resume_in-Kept, set_pr_assignees-Kept, trigger_process_pr_if_first-Kept,
}
use directorius.MergeQueue.Coordinator.Kept.Moved.{
  enqueue_in-Kept, dequeue_from-Kept, change_base_branch-Kept,
}
use directorius.MergeQueue.Events.{
  Config, GhPullRequest, PullRequestEvent, new_base_branch, base_ref_of, state_of_pr, merged_of,
  assignees_of,
}
use directorius.MergeQueue.Events.Incoming.{
  new_pull_request_from_event, pull_request_from_event, assignee_logins,
}
use directorius.MergeQueue.Events.Fresh.{incoming-AreValid, allocate_kept, in_queue-next_ref}
use directorius.MergeQueue.Events.Handlers.{
  with_pull_request, enqueue_event, dequeue_event, labeled, unlabeled, synchronize, edited,
  assigned, process_pull_request_event,
}

-- The base branch of an event is one of its repository.
pub new_base_branch-repository :
    (owner repo branch : String) (b : BranchId)
    → new_base_branch owner repo branch ≡ ok b
    → is_repository owner repo b ≡ true
unfolding new_base_branch
new_base_branch-repository owner repo branch b h =
    ground (arith, eq_iff owner owner, eq_iff repo repo)

incoming_queues :
    (env : Env) (ev : Option GhPullRequest) (c : Coordinator)
    → (new_pull_request_from_event env ev c).0.queues ≡ c.queues
unfolding new_pull_request_from_event
incoming_queues env ev c = elim (Result-cases (pull_request_from_event env.now ev)) [
  | inl (p, e) ↦ rw (e, new_pull_request_from_event) refl
  | inr (x, e) ↦ rw (e, new_pull_request_from_event) refl
]

module _ (env : Env) (owner repo : String) where
  pub base-Kept :
      (ref : String) (f : BranchId → Coordinator) (c : Coordinator)
      → ((b : BranchId) → is_repository owner repo b ≡ true → Kept owner repo c (f b))
      → Kept owner repo c (elim (new_base_branch owner repo ref) [ err e ↦ c | ok b ↦ f b ])
  base-Kept ref f c h = elim (Result-cases (new_base_branch owner repo ref)) [
    | inr (x, e) ↦ rw e (Kept-refl c)
    | inl (b, e) ↦ rw e (h b (new_base_branch-repository owner repo ref b e))
  ]

  incoming_fields :
      (ev : Option GhPullRequest) (c : Coordinator) (r : Ref)
      → IsHeld owner repo r c
      → (new_pull_request_from_event env ev c).0.world.prs r ≡ c.world.prs r
  unfolding new_pull_request_from_event
  incoming_fields ev c r h = elim (Result-cases (pull_request_from_event env.now ev)) [
    | inl (p, e) ↦
        rw (e, new_pull_request_from_event) (allocate_kept p c h.branch h.queue r h.found h.inside)
    | inr (x, e) ↦ rw (e, new_pull_request_from_event) refl
  ]

  incoming-Kept :
      (ev : Option GhPullRequest) (c : Coordinator)
      → Kept owner repo c (new_pull_request_from_event env ev c).0
  incoming-Kept ev c = record {
    keeps = record {
      valid = incoming-AreValid env ev c;
      others = λ d k. rw (incoming_queues env ev c) refl;
    };
    spares = λ r h f. record {
      foreign = record { free = rw (incoming_queues env ev c) f.free };
      fields = incoming_fields ev c r h;
    };
  }

  -- The new pull request is none that a queue of another repository points to.
  incoming_new :
      (ev : Option GhPullRequest) (c : Coordinator) (x r : Ref)
      → (new_pull_request_from_event env ev c).1 ≡ ok x
      → IsHeld owner repo r (new_pull_request_from_event env ev c).0
      → (x == r) ≡ false
  unfolding new_pull_request_from_event
  incoming_new ev c x r e h =
      let found = ap (get_queue h.branch) (sym (incoming_queues env ev c)) ∙ h.found in
      let old = in_queue-next_ref h.branch r h.queue c found h.inside in
      elim (Result-cases (pull_request_from_event env.now ev)) [
        | inl (p, g) ↦ ground arith
        | inr (y, g) ↦ absurd (ground arith)
      ]

  with_pull_request-Kept :
      (pr : Option GhPullRequest) (f : Ref → Coordinator → Coordinator) (c : Coordinator)
      → ((x : Ref) (d : Coordinator)
          → ((r : Ref) → IsHeld owner repo r d → (x == r) ≡ false)
          → Kept owner repo d (f x d))
      → Kept owner repo c (with_pull_request env owner repo pr f c)
  with_pull_request-Kept pr f c h =
      let (d, result) = new_pull_request_from_event env pr c in
      elim (Result-cases result) [
        | inr (x, e) ↦ rw (e, with_pull_request) (incoming-Kept pr c)
        | inl (r, e) ↦
            rw (e, with_pull_request)
              (Kept-trans (incoming-Kept pr c) (h r d λ x k. incoming_new pr c r x e k))
      ]

  enqueue_event-Kept :
      (pr : Option GhPullRequest) (c : Coordinator)
      → Kept owner repo c (enqueue_event env owner repo pr c)
  unfolding enqueue_event
  enqueue_event-Kept pr c = base-Kept (base_ref_of pr) _ c λ b here.
      with_pull_request-Kept pr (λ r d. (enqueue_in env b r d).0) c
        λ r d new. enqueue_in-Kept b here env r d new

  dequeue_event-Kept :
      (set_pending : Bool) (pr : Option GhPullRequest) (c : Coordinator)
      → Kept owner repo c (dequeue_event env owner repo set_pending pr c)
  unfolding dequeue_event
  dequeue_event-Kept set_pending pr c = base-Kept (base_ref_of pr) _ c λ b here.
      with_pull_request-Kept pr (λ r d. (dequeue_from env b (d.world.prs r).number set_pending d).0)
        c λ r d _. dequeue_from-Kept b here env (d.world.prs r).number set_pending d

  module _ (cfg : Config) (ev : PullRequestEvent) (c : Coordinator) where
    stays : Kept owner repo c c
    stays = Kept-refl c

    labeled-Kept : Kept owner repo c (labeled env owner repo cfg ev c)
    unfolding labeled
    labeled-Kept = if_Kept (str_eq (state_of_pr ev.pull_request) "closed") stays (
        if_Kept (str_eq ev.label_name "") stays (
          if_Kept (not (contains cfg.trigger_labels ev.label_name)) stays
            (enqueue_event-Kept ev.pull_request c)))

    unlabeled-Kept : Kept owner repo c (unlabeled env owner repo cfg ev c)
    unfolding unlabeled
    unlabeled-Kept = if_Kept (str_eq ev.label_name "") stays (
        if_Kept (not (contains cfg.trigger_labels ev.label_name)) stays
          (dequeue_event-Kept true ev.pull_request c))

    synchronize-Kept : Kept owner repo c (synchronize env owner repo ev c)
    unfolding synchronize
    synchronize-Kept = base-Kept (base_ref_of ev.pull_request) _ c λ b here.
        let spec = pr_number ev.number in
        let (d, result) = trigger_process_pr_if_first b spec task_trigger_ci c in
        let first = trigger_process_pr_if_first-Kept b here spec task_trigger_ci c in
        elim (Result-cases result) [
          | inl (r, e) ↦ rw e first
          | inr (x, e) ↦ rw e (Kept-trans first (resume_in-Kept b here env ev.number d))
        ]

    edited-Kept : Kept owner repo c (edited env owner repo ev c)
    unfolding edited
    edited-Kept = elim (Option-cases ev.old_base_ref) [
      | inl e ↦ rw (e, edited) stays
      | inr (from, e) ↦
          rw (e, edited)
            (base-Kept from _ c λ old here.
              base-Kept (base_ref_of ev.pull_request) _ c
                λ new there. change_base_branch-Kept env old new ev.number c here there)
    ]

    assigned-Kept : Kept owner repo c (assigned env owner repo ev c)
    unfolding assigned
    assigned-Kept = base-Kept (base_ref_of ev.pull_request) _ c λ b here.
        set_pr_assignees-Kept b here ev.number (assignee_logins (assignees_of ev.pull_request)) c

    pub process_pull_request_event-Kept :
        Kept owner repo c (process_pull_request_event env owner repo cfg ev c)
    unfolding process_pull_request_event
    process_pull_request_event-Kept =
        let closed = dequeue_event-Kept (not (merged_of ev.pull_request)) ev.pull_request c in
        let opened = enqueue_event-Kept ev.pull_request c in
        let on = cfg.trigger_on_automerge in
        if_Kept (str_eq ev.action "auto_merge_enabled") (if_Kept on opened stays) (
          if_Kept (str_eq ev.action "labeled") labeled-Kept (
            if_Kept (str_eq ev.action "auto_merge_disabled") (if_Kept on closed stays) (
              if_Kept (str_eq ev.action "closed") closed (
                if_Kept (str_eq ev.action "unlabeled") unlabeled-Kept (
                  if_Kept (str_eq ev.action "synchronize") synchronize-Kept (
                    if_Kept (str_eq ev.action "edited") edited-Kept (
                      if_Kept (str_eq ev.action "assigned" || str_eq ev.action "unassigned")
                        assigned-Kept stays)))))))
