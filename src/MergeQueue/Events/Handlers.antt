-- ===== src/MergeQueue/Events/Handlers.antt =====
-- internal/mergequeue/coordinator.go: `processPullRequestEvent`, with a definition for each action. An
-- error is only logged.
use directorius.Prelude.{String, Bool, true, not, ◌||◌, Option, none, some, str_eq, if◌then◌else◌}
use directorius.Errors.{ok, err}
use directorius.MergeQueue.World.{task_trigger_ci, Ref, Env}
use directorius.MergeQueue.Queue.{BranchId}
use directorius.MergeQueue.Manage.{contains}
use directorius.MergeQueue.Coordinator.{
  Coordinator, enqueue_in, dequeue_from, change_base_branch, resume_in, set_pr_assignees,
  trigger_process_pr_if_first, pr_number,
}
use directorius.MergeQueue.Events.{
  Config, GhPullRequest, PullRequestEvent, new_base_branch, base_ref_of, state_of_pr, merged_of,
  assignees_of,
}
use directorius.MergeQueue.Events.Incoming.{new_pull_request_from_event, assignee_logins}

module _ (env : Env) (owner repo : String) where
  -- What follows on a base branch that an event names, if its information is complete.
  abbrev pub with_base : String → (BranchId → Coordinator → Coordinator) → Coordinator → Coordinator
  with_base ref f c = elim (new_base_branch owner repo ref) [ err e ↦ c | ok b ↦ f b c ]

  -- What follows on the pull request that an event describes.
  abbrev pub with_pull_request :
      Option GhPullRequest → (Ref → Coordinator → Coordinator) → Coordinator → Coordinator
  with_pull_request pr f c =
      let (c', result) = new_pull_request_from_event env pr c in
      elim result [ err e ↦ c' | ok r ↦ f r c' ]

  -- What `auto_merge_enabled` and `labeled` share: the pull request is enqueued.
  unfoldable pub enqueue_event : Option GhPullRequest → Coordinator → Coordinator
  unfolding new_base_branch new_pull_request_from_event enqueue_in
  enqueue_event pr =
      with_base (base_ref_of pr) λ b. with_pull_request pr λ r c. (enqueue_in env b r c).0

  -- What `closed`, `auto_merge_disabled` and `unlabeled` share: the pull request is dequeued.
  unfoldable pub dequeue_event : Bool → Option GhPullRequest → Coordinator → Coordinator
  unfolding new_base_branch new_pull_request_from_event dequeue_from
  dequeue_event set_pending pr =
      with_base (base_ref_of pr)
        λ b. with_pull_request pr λ r c. (dequeue_from env b (c.world.prs r).number set_pending c).0

  -- `labeled`
  unfoldable pub labeled : Config → PullRequestEvent → Coordinator → Coordinator
  unfolding enqueue_event
  labeled cfg ev c =
      if str_eq (state_of_pr ev.pull_request) "closed"
      then c
      else if str_eq ev.label_name ""
      then c
      else if not (contains cfg.trigger_labels ev.label_name)
      then c
      else enqueue_event ev.pull_request c

  -- `unlabeled`
  unfoldable pub unlabeled : Config → PullRequestEvent → Coordinator → Coordinator
  unfolding dequeue_event
  unlabeled cfg ev c =
      if str_eq ev.label_name ""
      then c
      else if not (contains cfg.trigger_labels ev.label_name)
      then c
      else dequeue_event true ev.pull_request c

  -- `synchronize`: an error of `TriggerProcessPRIfFirst` other than `ErrNotFound` is logged, and the
  -- pull request is resumed as well.
  unfoldable pub synchronize : PullRequestEvent → Coordinator → Coordinator
  unfolding new_base_branch trigger_process_pr_if_first resume_in
  synchronize ev = with_base (base_ref_of ev.pull_request) λ b c.
      let (c', result) = trigger_process_pr_if_first b (pr_number ev.number) task_trigger_ci c in
      elim result [ ok r ↦ c' | err e ↦ (resume_in env b ev.number c').0 ]

  -- `edited`
  unfoldable pub edited : PullRequestEvent → Coordinator → Coordinator
  unfolding new_base_branch change_base_branch
  edited ev c = elim ev.old_base_ref [
    | none ↦ c
    | some from ↦
        with_base from
          (λ old.
            with_base (base_ref_of ev.pull_request)
              λ new c. (change_base_branch env old new ev.number c).0)
          c
  ]

  -- `assigned` and `unassigned`
  unfoldable pub assigned : PullRequestEvent → Coordinator → Coordinator
  unfolding new_base_branch set_pr_assignees assignee_logins
  assigned ev =
      with_base (base_ref_of ev.pull_request)
        λ b c. (set_pr_assignees b ev.number (assignee_logins (assignees_of ev.pull_request)) c).0

  -- `processPullRequestEvent`
  unfoldable pub process_pull_request_event : Config → PullRequestEvent → Coordinator → Coordinator
  unfolding enqueue_event dequeue_event labeled unlabeled synchronize edited assigned
  process_pull_request_event cfg ev c =
      let closed = dequeue_event (not (merged_of ev.pull_request)) ev.pull_request c in
      if str_eq ev.action "auto_merge_enabled"
      then if cfg.trigger_on_automerge then enqueue_event ev.pull_request c else c
      else if str_eq ev.action "labeled"
      then labeled cfg ev c
      else if str_eq ev.action "auto_merge_disabled"
      then if cfg.trigger_on_automerge then closed else c
      else if str_eq ev.action "closed"
      then closed
      else if str_eq ev.action "unlabeled"
      then unlabeled cfg ev c
      else if str_eq ev.action "synchronize"
      then synchronize ev c
      else if str_eq ev.action "edited"
      then edited ev c
      else if str_eq ev.action "assigned" || str_eq ev.action "unassigned"
      then assigned ev c
      else c
