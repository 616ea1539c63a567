-- ===== src/MergeQueue/Events/Incoming.antt =====
-- internal/mergequeue/pullrequest.go: a pull request that an event describes, in memory that no queue
-- points to.
use directorius.Prelude.{
  ℕ, ◌+◌, String, not, Option, none, some, List, [], ◌∷◌, ◌++◌, map, filter, ltb, str_eq,
  if◌then◌else◌,
}
use directorius.Errors.{Result, ok, err, message}
use directorius.MergeQueue.PullRequest.{PullRequest, new_pull_request, set_assignees}
use directorius.MergeQueue.World.{Ref, Env, set_pr}
use directorius.MergeQueue.Queue.{BranchId, Queue, Work, process_pr, resume_if_positive}
use directorius.MergeQueue.Coordinator.{Coordinator}
use directorius.MergeQueue.Events.{GhPullRequest}

abbrev pub work_ref : Work → Ref
work_ref (process_pr r task) = r
work_ref (resume_if_positive r) = r

abbrev pub active_refs : Queue → List Ref
active_refs q = map (λ e. e.1.value) q.active.m

abbrev pub suspended_refs : Queue → List Ref
suspended_refs q = map (λ e. e.1) q.suspended

abbrev pub listed_refs : Queue → List Ref
listed_refs q = map (λ e. e.value) q.active.order ++ map work_ref q.action_pool

-- The pointers that a queue holds.
unfoldable pub queue_refs : Queue → List Ref
queue_refs q = active_refs q ++ (suspended_refs q ++ listed_refs q)

unfoldable pub all_refs : List (BranchId × Queue) → List Ref
unfolding queue_refs
all_refs [] = []
all_refs ((b, q) ∷ queues) = queue_refs q ++ all_refs queues

-- The least number above those of the list.
unfoldable pub above : List Ref → Ref
above [] = 0
above (r ∷ rs) = let rest = above rs in if ltb r rest then rest else r + 1

-- The address of new memory: one that no queue points to.
unfoldable pub next_ref : Coordinator → Ref
unfolding all_refs above
next_ref c = above (all_refs c.queues)

-- The pull request stands in new memory.
unfoldable pub allocate : PullRequest → Coordinator → Coordinator
unfolding set_pr
allocate p c = record c { world = set_pr (λ _. p) (next_ref c) c.world }

-- `assigneeLogins`
unfoldable pub assignee_logins : List String → List String
assignee_logins users = filter (λ login. not (str_eq login "")) users

-- The pull request of `NewPullRequestFromEvent`.
unfoldable pub pull_request_from_event : ℕ → Option GhPullRequest → Result PullRequest
unfolding new_pull_request set_assignees assignee_logins
pull_request_from_event now none = err (message "github pull request event is nil")
pull_request_from_event now (some ev) =
    elim (new_pull_request now ev.number ev.head_ref ev.user_login ev.title ev.html_href) [
      | err e ↦ err e
      | ok p ↦ ok (set_assignees (assignee_logins ev.assignees) p)
    ]

-- `NewPullRequestFromEvent`: the new pointer.
unfoldable pub new_pull_request_from_event :
    Env → Option GhPullRequest → Coordinator → Coordinator × Result Ref
unfolding allocate pull_request_from_event
new_pull_request_from_event env ev c = elim (pull_request_from_event env.now ev) [
  | err e ↦ (c, err e)
  | ok p ↦ (allocate p c, ok (next_ref c))
]
