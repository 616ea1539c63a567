-- ===== src/Tests/Events.antt =====
-- Events: webhook events for the repository of the branches, and for another one.
use directorius.Prelude.{ℕ, true, false, ◌≡◌, refl, some, none, [], ◌∷◌, if◌then◌else◌}
use directorius.MergeQueue.Queue.Place.{place}
use directorius.MergeQueue.Queue.ResumeAll.{resumed_place}
use directorius.MergeQueue.Coordinator.{Coordinator, is_branch, get_queue}
use directorius.MergeQueue.Coordinator.Valid.{AreValid}
use directorius.MergeQueue.Coordinator.Moves.{place_in}
use directorius.MergeQueue.Events.{
  Config, GhPullRequest, PullRequestEvent, Event, pull_request, push, is_monitored_repository,
  new_base_branch, branch_ref_to_ref,
}
use directorius.MergeQueue.Events.Incoming.{queue_refs}
use directorius.MergeQueue.Events.Dispatch.{process_event, periodic_trigger}
use directorius.MergeQueue.Events.Reached.{start, later, event, trigger, Reach-AreValid}
use directorius.MergeQueue.Events.Isolation.{process_event-isolated, content_of}
use directorius.MergeQueue.Events.Effects.{process_event-push}
use directorius.Tests.{env, world}
use directorius.Tests.Branches.{main, coordinator, coordinator-AreValid}

abbrev pub cfg : Config
cfg = record {
  monitored_repositories = ("o", "r") ∷ [];
  trigger_on_automerge = true;
  trigger_labels = "queue" ∷ [];
}

abbrev described : ℕ → GhPullRequest
described n = record {
  number = n;
  head_ref = "feature";
  base_ref = "main";
  user_login = "alice";
  title = "a change";
  html_href = "";
  assignees = "alice" ∷ [];
  state = "open";
  merged = false;
}

abbrev labeled_event : PullRequestEvent
labeled_event = record {
  action = "labeled";
  number = 4;
  label_name = "queue";
  old_base_ref = none;
  pull_request = some (described 4);
}

abbrev closed_event : PullRequestEvent
closed_event = record {
  action = "closed";
  number = 3;
  label_name = "";
  old_base_ref = none;
  pull_request = some (described 3);
}

abbrev labeled_at : Event
labeled_at = record { owner = "o"; repo = "r"; payload = pull_request labeled_event }

abbrev pub no_queues : Coordinator
no_queues = record { world = world; queues = []; head_label = "first" }

program : Unit {0}
unfolding is_monitored_repository new_base_branch branch_ref_to_ref is_branch get_queue place
    queue_refs
program = tt

Reach-AreValid_example :
    AreValid (periodic_trigger env (process_event cfg env labeled_at no_queues))
Reach-AreValid_example =
    Reach-AreValid cfg (periodic_trigger env (process_event cfg env labeled_at no_queues))
      (later (later (start world "first") (event env labeled_at)) (trigger env))

abbrev two_repositories : Config
two_repositories = record cfg { monitored_repositories = ("o", "r") ∷ ("o", "other") ∷ [] }

abbrev labeled_elsewhere : Event
labeled_elsewhere = record labeled_at { repo = "other" }

-- The event enqueues a pull request of another repository than that of the branch.
process_event-isolated_example :
    (content_of main (process_event two_repositories env labeled_elsewhere coordinator)
      ≡ content_of main coordinator)
    × ((if is_monitored_repository two_repositories "o" "other"
          then coordinator
          else process_event two_repositories env labeled_elsewhere coordinator)
        ≡ coordinator)
unfolding program
process_event-isolated_example =
    process_event-isolated two_repositories env labeled_elsewhere coordinator main refl refl

process_event-push_example :
    place_in main 3 (
      process_event cfg env
        (record { owner = "o"; repo = "r"; payload = push "refs/heads/main" })
        coordinator)
    ≡ resumed_place (place_in main 3 coordinator)
unfolding program
process_event-push_example =
    process_event-push cfg env "o" "r" "refs/heads/main" main coordinator 3 coordinator-AreValid
      refl refl
