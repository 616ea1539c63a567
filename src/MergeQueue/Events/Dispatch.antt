-- ===== src/MergeQueue/Events/Dispatch.antt =====
-- internal/mergequeue/coordinator.go: `processEvent`, the event loop and `Stop`.
use directorius.Prelude.{String, none, some, List, [], ◌∷◌, map, if◌then◌else◌}
use directorius.MergeQueue.World.{task_none, Env, World}
use directorius.MergeQueue.Queue.{BranchId, Queue, schedule_first, is_empty}
use directorius.MergeQueue.Manage.{stop}
use directorius.MergeQueue.Coordinator.{
  Coordinator, get_queue, put_queue, delete_queue, state_of, store, wait,
}
use directorius.MergeQueue.Events.{
  Config, Event, Payload, pull_request, push, status, check_run, review, other,
  is_monitored_repository,
}
use directorius.MergeQueue.Events.Handlers.{process_pull_request_event}
use directorius.MergeQueue.Events.Checks.{
  process_push_event, process_pull_request_review_event, process_check_run_event,
  process_status_event,
}

-- The handler of an event.
unfoldable pub handle : Config → Env → String → String → Payload → Coordinator → Coordinator
unfolding process_pull_request_event process_push_event process_status_event process_check_run_event
    process_pull_request_review_event
handle cfg env owner repo (pull_request ev) c = process_pull_request_event env owner repo cfg ev c
handle cfg env owner repo (push ref) c = process_push_event env owner repo ref c
handle cfg env owner repo (status ev) c = process_status_event env owner repo ev c
handle cfg env owner repo (check_run ev) c = process_check_run_event env owner repo ev c
handle cfg env owner repo (review ev) c = process_pull_request_review_event env owner repo ev c
handle cfg env owner repo other c = c

-- `processEvent`
unfoldable pub process_event : Config → Env → Event → Coordinator → Coordinator
unfolding is_monitored_repository handle
process_event cfg env ev c =
    if is_monitored_repository cfg ev.owner ev.repo
    then handle cfg env ev.owner ev.repo ev.payload c
    else c

-- The periodic run for the queue of a branch.
unfoldable pub periodic_run : Env → BranchId → Coordinator → Coordinator
unfolding get_queue put_queue delete_queue is_empty wait schedule_first
periodic_run env b c = elim (get_queue b c.queues) [
  | none ↦ c
  | some q ↦
      if is_empty q
      then record c { world = (wait env (state_of c q)).world; queues = delete_queue b c.queues }
      else store b (schedule_first task_none (state_of c q)) c
]

-- The loop over the keys of the map.
unfoldable pub periodic_runs : Env → List BranchId → Coordinator → Coordinator
unfolding periodic_run
periodic_runs env [] c = c
periodic_runs env (b ∷ branches) c = periodic_runs env branches (periodic_run env b c)

-- The branch of the periodic trigger in `eventLoop`.
unfoldable pub periodic_trigger : Env → Coordinator → Coordinator
unfolding periodic_runs
periodic_trigger env c = periodic_runs env (map (λ e. e.0) c.queues) c

-- What the `select` of `eventLoop` receives.
pub data Input : Type 0 where
  received : Event → Input
  channel_closed : Input
  ticked : Input
  shut_down : Input

-- `eventLoop`, on what it receives one after the other, each with its answers of GitHub: the inputs
-- that are left when the loop ends.
unfoldable pub event_loop :
    Config → List (Env × Input) → Coordinator → Coordinator × List (Env × Input)
unfolding process_event periodic_trigger
event_loop cfg [] c = (c, [])
event_loop cfg ((env, received ev) ∷ inputs) c = event_loop cfg inputs (process_event cfg env ev c)
event_loop cfg ((env, ticked) ∷ inputs) c = event_loop cfg inputs (periodic_trigger env c)
event_loop cfg ((env, channel_closed) ∷ inputs) c = (c, inputs)
event_loop cfg ((env, shut_down) ∷ inputs) c = (c, inputs)

-- The loop of `Stop` over the queues, after the event loop has ended.
unfoldable pub stop_queues : World → List (BranchId × Queue) → World
unfolding stop
stop_queues w [] = w
stop_queues w ((b, q) ∷ queues) = stop_queues (stop (record { world = w; q = q })).world queues

-- `Stop`
unfoldable pub stop_coordinator : Coordinator → Coordinator
unfolding stop_queues
stop_coordinator c = record c { world = stop_queues c.world c.queues; queues = [] }
