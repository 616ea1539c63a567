-- ===== src/Tests/Queues.antt =====
-- Queues: the operations of a queue on an example.
use directorius.Prelude.{◌≡◌, refl, true}
use directorius.Errors.{ok}
use directorius.Retry.{run}
use directorius.OrderedMap.{
  lookup, delete, insert, insert_before, insert_list, insert_if_not_exist, get, remove, dequeue,
  first,
}
use directorius.MergeQueue.World.{
  set_pr, run_call, pr_add_queue_head_label, pr_remove_queue_head_label, create_commit_status_of,
}
use directorius.MergeQueue.Queue.{
  schedule_process_pr, enqueued, enqueue_active, enqueue, dequeue_suspended, dequeue_active,
  cancel_action_for_pr, dequeue_rest, dequeue_pr, suspend_rest, suspend, resume_pr,
}
use directorius.MergeQueue.Queue.Place.{
  place, enqueue_at, dequeue_at, suspend_at, resume_at, enqueue-place, dequeue_pr-place,
  suspend-place, resume_pr-place,
}
use directorius.MergeQueue.Queue.Head.{
  IsHeadOrScheduled, dequeue_pr-IsHeadScheduled, suspend-IsHeadScheduled,
}
use directorius.Tests.{env, state, queue, state-IsValid}

-- The pull request with the number 4 is new, 1 is the first active one, and 3 is suspended.
enqueue-place_example :
    (place 4 (enqueue env 4 state).0.q ≡ enqueue_at 4 4 (λ j. place j queue) 4)
    × ((enqueue env 4 state).1 ≡ ok tt)
unfolding place lookup get
enqueue-place_example = enqueue-place env 4 state 4

dequeue_pr-place_example :
    (place 1 (dequeue_pr env 1 true state).0.q ≡ dequeue_at 1 (λ j. place j queue) 1)
    × ((dequeue_pr env 1 true state).1 ≡ ok 1)
unfolding place lookup get
dequeue_pr-place_example = dequeue_pr-place env 1 true state 1 state-IsValid.is_apart

suspend-place_example :
    (place 1 (suspend env 1 state).0.q ≡ suspend_at 1 (λ j. place j queue) 1)
    × ((suspend env 1 state).1 ≡ ok tt)
unfolding place lookup get
suspend-place_example = suspend-place env 1 state 1 state-IsValid.is_apart

resume_pr-place_example :
    (place 3 (resume_pr env 3 state).0.q ≡ resume_at 3 (λ j. place j queue) 3)
    × ((resume_pr env 3 state).1 ≡ ok tt)
unfolding place lookup get
resume_pr-place_example =
    resume_pr-place env 3 state 3 state-IsValid.is_apart (state-IsValid.suspended_numbered 3)

program : Unit {0}
unfolding run lookup delete insert insert_before insert_list insert_if_not_exist get remove dequeue
    first set_pr run_call pr_add_queue_head_label pr_remove_queue_head_label create_commit_status_of
    schedule_process_pr enqueued enqueue_active enqueue dequeue_suspended dequeue_active
    cancel_action_for_pr dequeue_rest dequeue_pr suspend_rest suspend resume_pr
program = tt

dequeue_pr-IsHeadScheduled_example : IsHeadOrScheduled 2 state (dequeue_pr env 1 true state).0
unfolding program
dequeue_pr-IsHeadScheduled_example = dequeue_pr-IsHeadScheduled env 1 true state 2 refl

suspend-IsHeadScheduled_example : IsHeadOrScheduled 2 state (suspend env 1 state).0
unfolding program
suspend-IsHeadScheduled_example = suspend-IsHeadScheduled env 1 state 2 refl
