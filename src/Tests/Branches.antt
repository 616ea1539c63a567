-- ===== src/Tests/Branches.antt =====
-- Branches: the coordinator with one base branch, and pull requests that change it.
use directorius.Prelude.{String, true, false, ◌≡◌, refl, subst, [], ◌∷◌, arith}
use directorius.Retry.{run}
use directorius.OrderedMap.{lookup, delete, get, remove, dequeue, first}
use directorius.MergeQueue.World.{
  set_pr, run_call, pr_add_queue_head_label, pr_remove_queue_head_label, create_commit_status_of,
}
use directorius.MergeQueue.Queue.{
  BranchId, schedule_process_pr, dequeue_suspended, dequeue_active, cancel_action_for_pr,
  dequeue_rest, dequeue_pr, is_empty,
}
use directorius.MergeQueue.Queue.Place.{place, active, absent}
use directorius.MergeQueue.Queue.Valid.{IsValid}
use directorius.MergeQueue.Coordinator.{
  Coordinator, is_branch, get_queue, put_queue, delete_queue, remove_if_empty, dequeue_from,
  change_base_branch,
}
use directorius.MergeQueue.Coordinator.Valid.{AreValid}
use directorius.MergeQueue.Coordinator.Moves.{
  place_in, is_ok, dequeue_from_not_empty, change_base_branch-place,
}
use directorius.Tests.{env, world, queue, state, state-IsValid}

abbrev pub branch : String → BranchId
branch name = record { repository_owner = "o"; repository = "r"; branch = name }

abbrev pub main : BranchId
main = branch "main"

abbrev dev : BranchId
dev = branch "dev"

abbrev pub coordinator : Coordinator
coordinator = record { world = world; queues = (main, queue) ∷ []; head_label = "first" }

pub coordinator-AreValid : AreValid coordinator
unfolding get_queue
coordinator-AreValid = record {
  valid = λ b q e. subst (λ p. IsValid world p) (ground arith) state-IsValid;
}

program : Unit {0}
unfolding run lookup delete get remove dequeue first set_pr run_call pr_add_queue_head_label
    pr_remove_queue_head_label create_commit_status_of schedule_process_pr dequeue_suspended
    dequeue_active cancel_action_for_pr dequeue_rest dequeue_pr is_empty place is_branch get_queue
    put_queue delete_queue remove_if_empty dequeue_from
program = tt

change_base_branch-place_example :
    let (c, result) = change_base_branch env main dev 2 coordinator in
    (is_ok result ≡ true) × (place_in main 2 c ≡ absent) × (place_in dev 2 c ≡ active 2)
unfolding program
change_base_branch-place_example =
    change_base_branch-place env main dev 2 coordinator 2 coordinator-AreValid refl refl refl

-- Two pull requests of the branch remain.
dequeue_from_not_empty_example : is_empty (dequeue_pr env 1 true state).0.q ≡ false
unfolding program
dequeue_from_not_empty_example =
    dequeue_from_not_empty env main 1 true coordinator (dequeue_pr env 1 true state).0.q refl
