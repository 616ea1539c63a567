-- ===== src/Tests/Pools.antt =====
-- Pools: one worker that runs one piece of work, up to the return of `Wait`.
use directorius.Prelude.{all, ℕ, arith, true, false, ◌≡◌, refl, [], ◌∷◌}
use directorius.Routines.Pool.{
  done, wait_returns, has_ended, Pool, new_pool, idle, ended, returned, receiving, waiting, Reach,
  start, later, queues, scheduler_receives, scheduler_pops, scheduler_sends, scheduler_closes,
  worker_receives, worker_notifies, worker_runs, worker_ends, wait_terminates, wait_notifies,
  not_called,
}
use directorius.Routines.Pool.Invariant.{Inv, Reach-Inv}
use directorius.Routines.Pool.Progress.{Goes, Reach-Goes}
use directorius.Routines.Pool.Waiting.{wait_returns_last}

-- The work 5 was queued, and the scheduler sleeps with a notification.
abbrev pool_queued : Pool ℕ
pool_queued = record {
  wq = 5 ∷ [];
  terminate = false;
  work_chan = [];
  is_closed = false;
  notified = true;
  scheduler = receiving;
  workers = idle ∷ [];
  waiter = not_called;
  queued = 5 ∷ [];
  received = [];
}

reached_queued : Reach 1 pool_queued
unfolding new_pool
reached_queued = later start (queues 5 refl)

-- The work was run, `Wait` was called, and the scheduler and the worker have ended.
abbrev pool_ended : Pool ℕ
pool_ended = record {
  wq = [];
  terminate = true;
  work_chan = [];
  is_closed = true;
  notified = false;
  scheduler = returned;
  workers = ended ∷ [];
  waiter = waiting;
  queued = 5 ∷ [];
  received = 5 ∷ [];
}

reached_sent : Reach 1 (record pool_queued { wq = []; notified = false; work_chan = 5 ∷ [] })
reached_sent =
    let a = later reached_queued (scheduler_receives refl refl) in
    let b = later a (scheduler_pops 5 [] refl refl) in
    later b (scheduler_sends 5 refl (ground arith))

reached_ran : Reach 1 (record pool_queued { wq = []; notified = true; received = 5 ∷ [] })
reached_ran =
    let a = later reached_sent (worker_receives 5 [] [] [] refl refl) in
    let b = later a (worker_notifies 5 [] [] refl) in later b (worker_runs 5 [] [] refl)

reached_ended : Reach 1 pool_ended
reached_ended =
    let a = later reached_ran (wait_terminates refl) in
    let b = later a (wait_notifies refl) in
    let c = later b (scheduler_receives refl refl) in
    let d = later c (scheduler_closes refl refl refl) in later d (worker_ends [] [] refl refl refl)

Reach-Inv_example : Inv pool_ended
Reach-Inv_example = Reach-Inv 1 pool_ended reached_ended

Reach-Goes_example : Goes pool_queued
Reach-Goes_example = Reach-Goes 0 pool_queued reached_queued refl refl

reached_done : Reach 1 (record pool_ended { waiter = done })
reached_done = later reached_ended (wait_returns refl refl refl)

wait_returns_last_example :
    (pool_ended.scheduler ≡ returned)
    × (all has_ended pool_ended.workers ≡ true)
    × (pool_ended.received ≡ pool_ended.queued)
    × (pool_ended.terminate ≡ true)
wait_returns_last_example =
    wait_returns_last 0 (record pool_ended { waiter = done }) reached_done refl
