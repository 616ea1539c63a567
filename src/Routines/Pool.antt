-- ===== src/Routines/Pool.antt =====
-- internal/routines/pool.go: the scheduler and the workers of a pool as a step relation, in which they,
-- `Queue` and `Wait` are interleaved in any order. What runs under `wqMutex` is one step.
pub mod Invariant
pub mod Progress
pub mod Waiting
use directorius.Prelude.{
  ℕ, zero, suc, ◌<◌, Bool, true, false, ◌||◌, ◌≡◌, List, [], ◌∷◌, ◌++◌, length, all, any,
}

-- Where `scheduler` stands: before it receives a notification, before it takes the lock, before it
-- sends work, or at its end.
pub data Scheduler (W : Type 0) : Type 0 where
  receiving locking returned : Scheduler W
  sending : W → Scheduler W

-- Where a `worker` stands: before it receives work, before it notifies the scheduler of the work that
-- it has received, before it runs it, or at its end.
pub data Worker (W : Type 0) : Type 0 where
  idle ended : Worker W
  notifying running : W → Worker W

-- Where the one call of `wait` stands.
pub data Waiter : Type 0 where
  not_called terminating waiting done : Waiter

-- `Pool`, with the positions of its routines. The last two lists are the work that was queued and the
-- work that the workers have received so far, the oldest first.
pub record Pool (W : Type 0) : Type 0 where
  pub wq : List W
  pub terminate : Bool
  -- `workChan`
  pub work_chan : List W
  pub is_closed : Bool
  -- whether `schedulerNotifyChan` holds a notification
  pub notified : Bool
  pub scheduler : Scheduler W
  pub workers : List (Worker W)
  pub waiter : Waiter
  pub queued : List W
  pub received : List W

abbrev pub idle_workers : {W : Type 0} → ℕ → List (Worker W)
idle_workers zero = []
idle_workers (suc n) = idle ∷ idle_workers n

-- `NewPool`
unfoldable pub new_pool : {W : Type 0} → ℕ → Pool W
new_pool routines = record {
  wq = [];
  terminate = false;
  work_chan = [];
  is_closed = false;
  notified = false;
  scheduler = receiving;
  workers = idle_workers routines;
  waiter = not_called;
  queued = [];
  received = [];
}

abbrev pub has_ended : {W : Type 0} → Worker W → Bool
has_ended ended = true
has_ended _ = false

abbrev pub is_notifying : {W : Type 0} → Worker W → Bool
is_notifying (notifying w) = true
is_notifying _ = false

-- `Queue`, which panics after `Wait`.
abbrev pub queue : {W : Type 0} → W → Pool W → Pool W
queue w p = record p { wq = p.wq ++ w ∷ []; notified = true; queued = p.queued ++ w ∷ [] }

-- A step of a pool, whose channel of work has room for as many values as it has workers.
pub data Step {W : Type 0} (p : Pool W) : Pool W → Type 0 where
  queues : (w : W) → p.terminate ≡ false → Step p (queue w p)
  scheduler_receives :
      p.scheduler ≡ receiving
      → p.notified ≡ true
      → Step p (record p { notified = false; scheduler = locking })
  scheduler_pops :
      (w : W) (wq : List W)
      → p.scheduler ≡ locking
      → p.wq ≡ w ∷ wq
      → Step p (record p { wq = wq; scheduler = sending w })
  scheduler_finds_none :
      p.scheduler ≡ locking
      → p.wq ≡ []
      → p.terminate ≡ false
      → Step p (record p { scheduler = receiving })
  scheduler_closes :
      p.scheduler ≡ locking
      → p.wq ≡ []
      → p.terminate ≡ true
      → Step p (record p { is_closed = true; scheduler = returned })
  scheduler_sends :
      (w : W)
      → p.scheduler ≡ sending w
      → length p.work_chan < length p.workers
      → Step p (record p { work_chan = p.work_chan ++ w ∷ []; scheduler = receiving })
  worker_receives :
      (w : W) (chan : List W) (before after : List (Worker W))
      → p.workers ≡ before ++ idle ∷ after
      → p.work_chan ≡ w ∷ chan
      → Step p (record p {
        work_chan = chan;
        workers = before ++ notifying w ∷ after;
        received = p.received ++ w ∷ [];
      })
  worker_ends :
      (before after : List (Worker W))
      → p.workers ≡ before ++ idle ∷ after
      → p.work_chan ≡ []
      → p.is_closed ≡ true
      → Step p (record p { workers = before ++ ended ∷ after })
  worker_notifies :
      (w : W) (before after : List (Worker W))
      → p.workers ≡ before ++ notifying w ∷ after
      → Step p (record p { notified = true; workers = before ++ running w ∷ after })
  worker_runs :
      (w : W) (before after : List (Worker W))
      → p.workers ≡ before ++ running w ∷ after
      → Step p (record p { workers = before ++ idle ∷ after })
  wait_terminates :
      p.waiter ≡ not_called → Step p (record p { terminate = true; waiter = terminating })
  wait_notifies : p.waiter ≡ terminating → Step p (record p { notified = true; waiter = waiting })
  wait_returns :
      p.waiter ≡ waiting
      → p.scheduler ≡ returned
      → all has_ended p.workers ≡ true
      → Step p (record p { waiter = done })

-- What a pool of so many routines reaches.
pub data Reach {W : Type 0} (routines : ℕ) : Pool W → Type 0 where
  start : Reach routines (new_pool routines)
  later : {p q : Pool W} → Reach routines p → Step p q → Reach routines q
