-- ===== src/Routines/Pool/Waiting.antt =====
-- internal/routines/pool.go: `Wait` returns only when all work was run.
use directorius.Prelude.{
  List-cases, ℕ, suc, true, false, ◌&&◌, Bool, ◌≡◌, refl, sym, ◌∙◌, ap, List, [], ◌∷◌, ◌++◌, arith,
  any, all, length, inl, inr,
}
use directorius.Routines.Pool.{
  Scheduler, receiving, locking, sending, returned, Worker, idle, notifying, running, Waiter, done,
  Pool, new_pool, has_ended, Step, queues, scheduler_receives, scheduler_pops, scheduler_finds_none,
  scheduler_closes, scheduler_sends, worker_receives, worker_ends, worker_notifies, worker_runs,
  wait_terminates, wait_notifies, wait_returns, Reach, start, later,
}
use directorius.Routines.Pool.Invariant.{is_returned, Reach-Inv}
use directorius.Routines.Pool.Progress.{Reach-length}

abbrev is_done : Waiter → Bool
is_done done = true
is_done _ = false

returned_of : {W : Type 0} (s : Scheduler W) → is_returned s ≡ true → s ≡ returned
returned_of returned h = refl
returned_of receiving h = absurd (ground arith)
returned_of locking h = absurd (ground arith)
returned_of (sending w) h = absurd (ground arith)

module _ {W : Type 0} where
  append_none : (xs : List W) → xs ++ [] ≡ xs
  append_none [] = refl
  append_none (x ∷ xs) = ap (λ l. x ∷ l) (append_none xs)

  all-append :
      (f : Worker W → Bool) (xs ys : List (Worker W)) → all f (xs ++ ys) ≡ (all f xs && all f ys)
  all-append f [] ys = refl
  all-append f (x ∷ xs) ys = ground (arith, all-append f xs ys)

  -- Whether the scheduler and all workers have ended.
  abbrev has_stopped : Pool W → Bool
  has_stopped p = is_returned p.scheduler && all has_ended p.workers

  -- A worker that has not ended is none of a pool that has stopped.
  not_stopped :
      (p : Pool W) (x : Worker W) (before after : List (Worker W))
      → p.workers ≡ before ++ x ∷ after
      → has_ended x ≡ false
      → has_stopped p ≡ false
  not_stopped p x before after e h =
      ground (arith, ap (all has_ended) e, all-append has_ended before (x ∷ after))

  -- Once `Wait` has returned, the scheduler and the workers have ended, and stay so.
  Step-stopped :
      {p q : Pool W}
      → Step p q
      → (is_done p.waiter ≡ true → has_stopped p ≡ true)
      → is_done q.waiter ≡ true
      → has_stopped q ≡ true
  Step-stopped {p} (queues w h) s d = s d
  Step-stopped {p} (scheduler_receives h n) s d = absurd (ground (arith, s d))
  Step-stopped {p} (scheduler_pops w wq h e) s d = absurd (ground (arith, s d))
  Step-stopped {p} (scheduler_finds_none h e t) s d = absurd (ground (arith, s d))
  Step-stopped {p} (scheduler_closes h e t) s d = absurd (ground (arith, s d))
  Step-stopped {p} (scheduler_sends w h room) s d = absurd (ground (arith, s d))
  Step-stopped {p} (worker_receives w chan before after e c) s d =
      absurd (ground (arith, s d, not_stopped p idle before after e refl))
  Step-stopped {p} (worker_ends before after e c k) s d =
      absurd (ground (arith, s d, not_stopped p idle before after e refl))
  Step-stopped {p} (worker_notifies w before after e) s d =
      absurd (ground (arith, s d, not_stopped p (notifying w) before after e refl))
  Step-stopped {p} (worker_runs w before after e) s d =
      absurd (ground (arith, s d, not_stopped p (running w) before after e refl))
  Step-stopped {p} (wait_terminates h) s d = absurd (ground arith)
  Step-stopped {p} (wait_notifies h) s d = absurd (ground arith)
  Step-stopped {p} (wait_returns h r e) s d = ground arith

  Reach-stopped :
      (routines : ℕ) (p : Pool W)
      → Reach routines p
      → is_done p.waiter ≡ true
      → has_stopped p ≡ true
  unfolding new_pool
  Reach-stopped routines p start d = absurd (ground arith)
  Reach-stopped routines p (later r step) d = Step-stopped step (Reach-stopped routines _ r) d

  stopped_all :
      (n : ℕ) (p : Pool W)
      → Reach (suc n) p
      → is_returned p.scheduler ≡ true
      → all has_ended p.workers ≡ true
      → (p.received ≡ p.queued) × (p.terminate ≡ true)
  stopped_all n p r h e =
      let v = Reach-Inv (suc n) p r in
      let (none_queued, ends) = v.stopped h in
      elim (List-cases p.workers) [
        | inl g ↦ absurd (omega (arith, Reach-length (suc n) p r, ap length g))
        | inr (x, xs, g) ↦
            let one : any has_ended p.workers ≡ true = ground arith in
            let (_, none_sent) = v.last one in
            let order = rw (returned_of p.scheduler h, none_queued, none_sent) at v.in_order in
            (sym (order ∙ append_none p.received), ends)
      ]

  -- When `Wait` has returned, in whatever order the routines of a pool with at least one worker ran and
  -- run on, the scheduler and all workers have ended, the workers have received all work that was queued,
  -- in the order of the calls of `Queue`, and no more can be queued.
  pub wait_returns_last :
      (n : ℕ) (p : Pool W)
      → Reach (suc n) p
      → p.waiter ≡ done
      → (p.scheduler ≡ returned)
        × (all has_ended p.workers ≡ true)
        × (p.received ≡ p.queued)
        × (p.terminate ≡ true)
  wait_returns_last n p r h =
      let s = Reach-stopped (suc n) p r (ap is_done h) in
      let e : all has_ended p.workers ≡ true = ground arith in
      let g : is_returned p.scheduler ≡ true = ground arith in
      let (received, ends) = stopped_all n p r g e in (returned_of p.scheduler g, e, received, ends)
