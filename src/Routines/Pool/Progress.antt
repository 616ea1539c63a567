-- ===== src/Routines/Pool/Progress.antt =====
-- internal/routines/pool.go: the pool can always go on with its work.
-- it was run.
use directorius.Prelude.{
  List-cases, ℕ, zero, suc, ◌<◌, true, false, ◌||◌, ◌≡◌, refl, sym, ◌∙◌, ap, List, [], ◌∷◌, ◌++◌,
  arith, any, length, length-append, ltb, Bool-cases, inl, inr,
}
use directorius.Routines.Pool.{
  Scheduler, receiving, locking, sending, returned, Worker, idle, ended, notifying, running,
  terminating, Waiter, not_called, waiting, done, Pool, new_pool, idle_workers, has_ended,
  is_notifying, Step, queues, scheduler_receives, scheduler_pops, scheduler_finds_none,
  scheduler_closes, scheduler_sends, worker_receives, worker_ends, worker_notifies, worker_runs,
  wait_terminates, wait_notifies, wait_returns, Reach, start, later,
}
use directorius.Routines.Pool.Invariant.{
  is_returned, is_terminating, is_some, is_awake, Inv, Reach-Inv,
}

length-idle_workers : (W : Type 0) (n : ℕ) → length (idle_workers {W = W} n) ≡ n
length-idle_workers W zero = refl
length-idle_workers W (suc n) = ap suc (length-idle_workers W n)

terminating_of : (x : Waiter) → is_terminating x ≡ true → x ≡ terminating
terminating_of terminating h = refl
terminating_of not_called h = absurd (ground arith)
terminating_of waiting h = absurd (ground arith)
terminating_of done h = absurd (ground arith)

module _ {W : Type 0} where
  replaced-length :
      (before after : List (Worker W)) (x y : Worker W)
      → length (before ++ x ∷ after) ≡ length (before ++ y ∷ after)
  replaced-length before after x y =
      omega (arith, length-append before (x ∷ after), length-append before (y ∷ after))

  Step-length : {p q : Pool W} → Step p q → length q.workers ≡ length p.workers
  Step-length (queues w h) = refl
  Step-length (scheduler_receives h n) = refl
  Step-length (scheduler_pops w wq h e) = refl
  Step-length (scheduler_finds_none h e t) = refl
  Step-length (scheduler_closes h e t) = refl
  Step-length (scheduler_sends w h room) = refl
  Step-length (worker_receives w chan before after e c) =
      replaced-length before after (notifying w) idle ∙ sym (ap length e)
  Step-length (worker_ends before after e c k) =
      replaced-length before after ended idle ∙ sym (ap length e)
  Step-length (worker_notifies w before after e) =
      replaced-length before after (running w) (notifying w) ∙ sym (ap length e)
  Step-length (worker_runs w before after e) =
      replaced-length before after idle (running w) ∙ sym (ap length e)
  Step-length (wait_terminates h) = refl
  Step-length (wait_notifies h) = refl
  Step-length (wait_returns h s e) = refl

  pub Reach-length : (routines : ℕ) (p : Pool W) → Reach routines p → length p.workers ≡ routines
  unfolding new_pool
  Reach-length routines p start = length-idle_workers W routines
  Reach-length routines p (later r step) = Step-length step ∙ Reach-length routines _ r

  -- A step that neither `Queue` nor the call of `Wait` makes.
  abbrev pub Goes : Pool W → Type 0
  Goes p = (q : Pool W) × Step p q × (q.queued ≡ p.queued) × (q.terminate ≡ p.terminate)

  -- While there is work in the channel, the first worker can go on.
  worker-Goes :
      (p : Pool W) (w : W) (chan : List W) (x : Worker W) (xs : List (Worker W))
      → Inv p
      → is_returned p.scheduler ≡ false
      → p.work_chan ≡ w ∷ chan
      → p.workers ≡ x ∷ xs
      → Goes p
  worker-Goes p w chan idle xs v h c e = (_, worker_receives w chan [] xs e c, refl, refl)
  worker-Goes p w chan (notifying y) xs v h c e = (_, worker_notifies y [] xs e, refl, refl)
  worker-Goes p w chan (running y) xs v h c e = (_, worker_runs y [] xs e, refl, refl)
  worker-Goes p w chan ended xs v h c e = absurd (ground (arith, v.last (ap (any has_ended) e)))

  find_notifying :
      (workers : List (Worker W))
      → any is_notifying workers ≡ true
      → (w : W) × (before : List (Worker W)) × (after : List (Worker W)) × (workers
          ≡ before ++ notifying w ∷ after)
  find_notifying [] h = absurd (ground arith)
  find_notifying (notifying w ∷ workers) h = (w, [], workers, refl)
  find_notifying (idle ∷ workers) h =
      let (w, before, after, e) = find_notifying workers h in
      (w, idle ∷ before, after, ap (λ l. idle ∷ l) e)
  find_notifying (ended ∷ workers) h =
      let (w, before, after, e) = find_notifying workers h in
      (w, ended ∷ before, after, ap (λ l. ended ∷ l) e)
  find_notifying (running y ∷ workers) h =
      let (w, before, after, e) = find_notifying workers h in
      (w, running y ∷ before, after, ap (λ l. running y ∷ l) e)

  chan-Goes :
      (p : Pool W)
      → Inv p
      → 0 < length p.workers
      → is_returned p.scheduler ≡ false
      → is_some p.work_chan ≡ true
      → Goes p
  chan-Goes p v few h c = elim (List-cases p.work_chan) [
    | inl e ↦ absurd (ground arith)
    | inr (w, chan, e) ↦ elim (List-cases p.workers) [
      | inl g ↦ absurd (ground arith)
      | inr (x, xs, g) ↦ worker-Goes p w chan x xs v h e g
    ]
  ]

  receiving-Goes :
      (p : Pool W)
      → Inv p
      → 0 < length p.workers
      → p.scheduler ≡ receiving
      → is_awake p ≡ true
      → Goes p
  receiving-Goes p v few h awake = elim (Bool-cases p.notified) [
    | inl n ↦ (_, scheduler_receives h n, refl, refl)
    | inr n ↦ elim (Bool-cases (is_some p.work_chan)) [
      | inl c ↦ chan-Goes p v few (ground arith) c
      | inr c ↦ elim (Bool-cases (any is_notifying p.workers)) [
        | inl a ↦
            let (w, before, after, e) = find_notifying p.workers a in
            (_, worker_notifies w before after e, refl, refl)
        | inr a ↦
            let t : is_terminating p.waiter ≡ true = ground arith in
            (_, wait_notifies (terminating_of p.waiter t), refl, refl)
      ]
    ]
  ]

  locking-Goes : (p : Pool W) → p.scheduler ≡ locking → Goes p
  locking-Goes p h = elim (List-cases p.wq) [
    | inr (w, wq, e) ↦ (_, scheduler_pops w wq h e, refl, refl)
    | inl e ↦ elim (Bool-cases p.terminate) [
      | inl t ↦ (_, scheduler_closes h e t, refl, refl)
      | inr t ↦ (_, scheduler_finds_none h e t, refl, refl)
    ]
  ]

  sending-Goes :
      (p : Pool W) (w : W) → Inv p → 0 < length p.workers → p.scheduler ≡ sending w → Goes p
  sending-Goes p w v few h = elim (Bool-cases (ltb (length p.work_chan) (length p.workers))) [
    | inl l ↦ (_, scheduler_sends w h (ground arith), refl, refl)
    | inr l ↦ elim (List-cases p.work_chan) [
      | inl e ↦ absurd (ground arith)
      | inr (x, chan, e) ↦ chan-Goes p v few (ground arith) (ground arith)
    ]
  ]

  scheduler-Goes :
      (p : Pool W) (s : Scheduler W)
      → Inv p
      → 0 < length p.workers
      → p.scheduler ≡ s
      → is_returned p.scheduler ≡ false
      → (is_some p.wq || p.terminate) ≡ true
      → Goes p
  scheduler-Goes p receiving v few e h k = receiving-Goes p v few e (v.awake h k)
  scheduler-Goes p locking v few e h k = locking-Goes p e
  scheduler-Goes p (sending w) v few e h k = sending-Goes p w v few e
  scheduler-Goes p returned v few e h k = absurd (ground arith)

  -- A pool with at least one routine never blocks on work: while its queue holds work, or it was told
  -- to end and its scheduler has not, the scheduler, a worker or the call of `Wait` can take a step,
  -- in whatever order they ran before.
  pub Reach-Goes :
      (n : ℕ) (p : Pool W)
      → Reach (suc n) p
      → is_returned p.scheduler ≡ false
      → (is_some p.wq || p.terminate) ≡ true
      → Goes p
  Reach-Goes n p r h k =
      let few : 0 < length p.workers = omega (arith, Reach-length (suc n) p r) in
      scheduler-Goes p p.scheduler (Reach-Inv (suc n) p r) few refl h k
