-- ===== src/Routines/Pool/Invariant.antt =====
-- internal/routines/pool.go: no work is lost or overtaken, and the scheduler never sleeps on work.
use directorius.Prelude.{
  ℕ, zero, suc, Bool, true, false, not, ◌||◌, ◌≡◌, refl, sym, ◌∙◌, ap, List, [], ◌∷◌, ◌++◌, arith,
  any, any-append,
}
use directorius.Routines.Pool.{
  Scheduler, receiving, sending, returned, Worker, idle, notifying, running, Waiter, terminating,
  Pool, new_pool, has_ended, is_notifying, Step, queues, scheduler_receives, scheduler_pops,
  scheduler_finds_none, scheduler_closes, scheduler_sends, worker_receives, worker_ends,
  worker_notifies, worker_runs, wait_terminates, wait_notifies, wait_returns, Reach, start, later,
  idle_workers,
}

idle-has_ended : (W : Type 0) (n : ℕ) → any (has_ended {W = W}) (idle_workers n) ≡ false
idle-has_ended W zero = refl
idle-has_ended W (suc n) = idle-has_ended W n

abbrev pub is_terminating : Waiter → Bool
is_terminating terminating = true
is_terminating _ = false

module _ {W : Type 0} where
  -- The work that the scheduler has taken from the queue and not sent.
  abbrev pub in_hand : Scheduler W → List W
  in_hand (sending w) = w ∷ []
  in_hand _ = []

  abbrev pub is_returned : Scheduler W → Bool
  is_returned returned = true
  is_returned _ = false

  abbrev pub is_receiving : Scheduler W → Bool
  is_receiving receiving = true
  is_receiving _ = false

  abbrev pub is_some : List W → Bool
  is_some [] = false
  is_some (_ ∷ _) = true

  -- The scheduler is not asleep, or something will wake it: a notification, or a routine that is
  -- about to send one.
  abbrev pub is_awake : Pool W → Bool
  is_awake p =
      p.notified
      || (not (is_receiving p.scheduler)
          || (is_some p.work_chan || (any is_notifying p.workers || is_terminating p.waiter)))

  pub record Inv (p : Pool W) : Type 0 where
    pub in_order : p.queued ≡ p.received ++ (p.work_chan ++ (in_hand p.scheduler ++ p.wq))
    pub awake :
        is_returned p.scheduler ≡ false → (is_some p.wq || p.terminate) ≡ true → is_awake p ≡ true
    pub stopped : is_returned p.scheduler ≡ true → (p.wq ≡ []) × (p.terminate ≡ true)
    pub closed : p.is_closed ≡ is_returned p.scheduler
    pub last :
        any has_ended p.workers ≡ true → (is_returned p.scheduler ≡ true) × (p.work_chan ≡ [])

  new_pool-Inv : (n : ℕ) → Inv (new_pool n)
  unfolding new_pool
  new_pool-Inv n = record {
    in_order = refl;
    awake = λ h k. ground arith;
    stopped = λ h. ground arith;
    closed = refl;
    last = λ h. ground (arith, idle-has_ended W n);
  }

  append_assoc : (xs ys zs : List W) → (xs ++ ys) ++ zs ≡ xs ++ (ys ++ zs)
  append_assoc [] ys zs = refl
  append_assoc (x ∷ xs) ys zs = ap (λ l. x ∷ l) (append_assoc xs ys zs)

  is_some-append : (xs : List W) (w : W) → is_some (xs ++ w ∷ []) ≡ true
  is_some-append [] w = refl
  is_some-append (x ∷ xs) w = refl

  append_one :
      (xs a b c d : List W) (w : W)
      → xs ≡ a ++ (b ++ (c ++ d))
      → xs ++ w ∷ [] ≡ a ++ (b ++ (c ++ (d ++ w ∷ [])))
  append_one xs a b c d w h =
      ap (λ l. l ++ w ∷ []) h
      ∙ (append_assoc a (b ++ (c ++ d)) (w ∷ [])
          ∙ ap (λ l. a ++ l)
              (append_assoc b (c ++ d) (w ∷ []) ∙ ap (λ l. b ++ l) (append_assoc c d (w ∷ []))))

  module _ (before after : List (Worker W)) where
    any_replaced :
        (f : Worker W → Bool) (x : Worker W)
        → any f (before ++ x ∷ after) ≡ (any f before || (f x || any f after))
    any_replaced f x = any-append f before (x ∷ after)

  -- Every step of the pool keeps the invariant.
  pub Step-Inv : {p q : Pool W} → Step p q → Inv p → Inv q
  Step-Inv {p} (queues w h) v = record {
    in_order = append_one p.queued p.received p.work_chan (in_hand p.scheduler) p.wq w v.in_order;
    awake = λ g k. refl;
    stopped = λ g. ground (arith, v.stopped g);
    closed = v.closed;
    last = v.last;
  }
  Step-Inv {p} (scheduler_receives h n) v = record {
    in_order = rw h at v.in_order;
    awake = λ g k. refl;
    stopped = λ g. ground arith;
    closed = rw h at v.closed;
    last = λ g. ground (arith, v.last g);
  }
  Step-Inv {p} (scheduler_pops w wq h e) v = record {
    in_order = rw (h, e) at v.in_order;
    awake = λ g k. ground arith;
    stopped = λ g. ground arith;
    closed = rw h at v.closed;
    last = λ g. ground (arith, v.last g);
  }
  Step-Inv {p} (scheduler_finds_none h e t) v = record {
    in_order = rw h at v.in_order;
    awake = λ g k. ground arith;
    stopped = λ g. ground arith;
    closed = rw h at v.closed;
    last = λ g. ground (arith, v.last g);
  }
  Step-Inv {p} (scheduler_closes h e t) v = record {
    in_order = rw h at v.in_order;
    awake = λ g k. ground arith;
    stopped = λ g. (e, t);
    closed = refl;
    last = λ g. ground (arith, v.last g);
  }
  Step-Inv {p} (scheduler_sends w h room) v = record {
    in_order =
        (rw h at v.in_order)
        ∙ ap (λ l. p.received ++ l) (sym (append_assoc p.work_chan (w ∷ []) p.wq));
    awake = λ g k. ground (arith, is_some-append p.work_chan w);
    stopped = λ g. ground arith;
    closed = rw h at v.closed;
    last = λ g. ground (arith, v.last g);
  }
  Step-Inv {p} (worker_receives w chan before after e c) v = record {
    in_order =
        (rw c at v.in_order)
        ∙ sym (append_assoc p.received (w ∷ []) (chan ++ (in_hand p.scheduler ++ p.wq)));
    awake = λ g k. ground (arith, any_replaced before after is_notifying (notifying w));
    stopped = v.stopped;
    closed = v.closed;
    last = λ g. ground (
      arith,
      any_replaced before after has_ended (notifying w),
      any_replaced before after has_ended idle,
      ap (any has_ended) e,
      v.last,
    );
  }
  Step-Inv {p} (worker_ends before after e c k) v = record {
    in_order = v.in_order;
    awake = λ g j. ground (arith, v.closed);
    stopped = v.stopped;
    closed = v.closed;
    last = λ g. ground (arith, v.closed);
  }
  Step-Inv {p} (worker_notifies w before after e) v = record {
    in_order = v.in_order;
    awake = λ g k. refl;
    stopped = v.stopped;
    closed = v.closed;
    last = λ g. ground (
      arith,
      any_replaced before after has_ended (notifying w),
      any_replaced before after has_ended (running w),
      ap (any has_ended) e,
      v.last,
    );
  }
  Step-Inv {p} (worker_runs w before after e) v = record {
    in_order = v.in_order;
    awake = λ g k. ground (
      arith,
      any_replaced before after is_notifying (running w),
      any_replaced before after is_notifying idle,
      ap (any is_notifying) e,
      v.awake,
    );
    stopped = v.stopped;
    closed = v.closed;
    last = λ g. ground (
      arith,
      any_replaced before after has_ended (running w),
      any_replaced before after has_ended idle,
      ap (any has_ended) e,
      v.last,
    );
  }
  Step-Inv {p} (wait_terminates h) v = record {
    in_order = v.in_order;
    awake = λ g k. ground arith;
    stopped = λ g. ((v.stopped g).0, refl);
    closed = v.closed;
    last = v.last;
  }
  Step-Inv {p} (wait_notifies h) v = record {
    in_order = v.in_order;
    awake = λ g k. refl;
    stopped = v.stopped;
    closed = v.closed;
    last = v.last;
  }
  Step-Inv {p} (wait_returns h s e) v = record {
    in_order = v.in_order;
    awake = λ g k. ground (arith, v.awake);
    stopped = v.stopped;
    closed = v.closed;
    last = v.last;
  }

  -- In whatever order the scheduler, the workers, `Queue` and `Wait` run: the work that was queued is
  -- what the workers have received, followed by what the channel, the scheduler and the queue hold, in
  -- the order of the calls of `Queue`; and while the queue holds work or the pool is to end, the
  -- scheduler is not asleep without anything that will wake it.
  pub Reach-Inv : (routines : ℕ) (p : Pool W) → Reach routines p → Inv p
  Reach-Inv routines p start = new_pool-Inv routines
  Reach-Inv routines p (later r step) = Step-Inv step (Reach-Inv routines _ r)
