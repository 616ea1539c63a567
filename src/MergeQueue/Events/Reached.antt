-- ===== src/MergeQueue/Events/Reached.antt =====
-- internal/mergequeue/coordinator.go: what the coordinator does, in any order, that is the synchronisation,
-- the events, the periodic trigger, the workers of the routine pools and the requests of the HTTP service.
use directorius.Prelude.{
  ℕ, String, Option, ◌≡◌, refl, some, subst, str_eq, List, [], ◌∷◌, map, arith, ltb, if◌then◌else◌,
  if_keeps, Option-cases, inl, inr,
}
use directorius.Prelude.Int.{ℤ}
use directorius.MergeQueue.World.{Env, World, task_none}
use directorius.MergeQueue.World.Numbers.{SameNumbers, SameNumbers-refl}
use directorius.MergeQueue.Queue.{BranchId, Queue, State, is_empty, schedule_first}
use directorius.MergeQueue.Manage.{pause, resume, set_pull_request_priority, sort_active_queue}
use directorius.MergeQueue.Manage.Touched.{
  Touched, Touched-refl, Touched-trans, Touched-IsValid, set_pull_request_priority-Touched,
  schedule_first_contents, schedule_first-IsValid, resume-IsValid, pause-IsValid,
  sort_active_queue-IsValid, sort_active_queue_world,
}
use directorius.MergeQueue.Process.{work_next}
use directorius.MergeQueue.Process.Valid.{IsValidState}
use directorius.MergeQueue.Coordinator.{Coordinator, get_queue, state_of, store, wait}
use directorius.MergeQueue.Coordinator.Valid.{
  AreValid, store-AreValid, delete-AreValid, wait-SameNumbers, pool-StaysValid,
}
use directorius.MergeQueue.Coordinator.Repository.{
  set_priorities, set_pull_request_priorities, pause_queue, resume_queue,
}
use directorius.Errors.{Err, Result, ok, err, Result-cases}
use directorius.MergeQueue.HttpService.{
  Form, Reply, form_get, form_to_branch_id, form_to_priority_updates, known,
  handler_priority_update, handler_suspend_resume,
}
use directorius.MergeQueue.Sync.Init.{Source, init_sync}
use directorius.MergeQueue.Sync.Init.Laws.{Ended, failed, done, init_sync-Ended}
use directorius.MergeQueue.Events.{Config, Event}
use directorius.MergeQueue.Events.Kept.{process_event-Kept}
use directorius.MergeQueue.Events.Dispatch.{
  Input, received, channel_closed, ticked, shut_down, process_event, periodic_run, periodic_runs,
  periodic_trigger, event_loop, stop_queues, stop_coordinator,
}

-- A step of the program, with what GitHub and Jenkins answer in it.
pub data Step (cfg : Config) (c : Coordinator) : Coordinator → Type 0 where
  event : (env : Env) (ev : Event) → Step cfg c (process_event cfg env ev c)
  trigger : (env : Env) → Step cfg c (periodic_trigger env c)
  -- a worker of the queue of a branch
  work :
      (env : Env) (b : BranchId) (q : Queue)
      → get_queue b c.queues ≡ some q
      → Step cfg c (store b (work_next env (state_of c q)) c)
  suspend_resume : (form : Result Form) → Step cfg c (handler_suspend_resume form c).0
  priority_update :
      (env : Env) (form : Result Form) → Step cfg c (handler_priority_update env form c).0
  stopped : Step cfg c (stop_coordinator c)
  -- `InitSync`, whatever it returns
  synchronized :
      (env : Env) (source : String → String → Source) (d : Coordinator) (e : Option Err)
      → init_sync env cfg source c ≡ some (d, e)
      → Step cfg c d

-- What is reached from a coordinator that has no queue.
pub data Reach (cfg : Config) : Coordinator → Type 0 where
  start :
      (w : World) (head_label : String)
      → Reach cfg (record { world = w; queues = []; head_label = head_label })
  later : {c d : Coordinator} → Reach cfg c → Step cfg c d → Reach cfg d

no_queues-AreValid :
    (w : World) (head_label : String)
    → AreValid (record { world = w; queues = []; head_label = head_label })
unfolding get_queue
no_queues-AreValid w head_label = record { valid = λ b q e. ground arith }

set_priorities-Touched :
    (updates : List (ℕ × ℤ)) (s : State) → Touched s (set_priorities updates s).0
unfolding set_priorities
set_priorities-Touched [] s = Touched-refl s
set_priorities-Touched ((n, priority) ∷ updates) s =
    Touched-trans (set_pull_request_priority-Touched n priority s)
      (set_priorities-Touched updates (set_pull_request_priority n priority s).0)

-- The queue and the worlds before and after an operation.
abbrev IsKept : World → State → Type 0
IsKept w s = SameNumbers w s.world × IsValidState s

module _ (b : BranchId) (c : Coordinator) (v : AreValid c) where
  stored : (s : State) → IsKept c.world s → AreValid (store b s c)
  stored s h = store-AreValid b s c v h.0 h.1

  pause_queue-AreValid : AreValid (pause_queue b c)
  unfolding pause_queue
  pause_queue-AreValid = elim (Option-cases (get_queue b c.queues)) [
    | inl e ↦ rw (e, pause_queue) v
    | inr (q, e) ↦
        rw (e, pause_queue)
          (stored (state_of c (pause q))
            (SameNumbers-refl c.world, pause-IsValid c.world q (v.valid b q e)))
  ]

  resume_queue-AreValid : AreValid (resume_queue b c)
  unfolding resume_queue
  resume_queue-AreValid = elim (Option-cases (get_queue b c.queues)) [
    | inl e ↦ rw (e, resume_queue) v
    | inr (q, e) ↦
        rw (e, resume_queue)
          (stored (resume (state_of c q)) (resume-IsValid (state_of c q) (v.valid b q e)))
  ]

  priorities-AreValid :
      (env : Env) (updates : List (ℕ × ℤ)) → AreValid (set_pull_request_priorities env b updates c)
  unfolding set_pull_request_priorities
  priorities-AreValid env updates = elim (Option-cases (get_queue b c.queues)) [
    | inl e ↦ rw (e, set_pull_request_priorities) v
    | inr (q, e) ↦
        let (s, changes) = set_priorities updates (state_of c q) in
        let h = set_priorities-Touched updates (state_of c q) in
        let u = Touched-IsValid h (v.valid b q e) in
        rw (e, set_pull_request_priorities)
          (stored (if ltb 0 changes then sort_active_queue env s else s) (
            if_keeps (IsKept c.world) (ltb 0 changes)
              (rw (sort_active_queue_world env s) h.numbers, sort_active_queue-IsValid env s u)
              (h.numbers, u)))
  ]

  work-AreValid :
      (env : Env) (q : Queue)
      → get_queue b c.queues ≡ some q
      → AreValid (store b (work_next env (state_of c q)) c)
  work-AreValid env q e =
      let s = state_of c q in
      let kept =
        pool-StaysValid env s.action_pool s refl
          (record { numbers = SameNumbers-refl c.world; valid = v.valid b q e }) in
      stored (work_next env s) (kept.numbers, kept.valid)

  periodic_run-AreValid : (env : Env) → AreValid (periodic_run env b c)
  unfolding periodic_run
  periodic_run-AreValid env = elim (Option-cases (get_queue b c.queues)) [
    | inl e ↦ rw (e, periodic_run) v
    | inr (q, e) ↦
        let s = state_of c q in
        let u = v.valid b q e in
        let (w, _, _) = schedule_first_contents task_none s in
        let same : SameNumbers c.world (schedule_first task_none s).world =
          rw w (SameNumbers-refl c.world) in
        rw (e, periodic_run)
          (if_keeps AreValid (is_empty q)
            (delete-AreValid b (wait env s).world c v (wait-SameNumbers env s u))
            (stored (schedule_first task_none s) (same, schedule_first-IsValid task_none s u)))
  ]

periodic_runs-AreValid :
    (env : Env) (branches : List BranchId) (c : Coordinator)
    → AreValid c
    → AreValid (periodic_runs env branches c)
unfolding periodic_runs
periodic_runs-AreValid env [] c v = v
periodic_runs-AreValid env (b ∷ branches) c v =
    periodic_runs-AreValid env branches (periodic_run env b c) (periodic_run-AreValid b c v env)

periodic_trigger-AreValid :
    (env : Env) (c : Coordinator) → AreValid c → AreValid (periodic_trigger env c)
unfolding periodic_trigger
periodic_trigger-AreValid env c = periodic_runs-AreValid env (map (λ e. e.0) c.queues) c

suspend_resume-AreValid :
    (form : Result Form) (c : Coordinator) → AreValid c → AreValid (handler_suspend_resume form c).0
unfolding handler_suspend_resume
suspend_resume-AreValid (err e) c v = v
suspend_resume-AreValid (ok form) c v = elim (Result-cases (form_to_branch_id form)) [
  | inr (e, f) ↦ rw (f, handler_suspend_resume) v
  | inl (b, f) ↦
      let action = form_get form "action" in
      let Valid : Coordinator × Reply → Type 0 = λ x. AreValid x.0 in
      rw (f, handler_suspend_resume)
        (if_keeps Valid (str_eq action "resume") (resume_queue-AreValid b c v) (
          if_keeps Valid (str_eq action "pause") (pause_queue-AreValid b c v)
            (if_keeps Valid (str_eq action "") v v)))
]

priority_update-AreValid :
    (env : Env) (form : Result Form) (c : Coordinator)
    → AreValid c
    → AreValid (handler_priority_update env form c).0
unfolding handler_priority_update
priority_update-AreValid env (err e) c v = v
priority_update-AreValid env (ok form) c v = elim (Result-cases (form_to_priority_updates form)) [
  | inr (e, f) ↦ rw (f, handler_priority_update) v
  | inl (u, f) ↦
      rw (f, handler_priority_update) (priorities-AreValid u.branch_id c v env (known u.updates))
]

ended-AreValid :
    (env : Env) (cfg : Config) (source : String → String → Source) (c : Coordinator)
    {repositories : List (String × String)} {x : Option (Coordinator × Option Err)}
    (d : Coordinator) (e : Option Err)
    → Ended env cfg source repositories c x
    → x ≡ some (d, e)
    → AreValid c
    → AreValid d
ended-AreValid env cfg source c d e (failed d' e' s) h v =
    subst AreValid (ground (arith, h)) (s.valid v)
ended-AreValid env cfg source c d e (done d' s all) h v =
    subst AreValid (ground (arith, h)) (s.valid v)

Step-AreValid : {cfg : Config} {c d : Coordinator} → Step cfg c d → AreValid c → AreValid d
unfolding stop_coordinator
Step-AreValid {cfg} {c} (event env ev) v = (process_event-Kept cfg env ev c).keeps.valid v
Step-AreValid {cfg} {c} (trigger env) v = periodic_trigger-AreValid env c v
Step-AreValid {cfg} {c} (work env b q e) v = work-AreValid b c v env q e
Step-AreValid {cfg} {c} (suspend_resume form) v = suspend_resume-AreValid form c v
Step-AreValid {cfg} {c} (priority_update env form) v = priority_update-AreValid env form c v
Step-AreValid {cfg} {c} stopped v = no_queues-AreValid (stop_queues c.world c.queues) c.head_label
Step-AreValid {cfg} {c} (synchronized env source d e h) v =
    ended-AreValid env cfg source c d e (init_sync-Ended env cfg source c) h v

-- Whatever synchronisations, events, periodic runs, requests of the HTTP service and work of the pools a
-- coordinator without queues goes through, and whatever GitHub and Jenkins answer, all its queues are valid: the
-- list and the map of the active pull requests agree, each pull request stands under its number, and
-- none is both active and suspended.
pub Reach-AreValid : (cfg : Config) (c : Coordinator) → Reach cfg c → AreValid c
Reach-AreValid cfg c (start w head_label) = no_queues-AreValid w head_label
Reach-AreValid cfg c (later r step) = Step-AreValid step (Reach-AreValid cfg _ r)

-- The event loop keeps every queue valid, whatever it receives.
pub event_loop-AreValid :
    (cfg : Config) (inputs : List (Env × Input)) (c : Coordinator)
    → AreValid c
    → AreValid (event_loop cfg inputs c).0
unfolding event_loop
event_loop-AreValid cfg [] c v = v
event_loop-AreValid cfg ((env, received ev) ∷ inputs) c v =
    event_loop-AreValid cfg inputs (process_event cfg env ev c)
      ((process_event-Kept cfg env ev c).keeps.valid v)
event_loop-AreValid cfg ((env, ticked) ∷ inputs) c v =
    event_loop-AreValid cfg inputs (periodic_trigger env c) (periodic_trigger-AreValid env c v)
event_loop-AreValid cfg ((env, channel_closed) ∷ inputs) c v = v
event_loop-AreValid cfg ((env, shut_down) ∷ inputs) c v = v
