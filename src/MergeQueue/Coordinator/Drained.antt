-- ===== src/MergeQueue/Coordinator/Drained.antt =====
-- internal/mergequeue/coordinator.go: the work that waits when an empty queue is removed only touches the
-- pull requests that it was queued for.
use directorius.Prelude.{
  ℕ, zero, suc, true, false, ◌≡◌, refl, ◌∙◌, some, List, [], ◌∷◌, map, arith, ◌==◌, length,
  List-cases, inl, inr, if◌then◌else◌,
}
use directorius.OrderedMap.{lookup, first}
use directorius.MergeQueue.PullRequest.{set_state_unchanged_since_if_zero}
use directorius.MergeQueue.World.{Ref, Env, Task}
use directorius.MergeQueue.World.Others.{set_pr-other}
use directorius.MergeQueue.Queue.{State, Work, process_pr, resume_if_positive, on_pr, is_empty}
use directorius.MergeQueue.Process.{
  is_first_active, process_first, process_pr_of, resume_if_pr_merge_status_positive, run_work,
  work_next,
}
use directorius.MergeQueue.Events.Incoming.{work_ref}
use directorius.MergeQueue.Events.Fresh.{has}
use directorius.MergeQueue.Coordinator.{drain, wait}

-- The queue is empty, and no work waits for the pull request.
record IsDrained (r : Ref) (s : State) : Type 0 where
  order : s.active.order ≡ []
  suspended : s.suspended ≡ []
  pool : has r (map work_ref s.action_pool) ≡ false

process_first_none :
    (env : Env) (x : Ref) (task : Task) (s : State)
    → s.active.order ≡ []
    → process_first env x task s ≡ s
unfolding process_first is_first_active first
process_first_none env x task s h = ground arith

process_pr_of_none :
    (env : Env) (x : Ref) (task : Task) (s : State)
    → s.active.order ≡ []
    → process_pr_of env x task s
      ≡ (if s.paused then s else on_pr (set_state_unchanged_since_if_zero env.now) x s)
unfolding process_pr_of
process_pr_of_none env x task s h =
    ground (
      arith,
      process_first_none env x task (on_pr (set_state_unchanged_since_if_zero env.now) x s) h,
    )

resume_if_none :
    (env : Env) (x : Ref) (s : State)
    → s.suspended ≡ []
    → (resume_if_pr_merge_status_positive env x s).0 ≡ s
unfolding resume_if_pr_merge_status_positive lookup
resume_if_none env x s h = ground arith

module _ (r : Ref) (env : Env) where
  run_work_drained :
      (work : Work) (s : State)
      → (work_ref work == r) ≡ false
      → s.active.order ≡ []
      → s.suspended ≡ []
      → ((run_work env work s).world.prs r ≡ s.world.prs r)
        × ((run_work env work s).active.order ≡ [])
        × ((run_work env work s).suspended ≡ [])
        × ((run_work env work s).action_pool ≡ s.action_pool)
  unfolding run_work
  run_work_drained (process_pr x task) s e h k =
      let t : State = record s {
        q = record s.q { executing = some (record { pr = (s.prs x).number; canceled = false }) };
      } in
      ground (
        arith,
        process_pr_of_none env x task t h,
        set_pr-other x r e (set_state_unchanged_since_if_zero env.now) s.world,
      )
  run_work_drained (resume_if_positive x) s e h k =
      let t : State = record s {
        q = record s.q { executing = some (record { pr = (s.prs x).number; canceled = false }) };
      } in
      ground (arith, resume_if_none env x t k)

  work_next-IsDrained :
      (s : State)
      → IsDrained r s
      → IsDrained r (work_next env s) × ((work_next env s).world.prs r ≡ s.world.prs r)
  unfolding work_next
  work_next-IsDrained s h = elim (List-cases s.action_pool) [
    | inl e ↦ rw (e, work_next) (h, refl)
    | inr (work, rest, e) ↦
        let t : State = record s { q = record s.q { action_pool = rest } } in
        let pool : has r (map work_ref (work ∷ rest)) ≡ false = rw e at h.pool in
        let (same, order, suspended, left) =
          run_work_drained work t (ground arith) h.order h.suspended in
        rw (e, work_next)
          (record { order = order; suspended = suspended; pool = rw left (ground arith) }, same)
  ]

  drain_drained : (n : ℕ) (s : State) → IsDrained r s → (drain n env s).world.prs r ≡ s.world.prs r
  unfolding drain
  drain_drained zero s h = refl
  drain_drained (suc n) s h =
      let (next, same) = work_next-IsDrained s h in drain_drained n (work_next env s) next ∙ same

  pub wait_drained :
      (s : State)
      → is_empty s.q ≡ true
      → has r (map work_ref s.action_pool) ≡ false
      → (wait env s).world.prs r ≡ s.world.prs r
  unfolding wait is_empty
  wait_drained s h k = drain_drained (length s.action_pool) s (record {
    order = none_of s.active.order (ground arith);
    suspended = none_of s.suspended (ground arith);
    pool = k;
  })
    where
      none_of : {A : Type 0} (xs : List A) → (length xs == 0) ≡ true → xs ≡ []
      none_of [] g = refl
      none_of (x ∷ xs) g = absurd (ground arith)
