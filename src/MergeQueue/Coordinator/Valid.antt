-- ===== src/MergeQueue/Coordinator/Valid.antt =====
-- internal/mergequeue/coordinator.go: the operations keep every queue valid.
use directorius.Prelude.{
  ℕ, zero, suc, String, Bool, true, not, ◌≡◌, refl, subst, some, List, [], ◌∷◌, arith, length,
  if_keeps, Option-cases, Bool-cases, inl, inr,
}
use directorius.Errors.{Result, ok, err}
use directorius.OrderedMap.{lookup, get, new}
use directorius.OrderedMap.Laws
use directorius.Github.Pages.{ReadyForMergeStatus}
use directorius.MergeQueue.World.{Ref, Env, World}
use directorius.MergeQueue.World.Numbers.{SameNumbers, SameNumbers-refl, SameNumbers-trans}
use directorius.MergeQueue.Queue.{
  BranchId, Queue, State, Work, process_pr, resume_if_positive, new_queue, is_empty, enqueue,
  dequeue_pr, resume_pr,
}
use directorius.MergeQueue.Queue.Valid.{IsValid, IsValid-SameNumbers, IsValid-same_contents}
use directorius.MergeQueue.Queue.Valid.Dequeue.{dequeue_pr-IsValid, dequeue_pr-SameNumbers}
use directorius.MergeQueue.Queue.Valid.Enqueue.{
  enqueue-IsValid, enqueue-SameNumbers, resume_pr-SameNumbers,
}
use directorius.MergeQueue.ProcessPr.{pr_ready_for_merge_status}
use directorius.MergeQueue.Eval.{is_approved}
use directorius.MergeQueue.Process.{
  is_positive, resume_outcome, resume_if_ready, resume_if_pr_merge_status_positive, run_work,
  work_next,
}
use directorius.MergeQueue.Process.Calls.{ready_status-prs}
use directorius.MergeQueue.Process.Valid.{IsValidState, prs-SameNumbers, run_work-IsValid}
use directorius.MergeQueue.Process.Places.{process_pr-SameNumbers}
use directorius.MergeQueue.Coordinator.{
  Coordinator, is_branch, get_queue, delete_queue, state_of, store, queue_or_new, enqueue_in, drain,
  wait, remove_if_empty, dequeue_from, enqueue_moved, change_base_branch,
}
use directorius.MergeQueue.Coordinator.Find.{get_queue-put_queue, get_queue-delete_queue}

module _ (env : Env) where
  outcome-SameNumbers :
      {w : World} (x : State × Result (Unit {0}))
      → SameNumbers w x.0.world
      → SameNumbers w (resume_outcome x).0.world
  outcome-SameNumbers (t, ok _) same = same
  outcome-SameNumbers (t, err e) same = same

  resume_if_ready-SameNumbers :
      (r : Ref) (s : State) (x : Result ReadyForMergeStatus)
      → SameNumbers s.world (resume_if_ready env r s x).0.world
  unfolding resume_if_ready
  resume_if_ready-SameNumbers r s (err e) = SameNumbers-refl s.world
  resume_if_ready-SameNumbers r s (ok status) =
      let P = λ (x : State × Result (Unit {0})). SameNumbers s.world x.0.world in
      let n = (s.prs r).number in
      let stays = SameNumbers-refl s.world in
      if_keeps P (not (is_approved status.review_decision)) stays (
        if_keeps P (is_positive status.ci_status)
          (outcome-SameNumbers (resume_pr env n s) (resume_pr-SameNumbers env n s)) stays)

  resume_if_positive-SameNumbers :
      (r : Ref) (s : State)
      → SameNumbers s.world (resume_if_pr_merge_status_positive env r s).0.world
  unfolding resume_if_pr_merge_status_positive
  resume_if_positive-SameNumbers r s = elim (Option-cases (lookup (s.prs r).number s.suspended)) [
    | inl e ↦ rw (e, resume_if_pr_merge_status_positive) (SameNumbers-refl s.world)
    | inr (x, e) ↦
        let (w, ready) = pr_ready_for_merge_status env r s.world in
        rw (e, resume_if_pr_merge_status_positive)
          (SameNumbers-trans (prs-SameNumbers (ready_status-prs env r s.world))
            (resume_if_ready-SameNumbers r (record s { world = w }) ready))
  ]

  run_work-SameNumbers :
      (work : Work) (s : State) → IsValidState s → SameNumbers s.world (run_work env work s).world
  unfolding run_work
  run_work-SameNumbers (process_pr r task) s v =
      process_pr-SameNumbers env r task _ (IsValid-same_contents refl refl v)
  run_work-SameNumbers (resume_if_positive r) s v = resume_if_positive-SameNumbers r _

  -- The numbers of the pull requests and the validity of the queue, through a run of the worker.
  pub record StaysValid (w : World) (s : State) : Type 0 where
    pub numbers : SameNumbers w s.world
    pub valid : IsValidState s

  pub pool-StaysValid :
      {w : World} (pool : List Work) (s : State)
      → s.action_pool ≡ pool
      → StaysValid w s
      → StaysValid w (work_next env s)
  unfolding work_next
  pool-StaysValid [] s e v = rw (e, work_next) v
  pool-StaysValid (work ∷ rest) s e v =
      let t : State = record s { q = record s.q { action_pool = rest } } in
      let u : IsValidState t = IsValid-same_contents refl refl v.valid in
      rw (e, work_next)
        (record {
          numbers = SameNumbers-trans v.numbers (run_work-SameNumbers work t u);
          valid = run_work-IsValid env work t u;
        })

  drain-StaysValid : {w : World} (n : ℕ) (s : State) → StaysValid w s → StaysValid w (drain n env s)
  unfolding drain
  drain-StaysValid zero s v = v
  drain-StaysValid (suc n) s v =
      drain-StaysValid n (work_next env s) (pool-StaysValid s.action_pool s refl v)

  pub wait-SameNumbers : (s : State) → IsValidState s → SameNumbers s.world (wait env s).world
  unfolding wait
  wait-SameNumbers s v =
      (drain-StaysValid (length s.action_pool) s
        (record { numbers = SameNumbers-refl s.world; valid = v })).numbers

-- Every queue is valid.
pub record AreValid (c : Coordinator) : Type 0 where
  pub valid : (b : BranchId) (q : Queue) → get_queue b c.queues ≡ some q → IsValid c.world q

new_queue-IsValid : (w : World) (b : BranchId) (label : String) → IsValid w (new_queue b label)
unfolding new_queue lookup get
new_queue-IsValid w b label = record {
  active_valid = Laws.new-IsValid;
  active_numbered = λ k r e. cc;
  suspended_numbered = λ k r e. cc;
  is_apart = record { apart = λ n. inl refl };
  entries_numbered = tt;
}

pub store-AreValid :
    (b : BranchId) (s : State) (c : Coordinator)
    → AreValid c
    → SameNumbers c.world s.world
    → IsValidState s
    → AreValid (store b s c)
store-AreValid b s c v same u = record {
  valid = λ d q e. elim (Bool-cases (is_branch b d)) [
    | inl h ↦
        let f : s.q ≡ q = ground (arith, get_queue-put_queue b d s.q c.queues) in
        subst (λ p. IsValid s.world p) f u
    | inr h ↦
        IsValid-SameNumbers same
          (v.valid d q (ground (arith, get_queue-put_queue b d s.q c.queues)))
  ];
}

pub delete-AreValid :
    (b : BranchId) (w : World) (c : Coordinator)
    → AreValid c
    → SameNumbers c.world w
    → AreValid (record c { world = w; queues = delete_queue b c.queues })
delete-AreValid b w c v same = record {
  valid = λ d q e.
      IsValid-SameNumbers same (v.valid d q (ground (arith, get_queue-delete_queue b d c.queues)));
}

module _ (env : Env) (b : BranchId) where
  queue_or_new-IsValid : (c : Coordinator) → AreValid c → IsValid c.world (queue_or_new b c)
  queue_or_new-IsValid c v = elim (Option-cases (get_queue b c.queues)) [
    | inl e ↦ rw (e, queue_or_new) (new_queue-IsValid c.world b c.head_label)
    | inr (q, e) ↦ rw (e, queue_or_new) (v.valid b q e)
  ]

  -- `Enqueue` keeps every queue valid.
  pub enqueue_in-AreValid :
      (r : Ref) (c : Coordinator) → AreValid c → AreValid (enqueue_in env b r c).0
  unfolding enqueue_in
  enqueue_in-AreValid r c v =
      let s = state_of c (queue_or_new b c) in
      store-AreValid b (enqueue env r s).0 c v (enqueue-SameNumbers env r s)
        (enqueue-IsValid env r s (queue_or_new-IsValid c v))

  remove_if_empty-AreValid :
      (s : State) (c : Coordinator)
      → AreValid c
      → SameNumbers c.world s.world
      → IsValidState s
      → AreValid (remove_if_empty env b s c)
  unfolding remove_if_empty
  remove_if_empty-AreValid s c v same u =
      if_keeps AreValid (is_empty s.q)
        (delete-AreValid b (wait env s).world c v
          (SameNumbers-trans same (wait-SameNumbers env s u)))
        (store-AreValid b s c v same u)

  -- `Dequeue` keeps every queue valid.
  pub dequeue_from-AreValid :
      (n : ℕ) (set_pending : Bool) (c : Coordinator)
      → AreValid c
      → AreValid (dequeue_from env b n set_pending c).0
  unfolding dequeue_from
  dequeue_from-AreValid n set_pending c v = elim (Option-cases (get_queue b c.queues)) [
    | inl e ↦ rw (e, dequeue_from) v
    | inr (q, e) ↦
        let s = state_of c q in
        rw (e, dequeue_from)
          (remove_if_empty-AreValid (dequeue_pr env n set_pending s).0 c v
            (dequeue_pr-SameNumbers env n set_pending s)
            (dequeue_pr-IsValid env n set_pending s (v.valid b q e)))
  ]

  remove_if_empty-SameNumbers :
      (w : World) (s : State) (c : Coordinator)
      → SameNumbers w s.world
      → IsValidState s
      → SameNumbers w (remove_if_empty env b s c).world
  unfolding remove_if_empty
  remove_if_empty-SameNumbers w s c same u =
      if_keeps (λ (d : Coordinator). SameNumbers w d.world) (is_empty s.q)
        (SameNumbers-trans same (wait-SameNumbers env s u)) same

  -- `Dequeue` changes the number of no pull request.
  pub dequeue_from-SameNumbers :
      (n : ℕ) (set_pending : Bool) (c : Coordinator)
      → AreValid c
      → SameNumbers c.world (dequeue_from env b n set_pending c).0.world
  unfolding dequeue_from
  dequeue_from-SameNumbers n set_pending c v = elim (Option-cases (get_queue b c.queues)) [
    | inl e ↦ rw (e, dequeue_from) (SameNumbers-refl c.world)
    | inr (q, e) ↦
        let s = state_of c q in
        rw (e, dequeue_from)
          (remove_if_empty-SameNumbers c.world (dequeue_pr env n set_pending s).0 c
            (dequeue_pr-SameNumbers env n set_pending s)
            (dequeue_pr-IsValid env n set_pending s (v.valid b q e)))
  ]

  enqueue_moved-AreValid :
      (x : Coordinator × Result Ref) → AreValid x.0 → AreValid (enqueue_moved env b x).0
  unfolding enqueue_moved
  enqueue_moved-AreValid (c, err e) v = v
  enqueue_moved-AreValid (c, ok r) v = enqueue_in-AreValid r c v

-- `ChangeBaseBranch` keeps every queue valid.
pub change_base_branch-AreValid :
    (env : Env) (old new : BranchId) (n : ℕ) (c : Coordinator)
    → AreValid c
    → AreValid (change_base_branch env old new n c).0
unfolding change_base_branch
change_base_branch-AreValid env old new n c v =
    enqueue_moved-AreValid env new (dequeue_from env old n true c)
      (dequeue_from-AreValid env old n true c v)
