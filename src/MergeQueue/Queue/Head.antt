-- ===== src/MergeQueue/Queue/Head.antt =====
-- internal/mergequeue/queue.go: a pull request that becomes the first active one is processed.
use directorius.Prelude.{
  ℕ, Bool, true, false, ◌≡◌, refl, Option, none, some, [], ◌∷◌, any, any-append, arith, ◌==◌,
  Option-cases, Bool-cases, ◌⊎◌, inl, inr, subst,
}
use directorius.Errors.{Result, ok, err, is_already_exists, Result-cases}
use directorius.OrderedMap.{Map, lookup, dequeue, first, insert_if_not_exist}
use directorius.OrderedMap.Laws.{insert_if_not_exist-added}
use directorius.OrderedMap.Order.{first_or, is_none, insert_if_not_exist-first}
use directorius.MergeQueue.PullRequest.{set_in_active_queue_since}
use directorius.MergeQueue.World.{Task, task_none, task_trigger_ci, Ref, Env}
use directorius.MergeQueue.Queue.{
  Queue, State, Work, process_pr, resume_if_positive, on_pr, order_refs, enqueued, enqueue_active,
  enqueue, dequeue_suspended, is_same_ref, dequeue_active, dequeue_rest, dequeue_pr, suspend_rest,
  suspend, resume_pr, schedule_process_pr, cancel_action_for_pr, resumed,
}

abbrev pub is_process : Ref → Work → Bool
is_process f (process_pr r _) = r == f
is_process f (resume_if_positive _) = false

-- Processing the pull request is scheduled.
abbrev pub is_scheduled : Ref → State → Bool
is_scheduled f s = any (is_process f) s.action_pool

-- The pull request was the first active one of the first state, or processing it is scheduled in
-- the second one.
abbrev pub IsHeadOrScheduled : Ref → State → State → Type 0
IsHeadOrScheduled f s t = (first s.active ≡ some f) ⊎ (is_scheduled f t ≡ true)

abbrev IsHeadScheduled : State → State → Type 0
IsHeadScheduled s t = (f : Ref) → first t.active ≡ some f → IsHeadOrScheduled f s t

schedule-is_scheduled :
    (r f : Ref) (task : Task) (s : State)
    → some r ≡ some f
    → is_scheduled f (schedule_process_pr r task s) ≡ true
unfolding schedule_process_pr
schedule-is_scheduled r f task s h =
    ground (arith, any-append (is_process f) s.action_pool (process_pr r task ∷ []))

enqueued-IsHeadScheduled :
    (r : Ref) (m : Map Ref) (new_first added : Bool) (s : State)
    → (added ≡ true → first m ≡ first_or r (first s.active))
    → (added ≡ true → new_first ≡ is_none (first s.active))
    → IsHeadScheduled s (enqueued r (m, new_first, added) s).0
unfolding enqueued
enqueued-IsHeadScheduled r m new_first false s p b f h = inl h
enqueued-IsHeadScheduled r m false true s p b f h =
    let p' = p refl in
    let b' = b refl in
    elim (Option-cases (first s.active)) [ inl e ↦ ground arith | inr (g, e) ↦ ground arith ]
enqueued-IsHeadScheduled r m true true s p b f h =
    let p' = p refl in
    let b' = b refl in
    let t : State = record s { q = record s.q { active = m } } in
    elim (Option-cases (first s.active)) [
      | inl e ↦ inr (schedule-is_scheduled r f task_trigger_ci t (ground arith))
      | inr (g, e) ↦ ground arith
    ]

enqueue_active-IsHeadScheduled :
    (env : Env) (r : Ref) (s : State) → IsHeadScheduled s (enqueue_active env r s).0
unfolding enqueue_active
enqueue_active-IsHeadScheduled env r s =
    let s₁ = on_pr (set_in_active_queue_since env.now) r s in
    let cmp = order_refs env s₁.world in
    let n = (s₁.prs r).number in
    let (m, new_first, added) = insert_if_not_exist cmp n r s.active in
    enqueued-IsHeadScheduled r m new_first added s₁
      (λ a. ground (
        arith,
        insert_if_not_exist-added cmp n r s.active,
        insert_if_not_exist-first cmp n r s.active,
      ))
      (λ a. ground (
        arith,
        insert_if_not_exist-added cmp n r s.active,
        insert_if_not_exist-first cmp n r s.active,
      ))

-- The new first pull request that `_dequeueActive` returns, against the first one before.
record IsNewFirst (before after new_first : Option Ref) : Type 0 where
  same : (f : Ref) → new_first ≡ none → after ≡ some f → before ≡ some f
  changed : (f : Ref) → new_first ≡ some f → after ≡ some f

is_same_ref-eq : (a b : Option Ref) → is_same_ref a b ≡ true → a ≡ b
is_same_ref-eq none none h = refl
is_same_ref-eq (some a) (some b) h = ground arith
is_same_ref-eq none (some b) h = ground arith
is_same_ref-eq (some a) none h = ground arith

dequeue_active-IsNewFirst :
    (n : ℕ) (q : Queue)
    → IsNewFirst (first q.active) (first (dequeue_active n q).0.active) (dequeue_active n q).2
unfolding dequeue_active
dequeue_active-IsNewFirst n q =
    let before = first q.active in
    let after = first (dequeue n q.active).0 in
    elim (Bool-cases (is_same_ref before after)) [
      | inl t ↦ record {
        same = λ f e h. ground (arith, is_same_ref-eq before after);
        changed = λ f e. ground arith;
      }
      | inr t ↦ record { same = λ f e h. ground arith; changed = λ f e. ground arith }
    ]

dequeue_removed :
    (n : ℕ) (q : Queue)
    → (dequeue_active n q).1 ≡ none
    → first (dequeue_active n q).0.active ≡ first q.active
unfolding dequeue_active dequeue
dequeue_removed n q h = ground arith

cancel-active : (n : ℕ) (q : Queue) → (cancel_action_for_pr n q).active ≡ q.active
unfolding cancel_action_for_pr
cancel-active n q = ground arith

module _ (env : Env) (n : ℕ) (s t : State) where
  dequeue_rest-IsHeadScheduled :
      (set_pending : Bool) (removed new_first : Option Ref)
      → (removed ≡ none → first t.active ≡ first s.active)
      → IsNewFirst (first s.active) (first t.active) new_first
      → IsHeadScheduled s (dequeue_rest env n set_pending t (removed, new_first)).0
  unfolding dequeue_rest
  dequeue_rest-IsHeadScheduled set_pending none new_first gone v f h =
      inl (ground (arith, gone refl))
  dequeue_rest-IsHeadScheduled set_pending (some r) none gone v f h =
      inl (v.same f refl (ground (arith, cancel-active n t.q)))
  dequeue_rest-IsHeadScheduled set_pending (some r) (some g) gone v f h =
      let c = v.changed g refl in
      let e : some g ≡ some f = ground (arith, cancel-active n t.q) in
      let q = cancel_action_for_pr n t.q in
      inr (ground (arith, any-append (is_process f) q.action_pool (process_pr g task_none ∷ [])))

  suspend_rest-IsHeadScheduled :
      (removed new_first : Option Ref)
      → (removed ≡ none → first t.active ≡ first s.active)
      → IsNewFirst (first s.active) (first t.active) new_first
      → IsHeadScheduled s (suspend_rest env n t (removed, new_first)).0
  unfolding suspend_rest
  suspend_rest-IsHeadScheduled none new_first gone v f h = inl (ground (arith, gone refl))
  suspend_rest-IsHeadScheduled (some r) none gone v f h =
      inl (v.same f refl (ground (arith, cancel-active n t.q)))
  suspend_rest-IsHeadScheduled (some r) (some g) gone v f h =
      let c = v.changed g refl in
      let e : some g ≡ some f = ground (arith, cancel-active n t.q) in
      let q = cancel_action_for_pr n t.q in
      inr (
        ground (arith, any-append (is_process f) q.action_pool (process_pr g task_trigger_ci ∷ [])))

-- When `Enqueue` gives the active queue a new first pull request, processing it is scheduled.
pub enqueue-IsHeadScheduled :
    (env : Env) (r : Ref) (s : State) (f : Ref)
    → first (enqueue env r s).0.active ≡ some f
    → IsHeadOrScheduled f s (enqueue env r s).0
unfolding enqueue
enqueue-IsHeadScheduled env r s = elim (Option-cases (lookup (s.prs r).number s.suspended)) [
  | inl e ↦ rw (e, enqueue) (enqueue_active-IsHeadScheduled env r s)
  | inr (g, e) ↦ rw (e, enqueue) (λ f h. inl h)
]

dequeue_suspended-active : (n : ℕ) (q : Queue) → (dequeue_suspended n q).0.active ≡ q.active
unfolding dequeue_suspended
dequeue_suspended-active n q = ground arith

-- When `Dequeue` gives the active queue a new first pull request, processing it is scheduled.
pub dequeue_pr-IsHeadScheduled :
    (env : Env) (n : ℕ) (set_pending : Bool) (s : State) (f : Ref)
    → first (dequeue_pr env n set_pending s).0.active ≡ some f
    → IsHeadOrScheduled f s (dequeue_pr env n set_pending s).0
unfolding dequeue_pr dequeue_suspended
dequeue_pr-IsHeadScheduled env n set_pending s = elim (Option-cases (lookup n s.suspended)) [
  | inl e ↦
      rw (e, dequeue_pr)
        (dequeue_rest-IsHeadScheduled env n s (record s { q = (dequeue_active n s.q).0 })
          set_pending (dequeue_active n s.q).1 (dequeue_active n s.q).2 (dequeue_removed n s.q)
          (dequeue_active-IsNewFirst n s.q))
  | inr (g, e) ↦ rw (e, dequeue_pr, dequeue_suspended-active n s.q) (λ f h. inl h)
]

-- When `suspend` gives the active queue a new first pull request, processing it is scheduled.
pub suspend-IsHeadScheduled :
    (env : Env) (n : ℕ) (s : State) (f : Ref)
    → first (suspend env n s).0.active ≡ some f
    → IsHeadOrScheduled f s (suspend env n s).0
unfolding suspend
suspend-IsHeadScheduled env n s =
    suspend_rest-IsHeadScheduled env n s (record s { q = (dequeue_active n s.q).0 })
      (dequeue_active n s.q).1 (dequeue_active n s.q).2 (dequeue_removed n s.q)
      (dequeue_active-IsNewFirst n s.q)

resumed-IsHeadScheduled :
    (s : State) (x : State × Result (Unit {0}))
    → IsHeadScheduled s x.0
    → IsHeadScheduled s (resumed x).0
resumed-IsHeadScheduled s (t, ok _) v = v
resumed-IsHeadScheduled s (t, err e) v = elim (Bool-cases (is_already_exists e)) [
  | inl h ↦ rw h v
  | inr h ↦ rw h v
]

-- When `ResumePR` gives the active queue a new first pull request, processing it is scheduled.
pub resume_pr-IsHeadScheduled :
    (env : Env) (n : ℕ) (s : State) (f : Ref)
    → first (resume_pr env n s).0.active ≡ some f
    → IsHeadOrScheduled f s (resume_pr env n s).0
unfolding resume_pr
resume_pr-IsHeadScheduled env n s = elim (Result-cases (dequeue_suspended n s.q).1) [
  | inr (x, e) ↦ rw (e, resume_pr) (λ f h. inl h)
  | inl (r, e) ↦
      let t : State = record s { q = (dequeue_suspended n s.q).0 } in
      let v : IsHeadScheduled s (enqueue env r t).0 =
        subst
          (λ m.
            (f : Ref)
            → first (enqueue env r t).0.active ≡ some f
            → (first m ≡ some f) ⊎ (is_scheduled f (enqueue env r t).0 ≡ true))
          (dequeue_suspended-active n s.q) (enqueue-IsHeadScheduled env r t) in
      rw (e, resume_pr) (resumed-IsHeadScheduled s (enqueue env r t) v)
]
