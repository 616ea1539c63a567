-- ===== src/MergeQueue/Manage/Touched.antt =====
-- internal/mergequeue/queue.go: the operations that set fields of pull requests leave the queue as it is,
-- and every pull request its number; sorting, pausing and resuming keep the queue valid.
use directorius.Prelude.{
  ℕ, zero, suc, String, false, ◌≡◌, refl, ◌∙◌, Option, none, some, List, [], ◌∷◌, arith,
  Option-cases, inl, inr, length, ◌+◌,
}
use directorius.Prelude.Int.{ℤ}
use directorius.OrderedMap.{Element, first, foreach, foreach_from, front}
use directorius.OrderedMap.Sort.{sort_by_key-get, sort_by_key-IsValid}
use directorius.MergeQueue.PullRequest.{
  PullRequest, set_state_unchanged_since, set_state_unchanged_since_if_newer,
}
use directorius.MergeQueue.World.{task_trigger_ci, Task, Ref, Env, World}
use directorius.MergeQueue.World.Numbers.{
  SameNumbers, SameNumbers-refl, SameNumbers-trans, set_pr-SameNumbers,
}
use directorius.MergeQueue.Queue.{Queue, State, on_pr, schedule_first, schedule_process_pr}
use directorius.MergeQueue.Queue.Valid.{IsValid, IsValid-SameNumbers, IsValid-same_contents}
use directorius.MergeQueue.Manage.{
  compare_keys, sort_active_queue, cancel_executing, pause, resume, get_pull_request,
  set_pull_request_priority, set_pr_stale_since_if_newer, prs_by_branch, set_stale_since,
  set_pr_stale_since_if_newer_by_branch,
}

-- The second state has the queue of the first, and the pull requests under the same numbers.
pub record Touched (s t : State) : Type 0 where
  pub numbers : SameNumbers s.world t.world
  pub queue : t.q ≡ s.q

pub Touched-refl : (s : State) → Touched s s
Touched-refl s = record { numbers = SameNumbers-refl s.world; queue = refl }

pub Touched-trans : {s t u : State} → Touched s t → Touched t u → Touched s u
Touched-trans a b = record {
  numbers = SameNumbers-trans a.numbers b.numbers;
  queue = b.queue ∙ a.queue;
}

pub on_pr-Touched :
    (f : PullRequest → PullRequest) (r : Ref) (s : State)
    → (f (s.prs r)).number ≡ (s.prs r).number
    → Touched s (on_pr f r s)
on_pr-Touched f r s h = record { numbers = set_pr-SameNumbers f r s.world h; queue = refl }

pub Touched-IsValid : {s t : State} → Touched s t → IsValid s.world s.q → IsValid t.world t.q
Touched-IsValid h v = rw h.queue (IsValid-SameNumbers h.numbers v)

if_newer-number :
    (t : ℕ) (p : PullRequest) → (set_state_unchanged_since_if_newer t p).number ≡ p.number
unfolding set_state_unchanged_since_if_newer
if_newer-number t p = ground arith

pub set_pull_request_priority-Touched :
    (n : ℕ) (priority : ℤ) (s : State) → Touched s (set_pull_request_priority n priority s).0
unfolding set_pull_request_priority
set_pull_request_priority-Touched n priority s = elim (Option-cases (get_pull_request n s.q)) [
  | inl e ↦ rw (e, set_pull_request_priority) (Touched-refl s)
  | inr (r, e) ↦
      rw (e, set_pull_request_priority)
        (on_pr-Touched (λ p. record p { priority = priority }) r s refl)
]

pub set_pr_stale_since_if_newer-Touched :
    (n t : ℕ) (s : State) → Touched s (set_pr_stale_since_if_newer n t s).0
unfolding set_pr_stale_since_if_newer
set_pr_stale_since_if_newer-Touched n t s = elim (Option-cases (get_pull_request n s.q)) [
  | inl e ↦ rw (e, set_pr_stale_since_if_newer) (Touched-refl s)
  | inr (r, e) ↦
      rw (e, set_pr_stale_since_if_newer)
        (on_pr-Touched (set_state_unchanged_since_if_newer t) r s (if_newer-number t (s.prs r)))
]

set_stale_since-Touched : (t : ℕ) (rs : List Ref) (s : State) → Touched s (set_stale_since t rs s)
unfolding set_stale_since
set_stale_since-Touched t [] s = Touched-refl s
set_stale_since-Touched t (r ∷ rs) s =
    Touched-trans
      (on_pr-Touched (set_state_unchanged_since_if_newer t) r s (if_newer-number t (s.prs r)))
      (set_stale_since-Touched t rs (on_pr (set_state_unchanged_since_if_newer t) r s))

pub by_branch-Touched :
    (branches : List String) (t : ℕ) (s : State)
    → Touched s (set_pr_stale_since_if_newer_by_branch branches t s).0
unfolding set_pr_stale_since_if_newer_by_branch
by_branch-Touched branches t s = set_stale_since-Touched t (prs_by_branch s branches).0 s

abbrev restart : Ref → State → State
restart r t = on_pr (set_state_unchanged_since 0) r t

restart_from-Touched :
    (n : ℕ) (e : Option (Element Ref)) (s : State)
    → Touched s (foreach_from (λ (t : State). t.active.order) restart n e s)
unfolding foreach_from set_state_unchanged_since
restart_from-Touched zero e s = Touched-refl s
restart_from-Touched (suc n) none s = Touched-refl s
restart_from-Touched (suc n) (some e) s =
    Touched-trans (on_pr-Touched (set_state_unchanged_since 0) e.value s refl)
      (restart_from-Touched n _ (restart e.value s))

pub schedule_first_contents :
    (task : Task) (s : State)
    → ((schedule_first task s).world ≡ s.world)
      × ((schedule_first task s).q.active ≡ s.active)
      × ((schedule_first task s).q.suspended ≡ s.suspended)
unfolding schedule_first schedule_process_pr
schedule_first_contents task s = ground arith

pub schedule_first-IsValid :
    (task : Task) (s : State)
    → IsValid s.world s.q
    → IsValid (schedule_first task s).world (schedule_first task s).q
schedule_first-IsValid task s v =
    let (w, a, b) = schedule_first_contents task s in rw w (IsValid-same_contents a b v)

-- `Resume` of a queue keeps it valid, and changes the number of no pull request.
pub resume-IsValid :
    (s : State)
    → IsValid s.world s.q
    → SameNumbers s.world (resume s).world × IsValid (resume s).world (resume s).q
unfolding resume foreach
resume-IsValid s v =
    let t =
      foreach_from (λ (t : State). t.active.order) restart (length s.active.order + 1)
        (front s.active.order) s in
    let h = restart_from-Touched (length s.active.order + 1) (front s.active.order) s in
    let u : State = record t { q = record t.q { paused = false } } in
    (
      rw (schedule_first_contents task_trigger_ci u).0 h.numbers,
      schedule_first-IsValid task_trigger_ci u
          (IsValid-same_contents refl refl (Touched-IsValid h v)),
    )

-- `Pause` keeps the queue valid.
pub pause-IsValid : (w : World) (q : Queue) → IsValid w q → IsValid w (pause q)
unfolding pause cancel_executing
pause-IsValid w q v = IsValid-same_contents (ground arith) (ground arith) v

-- `SortActiveQueue` keeps the queue valid.
pub sort_active_queue-IsValid :
    (env : Env) (s : State)
    → IsValid s.world s.q
    → IsValid (sort_active_queue env s).world (sort_active_queue env s).q
unfolding sort_active_queue
sort_active_queue-IsValid env s v = elim (Option-cases (first s.active)) [
  | inl e ↦ rw (e, sort_active_queue) v
  | inr (r, e) ↦
      let cmp = compare_keys env s (s.prs r).number in
      let got = sort_by_key-get cmp s.active in
      rw (e, sort_active_queue)
        (record {
          active_valid = sort_by_key-IsValid cmp s.active v.active_valid;
          active_numbered = λ k x h. v.active_numbered k x (rw (got k) at h);
          suspended_numbered = v.suspended_numbered;
          is_apart = record { apart = λ k. ground (arith, got k, v.is_apart.apart k) };
          entries_numbered = v.entries_numbered;
        })
]

pub sort_active_queue_world : (env : Env) (s : State) → (sort_active_queue env s).world ≡ s.world
unfolding sort_active_queue
sort_active_queue_world env s = ground arith
