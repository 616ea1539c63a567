-- ===== src/MergeQueue/Events/Kept/Checks.antt =====
-- internal/mergequeue/coordinator.go: the events on pushes, reviews, check runs and commit statuses keep
-- the queues valid, and the queues of the other repositories as they are.
use directorius.Prelude.{
  String, Bool, true, ◌∙◌, ◌||◌, ◌≡◌, some, List, [], ◌∷◌, str_eq, if◌then◌else◌, Option-cases, inl,
  inr, length, ◌==◌,
}
use directorius.Errors.{Result-cases}
use directorius.MergeQueue.World.{task_none, task_trigger_ci, Env}
use directorius.MergeQueue.World.Numbers.{SameNumbers, SameNumbers-trans, SameNumbers-refl}
use directorius.MergeQueue.Queue.{BranchId, Queue, resume_all_prs, schedule_first}
use directorius.MergeQueue.Queue.Valid.Resume.{resume_all_prs-SameNumbers, resume_all_prs-IsValid}
use directorius.MergeQueue.Manage.Touched.{schedule_first_contents, schedule_first-IsValid}
use directorius.MergeQueue.Coordinator.{
  Coordinator, get_queue, state_of, store, set_pr_stale_since_in, is_repository, pr_number,
  pr_branch,
}
use directorius.MergeQueue.Coordinator.Repository.{resume_if_status_positive}
use directorius.MergeQueue.Coordinator.Kept.{
  Kept, Kept-refl, Kept-trans, if_Kept, store-Kept, IsForeign-IsFree,
}
use directorius.MergeQueue.Queue.Spared.{schedule_first-IsSpared, resume_all_prs-IsSpared}
use directorius.MergeQueue.Coordinator.Kept.Branch.{
  set_pr_stale_since_in-Kept, trigger_process_pr_if_first-Kept,
}
use directorius.MergeQueue.Coordinator.Kept.Repository.{
  trigger_all_queues-Kept, resume_if_status_positive-Kept, set_pr_stale_since_by_branch_in-Kept,
}
use directorius.MergeQueue.Events.{
  ReviewEvent, CheckRunPr, CheckRunEvent, StatusEvent, new_base_branch, branch_ref_to_ref,
}
use directorius.MergeQueue.Events.Checks.{
  process_push_event, review_negative, process_pull_request_review_event, pr_branches, touch_prs,
  trigger_branches, is_negative_conclusion, is_positive_conclusion, process_check_run_event,
  process_status_event,
}
use directorius.MergeQueue.Events.Kept.Requests.{base-Kept, new_base_branch-repository}

module _ (env : Env) (owner repo : String) where
  push_queue-Kept :
      (b : BranchId) (q : Queue) (c : Coordinator)
      → is_repository owner repo b ≡ true
      → get_queue b c.queues ≡ some q
      → Kept owner repo c
          (store b (resume_all_prs env (schedule_first task_trigger_ci (state_of c q))) c)
  push_queue-Kept b q c here e =
      let s = schedule_first task_trigger_ci (state_of c q) in
      let (w, _, _) = schedule_first_contents task_trigger_ci (state_of c q) in
      let start : SameNumbers c.world s.world = rw w (SameNumbers-refl c.world) in
      store-Kept b (resume_all_prs env s) c here
        (λ v. (
          SameNumbers-trans start (resume_all_prs-SameNumbers env s),
          resume_all_prs-IsValid env s
              (schedule_first-IsValid task_trigger_ci (state_of c q) (v.valid b q e)),
        ))
        λ r f.
          let one =
            schedule_first-IsSpared r task_trigger_ci (state_of c q)
              (IsForeign-IsFree f b q here e) in
          let all = resume_all_prs-IsSpared r env s one.free in (all.free, all.fields ∙ one.fields)

  pub process_push_event-Kept :
      (ref : String) (c : Coordinator) → Kept owner repo c (process_push_event env owner repo ref c)
  unfolding process_push_event
  process_push_event-Kept ref c =
      elim (Result-cases (new_base_branch owner repo (branch_ref_to_ref ref))) [
        | inr (x, e) ↦ rw (e, process_push_event) (Kept-refl c)
        | inl (b, e) ↦ elim (Option-cases (get_queue b c.queues)) [
          | inl f ↦ rw (e, f, process_push_event) (Kept-refl c)
          | inr (q, f) ↦
              rw (e, f, process_push_event)
                (push_queue-Kept b q c (new_base_branch-repository owner repo _ b e) f)
        ]
      ]

  review_negative-Kept :
      (ev : ReviewEvent) (c : Coordinator) → Kept owner repo c (review_negative env owner repo ev c)
  unfolding review_negative
  review_negative-Kept ev c =
      base-Kept env owner repo ev.base_ref _ c
        λ b here. trigger_process_pr_if_first-Kept b here (pr_number ev.number) task_none c

  pub review-Kept :
      (ev : ReviewEvent) (c : Coordinator)
      → Kept owner repo c (process_pull_request_review_event env owner repo ev c)
  unfolding process_pull_request_review_event
  review-Kept ev c =
      let negative = review_negative-Kept ev c in
      if_Kept (str_eq ev.review_state "approved")
        (if_Kept (str_eq ev.action "submitted")
          (resume_if_status_positive-Kept owner repo (ev.head_ref ∷ []) c)
          (if_Kept (str_eq ev.action "dismissed") negative (Kept-refl c)))
        (if_Kept (str_eq ev.review_state "changes_requested") negative (Kept-refl c))

  touch_prs-Kept :
      (prs : List CheckRunPr) (c : Coordinator) → Kept owner repo c (touch_prs env owner repo prs c)
  unfolding touch_prs
  touch_prs-Kept [] c = Kept-refl c
  touch_prs-Kept (p ∷ prs) c =
      Kept-trans
        (base-Kept env owner repo p.base_ref (λ b. (set_pr_stale_since_in b p.number env.now c).0) c
          λ b here. set_pr_stale_since_in-Kept b here p.number env.now c)
        (touch_prs-Kept prs _)

  trigger_branches-Kept :
      (branches : List String) (c : Coordinator)
      → Kept owner repo c (trigger_branches env owner repo branches c)
  unfolding trigger_branches
  trigger_branches-Kept [] c = Kept-refl c
  trigger_branches-Kept (b ∷ branches) c =
      Kept-trans (trigger_all_queues-Kept owner repo (pr_branch b) c)
        (trigger_branches-Kept branches _)

  -- The end of the handlers of check runs and commit statuses.
  checked-Kept :
      (branches : List String) (negative positive : Bool) (c d : Coordinator)
      → Kept owner repo c d
      → Kept owner repo c (
          if negative
          then trigger_branches env owner repo branches d
          else if positive
          then resume_if_status_positive owner repo branches d
          else d)
  checked-Kept branches negative positive c d h =
      if_Kept negative (Kept-trans h (trigger_branches-Kept branches d))
        (if_Kept positive (Kept-trans h (resume_if_status_positive-Kept owner repo branches d)) h)

  pub check_run-Kept :
      (ev : CheckRunEvent) (c : Coordinator)
      → Kept owner repo c (process_check_run_event env owner repo ev c)
  unfolding process_check_run_event
  check_run-Kept ev c = if_Kept (length (pr_branches ev.pull_requests) == 0) (Kept-refl c) (
      checked-Kept (pr_branches ev.pull_requests) (is_negative_conclusion ev.conclusion)
        (is_positive_conclusion ev.conclusion) c _ (touch_prs-Kept ev.pull_requests c))

  pub status-Kept :
      (ev : StatusEvent) (c : Coordinator)
      → Kept owner repo c (process_status_event env owner repo ev c)
  unfolding process_status_event
  status-Kept ev c = if_Kept (length ev.branches == 0) (Kept-refl c) (
      checked-Kept ev.branches (str_eq ev.state "error" || str_eq ev.state "failure")
        (str_eq ev.state "pending" || str_eq ev.state "success") c _
        (set_pr_stale_since_by_branch_in-Kept owner repo ev.branches ev.updated_at c))
