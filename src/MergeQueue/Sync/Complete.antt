-- ===== src/MergeQueue/Sync/Complete.antt =====
-- internal/mergequeue/sync.go: every pull request that is to be queued is queued at the end.
use directorius.Prelude.{
  ℕ, String, Bool, true, ◌≡◌, refl, subst, ◌∙◌, none, List, [], ◌∷◌, arith, any, inl, inr, ==_refl,
}
use directorius.Errors.{ok, Result-cases}
use directorius.MergeQueue.PullRequest.{PullRequest, new_pull_request, set_assignees}
use directorius.MergeQueue.World.{Env, set_pr}
use directorius.MergeQueue.Queue.{BranchId}
use directorius.MergeQueue.Coordinator.{Coordinator, get_queue}
use directorius.MergeQueue.Coordinator.Keeps.{Keeps, Keeps-refl, Keeps-trans}
use directorius.Github.ListPrs.{Pr}
use directorius.MergeQueue.Events.{Config, new_base_branch}
use directorius.MergeQueue.Events.Incoming.{next_ref, allocate}
use directorius.MergeQueue.Events.Fresh.{allocate-AreValid}
use directorius.MergeQueue.Sync.{
  SyncItem, is_enqueue, evaluate_actions, sync_items, compare_items, sort_items,
}
use directorius.MergeQueue.Sync.Perform.{
  Syncing, Acting, perform_all, item_pr, preserves, sync_item, sync_all, initial, sync_repository,
}
use directorius.MergeQueue.Sync.Items.{
  In, here, there, is_wanted, evaluate_actions-enqueue, sync_items-In, sorted_func-In,
}
use directorius.MergeQueue.Sync.First.{IsFirst, allocate_keeps_IsFirst}
use directorius.MergeQueue.Sync.Stepped.{IsQueued}
use directorius.MergeQueue.Sync.Actions.{perform_all-Goes, perform_all_puts, perform_all_opens}

-- What a round of the loop over the items keeps.
pub record Progress (owner repo : String) (c d : Coordinator) : Type 0 where
  pub kept : Keeps owner repo c d
  pub queued : (b : BranchId) (n : ℕ) → IsQueued b n c → IsQueued b n d
  pub label : d.head_label ≡ c.head_label
  pub firsts : (b : BranchId) (n : ℕ) → IsFirst b n c → IsFirst b n d

module _ {owner repo : String} where
  Progress-refl : (c : Coordinator) → Progress owner repo c c
  Progress-refl c = record {
    kept = Keeps-refl c;
    queued = λ b n q. q;
    label = refl;
    firsts = λ b n q. q;
  }

  Progress-trans :
      {c d e : Coordinator}
      → Progress owner repo c d
      → Progress owner repo d e
      → Progress owner repo c e
  Progress-trans p q = record {
    kept = Keeps-trans p.kept q.kept;
    queued = λ b n h. q.queued b n (p.queued b n h);
    label = q.label ∙ p.label;
    firsts = λ b n h. q.firsts b n (p.firsts b n h);
  }

module _ (env : Env) (owner repo : String) where
  item_pr-number :
      (preserve : Bool) (pr : Pr) (p : PullRequest)
      → item_pr env owner repo preserve pr ≡ ok p
      → p.number ≡ pr.number
  unfolding item_pr new_pull_request set_assignees
  item_pr-number preserve pr p h = ground arith

  allocate-Progress : (p : PullRequest) (c : Coordinator) → Progress owner repo c (allocate p c)
  unfolding allocate
  allocate-Progress p c = record {
    kept = record { valid = allocate-AreValid p c; others = λ d h. refl };
    queued = λ b n h. record { queued = h.queued };
    label = refl;
    firsts = λ b n h. allocate_keeps_IsFirst p c b n h;
  }

  allocate-number :
      (p : PullRequest) (c : Coordinator)
      → ((allocate p c).world.prs (next_ref c)).number ≡ p.number
  unfolding allocate set_pr
  allocate-number p c = ground (arith, ==_refl (next_ref c))

  -- What a round leaves that ends without an error.
  pub record Done (item : SyncItem) (s t : Syncing) : Type 0 where
    pub progress : Progress owner repo s.coordinator t.coordinator
    pub enqueued :
        (b : BranchId)
        → any is_enqueue item.actions ≡ true
        → new_base_branch owner repo item.gh_pr.base_branch ≡ ok b
        → IsQueued b item.gh_pr.number t.coordinator
    pub opened :
        (b : BranchId)
        → any is_enqueue item.actions ≡ true
        → new_base_branch owner repo item.gh_pr.base_branch ≡ ok b
        → get_queue b s.coordinator.queues ≡ none
        → IsFirst b item.gh_pr.number t.coordinator
    pub apart :
        (b : BranchId)
        → ¬ (new_base_branch owner repo item.gh_pr.base_branch ≡ ok b)
        → get_queue b t.coordinator.queues ≡ get_queue b s.coordinator.queues

  pub sync_item-Done :
      (item : SyncItem) (s t : Syncing) → sync_item env owner repo item s ≡ ok t → Done item s t
  unfolding sync_item
  sync_item-Done item s t h =
      let preserve = preserves env owner repo item s in
      elim (Result-cases (item_pr env owner repo preserve item.gh_pr)) [
        | inr (x, e) ↦ absurd (ground arith)
        | inl (p, e) ↦
            let r = next_ref s.coordinator in
            let a : Acting = record {
              preserve = preserve;
              state = record s { coordinator = allocate p s.coordinator };
            } in
            let start = allocate-Progress p s.coordinator in
            let goes = perform_all-Goes env owner repo item.gh_pr r item.actions a in
            let number = allocate-number p s.coordinator ∙ item_pr-number preserve item.gh_pr p e in
            let end = (perform_all env owner repo item.gh_pr r item.actions a).state in
            let same : end ≡ t = ground arith in
            let done : Done item s end = record {
              progress = record {
                kept = Keeps-trans start.kept goes.kept;
                queued = λ b n q. goes.queued b n (start.queued b n q);
                label = goes.label ∙ start.label;
                firsts = λ b n q. goes.firsts b n (start.firsts b n q);
              };
              enqueued = λ b has base.
                  perform_all_puts env owner repo item.gh_pr r b base item.actions a has number;
              opened = λ b has base none_yet.
                  perform_all_opens env owner repo item.gh_pr r b base item.actions a has number
                    none_yet;
              apart = λ b other. goes.apart b other;
            } in
            subst (λ u. Done item s u) same done
      ]

  pub sync_all-Progress :
      (items : List SyncItem) (s : Syncing)
      → Progress owner repo s.coordinator (sync_all env owner repo items s).0.coordinator
  unfolding sync_all
  sync_all-Progress [] s = Progress-refl s.coordinator
  sync_all-Progress (item ∷ items) s = elim (Result-cases (sync_item env owner repo item s)) [
    | inr (x, e) ↦ rw (e, sync_all) (Progress-refl s.coordinator)
    | inl (t, e) ↦
        let first = (sync_item-Done item s t e).progress in
        let rest = sync_all-Progress items t in rw (e, sync_all) (Progress-trans first rest)
  ]

  sync_all_queues :
      (item : SyncItem) (items : List SyncItem) (s : Syncing) (b : BranchId)
      → In item items
      → any is_enqueue item.actions ≡ true
      → new_base_branch owner repo item.gh_pr.base_branch ≡ ok b
      → (sync_all env owner repo items s).1 ≡ none
      → IsQueued b item.gh_pr.number (sync_all env owner repo items s).0.coordinator
  unfolding sync_all
  sync_all_queues item [] s b i has base h = elim i [ ]
  sync_all_queues item (_ ∷ items) s b here has base h =
      elim (Result-cases (sync_item env owner repo item s)) [
        | inr (x, e) ↦ absurd (ground arith)
        | inl (t, e) ↦
            rw (e, sync_all)
              ((sync_all-Progress items t).queued b item.gh_pr.number
                ((sync_item-Done item s t e).enqueued b has base))
      ]
  sync_all_queues item (j ∷ items) s b (there k) has base h =
      elim (Result-cases (sync_item env owner repo j s)) [
        | inr (x, e) ↦ absurd (ground arith)
        | inl (t, e) ↦
            let end : (sync_all env owner repo items t).1 ≡ none = ground arith in
            rw (e, sync_all) (sync_all_queues item items t b k has base end)
      ]

  -- `sync` keeps the queues valid, those of the other repositories as they are, and every queued pull
  -- request, also where it ends with an error.
  pub sync_repository-Progress :
      (cfg : Config) (prs : List Pr) (c : Coordinator)
      → Progress owner repo c (sync_repository env owner repo cfg prs c).0.coordinator
  unfolding sync_repository
  sync_repository-Progress cfg prs c =
      let items = sync_items cfg c.head_label prs in
      sync_all-Progress (sort_items items) (initial prs items c)

  -- If `sync` ends without an error, every pull request that it has read, that has a trigger label or
  -- an automerge that counts, is in the queue of its base branch, if that is complete.
  pub sync_repository_queues :
      (cfg : Config) (prs : List Pr) (c : Coordinator) (pr : Pr) (b : BranchId)
      → In pr prs
      → is_wanted cfg c.head_label pr ≡ true
      → new_base_branch owner repo pr.base_branch ≡ ok b
      → (sync_repository env owner repo cfg prs c).1 ≡ none
      → IsQueued b pr.number (sync_repository env owner repo cfg prs c).0.coordinator
  unfolding sync_repository sort_items
  sync_repository_queues cfg prs c pr b i wanted base h =
      let has = evaluate_actions-enqueue cfg c.head_label pr ∙ wanted in
      let listed = sync_items-In cfg c.head_label pr prs i has in
      sync_all_queues (record { gh_pr = pr; actions = evaluate_actions cfg c.head_label pr })
        (sort_items (sync_items cfg c.head_label prs)) (initial prs _ c) b
        (sorted_func-In compare_items _ (sync_items cfg c.head_label prs) listed) has base h
