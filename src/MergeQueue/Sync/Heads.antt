-- ===== src/MergeQueue/Sync/Heads.antt =====
-- internal/mergequeue/sync.go: queued heads come first, so that the pull request that has the head label
-- is placed at the head of its queue.
use directorius.Prelude.{
  String, true, false, not, ◌≡◌, refl, ◌∙◌, ap, subst, sym, none, List, [], ◌∷◌, ◌++◌, arith, any,
  filter, Bool-cases, inl, inr,
}
use directorius.Errors.{ok, Result-cases}
use directorius.Sorting.{insert_sorted, sorted_func}
use directorius.MergeQueue.World.{Env}
use directorius.MergeQueue.Queue.{BranchId}
use directorius.MergeQueue.Coordinator.{Coordinator, get_queue}
use directorius.Github.ListPrs.{Pr}
use directorius.MergeQueue.Events.{Config, new_base_branch}
use directorius.MergeQueue.Sync.{
  SyncItem, is_enqueue, is_queued_head, compare_items, sort_items, sync_items,
}
use directorius.MergeQueue.Sync.Perform.{Syncing, sync_item, sync_all, initial, sync_repository}
use directorius.MergeQueue.Sync.First.{IsFirst}
use directorius.MergeQueue.Sync.Complete.{sync_item-Done, sync_all-Progress}

abbrev pub heads : List SyncItem → List SyncItem
heads items = filter is_queued_head items

abbrev pub others : List SyncItem → List SyncItem
others items = filter (λ i. not (is_queued_head i)) items

insert_head :
    (x : SyncItem) (items : List SyncItem)
    → is_queued_head x ≡ true
    → insert_sorted compare_items x items ≡ x ∷ items
unfolding insert_sorted compare_items
insert_head x [] h = refl
insert_head x (y ∷ items) h = ground arith

insert_other :
    (x : SyncItem) (items rest : List SyncItem)
    → is_queued_head x ≡ false
    → insert_sorted compare_items x (heads items ++ others rest)
      ≡ heads items ++ insert_sorted compare_items x (others rest)
unfolding insert_sorted compare_items
insert_other x [] rest h = refl
insert_other x (y ∷ items) rest h = ground (arith, insert_other x items rest)

insert_last :
    (x : SyncItem) (rest : List SyncItem)
    → is_queued_head x ≡ false
    → insert_sorted compare_items x (others rest) ≡ x ∷ others rest
unfolding insert_sorted compare_items
insert_last x [] h = refl
insert_last x (y ∷ rest) h = elim (Bool-cases (is_queued_head y)) [
  | inl t ↦ rw t (insert_last x rest h)
  | inr f ↦ rw f (ground arith)
]

-- `slices.SortStableFunc` puts the queued heads before the other items, and keeps the order within
-- both.
pub sort_items-heads_first :
    (items : List SyncItem) → sort_items items ≡ heads items ++ others items
unfolding sort_items sorted_func
sort_items-heads_first [] = refl
sort_items-heads_first (x ∷ items) =
    let before = ap (insert_sorted compare_items x) (sort_items-heads_first items) in
    elim (Bool-cases (is_queued_head x)) [
      | inl t ↦ before ∙ (insert_head x (heads items ++ others items) t ∙ rw t refl)
      | inr f ↦
          before
          ∙ (insert_other x items items f
              ∙ (ap (λ xs. heads items ++ xs) (insert_last x items f) ∙ rw f refl))
    ]

module _ (owner repo : String) (b : BranchId) where
  -- None of the items is one of the base branch.
  abbrev pub AreElsewhere : List SyncItem → Type 0
  AreElsewhere [] = Unit
  AreElsewhere (x ∷ items) =
      (¬ (new_base_branch owner repo x.gh_pr.base_branch ≡ ok b)) × AreElsewhere items

module _ (env : Env) (owner repo : String) (b : BranchId) (item : SyncItem) (later : List SyncItem)
    (has : any is_enqueue item.actions ≡ true)
    (base : new_base_branch owner repo item.gh_pr.base_branch ≡ ok b) where
  sync_all_opens :
      (before : List SyncItem) (s : Syncing)
      → AreElsewhere owner repo b before
      → get_queue b s.coordinator.queues ≡ none
      → (sync_all env owner repo (before ++ item ∷ later) s).1 ≡ none
      → IsFirst b item.gh_pr.number
          (sync_all env owner repo (before ++ item ∷ later) s).0.coordinator
  unfolding sync_all
  sync_all_opens [] s apart absent h = elim (Result-cases (sync_item env owner repo item s)) [
    | inr (x, e) ↦ absurd (ground arith)
    | inl (t, e) ↦
        let placed = (sync_item-Done env owner repo item s t e).opened b has base absent in
        rw (e, sync_all)
          ((sync_all-Progress env owner repo later t).firsts b item.gh_pr.number placed)
  ]
  sync_all_opens (x ∷ before) s apart absent h =
      elim (Result-cases (sync_item env owner repo x s)) [
        | inr (y, e) ↦ absurd (ground arith)
        | inl (t, e) ↦
            let same = (sync_item-Done env owner repo x s t e).apart b apart.0 in
            let end : (sync_all env owner repo (before ++ item ∷ later) t).1 ≡ none =
              ground arith in
            rw (e, sync_all) (sync_all_opens before t apart.1 (same ∙ absent) end)
      ]

append_assoc :
    (xs : List SyncItem) (y : SyncItem) (ys zs : List SyncItem)
    → (xs ++ y ∷ ys) ++ zs ≡ xs ++ y ∷ (ys ++ zs)
append_assoc [] y ys zs = refl
append_assoc (x ∷ xs) y ys zs = ap (λ l. x ∷ l) (append_assoc xs y ys zs)

-- If the base branch has no queue and `sync` ends without an error, the first of the read pull
-- requests of the branch that has the head label and is to be queued is the first of the active queue
-- at the end, wherever it stands among the others.
pub sync_repository_head :
    (env : Env) (owner repo : String) (cfg : Config) (prs : List Pr) (c : Coordinator)
    (b : BranchId) (item : SyncItem) (before later : List SyncItem)
    → heads (sync_items cfg c.head_label prs) ≡ before ++ item ∷ later
    → is_queued_head item ≡ true
    → AreElsewhere owner repo b before
    → new_base_branch owner repo item.gh_pr.base_branch ≡ ok b
    → get_queue b c.queues ≡ none
    → (sync_repository env owner repo cfg prs c).1 ≡ none
    → IsFirst b item.gh_pr.number (sync_repository env owner repo cfg prs c).0.coordinator
unfolding sync_repository is_queued_head
sync_repository_head env owner repo cfg prs c b item before later listed head apart base absent h =
    let items = sync_items cfg c.head_label prs in
    let s = initial prs items c in
    let has : any is_enqueue item.actions ≡ true = ground arith in
    let order : sort_items items ≡ before ++ item ∷ (later ++ others items) =
      sort_items-heads_first items
      ∙ (ap (λ xs. xs ++ others items) listed ∙ append_assoc before item later (others items)) in
    let end = subst (λ xs. (sync_all env owner repo xs s).1 ≡ none) order h in
    let first =
      sync_all_opens env owner repo b item (later ++ others items) has base before s apart absent
        end in
    subst (λ xs. IsFirst b item.gh_pr.number (sync_all env owner repo xs s).0.coordinator)
      (sym order) first
