-- ===== src/MergeQueue/Sync/Items.antt =====
-- internal/mergequeue/sync.go: the items of the pull requests that are to be queued.
use Prim.Native.Nat.{Ordering}
use directorius.Prelude.{
  List-cases, String, Bool, true, false, ◌&&◌, ◌||◌, not, ◌≡◌, ◌⊎◌, refl, sym, subst, List, [], ◌∷◌,
  ◌++◌, arith, any, any-append, str_eq, if◌then◌else◌, inl, inr,
}
use directorius.Sorting.{insert_sorted, sorted_func}
use directorius.MergeQueue.Manage.{contains}
use directorius.Github.ListPrs.{Pr, Status}
use directorius.MergeQueue.Events.{Config}
use directorius.MergeQueue.Sync.{
  enqueue, is_enqueue, label_actions, status_actions, evaluate_actions, sync_items,
}

pub data In {A : Type 0} (x : A) : List A → Type 0 where
  here : {xs : List A} → In x (x ∷ xs)
  there : {y : A} {xs : List A} → In x xs → In x (y ∷ xs)

-- The pull request is to be queued: it has a trigger label, or its automerge is enabled and counts.
abbrev pub is_wanted : Config → String → Pr → Bool
is_wanted cfg head_label pr =
    any (λ l. not (str_eq l head_label) && contains cfg.trigger_labels l) pr.labels
    || (pr.auto_merge_enabled && cfg.trigger_on_automerge)

module _ (cfg : Config) (head_label : String) where
  enqueue_of_labels :
      (labels : List String)
      → any is_enqueue (label_actions cfg head_label labels)
        ≡ any (λ l. not (str_eq l head_label) && contains cfg.trigger_labels l) labels
  unfolding label_actions
  enqueue_of_labels [] = refl
  enqueue_of_labels (l ∷ labels) = ground (arith, enqueue_of_labels labels)

  enqueue_of_statuses : (statuses : List Status) → any is_enqueue (status_actions statuses) ≡ false
  unfolding status_actions
  enqueue_of_statuses [] = refl
  enqueue_of_statuses (s ∷ statuses) = ground (arith, enqueue_of_statuses statuses)

  -- `evaluateActions` decides to enqueue exactly the pull requests that are wanted.
  pub evaluate_actions-enqueue :
      (pr : Pr) → any is_enqueue (evaluate_actions cfg head_label pr) ≡ is_wanted cfg head_label pr
  unfolding evaluate_actions
  evaluate_actions-enqueue pr =
      let merging =
        if pr.auto_merge_enabled && cfg.trigger_on_automerge then enqueue ∷ [] else [] in
      let labels = label_actions cfg head_label pr.labels in
      let statuses = status_actions pr.statuses in
      ground (
        arith,
        any-append is_enqueue labels (merging ++ statuses),
        any-append is_enqueue merging statuses,
        enqueue_of_labels pr.labels,
        enqueue_of_statuses pr.statuses,
      )

  pub sync_items-In :
      (pr : Pr) (prs : List Pr)
      → In pr prs
      → any is_enqueue (evaluate_actions cfg head_label pr) ≡ true
      → In
          (record { gh_pr = pr; actions = evaluate_actions cfg head_label pr })
          (sync_items cfg head_label prs)
  unfolding sync_items
  sync_items-In pr [] i h = elim i [ ]
  sync_items-In pr (_ ∷ prs) here h = elim (List-cases (evaluate_actions cfg head_label pr)) [
    | inl e ↦ absurd (ground arith)
    | inr (a, rest, e) ↦ rw (e, sync_items) here
  ]
  sync_items-In pr (p ∷ prs) (there i) h = elim (List-cases (evaluate_actions cfg head_label p)) [
    | inl e ↦ rw (e, sync_items) (sync_items-In pr prs i h)
    | inr (a, rest, e) ↦ rw (e, sync_items) (there (sync_items-In pr prs i h))
  ]

-- `insert_sorted` puts the value before the next one or after it.
insert_sorted_cases :
    {A : Type 0} (cmp : A → A → Ordering) (x y : A) (xs : List A)
    → (insert_sorted cmp x (y ∷ xs) ≡ x ∷ y ∷ xs)
      ⊎ (insert_sorted cmp x (y ∷ xs) ≡ y ∷ insert_sorted cmp x xs)
unfolding insert_sorted
insert_sorted_cases cmp x y xs = ground arith

insert_sorted-here :
    {A : Type 0} (cmp : A → A → Ordering) (x : A) (xs : List A) → In x (insert_sorted cmp x xs)
unfolding insert_sorted
insert_sorted-here cmp x [] = here
insert_sorted-here cmp x (y ∷ xs) = elim (insert_sorted_cases cmp x y xs) [
  | inl e ↦ subst (λ zs. In x zs) (sym e) here
  | inr e ↦ subst (λ zs. In x zs) (sym e) (there (insert_sorted-here cmp x xs))
]

insert_sorted-there :
    {A : Type 0} (cmp : A → A → Ordering) (x z : A) (xs : List A)
    → In z xs
    → In z (insert_sorted cmp x xs)
insert_sorted-there cmp x z [] i = elim i [ ]
insert_sorted-there cmp x z (y ∷ xs) here = elim (insert_sorted_cases cmp x y xs) [
  | inl e ↦ subst (λ zs. In z zs) (sym e) (there here)
  | inr e ↦ subst (λ zs. In z zs) (sym e) here
]
insert_sorted-there cmp x z (y ∷ xs) (there i) = elim (insert_sorted_cases cmp x y xs) [
  | inl e ↦ subst (λ zs. In z zs) (sym e) (there (there i))
  | inr e ↦ subst (λ zs. In z zs) (sym e) (there (insert_sorted-there cmp x z xs i))
]

pub sorted_func-In :
    {A : Type 0} (cmp : A → A → Ordering) (z : A) (xs : List A)
    → In z xs
    → In z (sorted_func cmp xs)
unfolding sorted_func
sorted_func-In cmp z [] i = elim i [ ]
sorted_func-In cmp z (x ∷ xs) here = insert_sorted-here cmp x (sorted_func cmp xs)
sorted_func-In cmp z (x ∷ xs) (there i) =
    insert_sorted-there cmp x z (sorted_func cmp xs) (sorted_func-In cmp z xs i)
