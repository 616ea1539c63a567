-- ===== src/MergeQueue/Manage/Spared.antt =====
-- internal/mergequeue/queue.go: the operations that look pull requests up and set their fields change no
-- field of a pull request that the queue does not point to.
use directorius.Prelude.{
  ℕ, String, false, ◌≡◌, some, List, [], ◌∷◌, arith, ◌==◌, Option-cases, inl, inr,
}
use directorius.OrderedMap.{lookup, as_slice}
use directorius.MergeQueue.PullRequest.{set_state_unchanged_since_if_newer}
use directorius.MergeQueue.World.{Ref}
use directorius.MergeQueue.Queue.{Queue, State, on_pr}
use directorius.MergeQueue.Queue.Free.{IsFree, has-append, has-filter, lookup_free, get_free}
use directorius.MergeQueue.Queue.Spared.{IsSpared, IsSpared-refl, IsSpared-trans, on_pr-IsSpared}
use directorius.MergeQueue.Events.Incoming.{suspended_refs}
use directorius.MergeQueue.Events.Fresh.{has}
use directorius.MergeQueue.Manage.{
  get_pull_request, set_pr_stale_since_if_newer, refs_by_branch, active_prs_by_branch,
  suspended_prs_by_branch, prs_by_branch, set_stale_since, set_pr_stale_since_if_newer_by_branch,
}

module _ (r : Ref) where
  pub get_pull_request_other :
      (n : ℕ) (q : Queue) (x : Ref) → IsFree r q → get_pull_request n q ≡ some x → (x == r) ≡ false
  unfolding get_pull_request
  get_pull_request_other n q x h e = elim (Option-cases (lookup n q.suspended)) [
    | inl g ↦ get_free r n q.active x h.active (ground arith)
    | inr (y, g) ↦ ground (arith, lookup_free r (λ (z : Ref). z) n q.suspended y h.suspended g)
  ]

  pub set_pr_stale_since_if_newer-IsSpared :
      (n t : ℕ) (s : State) → IsFree r s.q → IsSpared r s (set_pr_stale_since_if_newer n t s).0
  unfolding set_pr_stale_since_if_newer
  set_pr_stale_since_if_newer-IsSpared n t s h = elim (Option-cases (get_pull_request n s.q)) [
    | inl e ↦ rw (e, set_pr_stale_since_if_newer) (IsSpared-refl r s h)
    | inr (x, e) ↦
        rw (e, set_pr_stale_since_if_newer)
          (on_pr-IsSpared r (set_state_unchanged_since_if_newer t) x s
            (get_pull_request_other n s.q x h e) h)
  ]

  set_stale_since-IsSpared :
      (t : ℕ) (xs : List Ref) (s : State)
      → has r xs ≡ false
      → IsFree r s.q
      → IsSpared r s (set_stale_since t xs s)
  unfolding set_stale_since
  set_stale_since-IsSpared t [] s k h = IsSpared-refl r s h
  set_stale_since-IsSpared t (x ∷ xs) s k h =
      let u = on_pr (set_state_unchanged_since_if_newer t) x s in
      IsSpared-trans r
        (on_pr-IsSpared r (set_state_unchanged_since_if_newer t) x s (ground arith) h)
        (set_stale_since-IsSpared t xs u (ground arith) h)

  prs_by_branch_others :
      (s : State) (branches : List String)
      → IsFree r s.q
      → has r (prs_by_branch s branches).0 ≡ false
  unfolding prs_by_branch active_prs_by_branch suspended_prs_by_branch refs_by_branch as_slice
  prs_by_branch_others s branches h =
      has-append r _ _ (has-filter r _ (suspended_refs s.q) h.suspended)
        (has-filter r _ (as_slice s.active) h.active.order)

  pub by_branch-IsSpared :
      (branches : List String) (t : ℕ) (s : State)
      → IsFree r s.q
      → IsSpared r s (set_pr_stale_since_if_newer_by_branch branches t s).0
  unfolding set_pr_stale_since_if_newer_by_branch
  by_branch-IsSpared branches t s h =
      set_stale_since-IsSpared t (prs_by_branch s branches).0 s (prs_by_branch_others s branches h)
        h
