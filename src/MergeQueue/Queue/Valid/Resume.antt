-- ===== src/MergeQueue/Queue/Valid/Resume.antt =====
-- internal/mergequeue/queue.go: `ResumeAllPRs` keeps a queue valid.
use directorius.Prelude.{
  ℕ, ◌≡◌, none, some, List, [], ◌∷◌, arith, ◌==◌, if◌then◌else◌, Option-cases, inl, inr,
}
use directorius.Errors.{ok, err}
use directorius.OrderedMap.{lookup, get}
use directorius.OrderedMap.Find.{lookup-delete}
use directorius.OrderedMap.Laws
use directorius.MergeQueue.World.{Ref, Env}
use directorius.MergeQueue.World.Numbers.{SameNumbers, SameNumbers-refl, SameNumbers-trans}
use directorius.MergeQueue.Queue.{
  State, order_refs, enqueued, enqueue_active, dequeue_suspended, resume_entries, resume_all_prs,
}
use directorius.MergeQueue.Queue.Entries.{AreNumbered, AreNumbered-SameNumbers, AreNumbered-delete}
use directorius.MergeQueue.Queue.Valid.{IsValid, IsValid-SameNumbers, IsValid-same_contents}
use directorius.MergeQueue.Queue.Valid.Enqueue.{since, inserted, since-SameNumbers}

module _ (env : Env) where
  -- The round of `ResumeAllPRs` for one entry.
  abbrev pub resume_entry : ℕ → Ref → State → State
  resume_entry n r s =
      let (s₁, result) = enqueue_active env r s in
      elim result [ err e ↦ s₁ | ok _ ↦ record s₁ { q = (dequeue_suspended n s₁.q).0 } ]

  module _ (n : ℕ) (r : Ref) (s : State) where
    pub resume_entry_world : (resume_entry n r s).world ≡ since env r s
    unfolding enqueue_active enqueued
    resume_entry_world = ground arith

    pub resume_entry-SameNumbers : SameNumbers s.world (resume_entry n r s).world
    resume_entry-SameNumbers = rw resume_entry_world (since-SameNumbers env r s)

    abbrev pub number : ℕ
    number = ((since env r s).prs r).number

    pub resume_entry_absent :
        get number s.active ≡ none
        → ((resume_entry n r s).q.active ≡ inserted env r s)
          × ((resume_entry n r s).q.suspended ≡ (dequeue_suspended n s.q).0.suspended)
    unfolding enqueue_active enqueued dequeue_suspended
    resume_entry_absent h =
        ground
          (arith, Laws.insert_if_not_exist-added (order_refs env (since env r s)) number r s.active)

    pub resume_entry_present :
        {x : Ref}
        → get number s.active ≡ some x
        → ((resume_entry n r s).q.active ≡ s.active)
          × ((resume_entry n r s).q.suspended ≡ s.suspended)
    unfolding enqueue_active enqueued
    resume_entry_present h =
        ground
          (arith, Laws.insert_if_not_exist-added (order_refs env (since env r s)) number r s.active)

    pub dequeue_suspended-lookup :
        (k : ℕ)
        → lookup k (dequeue_suspended n s.q).0.suspended
          ≡ (if n == k then none else lookup k s.suspended)
    unfolding dequeue_suspended
    dequeue_suspended-lookup k = ground (arith, lookup-delete n k s.suspended)

    dequeue_suspended-AreNumbered :
        AreNumbered s.world s.suspended → AreNumbered s.world (dequeue_suspended n s.q).0.suspended
    unfolding dequeue_suspended
    dequeue_suspended-AreNumbered h = elim (Option-cases (lookup n s.suspended)) [
      | inl e ↦ rw (e, dequeue_suspended) h
      | inr (x, e) ↦ rw (e, dequeue_suspended) (AreNumbered-delete s.world n s.suspended h)
    ]

    -- The round keeps the queue valid if the pull request stands under its number.
    pub resume_entry-IsValid :
        (s.prs r).number ≡ n
        → IsValid s.world s.q
        → IsValid (resume_entry n r s).world (resume_entry n r s).q
    resume_entry-IsValid h v =
        let same = since-SameNumbers env r s in
        let cmp = order_refs env (since env r s) in
        elim (Option-cases (get number s.active)) [
          | inr (x, e) ↦
              let (a, b) = resume_entry_present e in
              rw resume_entry_world (IsValid-same_contents a b (IsValid-SameNumbers same v))
          | inl e ↦
              let (a, b) = resume_entry_absent e in
              let got = Laws.insert_if_not_exist-get cmp number r s.active in
              let left = dequeue_suspended-lookup in
              rw resume_entry_world (record {
                active_valid =
                    rw a (Laws.insert_if_not_exist-IsValid cmp number r s.active v.active_valid);
                active_numbered =
                    λ k r' f. ground (arith, a, got k, same.same r', v.active_numbered k r');
                suspended_numbered =
                    λ k r' f. ground (arith, b, left k, same.same r', v.suspended_numbered k r');
                is_apart = record {
                  apart = λ k. ground (arith, a, b, got k, left k, same.same r, v.is_apart.apart k);
                };
                entries_numbered = rw b (
                    AreNumbered-SameNumbers _ same
                      (dequeue_suspended-AreNumbered v.entries_numbered));
              })
        ]

  resume_entries-SameNumbers :
      (entries : List (ℕ × Ref)) (s : State)
      → SameNumbers s.world (resume_entries env entries s).world
  unfolding resume_entries
  resume_entries-SameNumbers [] s = SameNumbers-refl s.world
  resume_entries-SameNumbers ((n, r) ∷ entries) s =
      SameNumbers-trans (resume_entry-SameNumbers n r s)
        (resume_entries-SameNumbers entries (resume_entry n r s))

  resume_entries-IsValid :
      (entries : List (ℕ × Ref)) (s : State)
      → AreNumbered s.world entries
      → IsValid s.world s.q
      → IsValid (resume_entries env entries s).world (resume_entries env entries s).q
  unfolding resume_entries
  resume_entries-IsValid [] s h v = v
  resume_entries-IsValid ((n, r) ∷ entries) s h v =
      resume_entries-IsValid entries (resume_entry n r s)
        (AreNumbered-SameNumbers entries (resume_entry-SameNumbers n r s) h.1)
        (resume_entry-IsValid n r s h.0 v)

  -- `ResumeAllPRs` changes the number of no pull request.
  pub resume_all_prs-SameNumbers : (s : State) → SameNumbers s.world (resume_all_prs env s).world
  unfolding resume_all_prs
  resume_all_prs-SameNumbers s = resume_entries-SameNumbers s.suspended s

  -- `ResumeAllPRs` keeps the queue valid.
  pub resume_all_prs-IsValid :
      (s : State)
      → IsValid s.world s.q
      → IsValid (resume_all_prs env s).world (resume_all_prs env s).q
  unfolding resume_all_prs
  resume_all_prs-IsValid s v = resume_entries-IsValid s.suspended s v.entries_numbered v
