-- ===== src/MergeQueue/Queue/ResumeAll.antt =====
-- internal/mergequeue/queue.go: `ResumeAllPRs` moves the suspended pull requests to the active queue.
use directorius.Prelude.{
  ℕ, ◌≡◌, refl, ◌∙◌, none, some, List, [], ◌∷◌, arith, ◌==◌, if◌then◌else◌, Option-cases, inl, inr,
}
use directorius.OrderedMap.{lookup, get}
use directorius.OrderedMap.Laws.{insert_if_not_exist-get}
use directorius.MergeQueue.World.{Ref, Env}
use directorius.MergeQueue.Queue.{State, order_refs, resume_entries, resume_all_prs}
use directorius.MergeQueue.Queue.Place.{Place, place, active, suspended, absent}
use directorius.MergeQueue.Queue.Entries.{AreNumbered, AreNumbered-SameNumbers}
use directorius.MergeQueue.Queue.Valid.{IsValid}
use directorius.MergeQueue.Queue.Valid.Enqueue.{since, since-SameNumbers}
use directorius.MergeQueue.Queue.Valid.Resume.{
  resume_entry, number, resume_entry_absent, resume_entry_present, dequeue_suspended-lookup,
  resume_entry-SameNumbers,
}

-- What `ResumeAllPRs` does to a place.
abbrev pub resumed_place : Place → Place
resumed_place (active r) = active r
resumed_place (suspended r) = active r
resumed_place absent = absent

module _ (env : Env) where
  -- The round for one entry that stands under its number.
  resume_entry_found :
      (n : ℕ) (r : Ref) (s : State) (k : ℕ)
      → (s.prs r).number ≡ n
      → (get k (resume_entry env n r s).q.active ≡ (elim (get n s.active) [
        | none ↦ if n == k then some r else get k s.active
        | some _ ↦ get k s.active
      ]))
        × (lookup k (resume_entry env n r s).q.suspended ≡ (elim (get n s.active) [
          | none ↦ if n == k then none else lookup k s.suspended
          | some _ ↦ lookup k s.suspended
        ]))
  resume_entry_found n r s k h =
      let same : number env n r s ≡ n = (since-SameNumbers env r s).same r ∙ h in
      elim (Option-cases (get (number env n r s) s.active)) [
        | inl e ↦
            let (a, b) = resume_entry_absent env n r s e in
            let got =
              insert_if_not_exist-get (order_refs env (since env r s)) (number env n r s) r in
            ground (arith, got s.active k, dequeue_suspended-lookup env n r s k)
        | inr (x, e) ↦ let (a, b) = resume_entry_present env n r s e in ground arith
      ]

  resume_entries-place :
      (entries : List (ℕ × Ref)) (s : State) (k : ℕ)
      → AreNumbered s.world entries
      → place k (resume_entries env entries s).q ≡ (elim (lookup k entries) [
        | none ↦ place k s.q
        | some r ↦ elim (get k s.active) [ none ↦ active r | some _ ↦ place k s.q ]
      ])
  unfolding resume_entries lookup place
  resume_entries-place [] s k h = refl
  resume_entries-place ((n, r) ∷ entries) s k h =
      let t = resume_entry env n r s in
      let (a, b) = resume_entry_found n r s k h.0 in
      let later =
        resume_entries-place entries t k
          (AreNumbered-SameNumbers entries (resume_entry-SameNumbers env n r s) h.1) in
      later ∙ ground arith

  -- In a valid queue `ResumeAllPRs` moves every suspended pull request to the active queue, and
  -- leaves every active one where it is.
  pub resume_all_prs-place :
      (s : State) (k : ℕ)
      → IsValid s.world s.q
      → place k (resume_all_prs env s).q ≡ resumed_place (place k s.q)
  unfolding resume_all_prs place
  resume_all_prs-place s k v =
      resume_entries-place s.suspended s k v.entries_numbered ∙ ground (arith, v.is_apart.apart k)
