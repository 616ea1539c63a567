-- ===== src/MergeQueue/Coordinator/Kept/Repository.antt =====
-- internal/mergequeue/coordinator.go: what the operations on the queues of a repository keep.
use directorius.Prelude.{
  String, false, ◌≡◌, refl, some, List, [], ◌∷◌, map, arith, ◌++◌, ◌∙◌, if◌then◌else◌, Bool-cases,
  inl, inr, ℕ, filter,
}
use directorius.Errors.{is_not_found, Result-cases}
use directorius.MergeQueue.World.{task_none, World, Ref}
use directorius.MergeQueue.World.Numbers.{SameNumbers, SameNumbers-refl, SameNumbers-trans}
use directorius.MergeQueue.Queue.{BranchId, Queue, State, Work, resume_if_positive}
use directorius.MergeQueue.Queue.Valid.{IsValid-same_contents}
use directorius.MergeQueue.Manage.{
  set_pr_stale_since_if_newer_by_branch, contains, suspended_prs_by_branch, refs_by_branch,
}
use directorius.MergeQueue.Manage.Touched.{by_branch-Touched}
use directorius.MergeQueue.Coordinator.{
  Coordinator, is_branch, get_queue, PrSpecifier, trigger_if_first, trigger_all,
  trigger_process_pr_if_first_all_queues, is_repository,
}
use directorius.MergeQueue.Coordinator.Find.{is_branch-eq}
use directorius.MergeQueue.Coordinator.Repository.{
  stale_since_by_branch, set_pr_stale_since_by_branch_in, schedule_if_positive,
  resume_if_status_positive, set_from,
}
use directorius.MergeQueue.Coordinator.Kept.{Kept, AreFree, world-Kept}
use directorius.MergeQueue.Coordinator.Kept.Branch.{
  trigger_if_first_contents, trigger_if_first-IsSpared,
}
use directorius.MergeQueue.Queue.Free.{IsFree, has-filter}
use directorius.MergeQueue.Manage.Spared.{by_branch-IsSpared}
use directorius.MergeQueue.Events.Incoming.{work_ref, suspended_refs}
use directorius.MergeQueue.Events.Fresh.{has}

-- The queues of the second list point to nothing new, and have the contents of those of the first, and those of the other
-- repositories are the same.
record SameContents (owner repo : String) (qs qs' : List (BranchId × Queue)) : Type 0 where
  same :
      (b : BranchId) (q' : Queue)
      → get_queue b qs' ≡ some q'
      → (q : Queue) × (get_queue b qs ≡ some q)
        × (q'.active ≡ q.active)
        × (q'.suspended ≡ q.suspended)
  others : (d : BranchId) → is_repository owner repo d ≡ false → get_queue d qs' ≡ get_queue d qs
  free : (r : Ref) → AreFree owner repo r qs → AreFree owner repo r qs'

module _ (owner repo : String) where
  SameContents-refl : (qs : List (BranchId × Queue)) → SameContents owner repo qs qs
  SameContents-refl qs = record {
    same = λ b q h. (q, h, refl, refl);
    others = λ d h. refl;
    free = λ r f. f;
  }

  SameContents-cons :
      (b : BranchId) (q q' : Queue) (qs qs' : List (BranchId × Queue))
      → q'.active ≡ q.active
      → q'.suspended ≡ q.suspended
      → ((r : Ref) → IsFree r q → IsFree r q')
      → (is_repository owner repo b ≡ false → q' ≡ q)
      → SameContents owner repo qs qs'
      → SameContents owner repo ((b, q) ∷ qs) ((b, q') ∷ qs')
  unfolding get_queue AreFree
  SameContents-cons b q q' qs qs' ha hs free apart h = record {
    same = λ d x e. elim (Bool-cases (is_branch b d)) [
      | inl t ↦
          let f : q' ≡ x = ground arith in rw (t, get_queue) (q, refl, ground arith, ground arith)
      | inr t ↦ rw (t, get_queue) (h.same d x (ground arith))
    ];
    others = λ d k. elim (Bool-cases (is_branch b d)) [
      | inl t ↦
          let f : is_repository owner repo b ≡ false = rw (is_branch-eq b d t) k in
          rw (t, apart f, get_queue) refl
      | inr t ↦ rw (t, get_queue) (h.others d k)
    ];
    free = λ r f. ((λ here. free r (f.0 here)), h.free r f.1);
  }

  SameContents-Kept :
      (qs : List (BranchId × Queue)) (c : Coordinator)
      → SameContents owner repo c.queues qs
      → Kept owner repo c (record c { queues = qs })
  SameContents-Kept qs c h = record {
    keeps = record {
      valid = λ v. record {
        valid =
            λ b q' e. let (q, f, a, s) = h.same b q' e in IsValid-same_contents a s (v.valid b q f);
      };
      others = h.others;
    };
    spares = λ r held f. record { foreign = record { free = h.free r f.free }; fields = refl };
  }

  trigger_all-SameContents :
      (spec : PrSpecifier) (w : World) (qs : List (BranchId × Queue))
      → SameContents owner repo qs (trigger_all owner repo spec w qs).0
  unfolding trigger_all
  trigger_all-SameContents spec w [] = SameContents-refl []
  trigger_all-SameContents spec w ((b, q) ∷ qs) =
      let s : State = record { world = w; q = q } in
      let (t, result) = trigger_if_first spec task_none s in
      let (_, a, e) = trigger_if_first_contents spec task_none s in
      let later = trigger_all-SameContents spec w qs in
      elim (Bool-cases (is_repository owner repo b)) [
        | inr f ↦
            rw (f, trigger_all)
              (SameContents-cons b q q qs _ refl refl (λ r h. h) (λ _. refl) later)
        | inl f ↦
            let apart : is_repository owner repo b ≡ false → t.q ≡ q = λ g. ground arith in
            let free =
              λ (r : Ref) (h : IsFree r q). (trigger_if_first-IsSpared r spec task_none s h).free in
            let all = SameContents-cons b q t.q qs _ a e free apart later in
            let one = SameContents-cons b q t.q qs qs a e free apart (SameContents-refl qs) in
            elim (Result-cases result) [
              | inl (r, g) ↦ rw (f, g, trigger_all) one
              | inr (x, g) ↦ elim (Bool-cases (is_not_found x)) [
                | inl k ↦ rw (f, g, k, trigger_all) all
                | inr k ↦ rw (f, g, k, trigger_all) one
              ]
            ]
      ]

  pub trigger_all_queues-Kept :
      (spec : PrSpecifier) (c : Coordinator)
      → Kept owner repo c (trigger_process_pr_if_first_all_queues owner repo spec c).0
  unfolding trigger_process_pr_if_first_all_queues
  trigger_all_queues-Kept spec c =
      SameContents-Kept _ c (trigger_all-SameContents spec c.world c.queues)

  schedule_if_positive-IsFree :
      (r : Ref) (names : List String) (w : World) (q : Queue)
      → IsFree r q
      → IsFree r (schedule_if_positive names w q)
  unfolding schedule_if_positive suspended_prs_by_branch refs_by_branch
  schedule_if_positive-IsFree r names w q h = record {
    active = h.active;
    suspended = h.suspended;
    pool =
        pool_append q.action_pool
          (filter (λ x. contains (set_from names) (w.prs x).branch) (suspended_refs q)) h.pool
          (has-filter r _ (suspended_refs q) h.suspended);
  }
    where
      pool_append :
          (works : List Work) (xs : List Ref)
          → has r (map work_ref works) ≡ false
          → has r xs ≡ false
          → has r (map work_ref (works ++ map resume_if_positive xs)) ≡ false
      pool_append [] [] k l = refl
      pool_append [] (x ∷ xs) k l = ground (arith, pool_append [] xs)
      pool_append (w ∷ works) xs k l = ground (arith, pool_append works xs)

  abbrev resume_positive : List String → World → BranchId × Queue → BranchId × Queue
  resume_positive names w e =
      if is_repository owner repo e.0 then (e.0, schedule_if_positive names w e.1) else e

  resume_positive-SameContents :
      (names : List String) (w : World) (qs : List (BranchId × Queue))
      → SameContents owner repo qs (map (resume_positive names w) qs)
  unfolding schedule_if_positive
  resume_positive-SameContents names w [] = SameContents-refl []
  resume_positive-SameContents names w ((b, q) ∷ qs) =
      let later = resume_positive-SameContents names w qs in
      elim (Bool-cases (is_repository owner repo b)) [
        | inl f ↦ rw f (
            SameContents-cons b q _ qs _ refl refl
              (λ r h. schedule_if_positive-IsFree r names w q h) (λ g. ground arith) later)
        | inr f ↦ rw f (SameContents-cons b q q qs _ refl refl (λ r h. h) (λ g. refl) later)
      ]

  pub resume_if_status_positive-Kept :
      (names : List String) (c : Coordinator)
      → Kept owner repo c (resume_if_status_positive owner repo names c)
  unfolding resume_if_status_positive
  resume_if_status_positive-Kept names c =
      SameContents-Kept _ c (resume_positive-SameContents names c.world c.queues)

  stale-SameNumbers :
      (names : List String) (t : ℕ) (w : World) (qs : List (BranchId × Queue))
      (missing : List String)
      → SameNumbers w (stale_since_by_branch owner repo names t w qs missing).0
  unfolding stale_since_by_branch
  stale-SameNumbers names t w [] missing = SameNumbers-refl w
  stale-SameNumbers names t w ((b, q) ∷ qs) missing =
      let s : State = record { world = w; q = q } in
      let (u, unknown) = set_pr_stale_since_if_newer_by_branch names t s in
      elim (Bool-cases (is_repository owner repo b)) [
        | inl f ↦
            rw (f, stale_since_by_branch)
              (SameNumbers-trans (by_branch-Touched names t s).numbers
                (stale-SameNumbers names t u.world qs (filter (contains unknown) missing)))
        | inr f ↦ rw (f, stale_since_by_branch) (stale-SameNumbers names t w qs missing)
      ]

  stale_fields :
      (names : List String) (t : ℕ) (w : World) (qs : List (BranchId × Queue))
      (missing : List String) (r : Ref)
      → AreFree owner repo r qs
      → (stale_since_by_branch owner repo names t w qs missing).0.prs r ≡ w.prs r
  unfolding stale_since_by_branch AreFree
  stale_fields names t w [] missing r h = refl
  stale_fields names t w ((b, q) ∷ qs) missing r (free, h) =
      let s : State = record { world = w; q = q } in
      let (u, unknown) = set_pr_stale_since_if_newer_by_branch names t s in
      elim (Bool-cases (is_repository owner repo b)) [
        | inl f ↦
            rw (f, stale_since_by_branch)
              (stale_fields names t u.world qs (filter (contains unknown) missing) r h
                ∙ (by_branch-IsSpared r names t s (free f)).fields)
        | inr f ↦ rw (f, stale_since_by_branch) (stale_fields names t w qs missing r h)
      ]

  pub set_pr_stale_since_by_branch_in-Kept :
      (names : List String) (t : ℕ) (c : Coordinator)
      → Kept owner repo c (set_pr_stale_since_by_branch_in owner repo names t c).0
  unfolding set_pr_stale_since_by_branch_in
  set_pr_stale_since_by_branch_in-Kept names t c =
      world-Kept _ c (stale-SameNumbers names t c.world c.queues (set_from names))
        λ r f. stale_fields names t c.world c.queues (set_from names) r f.free
