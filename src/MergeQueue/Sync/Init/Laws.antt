-- ===== src/MergeQueue/Sync/Init/Laws.antt =====
-- internal/mergequeue/sync.go: after `InitSync` all pull requests that are to be queued are queued.
use directorius.Prelude.{
  ℕ, ◌+◌, String, true, ◌≡◌, refl, ◌∙◌, subst, sym, Option, none, some, List, [], ◌∷◌, arith,
  length, Option-cases, inl, inr,
}
use directorius.Errors.{Err, Result, ok, err, wrapped}
use directorius.MergeQueue.World.{Env}
use directorius.MergeQueue.Queue.{BranchId}
use directorius.MergeQueue.Coordinator.{Coordinator}
use directorius.MergeQueue.Coordinator.Valid.{AreValid}
use directorius.Github.ListPrs.{Pr}
use directorius.Github.ListPrs.Laws.{remaining}
use directorius.MergeQueue.Events.{Config, new_base_branch}
use directorius.MergeQueue.Sync.Fetch.{fetch_all}
use directorius.MergeQueue.Sync.Fetch.Laws.{AllSeen, all_seen, gave_up, fetch_all_sees_all}
use directorius.MergeQueue.Sync.Perform.{sync_repository}
use directorius.MergeQueue.Sync.Items.{In, here, there, is_wanted}
use directorius.MergeQueue.Sync.Stepped.{IsQueued}
use directorius.MergeQueue.Sync.Complete.{
  Progress, sync_repository-Progress, sync_repository_queues,
}
use directorius.MergeQueue.Sync.Init.{Source, iter_of, sync, init_sync_of, init_sync}

-- What a synchronisation keeps.
pub record Synced (c d : Coordinator) : Type 0 where
  pub valid : AreValid c → AreValid d
  pub queued : (b : BranchId) (n : ℕ) → IsQueued b n c → IsQueued b n d
  pub label : d.head_label ≡ c.head_label

module _ (env : Env) (cfg : Config) (source : String → String → Source) where
  -- The pull requests of a repository, on all pages.
  abbrev pub open_prs : String → String → List Pr
  open_prs owner repo = remaining env.to_lower (iter_of env cfg source owner repo)

  abbrev fetched : String → String → Option (Result (List Pr))
  fetched owner repo =
      let it = iter_of env cfg source owner repo in
      fetch_all env.to_lower (length (remaining env.to_lower it) + 1) (source owner repo).schedule
        it []

  fetched-AllSeen :
      (owner repo : String)
      → AllSeen env.to_lower (source owner repo).schedule (open_prs owner repo) (fetched owner repo)
  fetched-AllSeen owner repo =
      let it = iter_of env cfg source owner repo in
      fetch_all_sees_all env.to_lower (length (remaining env.to_lower it) + 1)
        (source owner repo).schedule it [] (omega arith)

  -- What `sync` returns: it has seen all pull requests, or an error of the retryer ended it.
  data SyncResult (owner repo : String) (c : Coordinator)
      : Option (Coordinator × Option Err) → Type 0 where
    read_all : SyncResult owner repo c (
        some (
          (sync_repository env owner repo cfg (open_prs owner repo) c).0.coordinator,
          (sync_repository env owner repo cfg (open_prs owner repo) c).1,
        ))
    read_failed : (e : Err) → SyncResult owner repo c (some (c, some e))

  sync_result :
      (owner repo : String) (c : Coordinator) {x : Option (Result (List Pr))}
      → AllSeen env.to_lower (source owner repo).schedule (open_prs owner repo) x
      → SyncResult owner repo c (elim x [
        | none ↦ none
        | some found ↦ elim found [
          | err e ↦ some (c, some e)
          | ok prs ↦
              let (s, e) = sync_repository env owner repo cfg prs c in some (s.coordinator, e)
        ]
      ])
  sync_result owner repo c all_seen = read_all
  sync_result owner repo c (gave_up e round seen f left failing) = read_failed e

  sync-SyncResult :
      (owner repo : String) (c : Coordinator)
      → SyncResult owner repo c (sync env cfg source owner repo c)
  unfolding sync
  sync-SyncResult owner repo c = sync_result owner repo c (fetched-AllSeen owner repo)

  Synced-refl : (c : Coordinator) → Synced c c
  Synced-refl c = record { valid = λ v. v; queued = λ b n h. h; label = refl }

  Synced-trans : {c d e : Coordinator} → Synced c d → Synced d e → Synced c e
  Synced-trans p q = record {
    valid = λ v. q.valid (p.valid v);
    queued = λ b n h. q.queued b n (p.queued b n h);
    label = q.label ∙ p.label;
  }

  Synced-Progress : {owner repo : String} {c d : Coordinator} → Progress owner repo c d → Synced c d
  Synced-Progress p = record { valid = p.kept.valid; queued = p.queued; label = p.label }

  -- What `InitSync` promises from the coordinator before it.
  pub data Ended (repositories : List (String × String)) (c : Coordinator)
      : Option (Coordinator × Option Err) → Type 0 where
    failed : (d : Coordinator) (e : Err) → Synced c d → Ended repositories c (some (d, some e))
    done :
        (d : Coordinator)
        → Synced c d
        → ((owner repo : String) (pr : Pr) (b : BranchId)
            → In (owner, repo) repositories
            → In pr (open_prs owner repo)
            → is_wanted cfg c.head_label pr ≡ true
            → new_base_branch owner repo pr.base_branch ≡ ok b
            → IsQueued b pr.number d)
        → Ended repositories c (some (d, none))

  module _ (owner repo : String) (repositories : List (String × String)) (c : Coordinator) where
    -- What the loop promises after the first repository holds of the whole loop.
    lift :
        (d : Coordinator) {y : Option (Coordinator × Option Err)}
        → Synced c d
        → ((pr : Pr) (b : BranchId)
            → In pr (open_prs owner repo)
            → is_wanted cfg c.head_label pr ≡ true
            → new_base_branch owner repo pr.base_branch ≡ ok b
            → IsQueued b pr.number d)
        → Ended repositories d y
        → Ended ((owner, repo) ∷ repositories) c y
    lift d p first (failed e x q) = failed e x (Synced-trans p q)
    lift d p first (done e q rest) = done e (Synced-trans p q) all
      where
        all :
            (o r : String) (pr : Pr) (b : BranchId)
            → In (o, r) ((owner, repo) ∷ repositories)
            → In pr (open_prs o r)
            → is_wanted cfg c.head_label pr ≡ true
            → new_base_branch o r pr.base_branch ≡ ok b
            → IsQueued b pr.number e
        all _ _ pr b here i w h = q.queued b pr.number (first pr b i w h)
        all o r pr b (there j) i w h =
            rest o r pr b j i (subst (λ l. is_wanted cfg l pr ≡ true) (sym p.label) w) h

    after_sync :
        {x : Option (Coordinator × Option Err)}
        → SyncResult owner repo c x
        → ((d : Coordinator) → Ended repositories d (init_sync_of env cfg source repositories d))
        → Ended ((owner, repo) ∷ repositories) c (elim x [
          | none ↦ none
          | some (d, e) ↦ elim e [
            | some x ↦ some (d, some (wrapped "syncing failed" x))
            | none ↦ init_sync_of env cfg source repositories d
          ]
        ])
    after_sync (read_failed e) rest = failed c (wrapped "syncing failed" e) (Synced-refl c)
    after_sync read_all rest =
        let (s, e) = sync_repository env owner repo cfg (open_prs owner repo) c in
        let p =
          Synced-Progress (sync_repository-Progress env owner repo cfg (open_prs owner repo) c) in
        elim (Option-cases e) [
          | inr (x, h) ↦ rw h (failed s.coordinator (wrapped "syncing failed" x) p)
          | inl h ↦ rw h (
              lift s.coordinator p
                (λ pr b i w base.
                  sync_repository_queues env owner repo cfg (open_prs owner repo) c pr b i w base h)
                (rest s.coordinator))
        ]

  init_sync_of-Ended :
      (repositories : List (String × String)) (c : Coordinator)
      → Ended repositories c (init_sync_of env cfg source repositories c)
  unfolding init_sync_of
  init_sync_of-Ended [] c = done c (Synced-refl c) (λ o r pr b i j w h. elim i [ ])
  init_sync_of-Ended ((owner, repo) ∷ repositories) c =
      after_sync owner repo repositories c (sync-SyncResult owner repo c)
        (init_sync_of-Ended repositories)

  -- `InitSync` ends with what it promises, whatever GitHub answers.
  pub init_sync-Ended :
      (c : Coordinator) → Ended cfg.monitored_repositories c (init_sync env cfg source c)
  unfolding init_sync
  init_sync-Ended = init_sync_of-Ended cfg.monitored_repositories

  -- What `InitSync` promises for a pull request of a base branch.
  pub data IsQueuedAfter (b : BranchId) (n : ℕ) (c : Coordinator)
      : Option (Coordinator × Option Err) → Type 0 where
    stopped : (d : Coordinator) (e : Err) → Synced c d → IsQueuedAfter b n c (some (d, some e))
    all_queued :
        (d : Coordinator) → Synced c d → IsQueued b n d → IsQueuedAfter b n c (some (d, none))

  queued_after :
      (c : Coordinator) (owner repo : String) (pr : Pr) (b : BranchId)
      {x : Option (Coordinator × Option Err)}
      → In (owner, repo) cfg.monitored_repositories
      → In pr (open_prs owner repo)
      → is_wanted cfg c.head_label pr ≡ true
      → new_base_branch owner repo pr.base_branch ≡ ok b
      → Ended cfg.monitored_repositories c x
      → IsQueuedAfter b pr.number c x
  queued_after c owner repo pr b i j w h (failed d e s) = stopped d e s
  queued_after c owner repo pr b i j w h (done d s all) =
      all_queued d s (all owner repo pr b i j w h)

  -- `InitSync` ends, whatever GitHub answers: either with an error, or a given open pull request of a
  -- monitored repository, on whatever page, that has a trigger label or an automerge that counts is in
  -- the queue of its base branch, if that is complete. In both cases valid queues stay valid, and no
  -- pull request leaves a queue.
  pub init_sync_queues :
      (c : Coordinator) (owner repo : String) (pr : Pr) (b : BranchId)
      → In (owner, repo) cfg.monitored_repositories
      → In pr (open_prs owner repo)
      → is_wanted cfg c.head_label pr ≡ true
      → new_base_branch owner repo pr.base_branch ≡ ok b
      → IsQueuedAfter b pr.number c (init_sync env cfg source c)
  init_sync_queues c owner repo pr b i j w h =
      queued_after c owner repo pr b i j w h (init_sync-Ended c)
