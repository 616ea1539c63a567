-- ===== src/MergeQueue/Sync/Init.antt =====
-- internal/mergequeue/sync.go: `sync` of a repository with GitHub, and `InitSync`.
pub mod Laws
use directorius.Prelude.{ℕ, ◌+◌, String, Option, none, some, List, [], ◌∷◌, length}
use directorius.Errors.{Err, Result, ok, err, wrapped}
use directorius.Retry.{Schedule}
use directorius.MergeQueue.World.{Env}
use directorius.MergeQueue.Coordinator.{Coordinator}
use directorius.Github.ListPrs.{PrNode, PrIter, list_prs}
use directorius.Github.ListPrs.Laws.{remaining}
use directorius.MergeQueue.Events.{Config}
use directorius.MergeQueue.Sync.Fetch.{fetch_all}
use directorius.MergeQueue.Sync.Perform.{sync_repository}

-- What GitHub answers to the queries for the pull requests of a repository, and the schedules of the
-- runs of the retryer.
pub record Source : Type 0 where
  pub pages : List (List PrNode)
  pub failures : List (Option Err)
  pub schedule : ℕ → Schedule

module _ (env : Env) (cfg : Config) (source : String → String → Source) where
  -- The iterator of `ListPRs` for a repository.
  abbrev pub iter_of : String → String → PrIter
  iter_of owner repo = list_prs (source owner repo).pages (source owner repo).failures

  -- `sync`, with fuel for a round for each pull request and one more; `none` if it were too little.
  unfoldable pub sync : String → String → Coordinator → Option (Coordinator × Option Err)
  unfolding fetch_all sync_repository
  sync owner repo c =
      let it = iter_of owner repo in
      elim (fetch_all env.to_lower (length (remaining env.to_lower it) + 1)
        (source owner repo).schedule it []) [
          | none ↦ none
          | some fetched ↦ elim fetched [
            | err e ↦ some (c, some e)
            | ok prs ↦
                let (s, e) = sync_repository env owner repo cfg prs c in some (s.coordinator, e)
          ]
        ]

  -- The loop of `InitSync`.
  unfoldable pub init_sync_of :
      List (String × String) → Coordinator → Option (Coordinator × Option Err)
  unfolding sync
  init_sync_of [] c = some (c, none)
  init_sync_of ((owner, repo) ∷ repositories) c = elim (sync owner repo c) [
    | none ↦ none
    | some (d, e) ↦ elim e [
      | some x ↦ some (d, some (wrapped "syncing failed" x))
      | none ↦ init_sync_of repositories d
    ]
  ]

  -- `InitSync`
  unfoldable pub init_sync : Coordinator → Option (Coordinator × Option Err)
  unfolding init_sync_of
  init_sync = init_sync_of cfg.monitored_repositories
