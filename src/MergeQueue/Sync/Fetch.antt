-- ===== src/MergeQueue/Sync/Fetch.antt =====
-- internal/mergequeue/sync.go: the loop that reads the pull requests of a repository.
pub mod Laws
use directorius.Prelude.{
  ℕ, zero, suc, String, Bool, true, false, Option, none, some, List, [], ◌∷◌, ◌++◌, if◌then◌else◌,
}
use directorius.Errors.{Err, Result, ok, err}
use directorius.Retry.{Schedule, run}
use directorius.Github.ListPrs.{Pr, PrIter, yielded, failed, finished, pull}

-- The iterator, and the variables that the action of the retryer assigns.
pub record Fetching : Type 0 where
  pub iter : PrIter
  pub gh_pr : Option Pr
  pub has_more : Bool

-- The action of the retryer: `ghPR, err, hasMore = next()`.
unfoldable pub fetch_next : (String → String) → Fetching → Fetching × Option Err
unfolding pull
fetch_next to_lower f =
    let (it, pulled) = pull to_lower f.iter in
    elim pulled [
      | yielded p ↦ (record { iter = it; gh_pr = some p; has_more = true }, none)
      | failed e ↦ (record { iter = it; gh_pr = none; has_more = true }, some e)
      | finished ↦ (record { iter = it; gh_pr = none; has_more = false }, none)
    ]

-- The loop of `sync`, with the schedules of its runs of the retryer: the pull requests that it has
-- seen; `none` if there is too little fuel.
unfoldable pub fetch_all :
    (String → String) → ℕ → (ℕ → Schedule) → PrIter → List Pr → Option (Result (List Pr))
unfolding fetch_next
fetch_all to_lower zero schedule it seen = none
fetch_all to_lower (suc fuel) schedule it seen =
    let (f, e) =
      run (schedule fuel) (fetch_next to_lower)
        (record { iter = it; gh_pr = none; has_more = true }) in
    elim e [
      | some x ↦ some (err x)
      | none ↦ elim f.has_more [
        | false ↦ some (ok seen)
        | true ↦ elim f.gh_pr [
          | none ↦ none
          | some p ↦ fetch_all to_lower fuel schedule f.iter (seen ++ p ∷ [])
        ]
      ]
    ]
