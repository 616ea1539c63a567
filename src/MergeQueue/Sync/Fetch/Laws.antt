-- ===== src/MergeQueue/Sync/Fetch/Laws.antt =====
-- internal/mergequeue/sync.go: the loop that reads the pull requests sees all of them.
use directorius.Prelude.{
  ℕ, zero, suc, ◌<◌, String, true, false, ◌≡◌, ◌⊎◌, refl, ap, ◌∙◌, Option, none, some, List, [],
  ◌∷◌, ◌++◌, arith, length, Option-cases, inl, inr,
}
use directorius.Errors.{Err, Result, ok, err}
use directorius.Retry.{Schedule, run}
use directorius.Retry.Laws.{run_attempts}
use directorius.Github.ListPrs.{Pr, PrIter, Pulled, yielded, failed, finished, pull}
use directorius.Github.ListPrs.Laws.{remaining, pull-remaining, pull_finished}
use directorius.MergeQueue.Sync.Fetch.{Fetching, fetch_next, fetch_all}

Pulled-cases :
    (p : Pulled) → (((x : Pr) × (p ≡ yielded x)) ⊎ ((e : Err) × (p ≡ failed e))) ⊎ (p ≡ finished)
Pulled-cases (yielded x) = inl (inl (x, refl))
Pulled-cases (failed e) = inl (inr (e, refl))
Pulled-cases finished = inr refl

module _ (to_lower : String → String) where
  -- What a run of the retryer that succeeds leaves, from the pull requests that remained before it.
  data Fetched (before : List Pr) (f : Fetching) : Type 0 where
    next_one :
        (p : Pr)
        → f.has_more ≡ true
        → f.gh_pr ≡ some p
        → p ∷ remaining to_lower f.iter ≡ before
        → Fetched before f
    no_more : f.has_more ≡ false → before ≡ [] → Fetched before f

  fetch_next-failed :
      (f : Fetching) (e : Err)
      → (fetch_next to_lower f).1 ≡ some e
      → remaining to_lower (fetch_next to_lower f).0.iter ≡ remaining to_lower f.iter
  unfolding fetch_next
  fetch_next-failed f e h =
      let (it, pulled) = pull to_lower f.iter in
      let left = pull-remaining to_lower f.iter in
      elim (Pulled-cases pulled) [
        | inl (inl (p, g)) ↦ absurd (ground arith)
        | inl (inr (x, g)) ↦ rw (g, fetch_next) (rw g at left)
        | inr g ↦ absurd (ground arith)
      ]

  fetch_next-Fetched :
      (f : Fetching)
      → (fetch_next to_lower f).1 ≡ none
      → Fetched (remaining to_lower f.iter) (fetch_next to_lower f).0
  unfolding fetch_next
  fetch_next-Fetched f h =
      let (it, pulled) = pull to_lower f.iter in
      let left = pull-remaining to_lower f.iter in
      elim (Pulled-cases pulled) [
        | inl (inl (p, g)) ↦ rw (g, fetch_next) (next_one p refl refl (rw g at left))
        | inl (inr (x, g)) ↦ absurd (ground arith)
        | inr g ↦ rw (g, fetch_next) (no_more refl (pull_finished to_lower f.iter g))
      ]

  run-Fetched :
      (sched : Schedule) (f : Fetching)
      → (run sched (fetch_next to_lower) f).1 ≡ none
      → Fetched (remaining to_lower f.iter) (run sched (fetch_next to_lower) f).0
  run-Fetched sched f h =
      run_attempts (λ g. remaining to_lower g.iter ≡ remaining to_lower f.iter)
        (fetch_next to_lower) (λ g p e x. fetch_next-failed g e x ∙ p)
        (λ g. Fetched (remaining to_lower f.iter) g) sched f
        (λ g p x. rw p at (fetch_next-Fetched g x)) refl h

  -- What the loop may return, with its schedules, if these pull requests were and are still to be seen:
  -- all of them, or the error of one of its runs of the retryer, which began when some had been seen and
  -- the others remained.
  pub data AllSeen (schedule : ℕ → Schedule) (prs : List Pr)
      : Option (Result (List Pr)) → Type 0 where
    all_seen : AllSeen schedule prs (some (ok prs))
    gave_up :
        (e : Err) (round : ℕ) (seen : List Pr) (f : Fetching)
        → seen ++ remaining to_lower f.iter ≡ prs
        → (run (schedule round) (fetch_next to_lower) f).1 ≡ some e
        → AllSeen schedule prs (some (err e))

  append_one : (seen : List Pr) (p : Pr) (prs : List Pr) → (seen ++ p ∷ []) ++ prs ≡ seen ++ p ∷ prs
  append_one [] p prs = refl
  append_one (x ∷ seen) p prs = ap (λ ps. x ∷ ps) (append_one seen p prs)

  append_none : (seen : List Pr) → seen ++ [] ≡ seen
  append_none [] = refl
  append_none (x ∷ seen) = ap (λ ps. x ∷ ps) (append_none seen)

  -- The loop of `sync` ends, with one round for each remaining pull request and one more. It has seen
  -- the pull requests of all pages, each page by number and once, whatever queries failed in between; or
  -- it returns the error of one of its runs of the retryer on the next pull request, which began when
  -- those before had been seen and the others remained.
  pub fetch_all_sees_all :
      (fuel : ℕ) (schedule : ℕ → Schedule) (it : PrIter) (seen : List Pr)
      → length (remaining to_lower it) < fuel
      → AllSeen schedule (seen ++ remaining to_lower it) (fetch_all to_lower fuel schedule it seen)
  unfolding fetch_all
  fetch_all_sees_all zero schedule it seen h = absurd (omega arith)
  fetch_all_sees_all (suc fuel) schedule it seen h =
      let f : Fetching = record { iter = it; gh_pr = none; has_more = true } in
      let (g, e) = run (schedule fuel) (fetch_next to_lower) f in
      elim (Option-cases e) [
        | inr (x, k) ↦ rw (k, fetch_all) (gave_up x fuel seen f refl k)
        | inl k ↦ elim (run-Fetched (schedule fuel) f k) [
          | no_more m left ↦ rw (k, m, fetch_all, left, append_none seen) all_seen
          | next_one p m n left ↦
              let small : length (remaining to_lower g.iter) < fuel =
                ground (arith, ap length left) in
              let rest = fetch_all_sees_all fuel schedule g.iter (seen ++ p ∷ []) small in
              rw (k, m, n, fetch_all)
                (rw (append_one seen p (remaining to_lower g.iter), left) at rest)
        ]
      ]
