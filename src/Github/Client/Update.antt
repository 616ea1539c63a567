-- ===== src/Github/Client/Update.antt =====
-- internal/githubclt/client.go: when `UpdateBranch` reports that nothing changed.
use directorius.Prelude.{
  ℕ, String, Bool, true, false, ◌≡◌, refl, sym, ap, subst, ◌⊎◌, inl, inr, Option, none, some, arith,
  str_eq, Option-cases,
}
use directorius.Errors.{ok, Result-cases}
use directorius.Github.Client.{
  RestError, error_response, accepted_error, rate_limit_error, other_error, Answer, answered,
  refused, RestPullRequest, UpdateBranchResult, mentions, branch_is_behind_base, compared,
  pr_is_uptodate, updated, update_branch_of,
}

-- The request was refused, since the base branch has no new commits.
pub data HasNoNewCommits : Option RestError → Type 0 where
  no_new_commits :
      (text : String)
      → mentions text "no new commits on the base branch" ≡ true
      → HasNoNewCommits (some (error_response 422 text))

-- The comparison with the base branch says that the commit is not behind.
pub record IsNotBehind (pr : RestPullRequest) (compare : String → String → Answer (Option ℕ))
    (sha : String) : Type 0 where
  branch : String
  is_base : pr.base ≡ some branch
  not_behind : compare branch sha ≡ answered (some 0)

not_behind :
    (a : Answer (Option ℕ)) (sha sha' : String) (flag : Bool)
    → compared sha (branch_is_behind_base a) ≡ ok (flag, sha')
    → (sha ≡ sha') × (flag ≡ true → a ≡ answered (some 0))
unfolding compared branch_is_behind_base
not_behind (refused e) sha sha' flag h = cc
not_behind (answered none) sha sha' flag h = cc
not_behind (answered (some n)) sha sha' flag h =
    (ground arith, λ t. let z : n ≡ 0 = ground arith in ap (λ k. answered (some k)) z)

updated_unchanged :
    (sha : String) (r : Option RestError) (u : UpdateBranchResult)
    → updated sha r ≡ ok u
    → u.changed ≡ false
    → (u.head_commit_id ≡ sha) × HasNoNewCommits r
unfolding updated
updated_unchanged sha none u h k = ground arith
updated_unchanged sha (some accepted_error) u h k = ground arith
updated_unchanged sha (some (rate_limit_error t)) u h k = ground arith
updated_unchanged sha (some (other_error t)) u h k = ground arith
updated_unchanged sha (some (error_response status text)) u h k =
    let mentioned : mentions text "no new commits on the base branch" ≡ true = ground arith in
    let unprocessable : status ≡ 422 = ground arith in
    let head : u.head_commit_id ≡ sha = ground arith in
    (
      head,
      subst (λ n. HasNoNewCommits (some (error_response n text))) (sym unprocessable)
          (no_new_commits text mentioned),
    )

-- What holds of a pull request for which `PRIsUptodate` returns a commit.
record WasCompared (pr : RestPullRequest) (compare : String → String → Answer (Option ℕ))
    (flag : Bool) (sha : String) : Type 0 where
  is_open : str_eq pr.state "closed" ≡ false
  has_head : str_eq sha "" ≡ false
  is_current : flag ≡ true → IsNotBehind pr compare sha

pr_is_uptodate-WasCompared :
    (pr : RestPullRequest) (compare : String → String → Answer (Option ℕ)) (flag : Bool)
    (sha : String)
    → pr_is_uptodate (answered pr) compare ≡ ok (flag, sha)
    → WasCompared pr compare flag sha
unfolding pr_is_uptodate
pr_is_uptodate-WasCompared pr compare flag sha h = elim (Option-cases pr.head) [
  | inl e ↦ absurd (ground arith)
  | inr (head, e) ↦ elim (Option-cases pr.base) [
    | inl f ↦ record {
      is_open = ground arith;
      has_head = ground arith;
      is_current = λ t. absurd (ground arith);
    }
    | inr (base, f) ↦
        let c = not_behind (compare base head.0) head.0 sha flag in
        record {
          is_open = ground arith;
          has_head = ground (arith, c);
          is_current = λ t. record { branch = base; is_base = f; not_behind = ground (arith, c) };
        }
  ]
]

-- If `UpdateBranch` reports that a pull request did not change, the pull request is open, the result
-- has the head commit, and the comparison with the base branch said that this commit is not behind,
-- or GitHub refused the update of this commit since the base branch has no new commits.
pub update_branch_unchanged :
    (pr : RestPullRequest) (compare : String → String → Answer (Option ℕ))
    (request : String → Option RestError) (u : UpdateBranchResult)
    → update_branch_of (pr_is_uptodate (answered pr) compare) request ≡ ok u
    → u.changed ≡ false
    → (str_eq pr.state "closed" ≡ false)
      × (str_eq u.head_commit_id "" ≡ false)
      × (IsNotBehind pr compare u.head_commit_id ⊎ HasNoNewCommits (request u.head_commit_id))
unfolding update_branch_of
update_branch_unchanged pr compare request u h k =
    elim (Result-cases (pr_is_uptodate (answered pr) compare)) [
      | inr (e, f) ↦ absurd (ground arith)
      | inl ((true, sha), f) ↦
          let c = pr_is_uptodate-WasCompared pr compare true sha f in
          let head : sha ≡ u.head_commit_id = ground arith in
          (c.is_open, rw (sym head) c.has_head, inl (rw (sym head) (c.is_current refl)))
      | inl ((false, sha), f) ↦
          let c = pr_is_uptodate-WasCompared pr compare false sha f in
          let (head, none_new) = updated_unchanged sha (request sha) u (ground arith) k in
          (c.is_open, rw head c.has_head, inr (rw head none_new))
    ]
