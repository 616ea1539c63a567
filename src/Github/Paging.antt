-- ===== src/Github/Paging.antt =====
-- internal/githubclt/readyformergestatus.go: what `reviewAndCIStatus` collects over the pages.
use directorius.Prelude.{
  ℕ, zero, suc, ◌≤◌, String, true, false, ◌≡◌, ◌≢◌, refl, Option, none, some, List, [], ◌∷◌, ◌++◌,
  arith, eq_iff, if◌then◌else◌, ◌⊎◌, inl, inr,
}
use mathlib.Core.List.{append-nil, append_assoc}
use directorius.Errors.{Result, ok}
use directorius.Github.CiStatus.{CheckRun, StatusContext}
use directorius.Github.Pages.{
  Node, Commit, Page, QueryResult, Loop, Round, is_empty, add_nodes, finish_page, commit_round,
  page_round, review_loop, loop_start, review_and_ci_status,
}

-- The check runs and the commit statuses among the nodes.
abbrev pub runs_of : List Node → List CheckRun
runs_of [] = []
runs_of (n ∷ nodes) =
    let rest = runs_of nodes in if is_empty n.check_run.name then rest else n.check_run ∷ rest

abbrev pub contexts_of : List Node → List StatusContext
contexts_of [] = []
contexts_of (n ∷ nodes) =
    let rest = contexts_of nodes in
    if is_empty n.check_run.name then n.status_context ∷ rest else rest

-- No node holds both a check run and a commit status.
abbrev pub AreWellFormed : List Node → Type 0
AreWellFormed [] = Unit {0}
AreWellFormed (n ∷ nodes) =
    ((is_empty n.check_run.name ≡ true) ⊎ (is_empty n.status_context.context ≡ true))
    × AreWellFormed nodes

abbrev collected : Loop → List Node → Loop
collected l nodes = record l {
  check_runs = l.check_runs ++ runs_of nodes;
  status_contexts = l.status_contexts ++ contexts_of nodes;
}

add_nodes-collected :
    (l : Loop) (nodes : List Node)
    → AreWellFormed nodes
    → add_nodes l nodes ≡ ok (collected l nodes)
unfolding add_nodes
add_nodes-collected l [] w = simp append-nil
add_nodes-collected l (n ∷ nodes) w = ground (
  arith,
  append_assoc l.check_runs (n.check_run ∷ []) (runs_of nodes),
  append_assoc l.status_contexts (n.status_context ∷ []) (contexts_of nodes),
  add_nodes-collected (record l { check_runs = l.check_runs ++ n.check_run ∷ [] }) nodes w.1,
  add_nodes-collected (record l { status_contexts = l.status_contexts ++ n.status_context ∷ [] })
      nodes w.1,
)

-- The pages that the server answers from the n-th query on, for one HEAD commit: the pages but the
-- last name the cursor of the next query.
pub data Serves (query : ℕ → Option String → Result Page) (oid : String) (last : Page)
    (tip : Commit) : ℕ → Option String → List Node → Type 0 where
  last_page :
      {n : ℕ} {after : Option String} (others : List Commit)
      → query n after ≡ ok last
      → last.commits ≡ tip ∷ others
      → tip.oid ≡ oid
      → tip.has_next_page ≡ false
      → AreWellFormed tip.nodes
      → Serves query oid last tip n after tip.nodes
  next_page :
      {n : ℕ} {after : Option String} {nodes : List Node} (page : Page) (c : Commit)
      (others : List Commit)
      → query n after ≡ ok page
      → page.commits ≡ c ∷ others
      → c.oid ≡ oid
      → c.has_next_page ≡ true
      → is_empty c.end_cursor ≡ false
      → AreWellFormed c.nodes
      → Serves query oid last tip (suc n) (some c.end_cursor) nodes
      → Serves query oid last tip n after (c.nodes ++ nodes)

abbrev pub page_count :
    {query : ℕ → Option String → Result Page} {oid : String} {last : Page} {tip : Commit} {n : ℕ}
    {after : Option String} {nodes : List Node}
    → Serves query oid last tip n after nodes
    → ℕ
page_count (last_page others q cs o f w) = 1
page_count (next_page page c others q cs o f e w rest) = suc (page_count rest)

-- What `reviewAndCIStatus` returns from a loop that still has to read the nodes.
abbrev pub result_of : Page → Commit → String → Loop → List Node → QueryResult
result_of last tip oid l nodes = record {
  review_decision = last.review_decision;
  rollup_state = tip.state;
  required_contexts = last.required_status_check_contexts;
  check_runs = l.check_runs ++ runs_of nodes;
  status_contexts = l.status_contexts ++ contexts_of nodes;
  commit = oid;
}

-- The loop has read no page yet, or a page of the commit.
abbrev Follows : String → String → Type 0
Follows head oid = (is_empty head ≡ true) ⊎ (head ≡ oid)

commit_round-collected :
    (page : Page) (c : Commit) (l : Loop) (oid : String)
    → c.oid ≡ oid
    → Follows l.head_commit oid
    → AreWellFormed c.nodes
    → commit_round page c l
      ≡ finish_page page c (collected (record l { head_commit = c.oid }) c.nodes)
unfolding commit_round
commit_round-collected page c l oid o f w = ground (
  arith,
  eq_iff l.head_commit c.oid,
  add_nodes-collected (record l { head_commit = c.oid }) c.nodes w,
)

commit_round-restarts :
    (page : Page) (c : Commit) (l : Loop)
    → is_empty l.head_commit ≡ false
    → c.oid ≢ l.head_commit
    → commit_round page c l ≡ Round.again (record l { contexts_after = none; head_commit = "" })
unfolding commit_round
commit_round-restarts page c l n d = ground (arith, eq_iff l.head_commit c.oid)

runs_of-append : (xs ys : List Node) → runs_of (xs ++ ys) ≡ runs_of xs ++ runs_of ys
runs_of-append [] ys = refl
runs_of-append (x ∷ xs) ys = ground (arith, runs_of-append xs ys)

contexts_of-append : (xs ys : List Node) → contexts_of (xs ++ ys) ≡ contexts_of xs ++ contexts_of ys
contexts_of-append [] ys = refl
contexts_of-append (x ∷ xs) ys = ground (arith, contexts_of-append xs ys)

module _ {query : ℕ → Option String → Result Page} {oid : String} {last : Page} {tip : Commit} where
  review_loop-result_of :
      {n : ℕ} {after : Option String} {nodes : List Node} (fuel : ℕ) (l : Loop)
      (s : Serves query oid last tip n after nodes)
      → page_count s ≤ fuel
      → l.contexts_after ≡ after
      → Follows l.head_commit oid
      → review_loop fuel query n l ≡ some (ok (result_of last tip oid l nodes))
  unfolding review_loop page_round finish_page
  review_loop-result_of zero l (last_page others q cs o f w) h a k = absurd (omega arith)
  review_loop-result_of zero l (next_page page c others q cs o f e w rest) h a k =
      absurd (omega arith)
  review_loop-result_of (suc fuel) l (last_page others q cs o f w) h a k =
      ground (arith, commit_round-collected last tip l oid o k w)
  review_loop-result_of (suc fuel) l (next_page {nodes = ns} page c others q cs o f e w rest) h a
        k =
      let l' : Loop = record (collected (record l { head_commit = c.oid }) c.nodes) {
        contexts_after = some c.end_cursor;
      } in
      ground (
        arith,
        commit_round-collected page c l oid o k w,
        review_loop-result_of fuel l' rest (omega arith) refl (inr o),
        runs_of-append c.nodes ns,
        contexts_of-append c.nodes ns,
        append_assoc l.check_runs (runs_of c.nodes) (runs_of ns),
        append_assoc l.status_contexts (contexts_of c.nodes) (contexts_of ns),
      )

  -- While the HEAD commit of the pull request stays the same, no query fails, the nodes of every page are
  -- well-formed and each page but the last names the cursor of the next, the function returns after as
  -- many queries as there are pages, with every check run and commit status of every page in order, the
  -- HEAD commit, and the review decision and the rollup state of the last page.
  pub review_and_ci_status_complete :
      {nodes : List Node} (fuel : ℕ) (s : Serves query oid last tip 0 none nodes)
      → page_count s ≤ fuel
      → review_and_ci_status fuel query ≡ some (ok (result_of last tip oid loop_start nodes))
  unfolding review_and_ci_status
  review_and_ci_status_complete fuel s h = review_loop-result_of fuel loop_start s h refl (inl refl)

-- When the HEAD commit changes between the first and the second page, the pagination starts again,
-- and the check runs and commit statuses of the old commit stay in the result beside those of the
-- new one.
pub review_and_ci_status_keeps_old_commit :
    (query : ℕ → Option String → Result Page) (p₁ p₂ p₃ : Page) (c₁ c₂ c₃ : Commit)
    → query 0 none ≡ ok p₁
    → p₁.commits ≡ c₁ ∷ []
    → is_empty c₁.oid ≡ false
    → c₁.has_next_page ≡ true
    → is_empty c₁.end_cursor ≡ false
    → AreWellFormed c₁.nodes
    → query 1 (some c₁.end_cursor) ≡ ok p₂
    → p₂.commits ≡ c₂ ∷ []
    → c₂.oid ≢ c₁.oid
    → query 2 none ≡ ok p₃
    → p₃.commits ≡ c₃ ∷ []
    → c₃.has_next_page ≡ false
    → AreWellFormed c₃.nodes
    → review_and_ci_status 3 query
      ≡ some (
          ok (
            result_of p₃ c₃ c₃.oid
              (record loop_start {
                check_runs = runs_of c₁.nodes;
                status_contexts = contexts_of c₁.nodes;
              })
              c₃.nodes))
unfolding review_and_ci_status page_round finish_page
review_and_ci_status_keeps_old_commit query p₁ p₂ p₃ c₁ c₂ c₃ q₁ s₁ n₁ m₁ e₁ w₁ q₂ s₂ d q₃ s₃ m₃
      w₃ =
    let l₁ : Loop = record (collected (record loop_start { head_commit = c₁.oid }) c₁.nodes) {
      contexts_after = some c₁.end_cursor;
    } in
    let l₂ : Loop = record l₁ { contexts_after = none; head_commit = "" } in
    ground (
      arith,
      commit_round-collected p₁ c₁ loop_start c₁.oid refl (inl refl) w₁,
      commit_round-restarts p₂ c₂ l₁ n₁ d,
      commit_round-collected p₃ c₃ l₂ c₃.oid refl (inl refl) w₃,
    )
