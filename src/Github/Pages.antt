-- ===== src/Github/Pages.antt =====
-- internal/githubclt/readyformergestatus.go: `reviewAndCIStatus`, which fetches the statuses of a
-- pull request page by page, and `ReadyForMerge`. The GraphQL client is a parameter.
use directorius.Prelude.{
  ℕ, zero, suc, String, Bool, ◌&&◌, not, Option, none, some, List, [], ◌∷◌, ◌++◌, str_eq,
  if◌then◌else◌,
}
use directorius.Errors.{Err, message, Result, ok, err, ◌>>=◌}
use directorius.Github.CiStatus.{
  CiStatus, CiJobStatus, CheckRun, StatusContext, StatusState, to_ci_job_statuses,
  overall_ci_status,
}

-- `ReviewDecision`
pub data ReviewDecision : Type 0 where
  approved changes_requested review_required : ReviewDecision
  other : String → ReviewDecision

-- `graphQLQueryCIStatus`: a node of a page, which holds a check run or a commit status; the
-- fields of the other are empty.
pub record Node : Type 0 where
  pub check_run : CheckRun
  pub status_context : StatusContext

-- `Commit` and the page of its `StatusCheckRollup.Contexts`
pub record Commit : Type 0 where
  pub oid : String
  pub state : StatusState
  pub nodes : List Node
  pub has_next_page : Bool
  pub end_cursor : String

-- `graphQLQueryCIStatus`
pub record Page : Type 0 where
  pub review_decision : ReviewDecision
  pub required_status_check_contexts : List String
  pub commits : List Commit

-- `queryCIStatusResult`
pub record QueryResult : Type 0 where
  pub review_decision : ReviewDecision
  pub rollup_state : StatusState
  pub required_contexts : List String
  pub check_runs : List CheckRun
  pub status_contexts : List StatusContext
  pub commit : String

-- The variables of the loop of `reviewAndCIStatus`: `prHEADCommitID`, the two lists of `result`
-- that grow, and `vars["contextsAfter"]`, where `none` is nil.
pub record Loop : Type 0 where
  pub head_commit : String
  pub check_runs : List CheckRun
  pub status_contexts : List StatusContext
  pub contexts_after : Option String

abbrev pub is_empty : String → Bool
is_empty s = str_eq s ""

-- The inner loop over the edges of a page.
unfoldable pub add_nodes : Loop → List Node → Result Loop
add_nodes l [] = ok l
add_nodes l (node ∷ nodes) =
    let has_run = not (is_empty node.check_run.name) in
    let has_context = not (is_empty node.status_context.context) in
    if has_run && has_context
    then err (message "internal error: node contains checkRun and context, expecting only one")
    else add_nodes
        (if has_run
          then record l { check_runs = l.check_runs ++ node.check_run ∷ [] }
          else record l { status_contexts = l.status_contexts ++ node.status_context ∷ [] })
        nodes

-- What one round of the loop does: it goes on, or the function returns.
pub data Round : Type 0 where
  again : Loop → Round
  return : Result QueryResult → Round

-- The end of a round, after the nodes are added.
unfoldable pub finish_page : Page → Commit → Loop → Round
finish_page page commit l =
    if not commit.has_next_page
    then return (
        ok (record {
          review_decision = page.review_decision;
          rollup_state = commit.state;
          required_contexts = page.required_status_check_contexts;
          check_runs = l.check_runs;
          status_contexts = l.status_contexts;
          commit = l.head_commit;
        }))
    else if is_empty commit.end_cursor
    then return (err (message "retrieving all contexts failed, expected non-empty EndCursor"))
    else again (record l { contexts_after = some commit.end_cursor })

-- The round for a commit: a changed HEAD commit restarts the pagination.
unfoldable pub commit_round : Page → Commit → Loop → Round
unfolding add_nodes finish_page
commit_round page commit l =
    if not (is_empty l.head_commit) && not (str_eq l.head_commit commit.oid)
    then again (record l { contexts_after = none; head_commit = "" })
    else elim (add_nodes (record l { head_commit = commit.oid }) commit.nodes) [
      | err e ↦ return (err e)
      | ok l' ↦ finish_page page commit l'
    ]

-- A round from the answer of the query. `Commits.Nodes[0]` of an empty list panics.
unfoldable pub page_round : Result Page → Loop → Round
unfolding commit_round
page_round (err e) l = return (err e)
page_round (ok page) l = elim page.commits [
  | [] ↦ return (err (message "panic: index out of range"))
  | commit ∷ _ ↦ commit_round page commit l
]

-- The loop of `reviewAndCIStatus`, whose queries the parameter answers: `query n after` is the
-- answer to the n-th query. `none` means that the fuel ran out.
unfoldable pub review_loop :
    ℕ → (ℕ → Option String → Result Page) → ℕ → Loop → Option (Result QueryResult)
unfolding page_round
review_loop zero query n l = none
review_loop (suc fuel) query n l = elim (page_round (query n l.contexts_after) l) [
  | again l' ↦ review_loop fuel query (suc n) l'
  | return r ↦ some r
]

abbrev pub loop_start : Loop
loop_start = record {
  head_commit = "";
  check_runs = [];
  status_contexts = [];
  contexts_after = none;
}

-- `reviewAndCIStatus`
unfoldable pub review_and_ci_status :
    ℕ → (ℕ → Option String → Result Page) → Option (Result QueryResult)
unfolding review_loop
review_and_ci_status fuel query = review_loop fuel query 0 loop_start

-- `ReadyForMergeStatus`
pub record ReadyForMergeStatus : Type 0 where
  pub review_decision : ReviewDecision
  pub ci_status : CiStatus
  pub statuses : List CiJobStatus
  pub commit : String

-- `ReadyForMerge` from the answers of the queries; `wrap` is `wrapGraphQLRetryableErrors`, which
-- reads the HTTP status out of the text of an error of the GraphQL client.
unfoldable pub ready_for_merge : (Err → Err) → Result QueryResult → Result ReadyForMergeStatus
ready_for_merge wrap (err e) = err (wrap e)
ready_for_merge wrap (ok q) = do
  statuses ← to_ci_job_statuses q.required_contexts q.check_runs q.status_contexts
  ok (record {
    review_decision = q.review_decision;
    ci_status = overall_ci_status q.rollup_state statuses;
    statuses = statuses;
    commit = q.commit;
  })
