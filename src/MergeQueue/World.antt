-- ===== src/MergeQueue/World.antt =====
-- internal/mergequeue: what the queues share, that is the pull requests behind their pointers and
-- the calls to GitHub and Jenkins; and the operations of queue.go on labels and commit statuses.
pub mod Numbers
pub mod Others
use directorius.Prelude.{
  ℕ, String, Bool, true, false, ◌&&◌, Option, none, some, List, [], ◌∷◌, ◌==◌, str_eq,
  if◌then◌else◌,
}
use directorius.Errors.{Err, Result, new_retryable_error, message}
use directorius.Retry.{Schedule, run}
use directorius.Github.Client.{UpdateBranchResult}
use directorius.Github.Pages.{ReadyForMergeStatus}
use directorius.MergeQueue.PullRequest.{PullRequest, StatusState, Build}

-- `Task`
pub data Task : Type 0 where
  task_none task_trigger_ci : Task

-- A pointer to a pull request.
abbrev pub Ref : Type 0
Ref = ℕ

-- A request to GitHub or Jenkins, with the number of the pull request or the commit. The owner and
-- the repository are those of the base branch.
pub data Call : Type 0 where
  add_label : ℕ → String → Call
  remove_label : ℕ → String → Call
  create_head_commit_status : ℕ → StatusState → String → Call
  create_commit_status : String → StatusState → String → Call
  create_issue_comment : ℕ → Call
  update_branch : ℕ → Call
  ready_for_merge : ℕ → Call
  build : String → Call
  get_build : ℕ → Call

-- What the program does not decide: the time, what every run of the retryer meets, and what GitHub
-- and Jenkins answer. The answers may depend on the calls so far, the latest first.
pub record Env : Type 0 where
  pub now : ℕ
  pub schedule : List Call → Schedule
  -- the error of a request that only changes something at GitHub
  pub respond : List Call → Option Err
  pub ready_for_merge : List Call → Result ReadyForMergeStatus
  -- `none` is a nil result
  pub update_branch : List Call → Result (Option UpdateBranchResult)
  -- `Client.Build`: the id of the queue item
  pub build : List Call → Result ℕ
  -- `Client.GetBuildFromQueueItemID`
  pub get_build : List Call → Result Build
  -- `JobTemplate.Template` for a template, the number and the branch of a pull request
  pub template : String → ℕ → String → Result String
  -- the jobs of the configuration by GitHub context, and `strings.ToLower`
  pub jobs : List (String × String)
  pub to_lower : String → String
  -- `jenkins.ParseBuildURL`
  pub parse_build_url : String → Result Build
  -- `ctx.Err()` at the start of an operation
  pub ctx_err : List Call → Option Err

pub record World : Type 0 where
  pub prs : Ref → PullRequest
  pub calls : List Call

-- `p.f(…)` on the pull request behind the pointer
unfoldable pub set_pr : (PullRequest → PullRequest) → Ref → World → World
set_pr f r w = record w { prs = λ r'. if r' == r then f (w.prs r) else w.prs r' }

-- `retryer.Run` of one request, whose answer is an error at most.
unfoldable pub run_call : Env → Call → World → World × Option Err
run_call env c w =
    run (env.schedule w.calls)
      (λ v. let calls = c ∷ v.calls in (record v { calls = calls }, env.respond calls)) w

-- `prAddQueueHeadLabel`; an error is only logged.
unfoldable pub pr_add_queue_head_label : Env → String → Ref → World → World
unfolding set_pr
pr_add_queue_head_label env head_label r w =
    if (w.prs r).has_head_label
    then w
    else let (w', e) = run_call env (add_label (w.prs r).number head_label) w in
      elim e [ none ↦ set_pr (λ p. record p { has_head_label = true }) r w' | some _ ↦ w' ]

-- `prRemoveQueueHeadLabel`; an error is only logged.
unfoldable pub pr_remove_queue_head_label : Env → String → Ref → World → World
unfolding set_pr
pr_remove_queue_head_label env head_label r w =
    (run_call env (remove_label (w.prs r).number head_label)
      (set_pr (λ p. record p { has_head_label = false }) r w)).0

abbrev pub is_same_state : StatusState → StatusState → Bool
is_same_state StatusState.unset StatusState.unset = true
is_same_state StatusState.pending StatusState.pending = true
is_same_state StatusState.success StatusState.success = true
is_same_state StatusState.error StatusState.error = true
is_same_state StatusState.failure StatusState.failure = true
is_same_state _ _ = false

-- The description of a commit status.
abbrev pub status_description : StatusState → String
status_description StatusState.success = "#1 in queue"
status_description _ = ""

-- `createCommitStatus`: the new world, and the error.
unfoldable pub create_commit_status_of :
    Env → Ref → String → StatusState → World → World × Option Err
unfolding set_pr
create_commit_status_of env r commit state w =
    let p = w.prs r in
    let desc = status_description state in
    if str_eq p.github_status_last_set_state.commit commit
      && is_same_state p.github_status_last_set_state.state state
    then (w, none)
    else let (w', e) =
        run_call env
          (if str_eq commit ""
            then create_head_commit_status p.number state desc
            else create_commit_status commit state desc)
          w in
      elim e [
        | some x ↦ (w', some x)
        | none ↦ (
          set_pr
              (λ p. record p {
                github_status_last_set_state = record { commit = commit; state = state };
              })
              r w',
          none,
        )
      ]

-- `prCreateCommitStatus`; an error is only logged.
abbrev pub pr_create_commit_status : Env → Ref → String → StatusState → World → World
pr_create_commit_status env r commit state w = (create_commit_status_of env r commit state w).0
