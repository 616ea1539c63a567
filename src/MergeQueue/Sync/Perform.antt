-- ===== src/MergeQueue/Sync/Perform.antt =====
-- internal/mergequeue/sync.go: the loop of `sync` over the items.
use directorius.Prelude.{
  ℕ, ◌+◌, String, Bool, false, ◌&&◌, not, Option, none, some, List, [], ◌∷◌, length, if◌then◌else◌,
}
use directorius.Errors.{Err, Result, ok, err, wrapped, is_already_exists}
use directorius.MergeQueue.PullRequest.{PullRequest, StatusState, new_pull_request, set_assignees}
use directorius.MergeQueue.World.{
  Ref, Env, World, set_pr, run_call, create_commit_status_of, remove_label,
}
use directorius.MergeQueue.Manage.{contains}
use directorius.MergeQueue.Coordinator.{Coordinator, enqueue_in}
use directorius.Github.ListPrs.{Pr}
use directorius.MergeQueue.Events.{Config, new_base_branch}
use directorius.MergeQueue.Events.Incoming.{next_ref, allocate}
use directorius.MergeQueue.Sync.{
  SyncAction, SyncItem, undefined, enqueue, unlabel, reset_status_state, is_queued_head, sort_items,
  sync_items,
}

-- `syncStat` without the times
pub record SyncStat : Type 0 where
  pub seen : ℕ
  pub enqueued : ℕ
  pub unlabeled : ℕ
  pub failures : ℕ
  pub status_state_reset : ℕ
  pub prs_out_of_sync : ℕ

-- The variables of the loop: `headPreserved` is the list of the base branches that are mapped to true.
pub record Syncing : Type 0 where
  pub coordinator : Coordinator
  pub head_preserved : List String
  pub stats : SyncStat

-- The variable `preserveHeadLabel` and those of the loop.
pub record Acting : Type 0 where
  pub preserve : Bool
  pub state : Syncing

abbrev pub with_world : World → Syncing → Syncing
with_world w s = record s { coordinator = record s.coordinator { world = w } }

abbrev pub count_unlabeled : Syncing → Syncing
count_unlabeled s = record s { stats = record s.stats { unlabeled = s.stats.unlabeled + 1 } }

abbrev pub count_enqueued : Syncing → Syncing
count_enqueued s = record s { stats = record s.stats { enqueued = s.stats.enqueued + 1 } }

abbrev pub count_failure : Syncing → Syncing
count_failure s = record s { stats = record s.stats { failures = s.stats.failures + 1 } }

abbrev pub count_reset : Syncing → Syncing
count_reset s = record s {
  stats = record s.stats { status_state_reset = s.stats.status_state_reset + 1 };
}

-- The variables before the loop.
abbrev pub initial : List Pr → List SyncItem → Coordinator → Syncing
initial prs items c = record {
  coordinator = c;
  head_preserved = [];
  stats = record {
    seen = length prs;
    enqueued = 0;
    unlabeled = 0;
    failures = 0;
    status_state_reset = 0;
    prs_out_of_sync = length items;
  };
}

module _ (env : Env) (owner repo : String) where
  -- `enqueuePR`
  unfoldable pub enqueue_pr : String → Ref → Coordinator → Coordinator × Result (Unit {0})
  unfolding new_base_branch enqueue_in
  enqueue_pr base r c = elim (new_base_branch owner repo base) [
    | err e ↦ (c, err (wrapped "incomplete base branch information" e))
    | ok b ↦ enqueue_in env b r c
  ]

  -- `removeLabel`, and the counter of `stats`
  unfoldable pub remove_head_label : Ref → Syncing → Syncing
  unfolding run_call
  remove_head_label r s =
      let w = s.coordinator.world in
      let (w', e) = run_call env (remove_label (w.prs r).number s.coordinator.head_label) w in
      elim e [ some x ↦ with_world w' s | none ↦ count_unlabeled (with_world w' s) ]

  -- `headPreserved[ghPR.BaseBranch] = true` if the label is preserved
  abbrev pub mark : String → Acting → Acting
  mark base a =
      if a.preserve
      then record a { state = record a.state { head_preserved = base ∷ a.state.head_preserved } }
      else a

  -- The branch of `enqueue` for an error other than `ErrAlreadyExists`.
  unfoldable pub enqueue_failed : Ref → Acting → Acting
  unfolding remove_head_label set_pr
  enqueue_failed r a =
      let s = count_failure a.state in
      let w = set_pr (λ p. record p { has_head_label = false }) r s.coordinator.world in
      if a.preserve
      then record { preserve = false; state = remove_head_label r (with_world w s) }
      else record a { state = s }

  -- The branch of `enqueue`.
  unfoldable pub perform_enqueue : Pr → Ref → Acting → Acting
  unfolding enqueue_pr enqueue_failed is_already_exists
  perform_enqueue pr r a =
      let (c, result) = enqueue_pr pr.base_branch r a.state.coordinator in
      let a' : Acting = record a { state = record a.state { coordinator = c } } in
      elim result [
        | err e ↦ if is_already_exists e then mark pr.base_branch a' else enqueue_failed r a'
        | ok _ ↦ let b = mark pr.base_branch a' in record b { state = count_enqueued b.state }
      ]

  -- The branch of `resetStatusState`.
  unfoldable pub perform_reset : Pr → Ref → Syncing → Syncing
  unfolding create_commit_status_of
  perform_reset pr r s =
      let (w, e) =
        create_commit_status_of env r pr.head_commit StatusState.pending s.coordinator.world in
      elim e [ some x ↦ with_world w s | none ↦ count_reset (with_world w s) ]

  -- A round of the loop over the actions.
  unfoldable pub perform : Pr → Ref → SyncAction → Acting → Acting
  unfolding perform_enqueue perform_reset remove_head_label
  perform pr r undefined a = a
  perform pr r enqueue a = perform_enqueue pr r a
  perform pr r unlabel a =
      if a.preserve then a else record a { state = remove_head_label r a.state }
  perform pr r reset_status_state a = record a { state = perform_reset pr r a.state }

  unfoldable pub perform_all : Pr → Ref → List SyncAction → Acting → Acting
  unfolding perform
  perform_all pr r [] a = a
  perform_all pr r (action ∷ actions) a = perform_all pr r actions (perform pr r action a)

  -- The pull request of an item, with the value of `preserveHeadLabel`.
  unfoldable pub item_pr : Bool → Pr → Result PullRequest
  unfolding new_pull_request set_assignees
  item_pr preserve pr =
      elim (new_pull_request env.now pr.number pr.branch pr.author pr.title pr.link) [
        | err e ↦ err (wrapped "pr information retrieved from github is incomplete" e)
        | ok p ↦ ok (record (set_assignees pr.assignees p) { has_head_label = preserve })
      ]

  -- `preserveHeadLabel` at the start of an item
  unfoldable pub preserves : SyncItem → Syncing → Bool
  unfolding is_queued_head
  preserves item s = is_queued_head item && not (contains s.head_preserved item.gh_pr.base_branch)

  -- A round of the loop over the items.
  unfoldable pub sync_item : SyncItem → Syncing → Result Syncing
  unfolding preserves item_pr allocate perform_all
  sync_item item s =
      let preserve = preserves item s in
      elim (item_pr preserve item.gh_pr) [
        | err e ↦ err e
        | ok p ↦
            let r = next_ref s.coordinator in
            let s' = record s { coordinator = allocate p s.coordinator } in
            ok
              (perform_all item.gh_pr r item.actions
                (record { preserve = preserve; state = s' })).state
      ]

  -- The loop over the items: the variables at its end or at the error that ends it.
  unfoldable pub sync_all : List SyncItem → Syncing → Syncing × Option Err
  unfolding sync_item
  sync_all [] s = (s, none)
  sync_all (item ∷ items) s = elim (sync_item item s) [
    | err e ↦ (s, some e)
    | ok s' ↦ sync_all items s'
  ]

  -- `sync`, from the pull requests that it has read.
  unfoldable pub sync_repository : Config → List Pr → Coordinator → Syncing × Option Err
  unfolding sync_items sort_items sync_all
  sync_repository cfg prs c =
      let items = sync_items cfg c.head_label prs in
      sync_all (sort_items items) (initial prs items c)
