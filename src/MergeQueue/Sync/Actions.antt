-- ===== src/MergeQueue/Sync/Actions.antt =====
-- internal/mergequeue/sync.go: the actions keep what was there, and `enqueue` queues the pull request.
use directorius.Prelude.{
  String, true, false, ◌≡◌, refl, ap, subst, ◌∙◌, none, List, [], ◌∷◌, arith, any, if_keeps,
  Bool-cases, Option-cases, inl, inr,
}
use directorius.Errors.{ok, is_already_exists, Result-cases}
use directorius.MergeQueue.PullRequest.{StatusState}
use directorius.MergeQueue.World.{Ref, Env, set_pr, run_call, create_commit_status_of, remove_label}
use directorius.MergeQueue.World.Numbers.{
  set_pr-SameNumbers, run_call-SameNumbers, create_status-SameNumbers,
}
use directorius.MergeQueue.Queue.{BranchId}
use directorius.MergeQueue.Coordinator.{Coordinator, get_queue, enqueue_in}
use directorius.Github.ListPrs.{Pr}
use directorius.MergeQueue.Events.{new_base_branch}
use directorius.MergeQueue.Sync.{
  SyncAction, undefined, enqueue, unlabel, reset_status_state, is_enqueue,
}
use directorius.MergeQueue.Sync.Perform.{
  Syncing, Acting, with_world, enqueue_pr, remove_head_label, mark, enqueue_failed, perform_enqueue,
  perform_reset, perform, perform_all, count_failure,
}
use directorius.MergeQueue.Sync.First.{IsFirst, enqueue_in-IsFirst}
use directorius.MergeQueue.Sync.Stepped.{
  IsQueued, Stepped, Stepped-refl, Stepped-trans, world-Stepped, enqueue_in-Stepped,
  enqueue_in_puts,
}

module _ (env : Env) (owner repo : String) (pr : Pr) (r : Ref) where
  -- From one state of the loop to another.
  abbrev pub Goes : Syncing → Syncing → Type 0
  Goes s t = Stepped owner repo pr.base_branch s.coordinator t.coordinator

  remove_head_label_coordinator :
      (s : Syncing)
      → let w = s.coordinator.world in
        (remove_head_label env owner repo r s).coordinator ≡ record s.coordinator {
          world = (run_call env (remove_label (w.prs r).number s.coordinator.head_label) w).0;
        }
  unfolding remove_head_label
  remove_head_label_coordinator s =
      let w = s.coordinator.world in
      elim (Option-cases
        (run_call env (remove_label (w.prs r).number s.coordinator.head_label) w).1) [
          | inl e ↦ rw (e, remove_head_label) refl
          | inr (x, e) ↦ rw (e, remove_head_label) refl
        ]

  remove_head_label-Goes : (s : Syncing) → Goes s (remove_head_label env owner repo r s)
  remove_head_label-Goes s =
      let w = s.coordinator.world in
      rw (remove_head_label_coordinator s) (
        world-Stepped _ s.coordinator
          (run_call-SameNumbers env (remove_label (w.prs r).number s.coordinator.head_label) w))

  enqueue_pr-Stepped :
      (c : Coordinator)
      → Stepped owner repo pr.base_branch c (enqueue_pr env owner repo pr.base_branch r c).0
  unfolding enqueue_pr
  enqueue_pr-Stepped c = elim (Result-cases (new_base_branch owner repo pr.base_branch)) [
    | inr (x, e) ↦ rw (e, enqueue_pr) (Stepped-refl c)
    | inl (b, e) ↦ rw (e, enqueue_pr) (enqueue_in-Stepped env b r c e)
  ]

  enqueue_failed-Goes : (a : Acting) → Goes a.state (enqueue_failed env owner repo r a).state
  unfolding enqueue_failed
  enqueue_failed-Goes a =
      let s = a.state in
      let w = set_pr (λ p. record p { has_head_label = false }) r s.coordinator.world in
      let unset : Goes s (with_world w (count_failure s)) = world-Stepped w s.coordinator (
        set_pr-SameNumbers (λ p. record p { has_head_label = false }) r s.coordinator.world refl) in
      if_keeps (λ (b : Acting). Goes s b.state) a.preserve
        (Stepped-trans unset (remove_head_label-Goes (with_world w (count_failure s))))
        (Stepped-refl s.coordinator)

  mark_coordinator :
      (base : String) (a : Acting)
      → (mark env owner repo base a).state.coordinator ≡ a.state.coordinator
  mark_coordinator base a = elim (Bool-cases a.preserve) [
    | inl e ↦ rw (e, mark) refl
    | inr e ↦ rw (e, mark) refl
  ]

  -- The round for `enqueue` goes on from what `enqueuePR` leaves.
  perform_enqueue-Stepped :
      (a : Acting)
      → Stepped owner repo pr.base_branch
          (enqueue_pr env owner repo pr.base_branch r a.state.coordinator).0
          (perform_enqueue env owner repo pr r a).state.coordinator
  unfolding perform_enqueue
  perform_enqueue-Stepped a =
      let (c, result) = enqueue_pr env owner repo pr.base_branch r a.state.coordinator in
      let b : Acting = record a { state = record a.state { coordinator = c } } in
      let marked : Goes b.state (mark env owner repo pr.base_branch b).state =
        rw (mark_coordinator pr.base_branch b) (Stepped-refl c) in
      elim (Result-cases result) [
        | inl (x, e) ↦ rw (e, perform_enqueue) marked
        | inr (x, e) ↦
            rw (e, perform_enqueue)
              (if_keeps (λ (d : Acting). Goes b.state d.state) (is_already_exists x) marked
                (enqueue_failed-Goes b))
      ]

  perform_enqueue-Goes : (a : Acting) → Goes a.state (perform_enqueue env owner repo pr r a).state
  perform_enqueue-Goes a =
      Stepped-trans (enqueue_pr-Stepped a.state.coordinator) (perform_enqueue-Stepped a)

  perform_reset-Goes : (s : Syncing) → Goes s (perform_reset env owner repo pr r s)
  unfolding perform_reset
  perform_reset-Goes s =
      let w = s.coordinator.world in
      let set = create_commit_status_of env r pr.head_commit StatusState.pending w in
      let same = create_status-SameNumbers env r pr.head_commit StatusState.pending w in
      elim (Option-cases set.1) [
        | inl e ↦ rw (e, perform_reset) (world-Stepped set.0 s.coordinator same)
        | inr (x, e) ↦ rw (e, perform_reset) (world-Stepped set.0 s.coordinator same)
      ]

  perform-Goes :
      (action : SyncAction) (a : Acting) → Goes a.state (perform env owner repo pr r action a).state
  unfolding perform
  perform-Goes undefined a = Stepped-refl a.state.coordinator
  perform-Goes enqueue a = perform_enqueue-Goes a
  perform-Goes unlabel a =
      if_keeps (λ (b : Acting). Goes a.state b.state) a.preserve (Stepped-refl a.state.coordinator)
        (remove_head_label-Goes a.state)
  perform-Goes reset_status_state a = perform_reset-Goes a.state

  pub perform_all-Goes :
      (actions : List SyncAction) (a : Acting)
      → Goes a.state (perform_all env owner repo pr r actions a).state
  unfolding perform_all
  perform_all-Goes [] a = Stepped-refl a.state.coordinator
  perform_all-Goes (action ∷ actions) a =
      Stepped-trans (perform-Goes action a)
        (perform_all-Goes actions (perform env owner repo pr r action a))

  perform_unlabel_queues :
      (a : Acting)
      → (perform env owner repo pr r unlabel a).state.coordinator.queues
        ≡ a.state.coordinator.queues
  unfolding perform
  perform_unlabel_queues a = elim (Bool-cases a.preserve) [
    | inl e ↦ rw (e, perform) refl
    | inr e ↦ rw (e, perform) (ap (λ c. c.queues) (remove_head_label_coordinator a.state))
  ]

  perform_reset_queues :
      (a : Acting)
      → (perform env owner repo pr r reset_status_state a).state.coordinator.queues
        ≡ a.state.coordinator.queues
  unfolding perform perform_reset
  perform_reset_queues a =
      let w = a.state.coordinator.world in
      elim (Option-cases (create_commit_status_of env r pr.head_commit StatusState.pending w).1) [
        | inl e ↦ rw (e, perform, perform_reset) refl
        | inr (x, e) ↦ rw (e, perform, perform_reset) refl
      ]

  module _ (b : BranchId) (base : new_base_branch owner repo pr.base_branch ≡ ok b) where
    perform_enqueue_puts :
        (a : Acting)
        → (a.state.coordinator.world.prs r).number ≡ pr.number
        → IsQueued b pr.number (perform_enqueue env owner repo pr r a).state.coordinator
    unfolding enqueue_pr
    perform_enqueue_puts a h =
        let put : IsQueued b pr.number
            (enqueue_pr env owner repo pr.base_branch r a.state.coordinator).0 =
          rw (base, enqueue_pr) (enqueue_in_puts env b r a.state.coordinator pr.number h) in
        (perform_enqueue-Stepped a).queued b pr.number put

    -- After its actions, `enqueue` among them, a pull request is queued.
    pub perform_all_puts :
        (actions : List SyncAction) (a : Acting)
        → any is_enqueue actions ≡ true
        → (a.state.coordinator.world.prs r).number ≡ pr.number
        → IsQueued b pr.number (perform_all env owner repo pr r actions a).state.coordinator
    unfolding perform_all perform
    perform_all_puts [] a h n = absurd (ground arith)
    perform_all_puts (enqueue ∷ actions) a h n =
        let d = perform_enqueue env owner repo pr r a in
        (perform_all-Goes actions d).queued b pr.number (perform_enqueue_puts a n)
    perform_all_puts (undefined ∷ actions) a h n = perform_all_puts actions a h n
    perform_all_puts (unlabel ∷ actions) a h n =
        perform_all_puts actions _ h ((perform-Goes unlabel a).numbers.same r ∙ n)
    perform_all_puts (reset_status_state ∷ actions) a h n =
        perform_all_puts actions _ h ((perform-Goes reset_status_state a).numbers.same r ∙ n)

    perform_enqueue_opens :
        (a : Acting)
        → (a.state.coordinator.world.prs r).number ≡ pr.number
        → get_queue b a.state.coordinator.queues ≡ none
        → IsFirst b pr.number (perform_enqueue env owner repo pr r a).state.coordinator
    unfolding enqueue_pr
    perform_enqueue_opens a n h =
        let c = a.state.coordinator in
        let put : IsFirst b pr.number (enqueue_pr env owner repo pr.base_branch r c).0 =
          rw (base, enqueue_pr)
            (subst (λ m. IsFirst b m (enqueue_in env b r c).0) n
              (enqueue_in-IsFirst env b r c h)) in
        (perform_enqueue-Stepped a).firsts b pr.number put

    -- If the base branch has no queue, a pull request is the first one after its actions, `enqueue`
    -- among them.
    pub perform_all_opens :
        (actions : List SyncAction) (a : Acting)
        → any is_enqueue actions ≡ true
        → (a.state.coordinator.world.prs r).number ≡ pr.number
        → get_queue b a.state.coordinator.queues ≡ none
        → IsFirst b pr.number (perform_all env owner repo pr r actions a).state.coordinator
    unfolding perform_all perform
    perform_all_opens [] a h n q = absurd (ground arith)
    perform_all_opens (enqueue ∷ actions) a h n q =
        let d = perform_enqueue env owner repo pr r a in
        (perform_all-Goes actions d).firsts b pr.number (perform_enqueue_opens a n q)
    perform_all_opens (undefined ∷ actions) a h n q = perform_all_opens actions a h n q
    perform_all_opens (unlabel ∷ actions) a h n q =
        perform_all_opens actions _ h ((perform-Goes unlabel a).numbers.same r ∙ n)
          (ap (get_queue b) (perform_unlabel_queues a) ∙ q)
    perform_all_opens (reset_status_state ∷ actions) a h n q =
        perform_all_opens actions _ h ((perform-Goes reset_status_state a).numbers.same r ∙ n)
          (ap (get_queue b) (perform_reset_queues a) ∙ q)
