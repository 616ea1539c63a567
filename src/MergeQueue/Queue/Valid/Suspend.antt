-- ===== src/MergeQueue/Queue/Valid/Suspend.antt =====
-- internal/mergequeue/queue.go: `suspend` keeps a queue valid.
use directorius.Prelude.{ℕ, ◌+◌, ◌≡◌, refl, Option, none, some, arith}
use Prim.Native.Nat.{◌%◌}
use directorius.OrderedMap.{insert, get}
use directorius.OrderedMap.Find.{lookup-insert}
use directorius.MergeQueue.PullRequest.{
  StatusState, set_state_unchanged_since, set_ci_triggered_commit, u32_mod,
}
use directorius.MergeQueue.World.{Ref, Env, World, set_pr, pr_remove_queue_head_label}
use directorius.MergeQueue.World.Numbers.{
  SameNumbers, SameNumbers-refl, SameNumbers-trans, set_pr-SameNumbers, remove_label-SameNumbers,
  create_status-SameNumbers,
}
use directorius.MergeQueue.Queue.{State, dequeue_active, suspend_rest, suspend}
use directorius.MergeQueue.Queue.Place.{dequeue_active-get}
use directorius.MergeQueue.Queue.Entries.{AreNumbered-insert}
use directorius.MergeQueue.Queue.Valid.{IsValid, IsValid-SameNumbers, dequeue_active-IsValid}

-- What the end of `suspend` leaves.
module _ (env : Env) (n : ℕ) (s : State) where
  abbrev set_aside : Ref → World
  set_aside r =
      set_pr
        (λ p. set_ci_triggered_commit "" (
          set_state_unchanged_since 0
            (record p { suspend_count = (p.suspend_count + 1) % u32_mod })))
        r s.world

  set_aside-SameNumbers : (r : Ref) → SameNumbers s.world (set_aside r)
  unfolding set_ci_triggered_commit set_state_unchanged_since
  set_aside-SameNumbers r = set_pr-SameNumbers _ r s.world refl

  suspend_rest-SameNumbers :
      (removed new_first : Option Ref)
      → SameNumbers s.world (suspend_rest env n s (removed, new_first)).0.world
  unfolding suspend_rest
  suspend_rest-SameNumbers none new_first = SameNumbers-refl s.world
  suspend_rest-SameNumbers (some r) none = SameNumbers-trans (set_aside-SameNumbers r) (
      SameNumbers-trans (remove_label-SameNumbers env s.head_label r (set_aside r)) (
        create_status-SameNumbers env r "" StatusState.pending
          (pr_remove_queue_head_label env s.head_label r (set_aside r))))
  suspend_rest-SameNumbers (some r) (some f) = SameNumbers-trans (set_aside-SameNumbers r) (
      SameNumbers-trans (remove_label-SameNumbers env s.head_label r (set_aside r)) (
        create_status-SameNumbers env r "" StatusState.pending
          (pr_remove_queue_head_label env s.head_label r (set_aside r))))

  suspend_rest_contents :
      (r : Ref) (new_first : Option Ref)
      → let t = (suspend_rest env n s (some r, new_first)).0 in
        (t.q.active ≡ s.active) × (t.q.suspended ≡ insert n r s.suspended)
  unfolding suspend_rest
  suspend_rest_contents r new_first = ground arith

  suspend_rest-IsValid :
      (removed new_first : Option Ref)
      → ((r : Ref) → removed ≡ some r → (s.prs r).number ≡ n)
      → get n s.active ≡ none
      → IsValid s.world s.q
      → let t = (suspend_rest env n s (removed, new_first)).0 in IsValid t.world t.q
  suspend_rest-IsValid none new_first numbered gone v = unfold suspend_rest in v
  suspend_rest-IsValid (some r) new_first numbered gone v =
      let same = suspend_rest-SameNumbers (some r) new_first in
      let (a, b) = suspend_rest_contents r new_first in
      let t = (suspend_rest env n s (some r, new_first)).0 in
      IsValid-SameNumbers same (record {
        active_valid = rw a v.active_valid;
        active_numbered = λ k r' e. v.active_numbered k r' (rw a at e);
        suspended_numbered = λ k r' e.
            ground (
              arith,
              lookup-insert n k r s.suspended,
              v.suspended_numbered k r',
              numbered r refl,
              b,
            );
        is_apart = record {
          apart = λ k. ground (arith, lookup-insert n k r s.suspended, v.is_apart.apart k, a, b);
        };
        entries_numbered =
            rw b (AreNumbered-insert s.world n r s.suspended (numbered r refl) v.entries_numbered);
      })

-- `suspend` changes the number of no pull request.
pub suspend-SameNumbers :
    (env : Env) (n : ℕ) (s : State) → SameNumbers s.world (suspend env n s).0.world
unfolding suspend
suspend-SameNumbers env n s =
    suspend_rest-SameNumbers env n (record s { q = (dequeue_active n s.q).0 })
      (dequeue_active n s.q).1 (dequeue_active n s.q).2

-- `suspend` keeps the queue valid.
pub suspend-IsValid :
    (env : Env) (n : ℕ) (s : State)
    → IsValid s.world s.q
    → IsValid (suspend env n s).0.world (suspend env n s).0.q
unfolding suspend
suspend-IsValid env n s v =
    let t : State = record s { q = (dequeue_active n s.q).0 } in
    suspend_rest-IsValid env n t (dequeue_active n s.q).1 (dequeue_active n s.q).2
      (λ r e. v.active_numbered n r (ground (arith, dequeue_active-get n n s.q)))
      (ground (arith, dequeue_active-get n n s.q)) (dequeue_active-IsValid n s.world s.q v)
