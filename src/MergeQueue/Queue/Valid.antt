-- ===== src/MergeQueue/Queue/Valid.antt =====
-- internal/mergequeue/queue.go: what holds of every queue; the children show that the operations
-- keep it.
pub mod Enqueue
pub mod Dequeue
pub mod Suspend
pub mod Resume
use directorius.Prelude.{
  ℕ, ◌+◌, Bool, true, false, ◌≡◌, refl, Option, none, some, arith, if◌then◌else◌, Option-cases, inl,
  inr,
}
use Prim.Native.Nat.{◌%◌}
use directorius.Errors.{Result, ok, err}
use directorius.OrderedMap.{Map, lookup, insert, get, insert_if_not_exist}
use directorius.OrderedMap.Find.{lookup-insert, lookup-delete}
use directorius.OrderedMap.Laws
use directorius.MergeQueue.PullRequest.{
  StatusState, set_in_active_queue_since, set_state_unchanged_since, set_ci_triggered_commit,
  u32_mod,
}
use directorius.MergeQueue.World.{
  Ref, Env, World, set_pr, pr_remove_queue_head_label, pr_create_commit_status,
}
use directorius.MergeQueue.World.Numbers.{
  SameNumbers, SameNumbers-refl, SameNumbers-trans, set_pr-SameNumbers, add_label-SameNumbers,
  remove_label-SameNumbers, create_status-SameNumbers,
}
use directorius.MergeQueue.Queue.{
  Queue, State, order_refs, enqueued, enqueue_active, enqueue, dequeue_suspended, dequeue_active,
  dequeue_rest, dequeue_pr, suspend_rest, suspend, resume_pr, resumed,
}
use directorius.MergeQueue.Queue.Place.{IsApart, dequeue_active-get}
use directorius.MergeQueue.Queue.Entries.{AreNumbered, AreNumbered-SameNumbers, AreNumbered-delete}

-- The list and the map of the active queue agree, every pull request stands under its number, and
-- none is both active and suspended.
pub record IsValid (w : World) (q : Queue) : Type 0 where
  pub active_valid : Laws.IsValid q.active
  pub active_numbered : (k : ℕ) (r : Ref) → get k q.active ≡ some r → (w.prs r).number ≡ k
  pub suspended_numbered : (k : ℕ) (r : Ref) → lookup k q.suspended ≡ some r → (w.prs r).number ≡ k
  pub is_apart : IsApart q
  pub entries_numbered : AreNumbered w q.suspended

pub IsValid-SameNumbers : {w w' : World} {q : Queue} → SameNumbers w w' → IsValid w q → IsValid w' q
IsValid-SameNumbers {w} {w'} {q} same v = record {
  active_valid = v.active_valid;
  active_numbered = λ k r e. ground (arith, same.same r, v.active_numbered k r);
  suspended_numbered = λ k r e. ground (arith, same.same r, v.suspended_numbered k r);
  is_apart = v.is_apart;
  entries_numbered = AreNumbered-SameNumbers q.suspended same v.entries_numbered;
}

-- Validity reads the active and the suspended pull requests only.
pub IsValid-same_contents :
    {w : World} {q q' : Queue}
    → q'.active ≡ q.active
    → q'.suspended ≡ q.suspended
    → IsValid w q
    → IsValid w q'
IsValid-same_contents {w} {q} {q'} a b v = record {
  active_valid = rw a v.active_valid;
  active_numbered = λ k r e. v.active_numbered k r (rw a at e);
  suspended_numbered = λ k r e. v.suspended_numbered k r (rw b at e);
  is_apart = record { apart = λ n. ground (arith, v.is_apart.apart n) };
  entries_numbered = rw b v.entries_numbered;
}

pub dequeue_active-map :
    (n : ℕ) (q : Queue) → Laws.IsValid q.active → Laws.IsValid (dequeue_active n q).0.active
unfolding dequeue_active
dequeue_active-map n q v = Laws.dequeue-IsValid n q.active v

pub dequeue_active-IsValid :
    (n : ℕ) (w : World) (q : Queue) → IsValid w q → IsValid w (dequeue_active n q).0
unfolding dequeue_active
dequeue_active-IsValid n w q v = record {
  active_valid = dequeue_active-map n q v.active_valid;
  active_numbered = λ k r e. ground (arith, dequeue_active-get n k q, v.active_numbered k r);
  suspended_numbered = λ k r e. ground (arith, dequeue_active-get n k q, v.suspended_numbered k r);
  is_apart = record { apart = λ k. ground (arith, dequeue_active-get n k q, v.is_apart.apart k) };
  entries_numbered = v.entries_numbered;
}

pub dequeue_suspended-IsValid :
    (n : ℕ) (w : World) (q : Queue) → IsValid w q → IsValid w (dequeue_suspended n q).0
unfolding dequeue_suspended
dequeue_suspended-IsValid n w q v = elim (Option-cases (lookup n q.suspended)) [
  | inl e ↦ rw (e, dequeue_suspended) v
  | inr (r, e) ↦
      rw (e, dequeue_suspended)
        (record {
          active_valid = v.active_valid;
          active_numbered = v.active_numbered;
          suspended_numbered =
              λ k r' f. ground (arith, lookup-delete n k q.suspended, v.suspended_numbered k r');
          is_apart = record {
            apart = λ k. ground (arith, lookup-delete n k q.suspended, v.is_apart.apart k);
          };
          entries_numbered = AreNumbered-delete w n q.suspended v.entries_numbered;
        })
]
