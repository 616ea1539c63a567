-- ===== src/MergeQueue/OrderBefore/Laws.antt =====
-- internal/mergequeue/queue.go: what `orderBefore` guarantees as a comparison.
use Prim.Native.Nat.{Ordering, compare}
use directorius.Prelude.{ℕ, ◌+◌, ◌≤◌, ◌<◌, ◌≡◌, refl, arith}
use directorius.Prelude.Int.{ℤ, pos, negsuc, compare_ℤ}
use directorius.MergeQueue.PullRequest.{PullRequest}
use directorius.MergeQueue.OrderBefore.{
  minute, four_hours, then_by, by_enqueued_at, by_active_since, by_suspend_count, order_before,
}

abbrev pub flip : Ordering → Ordering
flip Ordering.lt = Ordering.gt
flip Ordering.eq = Ordering.eq
flip Ordering.gt = Ordering.lt

pub compare-flip : (a b : ℕ) → compare b a ≡ flip (compare a b)
compare-flip a b = ground arith

then_by-flip : (a b : Ordering) → then_by (flip a) (flip b) ≡ flip (then_by a b)
then_by-flip Ordering.lt b = refl
then_by-flip Ordering.eq b = refl
then_by-flip Ordering.gt b = refl

compare_ℤ-flip : (a b : ℤ) → compare_ℤ b a ≡ flip (compare_ℤ a b)
unfolding compare_ℤ
compare_ℤ-flip (pos a) (pos b) = compare-flip a b
compare_ℤ-flip (pos a) (negsuc b) = refl
compare_ℤ-flip (negsuc a) (pos b) = refl
compare_ℤ-flip (negsuc a) (negsuc b) = compare-flip b a

by_enqueued_at-flip : (x y : PullRequest) → by_enqueued_at y x ≡ flip (by_enqueued_at x y)
unfolding by_enqueued_at
by_enqueued_at-flip x y =
    ground (arith, compare-flip x.enqueued_at y.enqueued_at, compare-flip x.number y.number)

by_active_since-flip : (x y : PullRequest) → by_active_since y x ≡ flip (by_active_since x y)
unfolding by_active_since
by_active_since-flip x y =
    ground
      (arith, by_enqueued_at-flip x y, compare-flip x.in_active_queue_since y.in_active_queue_since)

by_suspend_count-flip :
    (now : ℕ) (x y : PullRequest) → by_suspend_count now y x ≡ flip (by_suspend_count now x y)
unfolding by_suspend_count
by_suspend_count-flip now x y =
    ground (arith, by_active_since-flip x y, compare-flip x.suspend_count y.suspend_count)

-- Comparing two pull requests the other way round gives the opposite result.
pub order_before-flip :
    (now : ℕ) (x y : PullRequest) → order_before now y x ≡ flip (order_before now x y)
unfolding order_before
order_before-flip now x y = ground (
  arith,
  by_suspend_count-flip now x y,
  by_enqueued_at-flip x y,
  compare_ℤ-flip y.priority x.priority,
)

by_enqueued_at-eq : (x y : PullRequest) → by_enqueued_at x y ≡ Ordering.eq → x.number ≡ y.number
unfolding by_enqueued_at
by_enqueued_at-eq x y h = ground arith

-- Two pull requests that compare as equal have the same number.
pub order_before-eq :
    (now : ℕ) (x y : PullRequest) → order_before now x y ≡ Ordering.eq → x.number ≡ y.number
unfolding order_before by_suspend_count by_active_since
order_before-eq now x y h = ground (arith, by_enqueued_at-eq x y)

-- A pull request with a higher priority is processed first, whatever the rest.
pub order_before-priority :
    (now : ℕ) (x y : PullRequest)
    → compare_ℤ x.priority y.priority ≡ Ordering.gt
    → order_before now x y ≡ Ordering.lt
unfolding order_before
order_before-priority now x y h = ground (arith, compare_ℤ-flip x.priority y.priority)

-- With the same priority and the same suspend count, and in the active queue since less than 4
-- hours and since times of which neighbours are at most a minute apart and the outer two more than
-- a minute, the order of three pull requests is a cycle if they were enqueued in the opposite
-- order: y comes before x, z before y, and x before z.
pub order_before_cycle :
    (now : ℕ) (x y z : PullRequest)
    → x.priority ≡ pos 0
    → y.priority ≡ pos 0
    → z.priority ≡ pos 0
    → x.suspend_count ≡ y.suspend_count
    → y.suspend_count ≡ z.suspend_count
    → 0 < x.in_active_queue_since
    → now < x.in_active_queue_since + four_hours
    → x.in_active_queue_since ≤ y.in_active_queue_since
    → y.in_active_queue_since ≤ z.in_active_queue_since
    → y.in_active_queue_since ≤ x.in_active_queue_since + minute
    → z.in_active_queue_since ≤ y.in_active_queue_since + minute
    → x.in_active_queue_since + minute < z.in_active_queue_since
    → z.enqueued_at < y.enqueued_at
    → y.enqueued_at < x.enqueued_at
    → (order_before now y x ≡ Ordering.lt)
      × (order_before now z y ≡ Ordering.lt)
      × (order_before now x z ≡ Ordering.lt)
unfolding order_before by_suspend_count by_active_since by_enqueued_at compare_ℤ
order_before_cycle now x y z px py pz s₁ s₂ nz yg a b c d e f g =
    (ground arith, ground arith, ground arith)
