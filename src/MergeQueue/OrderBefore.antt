-- ===== src/MergeQueue/OrderBefore.antt =====
-- internal/mergequeue/queue.go: `orderBefore`, the order in which pull requests are processed.
pub mod Laws
use Prim.Native.Nat.{Ordering, compare}
use directorius.Prelude.{ℕ, ◌+◌, ◌-◌, Bool, true, false, ◌&&◌, not, ltb, ◌==◌, if◌then◌else◌}
use directorius.Prelude.Int.{compare_ℤ}
use directorius.MergeQueue.PullRequest.{PullRequest}

abbrev pub minute : ℕ
minute = 60000000000

abbrev pub four_hours : ℕ
four_hours = 14400000000000

-- `if r := …; r != 0 { return r }`, and else what follows
abbrev pub then_by : Ordering → Ordering → Ordering
then_by Ordering.lt rest = Ordering.lt
then_by Ordering.gt rest = Ordering.gt
then_by Ordering.eq rest = rest

-- `time.Since(t) < 4*time.Hour` at the time `now`; a time in the future is younger, too
abbrev pub is_young : ℕ → ℕ → Bool
is_young now t = ltb (now - t) four_hours

-- `x.Sub(y).Abs() > time.Minute`
abbrev pub is_apart : ℕ → ℕ → Bool
is_apart x y = ltb minute (x - y + (y - x))

-- The last two tests of `orderBefore`.
unfoldable pub by_enqueued_at : PullRequest → PullRequest → Ordering
by_enqueued_at x y = then_by (compare x.enqueued_at y.enqueued_at) (compare x.number y.number)

-- The test of the times in the active queue, and what follows.
unfoldable pub by_active_since : PullRequest → PullRequest → Ordering
unfolding by_enqueued_at
by_active_since x y =
    if is_apart x.in_active_queue_since y.in_active_queue_since
    then then_by (compare x.in_active_queue_since y.in_active_queue_since) (by_enqueued_at x y)
    else by_enqueued_at x y

-- The `switch` on the age of the times in the active queue, and what follows.
unfoldable pub by_suspend_count : ℕ → PullRequest → PullRequest → Ordering
unfolding by_active_since
by_suspend_count now x y =
    let x_young = is_young now x.in_active_queue_since in
    let y_young = is_young now y.in_active_queue_since in
    if x_young && y_young
    then then_by (compare x.suspend_count y.suspend_count) (by_active_since x y)
    else if x_young && ltb 1 x.suspend_count
    then Ordering.gt
    else if y_young && ltb 1 y.suspend_count
    then Ordering.lt
    else by_active_since x y

-- `orderBefore` at the time `now`
unfoldable pub order_before : ℕ → PullRequest → PullRequest → Ordering
unfolding by_suspend_count compare_ℤ
order_before now x y = then_by (compare_ℤ y.priority x.priority) (
    if not (x.in_active_queue_since == 0) && not (y.in_active_queue_since == 0)
    then by_suspend_count now x y
    else by_enqueued_at x y)
