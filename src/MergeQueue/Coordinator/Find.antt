-- ===== src/MergeQueue/Coordinator/Find.antt =====
-- internal/mergequeue/coordinator.go: the map of the queues by base branch.
use directorius.Prelude.{
  true, false, ◌≡◌, refl, none, some, List, [], ◌∷◌, arith, eq_iff, if◌then◌else◌,
}
use directorius.MergeQueue.Queue.{BranchId, Queue}
use directorius.MergeQueue.Coordinator.{is_branch, get_queue, put_queue, delete_queue}

pub is_branch-eq : (a b : BranchId) → is_branch a b ≡ true → a ≡ b
unfolding is_branch
is_branch-eq a b h =
    let owner : a.repository_owner ≡ b.repository_owner =
      ground (arith, eq_iff a.repository_owner b.repository_owner) in
    let repo : a.repository ≡ b.repository = ground (arith, eq_iff a.repository b.repository) in
    let name : a.branch ≡ b.branch = ground (arith, eq_iff a.branch b.branch) in cc

pub is_branch_refl : (a : BranchId) → is_branch a a ≡ true
unfolding is_branch
is_branch_refl a = ground (
  arith,
  eq_iff a.repository_owner a.repository_owner,
  eq_iff a.repository a.repository,
  eq_iff a.branch a.branch,
)

is_branch_left : (d b c : BranchId) → is_branch d b ≡ true → is_branch b c ≡ is_branch d c
is_branch_left d b c h = rw (is_branch-eq d b h) refl

is_branch_right : (d b c : BranchId) → is_branch b c ≡ true → is_branch d b ≡ is_branch d c
is_branch_right d b c h = rw (is_branch-eq b c h) refl

pub get_queue-put_queue :
    (b c : BranchId) (q : Queue) (queues : List (BranchId × Queue))
    → get_queue c (put_queue b q queues) ≡ (if is_branch b c then some q else get_queue c queues)
unfolding get_queue put_queue
get_queue-put_queue b c q [] = refl
get_queue-put_queue b c q ((d, p) ∷ queues) =
    ground (arith, get_queue-put_queue b c q queues, is_branch_left d b c, is_branch_right d b c)

pub get_queue-delete_queue :
    (b c : BranchId) (queues : List (BranchId × Queue))
    → get_queue c (delete_queue b queues) ≡ (if is_branch b c then none else get_queue c queues)
unfolding get_queue delete_queue
get_queue-delete_queue b c [] = ground arith
get_queue-delete_queue b c ((d, p) ∷ queues) =
    ground (arith, get_queue-delete_queue b c queues, is_branch_left d b c, is_branch_right d b c)

pub is_branch_sym : (a b : BranchId) → is_branch a b ≡ false → is_branch b a ≡ false
is_branch_sym a b h = ground (arith, is_branch_right a b a, is_branch_refl a)
