-- ===== src/MergeQueue/HttpService/Laws.antt =====
-- internal/mergequeue/httpservice.go: the priorities that a form sets are in the bounds.
use directorius.Prelude.{
  ℕ, String, Bool, true, ◌&&◌, ◌≡◌, refl, sym, ap, ◌∙◌, List, [], ◌∷◌, ◌++◌, all, leb, ◌==◌, arith,
  Option-cases, inl, inr, ◌⊎◌,
}
use directorius.Prelude.Int.{ℤ, pos, negsuc, compare_ℤ}
use directorius.Strconv.{codes, parse_int, int32_limit, int64_limit}
use directorius.Errors.{Result, ok, err, Result-cases}
use directorius.MergeQueue.World.{Ref, Env, set_pr}
use directorius.MergeQueue.Queue.{BranchId, State}
use directorius.MergeQueue.Manage.{sort_active_queue, set_pull_request_priority, get_pull_request}
use directorius.MergeQueue.Coordinator.{Coordinator, get_queue, state_of}
use directorius.MergeQueue.Coordinator.Repository.{set_priorities, set_pull_request_priorities}
use directorius.MergeQueue.HttpService.{
  Form, PrPriorityUpdate, PrPriorityUpdates, one_value, add_update, add_priority, add_value,
  add_values, form_to_priority_updates, known, handler_priority_update,
}

-- The priorities -1, 0, 1 and 2.
abbrev pub is_selectable : ℤ → Bool
is_selectable (pos n) = leb n 2
is_selectable (negsuc n) = n == 0

abbrev in_bounds : PrPriorityUpdate → Bool
in_bounds u = is_selectable u.priority

abbrev is_bounded : Result PrPriorityUpdates → Bool
is_bounded (err _) = true
is_bounded (ok u) = all in_bounds u.updates

all-append_one :
    (us : List PrPriorityUpdate) (u : PrPriorityUpdate)
    → all in_bounds (us ++ u ∷ []) ≡ (all in_bounds us && in_bounds u)
all-append_one [] u = ground arith
all-append_one (x ∷ us) u = ground (arith, all-append_one us u)

add_update-bounded :
    (n priority : ℤ) (result : PrPriorityUpdates)
    → all in_bounds result.updates ≡ true
    → is_bounded (add_update n priority result) ≡ true
unfolding add_update compare_ℤ
add_update-bounded n (pos p) result h =
    ground (arith, all-append_one result.updates (record { pr_number = n; priority = pos p }))
add_update-bounded n (negsuc p) result h =
    ground (arith, all-append_one result.updates (record { pr_number = n; priority = negsuc p }))

add_priority-bounded :
    (k val : String) (result : PrPriorityUpdates)
    → all in_bounds result.updates ≡ true
    → is_bounded (add_priority k val result) ≡ true
unfolding add_priority
add_priority-bounded k val result h = elim (Result-cases (parse_int int64_limit (codes k))) [
  | inr (e, f) ↦ ground (arith, f)
  | inl (n, f) ↦ elim (Result-cases (parse_int int32_limit (codes val))) [
    | inr (e, g) ↦ ground (arith, f, g)
    | inl (p, g) ↦ ground (arith, f, g, add_update-bounded n p result h)
  ]
]

add_value-bounded :
    (k : String) (vals : List String) (result : PrPriorityUpdates)
    → all in_bounds result.updates ≡ true
    → is_bounded (add_value k vals result) ≡ true
unfolding add_value
add_value-bounded k vals result h = elim (Option-cases (one_value vals)) [
  | inl e ↦ ground (arith, e)
  | inr (v, e) ↦ ground (arith, e, add_priority-bounded k v result h)
]

add_values-bounded :
    (form : Form) (result : PrPriorityUpdates)
    → all in_bounds result.updates ≡ true
    → is_bounded (add_values form result) ≡ true
unfolding add_values
add_values-bounded [] result h = h
add_values-bounded ((k, vals) ∷ form) result h =
    let b = add_value-bounded k vals result h in
    elim (Result-cases (add_value k vals result)) [
      | inr (e, f) ↦ ground (arith, f)
      | inl (next, f) ↦ ground (arith, f, add_values-bounded form next (sym (ap is_bounded f) ∙ b))
    ]

set_priority-bounded :
    (n : ℕ) (p : ℤ) (s : State) (r : Ref)
    → is_selectable p ≡ true
    → is_selectable (s.world.prs r).priority ≡ true
    → is_selectable ((set_pull_request_priority n p s).0.world.prs r).priority ≡ true
unfolding set_pull_request_priority set_pr
set_priority-bounded n p s r h k = elim (Option-cases (get_pull_request n s.q)) [
  | inl e ↦ ground (arith, e)
  | inr (x, e) ↦ ground (arith, e)
]

ℤ-cases : (z : ℤ) → ((n : ℕ) × (z ≡ pos n)) ⊎ ((n : ℕ) × (z ≡ negsuc n))
ℤ-cases (pos n) = inl (n, refl)
ℤ-cases (negsuc n) = inr (n, refl)

set_priorities-bounded :
    (updates : List PrPriorityUpdate) (s : State) (r : Ref)
    → all in_bounds updates ≡ true
    → is_selectable (s.world.prs r).priority ≡ true
    → is_selectable ((set_priorities (known updates) s).0.world.prs r).priority ≡ true
unfolding set_priorities known
set_priorities-bounded [] s r h k = k
set_priorities-bounded (u ∷ updates) s r h k = elim (ℤ-cases u.pr_number) [
  | inl (n, e) ↦
      let first = set_priority-bounded n u.priority s r (ground arith) k in
      let later =
        set_priorities-bounded updates (set_pull_request_priority n u.priority s).0 r (ground arith)
          first in
      rw (e, known) later
  | inr (n, e) ↦ rw (e, known) (set_priorities-bounded updates s r (ground arith) k)
]

updated-bounded :
    (env : Env) (b : BranchId) (updates : List PrPriorityUpdate) (c : Coordinator) (r : Ref)
    → all in_bounds updates ≡ true
    → is_selectable (c.world.prs r).priority ≡ true
    → is_selectable ((set_pull_request_priorities env b (known updates) c).world.prs r).priority
      ≡ true
unfolding set_pull_request_priorities sort_active_queue
updated-bounded env b updates c r h k = elim (Option-cases (get_queue b c.queues)) [
  | inl e ↦ ground (arith, e)
  | inr (q, e) ↦ ground (arith, e, set_priorities-bounded updates (state_of c q) r h k)
]

-- `HandlerPriorityUpdate` sets only priorities of -1 to 2: whatever the form holds, a pull request whose priority
-- is in these bounds has one in them after the request.
pub handler_priority_update-bounds :
    (env : Env) (form : Result Form) (c : Coordinator) (r : Ref)
    → is_selectable (c.world.prs r).priority ≡ true
    → is_selectable ((handler_priority_update env form c).0.world.prs r).priority ≡ true
unfolding handler_priority_update form_to_priority_updates
handler_priority_update-bounds env (err e) c r h = h
handler_priority_update-bounds env (ok form) c r h =
    let unset : BranchId = record { repository_owner = ""; repository = ""; branch = "" } in
    let none_yet : PrPriorityUpdates = record { branch_id = unset; updates = [] } in
    let bounded = add_values-bounded form none_yet refl in
    elim (Result-cases (form_to_priority_updates form)) [
      | inr (e, f) ↦ ground (arith, f)
      | inl (u, f) ↦
          let within : all in_bounds u.updates ≡ true = sym (ap is_bounded f) ∙ bounded in
          ground (arith, f, updated-bounded env u.branch_id u.updates c r within h)
    ]
