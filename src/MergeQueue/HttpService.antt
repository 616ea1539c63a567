-- ===== src/MergeQueue/HttpService.antt =====
-- internal/mergequeue/httpservice.go: the handlers of the forms that set priorities and pause queues. What
-- `ParseForm` returns is given to a handler. The pages and the log are left out.
pub mod Laws
pub mod Options
use directorius.Prelude.{
  ℕ, String, Bool, true, false, Option, none, some, List, [], ◌∷◌, ◌++◌, lookup, str_eq,
  if◌then◌else◌,
}
use directorius.Prelude.Int.{ℤ, pos, negsuc, compare_ℤ}
use Prim.Native.Nat.{Ordering}
use directorius.Strconv.{codes, parse_int, int32_limit, int64_limit}
use directorius.Errors.{Err, Result, ok, err, message, wrapped}
use directorius.MergeQueue.World.{Env}
use directorius.MergeQueue.Queue.{BranchId}
use directorius.MergeQueue.Coordinator.{Coordinator}
use directorius.MergeQueue.Coordinator.Repository.{
  set_pull_request_priorities, pause_queue, resume_queue,
}

-- `url.Values`, in the order in which its keys are visited
abbrev pub Form : Type 0
Form = List (String × List String)

-- `Values.Get`
unfoldable pub form_get : Form → String → String
form_get form key = elim (lookup key form) [
  | none ↦ ""
  | some vals ↦ elim vals [ [] ↦ "" | v ∷ _ ↦ v ]
]

-- The answer of a handler: an error, or the redirection to the list.
pub data Reply : Type 0 where
  bad_request : Err → Reply
  see_other : Reply

-- `PRPriorityUpdate`
pub record PrPriorityUpdate : Type 0 where
  pub pr_number : ℤ
  pub priority : ℤ

-- `PRPriorityUpdates`
pub record PrPriorityUpdates : Type 0 where
  pub branch_id : BranchId
  pub updates : List PrPriorityUpdate

abbrev pub pr_priority_max : ℤ
pr_priority_max = pos 2

abbrev pub pr_priority_min : ℤ
pr_priority_min = negsuc 0

abbrev pub is_less : ℤ → ℤ → Bool
is_less x y = elim (compare_ℤ x y) [ Ordering.lt ↦ true | _ ↦ false ]

-- `formToBranchID`
unfoldable pub form_to_branch_id : Form → Result BranchId
unfolding form_get
form_to_branch_id form =
    if str_eq (form_get form "repository") ""
    then err (message "repository value is missing or empty")
    else if str_eq (form_get form "repository_owner") ""
    then err (message "repository_owner value is missing or empty")
    else if str_eq (form_get form "base_branch") ""
    then err (message "base_branch value is missing or empty")
    else ok (record {
      repository_owner = form_get form "repository_owner";
      repository = form_get form "repository";
      branch = form_get form "base_branch";
    })

abbrev pub one_value : List String → Option String
one_value (v ∷ []) = some v
one_value _ = none

-- The part of a round of the loop of `formToPriorityUpdates` after the priority was parsed.
unfoldable pub add_update : ℤ → ℤ → PrPriorityUpdates → Result PrPriorityUpdates
unfolding compare_ℤ
add_update n priority result =
    if is_less priority pr_priority_min
    then err (message "priority value is smaller than -1")
    else if is_less pr_priority_max priority
    then err (message "priority value is bigger than 2")
    else ok (record result {
      updates = result.updates ++ record { pr_number = n; priority = priority } ∷ [];
    })

-- The part of a round for the key of a pull request.
unfoldable pub add_priority : String → String → PrPriorityUpdates → Result PrPriorityUpdates
unfolding add_update
add_priority k val result = elim (parse_int int64_limit (codes k)) [
  | err e ↦ err (message "form key is not a pull request number")
  | ok n ↦ if str_eq val "unchanged" then ok result else elim (parse_int int32_limit (codes val)) [
    | err e ↦ err (wrapped "parsing priority value as int32 failed" e)
    | ok priority ↦ add_update n priority result
  ]
]

-- A round of the loop of `formToPriorityUpdates`.
unfoldable pub add_value : String → List String → PrPriorityUpdates → Result PrPriorityUpdates
unfolding add_priority
add_value k vals result = elim (one_value vals) [
  | none ↦ err (message "form value contains not exactly 1 value")
  | some v ↦
      if str_eq k "basebranch"
      then ok (record result { branch_id = record result.branch_id { branch = v } })
      else if str_eq k "owner"
      then ok (record result { branch_id = record result.branch_id { repository_owner = v } })
      else if str_eq k "repository"
      then ok (record result { branch_id = record result.branch_id { repository = v } })
      else add_priority k v result
]

-- The loop of `formToPriorityUpdates`.
unfoldable pub add_values : Form → PrPriorityUpdates → Result PrPriorityUpdates
unfolding add_value
add_values [] result = ok result
add_values ((k, vals) ∷ form) result = elim (add_value k vals result) [
  | err e ↦ err e
  | ok next ↦ add_values form next
]

-- `formToPriorityUpdates`
unfoldable pub form_to_priority_updates : Form → Result PrPriorityUpdates
unfolding add_values
form_to_priority_updates form = add_values form (record {
  branch_id = record { repository_owner = ""; repository = ""; branch = "" };
  updates = [];
})

-- The updates of the pull requests that can exist: no pull request has a negative number.
unfoldable pub known : List PrPriorityUpdate → List (ℕ × ℤ)
known [] = []
known (u ∷ updates) =
    let rest = known updates in
    elim u.pr_number [ pos n ↦ (n, u.priority) ∷ rest | negsuc n ↦ rest ]

-- `HandlerPriorityUpdate`
unfoldable pub handler_priority_update : Env → Result Form → Coordinator → Coordinator × Reply
unfolding form_to_priority_updates known set_pull_request_priorities
handler_priority_update env (err e) c = (c, bad_request (message "could not parse form data"))
handler_priority_update env (ok form) c = elim (form_to_priority_updates form) [
  | err e ↦ (c, bad_request (wrapped "parsing form data failed" e))
  | ok u ↦ (set_pull_request_priorities env u.branch_id (known u.updates) c, see_other)
]

-- `HandlerSuspendResume`
unfoldable pub handler_suspend_resume : Result Form → Coordinator → Coordinator × Reply
unfolding form_to_branch_id form_get pause_queue resume_queue
handler_suspend_resume (err e) c = (c, bad_request (message "could not parse form data"))
handler_suspend_resume (ok form) c = elim (form_to_branch_id form) [
  | err e ↦ (c, bad_request (wrapped "parsing form data failed" e))
  | ok b ↦
      let action = form_get form "action" in
      if str_eq action "resume"
      then (resume_queue b c, see_other)
      else if str_eq action "pause"
      then (pause_queue b c, see_other)
      else if str_eq action ""
      then (c, bad_request (message "action value is missing or empty"))
      else (c, bad_request (message "unexpected action value"))
]
