-- ===== src/Tests/Requests.antt =====
-- Requests: a form that sets the priority of a pull request.
use directorius.Prelude.{true, ◌≡◌, refl, [], ◌∷◌}
use directorius.Errors.{ok}
use directorius.Prelude.Int.{pos}
use directorius.Strconv.{parse_int, codes, parse_digits, digits_value}
use directorius.MergeQueue.HttpService.{form_to_priority_updates}
use directorius.MergeQueue.HttpService.Options.{
  page_form, priority_option, form_to_priority_updates-page,
}
use directorius.Tests.Branches.{main}
use directorius.MergeQueue.HttpService.{Form, handler_priority_update}
use directorius.MergeQueue.HttpService.Laws.{is_selectable, handler_priority_update-bounds}
use directorius.Tests.{env}
use directorius.Tests.Branches.{coordinator}

abbrev form : Form
form =
    ("owner", "o" ∷ [])
    ∷ ("repository", "r" ∷ [])
    ∷ ("basebranch", "main" ∷ [])
    ∷ ("2", "1" ∷ [])
    ∷ []

handler_priority_update-bounds_example :
    is_selectable ((handler_priority_update env (ok form) coordinator).0.world.prs 2).priority
    ≡ true
handler_priority_update-bounds_example =
    handler_priority_update-bounds env (ok form) coordinator 2 refl

form_to_priority_updates-page_example :
    form_to_priority_updates (page_form main (priority_option "2" (pos 1) (pos 0)))
    ≡ ok
        (record { branch_id = main; updates = record { pr_number = pos 2; priority = pos 1 } ∷ [] })
unfolding parse_int codes parse_digits digits_value
form_to_priority_updates-page_example =
    form_to_priority_updates-page main "2" (pos 2) (pos 1) (pos 0) refl refl
