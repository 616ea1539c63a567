-- ===== src/Tests/Builds.antt =====
-- Builds: a job of two elements at Jenkins, whose queue item waits before it becomes a build.
use directorius.Prelude.{true, false, ◌≡◌, refl, none, some, [], ◌∷◌}
use directorius.Strconv.{Text, digits_value}
use directorius.Errors.{Result, ok, deadline_exceeded}
use directorius.Retry.{Schedule, fire, ctx_done, run}
use directorius.Jenkins.BuildUrl.{leading_digits, match_build, join, parse_build_url}
use directorius.Jenkins.BuildUrl.RoundTrip.{build_path, parse_build_url-build_path}
use directorius.Jenkins.Client.{Response, get_build_url}
use directorius.Jenkins.Client.Answers.{is_retried, get_build_url-retried}
use directorius.Jenkins.Client.Polling.{ask, left, run-ask_build}

abbrev ci : Text
ci = b'c' ∷ b'i' ∷ []

abbrev branch_job : Text
branch_job = b'p' ∷ b'r' ∷ b'.' ∷ b'1' ∷ []

abbrev digits : Text
digits = b'2' ∷ b'7' ∷ []

abbrev suffix : Text
suffix = b'/' ∷ b'x' ∷ []

parse_build_url-build_path_example :
    parse_build_url (build_path (ci ∷ branch_job ∷ []) digits suffix)
    ≡ ok (record { job_name = join (ci ∷ branch_job ∷ []); number = 27 })
unfolding leading_digits match_build digits_value
parse_build_url-build_path_example =
    parse_build_url-build_path ci (branch_job ∷ []) digits suffix refl refl refl refl refl refl

abbrev waiting_item : Result Response
waiting_item = ok (record {
  status_code = 200;
  content_length = some 90;
  body = ok (
      ok (record {
        class = "hudson.model.Queue$WaitingItem";
        cancelled = false;
        executable = none;
      }));
})

abbrev twice : Schedule
twice = fire 5 (some 3) (fire 8 (some 4) (ctx_done deadline_exceeded))

-- The path of every URL.
abbrev path_of : Text → Result Text
path_of url = ok (build_path (ci ∷ branch_job ∷ []) digits suffix)

run-ask_build_example :
    run twice (ask path_of) (waiting_item ∷ ok (left (b'h' ∷ [])) ∷ [], none)
    ≡ (([], some (record { job_name = join (ci ∷ branch_job ∷ []); number = 27 })), none)
unfolding leading_digits match_build digits_value
run-ask_build_example =
    run-ask_build path_of (waiting_item ∷ []) [] (b'h' ∷ []) ci (branch_job ∷ []) digits suffix none
      twice refl refl refl refl refl refl refl refl refl refl

get_build_url-retried_example : is_retried (get_build_url none waiting_item) ≡ true
get_build_url-retried_example = get_build_url-retried waiting_item
