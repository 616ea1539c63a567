-- ===== src/Jenkins/Client/Polling.antt =====
-- internal/mergequeue/ci.go and internal/jenkins/client_queue.go: the retryer asks Jenkins for the build of a queue
-- item until it has one.
use directorius.Prelude.{
  ℕ, suc, zero, Bool, true, false, ◌≡◌, ap, ◌∙◌, Option, none, some, List, [], ◌∷◌, ◌++◌, all,
  length, ltb, arith, inl, inr,
}
use directorius.Strconv.{Text, is_digit, is_empty_text, digits_value, int64_limit}
use directorius.Errors.{
  Err, Result, ok, err, deadline_exceeded, new_retryable_anytime_error, Result-cases,
}
use directorius.Retry.{Schedule, fire, ctx_done, shutdown, retry_in, after_failure, run}
use directorius.Retry.Laws.{run-fire_ok, run-fire_again}
use directorius.Jenkins.BuildUrl.{leading_digits, match_build, join, ParsedBuild, parse_build_url}
use directorius.Jenkins.BuildUrl.RoundTrip.{is_word, build_path, parse_build_url-build_path}
use directorius.Jenkins.Client.{
  Response, left_item_url, item_url, decoded_url, body_url, get_build_url,
  get_build_from_queue_item_id,
}
use directorius.Jenkins.Client.Answers.{is_temporary, is_retried, get_build_url-retried}

-- The answers that Jenkins has left to give, and the build that was found.
abbrev pub Asking : Type 0
Asking = List (Result Response) × Option ParsedBuild

-- One attempt of `GetBuildFromQueueItemID` with the next answer. Where there is none the request ends
-- with its context.
unfoldable pub ask : (Text → Result Text) → Asking → Asking × Option Err
unfolding get_build_from_queue_item_id
ask parse_url ([], b) = (([], b), some (new_retryable_anytime_error deadline_exceeded))
ask parse_url (answer ∷ answers, b) = elim (get_build_from_queue_item_id parse_url none answer) [
  | ok build ↦ ((answers, some build), none)
  | err e ↦ ((answers, b), some e)
]

-- The schedule has time for so many failures and one more attempt.
abbrev pub lasts : ℕ → Schedule → Bool
lasts zero (fire now backoff rest) = true
lasts (suc n) (fire now (some delay) rest) = lasts n rest
lasts _ _ = false

-- The answer that the item became a build.
abbrev pub left : Text → Response
left url = record {
  status_code = 200;
  content_length = none;
  body = ok (
      ok (record {
        class = "hudson.model.Queue$LeftItem";
        cancelled = false;
        executable = some url;
      }));
}

again :
    (now delay : ℕ) (e : Err)
    → is_retried {A = Text} (err e) ≡ true
    → after_failure now (some delay) e ≡ none
unfolding after_failure retry_in
again now delay e h = ground arith

module _ (parse_url : Text → Result Text) where
  ask-temporary :
      (answer : Result Response) (answers : List (Result Response)) (b : Option ParsedBuild)
      → is_temporary answer ≡ true
      → (e : Err) × (ask parse_url (answer ∷ answers, b) ≡ ((answers, b), some e))
        × (is_retried {A = Text} (err e) ≡ true)
  unfolding ask get_build_from_queue_item_id
  ask-temporary answer answers b h =
      let r = get_build_url-retried answer in
      elim (Result-cases (get_build_url none answer)) [
        | inl (url, f) ↦ absurd (ground (arith, ap is_retried f))
        | inr (e, f) ↦ (e, ground arith, ground (arith, ap is_retried f))
      ]

  ask-build :
      (answer : Result Response) (answers : List (Result Response)) (b : Option ParsedBuild)
      (build : ParsedBuild)
      → get_build_from_queue_item_id parse_url none answer ≡ ok build
      → ask parse_url (answer ∷ answers, b) ≡ ((answers, some build), none)
  unfolding ask
  ask-build answer answers b build f = ground (arith, f)

  -- While Jenkins gives temporary answers, the retryer asks again, up to the first one that has a build.
  run-ask :
      (waiting answers : List (Result Response)) (answer : Result Response) (build : ParsedBuild)
      (b : Option ParsedBuild) (sched : Schedule)
      → all is_temporary waiting ≡ true
      → get_build_from_queue_item_id parse_url none answer ≡ ok build
      → lasts (length waiting) sched ≡ true
      → run sched (ask parse_url) (waiting ++ answer ∷ answers, b) ≡ ((answers, some build), none)
  run-ask [] answers answer build b (fire now backoff rest) h f l =
      let asked = ask-build answer answers b build f in
      run-fire_ok (ask parse_url) now backoff rest (answer ∷ answers, b) (ap (λ x. x.1) asked)
      ∙ ap (λ x. (x.0, none)) asked
  run-ask [] answers answer build b (ctx_done e) h f l = absurd (ground arith)
  run-ask [] answers answer build b shutdown h f l = absurd (ground arith)
  run-ask (w ∷ waiting) answers answer build b (ctx_done e) h f l = absurd (ground arith)
  run-ask (w ∷ waiting) answers answer build b shutdown h f l = absurd (ground arith)
  run-ask (w ∷ waiting) answers answer build b (fire now none rest) h f l = absurd (ground arith)
  run-ask (w ∷ waiting) answers answer build b (fire now (some delay) rest) h f l =
      let (e, asked, retried) = ask-temporary w (waiting ++ answer ∷ answers) b (ground arith) in
      run-fire_again (ask parse_url) now (some delay) rest (w ∷ (waiting ++ answer ∷ answers), b) e
        (ap (λ x. x.1) asked) (again now delay e retried)
      ∙ (ap (λ x. run rest (ask parse_url) x.0) asked
          ∙ run-ask waiting answers answer build b rest (ground arith) f l)

  get_build-left :
      (url path : Text) (build : ParsedBuild)
      → is_empty_text url ≡ false
      → parse_url url ≡ ok path
      → parse_build_url path ≡ ok build
      → get_build_from_queue_item_id parse_url none (ok (left url)) ≡ ok build
  unfolding get_build_from_queue_item_id get_build_url body_url decoded_url item_url left_item_url
  get_build-left url path build e p f = ground (arith, p, f)

  -- The retryer finds the build of a queue item: it asks Jenkins again as long as the answers are
  -- temporary, if its context lasts so long, and returns the name of the job and the number of the build
  -- from the URL of the first item that became one, without an error. The path of the URL is that of a
  -- build: one or more elements that are not empty, not `.` or `..` and have no slash or white space, a
  -- number below 2^63, and a rest that starts with no digit and has no slash that is followed by a digit
  -- before its first white space.
  pub run-ask_build :
      (waiting answers : List (Result Response)) (url word : Text) (job : List Text)
      (digits suffix : Text) (b : Option ParsedBuild) (sched : Schedule)
      → all is_temporary waiting ≡ true
      → lasts (length waiting) sched ≡ true
      → is_empty_text url ≡ false
      → parse_url url ≡ ok (build_path (word ∷ job) digits suffix)
      → all is_word (word ∷ job) ≡ true
      → all is_digit digits ≡ true
      → is_empty_text digits ≡ false
      → ltb (digits_value 0 digits) int64_limit ≡ true
      → leading_digits suffix ≡ []
      → match_build suffix ≡ none
      → run sched (ask parse_url) (waiting ++ ok (left url) ∷ answers, b) ≡ (
        (answers, some (record { job_name = join (word ∷ job); number = digits_value 0 digits })),
        none,
      )
  run-ask_build waiting answers url word job digits suffix b sched h l u p w d e n s m =
      let read = parse_build_url-build_path word job digits suffix w d e n s m in
      run-ask waiting answers (ok (left url)) _ b sched h
        (get_build-left url (build_path (word ∷ job) digits suffix) _ u p read) l
