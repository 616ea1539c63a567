-- ===== src/Jenkins/Client/Answers.antt =====
-- internal/jenkins/client_queue.go and client_build.go: which errors of the client are retried, and the number that
-- Jenkins gives to a queue item.
use directorius.Prelude.{
  Bool, true, false, ◌&&◌, ◌||◌, not, ◌≡◌, refl, ap, ◌∙◌, none, some, [], ◌∷◌, ◌++◌, all, ltb, ◌==◌,
  str_eq, arith, Bool-cases, inl, inr, eq_iff,
}
use directorius.Prelude.Int.{pos}
use directorius.Strconv.{
  Text, is_digit, is_empty_text, digits_value, int64_limit, parse_digits, parse_int,
}
use directorius.Errors.{Result, ok, err, new_retryable_anytime_error, as_retryable}
use directorius.Jenkins.BuildUrl.{slash, is_space, trim_prefix, split}
use directorius.Jenkins.BuildUrl.RoundTrip.{split-word}
use directorius.Jenkins.Client.{
  QueueItem, Response, is_waiting_class, is_left_class, left_item_url, item_url, decoded_url,
  is_empty_length, body_url, get_build_url, BuildResponse, last_word, base, queue_prefix,
  queue_item_id_from_location_header, build_job,
}

-- The answers to `GetBuildURL` that a later request may turn into a build: an error of the connection or
-- of the server other than 404, a response that can not be read, and an item that waits or that has no
-- executable although it left the queue and was not cancelled.
abbrev pub is_temporary_item : QueueItem → Bool
is_temporary_item item =
    is_waiting_class item.class
    || (is_left_class item.class
        && not item.cancelled
        && (elim item.executable [ none ↦ true | some _ ↦ false ]))

abbrev pub is_temporary_body : Result (Result QueueItem) → Bool
is_temporary_body (err _) = true
is_temporary_body (ok (err _)) = true
is_temporary_body (ok (ok item)) = is_temporary_item item

abbrev pub is_temporary : Result Response → Bool
is_temporary (err _) = true
is_temporary (ok r) =
    not (r.status_code == 404)
    && (not (r.status_code == 200) || is_empty_length r.content_length || is_temporary_body r.body)

-- Whether the retryer repeats a call with this result.
abbrev pub is_retried : {A : Type 0} → Result A → Bool
is_retried (ok _) = false
is_retried (err e) = elim (as_retryable e) [ none ↦ false | some _ ↦ true ]

left_item_url-retried :
    (item : QueueItem)
    → is_retried (left_item_url item)
      ≡ (not item.cancelled && (elim item.executable [ none ↦ true | some _ ↦ false ]))
unfolding left_item_url as_retryable new_retryable_anytime_error
left_item_url-retried item = ground arith

item_url-retried : (item : QueueItem) → is_retried (item_url item) ≡ is_temporary_item item
unfolding item_url as_retryable new_retryable_anytime_error
item_url-retried item = elim (Bool-cases (str_eq item.class "")) [
  | inl t ↦
      let e : item.class ≡ "" = (eq_iff item.class "").0 t in
      ground (arith, t, ap is_waiting_class e, ap is_left_class e)
  | inr f ↦ ground (arith, left_item_url-retried item)
]

decoded_url-retried :
    (body : Result (Result QueueItem)) → is_retried (decoded_url body) ≡ is_temporary_body body
unfolding decoded_url as_retryable new_retryable_anytime_error
decoded_url-retried (err e) = refl
decoded_url-retried (ok (err e)) = refl
decoded_url-retried (ok (ok item)) = item_url-retried item

body_url-retried :
    (r : Response)
    → is_retried (body_url r) ≡ (is_empty_length r.content_length || is_temporary_body r.body)
unfolding body_url as_retryable new_retryable_anytime_error
body_url-retried r = ground (arith, decoded_url-retried r.body)

-- `GetBuildURL` returns an error that is retried exactly for the answers that are temporary.
pub get_build_url-retried :
    (answer : Result Response) → is_retried (get_build_url none answer) ≡ is_temporary answer
unfolding get_build_url as_retryable new_retryable_anytime_error
get_build_url-retried (err e) = refl
get_build_url-retried (ok r) = ground (arith, body_url-retried r)

digits-no_slash :
    (digits : Text)
    → all is_digit digits ≡ true
    → all (λ c. not (c == slash || is_space c)) digits ≡ true
digits-no_slash [] h = refl
digits-no_slash (c ∷ digits) h = ground (arith, digits-no_slash digits (ground arith))

base-item :
    (digits : Text)
    → all is_digit digits ≡ true
    → is_empty_text digits ≡ false
    → base (queue_prefix ++ slash ∷ (digits ++ slash ∷ [])) ≡ digits
unfolding base split last_word
base-item digits h e =
    let words = split-word digits [] (digits-no_slash digits h) in
    ap (last_word (slash ∷ [])) (
      ap (λ l. [] ∷ (b'q' ∷ b'u' ∷ b'e' ∷ b'u' ∷ b'e' ∷ []) ∷ (b'i' ∷ b't' ∷ b'e' ∷ b'm' ∷ []) ∷ l)
        words)
    ∙ ground arith

parse_int-digits :
    (digits : Text)
    → all is_digit digits ≡ true
    → is_empty_text digits ≡ false
    → ltb (digits_value 0 digits) int64_limit ≡ true
    → parse_int int64_limit digits ≡ ok (pos (digits_value 0 digits))
unfolding parse_int parse_digits
parse_int-digits [] h e b = absurd (ground arith)
parse_int-digits (c ∷ digits) h e b = ground arith

-- `Build` returns the number of the queue item that Jenkins created, which is below 2^63, if the status is at least
-- 200 and below 400 and the path of the location header is `/queue/item/`, the number and a slash.
pub build_job-item :
    (parse_url : Text → Result Text) (r : BuildResponse) (digits : Text)
    → ltb r.status_code 200 ≡ false
    → ltb r.status_code 400 ≡ true
    → is_empty_text r.location ≡ false
    → parse_url r.location ≡ ok (queue_prefix ++ slash ∷ (digits ++ slash ∷ []))
    → all is_digit digits ≡ true
    → is_empty_text digits ≡ false
    → ltb (digits_value 0 digits) int64_limit ≡ true
    → build_job parse_url none (ok r) ≡ ok (pos (digits_value 0 digits))
unfolding build_job queue_item_id_from_location_header trim_prefix
build_job-item parse_url r digits low high location path h e b =
    ground (arith, path, base-item digits h e, parse_int-digits digits h e b)
