-- ===== src/Jenkins/Client.antt =====
-- internal/jenkins/client_queue.go and client_build.go: what the client makes of the answers of Jenkins. The
-- HTTP client, the decoding of JSON and `url.Parse` are parameters: an answer holds what they return. The
-- log is left out.
pub mod Polling
pub mod Answers
use directorius.Prelude.{
  ℕ, zero, suc, String, Bool, true, false, ◌&&◌, ◌||◌, not, Option, none, some, List, [], ◌∷◌, all,
  ltb, leb, ◌==◌, str_eq, if◌then◌else◌,
}
use directorius.Prelude.Int.{ℤ, pos, negsuc}
use directorius.Strconv.{
  Text, is_digit, is_empty_text, digits_value, int64_limit, int32_limit, negative, parse_digits,
  parse_int,
}
use directorius.Errors.{Err, Result, ok, err, ◌>>=◌, message, wrapped, new_retryable_anytime_error}
use directorius.Jenkins.BuildUrl.{slash, trim_prefix, split, ParsedBuild, parse_build_url}

-- `queueItem`: the URL of the executable stands for it
pub record QueueItem : Type 0 where
  pub class : String
  pub cancelled : Bool
  pub executable : Option Text

-- An answer to the request of `GetBuildURL`. The content length is `none` where it is not known; the
-- body is what `io.ReadAll` returns, and in it what `json.Unmarshal` does.
pub record Response : Type 0 where
  pub status_code : ℕ
  pub content_length : Option ℕ
  pub body : Result (Result QueueItem)

abbrev pub is_waiting_class : String → Bool
is_waiting_class class =
    str_eq class "hudson.model.Queue$WaitingItem"
    || str_eq class "hudson.model.Queue$BlockedItem"
    || str_eq class "hudson.model.Queue$BuildableItem"

abbrev pub is_left_class : String → Bool
is_left_class class = str_eq class "hudson.model.Queue$LeftItem"

-- `ErrBuildScheduled`
abbrev pub build_scheduled : Err
build_scheduled = message "build scheduled, build not available yet"

-- The case of an item that left the queue.
unfoldable pub left_item_url : QueueItem → Result Text
unfolding new_retryable_anytime_error
left_item_url item =
    if item.cancelled then err (message "queue item was cancelled") else elim item.executable [
      | none ↦ err (new_retryable_anytime_error (message "executable entry does not exit"))
      | some url ↦
          if is_empty_text url then err (message "executable.url entry is empty") else ok url
    ]

-- The switch of `GetBuildURL` over the class of the item.
unfoldable pub item_url : QueueItem → Result Text
unfolding left_item_url new_retryable_anytime_error
item_url item =
    if str_eq item.class ""
    then err (message "unmarshalled queue item response contains an empty class value")
    else if is_waiting_class item.class
    then err (new_retryable_anytime_error build_scheduled)
    else if is_left_class item.class
    then left_item_url item
    else err (message "unmarshalled queue item has unexpected class value")

abbrev pub is_empty_length : Option ℕ → Bool
is_empty_length none = false
is_empty_length (some n) = n == 0

-- The part of `GetBuildURL` that reads the body.
unfoldable pub decoded_url : Result (Result QueueItem) → Result Text
unfolding item_url new_retryable_anytime_error
decoded_url (err e) = err (new_retryable_anytime_error (wrapped "reading response body failed" e))
decoded_url (ok (err e)) =
    err (new_retryable_anytime_error (wrapped "unmarshalling response body failed" e))
decoded_url (ok (ok item)) = item_url item

-- The part of `GetBuildURL` after the status code.
unfoldable pub body_url : Response → Result Text
unfolding decoded_url new_retryable_anytime_error
body_url r =
    if is_empty_length r.content_length
    then err (new_retryable_anytime_error (message "response body is empty"))
    else decoded_url r.body

-- `GetBuildURL`, from the error of the making of the request and from the answer of Jenkins.
unfoldable pub get_build_url : Option Err → Result Response → Result Text
unfolding body_url new_retryable_anytime_error
get_build_url (some e) answer = err e
get_build_url none (err e) = err (new_retryable_anytime_error e)
get_build_url none (ok r) =
    if r.status_code == 404
    then err (message "server returned status code 404")
    else if not (r.status_code == 200)
    then err (new_retryable_anytime_error (message "server returned an unexpected status code"))
    else body_url r

-- `GetBuildFromQueueItemID`; `parse_url` is `url.Parse`, with the path of the URL.
unfoldable pub get_build_from_queue_item_id :
    (Text → Result Text) → Option Err → Result Response → Result ParsedBuild
unfolding get_build_url parse_build_url
get_build_from_queue_item_id parse_url request answer = elim (get_build_url request answer) [
  | err e ↦ err e
  | ok url ↦ elim (parse_url url >>= parse_build_url) [
    | err e ↦ err (wrapped "retrieving build url succeeded but parsing it failed" e)
    | ok build ↦ ok build
  ]
]

-- An answer to the request of `Build`: the location header is empty where it is missing.
pub record BuildResponse : Type 0 where
  pub status_code : ℕ
  pub location : Text

-- The last of the elements that are not empty.
unfoldable pub last_word : Text → List Text → Text
last_word found [] = found
last_word found (word ∷ words) = last_word (if is_empty_text word then found else word) words

-- `path.Base` of a path that is not empty
unfoldable pub base : Text → Text
unfolding last_word split
base path = last_word (slash ∷ []) (split path)

-- `/queue/item`
abbrev pub queue_prefix : Text
queue_prefix = b'/' ∷ b'q' ∷ b'u' ∷ b'e' ∷ b'u' ∷ b'e' ∷ b'/' ∷ b'i' ∷ b't' ∷ b'e' ∷ b'm' ∷ []

-- `queueItemIDFromLocationHeader`
unfoldable pub queue_item_id_from_location_header : (Text → Result Text) → Text → Result ℤ
unfolding trim_prefix base parse_int
queue_item_id_from_location_header parse_url location =
    if is_empty_text location
    then err (message "location header is missing")
    else elim (parse_url location) [
      | err e ↦ err (wrapped "location header value can not be parsed as url" e)
      | ok path ↦ elim (trim_prefix queue_prefix path) [
        | none ↦ err (message "location header value does not start with /queue/item")
        | some rest ↦ elim (parse_int int64_limit (base path)) [
          | err e ↦ err (wrapped "converting last url path element to an integer item id failed" e)
          | ok id ↦ ok id
        ]
      ]
    ]

-- `Build`, from the error of the making of the request and from the answer of Jenkins.
unfoldable pub build_job : (Text → Result Text) → Option Err → Result BuildResponse → Result ℤ
unfolding queue_item_id_from_location_header new_retryable_anytime_error
build_job parse_url (some e) answer = err e
build_job parse_url none (err e) = err (new_retryable_anytime_error e)
build_job parse_url none (ok r) =
    if ltb r.status_code 200 || leb 400 r.status_code
    then err (new_retryable_anytime_error (message "server returned an error status code"))
    else elim (queue_item_id_from_location_header parse_url r.location) [
      | err e ↦ err (wrapped "extracting queue item id from location header failed" e)
      | ok id ↦ ok id
    ]
