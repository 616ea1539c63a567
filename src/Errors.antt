-- ===== src/Errors.antt =====
-- Go error values, from internal/goorderr/error.go, internal/githubclt/errors.go and
-- internal/mergequeue/errors.go: what `errors.Is`, `errors.As` and `errors.Unwrap` can tell apart.
use directorius.Prelude.{
  arith, ℕ, String, ◌≡◌, refl, ◌⊎◌, inl, inr, Bool, true, false, Option, none, some,
}

pub data Err : Type 0 where
  -- the sentinels of the mergequeue package
  not_found already_exists pull_request_is_closed : Err
  -- `githubclt.ErrPullRequestIsClosed`
  github_pull_request_is_closed : Err
  -- `context.Canceled` and `context.DeadlineExceeded`
  context_canceled deadline_exceeded : Err
  -- an error with no cause: `errors.New(text)`
  message : String → Err
  -- `fmt.Errorf("text: %w", cause)`
  wrapped : String → Err → Err
  -- `ErrMergeConflict`
  merge_conflict : Err → Err
  -- `RetryableError`; the time is `After`, and 0 stands for the zero time
  retryable : ℕ → Err → Err

-- `NewRetryableError`
unfoldable pub new_retryable_error : Err → ℕ → Err
new_retryable_error original_err retry_after = retryable retry_after original_err

-- `NewRetryableAnytimeError`
unfoldable pub new_retryable_anytime_error : Err → Err
new_retryable_anytime_error original_err = retryable 0 original_err

-- the `Unwrap` methods
unfoldable pub unwrap : Err → Option Err
unwrap (wrapped text cause) = some cause
unwrap (merge_conflict cause) = some cause
unwrap (retryable after cause) = some cause
unwrap _ = none

-- `errors.As(err, &retryError)`: the first `RetryableError` of the chain, as its `After`
unfoldable pub as_retryable : Err → Option ℕ
as_retryable (wrapped text cause) = as_retryable cause
as_retryable (merge_conflict cause) = as_retryable cause
as_retryable (retryable after cause) = some after
as_retryable _ = none

-- `errors.As(err, &errMergeConflict)`
unfoldable pub is_merge_conflict : Err → Bool
is_merge_conflict (wrapped text cause) = is_merge_conflict cause
is_merge_conflict (merge_conflict cause) = true
is_merge_conflict (retryable after cause) = is_merge_conflict cause
is_merge_conflict _ = false

-- `errors.Is(err, ErrNotFound)`
unfoldable pub is_not_found : Err → Bool
is_not_found not_found = true
is_not_found (wrapped text cause) = is_not_found cause
is_not_found (merge_conflict cause) = is_not_found cause
is_not_found (retryable after cause) = is_not_found cause
is_not_found _ = false

-- `errors.Is(err, ErrAlreadyExists)`
unfoldable pub is_already_exists : Err → Bool
is_already_exists already_exists = true
is_already_exists (wrapped text cause) = is_already_exists cause
is_already_exists (merge_conflict cause) = is_already_exists cause
is_already_exists (retryable after cause) = is_already_exists cause
is_already_exists _ = false

-- `errors.Is(err, ErrPullRequestIsClosed)` of the mergequeue package
unfoldable pub is_closed_sentinel : Err → Bool
is_closed_sentinel pull_request_is_closed = true
is_closed_sentinel (wrapped text cause) = is_closed_sentinel cause
is_closed_sentinel (merge_conflict cause) = is_closed_sentinel cause
is_closed_sentinel (retryable after cause) = is_closed_sentinel cause
is_closed_sentinel _ = false

-- `errors.Is(err, context.Canceled)`
unfoldable pub is_canceled : Err → Bool
is_canceled context_canceled = true
is_canceled (wrapped text cause) = is_canceled cause
is_canceled (merge_conflict cause) = is_canceled cause
is_canceled (retryable after cause) = is_canceled cause
is_canceled _ = false

-- A result of a Go function that returns a value and an error.
pub data Result {ℓ} (A : Type ℓ) : Type ℓ where
  ok : A → Result A
  err : Err → Result A

infixl 5 ◌>>=◌
abbrev pub ◌>>=◌ {ℓ κ} : {A : Type ℓ} {B : Type κ} → Result A → (A → Result B) → Result B
ok a >>= f = f a
err e >>= f = err e

pub Result-cases {ℓ} :
    {A : Type ℓ} (r : Result A) → ((a : A) × (r ≡ ok a)) ⊎ ((e : Err) × (r ≡ err e))
Result-cases (ok a) = inl (a, refl)
Result-cases (err e) = inr (e, refl)

-- If `m >>= f` succeeds, both calls do.
pub >>=-eq-ok {ℓ κ} :
    {A : Type ℓ} {B : Type κ} (call : Result A) (next : A → Result B) {b : B}
    → (call >>= next) ≡ ok b
    → (a : A) × (call ≡ ok a) × (next a ≡ ok b)
>>=-eq-ok call next succeeds = elim (Result-cases call) [
  | inl (a, answered) ↦ (a, answered, ground (arith, succeeds, answered))
  | inr (e, failed) ↦ ground (arith, succeeds, failed)
]
