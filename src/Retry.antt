-- ===== src/Retry.antt =====
-- internal/retry/retryer.go: `Retryer.Run`, over a schedule of what its `select` meets. The context
-- always has a deadline, so every schedule ends.
pub mod Laws
use directorius.Prelude.{ℕ, ◌-◌, Bool, Option, none, some, ltb, if◌then◌else◌}
use directorius.Errors.{Err, message, as_retryable}

-- What `Run` meets at each round of its loop.
pub data Schedule : Type 0 where
  -- the timer fires and the action runs; where it fails, the time is the one that `time.Until`
  -- reads, and the second value is what `NextBackOff` returns, `none` for `backoff.Stop`
  fire : ℕ → Option ℕ → Schedule → Schedule
  -- the context is done, with the error `ctx.Err()`
  ctx_done : Err → Schedule
  -- `shutdownChan` is closed
  shutdown : Schedule

-- `retryIn`, after a failure at the time `now`
unfoldable pub retry_in : ℕ → ℕ → Option ℕ → Option ℕ
retry_in now after backoff = if ltb now after then some (after - now) else backoff

-- What follows an attempt that failed with the error: `none` if another attempt is scheduled, and
-- else the error that `Run` returns.
unfoldable pub after_failure : ℕ → Option ℕ → Err → Option Err
unfolding retry_in
after_failure now backoff e = elim (as_retryable e) [
  | none ↦ some e
  | some after ↦ elim (retry_in now after backoff) [
    | none ↦ some (message "bug: backoff timer returned stop signal")
    | some delay ↦ none
  ]
]

module _ {ℓ} {S : Type ℓ} where
  -- `Run` of an action on a state: the state that the attempts leave, and the error.
  unfoldable pub run : Schedule → (S → S × Option Err) → S → S × Option Err
  unfolding after_failure
  run (ctx_done e) fn s = (s, some e)
  run shutdown fn s = (s, some (message "event loop terminated, action not executed successful"))
  run (fire now backoff rest) fn s =
      let (s', failed) = fn s in
      let again : S × Option Err = run rest fn s' in
      elim failed [
        | none ↦ (s', none)
        | some e ↦ elim (after_failure now backoff e) [ none ↦ again | some e' ↦ (s', some e') ]
      ]
