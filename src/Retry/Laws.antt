-- ===== src/Retry/Laws.antt =====
-- internal/retry/retryer.go: what `Retryer.Run` guarantees.
use directorius.Prelude.{ℕ, ◌+◌, ◌≤◌, ◌≡◌, Option, none, some, arith, Option-cases, inl, inr}
use directorius.Errors.{Err}
use directorius.Retry.{Schedule, fire, ctx_done, shutdown, retry_in, after_failure, run}

-- A retry is never scheduled before the time that the error names.
pub retry_in-le :
    (now after : ℕ) (backoff : Option ℕ) {delay : ℕ}
    → retry_in now after backoff ≡ some delay
    → after ≤ now + delay
unfolding retry_in
retry_in-le now after backoff h = ground arith

module _ {ℓ} {S : Type ℓ} (fn : S → S × Option Err) (now : ℕ) (backoff : Option ℕ) (rest : Schedule)
    (s : S) where
  pub run-fire_ok : (fn s).1 ≡ none → run (fire now backoff rest) fn s ≡ ((fn s).0, none)
  unfolding run
  run-fire_ok h = rw (h, run)

  pub run-fire_again :
      (e : Err)
      → (fn s).1 ≡ some e
      → after_failure now backoff e ≡ none
      → run (fire now backoff rest) fn s ≡ run rest fn (fn s).0
  unfolding run
  run-fire_again e h a = rw (h, run) (rw (a, run))

  run-fire_stop :
      (e : Err) {e' : Err}
      → (fn s).1 ≡ some e
      → after_failure now backoff e ≡ some e'
      → run (fire now backoff rest) fn s ≡ ((fn s).0, some e')
  unfolding run
  run-fire_stop e h a = rw (h, run) (rw (a, run))

module _ {ℓ κ} {S : Type ℓ} (P : S → Type κ) (fn : S → S × Option Err)
    (keep : (t : S) → P t → (e : Err) → (fn t).1 ≡ some e → P (fn t).0) where
  -- What a successful attempt establishes, from what every failed one preserves, holds when `Run`
  -- reports success.
  pub run_attempts {μ} :
      (Q : S → Type μ) (sched : Schedule) (s : S)
      → ((t : S) → P t → (fn t).1 ≡ none → Q (fn t).0)
      → P s
      → (run sched fn s).1 ≡ none
      → Q (run sched fn s).0
  unfolding run
  run_attempts Q (ctx_done e) s done p h = cc
  run_attempts Q shutdown s done p h = cc
  run_attempts Q (fire now backoff rest) s done p h = elim (Option-cases (fn s).1) [
    | inl ok ↦ rw (run-fire_ok fn now backoff rest s ok) (done s p ok)
    | inr (e, failed) ↦ elim (Option-cases (after_failure now backoff e)) [
      | inl again ↦
          let q = run-fire_again fn now backoff rest s e failed again in
          rw q (run_attempts Q rest (fn s).0 done (keep s p e failed) (rw q at h))
      | inr (e', stop) ↦ absurd (cc (run-fire_stop fn now backoff rest s e failed stop))
    ]
  ]

module _ {ℓ κ} {S : Type ℓ} (P : S → Type κ) (fn : S → S × Option Err)
    (keep : (t : S) → P t → P (fn t).0) where
  -- What every attempt preserves holds when `Run` returns.
  pub run_preserves : (sched : Schedule) (s : S) → P s → P (run sched fn s).0
  unfolding run
  run_preserves (ctx_done e) s p = p
  run_preserves shutdown s p = p
  run_preserves (fire now backoff rest) s p = elim (Option-cases (fn s).1) [
    | inl ok ↦ rw (run-fire_ok fn now backoff rest s ok) (keep s p)
    | inr (e, failed) ↦ elim (Option-cases (after_failure now backoff e)) [
      | inl again ↦
          rw (run-fire_again fn now backoff rest s e failed again)
            (run_preserves rest (fn s).0 (keep s p))
      | inr (e', stop) ↦ rw (run-fire_stop fn now backoff rest s e failed stop) (keep s p)
    ]
  ]

  -- When `Run` reports success its last attempt succeeded: what a successful attempt establishes,
  -- from what every attempt preserves, holds.
  pub run_success {μ} :
      (Q : S → Type μ) (sched : Schedule) (s : S)
      → ((t : S) → P t → (fn t).1 ≡ none → Q (fn t).0)
      → P s
      → (run sched fn s).1 ≡ none
      → Q (run sched fn s).0
  run_success Q sched s done p h = run_attempts P fn (λ t q e g. keep t q) Q sched s done p h
