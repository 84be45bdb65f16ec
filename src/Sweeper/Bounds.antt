-- ===== src/Sweeper/Bounds.antt =====
-- internal/worker/webhook_sweeper.go: the counts of retryFailed.
use stripe_payment_service.Prelude.{
  ℕ, ◌≤◌, ◌≡◌, refl, Bool, true, false, inl, inr, none, some, Option, String, List, [], ◌∷◌, length,
  arith, Bool-cases,
}
use stripe_payment_service.Domain.Errors.{Result, ok, err}
use stripe_payment_service.Domain.Time.{Time}
use stripe_payment_service.Domain.Webhook.{ProcessedWebhook}
use stripe_payment_service.Ledger.Scans.{RetryQuery, list_retryable}
use stripe_payment_service.Ledger.Reports.{list_retryable-claimable}
use stripe_payment_service.Stripe.Objects.{Platform}
use stripe_payment_service.Run.{World, depart, arrive, statement, ◌>>=◌}
use stripe_payment_service.Repository.{list_retryable_events}
use stripe_payment_service.Webhook.Handlers.{
  Outcome, outcome_processed, outcome_duplicate, outcome_skipped, outcome_stale, outcome_failed,
}
use stripe_payment_service.Sweeper.{
  SweeperConfig, retry_query, Retries, recovered_by, retry_claimed, retry_event, retry_events,
  retry_listed, retry_failed,
}

-- The run ends with counts, of which the attempts are at most `n` and no fewer than the recoveries.
abbrev pub IsBounded : ℕ → Result Retries → Type 0
IsBounded n (err e) = ⊥
IsBounded n (ok s) = (s.recovered ≤ s.attempted) × (s.attempted ≤ n)

recovered_by-le : (r : Result Outcome) → recovered_by r ≤ 1
recovered_by-le (err e) = omega arith
recovered_by-le (ok outcome_processed) = omega arith
recovered_by-le (ok outcome_duplicate) = omega arith
recovered_by-le (ok outcome_skipped) = omega arith
recovered_by-le (ok outcome_stale) = omega arith
recovered_by-le (ok outcome_failed) = omega arith

retry_claimed-IsBounded :
    (p : Platform) (event : ProcessedWebhook) (r : Result Bool) (w : World)
    → IsBounded 1 (retry_claimed p event r w).0
unfolding ◌>>=◌
retry_claimed-IsBounded p event (err e) w = (omega arith, omega arith)
retry_claimed-IsBounded p event (ok false) w = (omega arith, omega arith)
retry_claimed-IsBounded p event (ok true) w = (recovered_by-le _, omega arith)

pub retry_event-IsBounded :
    (p : Platform) (max_attempts : ℕ) (event : ProcessedWebhook) (w : World)
    → IsBounded 1 (retry_event p max_attempts event w).0
unfolding retry_event ◌>>=◌
retry_event-IsBounded p max_attempts event w = retry_claimed-IsBounded p event _ _

-- The counts of a bounded run.
pub counted :
    (n : ℕ) (r : Result Retries)
    → IsBounded n r
    → (s : Retries) × (r ≡ ok s) × (s.recovered ≤ s.attempted) × (s.attempted ≤ n)
counted n (err e) h = absurd h
counted n (ok s) h = (s, refl, h.0, h.1)

retry_events-IsBounded :
    (p : Platform) (max_attempts : ℕ) (stopping : Time → Bool) (events : List ProcessedWebhook)
    (w : World)
    → IsBounded (length events) (retry_events p max_attempts stopping events w).0
unfolding retry_events ◌>>=◌
retry_events-IsBounded p max_attempts stopping [] w = (omega arith, omega arith)
retry_events-IsBounded p max_attempts stopping (event ∷ events) w =
    elim (Bool-cases (stopping w.clock)) [
      | inl over ↦ rw (over, retry_events) (omega arith, omega arith)
      | inr on ↦
          let v = (retry_event p max_attempts event w).1 in
          let (one, e, a, b) = counted 1 _ (retry_event-IsBounded p max_attempts event w) in
          let (rest, f, c, d) =
            counted (length events) _ (retry_events-IsBounded p max_attempts stopping events v) in
          rw (on, retry_events) (rw e (rw f (omega arith, omega arith)))
    ]

abbrev IsShort : ℕ → Result (List ProcessedWebhook) → Type 0
IsShort limit (err e) = Unit {0}
IsShort limit (ok events) = length events ≤ limit

arrive-IsShort :
    (q : RetryQuery) (x : Option String × World)
    → IsShort q.limit
        (arrive "list retryable events"
          (λ now w. (ok (list_retryable q now w.ledger), record w { ledger = w.ledger }))
          x).0
unfolding arrive
arrive-IsShort q (none, w) = (list_retryable-claimable q w.clock w.ledger).0
arrive-IsShort q (some text, w) = tt

retry_listed-IsBounded :
    (p : Platform) (c : SweeperConfig) (stopping : Time → Bool) (r : Result (List ProcessedWebhook))
    (w : World)
    → IsShort c.batch_size r
    → IsBounded c.batch_size (retry_listed p c.max_attempts stopping r w).0
unfolding ◌>>=◌
retry_listed-IsBounded p c stopping (err e) w h = (omega arith, omega arith)
retry_listed-IsBounded p c stopping (ok events) w h =
    let (s, e, a, b) =
      counted (length events) _ (retry_events-IsBounded p c.max_attempts stopping events w) in
    rw e (a, omega arith)

-- A pass always comes to an end with counts, whatever calls of the database fail and whenever it is
-- told to stop: it tries no more events than its batch size, and recovers no more than it tries.
pub retry_failed-IsBounded :
    (p : Platform) (c : SweeperConfig) (stopping : Time → Bool) (w : World)
    → IsBounded c.batch_size (retry_failed p c stopping w).0
unfolding retry_failed list_retryable_events statement ◌>>=◌
retry_failed-IsBounded p c stopping w =
    retry_listed-IsBounded p c stopping _ _ (arrive-IsShort (retry_query c) (depart w.trips w))
