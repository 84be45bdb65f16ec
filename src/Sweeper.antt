-- ===== src/Sweeper.antt =====
-- internal/worker/webhook_sweeper.go: one pass over the ledger, and its report. Failures of the database
-- end a step and are logged only.
pub mod Bounds
pub mod Rows
pub mod Budget
pub mod Alerts
pub mod Progress
pub mod Drain
pub mod Tests
use stripe_payment_service.Prelude.{
  or_default, ℕ, zero, suc, ◌+◌, ◌-◌, ◌*◌, String, Bool, true, false, Option, none, some, List, [],
  ◌∷◌, length, nat_eq, ltb, is_some, if◌then◌else◌,
}
use stripe_payment_service.Domain.Errors.{Result, ok, err, Failure, failure, other}
use stripe_payment_service.Domain.Time.{Time, Duration, second, minute, hour}
use stripe_payment_service.Domain.Webhook.{ProcessedWebhook}
use stripe_payment_service.Ledger.Scans.{RetryQuery, LedgerStats, unsettled}
use stripe_payment_service.Stripe.Objects.{Platform}
use stripe_payment_service.Run.{
  World, Run, pure, raise, attempt, reads, note, set_gauge, ledger_gauge, dunning_gauge, ◌>>=◌,
  ◌>>◌,
}
use stripe_payment_service.Logger.{Level, level_debug, level_info, level_warn, level_error}
use stripe_payment_service.Repository.{
  claim_event_for_retry, reclaim_abandoned_events, list_retryable_events, read_ledger_stats,
  count_subscriptions_in_dunning,
}
use stripe_payment_service.Webhook.Handlers.{
  Outcome, outcome_processed, outcome_duplicate, outcome_skipped, outcome_stale, outcome_failed,
}
use stripe_payment_service.Webhook.Service.{replay_event}

-- A duration or a count that is not positive in the code is 0 here.
pub record SweeperConfig : Type 0 where
  pub interval : Duration
  pub stale_claim_after : Duration
  pub max_attempts : ℕ
  pub base_backoff : Duration
  pub max_backoff : Duration
  pub batch_size : ℕ
  pub alert_after : Duration

-- withDefaults
unfoldable pub with_defaults : SweeperConfig → SweeperConfig
with_defaults c = record {
  interval = or_default c.interval minute;
  stale_claim_after = or_default c.stale_claim_after (5 * minute);
  max_attempts = or_default c.max_attempts 6;
  base_backoff = or_default c.base_backoff (30 * second);
  max_backoff = or_default c.max_backoff (30 * minute);
  batch_size = or_default c.batch_size 100;
  alert_after = or_default c.alert_after hour;
}

-- The query that retryFailed asks.
abbrev pub retry_query : SweeperConfig → RetryQuery
retry_query c = record {
  max_attempts = c.max_attempts;
  base_backoff = c.base_backoff;
  max_backoff = c.max_backoff;
  limit = c.batch_size;
}

-- How many events were tried again, and how many of them did not fail.
pub record Retries : Type 0 where
  pub attempted : ℕ
  pub recovered : ℕ

abbrev pub no_retries : Retries
no_retries = record { attempted = 0; recovered = 0 }

abbrev pub recovered_by : Result Outcome → ℕ
recovered_by (err e) = 0
recovered_by (ok outcome_failed) = 0
recovered_by (ok o) = 1

abbrev pub retry_claimed : Platform → ProcessedWebhook → Result Bool → Run Retries
retry_claimed p event (err e) = do
  note level_error "could not claim event for retry"
  pure no_retries
retry_claimed p event (ok false) = pure no_retries
retry_claimed p event (ok true) = do
  r ← attempt (replay_event p (record event { attempts = event.attempts + 1 }))
  pure (record { attempted = 1; recovered = recovered_by r })

-- One round of the loop of retryFailed.
unfoldable pub retry_event : Platform → ℕ → ProcessedWebhook → Run Retries
retry_event p max_attempts event = do
  claimed ← attempt (claim_event_for_retry event.event_id max_attempts)
  retry_claimed p event claimed

-- The loop of retryFailed. `stopping` says when the context has ended.
unfoldable pub retry_events : Platform → ℕ → (Time → Bool) → List ProcessedWebhook → Run Retries
retry_events p max_attempts stopping [] = pure no_retries
retry_events p max_attempts stopping (event ∷ events) = do
  now ← reads (λ w. w.clock)
  if stopping now then pure no_retries else do
    one ← retry_event p max_attempts event
    rest ← retry_events p max_attempts stopping events
    pure (record {
      attempted = one.attempted + rest.attempted;
      recovered = one.recovered + rest.recovered;
    })

abbrev pub retry_listed :
    Platform → ℕ → (Time → Bool) → Result (List ProcessedWebhook) → Run Retries
retry_listed p max_attempts stopping (err e) = do
  note level_error "could not list retryable events"
  pure no_retries
retry_listed p max_attempts stopping (ok events) = retry_events p max_attempts stopping events

-- retryFailed
unfoldable pub retry_failed : Platform → SweeperConfig → (Time → Bool) → Run Retries
retry_failed p c stopping = do
  listed ← attempt (list_retryable_events (retry_query c))
  retry_listed p c.max_attempts stopping listed

abbrev pub reclaimed_ids : Result (List String) → Run ℕ
reclaimed_ids (err e) = do note level_error "could not reclaim abandoned claims"; pure 0
reclaimed_ids (ok []) = pure 0
reclaimed_ids (ok (id ∷ ids)) = do
  note level_warn "reclaimed abandoned webhook claims"
  pure (suc (length ids))

-- reclaimAbandoned
unfoldable pub reclaim_claims : SweeperConfig → Run ℕ
reclaim_claims c = do
  ids ← attempt (reclaim_abandoned_events c.stale_claim_after c.batch_size)
  reclaimed_ids ids

abbrev pub no_stats : LedgerStats
no_stats = record { in_processing = 0; retryable = 0; dead_lettered = 0; oldest_unsettled = none }

abbrev pub set_dunning : Result ℕ → Run Unit
set_dunning (err e) = note level_warn "could not read the dunning count"
set_dunning (ok n) = set_gauge (dunning_gauge n)

-- The gauges that report sets, where a registry and the subscriptions are attached.
abbrev pub publish : Bool → LedgerStats → Run Unit
publish false stats = pure tt
publish true stats = do
  set_gauge (ledger_gauge stats.in_processing stats.retryable stats.dead_lettered)
  n ← attempt count_subscriptions_in_dunning
  set_dunning n

abbrev pub is_aging : Duration → Time → Option Time → Bool
is_aging alert_after now none = false
is_aging alert_after now (some oldest) = ltb alert_after (now - oldest)

-- The line that report logs about the ledger.
unfoldable pub alert_line : SweeperConfig → Time → LedgerStats → Level × String
alert_line c now stats =
    if nat_eq (unsettled stats) 0
    then (level_debug, "webhook ledger is clean")
    else if ltb 0 stats.dead_lettered
    then (level_error, "webhook events are dead-lettered")
    else if is_aging c.alert_after now stats.oldest_unsettled
    then (level_error, "webhook backlog is going stale")
    else (level_info, "webhook backlog draining")

abbrev pub reporting : SweeperConfig → Bool → Result LedgerStats → Run LedgerStats
reporting c publishing (err e) = do note level_error "could not read ledger stats"; pure no_stats
reporting c publishing (ok stats) = do
  publish publishing stats
  now ← reads λ w. w.clock
  note (alert_line c now stats).0 (alert_line c now stats).1
  pure stats

-- report
unfoldable pub report : SweeperConfig → (publishing : Bool) → Run LedgerStats
report c publishing = do
  stats ← attempt (read_ledger_stats c.max_attempts)
  reporting c publishing stats

pub record SweepResult : Type 0 where
  pub reclaimed : ℕ
  pub retries : Retries
  pub stats : LedgerStats

-- Sweep
unfoldable pub sweep : Platform → SweeperConfig → Bool → (Time → Bool) → Run SweepResult
sweep p c publishing stopping = do
  ids ← reclaim_claims c
  retries ← retry_failed p c stopping
  stats ← report c publishing
  pure (record { reclaimed = ids; retries = retries; stats = stats })

abbrev judged : LedgerStats → Run LedgerStats
judged stats =
    if ltb 0 stats.dead_lettered
    then raise (failure other "webhook events are dead-lettered")
    else pure stats

-- HealthCheck, of which the statistics are lost where it fails
unfoldable pub sweeper_health : SweeperConfig → Run LedgerStats
sweeper_health c = do stats ← read_ledger_stats c.max_attempts; judged stats
