-- ===== src/Config/Patience.antt =====
-- internal/config/config.go: the check of validateRetention against the budget of the sweeper, and what it
-- means for PurgePayloads of internal/repository/postgres/webhook_repo.go.
use stripe_payment_service.Prelude.Table
use stripe_payment_service.Domain.Status.{is_settled}
use stripe_payment_service.Domain.Time.{Time}
use stripe_payment_service.Domain.Webhook.{ProcessedWebhook}
use stripe_payment_service.Ledger.{Ledger, event_key, find_event}
use stripe_payment_service.Ledger.Scans.{PurgeQuery, is_due, purge_payloads}
use stripe_payment_service.Ledger.Keys.{Unique}
use stripe_payment_service.Ledger.Lookup.{find-purge}
use stripe_payment_service.Prelude.{
  ℕ, ◌+◌, String, some, ◌*◌, ◌^◌, ◌≤◌, ◌<◌, ◌≡◌, inr, [], Bool, true, false, arith,
}
use stripe_payment_service.Prelude.Int.{pos, lt_int, mul_int64-fits}
use stripe_payment_service.Config.{
  Process, Config, SweeperSettings, RetentionSettings, is_production,
}
use stripe_payment_service.Config.Load.{load}
use stripe_payment_service.Config.Accepted.{concat-nil, load-inversion}
use stripe_payment_service.Config.Safety.{implied}
use stripe_payment_service.Config.Validate.{
  validate, all_checks, retention_checks, validate_retention, ten_budgets,
}

-- Where ten budgets fit into 64 bits, they are their exact product.
ten_budgets-exact :
    (s : SweeperSettings) (a b : ℕ)
    → s.max_attempts ≡ pos a
    → s.max_backoff ≡ pos b
    → 10 * (a * b) < 2 ^ 63
    → ten_budgets s ≡ pos (10 * (a * b))
ten_budgets-exact s a b attempts backoff small =
    rw (attempts, backoff, mul_int64-fits a b (omega arith)) (mul_int64-fits 10 (a * b) small)

unsettled-checked :
    (production : Bool) (s : SweeperSettings) (r : RetentionSettings)
    → validate_retention production s r ≡ []
    → s.enabled ≡ true
    → r.enabled ≡ true
    → lt_int r.unsettled_payload_after (ten_budgets s) ≡ false
unfolding validate_retention
unsettled-checked production s r e sweeps runs =
    implied _ _ _ (concat-nil (retention_checks s r) (rw runs at e)).1.1.1.1.0 sweeps

long_enough :
    (p : Process) (c : Config) (a b u : ℕ)
    → load p ≡ inr c
    → c.sweeper.enabled ≡ true
    → c.retention.enabled ≡ true
    → c.sweeper.max_attempts ≡ pos a
    → c.sweeper.max_backoff ≡ pos b
    → c.retention.unsettled_payload_after ≡ pos u
    → 10 * (a * b) < 2 ^ 63
    → 10 * (a * b) ≤ u
unfolding validate
long_enough p c a b u e sweeps runs attempts backoff kept small =
    let (same, parsed, valid) = load-inversion p c e in
    let parts = concat-nil (all_checks p c) valid in
    let checked =
      unsettled-checked (is_production c.app.environment) c.sweeper c.retention parts.1.1.1.1.0
        sweeps runs in
    let long : lt_int (pos u) (pos (10 * (a * b))) ≡ false =
      rw (kept, ten_budgets-exact c.sweeper a b attempts backoff small) at checked in
    ground arith

-- Where the sweeper and the retention worker of a loaded configuration both run, and ten times the most
-- attempts times the longest wait fits into a signed 64-bit integer, an unsettled event keeps its payload
-- at least that long after its receipt: no purge with the configured window, which is a whole number of
-- microseconds, touches the row of such an event before. The configuration counts in nanoseconds, the
-- ledger in microseconds.
pub load-patient :
    (p : Process) (c : Config) (a b : ℕ) (q : PurgeQuery) (skeleton : String → String) (now : Time)
    (t : Ledger) (id : String) (r : ProcessedWebhook)
    → load p ≡ inr c
    → c.sweeper.enabled ≡ true
    → c.retention.enabled ≡ true
    → c.sweeper.max_attempts ≡ pos a
    → c.sweeper.max_backoff ≡ pos b
    → c.retention.unsettled_payload_after ≡ pos (1000 * q.unsettled_after)
    → 10 * (a * b) < 2 ^ 63
    → Unique t
    → find_event id t ≡ some r
    → is_settled r.status ≡ false
    → 1000 * now ≤ 1000 * r.received_at + 10 * (a * b)
    → find_event id (purge_payloads skeleton q now t).1 ≡ some r
load-patient p c a b q skeleton now t id r e sweeps runs attempts backoff kept small unique found
      loose early =
    let long =
      long_enough p c a b (1000 * q.unsettled_after) e sweeps runs attempts backoff kept small in
    let soon : now ≤ r.received_at + q.unsettled_after = omega (arith, long, early) in
    rw (find-purge id skeleton q now t, found)
      (ground (
        arith,
        soon,
        loose,
        Table.chosen-satisfies event_key (λ x. x.received_at) q.limit (is_due q now) t id r unique
            found,
      ))
