-- ===== src/Ledger/Reports.antt =====
-- What the scans of the ledger report and choose.
use stripe_payment_service.Prelude.{
  ℕ, ◌+◌, ◌≤◌, String, ◌≡◌, refl, true, some, [], ◌∷◌, arith, length, keep, count_where, All,
  All-take, length-take-le, inl, inr, Bool-cases,
}
use stripe_payment_service.Prelude.Table
use stripe_payment_service.Prelude.Sort.{order_by-All}
use stripe_payment_service.Domain.Status.{processing}
use stripe_payment_service.Domain.Time.{Time}
use stripe_payment_service.Domain.Webhook.{ProcessedWebhook}
use stripe_payment_service.Ledger.{Ledger, event_key, find_event, retry_guard}
use stripe_payment_service.Ledger.Lookup.{find-purge}
use stripe_payment_service.Ledger.Scans.{
  RetryQuery, is_retryable, list_retryable, ledger_stats, unsettled, is_unsettled, PurgeQuery,
  is_due, purge_payloads, backoff,
}

-- The three counts of the statistics divide the rows that are not settled: each is counted once.
pub ledger_stats-unsettled :
    (max_attempts : ℕ) (t : Ledger)
    → unsettled (ledger_stats max_attempts t) ≡ count_where is_unsettled t
unfolding ledger_stats
ledger_stats-unsettled max_attempts [] = refl
ledger_stats-unsettled max_attempts (r ∷ t) = ground (arith, ledger_stats-unsettled max_attempts t)

-- The list of events to retry is within its limit, and each event on it has failed, has attempts
-- left and has waited longer than its backoff, so that the claim for a retry accepts it.
pub list_retryable-claimable :
    (q : RetryQuery) (now : Time) (t : Ledger)
    → (length (list_retryable q now t) ≤ q.limit)
      × All
          (λ r.
            (retry_guard q.max_attempts r ≡ true) × (r.updated_at + backoff q r.attempts + 1 ≤ now))
          (list_retryable q now t)
unfolding list_retryable
list_retryable-claimable q now t = (
  length-take-le q.limit _,
  All-take _ q.limit _ (order_by-All _ _ (keep (is_retryable q now) t) (chosen t)),
)
  where
    chosen :
        (t : Ledger)
        → All
            (λ r.
              (retry_guard q.max_attempts r ≡ true)
              × (r.updated_at + backoff q r.attempts + 1 ≤ now))
            (keep (is_retryable q now) t)
    chosen [] = tt
    chosen (r ∷ t) = elim (Bool-cases (is_retryable q now r)) [
      | inl e ↦ rw e ((ground arith, ground arith), chosen t)
      | inr e ↦ rw e (chosen t)
    ]

-- The purge leaves a row in flight as it is, payload included, whatever its age.
pub purge-in_flight :
    (skeleton : String → String) (q : PurgeQuery) (now : Time) (t : Ledger) (id : String)
    (r : ProcessedWebhook)
    → Table.Unique event_key t
    → find_event id t ≡ some r
    → r.status ≡ processing
    → find_event id (purge_payloads skeleton q now t).1 ≡ some r
purge-in_flight skeleton q now t id r u e held =
    rw (find-purge id skeleton q now t, e)
      (ground (
        arith,
        Table.chosen-satisfies event_key (λ x. x.received_at) q.limit (is_due q now) t id r u e,
      ))
