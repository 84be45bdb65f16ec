-- ===== src/Repository.antt =====
-- The repositories of internal/repository/postgres as the services call them: validation, the call of
-- the database, and the errors of each method.
pub mod Users
pub mod Sessions
use Prim.Native.String.{◌++◌ as join}
use stripe_payment_service.Prelude.{
  ℕ, zero, suc, String, ◌≡◌, refl, Bool, true, false, Option, none, some, List, any_where, nat_eq,
  bytes,
}
use stripe_payment_service.Domain.Errors.{
  Result, ok, err, Failure, sentinel_failure, wrap, validation_result, event_not_claimed, map_error,
  no_rows,
}
use stripe_payment_service.Domain.Time.{Time, Duration}
use stripe_payment_service.Domain.Webhook
use stripe_payment_service.Domain.Webhook.{Delivery, ProcessedWebhook}
use stripe_payment_service.Domain.Subscription
use stripe_payment_service.Domain.Subscription.{Subscription, Uuid}
use stripe_payment_service.Truncate.{truncate, failure_reason}
use stripe_payment_service.Ledger.{Ledger, claim, settle_processed, settle_skipped, settle_failed}
use stripe_payment_service.Ledger.{claim_for_retry}
use stripe_payment_service.Ledger.Scans.{
  reclaim_abandoned, RetryQuery, list_retryable, LedgerStats, ledger_stats, PurgeQuery, PurgeResult,
  purge_payloads, RetentionStats, retention_stats,
}
use stripe_payment_service.Billing.{
  Subscriptions, StatusUpdate, InvoiceUpdate, update_status, record_invoice, insert_subscription,
  count_in_dunning, find_subscription,
}
use stripe_payment_service.Stripe.Objects.{Platform}
use stripe_payment_service.Run.{World, Run, pure, raise, lift, reads, statement, ◌>>=◌, ◌>>◌}

-- A statement of the ledger.
abbrev pub on_ledger : {A : Type 0} → String → (Time → Ledger → A × Ledger) → Run A
on_ledger op f =
    statement op λ now w. let (a, t) = f now w.ledger in (ok a, record w { ledger = t })

-- TryClaimEvent. The row that it returns is the caller's record with the columns filled in.
unfoldable pub try_claim_event : Platform → Duration → Delivery → Run (Option ProcessedWebhook)
try_claim_event p stale_after w = elim (validation_result (Webhook.validate p.json_valid w)) [
  | some e ↦ raise e
  | none ↦ on_ledger "claim webhook event" λ now t. claim stale_after now w t
]

-- `tag.RowsAffected() == 0`
abbrev pub settled : String → String → ℕ → Run Unit
settled op id zero = raise (wrap (join op (join " " id)) (sentinel_failure event_not_claimed))
settled op id (suc n) = pure tt

-- MarkEventProcessed
unfoldable pub mark_event_processed : String → Run Unit
mark_event_processed id = do
  n ← on_ledger "mark webhook processed" λ now t. settle_processed now id t
  settled "mark webhook processed" id n

-- MarkEventSkipped
unfoldable pub mark_event_skipped : String → String → Run Unit
mark_event_skipped id reason = do
  n ← on_ledger "mark webhook skipped" λ now t. settle_skipped now (truncate (bytes reason)) id t
  settled "mark webhook skipped" id n

-- MarkEventFailed
unfoldable pub mark_event_failed : String → Failure → Run Unit
mark_event_failed id cause = do
  n ← on_ledger "mark webhook failed" λ now t. settle_failed now (failure_reason (some cause)) id t
  settled "mark webhook failed" id n

-- A transaction on one subscription: it begins, locks the row and decides, updates, and commits.
-- Until the commit the table is as it was; no other transaction writes the row meanwhile.
unfoldable pub transaction :
    String → (Subscriptions → Result Subscription × Subscriptions) → Run Subscription
transaction op change = do
  statement (join op ": begin") λ now w. (ok tt, w)
  s ← statement (join op ": lock row") λ now w. ((change w.subscriptions).0, w)
  statement op λ now w. (ok tt, w)
  statement (join op ": commit")
      λ now w. (ok s, record w { subscriptions = (change w.subscriptions).1 })

-- UpdateSubscriptionStatus
abbrev pub update_subscription_status : StatusUpdate → Run Subscription
update_subscription_status u = transaction "update subscription status" (update_status u)

-- RecordInvoicePayment
abbrev pub record_invoice_payment : InvoiceUpdate → Run Subscription
record_invoice_payment u = transaction "record invoice payment" (record_invoice u)

-- CreateSubscription
unfoldable pub create_subscription : Platform → Subscription → Run Subscription
create_subscription p s = elim (validation_result (Subscription.validate p.to_lower s)) [
  | some e ↦ raise e
  | none ↦ statement "create subscription" λ now w.
      let exists = any_where (λ u. nat_eq u.id s.user_id) w.users in
      let (r, t) = insert_subscription now exists s w.subscriptions in
      (r, record w { subscriptions = t })
]

abbrev the_subscription : Option Subscription → Result Subscription
the_subscription none = err (map_error "get subscription by stripe id" no_rows)
the_subscription (some s) = ok s

-- GetSubscriptionByStripeID
unfoldable pub get_subscription_by_stripe_id : String → Run Subscription
get_subscription_by_stripe_id id =
    statement "get subscription by stripe id"
      λ now w. (the_subscription (find_subscription id w.subscriptions), w)

-- CountInDunning
unfoldable pub count_subscriptions_in_dunning : Run ℕ
count_subscriptions_in_dunning =
    statement "count subscriptions in dunning" λ now w. (ok (count_in_dunning w.subscriptions), w)

-- ClaimEventForRetry
unfoldable pub claim_event_for_retry : String → ℕ → Run Bool
claim_event_for_retry id max_attempts = do
  n ← on_ledger "claim event for retry" λ now t. claim_for_retry max_attempts now id t
  pure (nat_eq n 1)

-- ReclaimAbandonedEvents
unfoldable pub reclaim_abandoned_events : Duration → ℕ → Run (List String)
reclaim_abandoned_events stale_after limit =
    on_ledger "reclaim abandoned events" λ now t. reclaim_abandoned stale_after limit now t

-- ListRetryableEvents
unfoldable pub list_retryable_events : RetryQuery → Run (List ProcessedWebhook)
list_retryable_events q = on_ledger "list retryable events" λ now t. (list_retryable q now t, t)

-- LedgerStats
unfoldable pub read_ledger_stats : ℕ → Run LedgerStats
read_ledger_stats max_attempts = on_ledger "ledger stats" λ now t. (ledger_stats max_attempts t, t)

-- PurgePayloads
unfoldable pub purge_stored_payloads : Platform → PurgeQuery → Run PurgeResult
purge_stored_payloads p q = on_ledger "purge payloads" λ now t. purge_payloads p.skeleton q now t

-- RetentionStats
unfoldable pub read_retention_stats : PurgeQuery → Run RetentionStats
read_retention_stats q = on_ledger "retention stats" λ now t. (retention_stats q now t, t)
