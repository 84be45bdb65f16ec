-- ===== src/Ledger/Scans.antt =====
-- internal/repository/postgres/webhook_repo.go: the statements that scan the whole ledger.
use stripe_payment_service.Prelude.{
  ℕ, ◌+◌, ◌-◌, ◌*◌, ◌^◌, min, String, Bool, not, ◌&&◌, ◌||◌, Option, none, some, List, [], ◌∷◌, map,
  ◌==◌, ltb, leb, is_none, is_some, take, keep, count_where, any_where, bytes, if◌then◌else◌,
}
use stripe_payment_service.Prelude.Table.{update_where}
use stripe_payment_service.Prelude.Sort.{order_by}
use stripe_payment_service.Domain.Status.{is_processing, is_failed, is_settled}
use stripe_payment_service.Domain.Time.{Time, Duration}
use stripe_payment_service.Domain.Webhook.{ProcessedWebhook}
use stripe_payment_service.Ledger.{Ledger, event_key, set_failed}

-- `event_id IN (ids)`
abbrev pub id_among : List ProcessedWebhook → ProcessedWebhook → Bool
id_among chosen r = any_where (λ c. c.event_id == r.event_id) chosen

-- ReclaimAbandonedEvents: the WHERE of the inner SELECT.
abbrev pub is_abandoned : Duration → Time → ProcessedWebhook → Bool
is_abandoned stale_after now r = is_processing r.status && ltb (r.updated_at + stale_after) now

abbrev pub abandoned : Duration → ℕ → Time → Ledger → List ProcessedWebhook
abandoned stale_after limit now t =
    take limit (order_by (λ r. r.updated_at) (keep (is_abandoned stale_after now) t))

abbrev pub abandoned_reason : List ℕ
abandoned_reason = bytes "claim abandoned by a worker that did not settle it"

-- The ids of the rows that the UPDATE moved to 'failed', and the table after it.
unfoldable pub reclaim_abandoned : Duration → ℕ → Time → Ledger → List String × Ledger
reclaim_abandoned stale_after limit now t =
    let chosen = abandoned stale_after limit now t in
    (map event_key chosen, update_where (id_among chosen) (set_failed now abandoned_reason) t)

pub record RetryQuery : Type 0 where
  pub max_attempts : ℕ
  pub base_backoff : Duration
  pub max_backoff : Duration
  pub limit : ℕ

-- LEAST(base * POWER(2, attempts - 1), max)
abbrev pub backoff : RetryQuery → ℕ → Duration
backoff q attempts = min (q.base_backoff * 2 ^ (attempts - 1)) q.max_backoff

abbrev pub is_retryable : RetryQuery → Time → ProcessedWebhook → Bool
is_retryable q now r =
    is_failed r.status
    && (ltb r.attempts q.max_attempts && ltb (r.updated_at + backoff q r.attempts) now)

-- ListRetryableEvents
unfoldable pub list_retryable : RetryQuery → Time → Ledger → List ProcessedWebhook
list_retryable q now t = take q.limit (order_by (λ r. r.updated_at) (keep (is_retryable q now) t))

pub record LedgerStats : Type 0 where
  pub in_processing : ℕ
  pub retryable : ℕ
  pub dead_lettered : ℕ
  pub oldest_unsettled : Option Time

-- min(…), NULL over no row
abbrev pub least : List Time → Option Time
least [] = none
least (x ∷ xs) = elim (least xs) [ none ↦ some x | some y ↦ some (min x y) ]

abbrev pub is_unsettled : ProcessedWebhook → Bool
is_unsettled r = not (is_settled r.status)

abbrev pub is_dead_lettered : ℕ → ProcessedWebhook → Bool
is_dead_lettered max_attempts r = is_failed r.status && leb max_attempts r.attempts

abbrev pub is_within_budget : ℕ → ProcessedWebhook → Bool
is_within_budget max_attempts r = is_failed r.status && ltb r.attempts max_attempts

-- LedgerStats
unfoldable pub ledger_stats : ℕ → Ledger → LedgerStats
ledger_stats max_attempts t = record {
  in_processing = count_where (λ r. is_processing r.status) t;
  retryable = count_where (is_within_budget max_attempts) t;
  dead_lettered = count_where (is_dead_lettered max_attempts) t;
  oldest_unsettled = least (map (λ r. r.updated_at) (keep is_unsettled t));
}

-- LedgerStats.Unsettled
abbrev pub unsettled : LedgerStats → ℕ
unsettled s = s.in_processing + s.retryable + s.dead_lettered

pub record PurgeQuery : Type 0 where
  pub settled_after : Duration
  pub unsettled_after : Duration
  pub limit : ℕ

pub record PurgeResult : Type 0 where
  pub settled : ℕ
  pub unsettled : ℕ

-- PurgeResult.Total
abbrev pub total : PurgeResult → ℕ
total r = r.settled + r.unsettled

abbrev pub is_past_window : PurgeQuery → Time → ProcessedWebhook → Bool
is_past_window q now r =
    (is_settled r.status && ltb (r.received_at + q.settled_after) now)
    || (is_failed r.status && ltb (r.received_at + q.unsettled_after) now)

-- The WHERE of PurgePayloads.
abbrev pub is_due : PurgeQuery → Time → ProcessedWebhook → Bool
is_due q now r =
    is_some r.payload
    && (is_none r.payload_purged_at && (not (is_processing r.status) && is_past_window q now r))

abbrev pub due : PurgeQuery → Time → Ledger → List ProcessedWebhook
due q now t = take q.limit (order_by (λ r. r.received_at) (keep (is_due q now) t))

-- `skeleton` is the database's evaluation of the JSON expression `payloadSkeleton`.
abbrev pub purge_row : (String → String) → Time → ProcessedWebhook → ProcessedWebhook
purge_row skeleton now r = record r {
  payload = elim r.payload [ none ↦ none | some p ↦ some (skeleton p) ];
  payload_purged_at = some now;
  updated_at = now;
}

-- The loop over the statuses that the UPDATE returns.
unfoldable pub tally : List ProcessedWebhook → PurgeResult
tally [] = record { settled = 0; unsettled = 0 }
tally (r ∷ rs) =
    let rest = tally rs in
    if is_failed r.status
    then record rest { unsettled = rest.unsettled + 1 }
    else record rest { settled = rest.settled + 1 }

-- PurgePayloads
unfoldable pub purge_payloads :
    (String → String) → PurgeQuery → Time → Ledger → PurgeResult × Ledger
unfolding tally
purge_payloads skeleton q now t =
    let chosen = due q now t in
    (tally (keep (id_among chosen) t), update_where (id_among chosen) (purge_row skeleton now) t)

pub record RetentionStats : Type 0 where
  pub with_payload : ℕ
  pub purged : ℕ
  pub due_now : ℕ
  pub oldest_payload : Option Time

abbrev pub holds_payload : ProcessedWebhook → Bool
holds_payload r = is_some r.payload && is_none r.payload_purged_at

-- RetentionStats
unfoldable pub retention_stats : PurgeQuery → Time → Ledger → RetentionStats
retention_stats q now t = record {
  with_payload = count_where holds_payload t;
  purged = count_where (λ r. is_some r.payload_purged_at) t;
  due_now = count_where (is_due q now) t;
  oldest_payload = least (map (λ r. r.received_at) (keep holds_payload t));
}
