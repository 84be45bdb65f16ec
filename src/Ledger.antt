-- ===== src/Ledger.antt =====
-- internal/repository/postgres/webhook_repo.go: the SQL statements of the idempotency ledger, each
-- one atomic, as functions on the table `processed_webhooks`. `now` is the server's now().
--
-- The table's primary key is the event id, so a statement that names an event finds one row at most.
-- Every UPDATE here changes some column, so the trigger that owns `updated_at` always fires.
pub mod Scans
pub mod History
pub mod Lookup
pub mod Keys
pub mod Final
pub mod Constraints
pub mod Claims
pub mod Reports
pub mod Tests
use stripe_payment_service.Prelude.{
  ℕ, zero, suc, ◌+◌, ◌-◌, ◌*◌, ◌^◌, min, String, Bool, true, false, not, ◌&&◌, ◌||◌, Option, none,
  some, List, [], ◌∷◌, map, ◌==◌, ltb, leb, is_none, is_some, length, take, keep, count_where,
  any_where, bytes, if◌then◌else◌,
}
use stripe_payment_service.Prelude.Table
use stripe_payment_service.Domain.Status.{
  WebhookStatus, processing, succeeded, failed, skipped, is_processing, is_failed, is_settled,
}
use stripe_payment_service.Domain.Time.{Time, Duration, minute}
use stripe_payment_service.Domain.Webhook.{ProcessedWebhook, Delivery}

abbrev pub Ledger : Type 0
Ledger = List ProcessedWebhook

abbrev pub event_key : ProcessedWebhook → String
event_key r = r.event_id

abbrev pub find_event : String → Ledger → Option ProcessedWebhook
find_event = Table.lookup event_key

-- payloadOrNil
abbrev pub payload_or_nil : String → Option String
payload_or_nil p = if p == "" then none else some p

-- The row that a first claim inserts.
abbrev pub claimed_row : Time → Delivery → ProcessedWebhook
claimed_row now w = record {
  event_id = w.event_id;
  event_type = w.event_type;
  api_version = w.api_version;
  livemode = w.livemode;
  request_id = w.request_id;
  status = processing;
  attempts = 1;
  last_error = none;
  payload = payload_or_nil w.payload;
  payload_purged_at = none;
  stripe_created_at = w.stripe_created_at;
  received_at = now;
  processed_at = none;
  created_at = now;
  updated_at = now;
}

-- The WHERE of the ON CONFLICT branch.
abbrev pub reclaimable : Duration → Time → ProcessedWebhook → Bool
reclaimable stale_after now r =
    is_failed r.status || (is_processing r.status && ltb (r.updated_at + stale_after) now)

-- A claim of a row that exists: TryClaimEvent's DO UPDATE, and ClaimEventForRetry.
abbrev pub claim_again : Time → ProcessedWebhook → ProcessedWebhook
claim_again now r = record r {
  status = processing;
  attempts = r.attempts + 1;
  last_error = none;
  updated_at = now;
}

-- The INSERT … ON CONFLICT of TryClaimEvent, with the row that it returns.
-- It is for deliveries whose id and payload meet the table's CHECK constraints: an id of `evt_` with letters
-- and digits, and a payload that is a JSON object, as Stripe's events have. The INSERT of another one fails
-- and leaves the table.
unfoldable pub claim : Duration → Time → Delivery → Ledger → Option ProcessedWebhook × Ledger
claim stale_after now w t = elim (find_event w.event_id t) [
  | none ↦ (some (claimed_row now w), Table.insert event_key (claimed_row now w) t)
  | some r ↦
      if reclaimable stale_after now r
      then (some (claim_again now r), Table.update event_key w.event_id (claim_again now) t)
      else (none, t)
]

-- An UPDATE … WHERE event_id = id AND guard, with the number of rows affected.
unfoldable pub update_event :
    (ProcessedWebhook → Bool) → (ProcessedWebhook → ProcessedWebhook) → String → Ledger → ℕ × Ledger
update_event guard f id t = elim (find_event id t) [
  | none ↦ (0, t)
  | some r ↦ if guard r then (1, Table.update event_key id f t) else (0, t)
]

abbrev pub in_flight : ProcessedWebhook → Bool
in_flight r = is_processing r.status

abbrev pub set_processed : Time → ProcessedWebhook → ProcessedWebhook
set_processed now r = record r {
  status = succeeded;
  last_error = none;
  processed_at = some now;
  updated_at = now;
}

abbrev pub set_skipped : Time → List ℕ → ProcessedWebhook → ProcessedWebhook
set_skipped now reason r = record r {
  status = skipped;
  last_error = some reason;
  processed_at = some now;
  updated_at = now;
}

abbrev pub set_failed : Time → List ℕ → ProcessedWebhook → ProcessedWebhook
set_failed now reason r = record r {
  status = failed;
  last_error = some reason;
  processed_at = none;
  updated_at = now;
}

-- The UPDATE of MarkEventProcessed, MarkEventSkipped and MarkEventFailed.
abbrev pub settle_processed : Time → String → Ledger → ℕ × Ledger
settle_processed now = update_event in_flight (set_processed now)

abbrev pub settle_skipped : Time → List ℕ → String → Ledger → ℕ × Ledger
settle_skipped now reason = update_event in_flight (set_skipped now reason)

abbrev pub settle_failed : Time → List ℕ → String → Ledger → ℕ × Ledger
settle_failed now reason = update_event in_flight (set_failed now reason)

-- The WHERE of ClaimEventForRetry.
abbrev pub retry_guard : ℕ → ProcessedWebhook → Bool
retry_guard max_attempts r = is_failed r.status && ltb r.attempts max_attempts

abbrev pub claim_for_retry : ℕ → Time → String → Ledger → ℕ × Ledger
claim_for_retry max_attempts now = update_event (retry_guard max_attempts) (claim_again now)
