-- ===== src/Domain/Webhook.antt =====
-- ProcessedWebhook of internal/domain/models.go, and its Validate.
use stripe_payment_service.Prelude.{
  ℕ, String, Bool, not, ◌&&◌, Option, List, [], ◌∷◌, ◌==◌, starts_with, trim_space,
}
use stripe_payment_service.Domain.Errors.{FieldError, reject_when, collect}
use stripe_payment_service.Domain.Status.{WebhookStatus}
use stripe_payment_service.Domain.Time.{Time, is_zero}

-- The fields of a ProcessedWebhook that the caller of a claim fills in. The others are zero there,
-- the status too, so `Validate` has nothing to say of it.
pub record Delivery : Type 0 where
  pub event_id : String
  pub event_type : String
  pub api_version : Option String
  pub livemode : Bool
  pub request_id : Option String
  pub stripe_created_at : Time
  pub payload : String

-- A row of the idempotency ledger. Two columns have no field in the Go struct's scan list:
-- `payload_purged_at` is written and read by the retention statements alone.
pub record ProcessedWebhook : Type 0 where
  pub event_id : String
  pub event_type : String
  pub api_version : Option String
  pub livemode : Bool
  pub request_id : Option String
  pub status : WebhookStatus
  pub attempts : ℕ
  pub last_error : Option (List ℕ)
  pub payload : Option String
  pub payload_purged_at : Option Time
  pub stripe_created_at : Time
  pub received_at : Time
  pub processed_at : Option Time
  pub created_at : Time
  pub updated_at : Time

-- ProcessedWebhook.Validate. `json_valid` is encoding/json's Valid.
unfoldable pub validate : (String → Bool) → Delivery → List FieldError
validate json_valid w = collect (
    reject_when (not (starts_with w.event_id "evt_")) "event_id" "must begin with evt_"
    ∷ reject_when (trim_space w.event_type == "") "event_type" "is required"
    ∷ reject_when (is_zero w.stripe_created_at) "stripe_created_at" "is required"
    ∷ reject_when (not (w.payload == "") && not (json_valid w.payload)) "payload"
        "must be valid JSON"
    ∷ [])
