-- ===== src/Domain/Status.antt =====
-- Subscription and webhook statuses: internal/domain/models.go.
use stripe_payment_service.Prelude.{String, Bool, true, false, ◌==◌, if◌then◌else◌}

-- A `SubscriptionStatus` is a string in the code. `unknown` is any string that is none of the eight.
pub data SubscriptionStatus : Type 0 where
  incomplete incomplete_expired trialing active past_due canceled unpaid paused : SubscriptionStatus
  unknown : String → SubscriptionStatus

-- domain.SubscriptionStatus(s)
unfoldable pub subscription_status : String → SubscriptionStatus
subscription_status s =
    if s == "incomplete"
    then incomplete
    else if s == "incomplete_expired"
    then incomplete_expired
    else if s == "trialing"
    then trialing
    else if s == "active"
    then active
    else if s == "past_due"
    then past_due
    else if s == "canceled"
    then canceled
    else if s == "unpaid"
    then unpaid
    else if s == "paused"
    then paused
    else unknown s

abbrev pub is_valid : SubscriptionStatus → Bool
is_valid (unknown s) = false
is_valid _ = true

-- IsLive: the status grants access.
abbrev pub is_live : SubscriptionStatus → Bool
is_live trialing = true
is_live active = true
is_live past_due = true
is_live _ = false

-- IsTerminal: no further event is expected.
abbrev pub is_terminal : SubscriptionStatus → Bool
is_terminal canceled = true
is_terminal incomplete_expired = true
is_terminal _ = false

abbrev pub is_canceled : SubscriptionStatus → Bool
is_canceled canceled = true
is_canceled _ = false

pub data WebhookStatus : Type 0 where
  processing succeeded failed skipped : WebhookStatus

abbrev pub is_processing : WebhookStatus → Bool
is_processing processing = true
is_processing _ = false

abbrev pub is_failed : WebhookStatus → Bool
is_failed failed = true
is_failed _ = false

-- status IN ('succeeded', 'skipped')
abbrev pub is_settled : WebhookStatus → Bool
is_settled succeeded = true
is_settled skipped = true
is_settled _ = false
