-- ===== src/Domain/Subscription.antt =====
-- Subscription of internal/domain/models.go, and its Validate.
use stripe_payment_service.Prelude.{
  ℕ, String, Bool, true, false, not, ◌&&◌, ◌||◌, Option, none, some, List, [], ◌∷◌, ◌==◌,
  starts_with, nat_eq, is_none, length, bytes,
}
use stripe_payment_service.Prelude.Int.{ℤ, negsuc, is_positive}
use stripe_payment_service.Domain.Errors.{FieldError, reject_when, collect}
use stripe_payment_service.Domain.Status.{SubscriptionStatus, is_valid, is_live, is_canceled}
use stripe_payment_service.Domain.Time.{Time, after}

-- A UUID is a number of 128 bits; uuid.Nil is 0.
abbrev pub Uuid : Type 0
Uuid = ℕ

pub record Subscription : Type 0 where
  pub user_id : Uuid
  pub stripe_subscription_id : String
  pub stripe_customer_id : String
  pub stripe_price_id : String
  pub stripe_product_id : Option String
  pub status : SubscriptionStatus
  pub quantity : ℤ
  pub currency : Option String
  pub unit_amount : Option ℤ
  pub current_period_start : Time
  pub current_period_end : Time
  pub cancel_at_period_end : Bool
  pub cancel_at : Option Time
  pub canceled_at : Option Time
  pub ended_at : Option Time
  pub trial_start : Option Time
  pub trial_end : Option Time
  pub latest_invoice_id : Option String
  pub default_payment_method_id : Option String
  pub payment_failed_at : Option Time
  pub payment_failure_count : ℕ
  pub last_payment_error : Option (List ℕ)
  pub next_payment_attempt_at : Option Time
  pub last_invoice_event_id : Option String
  pub last_invoice_event_at : Option Time
  pub last_stripe_event_id : Option String
  pub last_stripe_event_at : Option Time
  pub metadata : List (String × String)
  pub created_at : Time

abbrev bad_currency : (String → String) → Option String → Bool
bad_currency to_lower none = false
bad_currency to_lower (some c) = not (nat_eq (length (bytes c)) 3) || not (c == to_lower c)

abbrev is_negative : Option ℤ → Bool
is_negative (some (negsuc n)) = true
is_negative _ = false

abbrev bad_trial : Option Time → Option Time → Bool
bad_trial (some start) (some end) = not (after end start)
bad_trial _ _ = false

abbrev differ : Bool → Bool → Bool
differ true b = not b
differ false b = b

-- Subscription.Validate. `to_lower` is strings.ToLower. A failure count is a natural number here, so
-- that the check for a negative one is left out, and the detail of a bad status does not quote it.
unfoldable pub validate : (String → String) → Subscription → List FieldError
validate to_lower s = collect (
    reject_when (nat_eq s.user_id 0) "user_id" "is required"
    ∷ reject_when (not (starts_with s.stripe_subscription_id "sub_")) "stripe_subscription_id"
        "must begin with sub_"
    ∷ reject_when (not (starts_with s.stripe_customer_id "cus_")) "stripe_customer_id"
        "must begin with cus_"
    ∷ reject_when (not (starts_with s.stripe_price_id "price_")) "stripe_price_id"
        "must begin with price_"
    ∷ reject_when (not (is_valid s.status)) "status" "is not a known subscription status"
    ∷ reject_when (not (is_positive s.quantity)) "quantity" "must be greater than zero"
    ∷ reject_when (bad_currency to_lower s.currency) "currency"
        "must be a three-letter lowercase ISO 4217 code"
    ∷ reject_when (is_negative s.unit_amount) "unit_amount" "must not be negative"
    ∷ reject_when (not (after s.current_period_end s.current_period_start)) "current_period_end"
        "must be after current_period_start"
    ∷ reject_when (bad_trial s.trial_start s.trial_end) "trial_end" "must be after trial_start"
    ∷ reject_when (is_canceled s.status && is_none s.canceled_at) "canceled_at"
        "is required when status is canceled"
    ∷ reject_when (differ (is_none s.payment_failed_at) (nat_eq s.payment_failure_count 0))
        "payment_failed_at" "must be set exactly when payment_failure_count is greater than zero"
    ∷ [])

-- InDunning: a payment has failed and has not been recovered.
abbrev pub in_dunning : Subscription → Bool
in_dunning s = not (is_none s.payment_failed_at)

-- IsLive: the subscription grants access.
abbrev pub grants_access : Subscription → Bool
grants_access s = is_live s.status
