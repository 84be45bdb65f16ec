-- ===== src/Stripe/Objects.antt =====
-- The objects of github.com/stripe/stripe-go that internal/service and internal/stripe read, with the
-- fields that they read. A pointer to an object of which only the id is read is an optional id.
use stripe_payment_service.Prelude.{ℕ, String, Bool, ◌⊎◌, Option, List}
use stripe_payment_service.Prelude.Int.{ℤ}
use stripe_payment_service.Domain.Time.{Time}
use stripe_payment_service.Domain.Subscription.{Uuid}

pub record Event : Type 0 where
  pub id : String
  pub type : String
  pub api_version : String
  pub livemode : Bool
  pub request_id : Option String
  pub created : ℤ
  pub raw : String

pub record CheckoutSession : Type 0 where
  pub mode : String
  pub subscription : Option String
  pub customer : Option String
  pub client_reference_id : String
  pub metadata : List (String × String)

pub record Price : Type 0 where
  pub id : String
  pub currency : String
  pub unit_amount : ℤ
  pub product : Option String

pub record SubscriptionItem : Type 0 where
  pub price : Option Price
  pub quantity : ℤ
  pub current_period_start : ℤ
  pub current_period_end : ℤ

-- `items` is empty where the SDK's list is nil, too: the code treats the two alike.
pub record StripeSubscription : Type 0 where
  pub id : String
  pub customer : Option String
  pub status : String
  pub items : List SubscriptionItem
  pub cancel_at_period_end : Bool
  pub cancel_at : ℤ
  pub canceled_at : ℤ
  pub ended_at : ℤ
  pub trial_start : ℤ
  pub trial_end : ℤ
  pub latest_invoice : Option String
  pub default_payment_method : Option String
  pub metadata : List (String × String)

-- LastFinalizationError
pub record InvoiceError : Type 0 where
  pub decline_code : String
  pub code : String
  pub message : String

-- `parent_subscription` is parent.subscription_details.subscription, absent where a pointer on the
-- way is nil; `lines` has the subscription of each line item.
pub record Invoice : Type 0 where
  pub id : String
  pub parent_subscription : Option String
  pub lines : List (Option String)
  pub next_payment_attempt : ℤ
  pub period_start : ℤ
  pub period_end : ℤ
  pub last_finalization_error : Option InvoiceError

-- The types of an API error that the client tells apart.
pub data ErrorType : Type 0 where
  api rate_limit invalid_request card other_type : ErrorType

pub data SdkError : Type 0 where
  api_error : (type : ErrorType) (http_status : ℕ) (message request_id text : String) → SdkError
  transport : (text : String) → SdkError

-- What the service calls and this repository does not hold. The functions that may fail give an
-- error's text on the left. `construct_event` is webhook.ConstructEventWithOptions with the
-- configured secret and tolerance, at the time of the call; the `decode` functions are json.Unmarshal
-- into the named type; `retrieve_subscription` is the SDK's request at the time of the call.
pub record Platform : Type 0 where
  pub construct_event : (payload header : String) → Time → String ⊎ Event
  pub decode_event : String → String ⊎ Event
  pub decode_session : String → String ⊎ CheckoutSession
  pub decode_subscription : String → String ⊎ StripeSubscription
  pub decode_invoice : String → String ⊎ Invoice
  pub retrieve_subscription : String → Time → SdkError ⊎ StripeSubscription
  pub json_valid : String → Bool
  pub to_lower : String → String
  pub parse_uuid : String → Option Uuid
  pub render_uuid : Uuid → String
  pub same_email : String → String → Bool
  pub skeleton : String → String
