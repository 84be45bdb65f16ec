-- ===== src/Domain/Errors.antt =====
-- The sentinel errors and the wrapping of errors: internal/domain/models.go, internal/stripe/client.go,
-- internal/repository/postgres/errors.go and internal/auth.
use Prim.Native.String.{◌++◌ as join}
use stripe_payment_service.Prelude.{
  ℕ, nat_eq, ◌≡◌, refl, ◌⊎◌, inl, inr, String, Bool, true, false, Option, none, some, List, [], ◌∷◌,
  ◌++◌, ◌==◌, if◌then◌else◌,
}

-- What `errors.Is` finds in an error's chain. `other` is an error that wraps no sentinel.
pub data Sentinel : Type 0 where
  not_found conflict validation stale_event event_not_claimed token_reused : Sentinel
  signature_verification invalid_request upstream : Sentinel
  credentials_mismatch token_expired token_invalid other : Sentinel

pub record Failure : Type 0 where
  pub sentinel : Sentinel
  pub text : String

-- fmt.Errorf("op: %w", err)
abbrev pub wrap : String → Failure → Failure
wrap op e = record e { text = join op (join ": " e.text) }

abbrev pub failure : Sentinel → String → Failure
failure s t = record { sentinel = s; text = t }

-- A result of Go's `(A, error)`: a value, or an error that is not nil.
pub data Result {ℓ} (A : Type ℓ) : Type ℓ where
  ok : A → Result A
  err : Failure → Result A

pub Result-cases {ℓ} :
    {A : Type ℓ} (r : Result A) → ((a : A) × (r ≡ ok a)) ⊎ ((e : Failure) × (r ≡ err e))
Result-cases (ok a) = inl (a, refl)
Result-cases (err e) = inr (e, refl)

-- What the database driver reports. `text` is the driver's own rendering of the error, and
-- `connection` stands for every error that does not come from the server.
pub data DriverError : Type 0 where
  no_rows : DriverError
  pg : (code constraint message text : String) → DriverError
  connection : (text : String) → DriverError

-- `constraintMessages`: a constraint's name, and an explanation of its violation.
abbrev pub constraint_messages : List (String × String)
constraint_messages =
    ("uq_users_email_active", "a live user already exists with this email")
    ∷ ("uq_users_stripe_customer_id", "this Stripe customer is already linked to another user")
    ∷ (
      "subscriptions_stripe_subscription_id_key",
      "this Stripe subscription has already been recorded",
    )
    ∷ (
      "subscriptions_user_id_fkey",
      "the referenced user does not exist, or still has billing history",
    )
    ∷ ("processed_webhooks_pkey", "this Stripe event has already been recorded")
    ∷ ("users_email_format_chk", "email is not a valid address")
    ∷ ("users_stripe_customer_id_format_chk", "stripe_customer_id must look like cus_...")
    ∷ ("subscriptions_period_order_chk", "current_period_end must be after current_period_start")
    ∷ ("subscriptions_quantity_positive_chk", "quantity must be greater than zero")
    ∷ ("subscriptions_canceled_at_chk", "canceled_at is required when status is canceled")
    ∷ (
      "subscriptions_currency_format_chk",
      "currency must be a three-letter lowercase ISO 4217 code",
    )
    ∷ ("processed_webhooks_event_id_format_chk", "event_id must look like evt_...")
    ∷ (
      "processed_webhooks_processed_at_chk",
      "processed_at must be set for a settled event and unset otherwise",
    )
    ∷ ("processed_webhooks_last_error_chk", "last_error is required when status is failed")
    ∷ (
      "subscriptions_stripe_subscription_id_format_chk",
      "stripe_subscription_id must look like sub_...",
    )
    ∷ []

-- A Go map of strings: a missing key reads as the empty string.
unfoldable pub read_map : List (String × String) → String → String
read_map [] k = ""
read_map ((j, v) ∷ m) k = if j == k then v else read_map m k

-- The explanation, or the server's message where there is none.
explanation : String → String → String
explanation constraint message =
    let known = read_map constraint_messages constraint in if known == "" then message else known

-- The sentinel for each SQLSTATE code that is told apart.
abbrev pub class_of_code : String → Sentinel
class_of_code code =
    if code == "23505"
    then conflict
    else if code == "23503"
    then conflict
    else if code == "23514"
    then validation
    else if code == "23502"
    then validation
    else if code == "22P02"
    then validation
    else if code == "22001"
    then validation
    else other

-- The text of the sentinel itself, which `%w` puts at the end.
abbrev pub sentinel_text : Sentinel → String
sentinel_text not_found = "resource not found"
sentinel_text conflict = "resource conflict"
sentinel_text validation = "validation failed"
sentinel_text stale_event = "stale stripe event"
sentinel_text event_not_claimed = "webhook event is not claimed for processing"
sentinel_text token_reused = "refresh token was already used"
sentinel_text signature_verification = "stripe webhook signature verification failed"
sentinel_text invalid_request = "stripe rejected the request"
sentinel_text upstream = "stripe upstream failure"
sentinel_text credentials_mismatch = "invalid credentials"
sentinel_text token_expired = "token has expired"
sentinel_text token_invalid = "token is not valid"
sentinel_text other = ""

abbrev number : Sentinel → ℕ
number not_found = 0
number conflict = 1
number validation = 2
number stale_event = 3
number event_not_claimed = 4
number token_reused = 5
number signature_verification = 6
number invalid_request = 7
number upstream = 8
number credentials_mismatch = 9
number token_expired = 10
number token_invalid = 11
number other = 12

-- errors.Is
abbrev pub is_sentinel : Sentinel → Failure → Bool
is_sentinel s e = nat_eq (number s) (number e.sentinel)

-- The sentinel error by itself.
abbrev pub sentinel_failure : Sentinel → Failure
sentinel_failure s = failure s (sentinel_text s)

explain : Sentinel → String → String → Failure
explain other known text = failure other text
explain s known text = wrap known (sentinel_failure s)

-- mapError, for an error that is not nil
unfoldable pub map_error : String → DriverError → Failure
unfolding explanation explain read_map
map_error op no_rows = wrap op (sentinel_failure not_found)
map_error op (pg code constraint message text) =
    wrap op (explain (class_of_code code) (explanation constraint message) text)
map_error op (connection text) = wrap op (failure other text)

-- One field that a Validate method rejects, and why.
pub record FieldError : Type 0 where
  pub field : String
  pub detail : String

abbrev field_text : FieldError → String
field_text e = join e.field (join ": " e.detail)

-- FieldErrors.Error
error_text : List FieldError → String
error_text [] = ""
error_text (e ∷ []) = field_text e
error_text (e ∷ es) = join (field_text e) (join "; " (error_text es))

-- `v.result()`: the error that a Validate method returns, or nil.
unfoldable pub validation_result : List FieldError → Option Failure
unfolding error_text
validation_result [] = none
validation_result (e ∷ es) = some (failure validation (error_text (e ∷ es)))

-- `if bad { v.add(field, detail) }`
abbrev pub reject_when : Bool → String → String → List FieldError
reject_when true f d = record { field = f; detail = d } ∷ []
reject_when false f d = []

-- The rejections of one Validate method, in the order of its checks.
abbrev pub collect : List (List FieldError) → List FieldError
collect [] = []
collect (es ∷ rest) = es ++ collect rest
