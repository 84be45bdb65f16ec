-- ===== src/Stripe/Client.antt =====
-- internal/stripe/client.go: verification of webhooks, retrieval of subscriptions, and the
-- classification of the SDK's errors.
use Prim.Native.String.{◌++◌ as join}
use stripe_payment_service.Prelude.{
  ℕ, String, Bool, true, false, ◌||◌, inl, inr, ◌==◌, starts_with, leb, nat_eq, if◌then◌else◌,
}
use stripe_payment_service.Domain.Time.{Time}
use stripe_payment_service.Domain.Errors.{
  Sentinel, Failure, failure, sentinel_text, wrap, Result, ok, err, signature_verification,
  upstream,
}
use stripe_payment_service.Domain.Errors
use stripe_payment_service.Stripe.Objects.{
  Event, StripeSubscription, ErrorType, api, rate_limit, invalid_request, card, other_type,
  SdkError, api_error, transport, Platform,
}

-- fmt.Errorf("%w: %s", sentinel, text)
abbrev pub because : Sentinel → String → Failure
because s text = failure s (join (sentinel_text s) (join ": " text))

-- VerifyWebhook
unfoldable pub verify_webhook : Platform → (payload header : String) → Time → Result Event
verify_webhook p payload header now = elim (p.construct_event payload header now) [
  | inl text ↦ err (because signature_verification text)
  | inr event ↦ ok event
]

-- The sentinel that `classify` chooses for an API error.
abbrev pub class_of : ErrorType → ℕ → Sentinel
class_of api http_status = upstream
class_of rate_limit http_status = upstream
class_of invalid_request http_status = Errors.invalid_request
class_of card http_status = Errors.invalid_request
class_of other_type http_status =
    if leb 500 http_status || nat_eq http_status 429 then upstream else Errors.invalid_request

-- classify, for an error that is not nil
unfoldable pub classify : String → SdkError → Failure
classify op (transport text) = wrap op (because upstream text)
classify op (api_error type http_status message request_id text) = wrap op (
    because (class_of type http_status) (
      if request_id == ""
      then message
      else join message (join " (request_id=" (join request_id ")"))))

-- IsRetryable
abbrev pub is_retryable : Failure → Bool
is_retryable e = elim e.sentinel [ upstream ↦ true | _ ↦ false ]

-- GetSubscription; the text of the refusal does not quote the id as the code does.
unfoldable pub get_subscription : Platform → String → Time → Result StripeSubscription
get_subscription p id now =
    if starts_with id "sub_"
    then elim (p.retrieve_subscription id now) [
      | inl e ↦ err (classify "retrieve subscription" e)
      | inr sub ↦ ok sub
    ]
    else err
        (because Errors.invalid_request (join "subscription id " (join id " must begin with sub_")))
