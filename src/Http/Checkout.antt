-- ===== src/Http/Checkout.antt =====
-- internal/handler/stripe_handler.go and subscription_handler.go: the checkout, the billing portal and
-- the dashboard, for the subject that the context holds.
use stripe_payment_service.Prelude.{
  String, Bool, not, ◌||◌, ◌⊎◌, inl, inr, Option, none, some, ◌==◌, trim_space, if◌then◌else◌,
}
use stripe_payment_service.Prelude.Int.{ℤ}
use stripe_payment_service.Domain.Errors.{
  Result, ok, err, Failure, is_sentinel, not_found, validation, invalid_request, upstream,
}
use stripe_payment_service.Domain.Subscription.{Uuid}
use stripe_payment_service.Stripe.Checkout.{PortalSession}
use stripe_payment_service.Checkout.{CheckoutService, CheckoutResult, open_checkout, open_portal}
use stripe_payment_service.Checkout.View.{SubscriptionView, get_for_user}
use stripe_payment_service.Http.{
  Response, Request, Decoder, decode_json, write_json, write_error, unwired_route, checkout_body,
  portal_body, subscription_body,
}
use stripe_payment_service.Http.Auth.{user_id_from_context}
use stripe_payment_service.Run.{Run, pure, attempt, ◌>>=◌}

-- checkoutRequest
pub record CheckoutBody : Type 0 where
  pub price_id : String
  pub quantity : ℤ
  pub trial_period_days : ℤ
  pub ui_mode : String

-- writeServiceError
unfoldable pub service_error : Failure → Response
service_error e =
    if is_sentinel not_found e
    then write_error 404 "no billing account for this user"
    else if is_sentinel validation e || is_sentinel invalid_request e
    then write_error 422 "request could not be fulfilled"
    else if is_sentinel upstream e
    then write_error 502 "payment provider unavailable"
    else write_error 500 "internal server error"

abbrev checkout_answer : Result CheckoutResult → Response
checkout_answer (ok r) = write_json 201 (checkout_body r.session_id r.url r.client_secret)
checkout_answer (err e) = service_error e

abbrev portal_answer : Result PortalSession → Response
portal_answer (ok s) = write_json 201 (portal_body s.url)
portal_answer (err e) = service_error e

abbrev subscription_answer : Result SubscriptionView → Response
subscription_answer (ok view) = write_json 200 (subscription_body view)
subscription_answer (err e) =
    if is_sentinel not_found e
    then write_error 404 "no subscription"
    else write_error 500 "internal server error"

abbrev is_ui_mode : String → Bool
is_ui_mode mode = mode == "" || (mode == "hosted" || mode == "embedded")

module _ (s : CheckoutService) where
  abbrev checking_out : Uuid → String ⊎ CheckoutBody → Run Response
  checking_out user (inl message) = pure (write_error 400 message)
  checking_out user (inr req) =
      let mode = trim_space req.ui_mode in
      if not (is_ui_mode mode)
      then pure (write_error 400 "ui_mode must be \"hosted\" or \"embedded\"")
      else (do
        result ← attempt (
            open_checkout s (record {
              user_id = user;
              price_id = trim_space req.price_id;
              quantity = req.quantity;
              trial_period_days = req.trial_period_days;
              is_embedded = mode == "embedded";
            }))
        pure (checkout_answer result))

  -- HandleCheckout
  unfoldable pub handle_checkout : Decoder CheckoutBody → Option Uuid → Request → Run Response
  handle_checkout decode context r = elim (user_id_from_context context) [
    | none ↦ pure unwired_route
    | some user ↦ checking_out user (decode_json decode r)
  ]

  abbrev opening_portal : Option Uuid → Run Response
  opening_portal none = pure unwired_route
  opening_portal (some user) = do result ← attempt (open_portal s user); pure (portal_answer result)

  -- HandlePortal
  unfoldable pub handle_portal : Option Uuid → Run Response
  handle_portal context = opening_portal (user_id_from_context context)

abbrev showing : Option Uuid → Run Response
showing none = pure unwired_route
showing (some user) = do result ← attempt (get_for_user user); pure (subscription_answer result)

-- HandleGetSubscription
unfoldable pub handle_get_subscription : Option Uuid → Run Response
handle_get_subscription context = showing (user_id_from_context context)
