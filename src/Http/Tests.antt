-- ===== src/Http/Tests.antt =====
-- The theorems on the handlers, applied to the delivery of one failed payment and to one user.
use stripe_payment_service.Prelude.{
  ◌≡◌, refl, inr, true, false, none, some, ◌==◌, trim_space, if◌then◌else◌,
}
use stripe_payment_service.Prelude.Table
use stripe_payment_service.Domain.Errors.{ok, err, validation_result, sentinel_failure, not_found}
use stripe_payment_service.Domain.Time.{unix}
use stripe_payment_service.Domain.Webhook
use stripe_payment_service.Ledger.{claim}
use stripe_payment_service.Stripe.Client.{verify_webhook}
use stripe_payment_service.Webhook.Service.{delivery_of}
use stripe_payment_service.Webhook.Tests.{platform, payment_failed, world, first_row}
use stripe_payment_service.Auth.Service.{refresh}
use stripe_payment_service.Auth.Tests.{service}
use stripe_payment_service.Http.{Request, Decoder, decode_json}
use stripe_payment_service.Http.Webhook.{handle_webhook}
use stripe_payment_service.Http.Auth.{CookieConfig, LoginRequest}
use stripe_payment_service.Http.Delivery.{IsAnsweredAs, handle_webhook-IsAnsweredAs}

abbrev request : Request
request = record {
  header = λ name. if name == "Stripe-Signature" then "good" else "";
  cookie = λ name. none;
  read_body = λ limit. inr "{}";
}

verified : verify_webhook platform "{}" "good" world.clock ≡ ok payment_failed
unfolding verify_webhook
verified = refl

valid :
    validation_result (Webhook.validate platform.json_valid (delivery_of payment_failed "{}"))
    ≡ none
unfolding validation_result Webhook.validate unix trim_space
valid = refl

claimed : (claim 300 world.clock (delivery_of payment_failed "{}") world.ledger).0 ≡ some first_row
unfolding claim Table.lookup
claimed = refl

handle_webhook-IsAnsweredAs_example :
    IsAnsweredAs "evt_7" (handle_webhook platform 300 0 request world)
handle_webhook-IsAnsweredAs_example =
    handle_webhook-IsAnsweredAs platform 300 0 request "{}" payment_failed world first_row refl refl
      refl verified valid claimed

abbrev guess : LoginRequest
guess = record { email = "ada@example.com"; password = "guess" }

abbrev decode : Decoder LoginRequest
decode r = inr (guess, false)

abbrev cookies : CookieConfig
cookies = record { secure = true; domain = "" }

decoded : decode_json decode request ≡ inr guess
unfolding decode_json
decoded = refl

-- A request without a cookie.
missing : (refresh service "" world).0 ≡ err (sentinel_failure not_found)
unfolding refresh
missing = refl
