-- ===== src/Router/Mounted.antt =====
-- internal/handler/router.go: the handlers of the package, mounted on their routes.
use stripe_payment_service.Prelude.{ℕ, Bool, true, false, some}
use stripe_payment_service.Domain.Subscription.{Uuid}
use stripe_payment_service.Domain.Time.{Duration}
use stripe_payment_service.Stripe.Objects.{Platform}
use stripe_payment_service.Auth.Service.{AuthService}
use stripe_payment_service.Checkout.{CheckoutService}
use stripe_payment_service.Http.{Response, Request, Decoder}
use stripe_payment_service.Http.Auth.{
  CookieConfig, RegisterRequest, LoginRequest, handle_register, handle_login, handle_refresh,
  handle_logout, handle_me,
}
use stripe_payment_service.Http.Checkout.{
  CheckoutBody, handle_checkout, handle_portal, handle_get_subscription,
}
use stripe_payment_service.Http.Health.{HealthHandler, live, ready}
use stripe_payment_service.Http.Webhook.{handle_webhook}
use stripe_payment_service.Run.{Run}
use stripe_payment_service.Middleware.{Net, respond}
use stripe_payment_service.Router.{
  Handlers, Public, register, login, refresh, logout, Protected, me, checkout, portal, subscription,
}

-- What the handlers are built from, with the decoders of the bodies that they read. A limit of zero
-- selects the default.
pub record Services : Type 0 where
  pub platform : Platform
  pub stale_after : Duration
  pub webhook_limit : ℕ
  pub auth : AuthService
  pub cookies : CookieConfig
  pub checkouts : CheckoutService
  pub health : HealthHandler
  pub decode_register : Decoder RegisterRequest
  pub decode_login : Decoder LoginRequest
  pub decode_checkout : Decoder CheckoutBody

module _ (s : Services) where
  abbrev answer_public : Public → Request → Run Response
  answer_public register r = handle_register s.auth s.cookies s.decode_register r
  answer_public login r = handle_login s.auth s.cookies s.decode_login r
  answer_public refresh r = handle_refresh s.auth s.cookies r
  answer_public logout r = handle_logout s.auth s.cookies r

  abbrev answer_owned : Protected → Uuid → Request → Run Response
  answer_owned me user r = handle_me s.auth s.cookies (some user)
  answer_owned checkout user r = handle_checkout s.checkouts s.decode_checkout (some user) r
  answer_owned portal user r = handle_portal s.checkouts (some user)
  answer_owned subscription user r = handle_get_subscription (some user)

  abbrev answer_probe : Bool → Run Response
  answer_probe true = live s.health
  answer_probe false = ready s.health

  -- The arguments that the routes are mounted with.
  unfoldable pub mounted : Net → Handlers
  mounted net = record {
    probe = λ alive. respond net (answer_probe alive);
    deliver = λ r. respond net (handle_webhook s.platform s.stale_after s.webhook_limit r);
    anyone = λ p r. respond net (answer_public p r);
    owned = answer_owned;
  }
