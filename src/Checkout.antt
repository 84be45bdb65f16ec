-- ===== src/Checkout.antt =====
-- internal/service/checkout_service.go: the opening of checkout and portal sessions for a user.
pub mod View
pub mod Ownership
mod Tests
use Prim.Native.String.{◌++◌ as join}
use stripe_payment_service.Prelude.{
  ℕ, String, Bool, true, false, not, ◌&&◌, ◌||◌, Option, none, some, List, [], ◌∷◌, ◌++◌, ◌==◌,
  any_where, nat_eq, ltb, keep, if◌then◌else◌,
}
use stripe_payment_service.Prelude.Int.{ℤ, pos, is_positive}
use stripe_payment_service.Domain.Errors.{
  Result, ok, err, Failure, failure, wrap, is_sentinel, map_error, no_rows, not_found, validation,
}
use stripe_payment_service.Domain.Status.{SubscriptionStatus, is_live}
use stripe_payment_service.Domain.Time.{Time}
use stripe_payment_service.Domain.Subscription.{Uuid, Subscription}
use stripe_payment_service.Domain.User
use stripe_payment_service.Stripe.Objects.{Platform}
use stripe_payment_service.Stripe.Client.{because}
use stripe_payment_service.Stripe.Checkout.{
  CheckoutSdk, SessionInput, OpenedSession, PortalSession, hosted, embedded,
  create_checkout_session, create_portal_session,
}
use stripe_payment_service.Repository.Users.{get_user_by_id}
use stripe_payment_service.Run.{Run, pure, raise, lift, attempt, reads, statement, ◌>>=◌}

-- CheckoutConfig
pub record CheckoutConfig : Type 0 where
  pub success_url : String
  pub cancel_url : String
  pub return_url : String
  pub portal_return_url : String
  pub allowed_price_ids : List String

-- CheckoutConfig.priceAllowed
abbrev pub price_allowed : CheckoutConfig → String → Bool
price_allowed c id = elim c.allowed_price_ids [
  | [] ↦ true
  | x ∷ xs ↦ any_where (λ allowed. allowed == id) (x ∷ xs)
]

-- CheckoutService, with what it calls outside the repository.
pub record CheckoutService : Type 0 where
  pub platform : Platform
  pub sdk : CheckoutSdk
  pub config : CheckoutConfig

-- CheckoutRequest and CheckoutResult
pub record CheckoutRequest : Type 0 where
  pub user_id : Uuid
  pub price_id : String
  pub quantity : ℤ
  pub trial_period_days : ℤ
  pub is_embedded : Bool

pub record CheckoutResult : Type 0 where
  pub session_id : String
  pub url : String
  pub client_secret : String

-- `if req.Quantity <= 0 { req.Quantity = 1 }`
abbrev pub at_least_one : ℤ → ℤ
at_least_one n = if is_positive n then n else pos 1

-- GetUserByID with the errors of the service.
abbrev pub loaded : Result User.User → Run User.User
loaded (ok user) = pure user
loaded (err e) = if is_sentinel not_found e then raise e else raise (wrap "load user" e)

abbrev pub result_of : OpenedSession → CheckoutResult
result_of s = record { session_id = s.id; url = s.url; client_secret = s.client_secret }

abbrev pub text_or_blank : Option String → String
text_or_blank none = ""
text_or_blank (some text) = text

module _ (s : CheckoutService) where
  -- The input that CreateCheckoutSession builds for a user.
  unfoldable pub input_of : CheckoutRequest → User.User → SessionInput
  input_of req user = record {
    ui_mode = if req.is_embedded then embedded else hosted;
    return_url = if req.is_embedded then s.config.return_url else "";
    price_id = req.price_id;
    quantity = at_least_one req.quantity;
    customer_id = text_or_blank user.stripe_customer_id;
    customer_email = elim user.stripe_customer_id [ none ↦ user.email | some customer ↦ "" ];
    client_reference_id = s.platform.render_uuid user.id;
    success_url = s.config.success_url;
    cancel_url = s.config.cancel_url;
    trial_period_days = req.trial_period_days;
    allow_promotion_codes = false;
    metadata = ("user_id", s.platform.render_uuid user.id) ∷ [];
  }

  -- CreateCheckoutSession after the user was loaded.
  unfoldable pub open_for : CheckoutRequest → User.User → Run CheckoutResult
  open_for req user =
      if req.is_embedded && s.config.return_url == ""
      then raise (because validation "embedded checkout is not configured on this deployment")
      else (do
        now ← reads λ w. w.clock
        session ← lift (create_checkout_session s.sdk (input_of req user) now)
        pure (result_of session))

  -- CreateCheckoutSession; the refusal quotes the price plainly.
  unfoldable pub open_checkout : CheckoutRequest → Run CheckoutResult
  open_checkout req =
      if not (price_allowed s.config req.price_id)
      then raise (because validation (join "price \"" (join req.price_id "\" is not offered")))
      else (do found ← attempt (get_user_by_id req.user_id); user ← loaded found; open_for req user)

  abbrev portal_for : Option String → Run PortalSession
  portal_for none = raise (because not_found "no billing account for this user")
  portal_for (some customer) = do
    now ← reads λ w. w.clock
    lift (create_portal_session s.sdk customer s.config.portal_return_url now)

  -- CreatePortalSession
  unfoldable pub open_portal : Uuid → Run PortalSession
  open_portal id =
      if s.config.portal_return_url == ""
      then raise (because validation "the billing portal is not configured on this deployment")
      else (do
        found ← attempt (get_user_by_id id)
        user ← loaded found
        portal_for user.stripe_customer_id)
