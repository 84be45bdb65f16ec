-- ===== src/Checkout/Ownership.antt =====
-- internal/service/checkout_service.go: what a checkout request sends to Stripe.
use Prim.Native.String.{◌++◌ as join}
use stripe_payment_service.Prelude.{
  String, ◌≡◌, ◌⊎◌, inl, inr, true, false, ◌&&◌, none, some, [], ◌∷◌, is_some, if◌then◌else◌,
}
use stripe_payment_service.Prelude.Int.{is_positive}
use stripe_payment_service.Domain.Errors.{Result, ok, err, Failure, is_sentinel, not_found, wrap}
use stripe_payment_service.Domain.Time.{Time}
use stripe_payment_service.Domain.User
use stripe_payment_service.Stripe.Objects.{SdkError}
use stripe_payment_service.Stripe.Client.{classify}
use stripe_payment_service.Stripe.Checkout.{
  SessionInput, SessionParams, create_checkout_session, CheckoutSdk, CreatedSession, unless_blank,
}
use stripe_payment_service.Checkout.{
  CheckoutService, CheckoutRequest, CheckoutResult, price_allowed, open_checkout, result_of,
}
use stripe_payment_service.Repository.Users.{get_user_by_id}
use stripe_payment_service.Run.{World, Run, lift, pure, ◌>>=◌}

-- The parameters of a session are for the user and what the deployment offers: the price is the one
-- requested, and on offer; the customer is that of the user's row, and an address is the user's own and
-- is sent only without a customer; the session refers to the user's id, twice; and the two presentations
-- do not mix.
pub record IsOwn (s : CheckoutService) (req : CheckoutRequest) (u : User.User) (q : SessionParams)
    : Type 0 where
  pub offered : price_allowed s.config q.price ≡ true
  pub requested : q.price ≡ req.price_id
  pub customer :
      (q.customer ≡ u.stripe_customer_id) ⊎ ((q.customer ≡ none) × (u.stripe_customer_id ≡ some ""))
  pub address :
      ((q.customer ≡ none)
        × (u.stripe_customer_id ≡ none)
        × (q.customer_email ≡ unless_blank u.email))
      ⊎ (q.customer_email ≡ none)
  pub referred : q.client_reference_id ≡ unless_blank (s.platform.render_uuid u.id)
  pub exclusive : (is_some q.customer && is_some q.customer_email) ≡ false
  pub linked : q.metadata ≡ ("user_id", s.platform.render_uuid u.id) ∷ []
  pub presented :
      ((q.return_url ≡ some s.config.return_url) × (q.success_url ≡ none) × (q.cancel_url ≡ none))
      ⊎ ((q.return_url ≡ none)
          × (q.success_url ≡ some s.config.success_url)
          × (q.cancel_url ≡ some s.config.cancel_url))
  pub counted : is_positive q.quantity ≡ true

-- The result of the service for what Stripe answered.
abbrev pub relayed : SdkError ⊎ CreatedSession → Result CheckoutResult
relayed (inl e) = err (classify "create checkout session" e)
relayed (inr x) = ok (record { session_id = x.id; url = x.url; client_secret = x.client_secret })

-- Refused without a request to Stripe: the answer is the same whatever Stripe would answer.
abbrev pub IsUnsent : CheckoutService → CheckoutRequest → World → Type 0
IsUnsent s req w =
    (e : Failure) × ((sdk : CheckoutSdk) → (open_checkout (record s { sdk = sdk }) req w).0 ≡ err e)

abbrev pub IsSent : CheckoutService → CheckoutRequest → World → Type 0
IsSent s req w =
    (u : User.User) × (q : SessionParams) × (now : Time) × ((get_user_by_id req.user_id w).0 ≡ ok u)
    × IsOwn s req u q
    × ((open_checkout s req w).0 ≡ relayed (s.sdk.create_session q now))

finish : CheckoutSdk → SessionInput → Time → World → Result CheckoutResult × World
finish sdk i now w = (lift (create_checkout_session sdk i now) >>= λ x. pure (result_of x)) w

abbrev load_failure : Failure → Failure
load_failure e = if is_sentinel not_found e then e else wrap "load user" e
