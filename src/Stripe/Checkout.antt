-- ===== src/Stripe/Checkout.antt =====
-- internal/stripe/client.go: the opening of checkout and portal sessions. The SDK's two requests are
-- parameters.
use Prim.Native.Char.{code}
use Prim.Native.String.{◌++◌ as join}
use stripe_payment_service.Prelude.{
  String, Bool, true, false, not, ◌&&◌, ◌⊎◌, inl, inr, Option, none, some, List, [], ◌∷◌, ◌++◌,
  ◌==◌, starts_with, nat_eq, if◌then◌else◌,
}
use stripe_payment_service.Prelude.Int.{ℤ, pos, is_positive, lt_int}
use stripe_payment_service.Domain.Time.{Time, unix}
use stripe_payment_service.Domain.Errors.{Result, ok, err, Failure, invalid_request}
use stripe_payment_service.Stripe.Objects.{SdkError}
use stripe_payment_service.Stripe.Client.{because, classify}

-- UIMode, where `unset` is the empty string and `unknown` any other.
pub data UiMode : Type 0 where
  hosted embedded unset unknown : UiMode

abbrev is_valid_mode : UiMode → Bool
is_valid_mode unknown = false
is_valid_mode m = true

abbrev pub is_embedded : UiMode → Bool
is_embedded embedded = true
is_embedded m = false

-- CheckoutSessionInput
pub record SessionInput : Type 0 where
  pub ui_mode : UiMode
  pub return_url : String
  pub price_id : String
  pub quantity : ℤ
  pub customer_id : String
  pub customer_email : String
  pub client_reference_id : String
  pub success_url : String
  pub cancel_url : String
  pub trial_period_days : ℤ
  pub allow_promotion_codes : Bool
  pub metadata : List (String × String)

-- CheckoutSessionCreateParams of the SDK, the fields that are set; a nil pointer is absent.
pub record SessionParams : Type 0 where
  pub mode : String
  pub price : String
  pub quantity : ℤ
  pub metadata : List (String × String)
  pub ui_mode : Option String
  pub return_url : Option String
  pub success_url : Option String
  pub cancel_url : Option String
  pub client_reference_id : Option String
  pub customer : Option String
  pub customer_email : Option String
  pub trial_period_days : Option ℤ
  pub allow_promotion_codes : Option Bool

-- The session that the SDK returns, and CheckoutSession.
pub record CreatedSession : Type 0 where
  pub id : String
  pub url : String
  pub client_secret : String
  pub expires_at : ℤ

pub record OpenedSession : Type 0 where
  pub id : String
  pub url : String
  pub client_secret : String
  pub expires_at : Time

-- PortalSession
pub record PortalSession : Type 0 where
  pub id : String
  pub url : String

-- V1CheckoutSessions.Create and V1BillingPortalSessions.Create, at the time of the call.
pub record CheckoutSdk : Type 0 where
  pub create_session : SessionParams → Time → SdkError ⊎ CreatedSession
  pub create_portal : (customer return_url : String) → Time → SdkError ⊎ PortalSession

abbrev complaint : Bool → String → List String
complaint true text = text ∷ []
complaint false text = []

abbrev joined : List String → String
joined [] = ""
joined (x ∷ []) = x
joined (x ∷ xs) = join x (join "; " (joined xs))

-- The problems that CheckoutSessionInput.validate finds.
abbrev pub complaints : SessionInput → List String
complaints i =
    complaint (not (starts_with i.price_id "price_")) "price_id must begin with price_"
    ++ (complaint (not (is_positive i.quantity)) "quantity must be greater than zero"
        ++ (complaint (not (i.customer_id == "") && not (starts_with i.customer_id "cus_"))
              "customer_id must begin with cus_"
            ++ (complaint (not (i.customer_id == "") && not (i.customer_email == ""))
                  "customer_id and customer_email are mutually exclusive"
                ++ (complaint (not (is_embedded i.ui_mode) && i.success_url == "")
                      "success_url is required"
                    ++ (complaint (not (is_embedded i.ui_mode) && i.cancel_url == "")
                          "cancel_url is required"
                        ++ (complaint (lt_int i.trial_period_days (pos 0))
                              "trial_period_days must not be negative"
                            ++ (complaint (not (is_valid_mode i.ui_mode))
                                  "ui_mode must be hosted or embedded"
                                ++ complaint (is_embedded i.ui_mode && i.return_url == "")
                                    "return_url is required for embedded checkout")))))))

-- CheckoutSessionInput.validate: the error, or nil.
unfoldable pub validate : SessionInput → Option Failure
validate i = elim (complaints i) [
  | [] ↦ none
  | c ∷ cs ↦ some (because invalid_request (joined (c ∷ cs)))
]

abbrev pub unless_blank : String → Option String
unless_blank text = if text == "" then none else some text

abbrev pub unless_embedded : UiMode → String → Option String
unless_embedded mode url = if is_embedded mode then none else some url

abbrev pub if_embedded : UiMode → String → Option String
if_embedded mode url = if is_embedded mode then some url else none

-- The parameters that CreateCheckoutSession builds.
unfoldable pub params_of : SessionInput → SessionParams
params_of i = record {
  mode = "subscription";
  price = i.price_id;
  quantity = i.quantity;
  metadata = i.metadata;
  ui_mode = if_embedded i.ui_mode "embedded_page";
  return_url = if_embedded i.ui_mode i.return_url;
  success_url = unless_embedded i.ui_mode i.success_url;
  cancel_url = unless_embedded i.ui_mode i.cancel_url;
  client_reference_id = unless_blank i.client_reference_id;
  customer = unless_blank i.customer_id;
  customer_email = if i.customer_id == "" then unless_blank i.customer_email else none;
  trial_period_days = if is_positive i.trial_period_days then some i.trial_period_days else none;
  allow_promotion_codes = if i.allow_promotion_codes then some true else none;
}

abbrev pub opened : SdkError ⊎ CreatedSession → Result OpenedSession
opened (inl e) = err (classify "create checkout session" e)
opened (inr s) = ok record {
  id = s.id;
  url = s.url;
  client_secret = s.client_secret;
  expires_at = if is_positive s.expires_at then unix s.expires_at else 0;
}

-- CreateCheckoutSession
unfoldable pub create_checkout_session : CheckoutSdk → SessionInput → Time → Result OpenedSession
create_checkout_session sdk i now = elim (validate i) [
  | some e ↦ err e
  | none ↦ opened (sdk.create_session (params_of i) now)
]

abbrev portal_opened : SdkError ⊎ PortalSession → Result PortalSession
portal_opened (inl e) = err (classify "create billing portal session" e)
portal_opened (inr s) = ok s

-- CreatePortalSession; the text of the first refusal quotes the id plainly.
unfoldable pub create_portal_session :
    CheckoutSdk → (customer return_url : String) → Time → Result PortalSession
create_portal_session sdk customer return_url now =
    if not (starts_with customer "cus_")
    then err
        (because invalid_request (join "customer id \"" (join customer "\" must begin with cus_")))
    else if return_url == ""
    then err (because invalid_request "return_url is required")
    else portal_opened (sdk.create_portal customer return_url now)

-- strings.LastIndex of a dot, and the text behind it: nothing where there is no dot.
abbrev label : String → Option String
label String.[] = none
label (String.◌∷◌ c s) = behind (label s) (nat_eq (code c) b'.') s
  where
    behind : Option String → Bool → String → Option String
    behind (some text) dot s = some text
    behind none true s = some s
    behind none false s = none

-- sameReleaseTrain
unfoldable pub same_release_train : String → String → Bool
same_release_train a b = same (label a) (label b)
  where
    same : Option String → Option String → Bool
    same (some x) (some y) = x == y
    same x y = false
