-- ===== src/Http.antt =====
-- internal/handler/response.go: responses and the reading of JSON bodies, over what net/http and
-- encoding/json give.
pub mod Auth
pub mod Webhook
pub mod Checkout
pub mod Cors
pub mod Health
pub mod Delivery
mod Tests
use stripe_payment_service.Prelude.{
  ℕ, ◌*◌, String, Bool, true, false, not, ◌&&◌, ◌⊎◌, inl, inr, Option, none, some, List, [], ◌∷◌,
  ◌==◌, starts_with, if◌then◌else◌,
}
use Prim.Native.String.{◌++◌ as join}
use stripe_payment_service.Prelude.Int.{ℤ}
use stripe_payment_service.Domain.Time.{Time, Duration}
use stripe_payment_service.Domain.Subscription.{Uuid}
use stripe_payment_service.Auth.Service.{UserView}
use stripe_payment_service.Checkout.View.{SubscriptionView}

pub data SameSite : Type 0 where
  same_site_none same_site_strict : SameSite

-- http.Cookie, the fields that the handlers set. `max_age` is absent where the attribute is the rest of
-- the lifetime, which `expires` gives.
pub record Cookie : Type 0 where
  pub name : String
  pub value : String
  pub path : String
  pub domain : String
  pub expires : Option Time
  pub max_age : Option ℤ
  pub http_only : Bool
  pub secure : Bool
  pub same_site : SameSite

-- check of internal/handler/health.go
pub record Check : Type 0 where
  pub status : String
  pub latency : Duration
  pub error : String

-- What a response carries: nothing, the error envelope, the status of a webhook, an identity, the
-- authResponse of internal/handler/auth_handler.go, the checkoutResponse and the portalResponse of
-- internal/handler/stripe_handler.go, the view of a subscription, or the healthResponse of
-- internal/handler/health.go with the check of the database, if it made one.
pub data Body : Type 0 where
  no_body : Body
  error_body : (message : String) → Body
  status_body : (status : String) → Body
  user_body : UserView → Body
  auth_body : (token : String) (expires_at : Time) → UserView → Body
  checkout_body : (session_id url client_secret : String) → Body
  portal_body : (url : String) → Body
  subscription_body : SubscriptionView → Body
  health_body : (status version : String) (uptime : Duration) → Option Check → Body

-- A response; `challenge` is the header WWW-Authenticate, which only RequireAuth sets.
pub record Response : Type 0 where
  pub status : ℕ
  pub challenge : Option String
  pub body : Body
  pub cookies : List Cookie

-- A failure of the body reader: it is longer than the limit, or the connection broke.
pub data ReadError : Type 0 where
  too_large broken : ReadError

-- A failure of the JSON decoder, as decodeError tells them apart.
pub data DecodeFailure : Type 0 where
  body_too_large bad_syntax : DecodeFailure
  wrong_type : (field : String) → DecodeFailure
  end_of_file : DecodeFailure
  unknown_field : (quoted : String) → DecodeFailure
  other_failure : DecodeFailure

-- The values of headers, a missing one read as blank; the cookie, absent where the request has none; the body up to a limit;
-- and the body decoded into a type, with whether more follows.
pub record Request : Type 0 where
  pub header : String → String
  pub cookie : String → Option String
  pub read_body : (limit : ℕ) → ReadError ⊎ String

-- writeJSON; its headers are the same for every response.
abbrev pub write_json : ℕ → Body → Response
write_json status body = record { status = status; challenge = none; body = body; cookies = [] }

-- writeError
abbrev pub write_error : ℕ → String → Response
write_error status message = write_json status (error_body message)

-- writeUnwiredRoute
abbrev pub unwired_route : Response
unwired_route = write_error 500 "internal server error"

-- decodeError
unfoldable pub decode_error : DecodeFailure → String
decode_error body_too_large = "request body too large"
decode_error bad_syntax = "request body is not valid JSON"
decode_error (wrong_type field) =
    if field == ""
    then "request body has a field of the wrong type"
    else join "field " (join field " has the wrong type")
decode_error end_of_file = "request body is empty"
decode_error (unknown_field quoted) = join "unknown field " quoted
decode_error other_failure = "request body is not valid JSON"

-- A decoder of one request type: the body's value and whether more follows.
abbrev pub Decoder : Type 0 → Type 0
Decoder A = Request → DecodeFailure ⊎ (A × Bool)

abbrev single : {A : Type 0} → DecodeFailure ⊎ (A × Bool) → String ⊎ A
single (inl e) = inl (decode_error e)
single (inr (a, true)) = inl "request body must contain a single JSON object"
single (inr (a, false)) = inr a

-- decodeJSON
unfoldable pub decode_json : {A : Type 0} → Decoder A → Request → String ⊎ A
decode_json decode r =
    let content_type = r.header "Content-Type" in
    if not (content_type == "") && not (starts_with content_type "application/json")
    then inl "content-type must be application/json"
    else single (decode r)
