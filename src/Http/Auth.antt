-- ===== src/Http/Auth.antt =====
-- internal/handler/auth_handler.go: the cookie of the refresh token, and the answers of the
-- authentication service. internal/handler/middleware/auth.go: the bearer token.
use stripe_payment_service.Prelude.{
  ℕ, String, Bool, true, not, ◌||◌, ◌⊎◌, inl, inr, Option, none, some, [], ◌∷◌, ◌==◌, nat_eq,
  if◌then◌else◌,
}
use Prim.Native.Char.{Char, code}
use stripe_payment_service.Prelude.Int.{negsuc}
use stripe_payment_service.Domain.Errors.{
  Result, ok, err, is_sentinel, conflict, validation, not_found, credentials_mismatch,
}
use stripe_payment_service.Domain.Time.{Time}
use stripe_payment_service.Domain.Subscription.{Uuid}
use stripe_payment_service.Auth.{Claims}
use stripe_payment_service.Auth.Token.{parse}
use stripe_payment_service.Auth.Service.{
  AuthService, AuthResult, UserView, register, login, refresh, logout, me,
}
use stripe_payment_service.Http.{
  Response, Request, Cookie, same_site_none, same_site_strict, Decoder, decode_json, write_json,
  write_error, no_body, user_body, auth_body, unwired_route,
}
use stripe_payment_service.Run.{Run, pure, attempt, reads, ◌>>=◌}

-- CookieConfig
pub record CookieConfig : Type 0 where
  pub secure : Bool
  pub domain : String

abbrev refresh_cookie_name : String
refresh_cookie_name = "sps_refresh"

abbrev refresh_cookie_path : String
refresh_cookie_path = "/api/v1/auth"

-- setRefreshCookie
abbrev pub refresh_cookie : CookieConfig → (token : String) → Time → Cookie
refresh_cookie c token expires_at = record {
  name = refresh_cookie_name;
  value = token;
  path = refresh_cookie_path;
  domain = c.domain;
  expires = some expires_at;
  max_age = none;
  http_only = true;
  secure = c.secure;
  same_site = same_site_none;
}

-- clearRefreshCookie
abbrev pub cleared_cookie : CookieConfig → Cookie
cleared_cookie c = record {
  name = refresh_cookie_name;
  value = "";
  path = refresh_cookie_path;
  domain = c.domain;
  expires = none;
  max_age = some (negsuc 0);
  http_only = true;
  secure = c.secure;
  same_site = same_site_strict;
}

-- refreshCookieValue
abbrev pub refresh_cookie_value : Request → String
refresh_cookie_value r = elim (r.cookie refresh_cookie_name) [ none ↦ "" | some value ↦ value ]

-- registerRequest and loginRequest
pub record RegisterRequest : Type 0 where
  pub email : String
  pub password : String
  pub full_name : Option String

pub record LoginRequest : Type 0 where
  pub email : String
  pub password : String

-- A session's answer, with the cookie that carries its refresh token.
abbrev pub session_answer : CookieConfig → ℕ → AuthResult → Response
session_answer c status a = record (write_json status (auth_body a.token a.expires_at a.user)) {
  cookies = refresh_cookie c a.refresh_token a.refresh_token_expires_at ∷ [];
}

unfoldable pub register_answer : CookieConfig → Result AuthResult → Response
register_answer c (ok a) = session_answer c 201 a
register_answer c (err e) =
    if is_sentinel conflict e
    then write_error 409 "an account with that email already exists"
    else if is_sentinel validation e
    then write_error 422 e.text
    else write_error 500 "could not create the account"

unfoldable pub login_answer : CookieConfig → Result AuthResult → Response
login_answer c (ok a) = session_answer c 200 a
login_answer c (err e) =
    if is_sentinel credentials_mismatch e
    then write_error 401 "invalid email or password"
    else write_error 500 "could not sign you in"

unfoldable pub refresh_answer : CookieConfig → Result AuthResult → Response
refresh_answer c (ok a) = session_answer c 200 a
refresh_answer c (err e) = record (write_error 401 "session expired, please sign in again") {
  cookies = cleared_cookie c ∷ [];
}

unfoldable pub me_answer : Result UserView → Response
me_answer (ok view) = write_json 200 (user_body view)
me_answer (err e) =
    if is_sentinel not_found e
    then write_error 401 "account no longer exists"
    else write_error 500 "internal server error"

-- UserIDFromContext
abbrev pub user_id_from_context : Option Uuid → Option Uuid
user_id_from_context none = none
user_id_from_context (some id) = if nat_eq id 0 then none else some id

module _ (s : AuthService) (c : CookieConfig) where
  abbrev registering : String ⊎ RegisterRequest → Run Response
  registering (inl message) = pure (write_error 400 message)
  registering (inr req) = do
    result ← attempt (register s req.email req.password req.full_name)
    pure (register_answer c result)

  -- HandleRegister
  unfoldable pub handle_register : Decoder RegisterRequest → Request → Run Response
  handle_register decode r = registering (decode_json decode r)

  abbrev signing_in : String ⊎ LoginRequest → Run Response
  signing_in (inl message) = pure (write_error 400 message)
  signing_in (inr req) = do
    result ← attempt (login s req.email req.password)
    pure (login_answer c result)

  -- HandleLogin
  unfoldable pub handle_login : Decoder LoginRequest → Request → Run Response
  handle_login decode r = signing_in (decode_json decode r)

  -- HandleRefresh
  unfoldable pub handle_refresh : Request → Run Response
  handle_refresh r = do
    result ← attempt (refresh s (refresh_cookie_value r))
    pure (refresh_answer c result)

  -- HandleLogout: a failure is only logged.
  unfoldable pub handle_logout : Request → Run Response
  handle_logout r = do
    ignored ← attempt (logout s (refresh_cookie_value r))
    pure (record (write_json 204 no_body) { cookies = cleared_cookie c ∷ [] })

  abbrev identified : Option Uuid → Run Response
  identified none = pure unwired_route
  identified (some user) = do result ← attempt (me s user); pure (me_answer result)

  -- HandleMe, for the subject that the context holds, if it does.
  unfoldable pub handle_me : Option Uuid → Run Response
  handle_me context = identified (user_id_from_context context)

-- strings.Cut at the first space: what stands before and behind it.
abbrev cut_space : String → Option (String × String)
cut_space String.[] = none
cut_space (String.◌∷◌ ch s) =
    if nat_eq (code ch) 0x20 then some ("", s) else after_first ch (cut_space s)
  where
    after_first : Char → Option (String × String) → Option (String × String)
    after_first ch none = none
    after_first ch (some (before, after)) = some (String.◌∷◌ ch before, after)

abbrev bearer_of : (equal_fold : String → String → Bool) → Option (String × String) → Option String
bearer_of equal_fold none = none
bearer_of equal_fold (some (scheme, token)) =
    if not (equal_fold scheme "bearer") || token == "" then none else some token

-- bearerToken, with strings.EqualFold. A blank header has no space.
unfoldable pub bearer_token : (equal_fold : String → String → Bool) → Request → Option String
bearer_token equal_fold r = bearer_of equal_fold (cut_space (r.header "Authorization"))

-- unauthorized
abbrev pub unauthorized : String → Response
unauthorized message = record (write_error 401 message) {
  challenge = some "Bearer realm=\"api\", error=\"invalid_token\"";
}

abbrev pub guarded : Result (Uuid × Claims) → (Uuid → Run Response) → Run Response
guarded (err e) next = pure (unauthorized "invalid or expired token")
guarded (ok (user, claims)) next = next user

-- RequireAuth around a handler that takes the subject of the token.
unfoldable pub require_auth :
    AuthService
    → (equal_fold : String → String → Bool) → (Uuid → Run Response)
    → Request
    → Run Response
require_auth s equal_fold next r = elim (bearer_token equal_fold r) [
  | none ↦ pure (unauthorized "missing bearer token")
  | some token ↦ do
    now ← reads λ w. w.clock
    guarded (parse s.platform s.crypto s.tokens now token) next
]
