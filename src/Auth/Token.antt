-- ===== src/Auth/Token.antt =====
-- internal/auth/token.go, the access tokens, and internal/auth/refresh.go, the refresh tokens.
use Prim.Native.String.{◌++◌ as join}
use stripe_payment_service.Prelude.{
  ℕ, ◌+◌, ◌*◌, ◌/◌, String, Bool, true, false, ◌||◌, ◌⊎◌, inl, inr, none, some, [], ◌∷◌, ◌==◌, ltb,
  nat_eq, bytes, length, if◌then◌else◌,
}
use stripe_payment_service.Domain.Errors.{
  Result, ok, err, Failure, failure, wrap, sentinel_failure, token_expired, token_invalid, other,
}
use stripe_payment_service.Domain.Time.{Time, Duration, second}
use stripe_payment_service.Domain.Subscription.{Uuid}
use stripe_payment_service.Stripe.Objects.{Platform}
use stripe_payment_service.Auth.{Crypto, Claims, ParserOptions, ParseError, expired, rejected}
use stripe_payment_service.Run.{Run, lift, reads, draw, ◌>>=◌}

abbrev pub min_secret_bytes : ℕ
min_secret_bytes = 32

-- TokenConfig
pub record TokenConfig : Type 0 where
  pub secret : String
  pub issuer : String
  pub audience : String
  pub ttl : Duration

-- TokenService
pub record TokenService : Type 0 where
  pub secret : String
  pub issuer : String
  pub audience : String
  pub ttl : Duration
  pub parser : ParserOptions

-- NewTokenService. The text of the first error leaves out the length that was found.
unfoldable pub new_token_service : TokenConfig → Result TokenService
new_token_service cfg =
    if ltb (length (bytes cfg.secret)) min_secret_bytes
    then err (failure other "jwt secret must be at least 32 bytes")
    else if cfg.issuer == "" || cfg.audience == ""
    then err (failure other "jwt issuer and audience are required")
    else if nat_eq cfg.ttl 0
    then err (failure other "jwt ttl must be positive")
    else ok record {
      secret = cfg.secret;
      issuer = cfg.issuer;
      audience = cfg.audience;
      ttl = cfg.ttl;
      parser = record {
        valid_methods = "HS256" ∷ [];
        issuer = cfg.issuer;
        audience = cfg.audience;
        expiration_required = true;
        check_issued_at = true;
      };
    }

-- A signed token and its expiry.
abbrev pub Access : Type 0
Access = String × Time

-- jwt.NewNumericDate: the package's precision is the second.
abbrev pub numeric_date : Time → Time
numeric_date t = t / second * second

abbrev pub claims_at : Platform → Crypto → TokenService → Uuid → String → Time → ℕ → Claims
claims_at p c s user email now n = record {
  subject = p.render_uuid user;
  issuer = s.issuer;
  audience = s.audience ∷ [];
  issued_at = numeric_date now;
  not_before = numeric_date now;
  expires_at = numeric_date (now + s.ttl);
  id = p.render_uuid (c.new_uuid n);
  email = email;
}

abbrev pub signed : Time → String ⊎ String → Result Access
signed expires_at (inl text) = err (wrap "sign token" (failure other text))
signed expires_at (inr token) = ok (token, expires_at)

-- (*TokenService).Issue
unfoldable pub issue_access : Platform → Crypto → TokenService → Uuid → String → Run Access
issue_access p c s user email = do
  now ← reads λ w. w.clock
  n ← draw
  lift (signed (now + s.ttl) (c.sign s.secret (claims_at p c s user email now n)))

-- ErrTokenInvalid with its cause.
abbrev invalid_because : String → Failure
invalid_because cause = record (sentinel_failure token_invalid) {
  text = join "token is not valid: " cause;
}

abbrev subject_of : Platform → Claims → Result (Uuid × Claims)
subject_of p claims = elim (p.parse_uuid claims.subject) [
  | none ↦ err (invalid_because "subject is not a uuid")
  | some user ↦ ok (user, claims)
]

abbrev accepted : Platform → ParseError ⊎ (Claims × Bool) → Result (Uuid × Claims)
accepted p (inl expired) = err (sentinel_failure token_expired)
accepted p (inl (rejected text)) = err (invalid_because text)
accepted p (inr (claims, false)) = err (sentinel_failure token_invalid)
accepted p (inr (claims, true)) = subject_of p claims

-- (*TokenService).Parse
unfoldable pub parse : Platform → Crypto → TokenService → Time → String → Result (Uuid × Claims)
parse p c s now token = accepted p (c.parse_claims s.parser s.secret now token)

abbrev minted : Crypto → String ⊎ String → Result (String × String)
minted c (inl text) = err (wrap "generate refresh token" (failure other text))
minted c (inr token) = ok (token, c.sha256_hex token)

-- NewRefreshToken: the token and its hash.
unfoldable pub new_refresh_token : Crypto → Run (String × String)
new_refresh_token c = do n ← draw; lift (minted c (c.random_token n))
