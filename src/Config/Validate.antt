-- ===== src/Config/Validate.antt =====
-- internal/config/config.go: validateAuth, validateSweeper, validateRetention, and Validate as a whole.
use stripe_payment_service.Prelude.{
  ℕ, ◌*◌, String, Bool, true, not, ◌&&◌, ◌||◌, List, [], ◌∷◌, ◌++◌, ◌==◌, trim_space, ltb, length,
  bytes, if◌then◌else◌,
}
use stripe_payment_service.Prelude.Int.{ℤ, pos, is_positive, lt_int, mul_int64}
use stripe_payment_service.Config.{
  Process, Config, AuthSettings, SweeperSettings, RetentionSettings, contains, is_production,
}
use stripe_payment_service.Config.Checks.{problem, concat, validate_process, validate_stripe}

abbrev day : ℕ
day = 24 * 3_600_000_000_000

-- The checks of the signing secret.
abbrev pub check_jwt_secret : String → List String
check_jwt_secret secret =
    if secret == ""
    then []
    else problem (ltb (length (bytes secret)) 32) "JWT_SECRET must be at least 32 bytes"
      ++ problem (contains "change_me" secret || contains "example" secret)
          "JWT_SECRET still holds a placeholder value - generate one with `openssl rand -base64 48`"

-- The switch on the lifetime of access tokens.
abbrev pub check_access_ttl : (production : Bool) → ℤ → List String
check_access_ttl production ttl =
    if not (is_positive ttl)
    then problem true "JWT_ACCESS_TOKEN_TTL must be positive"
    else problem (production && lt_int (pos day) ttl)
        "JWT_ACCESS_TOKEN_TTL: tokens cannot be revoked before expiry, so production must not exceed 24h"

-- The switch on the lifetime of refresh tokens.
abbrev pub check_refresh_ttl : (access ttl : ℤ) → List String
check_refresh_ttl access ttl =
    if not (is_positive ttl)
    then problem true "REFRESH_TOKEN_TTL must be positive"
    else problem (not (lt_int access ttl))
        "REFRESH_TOKEN_TTL must exceed JWT_ACCESS_TOKEN_TTL; a refresh token that expires first cannot renew anything"

-- The checks of validateAuth.
abbrev pub auth_checks : (production : Bool) → AuthSettings → List (List String)
auth_checks production a =
    check_jwt_secret a.jwt_secret
    ∷ problem (a.jwt_issuer == "") "JWT_ISSUER must not be empty"
    ∷ problem (a.jwt_audience == "") "JWT_AUDIENCE must not be empty"
    ∷ check_access_ttl production a.access_token_ttl
    ∷ check_refresh_ttl a.access_token_ttl a.refresh_token_ttl
    ∷ problem (production && not a.cookie_secure)
        "AUTH_COOKIE_SECURE must be true in production; the refresh cookie would otherwise be sent over plain HTTP"
    ∷ problem (lt_int a.bcrypt_cost (pos 10) || lt_int (pos 31) a.bcrypt_cost)
        "BCRYPT_COST must be between 10 and 31"
    ∷ []

-- validateAuth
unfoldable pub validate_auth : (production : Bool) → AuthSettings → List String
validate_auth production a = concat (auth_checks production a)

-- The checks of validateSweeper on a sweeper that runs.
abbrev pub sweeper_checks : (webhook_timeout : ℤ) → SweeperSettings → List (List String)
sweeper_checks webhook_timeout s =
    problem (not (is_positive s.interval)) "WEBHOOK_SWEEPER_INTERVAL must be positive"
    ∷ problem (lt_int s.max_attempts (pos 1)) "WEBHOOK_SWEEPER_MAX_ATTEMPTS must be at least 1"
    ∷ problem (lt_int s.batch_size (pos 1)) "WEBHOOK_SWEEPER_BATCH_SIZE must be at least 1"
    ∷ problem (not (is_positive s.base_backoff)) "WEBHOOK_SWEEPER_BASE_BACKOFF must be positive"
    ∷ problem (lt_int s.max_backoff s.base_backoff)
        "WEBHOOK_SWEEPER_MAX_BACKOFF must not be shorter than WEBHOOK_SWEEPER_BASE_BACKOFF"
    ∷ problem (not (lt_int webhook_timeout s.stale_claim_after))
        "WEBHOOK_STALE_CLAIM_AFTER must exceed HTTP_WEBHOOK_TIMEOUT, or the sweeper reclaims claims that are still being worked on"
    ∷ []

-- validateSweeper
unfoldable pub validate_sweeper : (webhook_timeout : ℤ) → SweeperSettings → List String
validate_sweeper webhook_timeout s =
    if not s.enabled then [] else concat (sweeper_checks webhook_timeout s)

-- The longest that the sweeper may wait for a retry: both products wrap at 64 bits.
abbrev pub ten_budgets : SweeperSettings → ℤ
ten_budgets s = mul_int64 (pos 10) (mul_int64 s.max_attempts s.max_backoff)

-- The checks of validateRetention on a worker that runs.
abbrev pub retention_checks : SweeperSettings → RetentionSettings → List (List String)
retention_checks s r =
    problem (not (is_positive r.interval)) "PAYLOAD_RETENTION_INTERVAL must be positive"
    ∷ problem (lt_int r.batch_size (pos 1)) "PAYLOAD_RETENTION_BATCH_SIZE must be at least 1"
    ∷ problem (not (is_positive r.settled_payload_after))
        "PAYLOAD_RETENTION_SETTLED_AFTER must be positive"
    ∷ problem (lt_int r.unsettled_payload_after r.settled_payload_after)
        "PAYLOAD_RETENTION_UNSETTLED_AFTER must not be shorter than PAYLOAD_RETENTION_SETTLED_AFTER: an unresolved event needs its payload for longer than a settled one, not less"
    ∷ problem (s.enabled && lt_int r.unsettled_payload_after (ten_budgets s))
        "PAYLOAD_RETENTION_UNSETTLED_AFTER is too close to the sweeper's retry budget; failed events would lose their payload before the sweeper is done with them"
    ∷ []

-- validateRetention
unfoldable pub validate_retention :
    (production : Bool) → SweeperSettings → RetentionSettings → List String
validate_retention production s r =
    if not r.enabled
    then problem production
        "PAYLOAD_RETENTION_ENABLED is false in production; webhook payloads hold customer email and billing address and would be kept indefinitely"
    else concat (retention_checks s r)

-- parseLevelName, whether it knows the name
abbrev is_level_name : String → Bool
is_level_name name =
    name == "debug"
    || (name == "info" || (name == "warn" || (name == "warning" || name == "error")))

-- The parts of Validate.
abbrev pub all_checks : Process → Config → List (List String)
all_checks p c =
    let production = is_production c.app.environment in
    validate_process c
    ∷ validate_stripe p c
    ∷ validate_auth production c.auth
    ∷ validate_sweeper c.http.webhook_timeout c.sweeper
    ∷ validate_retention production c.sweeper c.retention
    ∷ problem (not (is_level_name (p.to_lower (trim_space c.log.level))))
        "LOG_LEVEL must be one of debug, info, warn, error"
    ∷ problem (not (c.log.format == "json" || c.log.format == "text"))
        "LOG_FORMAT must be json or text"
    ∷ []

-- Validate
unfoldable pub validate : Process → Config → List String
validate p c = concat (all_checks p c)
