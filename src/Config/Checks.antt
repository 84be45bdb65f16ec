-- ===== src/Config/Checks.antt =====
-- internal/config/config.go: the checks of Validate up to the database, and validateStripe. The texts leave out the values that were found,
-- and the entries of the source's maps, whose order is random, are checked in the order of the text.
use Prim.Native.String.{◌++◌ as join}
use stripe_payment_service.Prelude.{
  String, Bool, true, false, not, ◌&&◌, ◌||◌, Option, none, some, List, [], ◌∷◌, ◌++◌, ◌==◌,
  starts_with, map, if◌then◌else◌,
}
use stripe_payment_service.Prelude.Int.{ℤ, pos, is_positive, lt_int, int_eq}
use stripe_payment_service.Config.{
  Process, Config, Http, Url, contains, is_production, is_environment, is_float_le_zero,
}

-- `if bad { add(text) }`
abbrev pub problem : Bool → String → List String
problem true text = text ∷ []
problem false text = []

abbrev pub concat : List (List String) → List String
concat [] = []
concat (es ∷ rest) = es ++ concat rest

-- One entry of the loop over the deadlines.
unfoldable pub check_deadline : (name : String) (d write_timeout : ℤ) → List String
check_deadline name d write_timeout =
    if not (is_positive d)
    then problem true (join name " must be positive")
    else problem (is_positive write_timeout && not (lt_int d write_timeout))
        (join name " must be shorter than HTTP_WRITE_TIMEOUT")

-- The switch on the connection string.
abbrev check_dsn : (production : Bool) → String → List String
check_dsn production dsn =
    if dsn == ""
    then []
    else if not (starts_with dsn "postgres://")
        && (not (starts_with dsn "postgresql://") && not (contains "=" dsn))
    then problem true "DATABASE_URL must be a postgres:// URL or a libpq keyword/value string"
    else problem (production && contains "sslmode=disable" dsn)
        "DATABASE_URL must not use sslmode=disable in production"

abbrev check_metrics_port : Http → List String
check_metrics_port h = concat (
    problem (lt_int h.metrics_port (pos 1) || lt_int (pos 65535) h.metrics_port)
      "METRICS_PORT must be 0 (disabled) or between 1 and 65535"
    ∷ problem (int_eq h.metrics_port h.port)
        "METRICS_PORT must differ from HTTP_PORT; sharing the port would put /metrics on the public API"
    ∷ [])

-- The checks of Validate up to the database.
abbrev pub process_checks : Config → List (List String)
process_checks c =
    problem (not (is_environment c.app.environment))
      "APP_ENV must be one of development, staging, production"
    ∷ problem (not (is_positive c.app.shutdown_timeout)) "SHUTDOWN_TIMEOUT must be positive"
    ∷ problem (lt_int c.http.port (pos 1) || lt_int (pos 65535) c.http.port)
        "HTTP_PORT must be between 1 and 65535"
    ∷ problem (not (is_positive c.http.read_header_timeout))
        "HTTP_READ_HEADER_TIMEOUT must be positive - a zero value invites Slowloris"
    ∷ problem (lt_int c.http.trusted_proxies (pos 0)) "TRUSTED_PROXIES must not be negative"
    ∷ problem (is_float_le_zero c.http.auth_rate_limit_rps) "AUTH_RATE_LIMIT_RPS must be positive"
    ∷ (if int_eq c.http.metrics_port (pos 0) then [] else check_metrics_port c.http)
    ∷ problem (lt_int c.http.auth_rate_limit_burst (pos 1))
        "AUTH_RATE_LIMIT_BURST must be at least 1"
    ∷ check_deadline "HTTP_API_TIMEOUT" c.http.api_timeout c.http.write_timeout
    ∷ check_deadline "HTTP_WEBHOOK_TIMEOUT" c.http.webhook_timeout c.http.write_timeout
    ∷ check_dsn (is_production c.app.environment) c.database.dsn
    ∷ problem (lt_int c.database.max_conns (pos 1)) "DB_MAX_CONNS must be at least 1"
    ∷ problem (lt_int c.database.min_conns (pos 0)) "DB_MIN_CONNS must not be negative"
    ∷ problem (lt_int c.database.max_conns c.database.min_conns)
        "DB_MIN_CONNS must not exceed DB_MAX_CONNS"
    ∷ problem (not (is_positive c.database.connect_timeout)) "DB_CONNECT_TIMEOUT must be positive"
    ∷ []

unfoldable pub validate_process : Config → List String
validate_process c = concat (process_checks c)

abbrev is_absolute : Option Url → Bool
is_absolute none = false
is_absolute (some u) = not (u.scheme == "")

abbrev is_https : Option Url → Bool
is_https none = false
is_https (some u) = u.scheme == "https"

-- One entry of the loop over the checkout URLs.
abbrev check_url : Process → (production : Bool) (name raw : String) → List String
check_url p production name raw =
    if raw == ""
    then problem true (join name " is required")
    else if not (is_absolute (p.parse_url raw))
    then problem true (join name " must be an absolute URL")
    else problem (production && not (is_https (p.parse_url raw)))
        (join name " must use https in production")

-- One entry of the loop over the optional URLs.
abbrev check_optional_url : Process → (production : Bool) (name raw : String) → List String
check_optional_url p production name raw = if raw == "" then [] else check_url p production name raw

abbrev has_host : Option Url → Bool
has_host none = false
has_host (some u) = not (u.host == "")

abbrev has_path : Option Url → Bool
has_path none = false
has_path (some u) = not (u.path == "") && not (u.path == "/")

-- One entry of the loop over the browser origins.
unfoldable pub check_origin : Process → (production : Bool) → String → List String
check_origin p production origin =
    if origin == "*"
    then problem true "CORS_ALLOWED_ORIGINS must not contain '*'; list origins explicitly"
    else if not (is_absolute (p.parse_url origin) && has_host (p.parse_url origin))
    then problem true
        "CORS_ALLOWED_ORIGINS entry must be an absolute origin like https://app.example.com"
    else if has_path (p.parse_url origin)
    then problem true "CORS_ALLOWED_ORIGINS entry must be scheme://host[:port] with no path"
    else problem (production && not (is_https (p.parse_url origin)))
        "CORS_ALLOWED_ORIGINS entry must use https in production"

-- The checks of the secret key.
unfoldable pub check_secret_key : (production : Bool) → String → List String
check_secret_key production key =
    if key == ""
    then []
    else problem (not (starts_with key "sk_") && not (starts_with key "rk_"))
        "STRIPE_SECRET_KEY must begin with sk_ or rk_"
      ++ (if production && contains "_test_" key
          then problem true "STRIPE_SECRET_KEY is a test key but APP_ENV is production"
          else problem (not production && contains "_live_" key)
              "STRIPE_SECRET_KEY is a live key but APP_ENV is not production - refusing to start against live Stripe")

abbrev pub check_price : String → List String
check_price id =
    problem (not (starts_with id "price_")) "STRIPE_ALLOWED_PRICE_IDS entry must begin with price_"

abbrev pub is_empty : List String → Bool
is_empty [] = true
is_empty (x ∷ xs) = false

-- The checks of validateStripe.
abbrev pub stripe_checks : Process → Config → List (List String)
stripe_checks p c =
    let production = is_production c.app.environment in
    let s = c.stripe in
    check_secret_key production s.secret_key
    ∷ problem (not (s.webhook_secret == "") && not (starts_with s.webhook_secret "whsec_"))
        "STRIPE_WEBHOOK_SECRET must begin with whsec_"
    ∷ problem (not (s.publishable_key == "") && not (starts_with s.publishable_key "pk_"))
        "STRIPE_PUBLISHABLE_KEY must begin with pk_"
    ∷ problem (not (is_positive s.webhook_tolerance))
        "STRIPE_WEBHOOK_TOLERANCE must be positive - it bounds the signature replay window"
    ∷ problem (lt_int s.max_network_retries (pos 0))
        "STRIPE_MAX_NETWORK_RETRIES must not be negative"
    ∷ problem (not (is_positive s.http_timeout)) "STRIPE_HTTP_TIMEOUT must be positive"
    ∷ check_url p production "STRIPE_CHECKOUT_SUCCESS_URL" s.checkout_success_url
    ∷ check_url p production "STRIPE_CHECKOUT_CANCEL_URL" s.checkout_cancel_url
    ∷ concat (map (check_origin p production) c.http.cors_allowed_origins)
    ∷ check_optional_url p production "STRIPE_CHECKOUT_RETURN_URL" s.checkout_return_url
    ∷ check_optional_url p production "STRIPE_PORTAL_RETURN_URL" s.portal_return_url
    ∷ concat (map check_price s.allowed_price_ids)
    ∷ problem (production && is_empty s.allowed_price_ids)
        "STRIPE_ALLOWED_PRICE_IDS must not be empty in production"
    ∷ problem (production && s.ignore_api_version_mismatch)
        "STRIPE_IGNORE_API_VERSION_MISMATCH must not be enabled in production - events would be deserialised against a version they were not rendered for"
    ∷ []

-- validateStripe
unfoldable pub validate_stripe : Process → Config → List String
validate_stripe p c = concat (stripe_checks p c)
