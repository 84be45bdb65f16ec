-- ===== src/Config.antt =====
-- internal/config/config.go: the configuration, and what it calls of strconv, time, net/url and
-- strings. Durations are in nanoseconds; they and the integers may be negative.
pub mod Loader
pub mod Load
pub mod Checks
pub mod Validate
pub mod Accepted
pub mod Safety
pub mod Building
pub mod Patience
mod Tests
use stripe_payment_service.Prelude.{
  ℕ, String, Bool, true, false, not, ◌||◌, Option, List, [], ◌∷◌, ◌==◌, starts_with, trim_space,
  nat_eq, if◌then◌else◌,
}
use stripe_payment_service.Prelude.Int.{ℤ, is_positive}

-- A float64: not a number, or its place among the others, of which zero has place 0.
pub data Float : Type 0 where
  not_a_number : Float
  ordered : ℤ → Float

-- `f <= 0`
abbrev pub is_float_le_zero : Float → Bool
is_float_le_zero not_a_number = false
is_float_le_zero (ordered n) = not (is_positive n)

pub record Url : Type 0 where
  pub scheme : String
  pub host : String
  pub path : String

-- os.LookupEnv; strconv.Atoi, ParseBool and ParseFloat; time.ParseDuration; url.Parse; and
-- strings.ToLower. The functions that fail give nothing.
pub record Process : Type 0 where
  pub lookup_env : String → Option String
  pub atoi : String → Option ℤ
  pub parse_bool : String → Option Bool
  pub parse_float : String → Option Float
  pub parse_duration : String → Option ℤ
  pub parse_url : String → Option Url
  pub to_lower : String → String

-- strings.Contains
abbrev pub contains : String → String → Bool
contains needle String.[] = needle == ""
contains needle (String.◌∷◌ c s) = starts_with (String.◌∷◌ c s) needle || contains needle s

-- Secret.String, the rendering of a secret in every log, error and response.
unfoldable pub redact : String → String
redact secret = if secret == "" then "" else "[REDACTED]"

-- stripeKeyMode
unfoldable pub stripe_key_mode : String → String
stripe_key_mode key =
    if contains "_live_" key then "live" else if contains "_test_" key then "test" else "unknown"

-- App
pub record App : Type 0 where
  pub name : String
  pub environment : String
  pub shutdown_timeout : ℤ

-- Environment.IsProduction and valid
abbrev pub is_production : String → Bool
is_production e = e == "production"

abbrev pub is_environment : String → Bool
is_environment e = e == "development" || (e == "staging" || e == "production")

-- HTTP
pub record Http : Type 0 where
  pub port : ℤ
  pub read_header_timeout : ℤ
  pub read_timeout : ℤ
  pub write_timeout : ℤ
  pub idle_timeout : ℤ
  pub api_timeout : ℤ
  pub webhook_timeout : ℤ
  pub cors_allowed_origins : List String
  pub trusted_proxies : ℤ
  pub auth_rate_limit_rps : Float
  pub auth_rate_limit_burst : ℤ
  pub metrics_port : ℤ
  pub metrics_bind_address : String

-- Database
pub record Database : Type 0 where
  pub dsn : String
  pub max_conns : ℤ
  pub min_conns : ℤ
  pub max_conn_lifetime : ℤ
  pub max_conn_idle_time : ℤ
  pub health_check_period : ℤ
  pub connect_timeout : ℤ
  pub statement_timeout : ℤ
  pub idle_in_tx_timeout : ℤ
  pub slow_query_threshold : ℤ

-- Stripe
pub record StripeSettings : Type 0 where
  pub secret_key : String
  pub webhook_secret : String
  pub publishable_key : String
  pub api_version : String
  pub webhook_tolerance : ℤ
  pub max_network_retries : ℤ
  pub http_timeout : ℤ
  pub ignore_api_version_mismatch : Bool
  pub checkout_success_url : String
  pub checkout_cancel_url : String
  pub checkout_return_url : String
  pub portal_return_url : String
  pub allowed_price_ids : List String

-- Auth
pub record AuthSettings : Type 0 where
  pub jwt_secret : String
  pub jwt_issuer : String
  pub jwt_audience : String
  pub access_token_ttl : ℤ
  pub refresh_token_ttl : ℤ
  pub cookie_secure : Bool
  pub cookie_domain : String
  pub bcrypt_cost : ℤ

-- Sweeper
pub record SweeperSettings : Type 0 where
  pub enabled : Bool
  pub interval : ℤ
  pub max_attempts : ℤ
  pub base_backoff : ℤ
  pub max_backoff : ℤ
  pub batch_size : ℤ
  pub stale_claim_after : ℤ
  pub alert_after : ℤ

-- Retention
pub record RetentionSettings : Type 0 where
  pub enabled : Bool
  pub interval : ℤ
  pub settled_payload_after : ℤ
  pub unsettled_payload_after : ℤ
  pub batch_size : ℤ
  pub refresh_token_grace : ℤ

-- Log
pub record LogSettings : Type 0 where
  pub level : String
  pub format : String
  pub add_source : Bool

pub record Config : Type 0 where
  pub app : App
  pub http : Http
  pub database : Database
  pub stripe : StripeSettings
  pub auth : AuthSettings
  pub sweeper : SweeperSettings
  pub retention : RetentionSettings
  pub log : LogSettings
