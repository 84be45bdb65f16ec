-- ===== src/Config/Load.antt =====
-- internal/config/config.go: Load, one record at a time, in the order of the source.
use stripe_payment_service.Prelude.{ℕ, String, true, false, ◌⊎◌, inl, inr, List, [], ◌∷◌, ◌++◌, ◌*◌}
use stripe_payment_service.Prelude.Int.{ℤ, pos, wrap_int}
use stripe_payment_service.Config.{
  Process, Config, App, Http, Database, StripeSettings, AuthSettings, SweeperSettings,
  RetentionSettings, LogSettings, ordered,
}
use stripe_payment_service.Config.Loader.{
  Loader, pure, str, required, int_val, duration, bool_val, float, csv, ◌>>=◌,
}
use stripe_payment_service.Config.Validate.{validate}

abbrev millisecond : ℕ
millisecond = 1_000_000

abbrev second : ℕ
second = 1_000_000_000

abbrev seconds : ℕ → ℤ
seconds n = pos (n * second)

abbrev minutes : ℕ → ℤ
minutes n = pos (n * (60 * second))

abbrev hours : ℕ → ℤ
hours n = pos (n * (3600 * second))

abbrev lower : String → Loader String
lower text p = (p.to_lower text, [])

unfoldable pub load_app : Loader App
load_app = do
  name ← str "APP_NAME" "stripe-payment-service"
  raw ← str "APP_ENV" "development"
  environment ← lower raw
  shutdown_timeout ← duration "SHUTDOWN_TIMEOUT" (seconds 15)
  pure (record { name = name; environment = environment; shutdown_timeout = shutdown_timeout })

unfoldable pub load_http : Loader Http
load_http = do
  port ← int_val "HTTP_PORT" (pos 8080)
  read_header_timeout ← duration "HTTP_READ_HEADER_TIMEOUT" (seconds 5)
  read_timeout ← duration "HTTP_READ_TIMEOUT" (seconds 15)
  write_timeout ← duration "HTTP_WRITE_TIMEOUT" (seconds 30)
  idle_timeout ← duration "HTTP_IDLE_TIMEOUT" (seconds 60)
  api_timeout ← duration "HTTP_API_TIMEOUT" (seconds 10)
  webhook_timeout ← duration "HTTP_WEBHOOK_TIMEOUT" (seconds 25)
  cors_allowed_origins ← csv "CORS_ALLOWED_ORIGINS"
  trusted_proxies ← int_val "TRUSTED_PROXIES" (pos 0)
  auth_rate_limit_rps ← float "AUTH_RATE_LIMIT_RPS" (ordered (pos 4_596_373_779_694_328_218))
  auth_rate_limit_burst ← int_val "AUTH_RATE_LIMIT_BURST" (pos 5)
  metrics_port ← int_val "METRICS_PORT" (pos 9091)
  metrics_bind_address ← str "METRICS_BIND_ADDRESS" ""
  pure (record {
    port = port;
    read_header_timeout = read_header_timeout;
    read_timeout = read_timeout;
    write_timeout = write_timeout;
    idle_timeout = idle_timeout;
    api_timeout = api_timeout;
    webhook_timeout = webhook_timeout;
    cors_allowed_origins = cors_allowed_origins;
    trusted_proxies = trusted_proxies;
    auth_rate_limit_rps = auth_rate_limit_rps;
    auth_rate_limit_burst = auth_rate_limit_burst;
    metrics_port = metrics_port;
    metrics_bind_address = metrics_bind_address;
  })

-- The two counts of connections are converted to 32 bits.
unfoldable pub load_database : Loader Database
load_database = do
  dsn ← required "DATABASE_URL"
  max_conns ← int_val "DB_MAX_CONNS" (pos 25)
  min_conns ← int_val "DB_MIN_CONNS" (pos 2)
  max_conn_lifetime ← duration "DB_MAX_CONN_LIFETIME" (hours 1)
  max_conn_idle_time ← duration "DB_MAX_CONN_IDLE_TIME" (minutes 30)
  health_check_period ← duration "DB_HEALTH_CHECK_PERIOD" (minutes 1)
  connect_timeout ← duration "DB_CONNECT_TIMEOUT" (seconds 10)
  statement_timeout ← duration "DB_STATEMENT_TIMEOUT" (seconds 30)
  idle_in_tx_timeout ← duration "DB_IDLE_IN_TX_TIMEOUT" (seconds 60)
  slow_query_threshold ← duration "DB_SLOW_QUERY_THRESHOLD" (pos (200 * millisecond))
  pure (record {
    dsn = dsn;
    max_conns = wrap_int 32 max_conns;
    min_conns = wrap_int 32 min_conns;
    max_conn_lifetime = max_conn_lifetime;
    max_conn_idle_time = max_conn_idle_time;
    health_check_period = health_check_period;
    connect_timeout = connect_timeout;
    statement_timeout = statement_timeout;
    idle_in_tx_timeout = idle_in_tx_timeout;
    slow_query_threshold = slow_query_threshold;
  })

unfoldable pub load_stripe : Loader StripeSettings
load_stripe = do
  secret_key ← required "STRIPE_SECRET_KEY"
  webhook_secret ← required "STRIPE_WEBHOOK_SECRET"
  publishable_key ← str "STRIPE_PUBLISHABLE_KEY" ""
  api_version ← str "STRIPE_API_VERSION" "2026-08-26.dahlia"
  webhook_tolerance ← duration "STRIPE_WEBHOOK_TOLERANCE" (minutes 5)
  max_network_retries ← int_val "STRIPE_MAX_NETWORK_RETRIES" (pos 3)
  http_timeout ← duration "STRIPE_HTTP_TIMEOUT" (seconds 20)
  ignore_api_version_mismatch ← bool_val "STRIPE_IGNORE_API_VERSION_MISMATCH" false
  checkout_success_url ←
      str "STRIPE_CHECKOUT_SUCCESS_URL"
        "http://localhost:3000/billing/success?session_id={CHECKOUT_SESSION_ID}"
  checkout_cancel_url ← str "STRIPE_CHECKOUT_CANCEL_URL" "http://localhost:3000/billing/cancel"
  checkout_return_url ←
      str "STRIPE_CHECKOUT_RETURN_URL"
        "http://localhost:5173/billing/return?session_id={CHECKOUT_SESSION_ID}"
  portal_return_url ← str "STRIPE_PORTAL_RETURN_URL" "http://localhost:5173/"
  allowed_price_ids ← csv "STRIPE_ALLOWED_PRICE_IDS"
  pure (record {
    secret_key = secret_key;
    webhook_secret = webhook_secret;
    publishable_key = publishable_key;
    api_version = api_version;
    webhook_tolerance = webhook_tolerance;
    max_network_retries = max_network_retries;
    http_timeout = http_timeout;
    ignore_api_version_mismatch = ignore_api_version_mismatch;
    checkout_success_url = checkout_success_url;
    checkout_cancel_url = checkout_cancel_url;
    checkout_return_url = checkout_return_url;
    portal_return_url = portal_return_url;
    allowed_price_ids = allowed_price_ids;
  })

unfoldable pub load_auth : Loader AuthSettings
load_auth = do
  jwt_secret ← required "JWT_SECRET"
  jwt_issuer ← str "JWT_ISSUER" "stripe-payment-service"
  jwt_audience ← str "JWT_AUDIENCE" "stripe-payment-service-api"
  access_token_ttl ← duration "JWT_ACCESS_TOKEN_TTL" (minutes 15)
  refresh_token_ttl ← duration "REFRESH_TOKEN_TTL" (hours 720)
  cookie_secure ← bool_val "AUTH_COOKIE_SECURE" false
  cookie_domain ← str "AUTH_COOKIE_DOMAIN" ""
  bcrypt_cost ← int_val "BCRYPT_COST" (pos 12)
  pure (record {
    jwt_secret = jwt_secret;
    jwt_issuer = jwt_issuer;
    jwt_audience = jwt_audience;
    access_token_ttl = access_token_ttl;
    refresh_token_ttl = refresh_token_ttl;
    cookie_secure = cookie_secure;
    cookie_domain = cookie_domain;
    bcrypt_cost = bcrypt_cost;
  })

unfoldable pub load_sweeper : Loader SweeperSettings
load_sweeper = do
  enabled ← bool_val "WEBHOOK_SWEEPER_ENABLED" true
  interval ← duration "WEBHOOK_SWEEPER_INTERVAL" (minutes 1)
  max_attempts ← int_val "WEBHOOK_SWEEPER_MAX_ATTEMPTS" (pos 6)
  base_backoff ← duration "WEBHOOK_SWEEPER_BASE_BACKOFF" (seconds 30)
  max_backoff ← duration "WEBHOOK_SWEEPER_MAX_BACKOFF" (minutes 30)
  batch_size ← int_val "WEBHOOK_SWEEPER_BATCH_SIZE" (pos 100)
  stale_claim_after ← duration "WEBHOOK_STALE_CLAIM_AFTER" (minutes 5)
  alert_after ← duration "WEBHOOK_SWEEPER_ALERT_AFTER" (hours 1)
  pure (record {
    enabled = enabled;
    interval = interval;
    max_attempts = max_attempts;
    base_backoff = base_backoff;
    max_backoff = max_backoff;
    batch_size = batch_size;
    stale_claim_after = stale_claim_after;
    alert_after = alert_after;
  })

unfoldable pub load_retention : Loader RetentionSettings
load_retention = do
  enabled ← bool_val "PAYLOAD_RETENTION_ENABLED" true
  interval ← duration "PAYLOAD_RETENTION_INTERVAL" (hours 6)
  settled_payload_after ← duration "PAYLOAD_RETENTION_SETTLED_AFTER" (hours 720)
  unsettled_payload_after ← duration "PAYLOAD_RETENTION_UNSETTLED_AFTER" (hours 2160)
  batch_size ← int_val "PAYLOAD_RETENTION_BATCH_SIZE" (pos 500)
  refresh_token_grace ← duration "REFRESH_TOKEN_GRACE" (hours 168)
  pure (record {
    enabled = enabled;
    interval = interval;
    settled_payload_after = settled_payload_after;
    unsettled_payload_after = unsettled_payload_after;
    batch_size = batch_size;
    refresh_token_grace = refresh_token_grace;
  })

unfoldable pub load_log : Loader LogSettings
load_log = do
  raw_level ← str "LOG_LEVEL" "info"
  level ← lower raw_level
  raw_format ← str "LOG_FORMAT" "json"
  format ← lower raw_format
  add_source ← bool_val "LOG_ADD_SOURCE" false
  pure (record { level = level; format = format; add_source = add_source })

unfoldable pub load_config : Loader Config
load_config = do
  app ← load_app
  http ← load_http
  database ← load_database
  stripe ← load_stripe
  auth ← load_auth
  sweeper ← load_sweeper
  retention ← load_retention
  log ← load_log
  pure (record {
    app = app;
    http = http;
    database = database;
    stripe = stripe;
    auth = auth;
    sweeper = sweeper;
    retention = retention;
    log = log;
  })

abbrev pub accept : Config → List String → List String ⊎ Config
accept cfg [] = inr cfg
accept cfg (e ∷ es) = inl (e ∷ es)

-- Load: the configuration, or the failures to parse together with the violations.
unfoldable pub load : Process → List String ⊎ Config
load p = let (cfg, failures) = load_config p in accept cfg (failures ++ validate p cfg)
