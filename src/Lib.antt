-- ===== src/Lib.antt =====
-- A model of the payment service: the idempotency ledger of its webhooks, the service that
-- handles them, its subscriptions, and its logins and sessions, with the domain types and the errors
-- that they share.
--
-- Stripe delivers events at least once and in any order. A delivery is verified, claimed in the
-- ledger, applied to the subscriptions, and settled in the ledger. Workers of several replicas run
-- at once and meet in the database only, so each SQL statement, and each transaction that locks its
-- row first, is one atomic step here, and a theorem on concurrency speaks of every sequence of such
-- steps.
--
-- The files:
--   Prelude        shared names; tables with a unique key, sorting, bytes, integers
--   Domain         internal/domain/models.go: statuses, entities, Validate; errors with mapError of
--                  internal/repository/postgres/errors.go
--   Ledger         internal/repository/postgres/webhook_repo.go, its statements (TryClaimEvent is
--                  `claim`, MarkEvent… are `settle_…`); Scans has the statements over many rows,
--                  History their interleavings
--   Billing        internal/repository/postgres/subscription_repo.go (UpdateSubscriptionStatus is
--                  `update_status`, RecordInvoicePayment is `record_invoice`)
--   Session        internal/repository/postgres/refresh_token_repo.go (ConsumeRefreshToken is
--                  `consume`)
--   Truncate       truncate and failureReason of webhook_repo.go
--   Checkout       internal/service/checkout_service.go, with subscription_service.go in View
--   Stripe         internal/stripe/client.go, over the functions of the SDK that it calls
--   Run            what a use case runs in: the tables, the clock, and calls of the database that take
--                  time and may fail
--   Repository     the methods of the repositories as the services call them, with
--                  internal/repository/postgres/user_repo.go in Users, and the calls that the methods
--                  of refresh_token_repo.go make in Sessions
--   Webhook        internal/service/webhook_service.go: Mapping (subscriptionFrom, statusUpdateFrom
--                  and their helpers), Handlers (resolveUser to dispatch), Service (ProcessEvent,
--                  ReplayEvent)
--   Sweeper        internal/worker/webhook_sweeper.go: Sweep and its steps, the report included
--   Retention      internal/worker/retention.go: RunOnce with its two loops
--   Auth           internal/auth (Password, Token) and internal/service/auth_service.go (Service)
--   Config         internal/config/config.go: Loader (its readings), Load, Checks and Validate
--   Logger         internal/logger/logger.go: ParseLevel, replaceAttr and its redaction
--   Middleware     internal/handler/middleware: recorder.go and the exchange of a request; RequestId
--                  (requestid.go), Throttle (the rest of ratelimit.go), Chain (logger.go, metrics.go,
--                  recoverer.go, timeout.go, cors.go)
--   Router         internal/handler/router.go: routes and chains; Mounted has the handlers
--   Http           internal/handler: response.go, Auth (auth_handler.go and middleware/auth.go),
--                  Webhook (HandleWebhook of stripe_handler.go), Checkout (the rest of
--                  stripe_handler.go, and subscription_handler.go), Health (health.go), Cors (the
--                  origins of middleware/cors.go)
--   RateLimit      internal/handler/middleware/ratelimit.go: allow and clientAddr
--
-- Numbers: an instant is the number of microseconds since the year 1, the resolution of the
-- database; instants before it are taken to be 0. The column `attempts` and the count of failures
-- are taken not to wrap. Loops are structural recursion,
-- but for the two of RunOnce, which run on fuel: one round more than there are payloads in the ledger
-- is enough, since each full batch purges one at least, and one round more than there are tokens.
--
-- Durations of the configuration are in nanoseconds, and its integers wrap at the width that the
-- source gives them.
--
-- A run of the service is alone in its world: what other workers do between its calls is the subject
-- of the histories of Ledger and Billing. A failed commit is taken to have changed nothing.
--
-- Not modelled: deliveries whose id or payload violates a CHECK constraint of the ledger, which the
-- INSERT of a claim refuses; CHECK constraints that an UPDATE of a subscription may violate; status codes
-- that net/http takes as informational or invalid, which no handler of the service sends; log lines but
-- those of the middleware and of the workers; the skipping of rows that another transaction has locked, which only makes a scan find fewer rows; the
-- surrogate ids and the column `updated_at` of subscriptions and tokens, which nothing reads;
-- the re-rendering of a payload by the type jsonb. The third-party code that the service calls (the
-- Stripe SDK, encoding/json, bcrypt, the JWT library, the source of randomness, the JSON expressions
-- of the database) is a parameter.
pub mod Auth
pub mod Billing
pub mod Checkout
pub mod Config
pub mod Domain
pub mod Http
pub mod Ledger
pub mod Logger
pub mod Middleware
pub mod Prelude
pub mod RateLimit
pub mod Repository
pub mod Retention
pub mod Router
pub mod Run
pub mod Session
pub mod Stripe
pub mod Sweeper
pub mod Truncate
pub mod Webhook
