-- ===== src/Router.antt =====
-- internal/handler/router.go: the routes and the chain of middlewares around them. The matching of a
-- request with the routes is chi's, a parameter.
mod Mounted
mod Guards
mod Recorded
mod Crashes
mod Failures
mod Tests
use stripe_payment_service.Prelude.{
  ℕ, ◌*◌, String, Bool, true, false, Option, none, some, List, [], ◌∷◌, Text, bytes, or_default,
  length, if◌then◌else◌,
}
use stripe_payment_service.Domain.Errors.{Result, ok, err}
use stripe_payment_service.Domain.Subscription.{Uuid}
use stripe_payment_service.Domain.Time.{Time, Duration, second}
use stripe_payment_service.Auth.Service.{AuthService}
use stripe_payment_service.RateLimit.{Limiters, RateLimitConfig}
use stripe_payment_service.Http.{Response, Request, write_error}
use stripe_payment_service.Http.Auth.{require_auth}
use stripe_payment_service.Run.{World, Run, pure}
use stripe_payment_service.Middleware.{Net, Handler, Serve, play, respond}
use stripe_payment_service.Middleware.RequestId.{Ids, request_id}
use stripe_payment_service.Middleware.Throttle.{Addresses, client_key, throttle}
use stripe_payment_service.Middleware.Chain.{
  Incoming, access_log, metrics, recoverer, timeout, cors,
}

-- The endpoints that anyone may call, those that want a bearer token, and the probes.
pub data Public : Type 0 where
  register login refresh logout : Public

pub data Protected : Type 0 where
  me checkout portal subscription : Protected

pub data Endpoint : Type 0 where
  livez healthz webhook : Endpoint
  public : Public → Endpoint
  protected : Protected → Endpoint

-- What chi finds for a request.
pub data Match : Type 0 where
  matched : Endpoint → Match
  no_route method_not_allowed : Match

-- The routes that NewRouter mounts: method, pattern and endpoint.
abbrev pub routes : List (String × String × Endpoint)
routes =
    ("GET", "/livez", livez)
    ∷ ("GET", "/healthz", healthz)
    ∷ ("POST", "/webhook", webhook)
    ∷ ("POST", "/api/v1/auth/register", public register)
    ∷ ("POST", "/api/v1/auth/login", public login)
    ∷ ("POST", "/api/v1/auth/refresh", public refresh)
    ∷ ("POST", "/api/v1/auth/logout", public logout)
    ∷ ("GET", "/api/v1/auth/me", protected me)
    ∷ ("POST", "/api/v1/checkout", protected checkout)
    ∷ ("POST", "/api/v1/portal", protected portal)
    ∷ ("GET", "/api/v1/subscription", protected subscription)
    ∷ []

-- RouterConfig; durations that are not positive in the code are 0 here.
pub record RouterConfig : Type 0 where
  pub api_timeout : Duration
  pub cors_origins : List String
  pub cors_max_age : Duration
  pub auth_rate_limit : Option RateLimitConfig
  pub trusted_proxies : ℕ
  pub has_metrics : Bool
  pub webhook_timeout : Duration

-- withDefaults
unfoldable pub with_defaults : RouterConfig → RouterConfig
with_defaults c = record c {
  api_timeout = or_default c.api_timeout (10 * second);
  webhook_timeout = or_default c.webhook_timeout (25 * second);
}

-- The handlers that are mounted, those of protected endpoints for a subject.
pub record Handlers : Type 0 where
  pub probe : Bool → Handler
  pub deliver : Request → Handler
  pub anyone : Public → Request → Handler
  pub owned : Protected → Uuid → Request → Run Response

-- What the router calls outside the package, and the service that verifies tokens.
pub record Wiring (L I : Type 0) : Type 0 where
  pub net : Net
  pub ids : Ids
  pub limiters : Limiters L
  pub addresses : Addresses I
  pub equal_fold : String → String → Bool
  pub auth : AuthService
  pub find : List (String × String × Endpoint) → (method path : String) → Match

module _ {L I : Type 0} (e : Wiring L I) (h : Handlers) (c : RouterConfig) (r : Incoming) where
  abbrev when : Bool → (Serve L → Serve L) → Serve L → Serve L
  when true m next = m next
  when false m next = next

  abbrev limiting : Option RateLimitConfig → Serve L → Serve L
  limiting none next = next
  limiting (some limit) next =
      throttle e.net e.limiters limit r.path
        (client_key e.addresses e.net c.trusted_proxies r.remote_addr r.forwarded) next

  -- Logout is mounted outside the group that is limited.
  abbrev pub serve_public : Public → Serve L
  serve_public logout = play e.net (h.anyone logout r.request)
  serve_public p = limiting c.auth_rate_limit (play e.net (h.anyone p r.request))

  -- A protected endpoint behind RequireAuth.
  abbrev pub serve_protected : Protected → Serve L
  serve_protected p = play e.net (
      respond e.net (require_auth e.auth e.equal_fold (λ user. h.owned p user r.request) r.request))

  -- The handlers with the middlewares of their groups.
  unfoldable pub serve_endpoint : Endpoint → Serve L
  serve_endpoint livez = play e.net (h.probe true)
  serve_endpoint healthz = play e.net (h.probe false)
  serve_endpoint webhook = timeout e.net r c.webhook_timeout (play e.net (h.deliver r.request))
  serve_endpoint (public p) = timeout e.net r c.api_timeout (serve_public p)
  serve_endpoint (protected p) = timeout e.net r c.api_timeout (serve_protected p)

  abbrev pub routed : Match → Serve L
  routed (matched endpoint) = serve_endpoint endpoint
  routed no_route = play e.net (respond e.net (pure (write_error 404 "not found")))
  routed method_not_allowed =
      play e.net (respond e.net (pure (write_error 405 "method not allowed")))

  abbrev has_origins : List String → Bool
  has_origins [] = false
  has_origins (o ∷ os) = true

  -- The global chain around a handler, the outermost first.
  unfoldable pub chain : Serve L → Serve L
  chain next = request_id e.ids (bytes (r.request.header "X-Request-Id")) (
      access_log e.net r (
        when c.has_metrics (metrics e.net r) (
          recoverer e.net r
            (when (has_origins c.cors_origins) (cors e.net r c.cors_origins c.cors_max_age) next))))

  -- NewRouter, its service of one request, for a configuration with its defaults
  unfoldable pub serve : Serve L
  serve = chain (routed (e.find routes r.method r.path))
