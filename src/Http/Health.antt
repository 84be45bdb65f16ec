-- ===== src/Http/Health.antt =====
-- internal/handler/health.go: the two probes, with the query of internal/database/postgres.go that
-- readiness asks.
use Prim.Native.String.{◌++◌ as join}
use stripe_payment_service.Prelude.{◌-◌, ◌*◌, ◌/◌, String, Option, none, some}
use stripe_payment_service.Domain.Errors.{Result, ok, err, failure, other}
use stripe_payment_service.Domain.Time.{Time, Duration, second}
use stripe_payment_service.Http.{Response, write_json, health_body}
use stripe_payment_service.Run.{World, Run, pure, attempt, reads, depart, ◌>>=◌}

pub record HealthHandler : Type 0 where
  pub version : String
  pub started_at : Time

abbrev answered : Option String × World → Result (Unit {0}) × World
answered (none, w) = (ok tt, w)
answered (some fault, w) = (err (failure other (join "health check: " fault)), w)

-- (*DB).HealthCheck: SELECT 1, which answers 1.
unfoldable pub health_check : Run Unit
health_check w = answered (depart w.trips w)

-- uptime, in whole seconds
abbrev uptime : HealthHandler → Time → Duration
uptime h now = (now - h.started_at) / second * second

-- Live
unfoldable pub live : HealthHandler → Run Response
live h = do
  now ← reads λ w. w.clock
  pure (write_json 200 (health_body "ok" h.version (uptime h now) none))

abbrev ready_answer :
    HealthHandler → (now : Time) → (latency : Duration) → Result (Unit {0}) → Response
ready_answer h now latency (ok u) = write_json 200 (
    health_body "ok" h.version (uptime h now)
      (some (record { status = "ok"; latency = latency; error = "" })))
ready_answer h now latency (err e) = write_json 503 (
    health_body "unavailable" h.version (uptime h now)
      (some (record { status = "fail"; latency = latency; error = "unreachable" })))

-- Ready
unfoldable pub ready : HealthHandler → Run Response
ready h = do
  start ← reads λ w. w.clock
  result ← attempt health_check
  now ← reads λ w. w.clock
  pure (ready_answer h now (now - start) result)
