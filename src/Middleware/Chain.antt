-- ===== src/Middleware/Chain.antt =====
-- internal/handler/middleware: request ids (requestid.go), the access log (logger.go), the metrics of
-- requests (metrics.go), recovery from panics (recoverer.go), deadlines (timeout.go), CORS (cors.go)
-- and the limit on requests (ratelimit.go), each around a handler.
use stripe_payment_service.Prelude.{
  ℕ, ◌+◌, ◌-◌, ◌*◌, ◌/◌, String, ◌||◌, Option, some, List, [], ◌∷◌, ◌==◌, Text, bytes, leb,
  or_default, if◌then◌else◌,
}
use stripe_payment_service.Domain.Time.{Time, Duration, minute, second}
use stripe_payment_service.Logger.{Level, level_debug, level_info, level_warn, level_error}
use stripe_payment_service.Http.{Request}
use stripe_payment_service.Http.Cors.{is_allowed, allowed_origins}
use stripe_payment_service.Middleware.{
  Ending, canceled, deadline_exceeded, Context, with_timeout, Exchange, Serve, Exit, returned,
  panicked, abort_handler, fault, Net, Op, set_field, add_field, send_status, json_error, apply_all,
  wrap_writer, or_fresh, log, access, panicked_line, exceeded_line, RequestMetric, client_ip,
}

-- A request at the door: what handlers read of it, its method and path, RemoteAddr, the values
-- of X-Forwarded-For, and the pattern that the router matched, blank where none did.
pub record Incoming : Type 0 where
  pub request : Request
  pub method : String
  pub path : String
  pub remote_addr : Text
  pub forwarded : List Text
  pub pattern : String

-- AccessLog's level
unfoldable pub access_level : (path : String) → (status : ℕ) → Level
access_level path status =
    if leb 500 status
    then level_error
    else if leb 400 status
    then level_warn
    else if path == "/healthz" || path == "/livez"
    then level_debug
    else level_info

-- routeLabel
abbrev pub route_label : Incoming → String
route_label r = if r.pattern == "" then "unmatched" else r.pattern

abbrev pub origin_ops : String → List Op
origin_ops origin =
    set_field "Access-Control-Allow-Origin" (bytes origin)
    ∷ set_field "Access-Control-Allow-Credentials" (bytes "true")
    ∷ set_field "Access-Control-Expose-Headers" (bytes "X-Request-Id")
    ∷ add_field "Vary" (bytes "Origin")
    ∷ []

abbrev pub preflight_ops : Net → (seconds : ℕ) → List Op
preflight_ops net seconds =
    set_field "Access-Control-Allow-Methods" (bytes "GET, POST, OPTIONS")
    ∷ set_field "Access-Control-Allow-Headers" (bytes "Content-Type, Authorization, X-Request-Id")
    ∷ set_field "Access-Control-Max-Age" (net.decimal seconds)
    ∷ add_field "Vary" (bytes "Access-Control-Request-Method")
    ∷ add_field "Vary" (bytes "Access-Control-Request-Headers")
    ∷ send_status 204
    ∷ []

module _ {L : Type 0} (net : Net) (r : Incoming) where
  abbrev pub logged_access : (start : Time) → Context → Exit × Exchange L → Exit × Exchange L
  logged_access start c (panicked p, x) = (panicked p, x)
  logged_access start c (returned, x) =
      let rec = or_fresh x.recorder in
      let line =
        access (access_level r.path rec.status) c.request_id r.method r.path rec.status rec.written
          (x.world.clock - start) (client_ip net r.remote_addr) in
      (returned, log line x)

  -- AccessLog
  unfoldable pub access_log : Serve L → Serve L
  access_log next c x = logged_access x.world.clock c (next c (wrap_writer x))

  abbrev pub left : Exchange L → Exchange L
  left x = record x { in_flight = x.in_flight - 1 }

  abbrev pub observed : (start : Time) → Exit × Exchange L → Exit × Exchange L
  observed start (panicked p, x) = (panicked p, left x)
  observed start (returned, x) =
      let rec = or_fresh x.recorder in
      let metric : RequestMetric = record {
        method = r.method;
        route = route_label r;
        status = rec.status;
        elapsed = x.world.clock - start;
        written = rec.written;
      } in
      (returned, left (record x { requests = metric ∷ x.requests }))

  -- Metrics
  unfoldable pub metrics : Serve L → Serve L
  metrics next c x =
      observed x.world.clock (next c (wrap_writer (record x { in_flight = x.in_flight + 1 })))

  abbrev pub recovering : (what : String) → Context → Option Ending → Exchange L → Exchange L
  recovering what c (some canceled) x = x
  recovering what c ending x =
      apply_all net (json_error 500 "internal server error")
        (log (panicked_line c.request_id what r.method r.path) x)

  abbrev pub recovered : Context → Exit × Exchange L → Exit × Exchange L
  recovered c (returned, x) = (returned, x)
  recovered c (panicked abort_handler, x) = (panicked abort_handler, x)
  recovered c (panicked (fault what), x) = (returned, recovering what c (c.ending x.world.clock) x)

  -- Recoverer
  unfoldable pub recoverer : Serve L → Serve L
  recoverer next c x = recovered c (next c x)

  abbrev pub timing_out : Duration → Context → Option Ending → Exchange L → Exchange L
  timing_out d c (some deadline_exceeded) x =
      if (or_fresh x.recorder).wrote_header
      then x
      else apply_all net (json_error 503 "request timed out")
          (log (exceeded_line c.request_id r.method r.path d) x)
  timing_out d c ending x = x

  abbrev pub timed : Duration → Context → Exit × Exchange L → Exit × Exchange L
  timed d c (panicked p, x) = (panicked p, x)
  timed d c (returned, x) = (returned, timing_out d c (c.ending x.world.clock) x)

  -- Timeout
  unfoldable pub timeout : Duration → Serve L → Serve L
  timeout d next c x =
      let c' = with_timeout x.world.clock d c in timed d c' (next c' (wrap_writer x))

  -- CORS, for the configured origins and the age that preflights may be kept
  unfoldable pub cors : List String → Duration → Serve L → Serve L
  cors origins max_age next c x =
      let origin = r.request.header "Origin" in
      if is_allowed (allowed_origins origins) origin
      then (if r.method == "OPTIONS"
          then (
            returned,
            apply_all net (preflight_ops net (or_default max_age (10 * minute) / second))
                (apply_all net (origin_ops origin) x),
          )
          else next c (apply_all net (origin_ops origin) x))
      else next c x
