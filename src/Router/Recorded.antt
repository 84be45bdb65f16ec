-- ===== src/Router/Recorded.antt =====
-- internal/handler/router.go: the access log around the whole tree of handlers.
use stripe_payment_service.Prelude.{
  ℕ, ◌-◌, Bool, true, false, ◌≡◌, refl, Option, none, some, List, [], ◌∷◌, Text,
}
use stripe_payment_service.Domain.Time.{Duration}
use stripe_payment_service.RateLimit.{RateLimitConfig}
use stripe_payment_service.Middleware.{
  Exchange, Context, Net, Exit, returned, panicked, abort_handler, fault, Serve, Line, access,
  Recorder, wrap_writer, client_ip,
}
use stripe_payment_service.Middleware.RequestId.{request_id}
use stripe_payment_service.Middleware.Recording.{
  RecordsIn, IsFaithful, IsResponse, status_of, accepted, Keeps, play-Keeps,
}
use stripe_payment_service.Middleware.Faithful.{
  throttle-Keeps, metrics-Keeps, recoverer-Keeps, timeout-Keeps, cors-Keeps,
}
use stripe_payment_service.Middleware.Chain.{
  Incoming, access_log, access_level, logged_access, metrics, observed, recoverer, recovered, cors,
}
use stripe_payment_service.Router.{
  Wiring, Handlers, RouterConfig, Endpoint, livez, healthz, webhook, public, protected, Public,
  register, login, refresh, logout, Match, matched, no_route, method_not_allowed, routes, when,
  limiting, serve_public, serve_endpoint, routed, has_origins, chain, serve,
}

-- What remains of a request: nothing but an aborted response, or a response whose status and size
-- stand in the line that the log got last.
abbrev pub IsAccounted : {L : Type 0} → Net → Incoming → Exit × Exchange L → Type 0
IsAccounted net r (panicked p, y) = p ≡ abort_handler
IsAccounted net r (returned, y) =
    IsResponse y.sent
    × (id : Text) × (elapsed : Duration) × (earlier : List Line) × (y.lines
        ≡ access (access_level r.path (status_of y.sent)) id r.method r.path (status_of y.sent)
            (accepted net y.sent) elapsed (client_ip net r.remote_addr)
          ∷ earlier)

-- The only panic that leaves a handler is the one that aborts the response.
OnlyAborts : {L : Type 0} → Exit × Exchange L → Type 0
OnlyAborts (returned, x) = Unit
OnlyAborts (panicked p, x) = p ≡ abort_handler

module _ {L I : Type 0} (e : Wiring L I) (h : Handlers) (c : RouterConfig) (r : Incoming) where
  recovered-OnlyAborts :
      (ctx : Context) (o : Exit × Exchange L) → OnlyAborts (recovered e.net r ctx o)
  unfolding OnlyAborts
  recovered-OnlyAborts ctx (returned, x) = tt
  recovered-OnlyAborts ctx (panicked abort_handler, x) = refl
  recovered-OnlyAborts ctx (panicked (fault what), x) = tt

  observed-OnlyAborts :
      (start : ℕ) (o : Exit × Exchange L) → OnlyAborts o → OnlyAborts (observed e.net r start o)
  unfolding OnlyAborts
  observed-OnlyAborts start (returned, x) h = tt
  observed-OnlyAborts start (panicked p, x) h = h

  limiting-Keeps :
      (o : Option RateLimitConfig) (s : Serve L)
      → Keeps e.net s
      → Keeps e.net (limiting e h c r o s)
  limiting-Keeps none s k = k
  limiting-Keeps (some limit) s k = throttle-Keeps e.net e.limiters limit r.path _ s k

  serve_public-Keeps : (p : Public) → Keeps e.net (serve_public e h c r p)
  serve_public-Keeps register = limiting-Keeps c.auth_rate_limit _ (play-Keeps e.net _)
  serve_public-Keeps login = limiting-Keeps c.auth_rate_limit _ (play-Keeps e.net _)
  serve_public-Keeps refresh = limiting-Keeps c.auth_rate_limit _ (play-Keeps e.net _)
  serve_public-Keeps logout = play-Keeps e.net _

  serve_endpoint-Keeps : (p : Endpoint) → Keeps e.net (serve_endpoint e h c r p)
  unfolding serve_endpoint
  serve_endpoint-Keeps livez = play-Keeps e.net _
  serve_endpoint-Keeps healthz = play-Keeps e.net _
  serve_endpoint-Keeps webhook = timeout-Keeps e.net r c.webhook_timeout _ (play-Keeps e.net _)
  serve_endpoint-Keeps (public p) = timeout-Keeps e.net r c.api_timeout _ (serve_public-Keeps p)
  serve_endpoint-Keeps (protected p) = timeout-Keeps e.net r c.api_timeout _ (play-Keeps e.net _)

  routed-Keeps : (m : Match) → Keeps e.net (routed e h c r m)
  routed-Keeps (matched p) = serve_endpoint-Keeps p
  routed-Keeps no_route = play-Keeps e.net _
  routed-Keeps method_not_allowed = play-Keeps e.net _

  when-cors-Keeps :
      (b : Bool) (s : Serve L)
      → Keeps e.net s
      → Keeps e.net (when e h c r b (cors e.net r c.cors_origins c.cors_max_age) s)
  when-cors-Keeps true s k = cors-Keeps e.net r c.cors_origins c.cors_max_age s k
  when-cors-Keeps false s k = k

  when-metrics-Keeps :
      (b : Bool) (s : Serve L) → Keeps e.net s → Keeps e.net (when e h c r b (metrics e.net r) s)
  when-metrics-Keeps true s k = metrics-Keeps e.net r s k
  when-metrics-Keeps false s k = k

  when-metrics-OnlyAborts :
      (b : Bool) (s : Serve L) (ctx : Context) (x : Exchange L)
      → ((y : Exchange L) → OnlyAborts (s ctx y))
      → OnlyAborts (when e h c r b (metrics e.net r) s ctx x)
  unfolding metrics
  when-metrics-OnlyAborts true s ctx x a = observed-OnlyAborts x.world.clock _ (a _)
  when-metrics-OnlyAborts false s ctx x a = a x

  logged-IsAccounted :
      (start : ℕ) (ctx : Context) (o : Exit) (x : Exchange L)
      → OnlyAborts (o, x)
      → IsFaithful e.net x
      → IsAccounted e.net r (logged_access e.net r start ctx (o, x))
  unfolding OnlyAborts
  logged-IsAccounted start ctx (panicked p) x a f = a
  logged-IsAccounted start ctx returned x a f = line x.recorder refl f
    where
      line :
          (o : Option Recorder)
          → x.recorder ≡ o
          → RecordsIn e.net x.sent o
          → IsAccounted e.net r (logged_access e.net r start ctx (returned, x))
      line none eq g = absurd g
      line (some rec) eq g = (
        g.shape,
        ctx.request_id,
        x.world.clock - start,
        x.lines,
        rw (eq, g.status, g.written) refl,
      )

  access_log-IsAccounted :
      (s : Serve L) (ctx : Context) (x : Exchange L)
      → Keeps e.net s
      → ((y : Exchange L) → OnlyAborts (s ctx y))
      → x.sent ≡ []
      → x.recorder ≡ none
      → IsAccounted e.net r (access_log e.net r s ctx x)
  unfolding access_log
  access_log-IsAccounted s ctx x keep aborts silent bare =
      let o = s ctx (wrap_writer x) in
      logged-IsAccounted x.world.clock ctx o.0 o.1 (aborts (wrap_writer x)) (
        keep ctx (wrap_writer x)
          (rw (silent, bare) (record { shape = tt; status = refl; written = refl; begun = refl })))

  -- Every request is accounted for, whatever its handler does, whether it answers twice, writes
  -- without a status, stays silent until the deadline or panics, wherever it is routed and whichever
  -- middlewares are configured. It ends with a panic only if the handler aborts the response. Otherwise the
  -- client gets one status at most, with no byte of the body before it, and the last line of the log
  -- is the access line of the request, at the level of the status that the client sees, with that
  -- status and with the bytes that the connection took.
  pub serve-IsAccounted :
      (ctx : Context) (x : Exchange L)
      → x.sent ≡ []
      → x.recorder ≡ none
      → IsAccounted e.net r (serve e h c r ctx x)
  unfolding serve chain request_id recoverer
  serve-IsAccounted ctx x silent bare =
      let inner = routed e h c r (e.find routes r.method r.path) in
      let guarded =
        when e h c r (has_origins e h c r c.cors_origins)
          (cors e.net r c.cors_origins c.cors_max_age) inner in
      let keep = when-metrics-Keeps c.has_metrics (recoverer e.net r guarded) (
        recoverer-Keeps e.net r guarded (
          when-cors-Keeps (has_origins e h c r c.cors_origins) inner
            (routed-Keeps (e.find routes r.method r.path)))) in
      access_log-IsAccounted
        (when e h c r c.has_metrics (metrics e.net r) (recoverer e.net r guarded)) _ _ keep
        (λ y.
          when-metrics-OnlyAborts c.has_metrics (recoverer e.net r guarded) _ y
            (λ z. recovered-OnlyAborts _ (guarded _ z)))
        silent bare
