-- ===== src/Middleware/Faithful.antt =====
-- internal/handler/middleware: every middleware below the access log keeps the recorder faithful.
use stripe_payment_service.Prelude.{
  ℕ, ◌+◌, String, Bool, true, false, Option, none, some, List, Bool-cases, inl, inr, ◌==◌,
  or_default, ◌*◌, ◌/◌,
}
use stripe_payment_service.Domain.Time.{Duration, minute, second}
use stripe_payment_service.RateLimit.{Limiters, RateLimitConfig, allow}
use stripe_payment_service.Http.Cors.{is_allowed, allowed_origins}
use stripe_payment_service.Middleware.{
  Ending, canceled, deadline_exceeded, Recorder, or_fresh, Exchange, Net, Context, with_timeout,
  Exit, returned, panicked, abort_handler, fault, Serve, wrap_writer, json_error,
}
use stripe_payment_service.Middleware.Recording.{RecordsIn, IsFaithful, Keeps, apply_all-IsFaithful}
use stripe_payment_service.Middleware.Chain.{
  Incoming, metrics, observed, recoverer, recovered, recovering, timeout, timed, timing_out, cors,
  origin_ops, preflight_ops,
}
use stripe_payment_service.Middleware.Throttle.{throttle, limited}

module _ {L : Type 0} (net : Net) where
  wrapped :
      (x : Exchange L) (o : Option Recorder)
      → RecordsIn net x.sent o
      → RecordsIn net x.sent (some (or_fresh o))
  wrapped x none h = absurd h
  wrapped x (some r) h = h

  pub throttle-Keeps :
      (lib : Limiters L) (c : RateLimitConfig) (path client : String) (s : Serve L)
      → Keeps net s
      → Keeps net (throttle net lib c path client s)
  unfolding throttle
  throttle-Keeps lib c path client s keep ctx x f =
      after (allow lib c client x.world.clock x.buckets).0
        (record x { buckets = (allow lib c client x.world.clock x.buckets).1 }) f
    where
      after :
          (v : Bool × Duration) (y : Exchange L)
          → IsFaithful net y
          → IsFaithful net (limited net lib c path s client ctx v y).1
      after (true, delay) y g = keep ctx y g
      after (false, delay) y g =
          apply_all-IsFaithful net (json_error 429 "too many requests, please slow down") _ g

module _ {L : Type 0} (net : Net) (r : Incoming) where
  observed-IsFaithful :
      (start : ℕ) (e : Exit) (x : Exchange L)
      → IsFaithful net x
      → IsFaithful net (observed net r start (e, x)).1
  observed-IsFaithful start returned x f = f
  observed-IsFaithful start (panicked p) x f = f

  pub metrics-Keeps : (s : Serve L) → Keeps net s → Keeps net (metrics net r s)
  unfolding metrics
  metrics-Keeps s keep c x f =
      let inner = s c (wrap_writer (record x { in_flight = x.in_flight + 1 })) in
      observed-IsFaithful x.world.clock inner.0 inner.1 (keep c _ (wrapped net x x.recorder f))

  recovering-IsFaithful :
      (what : String) (c : Context) (o : Option Ending) (x : Exchange L)
      → IsFaithful net x
      → IsFaithful net (recovering net r what c o x)
  recovering-IsFaithful what c (some canceled) x f = f
  recovering-IsFaithful what c (some deadline_exceeded) x f =
      apply_all-IsFaithful net (json_error 500 "internal server error") _ f
  recovering-IsFaithful what c none x f =
      apply_all-IsFaithful net (json_error 500 "internal server error") _ f

  recovered-IsFaithful :
      (c : Context) (e : Exit) (x : Exchange L)
      → IsFaithful net x
      → IsFaithful net (recovered net r c (e, x)).1
  recovered-IsFaithful c returned x f = f
  recovered-IsFaithful c (panicked abort_handler) x f = f
  recovered-IsFaithful c (panicked (fault what)) x f =
      recovering-IsFaithful what c (c.ending x.world.clock) x f

  pub recoverer-Keeps : (s : Serve L) → Keeps net s → Keeps net (recoverer net r s)
  unfolding recoverer
  recoverer-Keeps s keep c x f = recovered-IsFaithful c (s c x).0 (s c x).1 (keep c x f)

  timing_out-IsFaithful :
      (d : Duration) (c : Context) (o : Option Ending) (x : Exchange L)
      → IsFaithful net x
      → IsFaithful net (timing_out net r d c o x)
  timing_out-IsFaithful d c none x f = f
  timing_out-IsFaithful d c (some canceled) x f = f
  timing_out-IsFaithful d c (some deadline_exceeded) x f =
      elim (Bool-cases (or_fresh x.recorder).wrote_header) [
        | inl begun ↦ rw begun f
        | inr silent ↦ rw silent (apply_all-IsFaithful net (json_error 503 "request timed out") _ f)
      ]

  timed-IsFaithful :
      (d : Duration) (c : Context) (e : Exit) (x : Exchange L)
      → IsFaithful net x
      → IsFaithful net (timed net r d c (e, x)).1
  timed-IsFaithful d c returned x f = timing_out-IsFaithful d c (c.ending x.world.clock) x f
  timed-IsFaithful d c (panicked p) x f = f

  pub timeout-Keeps : (d : Duration) (s : Serve L) → Keeps net s → Keeps net (timeout net r d s)
  unfolding timeout
  timeout-Keeps d s keep c x f =
      let c' = with_timeout x.world.clock d c in
      timed-IsFaithful d c' (s c' (wrap_writer x)).0 (s c' (wrap_writer x)).1
        (keep c' _ (wrapped net x x.recorder f))

  pub cors-Keeps :
      (origins : List String) (age : Duration) (s : Serve L)
      → Keeps net s
      → Keeps net (cors net r origins age s)
  unfolding cors
  cors-Keeps origins age s keep c x f =
      let origin = r.request.header "Origin" in
      let marked = apply_all-IsFaithful net (origin_ops origin) x f in
      elim (Bool-cases (is_allowed (allowed_origins origins) origin)) [
        | inr foreign ↦ rw foreign (keep c x f)
        | inl known ↦ elim (Bool-cases (r.method == "OPTIONS")) [
          | inl preflight ↦
              rw (known, preflight)
                (apply_all-IsFaithful net
                  (preflight_ops net (or_default age (10 * minute) / second)) _ marked)
          | inr plain ↦ rw (known, plain) (keep c _ marked)
        ]
      ]
