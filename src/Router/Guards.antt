-- ===== src/Router/Guards.antt =====
-- internal/handler/router.go: the endpoints that want a bearer token, without one.
use stripe_payment_service.Prelude.{
  ℕ, ◌+◌, ◌-◌, ◌&&◌, String, Bool, true, false, ◌≡◌, refl, ap, ◌∙◌, Text, bytes, ◌⊎◌, inl, inr,
  Option, none, some, List, [], ◌∷◌, ◌==◌, Bool-cases, if◌then◌else◌,
}
use stripe_payment_service.Domain.Errors.{err, Failure}
use stripe_payment_service.Domain.Subscription.{Uuid}
use stripe_payment_service.Domain.Time.{Time, Duration}
use stripe_payment_service.Logger.{level_warn}
use stripe_payment_service.Auth.Service.{AuthService}
use stripe_payment_service.Auth.Token.{parse}
use stripe_payment_service.Http.{Response, Request}
use stripe_payment_service.Http.Auth.{bearer_token, require_auth, unauthorized}
use stripe_payment_service.Http.Cors.{is_allowed, allowed_origins}
use stripe_payment_service.Run.{World, Run, pure, ◌>>=◌}
use stripe_payment_service.Middleware.{
  Exchange, Context, Ending, canceled, deadline_exceeded, Exit, returned, panicked, Serve, Recorder,
  Sent, head, chunk, access, client_ip, play, respond, apply, apply_all, write, write_header,
  write_header_on, wrap_writer,
}
use stripe_payment_service.Middleware.RequestId.{Ids, is_replaced, request_id, request_id_of}
use stripe_payment_service.Middleware.Chain.{
  Incoming, access_log, access_level, metrics, recoverer, timeout, timed, timing_out, recovered,
  observed, logged_access, cors, origin_ops,
}
use stripe_payment_service.Router.{
  Wiring, Handlers, RouterConfig, Endpoint, Match, Protected, me, checkout, portal, subscription,
  protected, matched, routes, when, serve_endpoint, serve_protected, has_origins, chain, serve,
}

-- The requests that nobody may make without a token.
abbrev pub IsPrivate : (method path : String) → Type 0
IsPrivate method path =
    ((method ≡ "GET") × (path ≡ "/api/v1/auth/me"))
    ⊎ (((method ≡ "POST") × (path ≡ "/api/v1/checkout"))
        ⊎ (((method ≡ "POST") × (path ≡ "/api/v1/portal"))
            ⊎ ((method ≡ "GET") × (path ≡ "/api/v1/subscription"))))

-- The first row of a table with a method and a path.
abbrev pub exact : (method path : String) → List (String × String × Endpoint) → Option Endpoint
exact method path [] = none
exact method path ((m, p, endpoint) ∷ rows) =
    let rest = exact method path rows in if m == method && p == path then some endpoint else rest

-- chi serves a path that is spelled as a pattern by the endpoint of that pattern.
abbrev pub FindsExact :
    (List (String × String × Endpoint) → (method path : String) → Match) → Type 0
FindsExact find =
    (method path : String) (endpoint : Endpoint)
    → exact method path routes ≡ some endpoint
    → find routes method path ≡ matched endpoint

IsPrivate-protected :
    (method path : String)
    → IsPrivate method path
    → (p : Protected) × (exact method path routes ≡ some (protected p))
      × ((method == "OPTIONS") ≡ false)
IsPrivate-protected method path (inl (m, q)) = (me, rw (m, q) refl, rw m refl)
IsPrivate-protected method path (inr (inl (m, q))) = (checkout, rw (m, q) refl, rw m refl)
IsPrivate-protected method path (inr (inr (inl (m, q)))) = (portal, rw (m, q) refl, rw m refl)
IsPrivate-protected method path (inr (inr (inr (m, q)))) = (subscription, rw (m, q) refl, rw m refl)

-- The request has no bearer token, or one that does not verify at that instant.
abbrev pub IsStranger : AuthService → (String → String → Bool) → Request → Time → Type 0
IsStranger s equal_fold r now =
    (bearer_token equal_fold r ≡ none)
    ⊎ ((token : String) × (e : Failure) × (bearer_token equal_fold r ≡ some token)
        × (parse s.platform s.crypto s.tokens now token ≡ err e))

abbrev refusal : Option String → String
refusal none = "missing bearer token"
refusal (some token) = "invalid or expired token"

require_auth-IsStranger :
    (s : AuthService) (equal_fold : String → String → Bool) (next : Uuid → Run Response)
    (r : Request) (w : World)
    → IsStranger s equal_fold r w.clock
    → require_auth s equal_fold next r w
      ≡ pure (unauthorized (refusal (bearer_token equal_fold r))) w
unfolding require_auth ◌>>=◌
require_auth-IsStranger s equal_fold next r w (inl missing) = rw (missing, require_auth) refl
require_auth-IsStranger s equal_fold next r w (inr (token, e, found, failed)) =
    rw (found, require_auth) (rw failed refl)

-- A response 401 that names the scheme that is wanted.
abbrev pub IsChallenge : List Sent → Type 0
IsChallenge sent =
    (body : Text) × (a : String × Text) × (b : String × Text) × (rest : List (String × Text))
    × (sent
        ≡ chunk body
          ∷ head 401 (
              a
              ∷ b
              ∷ ("WWW-Authenticate", bytes "Bearer realm=\"api\", error=\"invalid_token\"")
              ∷ rest)
          ∷ [])

abbrev fresh : Option Recorder
fresh = some (record { status = 200; written = 0; wrote_header = false })

-- A refusal: the response is 401, nothing ran, and the recorder knows the response.
record IsDenied {L : Type 0} (x : Exchange L) (o : Exit × Exchange L) : Type 0 where
  exit : o.0 ≡ returned
  world : o.1.world ≡ x.world
  body : Text
  first : String × Text
  second : String × Text
  others : List (String × Text)
  sent :
      o.1.sent
      ≡ chunk body
        ∷ head 401 (
            first
            ∷ second
            ∷ ("WWW-Authenticate", bytes "Bearer realm=\"api\", error=\"invalid_token\"")
            ∷ others)
        ∷ x.sent
  bytes_taken : ℕ
  recorder :
      o.1.recorder ≡ some (record { status = 401; written = bytes_taken; wrote_header = true })
  lines : o.1.lines ≡ x.lines

Denies : {L : Type 0} → Time → Serve L → Type 0
Denies {L} now s =
    (ctx : Context) (x : Exchange L)
    → x.recorder ≡ fresh
    → x.world.clock ≡ now
    → IsDenied x (s ctx x)

clock-request_id_of :
    (ids : Ids) (given : Text) (w : World)
    → (n : ℕ) × ((request_id_of ids given w).1 ≡ record w { draws = n })
unfolding request_id_of
clock-request_id_of ids given w = elim (Bool-cases (is_replaced given)) [
  | inl bad ↦ rw bad (_, refl)
  | inr good ↦ rw good (w.draws, refl)
]

module _ {L I : Type 0} (e : Wiring L I) (c : RouterConfig) (r : Incoming) (h : Handlers) where
  answered-IsDenied :
      (message : String) (ctx : Context) (x : Exchange L)
      → x.recorder ≡ fresh
      → IsDenied x (play e.net (respond e.net (pure (unauthorized message))) ctx x)
  unfolding play respond apply_all apply write write_header write_header_on
  answered-IsDenied message ctx x new = rw new (record {
    exit = refl;
    world = refl;
    body = _;
    first = _;
    second = _;
    others = _;
    sent = refl;
    bytes_taken = _;
    recorder = refl;
    lines = refl;
  })

  IsDenied-timed :
      (d : Duration) (ctx : Context) (x : Exchange L) (o : Exit × Exchange L)
      → IsDenied x o
      → IsDenied x (timed e.net r d ctx o)
  IsDenied-timed d ctx x (panicked p, y) i = absurd (cc i.exit)
  IsDenied-timed d ctx x (returned, y) i = rw (late (ctx.ending y.world.clock)) i
    where
      late : (ending : Option Ending) → timing_out e.net r d ctx ending y ≡ y
      late none = refl
      late (some canceled) = refl
      late (some deadline_exceeded) = rw i.recorder refl

  protected-IsDenied :
      (p : Protected) (ctx : Context) (x : Exchange L)
      → IsStranger e.auth e.equal_fold r.request x.world.clock
      → x.recorder ≡ fresh
      → IsDenied x (serve_protected e h c r p ctx x)
  unfolding play respond
  protected-IsDenied p ctx x stranger new =
      rw
        (require_auth-IsStranger e.auth e.equal_fold (λ user. h.owned p user r.request) r.request
          x.world stranger)
        (answered-IsDenied (refusal (bearer_token e.equal_fold r.request)) ctx x new)

  endpoint-Denies :
      (now : Time) (p : Protected)
      → IsStranger e.auth e.equal_fold r.request now
      → Denies now (serve_endpoint e h c r (protected p))
  unfolding Denies serve_endpoint timeout
  endpoint-Denies now p stranger ctx x new at =
      let i =
        IsDenied-timed c.api_timeout _ (wrap_writer x) _
          (protected-IsDenied p _ (wrap_writer x) (rw at stranger) (rw new refl)) in
      record {
        exit = i.exit;
        world = i.world;
        body = i.body;
        first = i.first;
        second = i.second;
        others = i.others;
        sent = i.sent;
        bytes_taken = i.bytes_taken;
        recorder = i.recorder;
        lines = i.lines;
      }

  when-cors-Denies :
      (now : Time) (b : Bool) (s : Serve L)
      → (r.method == "OPTIONS") ≡ false
      → Denies now s
      → Denies now (when e h c r b (cors e.net r c.cors_origins c.cors_max_age) s)
  unfolding Denies cors apply_all apply
  when-cors-Denies now false s plain deny ctx x new at = deny ctx x new at
  when-cors-Denies now true s plain deny ctx x new at =
      elim (Bool-cases (is_allowed (allowed_origins c.cors_origins) (r.request.header "Origin"))) [
        | inr foreign ↦ rw foreign (deny ctx x new at)
        | inl known ↦
            let i = deny ctx (apply_all e.net (origin_ops (r.request.header "Origin")) x) new at in
            rw (known, plain)
              (record {
                exit = i.exit;
                world = i.world;
                body = i.body;
                first = i.first;
                second = i.second;
                others = i.others;
                sent = i.sent;
                bytes_taken = i.bytes_taken;
                recorder = i.recorder;
                lines = i.lines;
              })
      ]

  recoverer-Denies : (now : Time) (s : Serve L) → Denies now s → Denies now (recoverer e.net r s)
  unfolding Denies recoverer
  recoverer-Denies now s deny ctx x new at = passed _ (deny ctx x new at)
    where
      passed : (o : Exit × Exchange L) → IsDenied x o → IsDenied x (recovered e.net r ctx o)
      passed (returned, y) i = i
      passed (panicked p, y) i = absurd (cc i.exit)

  when-metrics-Denies :
      (now : Time) (b : Bool) (s : Serve L)
      → Denies now s
      → Denies now (when e h c r b (metrics e.net r) s)
  unfolding Denies metrics
  when-metrics-Denies now false s deny ctx x new at = deny ctx x new at
  when-metrics-Denies now true s deny ctx x new at =
      passed _ (deny ctx (wrap_writer (record x { in_flight = x.in_flight + 1 })) (rw new refl) at)
    where
      passed :
          (o : Exit × Exchange L)
          → IsDenied (wrap_writer (record x { in_flight = x.in_flight + 1 })) o
          → IsDenied x (observed e.net r x.world.clock o)
      passed (returned, y) i = record {
        exit = i.exit;
        world = i.world;
        body = i.body;
        first = i.first;
        second = i.second;
        others = i.others;
        sent = i.sent;
        bytes_taken = i.bytes_taken;
        recorder = i.recorder;
        lines = i.lines;
      }
      passed (panicked p, y) i = absurd (cc i.exit)

  -- The caller gets 401 with a challenge, no table has changed, and the access line says so.
  abbrev pub IsTurnedAway : Exchange L → Exit × Exchange L → Type 0
  IsTurnedAway x o =
      (o.0 ≡ returned)
      × IsChallenge o.1.sent
      × ((draws : ℕ) × (o.1.world ≡ record x.world { draws = draws }))
      × ((id : Text) × (n : ℕ) × (elapsed : Duration) × (o.1.lines
            ≡ access level_warn id r.method r.path 401 n elapsed (client_ip e.net r.remote_addr)
              ∷ x.lines))

  logged-IsTurnedAway :
      (ctx : Context) (x : Exchange L) (o : Exit × Exchange L)
      → x.sent ≡ []
      → IsDenied (wrap_writer x) o
      → IsTurnedAway x (logged_access e.net r x.world.clock ctx o)
  unfolding access_level
  logged-IsTurnedAway ctx x (panicked p, y) silent i = absurd (cc i.exit)
  logged-IsTurnedAway ctx x (returned, y) silent i = (
    refl,
    (i.body, i.first, i.second, i.others, rw (i.sent, silent) refl),
    (x.world.draws, i.world),
    (ctx.request_id, i.bytes_taken, y.world.clock - x.world.clock, rw (i.recorder, i.lines) refl),
  )

  access_log-IsTurnedAway :
      (now : Time) (s : Serve L) (ctx : Context) (x : Exchange L)
      → Denies now s
      → x.sent ≡ []
      → x.recorder ≡ none
      → x.world.clock ≡ now
      → IsTurnedAway x (access_log e.net r s ctx x)
  unfolding Denies access_log
  access_log-IsTurnedAway now s ctx x deny silent bare at =
      let wrapped : (wrap_writer x).recorder ≡ fresh = rw bare refl in
      logged-IsTurnedAway ctx x (s ctx (wrap_writer x)) silent (deny ctx (wrap_writer x) wrapped at)

  -- Nobody gets past RequireAuth without a token that verifies. Where chi serves a path that is spelled as
  -- a pattern by the endpoint of that pattern, a request for the identity, a checkout, the portal or the
  -- subscription that has no bearer token, or one that does not verify at that instant, is answered with
  -- 401 and the challenge in WWW-Authenticate; nothing of the world has changed but the number of random
  -- values drawn for the request's id; and the access line has status 401. This holds for any handlers,
  -- in any chain that the configuration selects, where nothing was sent before.
  pub serve-IsTurnedAway :
      (ctx : Context) (x : Exchange L)
      → FindsExact e.find
      → IsPrivate r.method r.path
      → IsStranger e.auth e.equal_fold r.request x.world.clock
      → x.sent ≡ []
      → x.recorder ≡ none
      → IsTurnedAway x (serve e h c r ctx x)
  unfolding serve chain request_id
  serve-IsTurnedAway ctx x finds private stranger silent bare =
      let (p, row, plain) = IsPrivate-protected r.method r.path private in
      let deny = when-metrics-Denies x.world.clock c.has_metrics _ (
        recoverer-Denies x.world.clock _ (
          when-cors-Denies x.world.clock (has_origins e h c r c.cors_origins) _ plain
            (endpoint-Denies x.world.clock p stranger))) in
      let (n, drawn) =
        clock-request_id_of e.ids (bytes (r.request.header "X-Request-Id")) x.world in
      rw (finds r.method r.path (protected p) row) (
        let (exit, challenge, (d, same), line) =
          access_log-IsTurnedAway x.world.clock _ _ _ deny silent bare (ap (λ w. w.clock) drawn) in
        (
          exit,
          challenge,
          (d, same ∙ ap {A = World} {B = World} (λ w. record w { draws = d }) drawn),
          line,
        ))
