-- ===== src/Router/Tests.antt =====
-- The theorems on the router, applied to a request for the caller's subscription without a token, and to a
-- delivery whose handler panics.
use stripe_payment_service.Prelude.{
  ℕ, String, ◌≡◌, refl, true, inl, inr, Option, none, some, [], ◌∷◌, ◌++◌, ◌==◌, Text, bytes,
  length, keep, arith,
}
use stripe_payment_service.Domain.Errors.{ok}
use stripe_payment_service.Http.{write_error}
use stripe_payment_service.Http.Auth.{bearer_token}
use stripe_payment_service.RateLimit.{Limiters}
use stripe_payment_service.Webhook.Tests.{world}
use stripe_payment_service.Auth.Tests.{service}
use stripe_payment_service.Middleware.{
  Exchange, Context, Net, panicked, fault, quote_json, set_field, Handler,
}
use stripe_payment_service.Middleware.Chain.{Incoming}
use stripe_payment_service.Middleware.Quoting.{read_json, read_json-quote_json, is_kept}
use stripe_payment_service.Middleware.RequestId.{Ids, request_id_of, new_request_id}
use stripe_payment_service.Middleware.Tracing.{IsTraceable, AreSound, request_id_of-IsTraceable}
use stripe_payment_service.Middleware.Throttle.{Addresses}
use stripe_payment_service.Router.{
  Wiring, Handlers, RouterConfig, Endpoint, Match, matched, no_route, serve,
}
use stripe_payment_service.Router.Recorded.{IsAccounted, serve-IsAccounted}
use stripe_payment_service.Router.Guards.{exact, IsTurnedAway, serve-IsTurnedAway}

read_json-quote_json_example :
    read_json (quote_json (bytes "a \"b\"\n") ++ bytes "}")
    ≡ some (keep is_kept (bytes "a \"b\"\n"), bytes "}")
read_json-quote_json_example = read_json-quote_json (bytes "a \"b\"\n") (bytes "}")

abbrev zeros : Text
zeros = 0 ∷ 0 ∷ 0 ∷ 0 ∷ 0 ∷ 0 ∷ 0 ∷ 0 ∷ 0 ∷ 0 ∷ 0 ∷ 0 ∷ 0 ∷ 0 ∷ 0 ∷ 0 ∷ []

abbrev stamp : Text
stamp = b't' ∷ b's' ∷ b'-' ∷ b'1' ∷ []

abbrev ids : Ids
ids = record { random = λ n. some zeros; timestamp = λ t. stamp }

sound : AreSound ids
sound = record {
  filled = λ n b e. rw (← zeros_of b e) (refl, omega arith);
  stamped = λ t. record { printable = refl; lower = omega arith; upper = omega arith };
}
  where
    zeros_of : (b : Text) → some zeros ≡ some b → zeros ≡ b
    zeros_of b e = cc

-- A line end in the header would start a new line of a log.
abbrev forged : Text
forged = b'a' ∷ b'\n' ∷ b'b' ∷ []

request_id_of-IsTraceable_example :
    IsTraceable (request_id_of ids forged world).0
    × (IsTraceable forged → request_id_of ids forged world ≡ (forged, world))
    × (¬ IsTraceable forged → (request_id_of ids forged world).0 ≡ new_request_id ids world)
request_id_of-IsTraceable_example = request_id_of-IsTraceable ids forged world sound

abbrev net : Net
net = record {
  taken = λ sent b. length b;
  encode = λ body. bytes "{}";
  cookie_text = λ k. bytes "sps_refresh=";
  decimal = λ n. bytes "1";
  split_host = λ remote. some remote;
}

abbrev limiters : Limiters ℕ
limiters = record {
  fresh = 5;
  reserve = λ now n. (some 0, n);
  cancel = λ now n. n;
  retry_after = 5;
}

abbrev addresses : Addresses ℕ
addresses = record {
  parse_ip = λ s. none;
  to4 = λ i. none;
  mask64 = λ i. i;
  show = λ i. "";
  as_string = λ t. "";
}

abbrev found : Option Endpoint → Match
found none = no_route
found (some endpoint) = matched endpoint

abbrev wiring : Wiring ℕ ℕ
wiring = record {
  net = net;
  ids = ids;
  limiters = limiters;
  addresses = addresses;
  equal_fold = λ a b. a == b;
  auth = service;
  find = λ rows method path. found (exact method path rows);
}

abbrev config : RouterConfig
config = record {
  api_timeout = 10;
  cors_origins = "https://app.example.com" ∷ [];
  cors_max_age = 0;
  auth_rate_limit = none;
  trusted_proxies = 0;
  has_metrics = true;
  webhook_timeout = 25;
}

-- Every handler panics after it has prepared a header.
abbrev panicking : Handler
panicking c w = ((set_field "X-Trace" stamp ∷ [], panicked (fault "nil pointer")), w)

abbrev handlers : Handlers
handlers = record {
  probe = λ alive. panicking;
  deliver = λ r. panicking;
  anyone = λ p r. panicking;
  owned = λ p user r w. (ok (write_error 500 "unreachable"), w);
}

abbrev request_of : (method path : String) → Incoming
request_of method path = record {
  request = record { header = λ name. ""; cookie = λ name. none; read_body = λ limit. inr "{}" };
  method = method;
  path = path;
  remote_addr = stamp;
  forwarded = [];
  pattern = path;
}

abbrev context : Context
context = record { request_id = []; ending = λ t. none }

abbrev begun : Exchange ℕ
begun = record {
  world = world;
  headers = [];
  sent = [];
  recorder = none;
  lines = [];
  in_flight = 0;
  requests = [];
  buckets = [];
}

serve-IsAccounted_example :
    IsAccounted net
      (request_of "POST" "/webhook")
      (serve wiring handlers config (request_of "POST" "/webhook") context begun)
serve-IsAccounted_example =
    serve-IsAccounted wiring handlers config (request_of "POST" "/webhook") context begun refl refl

serve-IsTurnedAway_example :
    IsTurnedAway wiring config
      (request_of "GET" "/api/v1/subscription")
      handlers
      begun
      (serve wiring handlers config (request_of "GET" "/api/v1/subscription") context begun)
unfolding bearer_token
serve-IsTurnedAway_example =
    serve-IsTurnedAway wiring config (request_of "GET" "/api/v1/subscription") handlers context
      begun (λ method path endpoint row. rw row refl) (inr (inr (inr (refl, refl)))) (inl refl) refl
      refl
