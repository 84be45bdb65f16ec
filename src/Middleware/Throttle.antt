-- ===== src/Middleware/Throttle.antt =====
-- internal/handler/middleware/ratelimit.go: the address that a request is counted against, and the
-- answer to one that is over the limit.
use Prim.Native.String.{◌++◌ as join}
use stripe_payment_service.Prelude.{
  ℕ, ◌+◌, ◌/◌, String, Bool, true, false, Option, none, some, List, Text, or_default,
}
use stripe_payment_service.Domain.Time.{Duration, second}
use stripe_payment_service.RateLimit.{Limiters, RateLimitConfig, allow, client_addr}
use stripe_payment_service.Middleware.{
  Context, Exchange, Serve, Exit, returned, Net, apply_all, json_error, set, log, limited_line,
  client_ip,
}

-- net.ParseIP with To4, Mask with 64 of 128 bits, and String; and a text of
-- bytes as a string.
pub record Addresses (I : Type 0) : Type 0 where
  pub parse_ip : String → Option I
  pub to4 : I → Option I
  pub mask64 : I → I
  pub show : I → String
  pub as_string : Text → String

module _ {I : Type 0} (a : Addresses I) where
  -- normaliseIP
  unfoldable pub normalise_ip : String → String
  normalise_ip addr = elim (a.parse_ip addr) [
    | none ↦ addr
    | some ip ↦ elim (a.to4 ip) [ some v4 ↦ a.show v4 | none ↦ join (a.show (a.mask64 ip)) "/64" ]
  ]

  -- ClientKeyFunc, of the peer and the values of X-Forwarded-For
  unfoldable pub client_key : Net → (trusted : ℕ) → Text → List Text → String
  client_key net trusted remote forwarded =
      normalise_ip (a.as_string (client_addr trusted (client_ip net remote) forwarded))

-- The seconds of Retry-After: rounded up, and one at least.
unfoldable pub retry_seconds : Duration → ℕ
retry_seconds d = or_default ((d + 999_999) / second) 1

module _ {L : Type 0} (net : Net) (lib : Limiters L) (c : RateLimitConfig) (path : String) where
  abbrev pub limited :
      Serve L → (client : String) → Context → (Bool × Duration) → Exchange L → Exit × Exchange L
  limited next client ctx (true, delay) x = next ctx x
  limited next client ctx (false, delay) x =
      let seconds = retry_seconds delay in
      (
        returned,
        apply_all net (json_error 429 "too many requests, please slow down") (
            log (limited_line ctx.request_id client path seconds)
              (set "Retry-After" (net.decimal seconds) x)),
      )

  -- (*RateLimiter).Middleware, for the key of the request
  unfoldable pub throttle : (client : String) → Serve L → Serve L
  throttle client next ctx x =
      let (verdict, buckets) = allow lib c client x.world.clock x.buckets in
      limited next client ctx verdict (record x { buckets = buckets })
