-- ===== src/RateLimit.antt =====
-- internal/handler/middleware/ratelimit.go: the map of buckets, and the choice of the client's
-- address. Header values are lists of bytes.
pub mod Bounds
pub mod Address
pub mod Tests
use stripe_payment_service.Prelude.{
  ℕ, zero, suc, ◌+◌, ◌-◌, ◌*◌, String, Bool, true, false, not, ◌&&◌, ◌||◌, Option, none, some, List,
  [], ◌∷◌, ◌++◌, ◌==◌, ltb, leb, nat_eq, length, get_elem?, keep, Text, or_default, if◌then◌else◌,
}
use stripe_payment_service.Prelude.Table
use stripe_payment_service.Domain.Time.{Time, Duration, second, minute}

-- golang.org/x/time/rate: a limiter with the configured rate and burst, ReserveN(now, 1) with its
-- OK and DelayFrom (none where it is not OK), and CancelAt. `retry_after` is the interval of the rate.
pub record Limiters (L : Type 0) : Type 0 where
  pub fresh : L
  pub reserve : Time → L → Option Duration × L
  pub cancel : Time → L → L
  pub retry_after : Duration

pub record Bucket (L : Type 0) : Type 0 where
  pub client : String
  pub limiter : L
  pub last_seen : Time

-- The rest of the configuration. Values that are not positive in the code are 0 here.
pub record RateLimitConfig : Type 0 where
  pub ttl : Duration
  pub max_entries : ℕ

-- withDefaults, for these fields
unfoldable pub with_defaults : RateLimitConfig → RateLimitConfig
with_defaults c = record {
  ttl = or_default c.ttl (15 * minute);
  max_entries = or_default c.max_entries 50_000;
}

module _ {L : Type 0} (lib : Limiters L) where
  abbrev pub Buckets : Type 0
  Buckets = List (Bucket L)

  abbrev pub client_key : Bucket L → String
  client_key b = b.client

  -- prune
  unfoldable pub prune : RateLimitConfig → Time → Buckets → Buckets
  prune c now t = keep (λ b. leb now (b.last_seen + c.ttl)) t

  -- The verdict on a reservation, and the limiter after it: a delay cancels the reservation.
  abbrev pub verdict : Time → Option Duration × L → (Bool × Duration) × L
  verdict now (none, l) = ((false, lib.retry_after), l)
  verdict now (some zero, l) = ((true, 0), l)
  verdict now (some (suc delay), l) = ((false, suc delay), lib.cancel now l)

  abbrev pub touched : Time → L → Bucket L → Bucket L
  touched now l b = record b { limiter = l; last_seen = now }

  -- The limiter of the client, a new one where there is none.
  abbrev pub limiter_of : Option (Bucket L) → L
  limiter_of none = lib.fresh
  limiter_of (some b) = b.limiter

  -- The map in which the client has a bucket: at capacity, all others are dropped.
  unfoldable pub admit : RateLimitConfig → String → Time → Buckets → Buckets
  admit c client now t = elim (Table.lookup client_key client t) [
    | some b ↦ t
    | none ↦
        let new : Bucket L = record { client = client; limiter = lib.fresh; last_seen = now } in
        if leb c.max_entries (length t) then new ∷ [] else Table.insert client_key new t
  ]

  -- allow
  unfoldable pub allow : RateLimitConfig → String → Time → Buckets → (Bool × Duration) × Buckets
  allow c client now t =
      let limiter = limiter_of (Table.lookup client_key client t) in
      let (answer, l) = verdict now (lib.reserve now limiter) in
      (answer, Table.update client_key client (touched now l) (admit c client now t))

-- trimSpace: blanks and tabs only
abbrev is_blank : ℕ → Bool
is_blank b = nat_eq b 0x20 || nat_eq b 9

abbrev trim_left : Text → Text
trim_left [] = []
trim_left (b ∷ s) = let rest = trim_left s in if is_blank b then rest else b ∷ s

abbrev trim_right : Text → Text
trim_right [] = []
trim_right (b ∷ s) = elim (trim_right s) [
  | [] ↦ if is_blank b then [] else b ∷ []
  | c ∷ t ↦ b ∷ c ∷ t
]

abbrev add_part : Text → List Text → List Text
add_part part parts = elim (trim_right (trim_left part)) [ [] ↦ parts | b ∷ s ↦ (b ∷ s) ∷ parts ]

-- The part that a header begins with, and the parts after its first comma.
abbrev split : Text → Text × List Text
split [] = ([], [])
split (b ∷ s) =
    let (part, parts) = split s in
    if nat_eq b b',' then ([], add_part part parts) else (b ∷ part, parts)

-- splitAndTrim
unfoldable pub split_and_trim : Text → List Text
split_and_trim header = let (part, parts) = split header in add_part part parts

-- The parts of all X-Forwarded-For headers, in order.
unfoldable pub forwarded_hops : List Text → List Text
forwarded_hops [] = []
forwarded_hops (header ∷ headers) = split_and_trim header ++ forwarded_hops headers

abbrev pub or_direct : Text → Option Text → Text
or_direct direct none = direct
or_direct direct (some hop) = hop

-- clientAddr, of the peer's address and the headers. An index below zero falls back to the peer.
unfoldable pub client_addr : ℕ → Text → List Text → Text
client_addr trusted direct forwarded =
    let hops = forwarded_hops forwarded ++ direct ∷ [] in
    if nat_eq trusted 0
    then direct
    else if ltb (length hops) (1 + trusted)
    then direct
    else or_direct direct (get_elem? hops (length hops - 1 - trusted))
