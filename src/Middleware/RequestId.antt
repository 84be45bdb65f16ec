-- ===== src/Middleware/RequestId.antt =====
-- internal/handler/middleware/requestid.go: the id under which a request is logged and answered.
use stripe_payment_service.Prelude.{
  ℕ, suc, ◌+◌, ◌-◌, ◌/◌, ◌%◌, Bool, true, false, not, ◌||◌, Option, none, some, [], ◌∷◌, Text, ltb,
  length, if◌then◌else◌,
}
use stripe_payment_service.Domain.Time.{Time}
use stripe_payment_service.Logger.{with_request_id}
use stripe_payment_service.Run.{World}
use stripe_payment_service.Middleware.{Serve, set}

-- Sixteen random bytes, by the number of the draw, unless the source fails; and the text "ts-" with the
-- nanoseconds of an instant.
pub record Ids : Type 0 where
  pub random : ℕ → Option Text
  pub timestamp : Time → Text

-- isPrintableASCII
abbrev pub is_printable_ascii : Text → Bool
is_printable_ascii [] = true
is_printable_ascii (b ∷ s) =
    let rest = is_printable_ascii s in if ltb b 0x20 || ltb 0x7e b then false else rest

abbrev hex_digit : ℕ → ℕ
hex_digit n = if ltb n 10 then b'0' + n else b'a' + (n - 10)

-- hex.EncodeToString
abbrev pub hex : Text → Text
hex [] = []
hex (b ∷ s) = hex_digit (b / 16) ∷ hex_digit (b % 16) ∷ hex s

abbrev pub max_inbound_request_id_len : ℕ
max_inbound_request_id_len = 128

-- newRequestID
abbrev pub new_request_id : Ids → World → Text
new_request_id ids w = elim (ids.random w.draws) [ none ↦ ids.timestamp w.clock | some b ↦ hex b ]

abbrev is_blank : Text → Bool
is_blank [] = true
is_blank (b ∷ s) = false

abbrev pub is_replaced : Text → Bool
is_replaced id =
    is_blank id || ltb max_inbound_request_id_len (length id) || not (is_printable_ascii id)

-- The id of a request, and the random values that it drew.
unfoldable pub request_id_of : Ids → Text → World → Text × World
request_id_of ids id w =
    if is_replaced id then (new_request_id ids w, record w { draws = suc w.draws }) else (id, w)

-- RequestID, of the bytes of the header X-Request-Id.
unfoldable pub request_id : {L : Type 0} → Ids → Text → Serve L → Serve L
request_id ids given next c x =
    let (id, w) = request_id_of ids given x.world in
    next (record c { request_id = with_request_id id c.request_id })
      (set "X-Request-Id" id (record x { world = w }))
