-- ===== src/Middleware.antt =====
-- internal/handler/middleware: the exchange of one request, the writer that records its status
-- (recorder.go), and the errors that the middleware itself writes (timeout.go). The middlewares are in
-- Chain.
--
-- A handler is what it does to its writer: the calls that it makes, in order, and how it ends. It
-- reads nothing back from the writer.
pub mod RequestId
pub mod Throttle
pub mod Chain
pub mod Quoting
pub mod Tracing
pub mod Recording
pub mod Faithful
use stripe_payment_service.Prelude.{
  ℕ, suc, ◌+◌, String, Bool, true, false, not, ◌||◌, Option, none, some, List, [], ◌∷◌, ◌++◌, ◌==◌,
  Text, bytes, keep, map, nat_eq, ltb, if◌then◌else◌,
}
use stripe_payment_service.Domain.Errors.{Result, ok, err}
use stripe_payment_service.Domain.Time.{Time, Duration}
use stripe_payment_service.Logger.{Level}
use stripe_payment_service.RateLimit.{Bucket}
use stripe_payment_service.Http.{Response, Request, Body, no_body, Cookie}
use stripe_payment_service.Run.{World, Run}

-- Err of a context: its caller is gone, or its deadline is over.
pub data Ending : Type 0 where
  canceled deadline_exceeded : Ending

-- The context of a request: its id, blank where it has none, and how it has ended by an instant.
pub record Context : Type 0 where
  pub request_id : Text
  pub ending : Time → Option Ending

abbrev or_exceeded : Option Ending → Option Ending
or_exceeded none = some deadline_exceeded
or_exceeded (some e) = some e

-- context.WithTimeout: the deadline ends a context that has not ended before it.
abbrev pub with_timeout : Time → Duration → Context → Context
with_timeout now d c = record c {
  ending = λ t. if ltb t (now + d) then c.ending t else or_exceeded (c.ending (now + d));
}

-- The headers of a response, with http.Header's Set and Add.
abbrev pub Headers : Type 0
Headers = List (String × Text)

abbrev pub set_header : String → Text → Headers → Headers
set_header name value h = (name, value) ∷ keep (λ f. not (f.0 == name)) h

abbrev pub add_header : String → Text → Headers → Headers
add_header name value h = h ++ (name, value) ∷ []

-- The calls that reach the writer of net/http: WriteHeader with a code and the headers of that moment, and
-- Write. What net/http makes of a code that is informational or invalid is its own; no code of the service
-- passes such a one.
pub data Sent : Type 0 where
  head : (status : ℕ) → Headers → Sent
  chunk : Text → Sent

-- responseRecorder, without the writer that it wraps
pub record Recorder : Type 0 where
  pub status : ℕ
  pub written : ℕ
  pub wrote_header : Bool

-- A record of the log: the line of AccessLog, a panic, an exceeded deadline, a refusal of the limiter.
pub data Line : Type 0 where
  access :
      Level
      → (request_id : Text) → (method path : String) → (status written : ℕ) → Duration
      → (client : Text) → Line
  panicked_line : (request_id : Text) → (what method path : String) → Line
  exceeded_line : (request_id : Text) → (method path : String) → Duration → Line
  limited_line : (request_id : Text) → (client path : String) → (seconds : ℕ) → Line

-- ObserveRequest
pub record RequestMetric : Type 0 where
  pub method : String
  pub route : String
  pub status : ℕ
  pub elapsed : Duration
  pub written : ℕ

-- The state while a request is served: that of the service; the response, what was sent newest first;
-- the recorder, once a middleware has wrapped the writer; the log, the newest line first; the gauge and the
-- observations of the metrics; and the buckets of the rate limiter.
pub record Exchange (L : Type 0) : Type 0 where
  pub world : World
  pub headers : Headers
  pub sent : List Sent
  pub recorder : Option Recorder
  pub lines : List Line
  pub in_flight : ℕ
  pub requests : List RequestMetric
  pub buckets : List (Bucket L)

-- A panic with http.ErrAbortHandler, or with anything else.
pub data Panic : Type 0 where
  abort_handler : Panic
  fault : String → Panic

pub data Exit : Type 0 where
  returned : Exit
  panicked : Panic → Exit

-- How many bytes of a part the connection takes, after what was sent; the encoding of a body, with the line end that
-- follows it; the text of a cookie; and of a number; and the host of net.SplitHostPort.
pub record Net : Type 0 where
  pub taken : List Sent → Text → ℕ
  pub encode : Body → Text
  pub cookie_text : Cookie → Text
  pub decimal : ℕ → Text
  pub split_host : Text → Option Text

-- ClientIP, of internal/handler/middleware/logger.go
abbrev pub client_ip : Net → Text → Text
client_ip net remote = elim (net.split_host remote) [ none ↦ remote | some host ↦ host ]

-- The calls that a handler makes on its writer.
pub data Op : Type 0 where
  set_field add_field : String → Text → Op
  send_status : ℕ → Op
  send : Text → Op

abbrev pub Handler : Type 0
Handler = Context → World → (List Op × Exit) × World

abbrev fresh_recorder : Recorder
fresh_recorder = record { status = 200; written = 0; wrote_header = false }

abbrev pub or_fresh : Option Recorder → Recorder
or_fresh none = fresh_recorder
or_fresh (some r) = r

abbrev counted : ℕ → Option Recorder → Option Recorder
counted n none = none
counted n (some r) = some (record r { written = r.written + n })

abbrev pub Serve : Type 0 → Type 0
Serve L = Context → Exchange L → Exit × Exchange L

module _ {L : Type 0} where
  -- wrapWriter
  abbrev pub wrap_writer : Exchange L → Exchange L
  wrap_writer x = record x { recorder = some (or_fresh x.recorder) }

  abbrev pub set : String → Text → Exchange L → Exchange L
  set name value x = record x { headers = set_header name value x.headers }

  abbrev pub add : String → Text → Exchange L → Exchange L
  add name value x = record x { headers = add_header name value x.headers }

  abbrev pub log : Line → Exchange L → Exchange L
  log l x = record x { lines = l ∷ x.lines }

  abbrev sending : Sent → Exchange L → Exchange L
  sending s x = record x { sent = s ∷ x.sent }

  -- (*responseRecorder).WriteHeader; a writer that is not wrapped hands every call on.
  unfoldable pub write_header_on : Option Recorder → ℕ → Exchange L → Exchange L
  write_header_on none code x = sending (head code x.headers) x
  write_header_on (some r) code x =
      if r.wrote_header then x else record (sending (head code x.headers) x) {
        recorder = some (record r { status = code; wrote_header = true });
      }

  unfoldable pub write_header : ℕ → Exchange L → Exchange L
  unfolding write_header_on
  write_header code x = write_header_on x.recorder code x

  -- Write of the writer behind, with the bytes that it reports.
  abbrev write_on : Net → Text → Exchange L → Exchange L
  write_on net b x = record (sending (chunk b) x) {
    recorder = counted (net.taken x.sent b) x.recorder;
  }

  abbrev opened_writer : Option Recorder → Exchange L → Exchange L
  opened_writer none x = x
  opened_writer (some r) x = if r.wrote_header then x else write_header 200 x

  -- (*responseRecorder).Write
  unfoldable pub write : Net → Text → Exchange L → Exchange L
  unfolding write_header write_header_on
  write net b x = write_on net b (opened_writer x.recorder x)

  unfoldable pub apply : Net → Op → Exchange L → Exchange L
  unfolding write write_header write_header_on
  apply net (set_field name value) x = set name value x
  apply net (add_field name value) x = add name value x
  apply net (send_status code) x = write_header code x
  apply net (send b) x = write net b x

  unfoldable pub apply_all : Net → List Op → Exchange L → Exchange L
  unfolding apply
  apply_all net [] x = x
  apply_all net (o ∷ os) x = apply_all net os (apply net o x)

  -- A handler at the end of the chain.
  unfoldable pub play : Net → Handler → Serve L
  unfolding apply_all
  play net h c x =
      let ((ops, exit), w) = h c x.world in (exit, apply_all net ops (record x { world = w }))

-- quoteJSON: the bytes of one byte of the message.
abbrev pub escape_byte : ℕ → Text
escape_byte c =
    if nat_eq c b'"' || nat_eq c b'\\'
    then b'\\' ∷ c ∷ []
    else if nat_eq c b'\n'
    then b'\\' ∷ b'n' ∷ []
    else if nat_eq c b'\r'
    then b'\\' ∷ b'r' ∷ []
    else if nat_eq c b'\t'
    then b'\\' ∷ b't' ∷ []
    else if ltb c 0x20
    then []
    else c ∷ []

abbrev pub escape : Text → Text
escape [] = []
escape (c ∷ s) = escape_byte c ++ escape s

unfoldable pub quote_json : Text → Text
quote_json s = b'"' ∷ (escape s ++ b'"' ∷ [])

-- writeJSONError, as the calls on a writer
unfoldable pub json_error : ℕ → String → List Op
unfolding quote_json
json_error status message =
    set_field "Content-Type" (bytes "application/json; charset=utf-8")
    ∷ set_field "Cache-Control" (bytes "no-store")
    ∷ send_status status
    ∷ send (bytes "{\"error\":" ++ (quote_json (bytes message) ++ bytes "}"))
    ∷ []

-- writeJSON of internal/handler/response.go, or the bare status of a response without a body, after
-- the cookies.
abbrev answer_ops : Net → ℕ → Body → List Op
answer_ops net status no_body = send_status status ∷ []
answer_ops net status b =
    set_field "Content-Type" (bytes "application/json; charset=utf-8")
    ∷ set_field "Cache-Control" (bytes "no-store")
    ∷ send_status status
    ∷ send (net.encode b)
    ∷ []

abbrev challenge_ops : Option String → List Op
challenge_ops none = []
challenge_ops (some text) = set_field "WWW-Authenticate" (bytes text) ∷ []

abbrev response_ops : Net → Response → List Op
response_ops net a =
    map (λ k. add_field "Set-Cookie" (net.cookie_text k)) a.cookies
    ++ (challenge_ops a.challenge ++ answer_ops net a.status a.body)

abbrev of_result : Net → Result Response → List Op
of_result net (ok a) = response_ops net a
of_result net (err e) = []

-- A handler of internal/handler: it answers with a response and does not panic.
unfoldable pub respond : Net → Run Response → Handler
respond net m c w = let (r, v) = m w in ((of_result net r, returned), v)
