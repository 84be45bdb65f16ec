-- ===== src/Router/Failures.antt =====
-- internal/handler/router.go: a handler that panics, with Recoverer inside AccessLog.
use stripe_payment_service.Prelude.{ℕ, String, true, ◌≡◌, some, List, [], ◌∷◌, Text}
use stripe_payment_service.Domain.Time.{Time, Duration}
use stripe_payment_service.Logger.{level_error}
use stripe_payment_service.Middleware.{
  Exchange, Exit, returned, access, panicked_line, head, chunk, client_ip,
}
use stripe_payment_service.Middleware.Chain.{Incoming}
use stripe_payment_service.Middleware.RequestId.{request_id}
use stripe_payment_service.Router.{Wiring, Handlers, RouterConfig}
use stripe_payment_service.Router.Crashes.{Crashes}

module _ {L I : Type 0} (e : Wiring L I) (h : Handlers) (c : RouterConfig) (r : Incoming)
    (what : String) where
  -- A crash after Recoverer: 500 was sent, recorded and logged.
  record IsRecovered (x : Exchange L) (o : Exit × Exchange L) : Type 0 where
    exit : o.0 ≡ returned
    body : Text
    headers : List (String × Text)
    sent : o.1.sent ≡ chunk body ∷ head 500 headers ∷ []
    bytes_taken : ℕ
    recorder :
        o.1.recorder ≡ some (record { status = 500; written = bytes_taken; wrote_header = true })
    request_id : Text
    lines : o.1.lines ≡ panicked_line request_id what r.method r.path ∷ x.lines

  record IsError (status : ℕ) (x y : Exchange L) : Type 0 where
    body : Text
    headers : List (String × Text)
    sent : y.sent ≡ chunk body ∷ head status headers ∷ x.sent
    bytes_taken : ℕ
    recorder :
        y.recorder ≡ some (record { status = status; written = bytes_taken; wrote_header = true })
    lines : y.lines ≡ x.lines

  -- The client got 500 with a body, and the log has the panic and then the access line, as an error.
  abbrev pub IsServerError : Exchange L → Exit × Exchange L → Type 0
  IsServerError x o =
      (o.0 ≡ returned)
      × ((body : Text) × (headers : List (String × Text)) × (o.1.sent
            ≡ chunk body ∷ head 500 headers ∷ []))
      × (id : Text) × (id' : Text) × (n : ℕ) × (elapsed : Duration) × (o.1.lines
          ≡ access level_error id r.method r.path 500 n elapsed (client_ip e.net r.remote_addr)
            ∷ panicked_line id' what r.method r.path
            ∷ x.lines)
