-- ===== src/Router/Crashes.antt =====
-- internal/handler/router.go: a handler that panics before it has answered, and the middlewares inside
-- Recoverer.
use stripe_payment_service.Prelude.{
  String, Bool, true, false, ◌≡◌, refl, ◌∙◌, inl, inr, some, List, [], ◌∷◌, ◌==◌, Bool-cases,
}
use stripe_payment_service.Domain.Time.{Duration}
use stripe_payment_service.Http.Cors.{is_allowed, allowed_origins}
use stripe_payment_service.Run.{World}
use stripe_payment_service.Middleware.{
  Exchange, Context, Exit, returned, panicked, fault, Serve, Handler, play, Op, set_field,
  add_field, send_status, send, apply, apply_all, Recorder, wrap_writer,
}
use stripe_payment_service.Middleware.Chain.{Incoming, timeout, timed, cors, origin_ops}
use stripe_payment_service.Router.{Wiring, Handlers, RouterConfig, when}

-- A handler's calls that only prepare headers.
abbrev pub SendsNothing : List Op → Type 0
SendsNothing [] = Unit
SendsNothing (set_field n v ∷ ops) = SendsNothing ops
SendsNothing (add_field n v ∷ ops) = SendsNothing ops
SendsNothing (send_status code ∷ ops) = ⊥
SendsNothing (send b ∷ ops) = ⊥

-- What a crash leaves: nothing was sent, recorded or logged.
pub record IsCrash {L : Type 0} (what : String) (x : Exchange L) (o : Exit × Exchange L)
    : Type 0 where
  pub exit : o.0 ≡ panicked (fault what)
  pub sent : o.1.sent ≡ x.sent
  pub recorder : o.1.recorder ≡ x.recorder
  pub lines : o.1.lines ≡ x.lines

unfoldable pub Crashes : {L : Type 0} → String → Serve L → Type 0
Crashes {L} what s =
    (ctx : Context) (x : Exchange L) (rec : Recorder)
    → x.recorder ≡ some rec
    → IsCrash what x (s ctx x)

module _ {L I : Type 0} (e : Wiring L I) (h : Handlers) (c : RouterConfig) (r : Incoming)
    (what : String) where
  pub prepared :
      (ops : List Op) (x : Exchange L)
      → SendsNothing ops
      → IsCrash what x (panicked (fault what), apply_all e.net ops x)
  unfolding apply_all apply
  prepared [] x q = record { exit = refl; sent = refl; recorder = refl; lines = refl }
  prepared (set_field n v ∷ ops) x q =
      let i = prepared ops (apply e.net (set_field n v) x) q in
      record { exit = refl; sent = i.sent; recorder = i.recorder; lines = i.lines }
  prepared (add_field n v ∷ ops) x q =
      let i = prepared ops (apply e.net (add_field n v) x) q in
      record { exit = refl; sent = i.sent; recorder = i.recorder; lines = i.lines }
  prepared (send_status code ∷ ops) x q = elim q [ ]
  prepared (send b ∷ ops) x q = elim q [ ]

  pub play-Crashes :
      (hd : Handler) (ops : List Op)
      → SendsNothing ops
      → ((d : Context) (w : World) → (hd d w).0 ≡ (ops, panicked (fault what)))
      → Crashes {L = L} what (play e.net hd)
  unfolding Crashes play
  play-Crashes hd ops q h d x rec eq = rw (h d x.world) (
      let i = prepared ops (record x { world = (hd d x.world).1 }) q in
      record { exit = refl; sent = i.sent; recorder = i.recorder; lines = i.lines })

  pub IsCrash-timed :
      (d : Duration) (ctx : Context) (x : Exchange L) (o : Exit × Exchange L)
      → IsCrash what x o
      → IsCrash what x (timed e.net r d ctx o)
  IsCrash-timed d ctx x (returned, y) i = absurd (cc i.exit)
  IsCrash-timed d ctx x (panicked p, y) i = i

  pub timeout-Crashes :
      (d : Duration) (s : Serve L) → Crashes what s → Crashes what (timeout e.net r d s)
  unfolding Crashes timeout
  timeout-Crashes d s crash ctx x rec eq =
      let i = crash _ (wrap_writer x) rec (rw eq refl) in
      IsCrash-timed d _ x _ (record {
        exit = i.exit;
        sent = i.sent;
        recorder = i.recorder ∙ rw eq refl;
        lines = i.lines;
      })

  pub when-cors-Crashes :
      (b : Bool) (s : Serve L)
      → (r.method == "OPTIONS") ≡ false
      → Crashes what s
      → Crashes what (when e h c r b (cors e.net r c.cors_origins c.cors_max_age) s)
  unfolding Crashes cors apply_all apply
  when-cors-Crashes false s plain crash ctx x rec eq = crash ctx x rec eq
  when-cors-Crashes true s plain crash ctx x rec eq =
      elim (Bool-cases (is_allowed (allowed_origins c.cors_origins) (r.request.header "Origin"))) [
        | inr foreign ↦ rw foreign (crash ctx x rec eq)
        | inl known ↦
            let i = crash ctx (apply_all e.net (origin_ops (r.request.header "Origin")) x) rec eq in
            rw (known, plain)
              (record { exit = i.exit; sent = i.sent; recorder = i.recorder; lines = i.lines })
      ]
