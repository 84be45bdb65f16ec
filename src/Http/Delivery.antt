-- ===== src/Http/Delivery.antt =====
-- internal/handler/stripe_handler.go: the status code of a delivery against the ledger. Stripe
-- delivers again whatever is not answered with 200.
use stripe_payment_service.Prelude.{
  ℕ, String, ◌≡◌, refl, ◌⊎◌, inl, inr, false, none, some, [], ◌==◌, nat_eq, or_default, Bool-cases,
}
use stripe_payment_service.Domain.Errors.{
  Result, ok, err, validation_result, is_sentinel, signature_verification,
}
use stripe_payment_service.Domain.Status.{failed, succeeded, skipped}
use stripe_payment_service.Domain.Time.{Duration}
use stripe_payment_service.Domain.Webhook
use stripe_payment_service.Domain.Webhook.{ProcessedWebhook}
use stripe_payment_service.Ledger.{claim, find_event}
use stripe_payment_service.Stripe.Objects.{Platform, Event}
use stripe_payment_service.Stripe.Client.{verify_webhook}
use stripe_payment_service.Webhook.Handlers.{
  Outcome, outcome_processed, outcome_duplicate, outcome_skipped, outcome_stale, outcome_failed,
}
use stripe_payment_service.Webhook.Service.{process_event, delivery_of}
use stripe_payment_service.Webhook.Settlement.{HasStatus, IsSettledAs}
use stripe_payment_service.Webhook.Delivery.{process_event-IsSettledAs}
use stripe_payment_service.Http.{Response, Request}
use stripe_payment_service.Http.Webhook.{
  handle_webhook, answer_body, webhook_answer, max_webhook_bytes,
}
use stripe_payment_service.Run.{World, ◌>>=◌}

-- The answer tells Stripe what the ledger holds: 200, and the event is settled for good; or another status, and the
-- event is failed, which makes it claimable again.
abbrev pub IsAnsweredAs : String → Result Response × World → Type 0
IsAnsweredAs id (err e, w) = ⊥
IsAnsweredAs id (ok a, w) =
    ((a.status ≡ 200)
      × (HasStatus succeeded (find_event id w.ledger) ⊎ HasStatus skipped (find_event id w.ledger)))
    ⊎ ((nat_eq a.status 200 ≡ false) × HasStatus failed (find_event id w.ledger))

answered :
    (id : String) (r : Result Outcome) (w : World)
    → IsSettledAs id (r, w)
    → IsAnsweredAs id (ok (webhook_answer r), w)
unfolding webhook_answer
answered id (ok outcome_processed) w h = inl (refl, inl h)
answered id (ok outcome_duplicate) w h = inl (refl, inl h)
answered id (ok outcome_skipped) w h = inl (refl, inr h)
answered id (ok outcome_stale) w h = inl (refl, inl h)
answered id (ok outcome_failed) w h = inl (refl, inl h)
answered id (err e) w h = inr (
  elim (Bool-cases (is_sentinel signature_verification e)) [
    | inl forged ↦ rw forged refl
    | inr genuine ↦ rw genuine refl
  ],
  h,
)

-- Where no call of the database fails, a request with a signature and a readable body, whose event is
-- verified, valid and obtains the claim, is answered with 200 exactly when the event is settled for good, as
-- succeeded or skipped; with any other status, on which Stripe delivers again, the event is recorded as
-- failed and not left in flight.
pub handle_webhook-IsAnsweredAs :
    (p : Platform) (d : Duration) (limit : ℕ) (r : Request) (payload : String) (event : Event)
    (w : World) (row : ProcessedWebhook)
    → w.trips ≡ []
    → (r.header "Stripe-Signature" == "") ≡ false
    → r.read_body (or_default limit max_webhook_bytes) ≡ inr payload
    → verify_webhook p payload (r.header "Stripe-Signature") w.clock ≡ ok event
    → validation_result (Webhook.validate p.json_valid (delivery_of event payload)) ≡ none
    → (claim d w.clock (delivery_of event payload) w.ledger).0 ≡ some row
    → IsAnsweredAs event.id (handle_webhook p d limit r w)
unfolding handle_webhook answer_body ◌>>=◌
handle_webhook-IsAnsweredAs p d limit r payload event w row calm given read verified valid claimed =
    let done = process_event p d payload (r.header "Stripe-Signature") w in
    let settled =
      process_event-IsSettledAs p d payload (r.header "Stripe-Signature") event w row calm verified
        valid claimed in
    rw (given, read) (answered event.id done.0 done.1 settled)
