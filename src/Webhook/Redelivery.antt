-- ===== src/Webhook/Redelivery.antt =====
-- ProcessEvent of internal/service/webhook_service.go: a further delivery of an event.
use stripe_payment_service.Prelude.{
  String, ◌≡◌, ◌⊎◌, refl, true, inl, inr, Option, none, some, List, [], ◌∷◌, arith, Option-cases,
}
use stripe_payment_service.Domain.Errors.{Result, ok, err, Failure, validation_result}
use stripe_payment_service.Domain.Status.{is_settled}
use stripe_payment_service.Domain.Time.{Time, Duration}
use stripe_payment_service.Domain.Webhook
use stripe_payment_service.Domain.Webhook.{Delivery, ProcessedWebhook}
use stripe_payment_service.Ledger.{Ledger, find_event, claim}
use stripe_payment_service.Stripe.Objects.{Event, Platform}
use stripe_payment_service.Stripe.Client.{verify_webhook}
use stripe_payment_service.Run.{World, Trip, depart, arrive, statement, ◌>>=◌}
use stripe_payment_service.Repository.{try_claim_event}
use stripe_payment_service.Webhook.Handlers.{
  Outcome, outcome_processed, outcome_duplicate, outcome_skipped, outcome_stale, outcome_failed,
}
use stripe_payment_service.Webhook.Settlement.{IsSettledAs, status_for}
use stripe_payment_service.Webhook.Delivery.{process_event-IsSettledAs}
use stripe_payment_service.Webhook.Service.{
  delivery_of, claimed_or_not, process_verified, process_event,
}

abbrev pub SameTables : World → World → Type 0
SameTables w v = (v.ledger ≡ w.ledger) × (v.subscriptions ≡ w.subscriptions) × (v.users ≡ w.users)

-- The result is `a` or a failure, and no table has changed.
abbrev pub IsInert : {A : Type 0} → World → A → Result A × World → Type 0
IsInert w a (r, v) = SameTables w v × ((r ≡ ok a) ⊎ ((e : Failure) × (r ≡ err e)))

claim-settled :
    (d : Duration) (now : Time) (w : Delivery) (t : Ledger) (r : ProcessedWebhook)
    → find_event w.event_id t ≡ some r
    → is_settled r.status ≡ true
    → claim d now w t ≡ (none, t)
unfolding claim
claim-settled d now w t r e done = ground (arith, e, done)

depart-SameTables : (ts : List Trip) (w : World) → SameTables w (depart ts w).1
depart-SameTables [] w = (refl, refl, refl)
depart-SameTables (t ∷ ts) w = (refl, refl, refl)

arrive-IsInert :
    (op : String) (d : Duration) (dl : Delivery) (w : World) (r : ProcessedWebhook)
    (x : Option String × World)
    → find_event dl.event_id w.ledger ≡ some r
    → is_settled r.status ≡ true
    → SameTables w x.1
    → IsInert w none (
        arrive op
          (λ now u.
            (ok (claim d now dl u.ledger).0, record u { ledger = (claim d now dl u.ledger).1 }))
          x)
unfolding arrive
arrive-IsInert op d dl w r (some text, v) e done same = (same, inr (_, refl))
arrive-IsInert op d dl w r (none, v) e done same =
    let refused = claim-settled d v.clock dl v.ledger r (rw same.0 e) done in
    rw refused (same, inl refl)

try_claim-IsInert :
    (p : Platform) (d : Duration) (dl : Delivery) (w : World) (r : ProcessedWebhook)
    → find_event dl.event_id w.ledger ≡ some r
    → is_settled r.status ≡ true
    → IsInert w none (try_claim_event p d dl w)
unfolding try_claim_event statement
try_claim-IsInert p d dl w r e done =
    elim (Option-cases (validation_result (Webhook.validate p.json_valid dl))) [
      | inl valid ↦
          rw (valid, try_claim_event)
            (arrive-IsInert _ d dl w r (depart w.trips w) e done (depart-SameTables w.trips w))
      | inr (x, bad) ↦ rw (bad, try_claim_event) ((refl, refl, refl), inr (x, refl))
    ]

claimed_or_not-IsInert :
    (p : Platform) (event : Event) (w : World) (x : Result (Option ProcessedWebhook) × World)
    → IsInert w none x
    → IsInert w outcome_duplicate (claimed_or_not p event x.0 x.1)
unfolding ◌>>=◌
claimed_or_not-IsInert p event w (err e, v) h = (h.0, inr (_, refl))
claimed_or_not-IsInert p event w (ok none, v) h = (h.0, inl refl)
claimed_or_not-IsInert p event w (ok (some row), v) h = absurd (refuted h.1)
  where
    refuted : (ok (some row) ≡ ok none) ⊎ ((e : Failure) × (ok (some row) ≡ err e)) → ⊥
    refuted (inl q) = ground arith
    refuted (inr (e, q)) = ground arith

-- Delivering a settled event again changes no table, whatever calls of the database fail: it is
-- reported as a duplicate, or it fails before it has claimed anything.
pub process_event-settled :
    (p : Platform) (d : Duration) (payload header : String) (event : Event) (w : World)
    (r : ProcessedWebhook)
    → verify_webhook p payload header w.clock ≡ ok event
    → find_event event.id w.ledger ≡ some r
    → is_settled r.status ≡ true
    → IsInert w outcome_duplicate (process_event p d payload header w)
unfolding process_event process_verified ◌>>=◌
process_event-settled p d payload header event w r verified e done =
    rw (verified, process_event, process_verified)
      (claimed_or_not-IsInert p event w _
        (try_claim-IsInert p d (delivery_of event payload) w r e done))

-- A result that is no failure has settled the row.
settled-row :
    (id : String) (o : Outcome) (x : Result Outcome × World)
    → IsSettledAs id x
    → x.0 ≡ ok o
    → (r : ProcessedWebhook) × (find_event id x.1.ledger ≡ some r) × (is_settled r.status ≡ true)
settled-row id o (err e, v) h q = absurd (ground arith)
settled-row id o (ok a, v) h q = elim (Option-cases (find_event id v.ledger)) [
  | inl gone ↦ absurd (rw gone at h)
  | inr (r, found) ↦ (r, found, finished a r (rw found at h))
]
  where
    finished :
        (a : Outcome) (r : ProcessedWebhook)
        → r.status ≡ status_for (ok a)
        → is_settled r.status ≡ true
    finished outcome_processed r s = rw s refl
    finished outcome_duplicate r s = rw s refl
    finished outcome_skipped r s = rw s refl
    finished outcome_stale r s = rw s refl
    finished outcome_failed r s = rw s refl

-- Where no call of the database can fail, and a delivery, verified and valid, obtains the claim and
-- ends without an error, the delivery that follows it, of a verified event with the same id, changes
-- no table: it is reported as a duplicate, or it fails.
pub process_event-once :
    (p : Platform) (d : Duration) (payload header payload' header' : String) (event event' : Event)
    (w : World) (row : ProcessedWebhook) (o : Outcome)
    → w.trips ≡ []
    → verify_webhook p payload header w.clock ≡ ok event
    → validation_result (Webhook.validate p.json_valid (delivery_of event payload)) ≡ none
    → (claim d w.clock (delivery_of event payload) w.ledger).0 ≡ some row
    → (process_event p d payload header w).0 ≡ ok o
    → event'.id ≡ event.id
    → verify_webhook p payload' header' (process_event p d payload header w).1.clock ≡ ok event'
    → IsInert
        (process_event p d payload header w).1
        outcome_duplicate
        (process_event p d payload' header' (process_event p d payload header w).1)
process_event-once p d payload header payload' header' event event' w row o calm verified valid
      claimed good same again =
    let (r, found, done) =
      settled-row event.id o (process_event p d payload header w)
        (process_event-IsSettledAs p d payload header event w row calm verified valid claimed)
        good in
    process_event-settled p d payload' header' event' _ r again (rw same found) done
