-- ===== src/Webhook/Delivery.antt =====
-- ProcessEvent of internal/service/webhook_service.go: one delivery, from its signature to its
-- settlement.
use stripe_payment_service.Prelude.{
  String, ◌≡◌, refl, inl, inr, none, some, [], ◌∷◌, arith, eq_refl, Option-cases, Bool-cases,
}
use stripe_payment_service.Domain.Errors.{
  Result, ok, err, signature_verification, validation_result,
}
use stripe_payment_service.Domain.Status.{processing}
use stripe_payment_service.Domain.Time.{Time, Duration}
use stripe_payment_service.Domain.Webhook
use stripe_payment_service.Domain.Webhook.{Delivery, ProcessedWebhook}
use stripe_payment_service.Ledger.{Ledger, find_event, claim, claimed_row, claim_again, reclaimable}
use stripe_payment_service.Ledger.Lookup.{find-claim}
use stripe_payment_service.Stripe.Objects.{Event, Platform}
use stripe_payment_service.Stripe.Client.{verify_webhook, because}
use stripe_payment_service.Run.{World, ◌>>=◌}
use stripe_payment_service.Run.Keeps.{statement-calm}
use stripe_payment_service.Repository.{try_claim_event}
use stripe_payment_service.Webhook.Handlers.{
  Outcome, outcome_processed, outcome_duplicate, outcome_skipped, outcome_stale, outcome_failed,
}
use stripe_payment_service.Webhook.Settlement.{IsSettledAs, apply_claimed-IsSettledAs}
use stripe_payment_service.Webhook.Service.{
  delivery_of, observed_result, process_verified, process_event,
}

claim-found :
    (d : Duration) (now : Time) (w : Delivery) (t : Ledger) (row : ProcessedWebhook)
    → (claim d now w t).0 ≡ some row
    → (find_event w.event_id (claim d now w t).1 ≡ some row) × (row.status ≡ processing)
unfolding claim
claim-found d now w t row e = elim (Option-cases (find_event w.event_id t)) [
  | inl fresh ↦
      let same : claimed_row now w ≡ row = ground (arith, fresh, e) in
      (
        ground (arith, find-claim w.event_id d now w t, fresh, e, eq_refl w.event_id),
        rw⁻¹ same refl,
      )
  | inr (r, old) ↦ elim (Bool-cases (reclaimable d now r)) [
    | inl again ↦
        let same : claim_again now r ≡ row = ground (arith, old, again, e) in
        (
          ground (arith, find-claim w.event_id d now w t, old, again, e, eq_refl w.event_id),
          rw⁻¹ same refl,
        )
    | inr held ↦ absurd (ground (arith, old, held, e))
  ]
]

observed-IsSettledAs :
    (id type : String) (x : Result Outcome × World)
    → IsSettledAs id x
    → IsSettledAs id (observed_result type x.0 x.1)
unfolding ◌>>=◌
observed-IsSettledAs id type (err e, w) h = h
observed-IsSettledAs id type (ok outcome_skipped, w) h = h
observed-IsSettledAs id type (ok outcome_processed, w) h = h
observed-IsSettledAs id type (ok outcome_duplicate, w) h = h
observed-IsSettledAs id type (ok outcome_stale, w) h = h
observed-IsSettledAs id type (ok outcome_failed, w) h = h

-- A delivery whose signature does not verify changes nothing: no table, and no metric but the count
-- of rejected signatures, whatever event id or type its body claims. Its error says so.
pub process_event-forged :
    (p : Platform) (d : Duration) (payload header text : String) (w : World)
    → p.construct_event payload header w.clock ≡ inl text
    → process_event p d payload header w ≡ (
      err (because signature_verification text),
      record w { observed = ("unverified", "signature_rejected") ∷ w.observed },
    )
unfolding process_event verify_webhook ◌>>=◌
process_event-forged p d payload header text w e = rw (e, process_event, verify_webhook) refl

-- Where no call of the database fails, a verified and valid delivery that obtains the claim is
-- settled in the ledger as it is reported: failed with an error, skipped, or succeeded.
pub process_event-IsSettledAs :
    (p : Platform) (d : Duration) (payload header : String) (event : Event) (w : World)
    (row : ProcessedWebhook)
    → w.trips ≡ []
    → verify_webhook p payload header w.clock ≡ ok event
    → validation_result (Webhook.validate p.json_valid (delivery_of event payload)) ≡ none
    → (claim d w.clock (delivery_of event payload) w.ledger).0 ≡ some row
    → IsSettledAs event.id (process_event p d payload header w)
unfolding process_event process_verified try_claim_event ◌>>=◌
process_event-IsSettledAs p d payload header event w row calm verified valid claimed =
    let (t, held) = claim-found d w.clock (delivery_of event payload) w.ledger row claimed in
    rw (verified, process_event, process_verified, try_claim_event, valid)
      (rw (statement-calm _ _ w calm) (
        rw claimed (
          observed-IsSettledAs event.id event.type _ (
            apply_claimed-IsSettledAs p event.id event _ row
              (record { calm = calm; found = t; held = held })))))
