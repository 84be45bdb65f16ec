-- ===== src/Webhook/Settlement.antt =====
-- internal/service/webhook_service.go: the settlement of a claimed event.
use stripe_payment_service.Prelude.{
  ℕ, zero, suc, String, ◌≡◌, refl, ap, inl, inr, Option, none, some, [], arith, eq_refl, Bool-cases,
  bytes,
}
use stripe_payment_service.Domain.Errors.{Result, ok, err, Failure}
use stripe_payment_service.Domain.Status.{WebhookStatus, processing, succeeded, failed, skipped}
use stripe_payment_service.Domain.Webhook.{ProcessedWebhook}
use stripe_payment_service.Truncate.{truncate, failure_reason}
use stripe_payment_service.Ledger.{
  Ledger, find_event, update_event, in_flight, set_processed, set_skipped, set_failed,
  settle_processed, settle_skipped, settle_failed,
}
use stripe_payment_service.Ledger.Lookup.{find-update_event}
use stripe_payment_service.Stripe.Objects.{Event, Platform}
use stripe_payment_service.Run.{World, ◌>>=◌}
use stripe_payment_service.Run.Keeps.{statement-calm}
use stripe_payment_service.Repository.{
  settled, mark_event_processed, mark_event_skipped, mark_event_failed,
}
use stripe_payment_service.Webhook.Handlers.{
  Outcome, outcome_processed, outcome_duplicate, outcome_skipped, outcome_stale, outcome_failed,
  dispatch,
}
use stripe_payment_service.Webhook.Keeps.{dispatch-SameLedger}
use stripe_payment_service.Webhook.Service.{is_handled, settle_skip, conclude, apply_claimed}

-- The status that the ledger should show for a result.
abbrev pub status_for : Result Outcome → WebhookStatus
status_for (err e) = failed
status_for (ok outcome_skipped) = skipped
status_for (ok o) = succeeded

abbrev pub HasStatus : WebhookStatus → Option ProcessedWebhook → Type 0
HasStatus s none = ⊥
HasStatus s (some r) = r.status ≡ s

abbrev pub IsSettledAs : String → Result Outcome × World → Type 0
IsSettledAs id (r, w) = HasStatus (status_for r) (find_event id w.ledger)

settled-world : (op id : String) (n : ℕ) (w : World) → (settled op id n w).1 ≡ w
settled-world op id zero w = refl
settled-world op id (suc n) w = refl

module _ (id : String) (w : World) (calm : w.trips ≡ []) where
  mark_processed-ledger :
      (mark_event_processed id w).1.ledger ≡ (settle_processed w.clock id w.ledger).1
  unfolding mark_event_processed ◌>>=◌
  mark_processed-ledger =
      rw (statement-calm _ _ w calm) (ap (λ v. v.ledger) (settled-world _ id _ _))

  mark_skipped-ledger :
      (reason : String)
      → (mark_event_skipped id reason w).1.ledger
        ≡ (settle_skipped w.clock (truncate (bytes reason)) id w.ledger).1
  unfolding mark_event_skipped ◌>>=◌
  mark_skipped-ledger reason =
      rw (statement-calm _ _ w calm) (ap (λ v. v.ledger) (settled-world _ id _ _))

  mark_failed-ledger :
      (e : Failure)
      → (mark_event_failed id e w).1.ledger
        ≡ (settle_failed w.clock (failure_reason (some e)) id w.ledger).1
  unfolding mark_event_failed ◌>>=◌
  mark_failed-ledger e =
      rw (statement-calm _ _ w calm) (ap (λ v. v.ledger) (settled-world _ id _ _))

-- The settlement of a row that is in flight.
update_event-HasStatus :
    (id : String) (f : ProcessedWebhook → ProcessedWebhook) (s : WebhookStatus) (t : Ledger)
    (r : ProcessedWebhook)
    → ((x : ProcessedWebhook) → (f x).event_id ≡ x.event_id)
    → ((x : ProcessedWebhook) → (f x).status ≡ s)
    → find_event id t ≡ some r
    → r.status ≡ processing
    → HasStatus s (find_event id (update_event in_flight f id t).1)
update_event-HasStatus id f s t r same sets e held =
    rw (find-update_event id id in_flight f t same, e, eq_refl id) (ground (arith, held, sets r))

-- The row of an event, in flight in a world where no trip fails.
pub record Held (id : String) (w : World) (r : ProcessedWebhook) : Type 0 where
  pub calm : w.trips ≡ []
  pub found : find_event id w.ledger ≡ some r
  pub held : r.status ≡ processing

module _ (id : String) (w : World) (r : ProcessedWebhook) (h : Held id w r) where
  pub settle_skip-IsSettledAs : (reason : String) → IsSettledAs id (settle_skip id reason w)
  unfolding settle_skip ◌>>=◌
  settle_skip-IsSettledAs reason = rw (mark_skipped-ledger id w h.calm reason) (
      update_event-HasStatus id (set_skipped w.clock (truncate (bytes reason))) skipped w.ledger r
        (λ x. refl) (λ x. refl) h.found h.held)

  processed : HasStatus succeeded (find_event id (mark_event_processed id w).1.ledger)
  processed = rw (mark_processed-ledger id w h.calm) (
      update_event-HasStatus id (set_processed w.clock) succeeded w.ledger r (λ x. refl) (λ x. refl)
        h.found h.held)

  conclude-IsSettledAs : (x : Result Outcome) → IsSettledAs id (conclude id x w)
  unfolding conclude ◌>>=◌
  conclude-IsSettledAs (err e) = rw (mark_failed-ledger id w h.calm e) (
      update_event-HasStatus id (set_failed w.clock (failure_reason (some e))) failed w.ledger r
        (λ x. refl) (λ x. refl) h.found h.held)
  conclude-IsSettledAs (ok outcome_skipped) = settle_skip-IsSettledAs _
  conclude-IsSettledAs (ok outcome_processed) = processed
  conclude-IsSettledAs (ok outcome_duplicate) = processed
  conclude-IsSettledAs (ok outcome_stale) = processed
  conclude-IsSettledAs (ok outcome_failed) = processed

-- Where no call of the database fails, an event that is in flight is settled by its handler,
-- whatever the handler returns: as failed when it reports an error, so that it can be retried, as
-- skipped when it found nothing to do or the type is not handled, and as succeeded otherwise.
pub apply_claimed-IsSettledAs :
    (p : Platform) (id : String) (event : Event) (w : World) (r : ProcessedWebhook)
    → Held id w r
    → IsSettledAs id (apply_claimed p id event w)
unfolding apply_claimed ◌>>=◌
apply_claimed-IsSettledAs p id event w r h = elim (Bool-cases (is_handled event.type)) [
  | inl handled ↦
      let kept = dispatch-SameLedger p event w in
      rw (handled, apply_claimed)
        (conclude-IsSettledAs id (dispatch p event w).1 r
          (record { calm = kept.1 h.calm; found = rw kept.0 h.found; held = h.held })
          (dispatch p event w).0)
  | inr ignored ↦ rw (ignored, apply_claimed) (settle_skip-IsSettledAs id w r h _)
]
