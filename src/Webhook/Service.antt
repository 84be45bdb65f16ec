-- ===== src/Webhook/Service.antt =====
-- internal/service/webhook_service.go: ProcessEvent and ReplayEvent.
use stripe_payment_service.Prelude.{
  String, Bool, ◌⊎◌, inl, inr, Option, none, some, List, [], ◌∷◌, ◌==◌, any_where, if◌then◌else◌,
}
use stripe_payment_service.Domain.Errors.{Result, ok, err, wrap}
use stripe_payment_service.Domain.Time.{Duration, unix}
use stripe_payment_service.Domain.Webhook.{Delivery, ProcessedWebhook}
use stripe_payment_service.Truncate.{null_if_empty}
use stripe_payment_service.Stripe.Objects.{Event, Platform}
use stripe_payment_service.Stripe.Client.{verify_webhook}
use stripe_payment_service.Run.{Run, pure, raise, attempt, reads, observe, ◌>>=◌, ◌>>◌}
use stripe_payment_service.Repository.{
  try_claim_event, mark_event_processed, mark_event_skipped, mark_event_failed,
}
use stripe_payment_service.Webhook.Mapping.{id_if_any}
use stripe_payment_service.Webhook.Handlers.{
  Outcome, outcome_processed, outcome_duplicate, outcome_skipped, outcome_stale, outcome_failed,
  dispatch,
}

abbrev pub outcome_text : Outcome → String
outcome_text outcome_processed = "processed"
outcome_text outcome_duplicate = "duplicate"
outcome_text outcome_skipped = "skipped"
outcome_text outcome_stale = "stale"
outcome_text outcome_failed = "failed"

-- handledEventTypes
abbrev pub handled_event_types : List String
handled_event_types =
    "checkout.session.completed" ∷ "customer.subscription.updated" ∷ "customer.subscription.deleted"
    ∷ "customer.subscription.created" ∷ "customer.subscription.paused"
    ∷ "customer.subscription.resumed" ∷ "invoice.payment_failed" ∷ "invoice.payment_succeeded" ∷ []

unfoldable pub is_handled : String → Bool
is_handled type = any_where (λ t. t == type) handled_event_types

-- The record that ProcessEvent claims.
abbrev pub delivery_of : Event → String → Delivery
delivery_of event payload = record {
  event_id = event.id;
  event_type = event.type;
  api_version = null_if_empty event.api_version;
  livemode = event.livemode;
  request_id = id_if_any event.request_id;
  stripe_created_at = unix event.created;
  payload = payload;
}

-- settleSkipped; a failure to settle is logged only.
unfoldable pub settle_skip : String → String → Run Outcome
settle_skip id reason = do attempt (mark_event_skipped id reason); pure outcome_skipped

-- What follows the dispatch: the settlement, whose own failure is logged only.
unfoldable pub conclude : String → Result Outcome → Run Outcome
conclude id (err e) = do attempt (mark_event_failed id e); raise e
conclude id (ok outcome_skipped) = settle_skip id "no action required for this event"
conclude id (ok outcome) = do attempt (mark_event_processed id); pure outcome

-- Both paths after the claim: a type that is not handled is skipped, others are dispatched.
unfoldable pub apply_claimed : Platform → String → Event → Run Outcome
apply_claimed p id event =
    if is_handled event.type
    then (do r ← attempt (dispatch p event); conclude id r)
    else settle_skip id "event type not subscribed"

-- The observation of ProcessEvent: settleSkipped makes none.
abbrev pub observed_result : String → Result Outcome → Run Outcome
observed_result type (err e) = do observe type "failed"; raise e
observed_result type (ok outcome_skipped) = pure outcome_skipped
observed_result type (ok outcome) = do observe type (outcome_text outcome); pure outcome

abbrev pub claimed_or_not : Platform → Event → Result (Option ProcessedWebhook) → Run Outcome
claimed_or_not p event (err e) = raise (wrap "claim event" e)
claimed_or_not p event (ok none) = do
  observe event.type (outcome_text outcome_duplicate)
  pure outcome_duplicate
claimed_or_not p event (ok (some row)) = do
  r ← attempt (apply_claimed p event.id event)
  observed_result event.type r

-- ProcessEvent after the signature has been verified
unfoldable pub process_verified : Platform → Duration → Event → String → Run Outcome
process_verified p stale_after event payload = do
  r ← attempt (try_claim_event p stale_after (delivery_of event payload))
  claimed_or_not p event r

abbrev pub verified_or_not : Platform → Duration → String → Result Event → Run Outcome
verified_or_not p stale_after payload (err e) = do
  observe "unverified" "signature_rejected"
  raise e
verified_or_not p stale_after payload (ok event) = process_verified p stale_after event payload

-- ProcessEvent
unfoldable pub process_event : Platform → Duration → (payload header : String) → Run Outcome
process_event p stale_after payload header = do
  now ← reads (λ w. w.clock)
  verified_or_not p stale_after payload (verify_webhook p payload header now)

-- `len(record.Payload) == 0`
abbrev pub stored_payload : Option String → String
stored_payload none = ""
stored_payload (some p) = p

-- ReplayEvent after the stored payload is decoded
abbrev pub replay_decoded : Platform → String → String ⊎ Event → Run Outcome
replay_decoded p id (inl text) = settle_skip id "stored payload is not valid Stripe event JSON"
replay_decoded p id (inr event) = apply_claimed p id event

-- ReplayEvent, of a row that the caller has claimed
unfoldable pub replay_event : Platform → ProcessedWebhook → Run Outcome
replay_event p row =
    if stored_payload row.payload == ""
    then settle_skip row.event_id "payload no longer retained; cannot replay"
    else replay_decoded p row.event_id (p.decode_event (stored_payload row.payload))
