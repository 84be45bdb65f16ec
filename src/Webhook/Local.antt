-- ===== src/Webhook/Local.antt =====
-- internal/service/webhook_service.go: a replay writes the row of its event only, where no call of the
-- database fails.
use stripe_payment_service.Prelude.{
  ℕ, zero, suc, String, ◌≡◌, refl, ◌⊎◌, Bool, true, false, inl, inr, some, [], bytes, ◌==◌,
  if◌then◌else◌,
}
use stripe_payment_service.Domain.Errors.{Result, ok, err}
use stripe_payment_service.Domain.Time.{Time}
use stripe_payment_service.Domain.Webhook.{ProcessedWebhook}
use stripe_payment_service.Truncate.{truncate, failure_reason}
use stripe_payment_service.Ledger.{
  Ledger, update_event, in_flight, set_processed, set_skipped, set_failed,
}
use stripe_payment_service.Stripe.Objects.{Event, Platform}
use stripe_payment_service.Run.{World, Run, pure, attempt, continue, ◌>>=◌, ◌>>◌}
use stripe_payment_service.Run.Keeps.{SameLedger, statement-calm}
use stripe_payment_service.Repository.{
  on_ledger, settled, mark_event_processed, mark_event_skipped, mark_event_failed,
}
use stripe_payment_service.Webhook.Handlers.{
  Outcome, outcome_processed, outcome_duplicate, outcome_skipped, outcome_stale, outcome_failed,
  dispatch,
}
use stripe_payment_service.Webhook.Keeps.{dispatch-SameLedger}
use stripe_payment_service.Webhook.Service.{
  is_handled, settle_skip, conclude, apply_claimed, stored_payload, replay_decoded, replay_event,
}

module _ (Q : Ledger → Type 0) where
  -- The run keeps what holds of the ledger, in a world where no trip fails, and none fails after it.
  abbrev pub KeepsCalm : {A : Type 0} → Run A → Type 0
  KeepsCalm m = (w : World) → w.trips ≡ [] → Q w.ledger → ((m w).1.trips ≡ []) × Q (m w).1.ledger

  pub bind-KeepsCalm :
      {A B : Type 0} (m : Run A) (f : A → Run B)
      → KeepsCalm m
      → ((a : A) → KeepsCalm (f a))
      → KeepsCalm (m >>= f)
  unfolding ◌>>=◌
  bind-KeepsCalm {A} {B} m f h k w calm q = onward (m w) (h w calm q)
    where
      onward :
          (x : Result A × World)
          → (x.1.trips ≡ []) × Q x.1.ledger
          → ((continue x.0 f x.1).1.trips ≡ []) × Q (continue x.0 f x.1).1.ledger
      onward (ok a, v) (c, s) = k a v c s
      onward (err e, v) s = s

  pub on_ledger-KeepsCalm :
      {A : Type 0} (op : String) (f : Time → Ledger → A × Ledger)
      → ((now : Time) (t : Ledger) → Q t → Q (f now t).1)
      → KeepsCalm (on_ledger op f)
  on_ledger-KeepsCalm op f keeps w calm q =
      rw (statement-calm _ _ w calm) (calm, keeps w.clock w.ledger q)

  pub same-KeepsCalm : {A : Type 0} (m : Run A) → SameLedger m → KeepsCalm m
  same-KeepsCalm m same w calm q = ((same w).1 calm, rw (same w).0 q)

-- A settlement of a row: neither its key nor its attempts change, and it is no longer in flight.
pub record IsMark (f : ProcessedWebhook → ProcessedWebhook) : Type 0 where
  pub keyed : (x : ProcessedWebhook) → (f x).event_id ≡ x.event_id
  pub tried : (x : ProcessedWebhook) → (f x).attempts ≡ x.attempts
  pub done : (x : ProcessedWebhook) → in_flight (f x) ≡ false

-- What settlements of one event keep, all of its replay keeps.
module _ (Q : Ledger → Type 0) (id : String)
    (stable : (f : ProcessedWebhook → ProcessedWebhook) (t : Ledger)
      → IsMark f
      → Q t
      → Q (update_event in_flight f id t).1) where
  settled-KeepsCalm : (op : String) (n : ℕ) → KeepsCalm Q (settled op id n)
  settled-KeepsCalm op zero w calm q = (calm, q)
  settled-KeepsCalm op (suc n) w calm q = (calm, q)

  marking-KeepsCalm :
      (op : String) (f : Time → ProcessedWebhook → ProcessedWebhook)
      → ((now : Time) → IsMark (f now))
      → KeepsCalm Q
          (do n ← on_ledger op λ now t. update_event in_flight (f now) id t; settled op id n)
  marking-KeepsCalm op f mark =
      bind-KeepsCalm Q _ _ (on_ledger-KeepsCalm Q _ _ λ now t. stable (f now) t (mark now))
        (settled-KeepsCalm op)

  concluding-KeepsCalm :
      {A : Type 0} (m : Run Unit) (n : Run A)
      → KeepsCalm Q m
      → ((w : World) → (n w).1 ≡ w)
      → KeepsCalm Q (attempt m >> n)
  concluding-KeepsCalm m n h same = bind-KeepsCalm Q _ _ h λ u w calm q. rw (same w) (calm, q)

  settle_skip-KeepsCalm : (reason : String) → KeepsCalm Q (settle_skip id reason)
  unfolding settle_skip mark_event_skipped
  settle_skip-KeepsCalm reason =
      concluding-KeepsCalm (mark_event_skipped id reason) _
        (marking-KeepsCalm _ (λ now. set_skipped now (truncate (bytes reason)))
          λ now. record { keyed = λ x. refl; tried = λ x. refl; done = λ x. refl })
        λ w. refl

  processed-KeepsCalm : (o : Outcome) → KeepsCalm Q (do attempt (mark_event_processed id); pure o)
  unfolding mark_event_processed
  processed-KeepsCalm o =
      concluding-KeepsCalm (mark_event_processed id) _
        (marking-KeepsCalm _ set_processed
          λ now. record { keyed = λ x. refl; tried = λ x. refl; done = λ x. refl })
        λ w. refl

  conclude-KeepsCalm : (r : Result Outcome) → KeepsCalm Q (conclude id r)
  unfolding conclude mark_event_failed
  conclude-KeepsCalm (err e) =
      concluding-KeepsCalm (mark_event_failed id e) _
        (marking-KeepsCalm _ (λ now. set_failed now (failure_reason (some e)))
          λ now. record { keyed = λ x. refl; tried = λ x. refl; done = λ x. refl })
        λ w. refl
  conclude-KeepsCalm (ok outcome_skipped) = settle_skip-KeepsCalm _
  conclude-KeepsCalm (ok outcome_processed) = processed-KeepsCalm outcome_processed
  conclude-KeepsCalm (ok outcome_duplicate) = processed-KeepsCalm outcome_duplicate
  conclude-KeepsCalm (ok outcome_stale) = processed-KeepsCalm outcome_stale
  conclude-KeepsCalm (ok outcome_failed) = processed-KeepsCalm outcome_failed

  if-KeepsCalm :
      {A : Type 0} (b : Bool) (m n : Run A)
      → KeepsCalm Q m
      → KeepsCalm Q n
      → KeepsCalm Q (if b then m else n)
  if-KeepsCalm true m n h k = h
  if-KeepsCalm false m n h k = k

  apply_claimed-KeepsCalm : (p : Platform) (event : Event) → KeepsCalm Q (apply_claimed p id event)
  unfolding apply_claimed
  apply_claimed-KeepsCalm p event =
      if-KeepsCalm (is_handled event.type) _ _
        (bind-KeepsCalm Q _ _
          (same-KeepsCalm Q (attempt (dispatch p event)) (dispatch-SameLedger p event))
          conclude-KeepsCalm)
        (settle_skip-KeepsCalm _)

  decoded-KeepsCalm : (p : Platform) (x : String ⊎ Event) → KeepsCalm Q (replay_decoded p id x)
  decoded-KeepsCalm p (inl text) = settle_skip-KeepsCalm _
  decoded-KeepsCalm p (inr event) = apply_claimed-KeepsCalm p event

  pub replay-KeepsCalm :
      (p : Platform) (row : ProcessedWebhook) → row.event_id ≡ id → KeepsCalm Q (replay_event p row)
  unfolding replay_event
  replay-KeepsCalm p row own = rw own (
      if-KeepsCalm (stored_payload row.payload == "") _ _ (settle_skip-KeepsCalm _)
        (decoded-KeepsCalm p (p.decode_event (stored_payload row.payload))))
