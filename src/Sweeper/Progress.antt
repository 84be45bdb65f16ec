-- ===== src/Sweeper/Progress.antt =====
-- internal/worker/webhook_sweeper.go: what a pass does to one event, where no call of the database
-- fails and the pass is not told to stop.

use stripe_payment_service.Prelude.{
  ℕ, ◌+◌, ◌≤◌, String, ◌≡◌, refl, ◌∙◌, Bool, true, false, Option, some, [], arith, ◌==◌, eq_refl,
  if◌then◌else◌,
}
use stripe_payment_service.Domain.Errors.{Result, ok, err}
use stripe_payment_service.Domain.Webhook.{ProcessedWebhook}
use stripe_payment_service.Ledger.{
  Ledger, find_event, update_event, in_flight, retry_guard, claim_again,
}
use stripe_payment_service.Ledger.Lookup.{find-update_event}
use stripe_payment_service.Stripe.Objects.{Platform}
use stripe_payment_service.Run.{World, ◌>>=◌}
use stripe_payment_service.Run.Keeps.{statement-calm}
use stripe_payment_service.Repository.{claim_event_for_retry}
use stripe_payment_service.Webhook.Handlers.{
  Outcome, outcome_processed, outcome_duplicate, outcome_skipped, outcome_stale, outcome_failed,
}
use stripe_payment_service.Webhook.Local.{
  KeepsCalm, bind-KeepsCalm, on_ledger-KeepsCalm, IsMark, replay-KeepsCalm,
}
use stripe_payment_service.Webhook.Replay.{replay_event-IsSettledAs}
use stripe_payment_service.Webhook.Settlement.{status_for}
use stripe_payment_service.Webhook.Service.{replay_event}
use stripe_payment_service.Sweeper.{retry_claimed, retry_event}

-- The row of an event, at rest, and tried `n` times at least.
abbrev pub IsAdvanced : String → ℕ → Ledger → Type 0
IsAdvanced j n t =
    (s : ProcessedWebhook) × (find_event j t ≡ some s) × (n ≤ s.attempts) × (in_flight s ≡ false)

-- The row of an event, tried `n` times at least.
abbrev pub IsTried : String → ℕ → Ledger → Type 0
IsTried j n t = (s : ProcessedWebhook) × (find_event j t ≡ some s) × (n ≤ s.attempts)

other-stable :
    (id j : String) (o : Option ProcessedWebhook) (g : ProcessedWebhook → Bool)
    (f : ProcessedWebhook → ProcessedWebhook) (t : Ledger)
    → (id == j) ≡ false
    → ((x : ProcessedWebhook) → (f x).event_id ≡ x.event_id)
    → find_event j t ≡ o
    → find_event j (update_event g f id t).1 ≡ o
other-stable id j o g f t differ keyed e = find-update_event j id g f t keyed ∙ rw differ e

own-stable :
    (id : String) (n : ℕ) (f : ProcessedWebhook → ProcessedWebhook) (t : Ledger)
    → IsMark f
    → IsTried id n t
    → IsTried id n (update_event in_flight f id t).1
own-stable id n f t mark (s, e, h) = (
  (if in_flight s then f s else s),
  find-update_event id id in_flight f t mark.keyed ∙ rw (eq_refl id, e) refl,
  tried (in_flight s),
)
  where
    tried : (b : Bool) → n ≤ (if b then f s else s).attempts
    tried true = rw (mark.tried s) h
    tried false = h

module _ (p : Platform) (max : ℕ) (event : ProcessedWebhook) where
  claimed-KeepsCalm :
      (Q : Ledger → Type 0) (r : Result Bool)
      → KeepsCalm Q (replay_event p (record event { attempts = event.attempts + 1 }))
      → KeepsCalm Q (retry_claimed p event r)
  unfolding ◌>>=◌
  claimed-KeepsCalm Q (err e) k w calm q = (calm, q)
  claimed-KeepsCalm Q (ok false) k w calm q = (calm, q)
  claimed-KeepsCalm Q (ok true) k w calm q = k w calm q

  -- An attempt at one event leaves the rows of all others as they are.
  pub retry_event-other :
      (j : String) (o : Option ProcessedWebhook)
      → (event.event_id == j) ≡ false
      → KeepsCalm (λ t. find_event j t ≡ o) (retry_event p max event)
  unfolding retry_event claim_event_for_retry
  retry_event-other j o differ =
      let Q : Ledger → Type 0 = λ t. find_event j t ≡ o in
      bind-KeepsCalm Q _ _
        (bind-KeepsCalm Q _ _
          (on_ledger-KeepsCalm Q _ _ λ now t e.
            other-stable event.event_id j o (retry_guard max) (claim_again now) t differ (λ x. refl)
              e)
          λ n w calm q. (calm, q))
        λ r. claimed-KeepsCalm Q r (
          replay-KeepsCalm Q event.event_id
            (λ f t mark e. other-stable event.event_id j o in_flight f t differ mark.keyed e) p _
            refl)

  -- At rest: the status that a settlement leaves is not the one of a row in flight.
  at_rest :
      (x : Result Outcome) (s : ProcessedWebhook) → s.status ≡ status_for x → in_flight s ≡ false
  at_rest (err e) s h = rw h refl
  at_rest (ok outcome_processed) s h = rw h refl
  at_rest (ok outcome_duplicate) s h = rw h refl
  at_rest (ok outcome_skipped) s h = rw h refl
  at_rest (ok outcome_stale) s h = rw h refl
  at_rest (ok outcome_failed) s h = rw h refl

  module _ (w : World) (r : ProcessedWebhook) (calm : w.trips ≡ [])
      (found : find_event event.event_id w.ledger ≡ some r) where
    abbrev claiming : World
    claiming = record w {
      ledger = (update_event (retry_guard max) (claim_again w.clock) event.event_id w.ledger).1;
    }

    claimed-found :
        retry_guard max r ≡ true
        → find_event event.event_id claiming.ledger ≡ some (claim_again w.clock r)
    claimed-found guard =
        find-update_event event.event_id event.event_id (retry_guard max) (claim_again w.clock)
          w.ledger (λ x. refl)
        ∙ rw (eq_refl event.event_id, found, guard) refl

    -- The run, once the claim has been decided.
    retry_event-claims :
        (b : Bool)
        → retry_guard max r ≡ b
        → (retry_event p max event w).1 ≡ (retry_claimed p event (ok b) claiming).1
    unfolding retry_event claim_event_for_retry update_event ◌>>=◌
    retry_event-claims true guard =
        rw (statement-calm _ _ w calm) (rw (found, update_event) (rw guard refl))
    retry_event-claims false guard =
        rw (statement-calm _ _ w calm) (rw (found, update_event) (rw guard refl))

    -- An event that may be retried is tried once more and comes to rest.
    pub retry_event-IsAdvanced :
        retry_guard max r ≡ true
        → ((retry_event p max event w).1.trips ≡ [])
          × IsAdvanced event.event_id (r.attempts + 1) (retry_event p max event w).1.ledger
    unfolding ◌>>=◌
    retry_event-IsAdvanced guard =
        let row = record event { attempts = event.attempts + 1 } in
        let id = event.event_id in
        let start = claimed-found guard in
        let tried =
          replay-KeepsCalm (IsTried id (r.attempts + 1)) id (own-stable id (r.attempts + 1)) p row
            refl claiming calm (claim_again w.clock r, start, omega arith) in
        let settled =
          replay_event-IsSettledAs p row claiming (claim_again w.clock r)
            (record { calm = calm; found = start; held = refl }) in
        rw (retry_event-claims true guard) (
          tried.0,
          (
            tried.1.0,
            tried.1.1,
            tried.1.2,
            at_rest (replay_event p row claiming).0 tried.1.0 (rw tried.1.1 at settled),
          ),
        )

    -- One that may not is left as it is.
    pub retry_event-refused :
        retry_guard max r ≡ false
        → ((retry_event p max event w).1.trips ≡ [])
          × (find_event event.event_id (retry_event p max event w).1.ledger ≡ some r)
    retry_event-refused guard = rw (retry_event-claims false guard) (
      calm,
      find-update_event event.event_id event.event_id (retry_guard max) (claim_again w.clock)
            w.ledger (λ x. refl)
          ∙ rw (eq_refl event.event_id, found, guard) refl,
    )
