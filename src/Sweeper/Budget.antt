-- ===== src/Sweeper/Budget.antt =====
-- internal/worker/webhook_sweeper.go: the attempts of the rows of the ledger in one pass.
use stripe_payment_service.Prelude.{
  ◌⊎◌, ℕ, zero, suc, ◌≤◌, String, Bool, true, false, inl, inr, none, some, Option, List, [], ◌∷◌,
  arith, All, bytes, ◌==◌,
}
use stripe_payment_service.Prelude.Table.{update_where-All}
use stripe_payment_service.Domain.Errors.{Result, ok, err, Failure}
use stripe_payment_service.Domain.Time.{Time}
use stripe_payment_service.Domain.Webhook.{ProcessedWebhook}
use stripe_payment_service.Truncate.{truncate, failure_reason}
use stripe_payment_service.Logger.{Level}
use stripe_payment_service.Ledger.{
  claim_again, in_flight, retry_guard, set_processed, set_skipped, set_failed,
}
use stripe_payment_service.Ledger.Scans.{LedgerStats, reclaim_abandoned, abandoned_reason}
use stripe_payment_service.Ledger.Constraints.{update_event-All}
use stripe_payment_service.Stripe.Objects.{Event, Platform}
use stripe_payment_service.Billing.{count_in_dunning}
use stripe_payment_service.Run.{World, pure, note, attempt, depart, arrive, statement, ◌>>=◌, ◌>>◌}
use stripe_payment_service.Repository.{
  settled, mark_event_processed, mark_event_skipped, mark_event_failed, claim_event_for_retry,
  reclaim_abandoned_events, list_retryable_events, read_ledger_stats,
  count_subscriptions_in_dunning,
}
use stripe_payment_service.Webhook.Handlers.{
  Outcome, outcome_processed, outcome_duplicate, outcome_skipped, outcome_stale, outcome_failed,
}
use stripe_payment_service.Webhook.Keeps.{dispatch-SameLedger}
use stripe_payment_service.Webhook.Service.{
  is_handled, settle_skip, conclude, apply_claimed, stored_payload, replay_decoded, replay_event,
}
use stripe_payment_service.Sweeper.{
  SweeperConfig, reclaimed_ids, set_dunning, publish, reporting, reclaim_claims, report,
  retry_claimed, retry_event, retry_events, retry_listed, retry_failed, sweep,
}
use stripe_payment_service.Sweeper.Rows.{
  KeepsAll, bind-KeepsAll, on_ledger-KeepsAll, if-KeepsAll, depart-All,
}

-- A row has been tried at most `max` times.
abbrev pub IsWithinBudget : ℕ → ProcessedWebhook → Type 0
IsWithinBudget max r = r.attempts ≤ max

module _ (max : ℕ) where
  noted-KeepsAll :
      {A : Type 0} (l : Level) (message : String) (a : A)
      → KeepsAll (IsWithinBudget max) (do note l message; pure a)
  unfolding ◌>>=◌
  noted-KeepsAll l message a w all = all

  settled-KeepsAll : (op id : String) (n : ℕ) → KeepsAll (IsWithinBudget max) (settled op id n)
  settled-KeepsAll op id zero w all = all
  settled-KeepsAll op id (suc n) w all = all

  mark_processed-KeepsAll : (id : String) → KeepsAll (IsWithinBudget max) (mark_event_processed id)
  unfolding mark_event_processed
  mark_processed-KeepsAll id =
      bind-KeepsAll _ _ _
        (on_ledger-KeepsAll _ _ _
          λ now t. update_event-All _ in_flight (set_processed now) id t (λ r g h. h))
        (settled-KeepsAll _ id)

  mark_skipped-KeepsAll :
      (id reason : String) → KeepsAll (IsWithinBudget max) (mark_event_skipped id reason)
  unfolding mark_event_skipped
  mark_skipped-KeepsAll id reason =
      bind-KeepsAll _ _ _
        (on_ledger-KeepsAll _ _ _ λ now t.
          update_event-All _ in_flight (set_skipped now (truncate (bytes reason))) id t
            (λ r g h. h))
        (settled-KeepsAll _ id)

  mark_failed-KeepsAll :
      (id : String) (e : Failure) → KeepsAll (IsWithinBudget max) (mark_event_failed id e)
  unfolding mark_event_failed
  mark_failed-KeepsAll id e =
      bind-KeepsAll _ _ _
        (on_ledger-KeepsAll _ _ _ λ now t.
          update_event-All _ in_flight (set_failed now (failure_reason (some e))) id t (λ r g h. h))
        (settled-KeepsAll _ id)

  settle_skip-KeepsAll :
      (id reason : String) → KeepsAll (IsWithinBudget max) (settle_skip id reason)
  unfolding settle_skip
  settle_skip-KeepsAll id reason =
      bind-KeepsAll _ _ _ (mark_skipped-KeepsAll id reason) λ u w all. all

  processed-KeepsAll :
      (id : String) (o : Outcome)
      → KeepsAll (IsWithinBudget max) (do attempt (mark_event_processed id); pure o)
  processed-KeepsAll id o = bind-KeepsAll _ _ _ (mark_processed-KeepsAll id) λ u w all. all

  conclude-KeepsAll :
      (id : String) (r : Result Outcome) → KeepsAll (IsWithinBudget max) (conclude id r)
  unfolding conclude
  conclude-KeepsAll id (err e) = bind-KeepsAll _ _ _ (mark_failed-KeepsAll id e) λ u w all. all
  conclude-KeepsAll id (ok outcome_skipped) = settle_skip-KeepsAll id _
  conclude-KeepsAll id (ok outcome_processed) = processed-KeepsAll id outcome_processed
  conclude-KeepsAll id (ok outcome_duplicate) = processed-KeepsAll id outcome_duplicate
  conclude-KeepsAll id (ok outcome_stale) = processed-KeepsAll id outcome_stale
  conclude-KeepsAll id (ok outcome_failed) = processed-KeepsAll id outcome_failed

  apply_claimed-KeepsAll :
      (p : Platform) (id : String) (event : Event)
      → KeepsAll (IsWithinBudget max) (apply_claimed p id event)
  unfolding apply_claimed
  apply_claimed-KeepsAll p id event =
      if-KeepsAll _ (is_handled event.type) _ _
        (bind-KeepsAll _ _ _ (λ w all. rw (dispatch-SameLedger p event w).0 all)
          (conclude-KeepsAll id))
        (settle_skip-KeepsAll id _)

  replay_event-KeepsAll :
      (p : Platform) (row : ProcessedWebhook) → KeepsAll (IsWithinBudget max) (replay_event p row)
  unfolding replay_event
  replay_event-KeepsAll p row =
      if-KeepsAll _ (stored_payload row.payload == "") _ _ (settle_skip-KeepsAll row.event_id _)
        (decoded (p.decode_event (stored_payload row.payload)))
    where
      decoded :
          (x : String ⊎ Event) → KeepsAll (IsWithinBudget max) (replay_decoded p row.event_id x)
      decoded (inl text) = settle_skip-KeepsAll row.event_id _
      decoded (inr event) = apply_claimed-KeepsAll p row.event_id event

  retry_claimed-KeepsAll :
      (p : Platform) (row : ProcessedWebhook) (r : Result Bool)
      → KeepsAll (IsWithinBudget max) (retry_claimed p row r)
  retry_claimed-KeepsAll p row (err e) = noted-KeepsAll _ _ _
  retry_claimed-KeepsAll p row (ok false) = λ w all. all
  retry_claimed-KeepsAll p row (ok true) =
      bind-KeepsAll _ _ _ (replay_event-KeepsAll p _) λ r w all. all

  retry_event-KeepsAll :
      (p : Platform) (row : ProcessedWebhook)
      → KeepsAll (IsWithinBudget max) (retry_event p max row)
  unfolding retry_event claim_event_for_retry
  retry_event-KeepsAll p row =
      bind-KeepsAll _ _ _
        (bind-KeepsAll _ _ _
          (on_ledger-KeepsAll _ _ _ λ now t.
            update_event-All _ (retry_guard max) (claim_again now) row.event_id t
              (λ r g h. ground arith))
          λ n w all. all)
        (retry_claimed-KeepsAll p row)

  retry_events-KeepsAll :
      (p : Platform) (stopping : Time → Bool) (events : List ProcessedWebhook)
      → KeepsAll (IsWithinBudget max) (retry_events p max stopping events)
  unfolding retry_events
  retry_events-KeepsAll p stopping [] = λ w all. all
  retry_events-KeepsAll p stopping (event ∷ events) =
      bind-KeepsAll _ _ _ (λ w all. all)
        λ now.
          if-KeepsAll _ (stopping now) _ _ (λ w all. all)
            (bind-KeepsAll _ _ _ (retry_event-KeepsAll p event) λ one.
              bind-KeepsAll _ _ _ (retry_events-KeepsAll p stopping events) λ rest w all. all)

counting-KeepsAll : (max : ℕ) → KeepsAll (IsWithinBudget max) count_subscriptions_in_dunning
unfolding count_subscriptions_in_dunning statement arrive
counting-KeepsAll max w all = counted (depart w.trips w) (depart-All _ w.trips w all)
  where
    counted :
        (x : Option String × World)
        → All (IsWithinBudget max) x.1.ledger
        → All
            (IsWithinBudget max)
            (arrive "count subscriptions in dunning"
              (λ now w. (ok (count_in_dunning w.subscriptions), w))
              x).1.ledger
    counted (none, v) h = h
    counted (some text, v) h = h

publish-KeepsAll :
    (max : ℕ) (publishing : Bool) (stats : LedgerStats)
    → KeepsAll (IsWithinBudget max) (publish publishing stats)
publish-KeepsAll max false stats = λ w all. all
publish-KeepsAll max true stats =
    bind-KeepsAll _ _ _ (λ w all. all) λ u. bind-KeepsAll _ _ _ (counting-KeepsAll max) set
  where
    set : (n : Result ℕ) → KeepsAll (IsWithinBudget max) (set_dunning n)
    set (err e) = λ w all. all
    set (ok n) = λ w all. all

reporting-KeepsAll :
    (max : ℕ) (c : SweeperConfig) (publishing : Bool) (r : Result LedgerStats)
    → KeepsAll (IsWithinBudget max) (reporting c publishing r)
reporting-KeepsAll max c publishing (err e) = noted-KeepsAll max _ _ _
reporting-KeepsAll max c publishing (ok stats) =
    bind-KeepsAll _ _ _ (publish-KeepsAll max publishing stats)
      λ u. bind-KeepsAll _ _ _ (λ w all. all) λ now. noted-KeepsAll max _ _ _

-- A pass never takes an event past its budget of attempts, whatever calls of the database fail: from a
-- ledger whose rows have been tried at most `max_attempts` times, it leads to one of which the same
-- holds.
pub sweep-IsWithinBudget :
    (p : Platform) (c : SweeperConfig) (publishing : Bool) (stopping : Time → Bool)
    → KeepsAll (IsWithinBudget c.max_attempts) (sweep p c publishing stopping)
unfolding sweep reclaim_claims report reclaim_abandoned_events retry_failed list_retryable_events
    read_ledger_stats reclaim_abandoned
sweep-IsWithinBudget p c publishing stopping =
    bind-KeepsAll _ _ _
      (bind-KeepsAll _ _ _
        (on_ledger-KeepsAll _ _ _
          λ now t. update_where-All _ _ (set_failed now abandoned_reason) t (λ r g h. h))
        reclaimed)
      λ ids.
        bind-KeepsAll _ _ _ (bind-KeepsAll _ _ _ (on_ledger-KeepsAll _ _ _ λ now t all. all) listed)
          λ retries.
            bind-KeepsAll _ _ _
              (bind-KeepsAll _ _ _ (on_ledger-KeepsAll _ _ _ λ now t all. all)
                (reporting-KeepsAll c.max_attempts c publishing))
              λ stats w all. all
  where
    reclaimed :
        (r : Result (List String)) → KeepsAll (IsWithinBudget c.max_attempts) (reclaimed_ids r)
    reclaimed (err e) = noted-KeepsAll c.max_attempts _ _ _
    reclaimed (ok []) = λ w all. all
    reclaimed (ok (id ∷ ids)) = noted-KeepsAll c.max_attempts _ _ _

    listed :
        (r : Result (List ProcessedWebhook))
        → KeepsAll (IsWithinBudget c.max_attempts) (retry_listed p c.max_attempts stopping r)
    listed (err e) = noted-KeepsAll c.max_attempts _ _ _
    listed (ok events) = retry_events-KeepsAll c.max_attempts p stopping events
