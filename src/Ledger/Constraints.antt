-- ===== src/Ledger/Constraints.antt =====
-- The statements of internal/repository/postgres/webhook_repo.go against the CHECK constraints of
-- migrations/00003_create_processed_webhooks_table.sql.
use stripe_payment_service.Prelude.{
  ◌≤◌, String, ◌≡◌, refl, inl, inr, Bool, true, false, List, [], ◌∷◌, arith, is_some, All,
  Option-cases, Bool-cases,
}
use stripe_payment_service.Prelude.Table
use stripe_payment_service.Prelude.Table.{update_where-All}
use stripe_payment_service.Domain.Status.{is_settled, is_failed}
use stripe_payment_service.Domain.Time.{Time, Duration}
use stripe_payment_service.Domain.Webhook.{ProcessedWebhook, Delivery}
use stripe_payment_service.Ledger.{
  Ledger, event_key, find_event, claimed_row, claim_again, reclaimable, claim, update_event,
  in_flight, retry_guard, set_processed, set_skipped, set_failed,
}
use stripe_payment_service.Ledger.Scans.{
  abandoned_reason, reclaim_abandoned, purge_row, purge_payloads,
}
use stripe_payment_service.Ledger.History.{
  Statement, try_claim, mark_processed, mark_skipped, mark_failed, retry_claim, reclaim, purge,
  execute, replay,
}

-- processed_webhooks_processed_at_chk, processed_webhooks_last_error_chk and
-- processed_webhooks_attempts_positive_chk
pub record IsWellFormed (r : ProcessedWebhook) : Type 0 where
  pub stamped : is_some r.processed_at ≡ is_settled r.status
  pub explained : is_failed r.status ≡ true → is_some r.last_error ≡ true
  pub counted : 1 ≤ r.attempts

claimed_row-IsWellFormed : (now : Time) (w : Delivery) → IsWellFormed (claimed_row now w)
claimed_row-IsWellFormed now w = record {
  stamped = refl;
  explained = λ e. ground arith;
  counted = omega arith;
}

claim_again-IsWellFormed :
    (now : Time) (r : ProcessedWebhook)
    → is_settled r.status ≡ false
    → IsWellFormed r
    → IsWellFormed (claim_again now r)
claim_again-IsWellFormed now r loose h = record {
  stamped = ground arith;
  explained = λ e. ground arith;
  counted = omega arith;
}

pub update_event-All :
    (P : ProcessedWebhook → Type 0) (guard : ProcessedWebhook → Bool)
    (f : ProcessedWebhook → ProcessedWebhook) (id : String) (t : Ledger)
    → ((r : ProcessedWebhook) → guard r ≡ true → P r → P (f r))
    → All P t
    → All P (update_event guard f id t).1
unfolding update_event
update_event-All P guard f id t step h = elim (Option-cases (find_event id t)) [
  | inl e ↦ rw (e, update_event) h
  | inr (r, e) ↦ elim (Bool-cases (guard r)) [
    | inl passes ↦
        rw (e, passes, update_event)
          (Table.update-All event_key P id f t
            (λ x found w. step x (ground (arith, passes, e, found)) w) h)
    | inr fails ↦ rw (e, fails, update_event) h
  ]
]

claim-All :
    (stale_after : Duration) (now : Time) (w : Delivery) (t : Ledger)
    → All IsWellFormed t
    → All IsWellFormed (claim stale_after now w t).1
unfolding claim
claim-All stale_after now w t h = elim (Option-cases (find_event w.event_id t)) [
  | inl e ↦
      rw (e, claim) (Table.insert-All event_key IsWellFormed _ t (claimed_row-IsWellFormed now w) h)
  | inr (r, e) ↦ elim (Bool-cases (reclaimable stale_after now r)) [
    | inl again ↦
        rw (e, again, claim)
          (Table.update-All event_key IsWellFormed w.event_id (claim_again now) t
            (λ x found wf. claim_again-IsWellFormed now x (ground (arith, again, e, found)) wf) h)
    | inr held ↦ rw (e, held, claim) h
  ]
]

module _ (skeleton : String → String) where
  execute-All :
      (now : Time) (s : Statement) (t : Ledger)
      → All IsWellFormed t
      → All IsWellFormed (execute skeleton now s t)
  unfolding execute reclaim_abandoned purge_payloads
  execute-All now (try_claim d w) t h = claim-All d now w t h
  execute-All now (mark_processed id) t h =
      update_event-All IsWellFormed in_flight (set_processed now) id t
        (λ r g wf. record { stamped = refl; explained = λ e. ground arith; counted = wf.counted }) h
  execute-All now (mark_skipped reason id) t h =
      update_event-All IsWellFormed in_flight (set_skipped now reason) id t
        (λ r g wf. record { stamped = refl; explained = λ e. refl; counted = wf.counted }) h
  execute-All now (mark_failed reason id) t h =
      update_event-All IsWellFormed in_flight (set_failed now reason) id t
        (λ r g wf. record { stamped = refl; explained = λ e. refl; counted = wf.counted }) h
  execute-All now (retry_claim max id) t h =
      update_event-All IsWellFormed (retry_guard max) (claim_again now) id t
        (λ r g wf. claim_again-IsWellFormed now r (ground arith) wf) h
  execute-All now (reclaim d limit) t h =
      update_where-All IsWellFormed _ (set_failed now abandoned_reason) t
        (λ r g wf. record { stamped = refl; explained = λ e. refl; counted = wf.counted }) h
  execute-All now (purge q) t h =
      update_where-All IsWellFormed _ (purge_row skeleton now) t
        (λ r g wf. record { stamped = wf.stamped; explained = wf.explained; counted = wf.counted })
        h

  -- From a well-formed ledger every history leads to a well-formed one: a row has a time of
  -- processing exactly when it is settled, a failed row has a reason, and attempts are at least one.
  pub replay-IsWellFormed :
      (h : List (Time × Statement)) (t : Ledger)
      → All IsWellFormed t
      → All IsWellFormed (replay skeleton h t)
  unfolding replay
  replay-IsWellFormed [] t w = w
  replay-IsWellFormed ((now, s) ∷ later) t w =
      replay-IsWellFormed later (execute skeleton now s t) (execute-All now s t w)
