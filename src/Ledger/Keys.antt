-- ===== src/Ledger/Keys.antt =====
-- internal/repository/postgres/webhook_repo.go: the primary key of the ledger over a history of
-- statements.
use stripe_payment_service.Prelude.{
  String, ◌≡◌, refl, inl, inr, Bool, List, [], ◌∷◌, Option-cases, Bool-cases,
}
use stripe_payment_service.Prelude.Table
use stripe_payment_service.Domain.Time.{Time, Duration}
use stripe_payment_service.Domain.Webhook.{ProcessedWebhook, Delivery}
use stripe_payment_service.Ledger.{
  Ledger, event_key, find_event, claimed_row, claim_again, reclaimable, claim, update_event,
  set_failed,
}
use stripe_payment_service.Ledger.Scans.{
  abandoned_reason, reclaim_abandoned, purge_row, purge_payloads,
}
use stripe_payment_service.Ledger.History.{
  Statement, try_claim, mark_processed, mark_skipped, mark_failed, retry_claim, reclaim, purge,
  execute, replay,
}

abbrev pub Unique : Ledger → Type 0
Unique = Table.Unique event_key

claim-Unique :
    (stale_after : Duration) (now : Time) (w : Delivery) (t : Ledger)
    → Unique t
    → Unique (claim stale_after now w t).1
unfolding claim
claim-Unique stale_after now w t u = elim (Option-cases (find_event w.event_id t)) [
  | inl e ↦ rw (e, claim) (Table.Unique-insert event_key (claimed_row now w) t e u)
  | inr (r, e) ↦ elim (Bool-cases (reclaimable stale_after now r)) [
    | inl again ↦
        rw (e, again, claim)
          (Table.Unique-update event_key w.event_id (claim_again now) t (λ x. refl) u)
    | inr held ↦ rw (e, held, claim) u
  ]
]

update_event-Unique :
    (guard : ProcessedWebhook → Bool) (f : ProcessedWebhook → ProcessedWebhook) (id : String)
    (t : Ledger)
    → ((r : ProcessedWebhook) → (f r).event_id ≡ r.event_id)
    → Unique t
    → Unique (update_event guard f id t).1
unfolding update_event
update_event-Unique guard f id t same u = elim (Option-cases (find_event id t)) [
  | inl e ↦ rw (e, update_event) u
  | inr (r, e) ↦ elim (Bool-cases (guard r)) [
    | inl passes ↦ rw (e, passes, update_event) (Table.Unique-update event_key id f t same u)
    | inr fails ↦ rw (e, fails, update_event) u
  ]
]

module _ (skeleton : String → String) where
  pub execute-Unique :
      (now : Time) (s : Statement) (t : Ledger) → Unique t → Unique (execute skeleton now s t)
  unfolding execute reclaim_abandoned purge_payloads
  execute-Unique now (try_claim d w) t u = claim-Unique d now w t u
  execute-Unique now (mark_processed id) t u = update_event-Unique _ _ id t (λ r. refl) u
  execute-Unique now (mark_skipped reason id) t u = update_event-Unique _ _ id t (λ r. refl) u
  execute-Unique now (mark_failed reason id) t u = update_event-Unique _ _ id t (λ r. refl) u
  execute-Unique now (retry_claim max id) t u = update_event-Unique _ _ id t (λ r. refl) u
  execute-Unique now (reclaim d limit) t u =
      Table.Unique-update_where event_key _ (set_failed now abandoned_reason) t (λ r. refl) u
  execute-Unique now (purge q) t u =
      Table.Unique-update_where event_key _ (purge_row skeleton now) t (λ r. refl) u

  pub replay-Unique :
      (h : List (Time × Statement)) (t : Ledger) → Unique t → Unique (replay skeleton h t)
  unfolding replay
  replay-Unique [] t u = u
  replay-Unique ((now, s) ∷ h) t u =
      replay-Unique h (execute skeleton now s t) (execute-Unique now s t u)
