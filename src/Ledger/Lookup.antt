-- ===== src/Ledger/Lookup.antt =====
-- What each statement of the ledger does to the row of one event.
use mathlib.Core.Option
use stripe_payment_service.Prelude.{
  ℕ, String, ◌≡◌, refl, inl, inr, Bool, Option, none, some, arith, ◌==◌, eq_iff, Option-cases,
  if◌then◌else◌,
}
use stripe_payment_service.Prelude.Table
use stripe_payment_service.Domain.Time.{Time, Duration}
use stripe_payment_service.Domain.Webhook.{ProcessedWebhook, Delivery}
use stripe_payment_service.Ledger.{
  Ledger, event_key, find_event, claimed_row, claim_again, reclaimable, claim, update_event,
  set_failed,
}
use stripe_payment_service.Ledger.Scans.{
  PurgeQuery, id_among, abandoned, abandoned_reason, reclaim_abandoned, due, purge_row,
  purge_payloads,
}

pub find-update_event :
    (j id : String) (guard : ProcessedWebhook → Bool) (f : ProcessedWebhook → ProcessedWebhook)
    (t : Ledger)
    → ((r : ProcessedWebhook) → (f r).event_id ≡ r.event_id)
    → find_event j (update_event guard f id t).1 ≡ (
        if id == j
        then Option.map (λ r. if guard r then f r else r) (find_event j t)
        else find_event j t)
unfolding update_event
find-update_event j id guard f t same = elim (Option-cases (find_event id t)) [
  | inl e ↦ rw (e, update_event) (ground (arith, eq_iff id j))
  | inr (r, e) ↦ ground (arith, Table.lookup-update event_key j id f t same, eq_iff id j)
]

abbrev pub after_claim : Duration → Time → Delivery → Option ProcessedWebhook → ProcessedWebhook
after_claim stale_after now w none = claimed_row now w
after_claim stale_after now w (some r) =
    if reclaimable stale_after now r then claim_again now r else r

pub find-claim :
    (j : String) (stale_after : Duration) (now : Time) (w : Delivery) (t : Ledger)
    → find_event j (claim stale_after now w t).1 ≡ (
        if w.event_id == j
        then some (after_claim stale_after now w (find_event j t))
        else find_event j t)
unfolding claim
find-claim j stale_after now w t = elim (Option-cases (find_event w.event_id t)) [
  | inl e ↦
      ground (arith, Table.lookup-insert event_key j (claimed_row now w) t, eq_iff w.event_id j)
  | inr (r, e) ↦ ground (
    arith,
    Table.lookup-update event_key j w.event_id (claim_again now) t (λ x. refl),
    eq_iff w.event_id j,
  )
]

pub find-reclaim :
    (j : String) (stale_after : Duration) (limit : ℕ) (now : Time) (t : Ledger)
    → find_event j (reclaim_abandoned stale_after limit now t).1
      ≡ Option.map
          (λ r.
            if id_among (abandoned stale_after limit now t) r
            then set_failed now abandoned_reason r
            else r)
          (find_event j t)
unfolding reclaim_abandoned
find-reclaim j stale_after limit now t =
    Table.lookup-update_where event_key j (id_among (abandoned stale_after limit now t))
      (set_failed now abandoned_reason) t (λ r. refl)

pub find-purge :
    (j : String) (skeleton : String → String) (q : PurgeQuery) (now : Time) (t : Ledger)
    → find_event j (purge_payloads skeleton q now t).1
      ≡ Option.map
          (λ r. if id_among (due q now t) r then purge_row skeleton now r else r)
          (find_event j t)
unfolding purge_payloads
find-purge j skeleton q now t =
    Table.lookup-update_where event_key j (id_among (due q now t)) (purge_row skeleton now) t
      (λ r. refl)
