-- ===== src/Webhook/Replay.antt =====
-- ReplayEvent of internal/service/webhook_service.go, and what the mapping of Stripe's objects gives.
use stripe_payment_service.Prelude.{
  String, ◌≡◌, refl, ◌⊎◌, Bool, true, inl, inr, Option, none, some, arith, ◌==◌, is_some,
  Bool-cases,
}
use stripe_payment_service.Domain.Errors.{Result, ok, err}
use stripe_payment_service.Domain.Status.{SubscriptionStatus, canceled, is_valid, is_canceled}
use stripe_payment_service.Domain.Time.{Time, unix, unix_ptr}
use stripe_payment_service.Domain.Webhook.{ProcessedWebhook}
use stripe_payment_service.Billing.{StatusUpdate}
use stripe_payment_service.Stripe.Objects.{Event, StripeSubscription, Platform, SubscriptionItem}
use stripe_payment_service.Run.{World}
use stripe_payment_service.Webhook.Mapping.{
  primary_item, ensure_canceled_at, update_of, status_of, status_update_of, status_update_from,
}
use stripe_payment_service.Webhook.Service.{stored_payload, replay_decoded, replay_event}
use stripe_payment_service.Webhook.Settlement.{
  Held, IsSettledAs, settle_skip-IsSettledAs, apply_claimed-IsSettledAs,
}

-- Where no call of the database fails, a replay settles the row that the sweeper has claimed as it is
-- reported, also where the row has no payload, or one that cannot be decoded or is of a type that is
-- not handled.
pub replay_event-IsSettledAs :
    (p : Platform) (row : ProcessedWebhook) (w : World) (r : ProcessedWebhook)
    → Held row.event_id w r
    → IsSettledAs row.event_id (replay_event p row w)
unfolding replay_event
replay_event-IsSettledAs p row w r h = elim (Bool-cases (stored_payload row.payload == "")) [
  | inl gone ↦ rw (gone, replay_event) (settle_skip-IsSettledAs row.event_id w r h _)
  | inr kept ↦ rw (kept, replay_event) (decoded (p.decode_event (stored_payload row.payload)))
]
  where
    decoded : (x : String ⊎ Event) → IsSettledAs row.event_id (replay_decoded p row.event_id x w)
    decoded (inl text) = settle_skip-IsSettledAs row.event_id w r h _
    decoded (inr event) = apply_claimed-IsSettledAs p row.event_id event w r h

ensure_canceled_at-some :
    (s : SubscriptionStatus) (at : Option Time) (fallback : Time)
    → is_canceled s ≡ true
    → is_some (ensure_canceled_at s at fallback) ≡ true
ensure_canceled_at-some s none fallback h = rw h refl
ensure_canceled_at-some s (some t) fallback h = rw h refl

-- An update from an event names a known status, which a deletion makes `canceled` whatever the object
-- reports; it carries the id and the time of the event; and a canceled one has a time of cancellation,
-- as the constraint subscriptions_canceled_at_chk demands.
pub status_update_from-IsStorable :
    (sub : StripeSubscription) (event : Event) (deleted : Bool) (u : StatusUpdate)
    → status_update_from sub event deleted ≡ ok u
    → (is_valid u.status ≡ true)
      × (deleted ≡ true → u.status ≡ canceled)
      × (u.event_id ≡ event.id)
      × (u.event_created_at ≡ unix event.created)
      × (is_canceled u.status ≡ true → is_some u.canceled_at ≡ true)
unfolding status_update_from
status_update_from-IsStorable sub event deleted u e = from (primary_item sub) e
  where
    from :
        (x : Result SubscriptionItem)
        → status_update_of sub event deleted x ≡ ok u
        → (is_valid u.status ≡ true)
          × (deleted ≡ true → u.status ≡ canceled)
          × (u.event_id ≡ event.id)
          × (u.event_created_at ≡ unix event.created)
          × (is_canceled u.status ≡ true → is_some u.canceled_at ≡ true)
    from (err f) q = absurd (ground arith)
    from (ok item) q = elim (Bool-cases (is_valid (status_of sub deleted))) [
      | inl known ↦
          let same : update_of sub event item (status_of sub deleted) ≡ u =
            ground (arith, known, q) in
          rw⁻¹ same (
            known,
            (λ gone. rw gone refl),
            refl,
            refl,
            ensure_canceled_at-some (status_of sub deleted) (unix_ptr sub.canceled_at)
                (unix event.created),
          )
      | inr unknown' ↦ absurd (ground (arith, unknown', q))
    ]
