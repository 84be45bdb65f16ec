-- ===== src/Billing/Lookup.antt =====
-- What each change does to the row of one subscription.
use mathlib.Core.Option
use stripe_payment_service.Prelude.{
  String, ◌≡◌, refl, inl, inr, Bool, Option, some, arith, ◌==◌, eq_iff, Option-cases, if◌then◌else◌,
}
use stripe_payment_service.Prelude.Table
use stripe_payment_service.Domain.Time.{Time}
use stripe_payment_service.Domain.Subscription.{Subscription}
use stripe_payment_service.Billing.{
  Subscriptions, subscription_key, find_subscription, is_stale, apply_event, inserted_row,
  StatusUpdate, InvoiceUpdate, apply_status, apply_invoice, update_status, record_invoice,
  insert_subscription,
}

abbrev pub accept :
    (Subscription → Option Time)
    → Time
    → (Subscription → Subscription)
    → Subscription
    → Subscription
accept cursor at f s = if is_stale (cursor s) at then s else f s

pub find-apply_event :
    (op id j : String) (cursor : Subscription → Option Time) (at : Time)
    (f : Subscription → Subscription) (t : Subscriptions)
    → ((s : Subscription) → (f s).stripe_subscription_id ≡ s.stripe_subscription_id)
    → find_subscription j (apply_event op id cursor at f t).1 ≡ (
        if id == j
        then Option.map (accept cursor at f) (find_subscription j t)
        else find_subscription j t)
unfolding apply_event
find-apply_event op id j cursor at f t same = elim (Option-cases (find_subscription id t)) [
  | inl e ↦ rw (e, apply_event) (ground (arith, eq_iff id j))
  | inr (s, e) ↦ ground (arith, Table.lookup-update subscription_key j id f t same, eq_iff id j)
]

pub find-update_status :
    (u : StatusUpdate) (j : String) (t : Subscriptions)
    → find_subscription j (update_status u t).1 ≡ (
        if u.stripe_subscription_id == j
        then Option.map
            (accept (λ s. s.last_stripe_event_at) u.event_created_at (apply_status u))
            (find_subscription j t)
        else find_subscription j t)
find-update_status u j t =
    find-apply_event _ u.stripe_subscription_id j (λ s. s.last_stripe_event_at) u.event_created_at
      (apply_status u) t (λ s. refl)

pub find-record_invoice :
    (u : InvoiceUpdate) (j : String) (t : Subscriptions)
    → find_subscription j (record_invoice u t).1 ≡ (
        if u.stripe_subscription_id == j
        then Option.map
            (accept (λ s. s.last_invoice_event_at) u.event_created_at (apply_invoice u))
            (find_subscription j t)
        else find_subscription j t)
find-record_invoice u j t =
    find-apply_event _ u.stripe_subscription_id j (λ s. s.last_invoice_event_at) u.event_created_at
      (apply_invoice u) t (λ s. ground arith)

-- An INSERT adds a row or leaves the table alone.
pub find-insert_subscription :
    (now : Time) (user_exists : Bool) (s : Subscription) (j : String) (t : Subscriptions)
    {r : Subscription}
    → find_subscription j t ≡ some r
    → find_subscription j (insert_subscription now user_exists s t).1 ≡ some r
unfolding insert_subscription
find-insert_subscription now user_exists s j t e =
    elim (Option-cases (find_subscription s.stripe_subscription_id t)) [
      | inl fresh ↦
          rw (fresh, insert_subscription)
            (ground (
              arith,
              e,
              Table.lookup-insert subscription_key j (inserted_row now s) t fresh,
              eq_iff s.stripe_subscription_id j,
            ))
      | inr (old, known) ↦ rw (known, insert_subscription) e
    ]
