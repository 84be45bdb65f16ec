-- ===== src/Billing/Order.antt =====
-- Events that arrive out of order, and the two event streams of one subscription.
use stripe_payment_service.Prelude.{
  ◌≤◌, ◌<◌, String, ◌≡◌, ◌≢◌, ◌⊎◌, refl, inl, inr, Option, none, some, List, [], ◌∷◌, ◌++◌, arith,
  All, eq_iff, eq_refl, false, Option-cases,
}
use stripe_payment_service.Domain.Time.{Time}
use stripe_payment_service.Domain.Subscription.{Subscription}
use stripe_payment_service.Billing.{
  Subscriptions, find_subscription, StatusUpdate, Change, created, status_event, invoice_event,
  is_stale, deliver, deliver_all,
}
use stripe_payment_service.Billing.Lookup.{
  find-update_status, find-record_invoice, find-insert_subscription,
}
use stripe_payment_service.Truncate.{null_if_empty}

-- A change that, if it is a status event of subscription `id`, is no newer than `bound`.
abbrev pub UpTo : String → Time → Change → Type 0
UpTo id bound (status_event u) = (u.stripe_subscription_id ≢ id) ⊎ (u.event_created_at ≤ bound)
UpTo id bound _ = Unit

-- The same, and strictly older.
abbrev pub OlderThan : String → Time → Change → Type 0
OlderThan id bound (status_event u) = (u.stripe_subscription_id ≢ id) ⊎ (u.event_created_at < bound)
OlderThan id bound _ = Unit

-- The row is there, and its cursor of status events is not past `bound`.
abbrev pub CursorUpTo : Time → Option Subscription → Type 0
CursorUpTo bound none = ⊥
CursorUpTo bound (some s) = is_stale s.last_stripe_event_at bound ≡ false

-- The row is there, and shows the status and the cursor of the event `n`.
abbrev pub Shows : StatusUpdate → Option Subscription → Type 0
Shows n none = ⊥
Shows n (some s) =
    (s.status ≡ n.status)
    × (s.last_stripe_event_at ≡ some n.event_created_at)
    × (s.last_stripe_event_id ≡ null_if_empty n.event_id)

deliver-CursorUpTo :
    (id : String) (bound : Time) (c : Change) (t : Subscriptions) (s : Subscription)
    → UpTo id bound c
    → find_subscription id t ≡ some s
    → is_stale s.last_stripe_event_at bound ≡ false
    → CursorUpTo bound (find_subscription id (deliver c t))
unfolding deliver
deliver-CursorUpTo id bound (created now x r) t s h e k =
    rw (find-insert_subscription now x r id t e) k
deliver-CursorUpTo id bound (status_event u) t s h e k =
    rw (find-update_status u id t, e) (ground (arith, eq_iff u.stripe_subscription_id id))
deliver-CursorUpTo id bound (invoice_event u) t s h e k =
    rw (find-record_invoice u id t, e) (ground arith)

deliver_all-CursorUpTo :
    (id : String) (bound : Time) (cs : List Change) (t : Subscriptions)
    → All (UpTo id bound) cs
    → CursorUpTo bound (find_subscription id t)
    → CursorUpTo bound (find_subscription id (deliver_all cs t))
unfolding deliver_all
deliver_all-CursorUpTo id bound [] t h k = k
deliver_all-CursorUpTo id bound (c ∷ cs) t h k = elim (Option-cases (find_subscription id t)) [
  | inl e ↦ absurd (rw e at k)
  | inr (s, e) ↦
      deliver_all-CursorUpTo id bound cs (deliver c t) h.1
        (deliver-CursorUpTo id bound c t s h.0 e (rw e at k))
]

deliver-Shows :
    (id : String) (n : StatusUpdate) (c : Change) (t : Subscriptions) (s : Subscription)
    → OlderThan id n.event_created_at c
    → find_subscription id t ≡ some s
    → Shows n (some s)
    → Shows n (find_subscription id (deliver c t))
unfolding deliver
deliver-Shows id n (created now x r) t s h e k = rw (find-insert_subscription now x r id t e) k
deliver-Shows id n (status_event u) t s h e k =
    rw (find-update_status u id t, e) (ground (arith, eq_iff u.stripe_subscription_id id))
deliver-Shows id n (invoice_event u) t s h e k = rw (find-record_invoice u id t, e) (ground arith)

deliver_all-Shows :
    (id : String) (n : StatusUpdate) (cs : List Change) (t : Subscriptions)
    → All (OlderThan id n.event_created_at) cs
    → Shows n (find_subscription id t)
    → Shows n (find_subscription id (deliver_all cs t))
unfolding deliver_all
deliver_all-Shows id n [] t h k = k
deliver_all-Shows id n (c ∷ cs) t h k = elim (Option-cases (find_subscription id t)) [
  | inl e ↦ absurd (rw e at k)
  | inr (s, e) ↦
      deliver_all-Shows id n cs (deliver c t) h.1 (deliver-Shows id n c t s h.0 e (rw e at k))
]

newest-Shows :
    (n : StatusUpdate) (t : Subscriptions)
    → CursorUpTo n.event_created_at (find_subscription n.stripe_subscription_id t)
    → Shows n (find_subscription n.stripe_subscription_id (deliver (status_event n) t))
unfolding deliver
newest-Shows n t k = elim (Option-cases (find_subscription n.stripe_subscription_id t)) [
  | inl e ↦ absurd (rw e at k)
  | inr (s, e) ↦
      rw (find-update_status n n.stripe_subscription_id t, e, eq_refl n.stripe_subscription_id)
        (ground (arith, (rw e at k)))
]

deliver_all-append :
    (cs ds : List Change) (t : Subscriptions)
    → deliver_all (cs ++ ds) t ≡ deliver_all ds (deliver_all cs t)
unfolding deliver_all
deliver_all-append [] ds t = refl
deliver_all-append (c ∷ cs) ds t = deliver_all-append cs ds (deliver c t)

-- Whatever the order of delivery, a recorded subscription ends up with the status of its newest
-- event, and with that event's id and time as its cursor. The newest event is one that no status
-- event of the subscription delivered before it exceeds in time, and that all delivered after it
-- are strictly older than; other changes, invoice events and events of other subscriptions among
-- them, may stand anywhere.
pub newest_event_wins :
    (n : StatusUpdate) (earlier later : List Change) (t : Subscriptions)
    → CursorUpTo n.event_created_at (find_subscription n.stripe_subscription_id t)
    → All (UpTo n.stripe_subscription_id n.event_created_at) earlier
    → All (OlderThan n.stripe_subscription_id n.event_created_at) later
    → Shows n (
        find_subscription n.stripe_subscription_id
          (deliver_all (earlier ++ (status_event n ∷ later)) t))
newest_event_wins n earlier later t known before after =
    rw (deliver_all-append earlier (status_event n ∷ later) t) (
      unfold deliver_all in
      deliver_all-Shows n.stripe_subscription_id n later _ after (
        newest-Shows n (deliver_all earlier t) (
          deliver_all-CursorUpTo n.stripe_subscription_id n.event_created_at earlier t before
            known)))
