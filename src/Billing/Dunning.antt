-- ===== src/Billing/Dunning.antt =====
-- The dunning state of a subscription, and the CHECK constraints of
-- migrations/00004_add_dunning_state.sql.
use stripe_payment_service.Prelude.{
  ℕ, ◌+◌, String, ◌≡◌, refl, ◌∙◌, inl, inr, Bool, false, Option, none, some, List, [], ◌∷◌, map,
  arith, eq_refl, All, nat_eq, is_none, is_some, Option-cases, Bool-cases, if◌then◌else◌,
}
use stripe_payment_service.Prelude.Table
use stripe_payment_service.Domain.Time.{Time}
use stripe_payment_service.Domain.Subscription.{Subscription}
use stripe_payment_service.Billing.{
  Subscriptions, subscription_key, find_subscription, InvoiceUpdate, Change, created, status_event,
  invoice_event, apply_status, apply_invoice, apply_payment, apply_failure, apply_event, is_stale,
  inserted_row, insert_subscription, deliver, deliver_all,
}
use stripe_payment_service.Billing.Lookup.{find-record_invoice}

-- subscriptions_dunning_consistency_chk, and that a reason is stored exactly with the flag.
pub record IsDunningConsistent (s : Subscription) : Type 0 where
  pub counted : is_none s.payment_failed_at ≡ nat_eq s.payment_failure_count 0
  pub explained : is_some s.last_payment_error ≡ is_some s.payment_failed_at

apply_invoice-IsDunningConsistent :
    (u : InvoiceUpdate) (s : Subscription) → IsDunningConsistent (apply_invoice u s)
apply_invoice-IsDunningConsistent u s = elim (Bool-cases u.succeeded) [
  | inl e ↦ rw e (record { counted = refl; explained = refl })
  | inr e ↦ rw e (record { counted = ground arith; explained = refl })
]

apply_event-All :
    (op id : String) (cursor : Subscription → Option Time) (at : Time)
    (f : Subscription → Subscription) (t : Subscriptions)
    → ((s : Subscription) → IsDunningConsistent s → IsDunningConsistent (f s))
    → All IsDunningConsistent t
    → All IsDunningConsistent (apply_event op id cursor at f t).1
unfolding apply_event
apply_event-All op id cursor at f t step h = elim (Option-cases (find_subscription id t)) [
  | inl e ↦ rw (e, apply_event) h
  | inr (s, e) ↦ elim (Bool-cases (is_stale (cursor s) at)) [
    | inl stale ↦ rw (e, stale, apply_event) h
    | inr fresh ↦
        rw (e, fresh, apply_event)
          (Table.update-All subscription_key IsDunningConsistent id f t (λ x found. step x) h)
  ]
]

insert_subscription-All :
    (now : Time) (user_exists : Bool) (s : Subscription) (t : Subscriptions)
    → All IsDunningConsistent t
    → All IsDunningConsistent (insert_subscription now user_exists s t).1
unfolding insert_subscription
insert_subscription-All now user_exists s t h =
    elim (Option-cases (find_subscription s.stripe_subscription_id t)) [
      | inl e ↦ elim (Bool-cases user_exists) [
        | inl yes' ↦
            rw (e, yes', insert_subscription)
              (Table.insert-All subscription_key IsDunningConsistent (inserted_row now s) t
                (record { counted = refl; explained = refl }) h)
        | inr no' ↦ rw (e, no', insert_subscription) h
      ]
      | inr (r, e) ↦ rw (e, insert_subscription) h
    ]

deliver-All :
    (c : Change) (t : Subscriptions)
    → All IsDunningConsistent t
    → All IsDunningConsistent (deliver c t)
unfolding deliver
deliver-All (created now user_exists s) t h = insert_subscription-All now user_exists s t h
deliver-All (status_event u) t h =
    apply_event-All _ u.stripe_subscription_id (λ s. s.last_stripe_event_at) u.event_created_at
      (apply_status u) t (λ s c. record { counted = c.counted; explained = c.explained }) h
deliver-All (invoice_event u) t h =
    apply_event-All _ u.stripe_subscription_id (λ s. s.last_invoice_event_at) u.event_created_at
      (apply_invoice u) t (λ s c. apply_invoice-IsDunningConsistent u s) h

-- From a consistent table, every history of inserts, status events and invoice events, in any
-- order, leads to a consistent one: each row has the time of a failure exactly when its count of
-- failures is not zero, and exactly then it has a reason.
pub deliver_all-IsDunningConsistent :
    (cs : List Change) (t : Subscriptions)
    → All IsDunningConsistent t
    → All IsDunningConsistent (deliver_all cs t)
unfolding deliver_all
deliver_all-IsDunningConsistent [] t h = h
deliver_all-IsDunningConsistent (c ∷ cs) t h =
    deliver_all-IsDunningConsistent cs (deliver c t) (deliver-All c t h)

-- The failures since the last success, counted on from `n`.
abbrev pub consecutive_failures : ℕ → List InvoiceUpdate → ℕ
consecutive_failures n [] = n
consecutive_failures n (u ∷ us) = consecutive_failures (if u.succeeded then 0 else n + 1) us

-- Invoice events of subscription `id`, none older than the one before it or than the cursor.
abbrev pub InOrder : String → Option Time → List InvoiceUpdate → Type 0
InOrder id cursor [] = Unit {0}
InOrder id cursor (u ∷ us) =
    (u.stripe_subscription_id ≡ id)
    × (is_stale cursor u.event_created_at ≡ false)
    × InOrder id (some u.event_created_at) us

abbrev pub HasFailures : ℕ → Option Subscription → Type 0
HasFailures n none = ⊥
HasFailures n (some s) = s.payment_failure_count ≡ n

deliver_invoice :
    (u : InvoiceUpdate) (id : String) (t : Subscriptions) (s : Subscription)
    → u.stripe_subscription_id ≡ id
    → find_subscription id t ≡ some s
    → is_stale s.last_invoice_event_at u.event_created_at ≡ false
    → find_subscription id (deliver (invoice_event u) t) ≡ some (apply_invoice u s)
unfolding deliver
deliver_invoice u id t s same e fresh =
    rw (find-record_invoice u id t, e, same, eq_refl id) (ground (arith, fresh))

-- Invoice events of one recorded subscription, none older than the one before it or than the cursor
-- of the row, leave the count of failures since the last success, counted on from the row's.
pub dunning_count :
    (id : String) (us : List InvoiceUpdate) (t : Subscriptions) (s : Subscription)
    → find_subscription id t ≡ some s
    → InOrder id s.last_invoice_event_at us
    → HasFailures
        (consecutive_failures s.payment_failure_count us)
        (find_subscription id (deliver_all (map invoice_event us) t))
unfolding deliver_all
dunning_count id [] t s e h = rw e refl
dunning_count id (u ∷ us) t s e h =
    let found = deliver_invoice u id t s h.0 e h.1 in
    elim (Bool-cases u.succeeded) [
      | inl paid ↦ simp paid (
          dunning_count id us (deliver (invoice_event u) t) (apply_payment u s)
            (found ∙ rw paid refl) h.2)
      | inr missed ↦ simp missed (
          dunning_count id us (deliver (invoice_event u) t) (apply_failure u s)
            (found ∙ rw missed refl) h.2)
    ]
