-- ===== src/Billing/Streams.antt =====
-- internal/repository/postgres/subscription_repo.go: the two streams of events, each with a cursor of its
-- own, over whole histories.
use stripe_payment_service.Prelude.{
  ◌+◌, String, ◌≡◌, refl, ap, inl, inr, Bool, true, false, Option, none, some, List, [], ◌∷◌, keep,
  ◌==◌, Option-cases, Bool-cases,
}
use stripe_payment_service.Domain.Subscription.{Subscription}
use stripe_payment_service.Billing.{
  Subscriptions, find_subscription, StatusUpdate, InvoiceUpdate, Change, created, status_event,
  invoice_event, is_stale, apply_status, apply_invoice, deliver, deliver_all,
}
use stripe_payment_service.Billing.Lookup.{
  accept, find-update_status, find-record_invoice, find-insert_subscription,
}

abbrev pub is_invoice_event : Change → Bool
is_invoice_event (invoice_event u) = true
is_invoice_event c = false

abbrev pub is_status_event : Change → Bool
is_status_event (status_event u) = true
is_status_event c = false

-- The columns that only invoice.* events write agree: the dunning state and the cursor.
pub record SameDunning (r s : Subscription) : Type 0 where
  pub payment_failed_at : r.payment_failed_at ≡ s.payment_failed_at
  pub payment_failure_count : r.payment_failure_count ≡ s.payment_failure_count
  pub last_payment_error : r.last_payment_error ≡ s.last_payment_error
  pub next_payment_attempt_at : r.next_payment_attempt_at ≡ s.next_payment_attempt_at
  pub last_invoice_event_at : r.last_invoice_event_at ≡ s.last_invoice_event_at
  pub last_invoice_event_id : r.last_invoice_event_id ≡ s.last_invoice_event_id

-- The columns that only customer.subscription.* events write agree.
pub record SameLifecycle (r s : Subscription) : Type 0 where
  pub status : r.status ≡ s.status
  pub cancel_at_period_end : r.cancel_at_period_end ≡ s.cancel_at_period_end
  pub cancel_at : r.cancel_at ≡ s.cancel_at
  pub canceled_at : r.canceled_at ≡ s.canceled_at
  pub ended_at : r.ended_at ≡ s.ended_at
  pub trial_end : r.trial_end ≡ s.trial_end
  pub stripe_price_id : r.stripe_price_id ≡ s.stripe_price_id
  pub quantity : r.quantity ≡ s.quantity
  pub default_payment_method_id : r.default_payment_method_id ≡ s.default_payment_method_id
  pub last_stripe_event_at : r.last_stripe_event_at ≡ s.last_stripe_event_at
  pub last_stripe_event_id : r.last_stripe_event_id ≡ s.last_stripe_event_id

-- Both rows are there, and agree.
abbrev pub Agree :
    (Subscription → Subscription → Type 0) → Option Subscription → Option Subscription → Type 0
Agree R (some r) (some s) = R r s
Agree R none o = ⊥
Agree R (some r) none = ⊥

module _ (u : InvoiceUpdate) (r s : Subscription) where
  invoice-SameDunning :
      SameDunning r s
      → SameDunning
          (accept (λ x. x.last_invoice_event_at) u.event_created_at (apply_invoice u) r)
          (accept (λ x. x.last_invoice_event_at) u.event_created_at (apply_invoice u) s)
  invoice-SameDunning h = elim (Bool-cases (is_stale s.last_invoice_event_at u.event_created_at)) [
    | inl old ↦
        let stale : is_stale r.last_invoice_event_at u.event_created_at ≡ true =
          rw h.last_invoice_event_at old in
        rw (stale, old) h
    | inr new ↦
        let fresh : is_stale r.last_invoice_event_at u.event_created_at ≡ false =
          rw h.last_invoice_event_at new in
        rw (fresh, new) (applied u.succeeded)
  ]
    where
      applied :
          (b : Bool)
          → SameDunning
              (apply_invoice (record u { succeeded = b }) r)
              (apply_invoice (record u { succeeded = b }) s)
      applied true = record {
        payment_failed_at = refl;
        payment_failure_count = refl;
        last_payment_error = refl;
        next_payment_attempt_at = refl;
        last_invoice_event_at = refl;
        last_invoice_event_id = refl;
      }
      applied false = record {
        payment_failed_at = refl;
        payment_failure_count = ap (λ n. n + 1) h.payment_failure_count;
        last_payment_error = refl;
        next_payment_attempt_at = refl;
        last_invoice_event_at = refl;
        last_invoice_event_id = refl;
      }

  invoice-SameLifecycle :
      SameLifecycle r s
      → SameLifecycle
          (accept (λ x. x.last_invoice_event_at) u.event_created_at (apply_invoice u) r)
          s
  invoice-SameLifecycle h =
      elim (Bool-cases (is_stale r.last_invoice_event_at u.event_created_at)) [
        | inl old ↦ rw old h
        | inr new ↦ rw new (applied u.succeeded)
      ]
    where
      applied : (b : Bool) → SameLifecycle (apply_invoice (record u { succeeded = b }) r) s
      applied true = record {
        status = h.status;
        cancel_at_period_end = h.cancel_at_period_end;
        cancel_at = h.cancel_at;
        canceled_at = h.canceled_at;
        ended_at = h.ended_at;
        trial_end = h.trial_end;
        stripe_price_id = h.stripe_price_id;
        quantity = h.quantity;
        default_payment_method_id = h.default_payment_method_id;
        last_stripe_event_at = h.last_stripe_event_at;
        last_stripe_event_id = h.last_stripe_event_id;
      }
      applied false = record {
        status = h.status;
        cancel_at_period_end = h.cancel_at_period_end;
        cancel_at = h.cancel_at;
        canceled_at = h.canceled_at;
        ended_at = h.ended_at;
        trial_end = h.trial_end;
        stripe_price_id = h.stripe_price_id;
        quantity = h.quantity;
        default_payment_method_id = h.default_payment_method_id;
        last_stripe_event_at = h.last_stripe_event_at;
        last_stripe_event_id = h.last_stripe_event_id;
      }

module _ (u : StatusUpdate) (r s : Subscription) where
  status-SameDunning :
      SameDunning r s
      → SameDunning (accept (λ x. x.last_stripe_event_at) u.event_created_at (apply_status u) r) s
  status-SameDunning h = elim (Bool-cases (is_stale r.last_stripe_event_at u.event_created_at)) [
    | inl old ↦ rw old h
    | inr new ↦ rw new record {
      payment_failed_at = h.payment_failed_at;
      payment_failure_count = h.payment_failure_count;
      last_payment_error = h.last_payment_error;
      next_payment_attempt_at = h.next_payment_attempt_at;
      last_invoice_event_at = h.last_invoice_event_at;
      last_invoice_event_id = h.last_invoice_event_id;
    }
  ]

  status-SameLifecycle :
      SameLifecycle r s
      → SameLifecycle
          (accept (λ x. x.last_stripe_event_at) u.event_created_at (apply_status u) r)
          (accept (λ x. x.last_stripe_event_at) u.event_created_at (apply_status u) s)
  status-SameLifecycle h = elim (Bool-cases (is_stale s.last_stripe_event_at u.event_created_at)) [
    | inl old ↦
        let stale : is_stale r.last_stripe_event_at u.event_created_at ≡ true =
          rw h.last_stripe_event_at old in
        rw (stale, old) h
    | inr new ↦
        let fresh : is_stale r.last_stripe_event_at u.event_created_at ≡ false =
          rw h.last_stripe_event_at new in
        rw (fresh, new)
          record {
            status = refl;
            cancel_at_period_end = rw h.cancel_at_period_end refl;
            cancel_at = rw h.cancel_at refl;
            canceled_at = rw h.canceled_at refl;
            ended_at = rw h.ended_at refl;
            trial_end = rw h.trial_end refl;
            stripe_price_id = rw h.stripe_price_id refl;
            quantity = rw h.quantity refl;
            default_payment_method_id = rw h.default_payment_method_id refl;
            last_stripe_event_at = refl;
            last_stripe_event_id = refl;
          }
  ]

module _ (id : String) where
  deliver-SameDunning :
      (c : Change) (t : Subscriptions) (r s : Subscription)
      → find_subscription id t ≡ some r
      → is_invoice_event c ≡ false
      → SameDunning r s
      → Agree SameDunning (find_subscription id (deliver c t)) (some s)
  unfolding deliver
  deliver-SameDunning (created now x n) t r s e k h = rw (find-insert_subscription now x n id t e) h
  deliver-SameDunning (status_event u) t r s e k h =
      rw (find-update_status u id t, e)
        (elim (Bool-cases (u.stripe_subscription_id == id)) [
          | inl own ↦ rw own (status-SameDunning u r s h)
          | inr other ↦ rw other h
        ])
  deliver-SameDunning (invoice_event u) t r s e k h = absurd (cc k)

  deliver-SameLifecycle :
      (c : Change) (t : Subscriptions) (r s : Subscription)
      → find_subscription id t ≡ some r
      → is_status_event c ≡ false
      → SameLifecycle r s
      → Agree SameLifecycle (find_subscription id (deliver c t)) (some s)
  unfolding deliver
  deliver-SameLifecycle (created now x n) t r s e k h =
      rw (find-insert_subscription now x n id t e) h
  deliver-SameLifecycle (invoice_event u) t r s e k h =
      rw (find-record_invoice u id t, e)
        (elim (Bool-cases (u.stripe_subscription_id == id)) [
          | inl own ↦ rw own (invoice-SameLifecycle u r s h)
          | inr other ↦ rw other h
        ])
  deliver-SameLifecycle (status_event u) t r s e k h = absurd (cc k)

  both-SameDunning :
      (c : Change) (t t' : Subscriptions) (r s : Subscription)
      → find_subscription id t ≡ some r
      → find_subscription id t' ≡ some s
      → is_invoice_event c ≡ true
      → SameDunning r s
      → Agree SameDunning (find_subscription id (deliver c t)) (find_subscription id (deliver c t'))
  unfolding deliver
  both-SameDunning (invoice_event u) t t' r s e e' k h =
      rw (find-record_invoice u id t, e, find-record_invoice u id t', e')
        (elim (Bool-cases (u.stripe_subscription_id == id)) [
          | inl own ↦ rw own (invoice-SameDunning u r s h)
          | inr other ↦ rw other h
        ])
  both-SameDunning (created now x n) t t' r s e e' k h = absurd (cc k)
  both-SameDunning (status_event u) t t' r s e e' k h = absurd (cc k)

  both-SameLifecycle :
      (c : Change) (t t' : Subscriptions) (r s : Subscription)
      → find_subscription id t ≡ some r
      → find_subscription id t' ≡ some s
      → is_status_event c ≡ true
      → SameLifecycle r s
      → Agree SameLifecycle
          (find_subscription id (deliver c t))
          (find_subscription id (deliver c t'))
  unfolding deliver
  both-SameLifecycle (status_event u) t t' r s e e' k h =
      rw (find-update_status u id t, e, find-update_status u id t', e')
        (elim (Bool-cases (u.stripe_subscription_id == id)) [
          | inl own ↦ rw own (status-SameLifecycle u r s h)
          | inr other ↦ rw other h
        ])
  both-SameLifecycle (created now x n) t t' r s e e' k h = absurd (cc k)
  both-SameLifecycle (invoice_event u) t t' r s e e' k h = absurd (cc k)

  -- Two histories agree, of which the second has the events of one stream only.
  deliver_all-Agree :
      (R : Subscription → Subscription → Type 0) (mine : Change → Bool)
      → ((c : Change) (t t' : Subscriptions) (r s : Subscription)
          → find_subscription id t ≡ some r
          → find_subscription id t' ≡ some s
          → mine c ≡ true
          → R r s
          → Agree R (find_subscription id (deliver c t)) (find_subscription id (deliver c t')))
      → ((c : Change) (t : Subscriptions) (r s : Subscription)
          → find_subscription id t ≡ some r
          → mine c ≡ false
          → R r s
          → Agree R (find_subscription id (deliver c t)) (some s))
      → (cs : List Change) (t t' : Subscriptions)
      → Agree R (find_subscription id t) (find_subscription id t')
      → Agree R
          (find_subscription id (deliver_all cs t))
          (find_subscription id (deliver_all (keep mine cs) t'))
  unfolding deliver_all
  deliver_all-Agree R mine both one [] t t' h = h
  deliver_all-Agree R mine both one (c ∷ cs) t t' h = elim (Option-cases (find_subscription id t)) [
    | inl e ↦ absurd (rw e at h)
    | inr (r, e) ↦ elim (Option-cases (find_subscription id t')) [
      | inl e' ↦ absurd (rw (e, e') at h)
      | inr (s, e') ↦
          let related : R r s = rw (e, e') at h in
          elim (Bool-cases (mine c)) [
            | inl own ↦ rw own (
                deliver_all-Agree R mine both one cs (deliver c t) (deliver c t')
                  (both c t t' r s e e' own related))
            | inr other ↦ rw other (
                deliver_all-Agree R mine both one cs (deliver c t) t'
                  (rw e' (one c t r s e other related)))
          ]
    ]
  ]

  -- Neither stream of events disturbs the other. For a recorded subscription and any history of inserts,
  -- status events and invoice events of any subscriptions, the dunning state and the cursor of invoice events
  -- end up as if only the invoice events had been delivered; and the status, the cancellation, the trial,
  -- the price, the quantity, the payment method and the cursor of status events end up as if only the status
  -- events had been. The billing period and the latest invoice are written by both streams, and not among
  -- these columns.
  pub streams_independent :
      (cs : List Change) (t : Subscriptions) (s : Subscription)
      → find_subscription id t ≡ some s
      → Agree SameDunning
          (find_subscription id (deliver_all cs t))
          (find_subscription id (deliver_all (keep is_invoice_event cs) t))
        × Agree SameLifecycle
            (find_subscription id (deliver_all cs t))
            (find_subscription id (deliver_all (keep is_status_event cs) t))
  streams_independent cs t s e = (
    deliver_all-Agree SameDunning is_invoice_event both-SameDunning deliver-SameDunning cs t t (
        rw e (record {
          payment_failed_at = refl;
          payment_failure_count = refl;
          last_payment_error = refl;
          next_payment_attempt_at = refl;
          last_invoice_event_at = refl;
          last_invoice_event_id = refl;
        })),
    deliver_all-Agree SameLifecycle is_status_event both-SameLifecycle deliver-SameLifecycle cs t t
        (rw e (record {
          status = refl;
          cancel_at_period_end = refl;
          cancel_at = refl;
          canceled_at = refl;
          ended_at = refl;
          trial_end = refl;
          stripe_price_id = refl;
          quantity = refl;
          default_payment_method_id = refl;
          last_stripe_event_at = refl;
          last_stripe_event_id = refl;
        })),
  )
