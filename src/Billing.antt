-- ===== src/Billing.antt =====
-- internal/repository/postgres/subscription_repo.go: what its statements do to the table
-- `subscriptions`, whose unique key is Stripe's subscription id.
pub mod Lookup
pub mod Order
pub mod Streams
pub mod Dunning
pub mod Tests
use stripe_payment_service.Prelude.{
  ℕ, ◌+◌, String, Bool, true, false, Option, none, some, List, [], ◌∷◌, bytes, coalesce,
  coalesce_null, count_where, is_some, if◌then◌else◌,
}
use stripe_payment_service.Prelude.Int.{ℤ}
use stripe_payment_service.Prelude.Table
use stripe_payment_service.Domain.Errors.{
  Result, ok, err, Failure, sentinel_failure, map_error, DriverError, no_rows, pg, stale_event,
}
use stripe_payment_service.Domain.Status.{SubscriptionStatus}
use stripe_payment_service.Domain.Time.{Time, before}
use stripe_payment_service.Domain.Subscription.{Subscription, Uuid}
use stripe_payment_service.Truncate.{truncate, deref_or, null_if_empty}

abbrev pub Subscriptions : Type 0
Subscriptions = List Subscription

abbrev pub subscription_key : Subscription → String
subscription_key s = s.stripe_subscription_id

abbrev pub find_subscription : String → Subscriptions → Option Subscription
find_subscription = Table.lookup subscription_key

-- SubscriptionStatusUpdate: one customer.subscription.* event.
pub record StatusUpdate : Type 0 where
  pub stripe_subscription_id : String
  pub status : SubscriptionStatus
  pub event_id : String
  pub event_created_at : Time
  pub current_period_start : Option Time
  pub current_period_end : Option Time
  pub cancel_at_period_end : Option Bool
  pub cancel_at : Option Time
  pub canceled_at : Option Time
  pub ended_at : Option Time
  pub trial_end : Option Time
  pub stripe_price_id : Option String
  pub quantity : Option ℤ
  pub latest_invoice_id : Option String
  pub default_payment_method_id : Option String

-- InvoicePaymentUpdate: one invoice.payment_* event.
pub record InvoiceUpdate : Type 0 where
  pub stripe_subscription_id : String
  pub succeeded : Bool
  pub event_id : String
  pub event_created_at : Time
  pub invoice_id : Option String
  pub failure_reason : Option String
  pub next_attempt_at : Option Time
  pub current_period_start : Option Time
  pub current_period_end : Option Time

-- `appliedAt != nil && in.EventCreatedAt.Before(*appliedAt)`
abbrev pub is_stale : Option Time → Time → Bool
is_stale none created_at = false
is_stale (some applied_at) created_at = before created_at applied_at

-- The UPDATE of UpdateSubscriptionStatus.
abbrev pub apply_status : StatusUpdate → Subscription → Subscription
apply_status u s = record s {
  status = u.status;
  current_period_start = coalesce u.current_period_start s.current_period_start;
  current_period_end = coalesce u.current_period_end s.current_period_end;
  cancel_at_period_end = coalesce u.cancel_at_period_end s.cancel_at_period_end;
  cancel_at = coalesce_null u.cancel_at s.cancel_at;
  canceled_at = coalesce_null u.canceled_at s.canceled_at;
  ended_at = coalesce_null u.ended_at s.ended_at;
  trial_end = coalesce_null u.trial_end s.trial_end;
  stripe_price_id = coalesce u.stripe_price_id s.stripe_price_id;
  quantity = coalesce u.quantity s.quantity;
  latest_invoice_id = coalesce_null u.latest_invoice_id s.latest_invoice_id;
  default_payment_method_id = coalesce_null u.default_payment_method_id s.default_payment_method_id;
  last_stripe_event_id = null_if_empty u.event_id;
  last_stripe_event_at = some u.event_created_at;
}

-- successQuery of RecordInvoicePayment
abbrev pub apply_payment : InvoiceUpdate → Subscription → Subscription
apply_payment u s = record s {
  latest_invoice_id = coalesce_null u.invoice_id s.latest_invoice_id;
  current_period_start = coalesce u.current_period_start s.current_period_start;
  current_period_end = coalesce u.current_period_end s.current_period_end;
  payment_failed_at = none;
  payment_failure_count = 0;
  last_payment_error = none;
  next_payment_attempt_at = none;
  last_invoice_event_id = null_if_empty u.event_id;
  last_invoice_event_at = some u.event_created_at;
}

-- failureQuery of RecordInvoicePayment
abbrev pub apply_failure : InvoiceUpdate → Subscription → Subscription
apply_failure u s = record s {
  latest_invoice_id = coalesce_null u.invoice_id s.latest_invoice_id;
  payment_failed_at = some u.event_created_at;
  payment_failure_count = s.payment_failure_count + 1;
  last_payment_error = some (truncate (bytes (deref_or u.failure_reason "payment failed")));
  next_payment_attempt_at = u.next_attempt_at;
  last_invoice_event_id = null_if_empty u.event_id;
  last_invoice_event_at = some u.event_created_at;
}

abbrev pub apply_invoice : InvoiceUpdate → Subscription → Subscription
apply_invoice u s = if u.succeeded then apply_payment u s else apply_failure u s

-- A transaction that locks the row of `id`, refuses an event older than the row's cursor, and
-- otherwise applies `f` to the row. It returns the new row and the table.
unfoldable pub apply_event :
    (op id : String)
    → (Subscription → Option Time)
    → Time
    → (Subscription → Subscription)
    → Subscriptions
    → Result Subscription × Subscriptions
apply_event op id cursor created_at f t = elim (find_subscription id t) [
  | none ↦ (err (map_error op no_rows), t)
  | some s ↦
      if is_stale (cursor s) created_at
      then (err (sentinel_failure stale_event), t)
      else (ok (f s), Table.update subscription_key id f t)
]

-- UpdateSubscriptionStatus, where the database does not fail.
abbrev pub update_status : StatusUpdate → Subscriptions → Result Subscription × Subscriptions
update_status u =
    apply_event "update subscription status: lock row" u.stripe_subscription_id
      (λ s. s.last_stripe_event_at) u.event_created_at (apply_status u)

-- RecordInvoicePayment, where the database does not fail.
abbrev pub record_invoice : InvoiceUpdate → Subscriptions → Result Subscription × Subscriptions
record_invoice u =
    apply_event "record invoice payment: lock row" u.stripe_subscription_id
      (λ s. s.last_invoice_event_at) u.event_created_at (apply_invoice u)

-- CountInDunning
unfoldable pub count_in_dunning : Subscriptions → ℕ
count_in_dunning = count_where (λ s. is_some s.payment_failed_at)

-- The two violations that an INSERT can meet, as the server reports them.
abbrev pub duplicate_subscription : DriverError
duplicate_subscription =
    pg "23505" "subscriptions_stripe_subscription_id_key"
      "duplicate key value violates unique constraint"
      "ERROR: duplicate key value violates unique constraint (SQLSTATE 23505)"

abbrev pub missing_user : DriverError
missing_user =
    pg "23503" "subscriptions_user_id_fkey" "insert or update violates foreign key constraint"
      "ERROR: insert or update violates foreign key constraint (SQLSTATE 23503)"

-- The row that the INSERT of CreateSubscription stores: it leaves out the dunning columns and the
-- cursor of the invoice events, which get their defaults.
abbrev pub inserted_row : Time → Subscription → Subscription
inserted_row now s = record s {
  payment_failed_at = none;
  payment_failure_count = 0;
  last_payment_error = none;
  next_payment_attempt_at = none;
  last_invoice_event_id = none;
  last_invoice_event_at = none;
  created_at = now;
}

-- The INSERT of CreateSubscription: its unique key first, then its reference to the user.
unfoldable pub insert_subscription :
    (now : Time)
    → (user_exists : Bool) → Subscription
    → Subscriptions
    → Result Subscription × Subscriptions
insert_subscription now user_exists s t = elim (find_subscription s.stripe_subscription_id t) [
  | some old ↦ (err (map_error "create subscription" duplicate_subscription), t)
  | none ↦
      if user_exists
      then (ok (inserted_row now s), Table.insert subscription_key (inserted_row now s) t)
      else (err (map_error "create subscription" missing_user), t)
]

-- Any statement that changes the table.
pub data Change : Type 0 where
  created : (now : Time) (user_exists : Bool) → Subscription → Change
  status_event : StatusUpdate → Change
  invoice_event : InvoiceUpdate → Change

unfoldable pub deliver : Change → Subscriptions → Subscriptions
deliver (created now user_exists s) t = (insert_subscription now user_exists s t).1
deliver (status_event u) t = (update_status u t).1
deliver (invoice_event u) t = (record_invoice u t).1

unfoldable pub deliver_all : List Change → Subscriptions → Subscriptions
deliver_all [] t = t
deliver_all (c ∷ cs) t = deliver_all cs (deliver c t)
