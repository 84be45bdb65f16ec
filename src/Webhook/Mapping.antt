-- ===== src/Webhook/Mapping.antt =====
-- internal/service/webhook_service.go: the mapping of Stripe's objects to rows and updates.
use Prim.Native.String.{◌++◌ as join}
use stripe_payment_service.Prelude.{
  ◌-◌, ◌%◌, ◌^◌, String, Bool, ◌&&◌, Option, none, some, List, [], ◌∷◌, ◌==◌, ltb, is_none,
  if◌then◌else◌,
}
use stripe_payment_service.Prelude.Int.{ℤ, pos, negsuc, is_positive}
use stripe_payment_service.Domain.Errors.{Result, ok, err, failure, other}
use stripe_payment_service.Domain.Status.{
  SubscriptionStatus, canceled, subscription_status, is_valid, is_canceled,
}
use stripe_payment_service.Domain.Time.{Time, unix, unix_ptr}
use stripe_payment_service.Domain.Subscription.{Subscription, Uuid}
use stripe_payment_service.Billing.{StatusUpdate, InvoiceUpdate}
use stripe_payment_service.Truncate.{null_if_empty}
use stripe_payment_service.Stripe.Objects.{
  Event, Price, SubscriptionItem, StripeSubscription, Invoice,
}

-- int32(n), which keeps the low 32 bits
unfoldable pub int32 : ℤ → ℤ
int32 (pos n) = let m = n % 2 ^ 32 in if ltb m (2 ^ 31) then pos m else negsuc (2 ^ 32 - 1 - m)
int32 (negsuc n) = let m = n % 2 ^ 32 in if ltb m (2 ^ 31) then negsuc m else pos (2 ^ 32 - 1 - m)

-- customerIDOf, where only the id is read, and a missing object reads as the empty text
abbrev pub id_of : Option String → String
id_of none = ""
id_of (some id) = id

-- `x != nil && x.ID != ""`, and a pointer to the id then
abbrev pub id_if_any : Option String → Option String
id_if_any o = null_if_empty (id_of o)

abbrev plain : {A : Type 0} → String → Result A
plain text = err (failure other text)

-- primaryItem
unfoldable pub primary_item : StripeSubscription → Result SubscriptionItem
primary_item sub = elim sub.items [
  | [] ↦ plain (join "subscription " (join sub.id " carries no items"))
  | item ∷ rest ↦ ok item
]

-- ensureCanceledAt
abbrev pub ensure_canceled_at : SubscriptionStatus → Option Time → Time → Option Time
ensure_canceled_at status at fallback =
    if is_canceled status && is_none at then some fallback else at

-- `if record.Quantity <= 0 { record.Quantity = 1 }`
abbrev pub positive_or_one : ℤ → ℤ
positive_or_one q = if is_positive q then q else pos 1

-- The row, from the item and its price.
abbrev pub row_of : Uuid → StripeSubscription → Event → SubscriptionItem → Price → Subscription
row_of user sub event item price = record {
  user_id = user;
  stripe_subscription_id = sub.id;
  stripe_customer_id = id_of sub.customer;
  stripe_price_id = price.id;
  stripe_product_id = id_if_any price.product;
  status = subscription_status sub.status;
  quantity = positive_or_one (int32 item.quantity);
  currency = null_if_empty price.currency;
  unit_amount = if is_positive price.unit_amount then some price.unit_amount else none;
  current_period_start = unix item.current_period_start;
  current_period_end = unix item.current_period_end;
  cancel_at_period_end = sub.cancel_at_period_end;
  cancel_at = unix_ptr sub.cancel_at;
  canceled_at =
      ensure_canceled_at (subscription_status sub.status) (unix_ptr sub.canceled_at)
        (unix event.created);
  ended_at = unix_ptr sub.ended_at;
  trial_start = unix_ptr sub.trial_start;
  trial_end = unix_ptr sub.trial_end;
  latest_invoice_id = none;
  default_payment_method_id = none;
  payment_failed_at = none;
  payment_failure_count = 0;
  last_payment_error = none;
  next_payment_attempt_at = none;
  last_invoice_event_id = none;
  last_invoice_event_at = none;
  last_stripe_event_id = some event.id;
  last_stripe_event_at = some (unix event.created);
  metadata = sub.metadata;
  created_at = 0;
}

-- subscriptionFrom
unfoldable pub subscription_from : Uuid → StripeSubscription → Event → Result Subscription
subscription_from user sub event = elim (primary_item sub) [
  | err e ↦ err e
  | ok item ↦ elim item.price [
    | none ↦ plain (join "subscription " (join sub.id " item carries no price"))
    | some price ↦ ok (row_of user sub event item price)
  ]
]

abbrev price_id : Option Price → Option String
price_id none = none
price_id (some price) = null_if_empty price.id

-- The update, from the item and the status.
abbrev pub update_of :
    StripeSubscription → Event → SubscriptionItem → SubscriptionStatus → StatusUpdate
update_of sub event item status = record {
  stripe_subscription_id = sub.id;
  status = status;
  event_id = event.id;
  event_created_at = unix event.created;
  current_period_start = unix_ptr item.current_period_start;
  current_period_end = unix_ptr item.current_period_end;
  cancel_at_period_end = some sub.cancel_at_period_end;
  cancel_at = unix_ptr sub.cancel_at;
  canceled_at = ensure_canceled_at status (unix_ptr sub.canceled_at) (unix event.created);
  ended_at = unix_ptr sub.ended_at;
  trial_end = unix_ptr sub.trial_end;
  stripe_price_id = price_id item.price;
  quantity = if is_positive item.quantity then some (int32 item.quantity) else none;
  latest_invoice_id = id_if_any sub.latest_invoice;
  default_payment_method_id = id_if_any sub.default_payment_method;
}

abbrev pub status_of : StripeSubscription → Bool → SubscriptionStatus
status_of sub deleted = if deleted then canceled else subscription_status sub.status

-- statusUpdateFrom after the item is found; the text of the refusal does not quote the status as the
-- code does.
abbrev pub status_update_of :
    StripeSubscription → Event → Bool → Result SubscriptionItem → Result StatusUpdate
status_update_of sub event deleted (err e) = err e
status_update_of sub event deleted (ok item) =
    if is_valid (status_of sub deleted)
    then ok (update_of sub event item (status_of sub deleted))
    else plain (join "subscription " (join sub.id (join " has unknown status " sub.status)))

-- statusUpdateFrom
unfoldable pub status_update_from : StripeSubscription → Event → Bool → Result StatusUpdate
status_update_from sub event deleted = status_update_of sub event deleted (primary_item sub)

-- The loop over the lines of an invoice.
abbrev pub first_id : List (Option String) → String
first_id [] = ""
first_id (line ∷ lines) = let rest = first_id lines in if id_of line == "" then rest else id_of line

-- subscriptionIDOf
unfoldable pub subscription_id_of : Invoice → String
subscription_id_of invoice =
    if id_of invoice.parent_subscription == ""
    then first_id invoice.lines
    else id_of invoice.parent_subscription

-- declineReason
unfoldable pub decline_reason : Invoice → String
decline_reason invoice = elim invoice.last_finalization_error [
  | none ↦ ""
  | some e ↦
      if e.decline_code == ""
      then if e.code == "" then e.message else join e.code (join ": " e.message)
      else join e.decline_code (join ": " e.message)
]

-- The update that handleInvoicePayment builds.
unfoldable pub invoice_update_from : Invoice → Event → Bool → InvoiceUpdate
unfolding subscription_id_of decline_reason
invoice_update_from invoice event succeeded = record {
  stripe_subscription_id = subscription_id_of invoice;
  succeeded = succeeded;
  event_id = event.id;
  event_created_at = unix event.created;
  invoice_id = null_if_empty invoice.id;
  failure_reason = if succeeded then none else null_if_empty (decline_reason invoice);
  next_attempt_at = unix_ptr invoice.next_payment_attempt;
  current_period_start = if succeeded then unix_ptr invoice.period_start else none;
  current_period_end = if succeeded then unix_ptr invoice.period_end else none;
}
