-- ===== src/Webhook/Handlers.antt =====
-- internal/service/webhook_service.go: the handlers of the event types. A handler that fails reports
-- OutcomeFailed with its error, so a failure stands for both.
use Prim.Native.String.{◌++◌ as join}
use stripe_payment_service.Prelude.{
  String, Bool, true, false, ◌⊎◌, inl, inr, Option, none, some, List, ◌==◌, if◌then◌else◌,
}
use stripe_payment_service.Domain.Errors.{
  Result, ok, err, Failure, failure, wrap, read_map, not_found, conflict, stale_event, other,
}
use stripe_payment_service.Domain.Subscription.{Subscription, Uuid}
use stripe_payment_service.Domain.User.{User}
use stripe_payment_service.Stripe.Objects.{Event, CheckoutSession, StripeSubscription, Platform}
use stripe_payment_service.Stripe.Client.{get_subscription}
use stripe_payment_service.Run.{Run, pure, raise, lift, attempt, reads, ◌>>=◌, ◌>>◌}
use stripe_payment_service.Repository.{
  update_subscription_status, record_invoice_payment, create_subscription,
}
use stripe_payment_service.Repository.Users.{
  get_user_by_id, get_user_by_stripe_customer_id, update_user,
}
use stripe_payment_service.Webhook.Mapping.{
  id_of, subscription_from, status_update_from, subscription_id_of, invoice_update_from,
}

pub data Outcome : Type 0 where
  outcome_processed outcome_duplicate outcome_skipped outcome_stale outcome_failed : Outcome

-- errors.Is, for the sentinels that the handlers tell apart
abbrev pub is_not_found : Failure → Bool
is_not_found e = elim e.sentinel [ not_found ↦ true | _ ↦ false ]

abbrev pub is_conflict : Failure → Bool
is_conflict e = elim e.sentinel [ conflict ↦ true | _ ↦ false ]

abbrev pub is_stale_event : Failure → Bool
is_stale_event e = elim e.sentinel [ stale_event ↦ true | _ ↦ false ]

-- json.Unmarshal of the event's object
abbrev pub decoded : {A : Type 0} → String → String ⊎ A → Result A
decoded op (inl text) = err (wrap op (failure other text))
decoded op (inr a) = ok a

-- A user that is not found is none; any other error is reported with `op`.
abbrev pub found_or_none : String → Result User → Run (Option User)
found_or_none op (ok u) = pure (some u)
found_or_none op (err e) = if is_not_found e then pure none else raise (wrap op e)

abbrev pub by_reference : Platform → String → Run (Option User)
by_reference p candidate = if candidate == "" then pure none else elim (p.parse_uuid candidate) [
  | none ↦ pure none
  | some id ↦ do
    r ← attempt (get_user_by_id id)
    found_or_none (join "look up user " (p.render_uuid id)) r
]

abbrev pub by_customer : String → Run (Option User)
by_customer customer = if customer == "" then pure none else do
  r ← attempt (get_user_by_stripe_customer_id customer)
  found_or_none "look up user by customer" r

-- resolveUser
unfoldable pub resolve_user :
    Platform
    → (client_ref customer : String) → (metadata : List (String × String)) → Run (Option User)
resolve_user p client_ref customer metadata = do
  known ← by_reference p (if client_ref == "" then read_map metadata "user_id" else client_ref)
  elim known [ some u ↦ pure (some u) | none ↦ by_customer customer ]

abbrev pub linked : Result (Unit {0}) → Run Unit
linked (ok u) = pure tt
linked (err e) = if is_conflict e then pure tt else raise (wrap "link stripe customer to user" e)

-- linkCustomer
unfoldable pub link_customer : Platform → User → String → Run Unit
link_customer p user customer = if customer == "" then pure tt else elim user.stripe_customer_id [
  | some c ↦ pure tt
  | none ↦ do
    r ← attempt (update_user p (record user { stripe_customer_id = some customer }))
    linked r
]

abbrev pub updated_existing : String → Result Subscription → Run Outcome
updated_existing id (ok s) = pure outcome_processed
updated_existing id (err e) =
    if is_stale_event e
    then pure outcome_stale
    else raise (wrap (join "update existing subscription " id) e)

-- The row is there already.
abbrev pub update_existing : StripeSubscription → Event → Run Outcome
update_existing sub event = do
  update ← lift (status_update_from sub event false)
  r ← attempt (update_subscription_status update)
  updated_existing sub.id r

abbrev pub created_or_updated : StripeSubscription → Event → Result Subscription → Run Outcome
created_or_updated sub event (ok s) = pure outcome_processed
created_or_updated sub event (err e) =
    if is_conflict e
    then update_existing sub event
    else raise (wrap (join "create subscription " sub.id) e)

-- upsertSubscription
unfoldable pub upsert_subscription : Platform → Uuid → StripeSubscription → Event → Run Outcome
upsert_subscription p user sub event = do
  row ← lift (subscription_from user sub event)
  r ← attempt (create_subscription p row)
  created_or_updated sub event r

-- handleCheckoutCompleted after the session is decoded. Its subscription has an id.
abbrev pub complete_checkout : Platform → Event → CheckoutSession → Run Outcome
complete_checkout p event session = do
  owner ← resolve_user p session.client_reference_id (id_of session.customer) session.metadata
  elim owner [
    | none ↦ pure outcome_skipped
    | some user ↦ do
      link_customer p user (id_of session.customer)
      now ← reads (λ w. w.clock)
      sub ← lift (get_subscription p (id_of session.subscription) now)
      upsert_subscription p user.id sub event
      pure outcome_processed
  ]

-- Only a session of mode `subscription`, which created one, is acted on.
abbrev pub checkout_of_mode : Platform → Event → CheckoutSession → Run Outcome
checkout_of_mode p event session =
    if session.mode == "subscription"
    then (if id_of session.subscription == ""
        then pure outcome_skipped
        else complete_checkout p event session)
    else pure outcome_skipped

-- handleCheckoutCompleted
unfoldable pub handle_checkout_completed : Platform → Event → Run Outcome
handle_checkout_completed p event = do
  session ← lift (decoded "decode checkout session" (p.decode_session event.raw))
  checkout_of_mode p event session

-- createFromEvent
unfoldable pub create_from_event : Platform → StripeSubscription → Event → Run Outcome
create_from_event p sub event = do
  owner ← resolve_user p "" (id_of sub.customer) sub.metadata
  elim owner [
    | none ↦ pure outcome_skipped
    | some user ↦ do upsert_subscription p user.id sub event; pure outcome_processed
  ]

abbrev pub updated_or_created :
    Platform → StripeSubscription → Event → Result Subscription → Run Outcome
updated_or_created p sub event (ok s) = pure outcome_processed
updated_or_created p sub event (err e) =
    if is_stale_event e
    then pure outcome_stale
    else if is_not_found e
    then create_from_event p sub event
    else raise (wrap (join "update subscription " sub.id) e)

abbrev pub change_subscription : Platform → Event → Bool → StripeSubscription → Run Outcome
change_subscription p event deleted sub = do
  update ← lift (status_update_from sub event deleted)
  r ← attempt (update_subscription_status update)
  updated_or_created p sub event r

-- handleSubscriptionChanged
unfoldable pub handle_subscription_changed : Platform → Event → Bool → Run Outcome
handle_subscription_changed p event deleted = do
  sub ← lift (decoded "decode subscription" (p.decode_subscription event.raw))
  if sub.id == ""
      then raise (failure other "subscription event carried no subscription id")
      else change_subscription p event deleted sub

abbrev pub recorded : String → Result Subscription → Run Outcome
recorded id (ok s) = pure outcome_processed
recorded id (err e) =
    if is_stale_event e
    then pure outcome_stale
    else if is_not_found e
    then pure outcome_skipped
    else raise (wrap (join "record invoice payment for " id) e)

-- handleInvoicePayment
unfoldable pub handle_invoice_payment : Platform → Event → Bool → Run Outcome
handle_invoice_payment p event succeeded = do
  invoice ← lift (decoded "decode invoice" (p.decode_invoice event.raw))
  if subscription_id_of invoice == "" then pure outcome_skipped else do
    r ← attempt (record_invoice_payment (invoice_update_from invoice event succeeded))
    recorded (subscription_id_of invoice) r

-- dispatch
unfoldable pub dispatch : Platform → Event → Run Outcome
dispatch p event =
    if event.type == "checkout.session.completed"
    then handle_checkout_completed p event
    else if event.type == "customer.subscription.deleted"
    then handle_subscription_changed p event true
    else if event.type == "invoice.payment_succeeded"
    then handle_invoice_payment p event true
    else if event.type == "invoice.payment_failed"
    then handle_invoice_payment p event false
    else handle_subscription_changed p event false
