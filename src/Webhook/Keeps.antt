-- ===== src/Webhook/Keeps.antt =====
-- The handlers of internal/service/webhook_service.go and the ledger.
use stripe_payment_service.Prelude.{
  String, refl, Bool, true, false, inl, inr, Option, none, some, List, ◌==◌, Option-cases,
  if◌then◌else◌,
}
use stripe_payment_service.Domain.Errors.{Result, ok, err, validation_result}
use stripe_payment_service.Domain.Subscription
use stripe_payment_service.Domain.Subscription.{Subscription, Uuid}
use stripe_payment_service.Domain.User
use stripe_payment_service.Domain.User.{User}
use stripe_payment_service.Billing.{Subscriptions}
use stripe_payment_service.Stripe.Objects.{Event, CheckoutSession, StripeSubscription, Platform}
use stripe_payment_service.Stripe.Client.{get_subscription}
use stripe_payment_service.Run.{Run, pure, lift, reads, ◌>>=◌, ◌>>◌}
use stripe_payment_service.Run.Keeps.{SameLedger, unmoved, bind-SameLedger, statement-SameLedger}
use stripe_payment_service.Repository.{transaction, create_subscription}
use stripe_payment_service.Repository.Users.{
  get_user_by_id, get_user_by_stripe_customer_id, update_user,
}
use stripe_payment_service.Webhook.Mapping.{id_of, subscription_id_of}
use stripe_payment_service.Webhook.Handlers.{
  found_or_none, by_reference, by_customer, resolve_user, linked, link_customer, updated_existing,
  update_existing, created_or_updated, upsert_subscription, handle_checkout_completed,
  create_from_event, updated_or_created, handle_subscription_changed, recorded,
  handle_invoice_payment, dispatch, is_not_found, is_conflict, is_stale_event, outcome_processed,
  outcome_skipped,
}

-- A test decides between two runs.
if-SameLedger :
    {A : Type 0} (b : Bool) (m n : Run A)
    → SameLedger m
    → SameLedger n
    → SameLedger (if b then m else n)
if-SameLedger true m n h k = h
if-SameLedger false m n h k = k

transaction-SameLedger :
    (op : String) (change : Subscriptions → Result Subscription × Subscriptions)
    → SameLedger (transaction op change)
unfolding transaction
transaction-SameLedger op change =
    bind-SameLedger _ _ (statement-SameLedger _ _ λ now. unmoved) λ u.
      bind-SameLedger _ _ (statement-SameLedger _ _ λ now. unmoved) λ s.
        bind-SameLedger _ _ (statement-SameLedger _ _ λ now. unmoved)
          λ v. statement-SameLedger _ _ λ now w. (refl, λ calm. calm)

create_subscription-SameLedger :
    (p : Platform) (s : Subscription) → SameLedger (create_subscription p s)
unfolding create_subscription
create_subscription-SameLedger p s =
    elim (Option-cases (validation_result (Subscription.validate p.to_lower s))) [
      | inl e ↦ rw (e, create_subscription) (statement-SameLedger _ _ λ now w. (refl, λ calm. calm))
      | inr (x, e) ↦ rw (e, create_subscription) unmoved
    ]

update_user-SameLedger : (p : Platform) (u : User) → SameLedger (update_user p u)
unfolding update_user
update_user-SameLedger p u = elim (Option-cases (validation_result (User.validate u).1)) [
  | inl e ↦
      rw (e, update_user)
        (if-SameLedger _ _ _ unmoved (statement-SameLedger _ _ λ now w. (refl, λ calm. calm)))
  | inr (x, e) ↦ rw (e, update_user) unmoved
]

found_or_none-SameLedger : (op : String) (r : Result User) → SameLedger (found_or_none op r)
found_or_none-SameLedger op (ok u) = unmoved
found_or_none-SameLedger op (err e) = if-SameLedger (is_not_found e) _ _ unmoved unmoved

by_reference-SameLedger : (p : Platform) (c : String) → SameLedger (by_reference p c)
unfolding get_user_by_id
by_reference-SameLedger p c = elim (Option-cases (p.parse_uuid c)) [
  | inl e ↦ rw e (if-SameLedger (c == "") _ _ unmoved unmoved)
  | inr (id, e) ↦ rw e (
      if-SameLedger (c == "") _ _ unmoved (
        bind-SameLedger _ _ (statement-SameLedger _ _ λ now. unmoved) (found_or_none-SameLedger _)))
]

by_customer-SameLedger : (c : String) → SameLedger (by_customer c)
unfolding get_user_by_stripe_customer_id
by_customer-SameLedger c =
    if-SameLedger (c == "") _ _ unmoved
      (bind-SameLedger _ _ (statement-SameLedger _ _ λ now. unmoved) (found_or_none-SameLedger _))

resolve_user-SameLedger :
    (p : Platform) (ref customer : String) (metadata : List (String × String))
    → SameLedger (resolve_user p ref customer metadata)
unfolding resolve_user
resolve_user-SameLedger p ref customer metadata =
    bind-SameLedger _ _ (by_reference-SameLedger p _) λ known. onward known
  where
    onward :
        (o : Option User)
        → SameLedger (elim o [ some u ↦ pure (some u) | none ↦ by_customer customer ])
    onward none = by_customer-SameLedger customer
    onward (some u) = unmoved

linked-SameLedger : (r : Result (Unit {0})) → SameLedger (linked r)
linked-SameLedger (ok u) = unmoved
linked-SameLedger (err e) = if-SameLedger (is_conflict e) _ _ unmoved unmoved

link_customer-SameLedger : (p : Platform) (u : User) (c : String) → SameLedger (link_customer p u c)
unfolding link_customer
link_customer-SameLedger p u c = elim (Option-cases u.stripe_customer_id) [
  | inl e ↦
      rw (e, link_customer)
        (if-SameLedger (c == "") _ _ unmoved
          (bind-SameLedger _ _ (update_user-SameLedger p _) linked-SameLedger))
  | inr (old, e) ↦ rw (e, link_customer) (if-SameLedger (c == "") _ _ unmoved unmoved)
]

updated_existing-SameLedger :
    (id : String) (r : Result Subscription) → SameLedger (updated_existing id r)
updated_existing-SameLedger id (ok s) = unmoved
updated_existing-SameLedger id (err e) = if-SameLedger (is_stale_event e) _ _ unmoved unmoved

update_existing-SameLedger :
    (sub : StripeSubscription) (event : Event) → SameLedger (update_existing sub event)
update_existing-SameLedger sub event =
    bind-SameLedger _ _ unmoved λ update.
      bind-SameLedger _ _ (transaction-SameLedger _ _) (updated_existing-SameLedger sub.id)

created_or_updated-SameLedger :
    (sub : StripeSubscription) (event : Event) (r : Result Subscription)
    → SameLedger (created_or_updated sub event r)
created_or_updated-SameLedger sub event (ok s) = unmoved
created_or_updated-SameLedger sub event (err e) =
    if-SameLedger (is_conflict e) _ _ (update_existing-SameLedger sub event) unmoved

upsert_subscription-SameLedger :
    (p : Platform) (user : Uuid) (sub : StripeSubscription) (event : Event)
    → SameLedger (upsert_subscription p user sub event)
unfolding upsert_subscription
upsert_subscription-SameLedger p user sub event = bind-SameLedger _ _ unmoved λ row.
    bind-SameLedger _ _ (create_subscription-SameLedger p row)
      (created_or_updated-SameLedger sub event)

handle_checkout-SameLedger :
    (p : Platform) (event : Event) → SameLedger (handle_checkout_completed p event)
unfolding handle_checkout_completed
handle_checkout-SameLedger p event = bind-SameLedger _ _ unmoved λ session.
    if-SameLedger (session.mode == "subscription") _ _
      (if-SameLedger (id_of session.subscription == "") _ _ unmoved (
        bind-SameLedger _ _
          (resolve_user-SameLedger p session.client_reference_id (id_of session.customer)
            session.metadata)
          (completed session)))
      unmoved
  where
    completed :
        (session : CheckoutSession) (owner : Option User)
        → SameLedger (elim owner [
          | none ↦ pure outcome_skipped
          | some user ↦ do
            link_customer p user (id_of session.customer)
            now ← reads (λ w. w.clock)
            sub ← lift (get_subscription p (id_of session.subscription) now)
            upsert_subscription p user.id sub event
            pure outcome_processed
        ])
    completed session none = unmoved
    completed session (some user) =
        bind-SameLedger _ _ (link_customer-SameLedger p user (id_of session.customer)) λ u.
          bind-SameLedger _ _ unmoved λ now. bind-SameLedger _ _ unmoved λ sub.
            bind-SameLedger _ _ (upsert_subscription-SameLedger p user.id sub event) λ o. unmoved

create_from_event-SameLedger :
    (p : Platform) (sub : StripeSubscription) (event : Event)
    → SameLedger (create_from_event p sub event)
unfolding create_from_event
create_from_event-SameLedger p sub event =
    bind-SameLedger _ _ (resolve_user-SameLedger p "" (id_of sub.customer) sub.metadata) created
  where
    created :
        (owner : Option User)
        → SameLedger (elim owner [
          | none ↦ pure outcome_skipped
          | some user ↦ do upsert_subscription p user.id sub event; pure outcome_processed
        ])
    created none = unmoved
    created (some user) =
        bind-SameLedger _ _ (upsert_subscription-SameLedger p user.id sub event) λ o. unmoved

updated_or_created-SameLedger :
    (p : Platform) (sub : StripeSubscription) (event : Event) (r : Result Subscription)
    → SameLedger (updated_or_created p sub event r)
updated_or_created-SameLedger p sub event (ok s) = unmoved
updated_or_created-SameLedger p sub event (err e) =
    if-SameLedger (is_stale_event e) _ _ unmoved
      (if-SameLedger (is_not_found e) _ _ (create_from_event-SameLedger p sub event) unmoved)

handle_subscription-SameLedger :
    (p : Platform) (event : Event) (deleted : Bool)
    → SameLedger (handle_subscription_changed p event deleted)
unfolding handle_subscription_changed
handle_subscription-SameLedger p event deleted = bind-SameLedger _ _ unmoved λ sub.
    if-SameLedger (sub.id == "") _ _ unmoved (
      bind-SameLedger _ _ unmoved λ update.
        bind-SameLedger _ _ (transaction-SameLedger _ _)
          (updated_or_created-SameLedger p sub event))

recorded-SameLedger : (id : String) (r : Result Subscription) → SameLedger (recorded id r)
recorded-SameLedger id (ok s) = unmoved
recorded-SameLedger id (err e) =
    if-SameLedger (is_stale_event e) _ _ unmoved
      (if-SameLedger (is_not_found e) _ _ unmoved unmoved)

handle_invoice-SameLedger :
    (p : Platform) (event : Event) (succeeded : Bool)
    → SameLedger (handle_invoice_payment p event succeeded)
unfolding handle_invoice_payment
handle_invoice-SameLedger p event succeeded = bind-SameLedger _ _ unmoved λ invoice.
    if-SameLedger (subscription_id_of invoice == "") _ _ unmoved
      (bind-SameLedger _ _ (transaction-SameLedger _ _) (recorded-SameLedger _))

pub dispatch-SameLedger : (p : Platform) (event : Event) → SameLedger (dispatch p event)
unfolding dispatch
dispatch-SameLedger p event =
    if-SameLedger (event.type == "checkout.session.completed") _ _
      (handle_checkout-SameLedger p event)
      (if-SameLedger (event.type == "customer.subscription.deleted") _ _
        (handle_subscription-SameLedger p event true)
        (if-SameLedger (event.type == "invoice.payment_succeeded") _ _
          (handle_invoice-SameLedger p event true)
          (if-SameLedger (event.type == "invoice.payment_failed") _ _
            (handle_invoice-SameLedger p event false)
            (handle_subscription-SameLedger p event false))))
