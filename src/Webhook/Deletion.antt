-- ===== src/Webhook/Deletion.antt =====
-- handleSubscriptionChanged of internal/service/webhook_service.go, for a subscription that is not
-- recorded.
use stripe_payment_service.Prelude.{
  ◌≡◌, refl, sym, ◌∙◌, Bool, true, false, inl, inr, none, Bool-cases, [], arith, ◌==◌,
}
use stripe_payment_service.Domain.Errors.{Result, ok, err, map_error, no_rows}
use stripe_payment_service.Domain.Status.{is_valid}
use stripe_payment_service.Billing.{StatusUpdate, find_subscription, apply_event}
use stripe_payment_service.Stripe.Objects.{Event, StripeSubscription, SubscriptionItem, Platform}
use stripe_payment_service.Run.{World, ◌>>=◌}
use stripe_payment_service.Run.Keeps.{statement-calm}
use stripe_payment_service.Repository.{transaction, update_subscription_status}
use stripe_payment_service.Webhook.Mapping.{
  status_of, status_update_of, status_update_from, primary_item, update_of,
}
use stripe_payment_service.Webhook.Handlers.{
  change_subscription, create_from_event, handle_subscription_changed,
}

not_recorded :
    (u : StatusUpdate) (w : World)
    → w.trips ≡ []
    → find_subscription u.stripe_subscription_id w.subscriptions ≡ none
    → update_subscription_status u w
      ≡ (err (map_error "update subscription status: lock row" no_rows), w)
unfolding transaction ◌>>=◌ apply_event
not_recorded u w calm e =
    rw (statement-calm _ _ w calm) (rw (statement-calm _ _ w calm) (rw (e, apply_event) refl))

changed-unknown :
    (p : Platform) (event : Event) (deleted : Bool) (sub : StripeSubscription) (u : StatusUpdate)
    (w : World)
    → w.trips ≡ []
    → status_update_from sub event deleted ≡ ok u
    → find_subscription u.stripe_subscription_id w.subscriptions ≡ none
    → change_subscription p event deleted sub w ≡ create_from_event p sub event w
unfolding ◌>>=◌ map_error
changed-unknown p event deleted sub u w calm mapped e =
    rw mapped (rw (not_recorded u w calm e) refl)

status_update_from-id :
    (sub : StripeSubscription) (event : Event) (deleted : Bool) (u : StatusUpdate)
    → status_update_from sub event deleted ≡ ok u
    → u.stripe_subscription_id ≡ sub.id
unfolding status_update_from
status_update_from-id sub event deleted u e = from (primary_item sub) e
  where
    from :
        (x : Result SubscriptionItem)
        → status_update_of sub event deleted x ≡ ok u
        → u.stripe_subscription_id ≡ sub.id
    from (err f) q = absurd (ground arith)
    from (ok item) q = elim (Bool-cases (is_valid (status_of sub deleted))) [
      | inl known ↦
          let same : update_of sub event item (status_of sub deleted) ≡ u =
            ground (arith, known, q) in
          rw⁻¹ same refl
      | inr strange ↦ absurd (ground (arith, strange, q))
    ]

changed :
    (p : Platform) (event : Event) (deleted : Bool) (sub : StripeSubscription) (u : StatusUpdate)
    (w : World)
    → w.trips ≡ []
    → p.decode_subscription event.raw ≡ inr sub
    → (sub.id == "") ≡ false
    → status_update_from sub event deleted ≡ ok u
    → find_subscription sub.id w.subscriptions ≡ none
    → handle_subscription_changed p event deleted w ≡ create_from_event p sub event w
unfolding handle_subscription_changed ◌>>=◌
changed p event deleted sub u w calm object named mapped e =
    rw (object, handle_subscription_changed)
      (rw named (
        changed-unknown p event deleted sub u w calm mapped
          (rw (status_update_from-id sub event deleted u mapped) e)))

-- A deletion of a subscription that is not recorded is handled as any other event of it: with the
-- same result and the same effects as if it were no deletion. It holds where no call of the database
-- fails, the object can be decoded and has an id, and both updates can be formed.
pub unknown_deletion :
    (p : Platform) (event : Event) (sub : StripeSubscription) (u v : StatusUpdate) (w : World)
    → w.trips ≡ []
    → p.decode_subscription event.raw ≡ inr sub
    → (sub.id == "") ≡ false
    → status_update_from sub event true ≡ ok u
    → status_update_from sub event false ≡ ok v
    → find_subscription sub.id w.subscriptions ≡ none
    → handle_subscription_changed p event true w ≡ handle_subscription_changed p event false w
unknown_deletion p event sub u v w calm object named deleted changed' e =
    changed p event true sub u w calm object named deleted e
    ∙ sym (changed p event false sub v w calm object named changed' e)
