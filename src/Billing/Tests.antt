-- ===== src/Billing/Tests.antt =====
-- The theorems on the subscriptions, applied to one subscription.
use stripe_payment_service.Prelude.{
  String, ◌≡◌, refl, Bool, true, false, none, some, List, [], ◌∷◌, ◌++◌, map, arith, All, keep, inr,
}
use stripe_payment_service.Prelude.Int.{pos}
use stripe_payment_service.Prelude.Table
use stripe_payment_service.Domain.Status.{SubscriptionStatus, active, canceled, past_due}
use stripe_payment_service.Domain.Time.{Time}
use stripe_payment_service.Domain.Subscription.{Subscription}
use stripe_payment_service.Billing.{
  Subscriptions, find_subscription, StatusUpdate, InvoiceUpdate, Change, status_event,
  invoice_event, created, deliver_all,
}
use stripe_payment_service.Billing.Order.{Shows, newest_event_wins}
use stripe_payment_service.Billing.Streams.{
  SameDunning, SameLifecycle, Agree, is_invoice_event, is_status_event, streams_independent,
}
use stripe_payment_service.Billing.Dunning.{
  IsDunningConsistent, HasFailures, deliver_all-IsDunningConsistent, dunning_count,
}

abbrev pub plan : Subscription
plan = record {
  user_id = 7;
  stripe_subscription_id = "sub_1";
  stripe_customer_id = "cus_1";
  stripe_price_id = "price_1";
  stripe_product_id = none;
  status = active;
  quantity = pos 1;
  currency = some "usd";
  unit_amount = some (pos 500);
  current_period_start = 1000;
  current_period_end = 2000;
  cancel_at_period_end = false;
  cancel_at = none;
  canceled_at = none;
  ended_at = none;
  trial_start = none;
  trial_end = none;
  latest_invoice_id = none;
  default_payment_method_id = none;
  payment_failed_at = none;
  payment_failure_count = 0;
  last_payment_error = none;
  next_payment_attempt_at = none;
  last_invoice_event_id = none;
  last_invoice_event_at = none;
  last_stripe_event_id = some "evt_0";
  last_stripe_event_at = some 1000;
  metadata = [];
  created_at = 1000;
}

abbrev pub plans : Subscriptions
plans = plan ∷ []

abbrev status_update : String → Time → SubscriptionStatus → StatusUpdate
status_update event at status = record {
  stripe_subscription_id = "sub_1";
  status = status;
  event_id = event;
  event_created_at = at;
  current_period_start = none;
  current_period_end = none;
  cancel_at_period_end = some false;
  cancel_at = none;
  canceled_at = some at;
  ended_at = none;
  trial_end = none;
  stripe_price_id = none;
  quantity = none;
  latest_invoice_id = none;
  default_payment_method_id = none;
}

abbrev invoice_update : Bool → Time → InvoiceUpdate
invoice_update succeeded at = record {
  stripe_subscription_id = "sub_1";
  succeeded = succeeded;
  event_id = "evt_i";
  event_created_at = at;
  invoice_id = some "in_1";
  failure_reason = none;
  next_attempt_at = none;
  current_period_start = none;
  current_period_end = none;
}

abbrev cancellation : StatusUpdate
cancellation = status_update "evt_3" 3000 canceled

-- Delivered before the cancellation, and delivered late.
abbrev earlier : List Change
earlier =
    status_event (status_update "evt_1" 1500 past_due)
    ∷ invoice_event (invoice_update false 9000)
    ∷ []

abbrev later : List Change
later = status_event (status_update "evt_2" 2500 active) ∷ created 9000 true plan ∷ []

find-plan : find_subscription "sub_1" plans ≡ some plan
unfolding Table.lookup
find-plan = refl

newest_event_wins_example :
    Shows cancellation (
      find_subscription "sub_1"
        (deliver_all (earlier ++ (status_event cancellation ∷ later)) plans))
unfolding Table.lookup
newest_event_wins_example =
    newest_event_wins cancellation earlier later plans refl (inr (omega arith), (tt, tt))
      (inr (omega arith), (tt, tt))

-- A failed payment, a cancellation, and another failure.
abbrev both_streams : List Change
both_streams =
    invoice_event (invoice_update false 1500)
    ∷ status_event cancellation
    ∷ invoice_event (invoice_update false 1600)
    ∷ []

streams_independent_example :
    Agree SameDunning
      (find_subscription "sub_1" (deliver_all both_streams plans))
      (find_subscription "sub_1" (deliver_all (keep is_invoice_event both_streams) plans))
    × Agree SameLifecycle
        (find_subscription "sub_1" (deliver_all both_streams plans))
        (find_subscription "sub_1" (deliver_all (keep is_status_event both_streams) plans))
streams_independent_example = streams_independent "sub_1" both_streams plans plan find-plan

deliver_all-IsDunningConsistent_example : All IsDunningConsistent (deliver_all earlier plans)
deliver_all-IsDunningConsistent_example =
    deliver_all-IsDunningConsistent earlier plans (record { counted = refl; explained = refl }, tt)

-- A success between two failures and two more.
abbrev renewals : List InvoiceUpdate
renewals =
    invoice_update false 1100
    ∷ invoice_update false 1200
    ∷ invoice_update true 1300
    ∷ invoice_update false 1400
    ∷ []

dunning_count_example :
    HasFailures 1 (find_subscription "sub_1" (deliver_all (map invoice_event renewals) plans))
dunning_count_example =
    dunning_count "sub_1" renewals plans plan find-plan
      (refl, refl, (refl, refl, (refl, refl, (refl, refl, tt))))
