-- ===== src/Checkout/View.antt =====
-- internal/service/subscription_service.go, with GetLatestSubscriptionByUserID of
-- internal/repository/postgres/subscription_repo.go.
use stripe_payment_service.Prelude.{
  String, Bool, Option, none, some, List, [], ◌∷◌, nat_eq, keep, if◌then◌else◌,
}
use stripe_payment_service.Prelude.Int.{ℤ}
use stripe_payment_service.Prelude.Sort.{order_by}
use stripe_payment_service.Domain.Errors.{
  Result, ok, err, map_error, no_rows, wrap, is_sentinel, not_found,
}
use stripe_payment_service.Domain.Status.{SubscriptionStatus, is_live}
use stripe_payment_service.Domain.Time.{Time}
use stripe_payment_service.Domain.Subscription.{Uuid, Subscription}
use stripe_payment_service.Billing.{Subscriptions}
use stripe_payment_service.Run.{Run, pure, raise, attempt, statement, ◌>>=◌}

-- The last row of a list.
abbrev last : List Subscription → Option Subscription
last [] = none
last (s ∷ rest) = elim (last rest) [ none ↦ some s | some later ↦ some later ]

-- ORDER BY created_at DESC LIMIT 1; of rows created at one instant it may be any.
unfoldable pub latest_of : Uuid → Subscriptions → Option Subscription
latest_of user t = last (order_by (λ s. s.created_at) (keep (λ s. nat_eq s.user_id user) t))

abbrev the_latest : Option Subscription → Result Subscription
the_latest none = err (map_error "get latest subscription by user id" no_rows)
the_latest (some s) = ok s

-- GetLatestSubscriptionByUserID
unfoldable pub get_latest_subscription : Uuid → Run Subscription
get_latest_subscription user =
    statement "get latest subscription by user id"
      λ now w. (the_latest (latest_of user w.subscriptions), w)

-- SubscriptionView
pub record SubscriptionView : Type 0 where
  pub status : SubscriptionStatus
  pub is_active : Bool
  pub price_id : String
  pub quantity : ℤ
  pub currency : Option String
  pub unit_amount : Option ℤ
  pub current_period_end : Time
  pub cancel_at_period_end : Bool
  pub canceled_at : Option Time
  pub trial_end : Option Time

abbrev view_of_subscription : Subscription → SubscriptionView
view_of_subscription s = record {
  status = s.status;
  is_active = is_live s.status;
  price_id = s.stripe_price_id;
  quantity = s.quantity;
  currency = s.currency;
  unit_amount = s.unit_amount;
  current_period_end = s.current_period_end;
  cancel_at_period_end = s.cancel_at_period_end;
  canceled_at = s.canceled_at;
  trial_end = s.trial_end;
}

abbrev viewed : Result Subscription → Run SubscriptionView
viewed (ok s) = pure (view_of_subscription s)
viewed (err e) = if is_sentinel not_found e then raise e else raise (wrap "load subscription" e)

-- GetForUser
unfoldable pub get_for_user : Uuid → Run SubscriptionView
get_for_user user = do found ← attempt (get_latest_subscription user); viewed found
