-- ===== src/Sweeper/Tests.antt =====
-- The theorems on the sweeper, applied to one pass over a ledger with a failed event.
use stripe_payment_service.Prelude.{
  Bool, true, false, none, some, [], ◌∷◌, All, arith, ◌≤◌, ◌≡◌, refl, ◌↔◌, any_where,
}
use stripe_payment_service.Domain.Time.{Time}
use stripe_payment_service.Ledger.{set_failed}
use stripe_payment_service.Run.{World}
use stripe_payment_service.Webhook.Tests.{platform, world, first_row}
use stripe_payment_service.Sweeper.{SweeperConfig, sweep, report, retry_failed}
use stripe_payment_service.Sweeper.Progress.{IsAdvanced, IsTried}
use stripe_payment_service.Sweeper.Drain.{
  IsDue, retry_failed-IsAdvanced, Passes, pass, no_pass, Passes-IsTried,
}
use stripe_payment_service.Ledger.History.{replay}
use stripe_payment_service.Prelude.Table
use stripe_payment_service.Sweeper.Alerts.{IsReported, is_alarming, report-IsReported}
use stripe_payment_service.Logger.{level_error}
use stripe_payment_service.Sweeper.Budget.{IsWithinBudget, sweep-IsWithinBudget}

abbrev config : SweeperConfig
config = record {
  interval = 60;
  stale_claim_after = 300;
  max_attempts = 6;
  base_backoff = 30;
  max_backoff = 1800;
  batch_size = 100;
  alert_after = 3600;
}

-- The event failed a while ago; the database fails once during the pass.
abbrev backlog : World
backlog = record world {
  ledger = set_failed 1000 [] first_row ∷ [];
  trips =
      record { elapsed = 10; fault = none } ∷ record { elapsed = 10; fault = some "timeout" } ∷ [];
}

abbrev aging : World
aging = record backlog { trips = [] }

abbrev never : Time → Bool
never now = false

sweep-IsWithinBudget_example :
    All (IsWithinBudget 6) (sweep platform config true never backlog).1.ledger
sweep-IsWithinBudget_example =
    sweep-IsWithinBudget platform config true never backlog (omega arith, tt)

-- The event is within its budget, and has waited for too long.
report-IsReported_example :
    IsReported
      (λ l. (l ≡ level_error) ↔ (any_where (is_alarming config aging.clock) aging.ledger ≡ true))
      aging
      (report config true aging).1
    × ((report config true aging).1.ledger ≡ aging.ledger)
report-IsReported_example = report-IsReported config true aging refl

aging-IsDue : IsDue config "evt_7" aging (set_failed 1000 [] first_row)
unfolding Table.lookup
aging-IsDue = record { calm = refl; found = refl; due = refl; room = omega arith }

retry_failed-IsAdvanced_example :
    ((retry_failed platform config never aging).1.trips ≡ [])
    × IsAdvanced "evt_7" 2 (retry_failed platform config never aging).1.ledger
retry_failed-IsAdvanced_example =
    retry_failed-IsAdvanced platform config "evt_7" (set_failed 1000 [] first_row) aging aging-IsDue

-- One pass over the backlog.
one_pass : Passes platform config "evt_7" aging 1 (retry_failed platform config never aging).1
unfolding replay
one_pass = pass [] aging (set_failed 1000 [] first_row) no_pass refl aging-IsDue

Passes-IsTried_example :
    IsTried "evt_7" 2 (retry_failed platform config never aging).1.ledger × (1 ≤ 5)
Passes-IsTried_example =
    Passes-IsTried platform config "evt_7" aging (set_failed 1000 [] first_row) aging-IsDue.found 1
      (retry_failed platform config never aging).1 one_pass
