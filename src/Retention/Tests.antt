-- ===== src/Retention/Tests.antt =====
-- The theorem on the retention pass, applied to a ledger of one old event.
use stripe_payment_service.Prelude.{
  suc, refl, Bool, true, false, length, none, [], ◌∷◌, arith, count_where,
}
use stripe_payment_service.Prelude.Table
use stripe_payment_service.Domain.Time.{Time}
use stripe_payment_service.Ledger.{set_processed}
use stripe_payment_service.Ledger.Scans.{holds_payload}
use stripe_payment_service.Run.{World}
use stripe_payment_service.Webhook.Tests.{platform, world, first_row}
use stripe_payment_service.Retention.{RetentionConfig, run_once}
use stripe_payment_service.Retention.Termination.{IsDone, run_once-IsDone}

abbrev config : RetentionConfig
config = record {
  interval = 60;
  settled_after = 300;
  unsettled_after = 900;
  batch_size = 1;
  refresh_token_grace = 100;
}

-- The event was received long ago, and the first call of the database is slow.
abbrev aged : World
aged = record world {
  ledger = set_processed 2000 (record first_row { received_at = 1000 }) ∷ [];
  trips = record { elapsed = 10; fault = none } ∷ [];
}

abbrev never : Time → Bool
never now = false

run_once-IsDone_example :
    IsDone
      (run_once platform config true true never
        (suc (count_where holds_payload aged.ledger))
        (suc (length aged.tokens))
        aged).0
unfolding Table.lookup
run_once-IsDone_example =
    run_once-IsDone platform config never (omega arith) true true aged (refl, tt)
