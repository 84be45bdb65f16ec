-- ===== src/Ledger/History.antt =====
-- The ledger under any interleaving of statements: each worker, of any replica, and each sweeper
-- contributes statements of internal/repository/postgres/webhook_repo.go, which the database runs
-- one after the other.
use stripe_payment_service.Prelude.{ℕ, String, List, [], ◌∷◌}
use stripe_payment_service.Domain.Time.{Time, Duration}
use stripe_payment_service.Domain.Webhook.{Delivery}
use stripe_payment_service.Ledger.{
  Ledger, claim, settle_processed, settle_skipped, settle_failed, claim_for_retry,
}
use stripe_payment_service.Ledger.Scans.{PurgeQuery, reclaim_abandoned, purge_payloads}

pub data Statement : Type 0 where
  try_claim : Duration → Delivery → Statement
  mark_processed : String → Statement
  mark_skipped : List ℕ → String → Statement
  mark_failed : List ℕ → String → Statement
  retry_claim : ℕ → String → Statement
  reclaim : Duration → ℕ → Statement
  purge : PurgeQuery → Statement

module _ (skeleton : String → String) where
  unfoldable pub execute : Time → Statement → Ledger → Ledger
  execute now (try_claim stale_after w) t = (claim stale_after now w t).1
  execute now (mark_processed id) t = (settle_processed now id t).1
  execute now (mark_skipped reason id) t = (settle_skipped now reason id t).1
  execute now (mark_failed reason id) t = (settle_failed now reason id t).1
  execute now (retry_claim max_attempts id) t = (claim_for_retry max_attempts now id t).1
  execute now (reclaim stale_after limit) t = (reclaim_abandoned stale_after limit now t).1
  execute now (purge q) t = (purge_payloads skeleton q now t).1

  -- A history: statements with the instants at which the server ran them.
  unfoldable pub replay : List (Time × Statement) → Ledger → Ledger
  replay [] t = t
  replay ((now, s) ∷ h) t = replay h (execute now s t)
