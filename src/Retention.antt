-- ===== src/Retention.antt =====
-- internal/worker/retention.go: one pass of the retention of payloads and tokens.
pub mod Pruning
pub mod Reporting
pub mod Termination
pub mod Tests
use stripe_payment_service.Prelude.{
  or_default, ℕ, zero, suc, ◌+◌, ◌*◌, Bool, true, false, String, is_some, Option, none, some, ltb,
  if◌then◌else◌,
}
use stripe_payment_service.Domain.Errors.{Result, ok, err}
use stripe_payment_service.Domain.Time.{Time, Duration, hour}
use stripe_payment_service.Ledger.Scans.{PurgeQuery, PurgeResult, total, RetentionStats}
use stripe_payment_service.Stripe.Objects.{Platform}
use stripe_payment_service.Run.{
  World, Run, pure, attempt, reads, note, set_gauge, past_window_gauge, ◌>>=◌, ◌>>◌,
}
use stripe_payment_service.Logger.{Level, level_debug, level_info, level_warn, level_error}
use stripe_payment_service.Repository.Sessions.{delete_expired_refresh_tokens}
use stripe_payment_service.Repository.{purge_stored_payloads, read_retention_stats}

-- A duration or a count that is not positive in the code is 0 here.
pub record RetentionConfig : Type 0 where
  pub interval : Duration
  pub settled_after : Duration
  pub unsettled_after : Duration
  pub batch_size : ℕ
  pub refresh_token_grace : Duration

abbrev days : ℕ → Duration
days n = n * (24 * hour)

-- withDefaults
unfoldable pub with_defaults : RetentionConfig → RetentionConfig
with_defaults c = record {
  interval = or_default c.interval (6 * hour);
  settled_after = or_default c.settled_after (days 30);
  unsettled_after = or_default c.unsettled_after (days 90);
  batch_size = or_default c.batch_size 500;
  refresh_token_grace = or_default c.refresh_token_grace (days 7);
}

-- query
abbrev pub query : RetentionConfig → ℕ → PurgeQuery
query c limit = record {
  settled_after = c.settled_after;
  unsettled_after = c.unsettled_after;
  limit = limit;
}

abbrev pub add_batch : PurgeResult → PurgeResult → PurgeResult
add_batch sum batch = record {
  settled = sum.settled + batch.settled;
  unsettled = sum.unsettled + batch.unsettled;
}

-- What follows a batch: a failure or a short batch ends the loop, and else it goes on.
abbrev pub after_batch :
    ℕ
    → (PurgeResult → Run (Option PurgeResult))
    → PurgeResult
    → Result PurgeResult
    → Run (Option PurgeResult)
after_batch batch_size again sum (err e) = do
  note level_error "payload purge failed"
  pure (some sum)
after_batch batch_size again sum (ok batch) =
    if ltb (total batch) batch_size
    then pure (some (add_batch sum batch))
    else again (add_batch sum batch)

-- The loop of RunOnce, on fuel: none where the fuel runs out. `stopping` says when the context has
-- ended.
unfoldable pub purge_loop :
    Platform → RetentionConfig → (Time → Bool) → ℕ → PurgeResult → Run (Option PurgeResult)
purge_loop p c stopping zero sum = pure none
purge_loop p c stopping (suc fuel) sum = do
  now ← reads (λ w. w.clock)
  if stopping now then pure (some sum) else do
    r ← attempt (purge_stored_payloads p (query c c.batch_size))
    after_batch c.batch_size (purge_loop p c stopping fuel) sum r

abbrev pub note_pruned : ℕ → Run Unit
note_pruned zero = pure tt
note_pruned (suc n) = note level_info "expired refresh tokens pruned"

-- What follows a deletion of expired tokens.
abbrev pub after_prune : ℕ → (ℕ → Run (Option ℕ)) → (deleted_before : ℕ) → Result ℕ → Run (Option ℕ)
after_prune batch_size again sum (err e) = do
  note level_error "could not prune expired refresh tokens"
  pure (some sum)
after_prune batch_size again sum (ok deleted) =
    if ltb deleted batch_size
    then (do note_pruned (sum + deleted); pure (some (sum + deleted)))
    else again (sum + deleted)

-- The loop of pruneRefreshTokens, on fuel, with how many tokens it has deleted.
unfoldable pub prune_loop : RetentionConfig → (Time → Bool) → ℕ → ℕ → Run (Option ℕ)
prune_loop c stopping zero sum = pure none
prune_loop c stopping (suc fuel) sum = do
  now ← reads (λ w. w.clock)
  if stopping now then pure (some sum) else do
    r ← attempt (delete_expired_refresh_tokens c.refresh_token_grace c.batch_size)
    after_prune c.batch_size (prune_loop c stopping fuel) sum r

-- pruneRefreshTokens; without a table of tokens it does nothing.
abbrev pub prune_tokens : RetentionConfig → (has_tokens : Bool) → (Time → Bool) → ℕ → Run (Option ℕ)
prune_tokens c false stopping fuel = pure (some 0)
prune_tokens c true stopping fuel = prune_loop c stopping fuel 0

abbrev pub publish_due : Bool → ℕ → Run Unit
publish_due false due = pure tt
publish_due true due = set_gauge (past_window_gauge due)

abbrev pub note_due : ℕ → Run Unit
note_due zero = note level_debug "webhook payload retention is current"
note_due (suc n) = note level_warn "webhook payloads remain past their retention window"

abbrev pub reporting_stats : Bool → Result RetentionStats → Run Unit
reporting_stats publishing (err e) = note level_error "could not read retention stats"
reporting_stats publishing (ok stats) = do
  publish_due publishing stats.due_now
  note_due stats.due_now

-- report
unfoldable pub report : RetentionConfig → (publishing : Bool) → Run Unit
report c publishing = do
  stats ← attempt (read_retention_stats (query c 0))
  reporting_stats publishing stats

abbrev pub note_when : Bool → Level → String → Run Unit
note_when false level message = pure tt
note_when true level message = note level message

-- The lines of RunOnce about what was purged.
abbrev pub note_purged : PurgeResult → Run Unit
note_purged sum = do
  note_when (ltb 0 (total sum)) level_info "webhook payloads minimised"
  note_when (ltb 0 sum.unsettled) level_warn
      "purged payloads of unresolved events past the retention bound"

-- What follows the loop of RunOnce.
abbrev pub after_purge :
    RetentionConfig
    → (publishing has_tokens : Bool) → (Time → Bool)
    → ℕ
    → Option PurgeResult
    → Run (Option PurgeResult)
after_purge c publishing has_tokens stopping fuel none = pure none
after_purge c publishing has_tokens stopping fuel (some sum) = do
  note_purged sum
  pruned ← prune_tokens c has_tokens stopping fuel
  report c publishing
  pure (if is_some pruned then some sum else none)

-- RunOnce, with fuel for its two loops; none where it runs out.
unfoldable pub run_once :
    Platform
    → RetentionConfig
    → (publishing has_tokens : Bool) → (Time → Bool)
    → (purges prunes : ℕ) → Run (Option PurgeResult)
run_once p c publishing has_tokens stopping purges prunes = do
  sum ← purge_loop p c stopping purges (record { settled = 0; unsettled = 0 })
  after_purge c publishing has_tokens stopping prunes sum

-- Stats
unfoldable pub stats : RetentionConfig → Run RetentionStats
stats c = read_retention_stats (query c 0)
