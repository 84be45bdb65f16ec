-- ===== src/Sweeper/Alerts.antt =====
-- internal/worker/webhook_sweeper.go: when report calls for an operator.
use stripe_payment_service.Prelude.{
  ℕ, ◌+◌, ◌-◌, ◌≤◌, ◌⊎◌, String, ◌≡◌, refl, ◌↔◌, ◌||◌, ◌&&◌, Bool, true, false, inl, inr, Option,
  none, some, List, [], ◌∷◌, arith, any_where, count_where, keep, map, ltb, nat_eq, min, Bool-cases,
  if◌then◌else◌,
}
use stripe_payment_service.Domain.Time.{Time, Duration}
use stripe_payment_service.Domain.Webhook.{ProcessedWebhook}
use stripe_payment_service.Ledger.{Ledger}
use stripe_payment_service.Ledger.Scans.{
  LedgerStats, ledger_stats, least, is_unsettled, is_dead_lettered, unsettled,
}
use stripe_payment_service.Ledger.Reports.{ledger_stats-unsettled}
use stripe_payment_service.Logger.{Level, level_error}
use native.Mathlib.Nat.{min-eq_left, min-eq_right}
use stripe_payment_service.Run.{World, ledger_gauge, ◌>>=◌}
use stripe_payment_service.Run.Keeps.{statement-calm}
use stripe_payment_service.Repository.{read_ledger_stats, count_subscriptions_in_dunning}
use stripe_payment_service.Sweeper.{SweeperConfig, is_aging, alert_line, report}

-- A row that nothing will retry, or that has waited for longer than operators want.
abbrev pub is_alarming : SweeperConfig → Time → ProcessedWebhook → Bool
is_alarming c now r =
    is_dead_lettered c.max_attempts r || (is_unsettled r && ltb c.alert_after (now - r.updated_at))

earlier : (x y : ℕ) → ((min x y ≡ x) × (x ≤ y)) ⊎ ((min x y ≡ y) × (y ≤ x))
earlier x y = elim (le-or-lt x y) [
  | inl h ↦ inl (min-eq_left h, h)
  | inr h ↦ inr (min-eq_right (omega arith), omega arith)
]
  where
    le-or-lt : (a b : ℕ) → (a ≤ b) ⊎ (b + 1 ≤ a)
    le-or-lt a b = elim (Bool-cases (ltb b a)) [
      | inl e ↦ inr (ground arith)
      | inr e ↦ inl (ground arith)
    ]

stale_least :
    (d : Duration) (now : Time) (xs : List Time)
    → is_aging d now (least xs) ≡ any_where (λ t. ltb d (now - t)) xs
stale_least d now [] = refl
stale_least d now (x ∷ xs) = extended (least xs) _ (stale_least d now xs)
  where
    extended :
        (o : Option Time) (b : Bool)
        → is_aging d now o ≡ b
        → is_aging d now (elim o [ none ↦ some x | some y ↦ some (min x y) ])
          ≡ (if ltb d (now - x) then true else b)
    extended none b e = ground arith
    extended (some y) b e = ground (arith, earlier x y)

any-count : (p : ProcessedWebhook → Bool) (t : Ledger) → ltb 0 (count_where p t) ≡ any_where p t
any-count p [] = refl
any-count p (r ∷ t) = ground (arith, any-count p t)

any-is_alarming :
    (c : SweeperConfig) (now : Time) (t : Ledger)
    → any_where (is_alarming c now) t ≡ (
        any_where (is_dead_lettered c.max_attempts) t
        || any_where
            (λ x. ltb c.alert_after (now - x))
            (map (λ r. r.updated_at) (keep is_unsettled t)))
any-is_alarming c now [] = refl
any-is_alarming c now (r ∷ t) = ground (arith, any-is_alarming c now t)

calm_ledger :
    (c : SweeperConfig) (now : Time) (t : Ledger)
    → nat_eq (count_where is_unsettled t) 0 ≡ true
    → any_where (is_alarming c now) t ≡ false
calm_ledger c now [] e = refl
calm_ledger c now (r ∷ t) e = ground (arith, calm_ledger c now t)

-- The branches of the alert_line, by the three things that it looks at.
branches :
    (c : SweeperConfig) (now : Time) (s : LedgerStats) (quiet dead stale : Bool)
    → nat_eq (unsettled s) 0 ≡ quiet
    → ltb 0 s.dead_lettered ≡ dead
    → is_aging c.alert_after now s.oldest_unsettled ≡ stale
    → ((alert_line c now s).0 ≡ level_error) ↔ ((if quiet then false else dead || stale) ≡ true)
unfolding alert_line
branches c now s true dead stale q d t = rw q ((λ e. cc), λ e. cc)
branches c now s false true stale q d t = rw (q, d) ((λ e. refl), λ e. refl)
branches c now s false false true q d t = rw (q, d, t) ((λ e. refl), λ e. refl)
branches c now s false false false q d t = rw (q, d, t) ((λ e. cc), λ e. cc)

alert_level :
    (c : SweeperConfig) (now : Time) (t : Ledger)
    → ((alert_line c now (ledger_stats c.max_attempts t)).0 ≡ level_error)
      ↔ (any_where (is_alarming c now) t ≡ true)
unfolding ledger_stats
alert_level c now t = elim (Bool-cases (nat_eq (count_where is_unsettled t) 0)) [
  | inl quiet ↦ rw (calm_ledger c now t quiet) (
      branches c now (ledger_stats c.max_attempts t) true _ _
        (rw (ledger_stats-unsettled c.max_attempts t) quiet) refl refl)
  | inr busy ↦ rw (any-is_alarming c now t) (
      branches c now (ledger_stats c.max_attempts t) false _ _
        (rw (ledger_stats-unsettled c.max_attempts t) busy)
        (any-count (is_dead_lettered c.max_attempts) t)
        (stale_least c.alert_after now (map (λ r. r.updated_at) (keep is_unsettled t))))
]

-- The line that a report logs, whatever it published.
abbrev pub IsReported : (Level → Type 0) → World → World → Type 0
IsReported P w v = (l : Level) × (message : String) × (v.notes ≡ (l, message) ∷ w.notes) × P l

-- Where no call of the database fails, a report logs one line, and it is an error exactly when some
-- event of the ledger calls for an operator: it is dead-lettered, or it is not settled and was last
-- touched longer ago than the alert is set to. The ledger stays as it is.
pub report-IsReported :
    (c : SweeperConfig) (publishing : Bool) (w : World)
    → w.trips ≡ []
    → IsReported
        (λ l. (l ≡ level_error) ↔ (any_where (is_alarming c w.clock) w.ledger ≡ true))
        w
        (report c publishing w).1
      × ((report c publishing w).1.ledger ≡ w.ledger)
unfolding report read_ledger_stats count_subscriptions_in_dunning ◌>>=◌
report-IsReported c false w calm =
    let now = w.clock in
    let stats = ledger_stats c.max_attempts w.ledger in
    rw (statement-calm _ _ w calm) (
      ((alert_line c now stats).0, (alert_line c now stats).1, refl, alert_level c now w.ledger),
      refl,
    )
report-IsReported c true w calm =
    let now = w.clock in
    let stats = ledger_stats c.max_attempts w.ledger in
    let gauge = ledger_gauge stats.in_processing stats.retryable stats.dead_lettered in
    rw (statement-calm _ _ w calm) (
      rw (statement-calm _ _ (record w { gauges = gauge ∷ w.gauges }) calm) (
        ((alert_line c now stats).0, (alert_line c now stats).1, refl, alert_level c now w.ledger),
        refl,
      ))
