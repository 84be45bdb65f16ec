-- ===== src/Ledger/Final.antt =====
-- internal/repository/postgres/webhook_repo.go: the outcome and the attempts of an event over a history
-- of statements.
use stripe_payment_service.Prelude.{
  ℕ, suc, length, ◌+◌, ◌≤◌, String, ◌≡◌, refl, true, Option, none, some, List, [], ◌∷◌, arith,
}
use stripe_payment_service.Prelude.Table
use stripe_payment_service.Domain.Status.{is_settled}
use stripe_payment_service.Domain.Time.{Time}
use stripe_payment_service.Domain.Webhook.{ProcessedWebhook}
use stripe_payment_service.Ledger.{
  Ledger, event_key, find_event, claim_again, in_flight, retry_guard, set_processed, set_skipped,
  set_failed,
}
use stripe_payment_service.Ledger.Lookup.{find-update_event, find-claim, find-reclaim, find-purge}
use stripe_payment_service.Ledger.Scans.{is_abandoned}
use stripe_payment_service.Ledger.History.{
  Statement, try_claim, mark_processed, mark_skipped, mark_failed, retry_claim, reclaim, purge,
  execute, replay,
}
use stripe_payment_service.Ledger.Keys.{Unique, execute-Unique}

-- The row is still there, with the outcome that was recorded.
abbrev pub SameOutcome : ProcessedWebhook → Option ProcessedWebhook → Type 0
SameOutcome r none = ⊥
SameOutcome r (some q) =
    (q.status ≡ r.status)
    × (q.attempts ≡ r.attempts)
    × (q.processed_at ≡ r.processed_at)
    × (q.last_error ≡ r.last_error)

SameOutcome-trans :
    (r q : ProcessedWebhook) (o : Option ProcessedWebhook)
    → SameOutcome r (some q)
    → SameOutcome q o
    → SameOutcome r o
SameOutcome-trans r q none h k = k
SameOutcome-trans r q (some x) h k = ground arith

-- The row is still there, with between 0 and `n` more attempts.
abbrev pub Counts : ℕ → ProcessedWebhook → Option ProcessedWebhook → Type 0
Counts n r none = ⊥
Counts n r (some q) = (r.attempts ≤ q.attempts) × (q.attempts ≤ r.attempts + n)

Counts-trans :
    (n : ℕ) (r q : ProcessedWebhook) (o : Option ProcessedWebhook)
    → Counts 1 r (some q)
    → Counts n q o
    → Counts (suc n) r o
Counts-trans n r q none h k = k
Counts-trans n r q (some x) h k = omega arith

-- The row that a statement kept, where losing it is impossible.
kept :
    (o : Option ProcessedWebhook) (P : Option ProcessedWebhook → Type 0)
    → (P none → ⊥)
    → P o
    → (q : ProcessedWebhook) × (o ≡ some q) × P (some q)
kept none P lost h = absurd (lost h)
kept (some q) P lost h = (q, refl, h)

module _ (skeleton : String → String) (id : String) where
  execute-settled :
      (now : Time) (s : Statement) (t : Ledger) (r : ProcessedWebhook)
      → Unique t
      → find_event id t ≡ some r
      → is_settled r.status ≡ true
      → SameOutcome r (find_event id (execute skeleton now s t))
  unfolding execute
  execute-settled now (try_claim d w) t r u e h = rw (find-claim id d now w t, e) (ground arith)
  execute-settled now (mark_processed k) t r u e h =
      rw (find-update_event id k in_flight (set_processed now) t (λ x. refl), e) (ground arith)
  execute-settled now (mark_skipped reason k) t r u e h =
      rw (find-update_event id k in_flight (set_skipped now reason) t (λ x. refl), e) (ground arith)
  execute-settled now (mark_failed reason k) t r u e h =
      rw (find-update_event id k in_flight (set_failed now reason) t (λ x. refl), e) (ground arith)
  execute-settled now (retry_claim max k) t r u e h =
      rw (find-update_event id k (retry_guard max) (claim_again now) t (λ x. refl), e)
        (ground arith)
  execute-settled now (reclaim d limit) t r u e h =
      rw (find-reclaim id d limit now t, e)
        (ground (
          arith,
          Table.chosen-satisfies event_key (λ x. x.updated_at) limit (is_abandoned d now) t id r u
              e,
        ))
  execute-settled now (purge q) t r u e h = rw (find-purge id skeleton q now t, e) (ground arith)

  -- Once an event has succeeded or was skipped, no later history of statements, by any number of
  -- workers, changes its status, its attempts, its time of processing or its reason.
  pub replay-settled :
      (h : List (Time × Statement)) (t : Ledger) (r : ProcessedWebhook)
      → Unique t
      → find_event id t ≡ some r
      → is_settled r.status ≡ true
      → SameOutcome r (find_event id (replay skeleton h t))
  unfolding replay
  replay-settled [] t r u e h = rw e (refl, refl, refl, refl)
  replay-settled ((now, s) ∷ later) t r u e h =
      let (q, found, same) = kept _ (SameOutcome r) (λ x. x) (execute-settled now s t r u e h) in
      SameOutcome-trans r q _ same (
        replay-settled later (execute skeleton now s t) q (execute-Unique skeleton now s t u) found
          (rw (same.0) h))

  execute-attempts :
      (now : Time) (s : Statement) (t : Ledger) (r : ProcessedWebhook)
      → find_event id t ≡ some r
      → Counts 1 r (find_event id (execute skeleton now s t))
  unfolding execute
  execute-attempts now (try_claim d w) t r e = rw (find-claim id d now w t, e) (ground arith)
  execute-attempts now (mark_processed k) t r e =
      rw (find-update_event id k in_flight (set_processed now) t (λ x. refl), e) (ground arith)
  execute-attempts now (mark_skipped reason k) t r e =
      rw (find-update_event id k in_flight (set_skipped now reason) t (λ x. refl), e) (ground arith)
  execute-attempts now (mark_failed reason k) t r e =
      rw (find-update_event id k in_flight (set_failed now reason) t (λ x. refl), e) (ground arith)
  execute-attempts now (retry_claim max k) t r e =
      rw (find-update_event id k (retry_guard max) (claim_again now) t (λ x. refl), e)
        (ground arith)
  execute-attempts now (reclaim d limit) t r e =
      rw (find-reclaim id d limit now t, e) (ground arith)
  execute-attempts now (purge q) t r e = rw (find-purge id skeleton q now t, e) (ground arith)

  -- A row is never lost, its attempts never fall, and each statement counts one attempt at most.
  pub replay-attempts :
      (h : List (Time × Statement)) (t : Ledger) (r : ProcessedWebhook)
      → find_event id t ≡ some r
      → Counts (length h) r (find_event id (replay skeleton h t))
  unfolding replay
  replay-attempts [] t r e = rw e (omega arith)
  replay-attempts ((now, s) ∷ later) t r e =
      let (q, found, counts) = kept _ (Counts 1 r) (λ x. x) (execute-attempts now s t r e) in
      Counts-trans (length later) r q _ counts
        (replay-attempts later (execute skeleton now s t) q found)
