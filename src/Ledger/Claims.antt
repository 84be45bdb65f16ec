-- ===== src/Ledger/Claims.antt =====
-- internal/repository/postgres/webhook_repo.go: the claim of TryClaimEvent against the statements of
-- other workers.
use stripe_payment_service.Prelude.{
  ◌+◌, ◌≤◌, String, ◌≡◌, ◌⊎◌, inl, inr, refl, ap, ◌∙◌, Bool, true, false, Option, none, some, List,
  [], ◌∷◌, arith, All, ◌==◌, any_where, Bool-cases, Option-cases,
}
use stripe_payment_service.Prelude.Table
use stripe_payment_service.Domain.Status.{processing, is_settled}
use stripe_payment_service.Domain.Time.{Time, Duration}
use stripe_payment_service.Domain.Webhook.{ProcessedWebhook, Delivery}
use stripe_payment_service.Ledger.{
  Ledger, event_key, find_event, claim_again, claim, in_flight, retry_guard, set_processed,
  set_skipped, set_failed,
}
use stripe_payment_service.Ledger.Lookup.{find-update_event, find-claim, find-reclaim, find-purge}
use stripe_payment_service.Ledger.Scans.{is_abandoned, is_due}
use stripe_payment_service.Ledger.History.{
  Statement, try_claim, mark_processed, mark_skipped, mark_failed, retry_claim, reclaim, purge,
  execute, replay,
}
use stripe_payment_service.Ledger.Final.{SameOutcome, replay-settled}
use stripe_payment_service.Ledger.Keys.{Unique, execute-Unique}

-- A statement that runs before a claim made at `since` has gone stale by the statement's own measure.
abbrev pub IsTimely : Time → Time × Statement → Type 0
IsTimely since (now, try_claim d w) = now ≤ since + d
IsTimely since (now, reclaim d limit) = now ≤ since + d
IsTimely since _ = Unit

-- A settlement of event `id` as failed, by whichever worker.
abbrev pub records_failure : String → Time × Statement → Bool
records_failure id (now, mark_failed reason k) = k == id
records_failure id _ = false

-- The row is still the claimed one, or it has been settled for good.
abbrev pub IsKept : ProcessedWebhook → Option ProcessedWebhook → Type 0
IsKept r none = ⊥
IsKept r (some q) = (q ≡ r) ⊎ (is_settled q.status ≡ true)

unchanged : (r : ProcessedWebhook) (o : Option ProcessedWebhook) → o ≡ some r → IsKept r o
unchanged r o e = rw e (inl refl)

module _ (skeleton : String → String) (id : String) where
  execute-IsKept :
      (now : Time) (s : Statement) (t : Ledger) (r : ProcessedWebhook)
      → Unique t
      → find_event id t ≡ some r
      → r.status ≡ processing
      → IsTimely r.updated_at (now, s)
      → records_failure id (now, s) ≡ false
      → IsKept r (find_event id (execute skeleton now s t))
  unfolding execute
  execute-IsKept now (try_claim d w) t r u e p c n =
      unchanged r _ (rw (find-claim id d now w t, e) (ground arith))
  execute-IsKept now (mark_processed k) t r u e p c n =
      rw (find-update_event id k in_flight (set_processed now) t (λ x. refl), e)
        (elim (Bool-cases (k == id)) [
          | inl same ↦ rw (same, p) (inr refl)
          | inr other ↦ rw other (inl refl)
        ])
  execute-IsKept now (mark_skipped reason k) t r u e p c n =
      rw (find-update_event id k in_flight (set_skipped now reason) t (λ x. refl), e)
        (elim (Bool-cases (k == id)) [
          | inl same ↦ rw (same, p) (inr refl)
          | inr other ↦ rw other (inl refl)
        ])
  execute-IsKept now (mark_failed reason k) t r u e p c n =
      rw (find-update_event id k in_flight (set_failed now reason) t (λ x. refl), e, n) (inl refl)
  execute-IsKept now (retry_claim max k) t r u e p c n = unchanged r _ (
      rw (find-update_event id k (retry_guard max) (claim_again now) t (λ x. refl), e)
        (ground arith))
  execute-IsKept now (reclaim d limit) t r u e p c n = unchanged r _ (
      rw (find-reclaim id d limit now t, e)
        (ground (
          arith,
          Table.chosen-satisfies event_key (λ x. x.updated_at) limit (is_abandoned d now) t id r u
              e,
        )))
  execute-IsKept now (purge q) t r u e p c n = unchanged r _ (
      rw (find-purge id skeleton q now t, e)
        (ground (
          arith,
          Table.chosen-satisfies event_key (λ x. x.received_at) q.limit (is_due q now) t id r u e,
        )))

  -- What holds after a history that leaves the row settled.
  abbrev IsUnclaimable : Duration → Time → Delivery → ProcessedWebhook → Ledger → Type 0
  IsUnclaimable d now w r t = IsKept r (find_event id t) × ((claim d now w t).0 ≡ none)

  settled-IsUnclaimable :
      (d : Duration) (now : Time) (w : Delivery) (t : Ledger) (r q : ProcessedWebhook)
      → w.event_id ≡ id
      → SameOutcome q (find_event id t)
      → is_settled q.status ≡ true
      → IsUnclaimable d now w r t
  unfolding claim
  settled-IsUnclaimable d now w t r q same outcome done = elim (Option-cases (find_event id t)) [
    | inl e ↦ absurd (rw e at outcome)
    | inr (x, e) ↦
        let status : x.status ≡ q.status = (rw e at outcome).0 in
        let settled : is_settled x.status ≡ true = rw status done in
        (rw e (inr settled), rw (same, e, claim) (ground (arith, settled)))
  ]

  -- A claim is exclusive, whoever the other workers are and whatever they do: after any history of
  -- statements none of which comes late enough to find the claim stale, a further attempt to claim the
  -- event that does not find it stale either obtains nothing, and the row is still the claimed one or has
  -- been settled for good; unless a worker has recorded the event as failed. The settlements of the
  -- history may be those of the holder or of any other worker, since the statements do not tell them apart.
  pub claim_exclusive :
      (h : List (Time × Statement)) (t : Ledger) (r : ProcessedWebhook) (d : Duration) (now : Time)
      (w : Delivery)
      → Unique t
      → find_event id t ≡ some r
      → r.status ≡ processing
      → All (IsTimely r.updated_at) h
      → w.event_id ≡ id
      → now ≤ r.updated_at + d
      → (any_where (records_failure id) h ≡ true) ⊎ IsUnclaimable d now w r (replay skeleton h t)
  unfolding replay claim
  claim_exclusive [] t r d now w u e p c same fresh =
      inr (rw e (inl refl), rw (same, e, claim) (ground arith))
  claim_exclusive ((at, s) ∷ later) t r d now w u e p c same fresh =
      elim (Bool-cases (records_failure id (at, s))) [
        | inl lost ↦ rw lost (inl refl)
        | inr n ↦ rw n (
            let next = execute skeleton at s t in
            let unique = execute-Unique skeleton at s t u in
            let kept = execute-IsKept at s t r u e p c.0 n in
            elim (Option-cases (find_event id next)) [
              | inl gone ↦ absurd (rw gone at kept)
              | inr (q, found) ↦ elim (rw found at kept) [
                | inl whole ↦
                    claim_exclusive later next r d now w unique (found ∙ ap some whole) p c.1 same
                      fresh
                | inr done ↦ inr (
                    settled-IsUnclaimable d now w (replay skeleton later next) r q same
                      (replay-settled skeleton id later next q unique found done) done)
              ]
            ])
      ]
