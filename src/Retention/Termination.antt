-- ===== src/Retention/Termination.antt =====
-- internal/worker/retention.go: how often the loop of RunOnce runs.
use stripe_payment_service.Prelude.{
  ℕ, zero, suc, ◌+◌, ◌≤◌, ◌<◌, String, ◌≡◌, refl, Bool, true, false, inl, inr, Option, none, some,
  List, [], ◌∷◌, arith, ◌∙◌, is_some, if◌then◌else◌, All, All-map, ltb, keep, count_where, length,
  length-keep, Bool-cases,
}
use stripe_payment_service.Prelude.Table
use stripe_payment_service.Prelude.Table.{update_where}
use stripe_payment_service.Domain.Errors.{Result, ok, err}
use stripe_payment_service.Domain.Time.{Time}
use stripe_payment_service.Domain.Webhook.{ProcessedWebhook}
use stripe_payment_service.Ledger.{Ledger, event_key, find_event}
use stripe_payment_service.Ledger.Scans.{
  id_among, PurgeQuery, PurgeResult, total, is_due, due, purge_row, tally, purge_payloads,
  holds_payload,
}
use stripe_payment_service.Ledger.History.{purge, execute}
use stripe_payment_service.Ledger.Keys.{Unique, execute-Unique}
use stripe_payment_service.Stripe.Objects.{Platform}
use stripe_payment_service.Run.{
  World, Run, Trip, pure, continue, depart, arrive, statement, ◌>>=◌, ◌>>◌,
}
use stripe_payment_service.Repository.{purge_stored_payloads}
use stripe_payment_service.Retention.Reporting.{note_purged-IsHarmless, report-done}
use stripe_payment_service.Retention.Pruning.{IsPruned, prune_tokens-IsPruned}
use stripe_payment_service.Retention.{
  RetentionConfig, query, after_batch, purge_loop, run_once, report, after_purge,
}

total-tally : (rs : List ProcessedWebhook) → total (tally rs) ≡ length rs
unfolding tally
total-tally [] = refl
total-tally (r ∷ rs) = ground (arith, total-tally rs)

-- Rewriting rows that satisfy `p` into rows that do not takes them out of the count.
count-update_where :
    (p g : ProcessedWebhook → Bool) (f : ProcessedWebhook → ProcessedWebhook) (t : Ledger)
    → ((r : ProcessedWebhook) → p (f r) ≡ false)
    → All (λ r. g r ≡ true → p r ≡ true) t
    → count_where p (update_where g f t) + count_where g t ≡ count_where p t
unfolding update_where
count-update_where p g f [] gone h = refl
count-update_where p g f (r ∷ t) gone h = elim (Bool-cases (g r)) [
  | inl e ↦
      let hit = h.0 e in rw (e, gone r, hit) (omega (arith, count-update_where p g f t gone h.1))
  | inr e ↦ rw e (omega (arith, count-update_where p g f t gone h.1))
]

purge_row-purged :
    (skeleton : String → String) (now : Time) (r : ProcessedWebhook)
    → holds_payload (purge_row skeleton now r) ≡ false
purge_row-purged skeleton now r = ground arith

-- A batch counts the payloads that it purges.
purge-total :
    (skeleton : String → String) (q : PurgeQuery) (now : Time) (t : Ledger)
    → Unique t
    → count_where holds_payload (purge_payloads skeleton q now t).1
        + total (purge_payloads skeleton q now t).0
      ≡ count_where holds_payload t
unfolding purge_payloads
purge-total skeleton q now t u =
    rw
      (
        purge_payloads,
        total-tally (keep (id_among (due q now t)) t),
        length-keep (id_among (due q now t)) t,
      )
      (count-update_where holds_payload (id_among (due q now t)) (purge_row skeleton now) t
        (purge_row-purged skeleton now)
        (All-map (λ r. find_event r.event_id t ≡ some r) _ t held (Table.Unique-All event_key t u)))
  where
    held :
        (r : ProcessedWebhook)
        → find_event r.event_id t ≡ some r
        → id_among (due q now t) r ≡ true
        → holds_payload r ≡ true
    held r found chosen =
        let is =
          Table.chosen-satisfies event_key (λ x. x.received_at) q.limit (is_due q now) t r.event_id
            r u found chosen in
        ground (arith, is)

-- The run ends with a result that is there.
abbrev pub IsDone : Result (Option PurgeResult) → Type 0
IsDone (ok (some sum)) = Unit {0}
IsDone _ = ⊥

module _ (p : Platform) (c : RetentionConfig) (stopping : Time → Bool)
    (positive : 1 ≤ c.batch_size) where
  -- Fewer than `n` payloads are left.
  abbrev IsLeft : ℕ → World → Type 0
  IsLeft n w = Unique w.ledger × (count_where holds_payload w.ledger < n)

  depart-IsLeft : (n : ℕ) (ts : List Trip) (w : World) → IsLeft n w → IsLeft n (depart ts w).1
  depart-IsLeft n [] w h = h
  depart-IsLeft n (t ∷ ts) w h = h

  -- One batch, and then what follows it.
  batch-IsDone :
      (n : ℕ) (again : PurgeResult → Run (Option PurgeResult)) (sum : PurgeResult)
      (x : Option String × World)
      → ((s : PurgeResult) (v : World) → IsLeft n v → IsDone (again s v).0)
      → IsLeft (suc n) x.1
      → IsDone
          ((λ (y : Result PurgeResult × World). after_batch c.batch_size again sum y.0 y.1)
            (arrive "purge payloads"
              (λ now w. (
                ok (purge_payloads p.skeleton (query c c.batch_size) now w.ledger).0,
                record w {
                  ledger = (purge_payloads p.skeleton (query c c.batch_size) now w.ledger).1;
                },
              ))
              x)).0
  unfolding arrive execute ◌>>=◌
  batch-IsDone n again sum (some text, v) go h = tt
  batch-IsDone n again sum (none, v) go h =
      let q = query c c.batch_size in
      let batch = total (purge_payloads p.skeleton q v.clock v.ledger).0 in
      elim (Bool-cases (ltb batch c.batch_size)) [
        | inl short ↦ rw short tt
        | inr full ↦ rw full (
            go _ _ (
              execute-Unique p.skeleton v.clock (purge q) v.ledger h.0,
              omega (
                arith,
                purge-total p.skeleton q v.clock v.ledger h.0,
                h.1,
                positive,
                le→ltb' batch c.batch_size full,
              ),
            ))
      ]
    where
      le→ltb' : (a b : ℕ) → ltb a b ≡ false → b ≤ a
      le→ltb' a b h = ground arith

  purge_loop-IsDone :
      (fuel : ℕ) (sum : PurgeResult) (w : World)
      → IsLeft fuel w
      → IsDone (purge_loop p c stopping fuel sum w).0
  unfolding purge_loop purge_stored_payloads statement ◌>>=◌
  purge_loop-IsDone zero sum w h = absurd (omega (arith, h.1))
  purge_loop-IsDone (suc fuel) sum w h = elim (Bool-cases (stopping w.clock)) [
    | inl over ↦ rw (over, purge_loop) tt
    | inr on ↦
        rw (on, purge_loop)
          (batch-IsDone fuel (purge_loop p c stopping fuel) sum (depart w.trips w)
            (λ s v. purge_loop-IsDone fuel s v) (depart-IsLeft (suc fuel) w.trips w h))
  ]

  batch-tokens :
      (again : PurgeResult → Run (Option PurgeResult)) (sum : PurgeResult)
      (x : Option String × World)
      → ((s : PurgeResult) (v : World) → (again s v).1.tokens ≡ v.tokens)
      → ((λ (y : Result PurgeResult × World). after_batch c.batch_size again sum y.0 y.1)
          (arrive "purge payloads"
            (λ now w. (
              ok (purge_payloads p.skeleton (query c c.batch_size) now w.ledger).0,
              record w {
                ledger = (purge_payloads p.skeleton (query c c.batch_size) now w.ledger).1;
              },
            ))
            x)).1.tokens
        ≡ x.1.tokens
  unfolding arrive ◌>>=◌
  batch-tokens again sum (some text, v) go = refl
  batch-tokens again sum (none, v) go =
      let batch = total (purge_payloads p.skeleton (query c c.batch_size) v.clock v.ledger).0 in
      elim (Bool-cases (ltb batch c.batch_size)) [
        | inl short ↦ rw short refl
        | inr full ↦ rw full (go _ _)
      ]

  depart-tokens : (ts : List Trip) (w : World) → (depart ts w).1.tokens ≡ w.tokens
  depart-tokens [] w = refl
  depart-tokens (t ∷ ts) w = refl

  purge_loop-tokens :
      (fuel : ℕ) (sum : PurgeResult) (w : World)
      → (purge_loop p c stopping fuel sum w).1.tokens ≡ w.tokens
  unfolding purge_loop purge_stored_payloads statement ◌>>=◌
  purge_loop-tokens zero sum w = refl
  purge_loop-tokens (suc fuel) sum w = elim (Bool-cases (stopping w.clock)) [
    | inl over ↦ rw (over, purge_loop) refl
    | inr on ↦
        rw (on, purge_loop)
          (batch-tokens (purge_loop p c stopping fuel) sum (depart w.trips w)
              (λ s v. purge_loop-tokens fuel s v)
            ∙ depart-tokens w.trips w)
  ]

  reported-IsDone :
      (publishing : Bool) (sum : PurgeResult) (r : Result (Option ℕ)) (v : World)
      → IsPruned r
      → IsDone
          (continue r
            (λ pruned. report c publishing >> pure (if is_some pruned then some sum else none))
            v).0
  unfolding ◌>>=◌
  reported-IsDone publishing sum (ok (some n)) v h = rw (report-done c publishing v) tt
  reported-IsDone publishing sum (ok none) v h = absurd h
  reported-IsDone publishing sum (err e) v h = absurd h

  finished-IsDone :
      (publishing has_tokens : Bool) (fuel : ℕ) (r : Result (Option PurgeResult)) (v : World)
      → IsDone r
      → length v.tokens < fuel
      → IsDone (continue r (after_purge c publishing has_tokens stopping fuel) v).0
  unfolding ◌>>=◌
  finished-IsDone publishing has_tokens fuel (ok (some sum)) v h room =
      let noted = note_purged-IsHarmless sum v in
      rw noted.0 (
        reported-IsDone publishing sum _ _
          (prune_tokens-IsPruned c stopping positive has_tokens fuel _ (rw noted.1 room)))
  finished-IsDone publishing has_tokens fuel (ok none) v h room = absurd h
  finished-IsDone publishing has_tokens fuel (err e) v h room = absurd h

  -- A pass of the retention ends, whatever calls of the database fail and whenever it is told to
  -- stop, where the batch size is positive and the keys of the ledger are distinct: its loop over the payloads needs
  -- as many rounds as there are payloads to hold, and one more, and its loop over the tokens as many
  -- as there are tokens, and one more.
  pub run_once-IsDone :
      (publishing has_tokens : Bool) (w : World)
      → Unique w.ledger
      → IsDone
          (run_once p c publishing has_tokens stopping
            (suc (count_where holds_payload w.ledger))
            (suc (length w.tokens))
            w).0
  unfolding run_once ◌>>=◌
  run_once-IsDone publishing has_tokens w u =
      let fuel = suc (count_where holds_payload w.ledger) in
      finished-IsDone publishing has_tokens (suc (length w.tokens)) _ _
        (purge_loop-IsDone fuel (record { settled = 0; unsettled = 0 }) w (u, omega arith))
        (rw (purge_loop-tokens fuel (record { settled = 0; unsettled = 0 }) w) (omega arith))
