-- ===== src/Sweeper/Drain.antt =====
-- internal/worker/webhook_sweeper.go: what passes of retryFailed do to the backlog, where no call of the
-- database fails and the passes are not told to stop.
use stripe_payment_service.Prelude.{
  ℕ, zero, suc, ◌+◌, ◌-◌, ◌≤◌, String, ◌≡◌, refl, sym, Bool, true, false, inl, inr, Option, some,
  List, [], ◌∷◌, arith, any_where, count_where, ◌==◌, eq_iff, Bool-cases,
}
use stripe_payment_service.Domain.Errors.{Result, ok, err}
use stripe_payment_service.Domain.Time.{Time}
use stripe_payment_service.Domain.Webhook.{ProcessedWebhook}
use stripe_payment_service.Ledger.{Ledger, find_event, event_key, retry_guard}
use stripe_payment_service.Prelude.Chosen.{lookup-chosen}
use stripe_payment_service.Ledger.History.{Statement, replay}
use stripe_payment_service.Ledger.Final.{replay-attempts}
use stripe_payment_service.Ledger.Scans.{is_retryable, list_retryable}
use stripe_payment_service.Stripe.Objects.{Platform}
use stripe_payment_service.Run.{World, pure, continue, ◌>>=◌}
use stripe_payment_service.Run.Keeps.{statement-calm}
use stripe_payment_service.Repository.{list_retryable_events}
use stripe_payment_service.Sweeper.{
  SweeperConfig, retry_query, retry_event, retry_events, retry_failed,
}
use stripe_payment_service.Sweeper.Bounds.{counted, retry_event-IsBounded}
use stripe_payment_service.Sweeper.Progress.{
  IsAdvanced, IsTried, retry_event-other, retry_event-IsAdvanced, retry_event-refused,
}

abbrev never : Time → Bool
never now = false

-- The world after a run whose result is only rewritten.
world-rewritten :
    {A B : Type 0} (f : A → B) (x : Result A × World) → (continue x.0 (λ a. pure (f a)) x.1).1 ≡ x.1
world-rewritten f (ok a, v) = refl
world-rewritten f (err e, v) = refl

-- The row of an event, whose id is spelled otherwise.
moved :
    {i j : String} (t : Ledger) {o : Option ProcessedWebhook}
    → i ≡ j
    → find_event i t ≡ o
    → find_event j t ≡ o
moved t e h = rw (← e) h

module _ (p : Platform) (max : ℕ) where
  retry_events-step :
      (event : ProcessedWebhook) (events : List ProcessedWebhook) (w : World)
      → (retry_events p max never (event ∷ events) w).1
        ≡ (retry_events p max never events (retry_event p max event w).1).1
  unfolding retry_events ◌>>=◌
  retry_events-step event events w =
      let (one, e, a, b) = counted 1 _ (retry_event-IsBounded p max event w) in
      rw e (world-rewritten _ (retry_events p max never events (retry_event p max event w).1))

  -- A row that is at rest after so many attempts stays so, whatever is retried.
  kept_by_one :
      (event : ProcessedWebhook) (j : String) (n : ℕ) (w : World)
      → w.trips ≡ []
      → IsAdvanced j n w.ledger
      → ((retry_event p max event w).1.trips ≡ [])
        × IsAdvanced j n (retry_event p max event w).1.ledger
  kept_by_one event j n w calm (s, e, h, rest) = elim (Bool-cases (event.event_id == j)) [
    | inr differ ↦
        let k = retry_event-other p max event j (some s) differ w calm e in (k.0, (s, k.1, h, rest))
    | inl same ↦
        let here : event.event_id ≡ j = (eq_iff event.event_id j).0 same in
        let found : find_event event.event_id w.ledger ≡ some s = moved _ (sym here) e in
        elim (Bool-cases (retry_guard max s)) [
          | inl again ↦
              let (k, (s', f, m, r)) = retry_event-IsAdvanced p max event w s calm found again in
              (k, (s', moved _ here f, omega arith, r))
          | inr over ↦
              let k = retry_event-refused p max event w s calm found over in
              (k.0, (s, moved _ here k.1, h, rest))
        ]
  ]

  kept_by_all :
      (events : List ProcessedWebhook) (j : String) (n : ℕ) (w : World)
      → w.trips ≡ []
      → IsAdvanced j n w.ledger
      → ((retry_events p max never events w).1.trips ≡ [])
        × IsAdvanced j n (retry_events p max never events w).1.ledger
  unfolding retry_events
  kept_by_all [] j n w calm a = (calm, a)
  kept_by_all (event ∷ events) j n w calm a =
      let k = kept_by_one event j n w calm a in
      rw (retry_events-step event events w) (kept_by_all events j n _ k.0 k.1)

  -- An event on the list that may be retried is tried once more at least, and comes to rest.
  retry_events-IsAdvanced :
      (events : List ProcessedWebhook) (j : String) (r : ProcessedWebhook) (w : World)
      → w.trips ≡ []
      → find_event j w.ledger ≡ some r
      → retry_guard max r ≡ true
      → any_where (λ e. e.event_id == j) events ≡ true
      → ((retry_events p max never events w).1.trips ≡ [])
        × IsAdvanced j (r.attempts + 1) (retry_events p max never events w).1.ledger
  retry_events-IsAdvanced [] j r w calm found guard listed = absurd (cc listed)
  retry_events-IsAdvanced (event ∷ events) j r w calm found guard listed =
      rw (retry_events-step event events w) (elim (Bool-cases (event.event_id == j)) [
        | inl same ↦
            let here : event.event_id ≡ j = (eq_iff event.event_id j).0 same in
            let (k, a) =
              retry_event-IsAdvanced p max event w r calm (moved _ (sym here) found) guard in
            kept_by_all events j (r.attempts + 1) _ k (a.0, moved _ here a.1, a.2, a.3)
        | inr differ ↦
            let k = retry_event-other p max event j (some r) differ w calm found in
            retry_events-IsAdvanced events j r _ k.0 k.1 guard (rw differ at listed)
      ])

-- The sweeper's query finds the event due, and has room for all that are.
pub record IsDue (c : SweeperConfig) (j : String) (w : World) (r : ProcessedWebhook) : Type 0 where
  pub calm : w.trips ≡ []
  pub found : find_event j w.ledger ≡ some r
  pub due : is_retryable (retry_query c) w.clock r ≡ true
  pub room : count_where (is_retryable (retry_query c) w.clock) w.ledger ≤ c.batch_size

module _ (p : Platform) (c : SweeperConfig) where
  retry_failed-calm :
      (w : World)
      → w.trips ≡ []
      → (retry_failed p c never w).1
        ≡ (retry_events p c.max_attempts never
            (list_retryable (retry_query c) w.clock w.ledger)
            w).1
  unfolding retry_failed list_retryable_events ◌>>=◌
  retry_failed-calm w calm = rw (statement-calm _ _ w calm) refl

  -- A pass does not pass over an event that is due. Where no call of the database fails, the pass is not
  -- told to stop and the batch has room for all events that are due, the row of each of them has counted
  -- one attempt more at least after the pass, and is not in flight.
  pub retry_failed-IsAdvanced :
      (j : String) (r : ProcessedWebhook) (w : World)
      → IsDue c j w r
      → ((retry_failed p c never w).1.trips ≡ [])
        × IsAdvanced j (r.attempts + 1) (retry_failed p c never w).1.ledger
  unfolding list_retryable
  retry_failed-IsAdvanced j r w d =
      let events = list_retryable (retry_query c) w.clock w.ledger in
      let listed : any_where (λ e. e.event_id == j) events ≡ true =
        lookup-chosen event_key (λ e. e.updated_at) c.batch_size
          (is_retryable (retry_query c) w.clock) w.ledger j r d.found d.due d.room in
      let guard : retry_guard c.max_attempts r ≡ true = ground (arith, d.due) in
      rw (retry_failed-calm w d.calm)
        (retry_events-IsAdvanced p c.max_attempts events j r w d.calm d.found guard listed)

  -- Passes that each find the event due. Between them other workers run any statements, and any time goes
  -- by.
  pub data Passes (j : String) (w : World) : ℕ → World → Type 0 where
    no_pass : Passes j w 0 w
    pass :
        {n : ℕ} {v : World} (h : List (Time × Statement)) (u : World) (r : ProcessedWebhook)
        → Passes j w n v
        → u.ledger ≡ replay p.skeleton h v.ledger
        → IsDue c j u r
        → Passes j w (suc n) (retry_failed p c never u).1

  -- An event is due for no more passes than what is left of its budget, whatever statements other workers
  -- run in between: where no call of the database fails during the passes and each batch has room for all
  -- events that are due, each pass that finds the event due counts one attempt at least, so that there are
  -- no more of them than attempts are left.
  pub Passes-IsTried :
      (j : String) (w : World) (r : ProcessedWebhook)
      → find_event j w.ledger ≡ some r
      → (n : ℕ) (v : World) → Passes j w n v
      → IsTried j (r.attempts + n) v.ledger × (n ≤ c.max_attempts - r.attempts)
  Passes-IsTried j w r found zero v no_pass = ((r, found, omega arith), omega arith)
  Passes-IsTried j w r found (suc n) v (pass {v = before} h u q passed kept due) =
      let ((s, e, tried), within) = Passes-IsTried j w r found n before passed in
      let counts = replay-attempts p.skeleton j h before.ledger s e in
      let least : s.attempts ≤ q.attempts = (rw (← kept, due.found) at counts).0 in
      let (calm, (s', e', tried', rest)) = retry_failed-IsAdvanced j q u due in
      let budget : q.attempts + 1 ≤ c.max_attempts = ground (arith, due.due) in
      ((s', e', omega arith), omega arith)
