-- ===== src/Run.antt =====
-- What a use case runs in: the clock, the database, and the metrics that it records. Each call of the
-- database is a trip, which takes time and may fail before it has changed anything.
pub mod Keeps
use stripe_payment_service.Prelude.{ℕ, suc, ◌+◌, String, Option, none, some, List, [], ◌∷◌}
use stripe_payment_service.Domain.Errors.{Result, ok, err, Failure, map_error, connection}
use stripe_payment_service.Domain.Time.{Time, Duration}
use stripe_payment_service.Domain.User.{User}
use stripe_payment_service.Ledger.{Ledger}
use stripe_payment_service.Billing.{Subscriptions}
use stripe_payment_service.Session.{Tokens}
use stripe_payment_service.Logger.{Level}

-- `fault` is the text of a failure that is not the server's judgement of the data.
pub record Trip : Type 0 where
  pub elapsed : Duration
  pub fault : Option String

-- The counters of the authentication service: an operation with its outcome, and the outcome of a
-- renewal.
pub data AuthMetric : Type 0 where
  auth : (operation outcome : String) → AuthMetric
  token_refresh : (outcome : String) → AuthMetric

-- The gauges that the background workers set: the counts of the ledger, the subscriptions in dunning,
-- and the payloads past their window.
pub data Gauge : Type 0 where
  ledger_gauge : (in_processing retryable dead_lettered : ℕ) → Gauge
  dunning_gauge past_window_gauge : ℕ → Gauge

-- The trips to come, where none is left the database answers at once; the tables; the type and the
-- outcome of each webhook that was observed; what the authentication service counted; how many random
-- values were drawn; how many comparisons of a password with a digest were made; and the gauges that the
-- background workers set and the lines that they logged, the newest first.
pub record World : Type 0 where
  pub clock : Time
  pub trips : List Trip
  pub ledger : Ledger
  pub subscriptions : Subscriptions
  pub users : List User
  pub observed : List (String × String)
  pub tokens : Tokens
  pub counted : List AuthMetric
  pub draws : ℕ
  pub comparisons : ℕ
  pub gauges : List Gauge
  pub notes : List (Level × String)

abbrev pub Run : Type 0 → Type 0
Run A = World → Result A × World

abbrev pub depart : List Trip → World → Option String × World
depart [] w = (none, w)
depart (t ∷ ts) w = (t.fault, record w { clock = w.clock + t.elapsed; trips = ts })

module _ {A : Type 0} where
  abbrev pub pure : A → Run A
  pure a w = (ok a, w)

  abbrev pub raise : Failure → Run A
  raise e w = (err e, w)

  abbrev pub lift : Result A → Run A
  lift r w = (r, w)

  -- Go's `a, err := m`, where the error is looked at.
  abbrev pub attempt : Run A → Run (Result A)
  attempt m w = let (r, w') = m w in (ok r, w')

  unfoldable pub arrive :
      String → (Time → World → Result A × World) → Option String × World → Result A × World
  arrive op f (none, w) = f w.clock w
  arrive op f (some text, w) = (err (map_error op (connection text)), w)

  -- A call of the database, with the name that its errors carry.
  unfoldable pub statement : String → (Time → World → Result A × World) → Run A
  unfolding arrive
  statement op f w = arrive op f (depart w.trips w)

module _ {A B : Type 0} where
  abbrev pub continue : Result A → (A → Run B) → Run B
  continue (ok a) f w = f a w
  continue (err e) f w = (err e, w)

  infixl 10 ◌>>=◌ ◌>>◌
  unfoldable pub ◌>>=◌ : Run A → (A → Run B) → Run B
  ◌>>=◌ m f w = let (r, w') = m w in continue r f w'

  abbrev pub ◌>>◌ : Run A → Run B → Run B
  m >> n = m >>= λ _. n

abbrev pub reads : {A : Type 0} → (World → A) → Run A
reads f w = (ok (f w), w)

-- observe
abbrev pub observe : String → String → Run Unit
observe event_type outcome w = (ok tt, record w { observed = (event_type, outcome) ∷ w.observed })

-- countAuth and countRefresh, with a registry attached
abbrev pub count : AuthMetric → Run Unit
count m w = (ok tt, record w { counted = m ∷ w.counted })

-- The number of the next random value, which a parameter turns into the value.
abbrev pub draw : Run ℕ
draw w = (ok w.draws, record w { draws = suc w.draws })

-- SetLedger, SetDunning and SetPayloadsPastWindow
abbrev pub set_gauge : Gauge → Run Unit
set_gauge g w = (ok tt, record w { gauges = g ∷ w.gauges })

-- A line of a background worker's log.
abbrev pub note : Level → String → Run Unit
note level message w = (ok tt, record w { notes = (level, message) ∷ w.notes })
