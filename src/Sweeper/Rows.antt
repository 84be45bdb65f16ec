-- ===== src/Sweeper/Rows.antt =====
-- internal/worker/webhook_sweeper.go: runs that keep what holds of each row of the ledger.
use stripe_payment_service.Prelude.{
  String, Bool, true, false, none, some, Option, List, [], ◌∷◌, All, if◌then◌else◌,
}
use stripe_payment_service.Domain.Errors.{Result, ok, err}
use stripe_payment_service.Domain.Time.{Time}
use stripe_payment_service.Domain.Webhook.{ProcessedWebhook}
use stripe_payment_service.Ledger.{Ledger}
use stripe_payment_service.Run.{World, Trip, Run, depart, arrive, statement, continue, ◌>>=◌}
use stripe_payment_service.Repository.{on_ledger}

module _ (P : ProcessedWebhook → Type 0) where
  -- The run keeps what holds of all rows of the ledger.
  abbrev pub KeepsAll : {A : Type 0} → Run A → Type 0
  KeepsAll m = (w : World) → All P w.ledger → All P (m w).1.ledger

  pub bind-KeepsAll :
      {A B : Type 0} (m : Run A) (f : A → Run B)
      → KeepsAll m
      → ((a : A) → KeepsAll (f a))
      → KeepsAll (m >>= f)
  unfolding ◌>>=◌
  bind-KeepsAll {A} {B} m f h k w all = onward (m w) (h w all)
    where
      onward : (x : Result A × World) → All P x.1.ledger → All P (continue x.0 f x.1).1.ledger
      onward (ok a, v) s = k a v s
      onward (err e, v) s = s

  pub arrive-KeepsAll :
      {A : Type 0} (op : String) (f : Time → Ledger → A × Ledger) (x : Option String × World)
      → ((now : Time) (t : Ledger) → All P t → All P (f now t).1)
      → All P x.1.ledger
      → All P
          (arrive op
            (λ now w. (ok (f now w.ledger).0, record w { ledger = (f now w.ledger).1 }))
            x).1.ledger
  unfolding arrive
  arrive-KeepsAll op f (none, v) keeps all = keeps v.clock v.ledger all
  arrive-KeepsAll op f (some text, v) keeps all = all

  pub depart-All : (ts : List Trip) (w : World) → All P w.ledger → All P (depart ts w).1.ledger
  depart-All [] w all = all
  depart-All (t ∷ ts) w all = all

  pub on_ledger-KeepsAll :
      {A : Type 0} (op : String) (f : Time → Ledger → A × Ledger)
      → ((now : Time) (t : Ledger) → All P t → All P (f now t).1)
      → KeepsAll (on_ledger op f)
  unfolding statement
  on_ledger-KeepsAll op f keeps w all =
      arrive-KeepsAll op f (depart w.trips w) keeps (depart-All w.trips w all)

  pub if-KeepsAll :
      {A : Type 0} (b : Bool) (m n : Run A)
      → KeepsAll m
      → KeepsAll n
      → KeepsAll (if b then m else n)
  if-KeepsAll true m n h k = h
  if-KeepsAll false m n h k = k
