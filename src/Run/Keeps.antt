-- ===== src/Run/Keeps.antt =====
-- Runs and the ledger of their world.
use stripe_payment_service.Prelude.{
  String, ◌≡◌, refl, ◌∙◌, none, some, Option, List, [], ◌∷◌, arith,
}
use stripe_payment_service.Domain.Errors.{Result, ok, err}
use stripe_payment_service.Domain.Time.{Time}
use stripe_payment_service.Run.{
  World, Trip, Run, attempt, depart, arrive, statement, continue, ◌>>=◌,
}

-- The run leaves the ledger as it is, and where no trip can fail none can fail after it.
abbrev pub Keeps : World → World → Type 0
Keeps w v = (v.ledger ≡ w.ledger) × (w.trips ≡ [] → v.trips ≡ [])

Keeps-trans : (u v w : World) → Keeps u v → Keeps v w → Keeps u w
Keeps-trans u v w h k = (k.0 ∙ h.0, λ calm. k.1 (h.1 calm))

-- `pure`, `raise` and `lift` leave the whole world as it is.
pub unmoved : (w : World) → Keeps w w
unmoved w = (refl, λ calm. calm)

abbrev pub SameLedger : {A : Type 0} → Run A → Type 0
SameLedger m = (w : World) → Keeps w (m w).1

depart-Keeps : (ts : List Trip) (w : World) → w.trips ≡ ts → Keeps w (depart ts w).1
depart-Keeps [] w e = (refl, λ calm. calm)
depart-Keeps (t ∷ ts) w e = (refl, λ calm. absurd (ground arith))

module _ {A : Type 0} where
  pub attempt-SameLedger : (m : Run A) → SameLedger m → SameLedger (attempt m)
  attempt-SameLedger m keeps = keeps

  arrive-Keeps :
      (op : String) (f : Time → World → Result A × World) (w : World) (x : Option String × World)
      → ((now : Time) → SameLedger (f now))
      → Keeps w x.1
      → Keeps w (arrive op f x).1
  unfolding arrive
  arrive-Keeps op f w (none, v) keeps h = Keeps-trans w v (f v.clock v).1 h (keeps v.clock v)
  arrive-Keeps op f w (some text, v) keeps h = h

  pub statement-SameLedger :
      (op : String) (f : Time → World → Result A × World)
      → ((now : Time) → SameLedger (f now))
      → SameLedger (statement op f)
  unfolding statement
  statement-SameLedger op f keeps w =
      arrive-Keeps op f w (depart w.trips w) keeps (depart-Keeps w.trips w refl)

  -- A call that cannot fail.
  pub statement-calm :
      (op : String) (f : Time → World → Result A × World) (w : World)
      → w.trips ≡ []
      → statement op f w ≡ f w.clock w
  unfolding statement arrive
  statement-calm op f w calm = simp (calm, statement) refl

module _ {A B : Type 0} where
  continue-Keeps :
      (w : World) (f : A → Run B) (x : Result A × World)
      → Keeps w x.1
      → ((a : A) → SameLedger (f a))
      → Keeps w (continue x.0 f x.1).1
  continue-Keeps w f (ok a, v) h k = Keeps-trans w v (f a v).1 h (k a v)
  continue-Keeps w f (err e, v) h k = h

  pub bind-SameLedger :
      (m : Run A) (f : A → Run B)
      → SameLedger m
      → ((a : A) → SameLedger (f a))
      → SameLedger (m >>= f)
  unfolding ◌>>=◌
  bind-SameLedger m f h k w = continue-Keeps w f (m w) (h w) k

  -- A call that cannot fail, and its continuation.
  pub bind-calm :
      (op : String) (f : Time → World → Result A × World) (g : A → Run B) (w : World)
      → w.trips ≡ []
      → (statement op f >>= g) w ≡ continue (f w.clock w).0 g (f w.clock w).1
  unfolding ◌>>=◌
  bind-calm op f g w calm = rw (statement-calm op f w calm) refl

  -- A step of a run, from what it gives.
  pub bind-step :
      (m : Run A) (f : A → Run B) (w : World) {r : Result A} {v : World}
      → m w ≡ (r, v)
      → (m >>= f) w ≡ continue r f v
  unfolding ◌>>=◌
  bind-step m f w e = rw e refl

  -- The same, where the error is looked at.
  pub attempt-step :
      (m : Run A) (f : Result A → Run B) (w : World) {r : Result A} {v : World}
      → m w ≡ (r, v)
      → (attempt m >>= f) w ≡ f r v
  unfolding ◌>>=◌
  attempt-step m f w e = rw e refl
