-- ===== src/Retention/Reporting.antt =====
-- internal/worker/retention.go: the reports of a pass, which get through and touch no table.
use stripe_payment_service.Prelude.{ℕ, zero, suc, ◌≡◌, refl, ◌∙◌, String, Bool, true, false}
use stripe_payment_service.Domain.Errors.{Result, ok, err}
use stripe_payment_service.Ledger.Scans.{PurgeResult, RetentionStats}
use stripe_payment_service.Logger.{Level, level_error}
use stripe_payment_service.Run.{World, Run, ◌>>=◌, ◌>>◌}
use stripe_payment_service.Retention.{
  RetentionConfig, report, reporting_stats, note_purged, note_when, publish_due, note_due,
}

-- A run that gets through and leaves the tokens as they are.
abbrev pub IsHarmless : Run Unit → Type 0
IsHarmless m = (w : World) → ((m w).0 ≡ ok tt) × ((m w).1.tokens ≡ w.tokens)

both-IsHarmless : (m n : Run Unit) → IsHarmless m → IsHarmless n → IsHarmless (m >> n)
unfolding ◌>>=◌
both-IsHarmless m n h k w = rw (h w).0 ((k (m w).1).0, (k (m w).1).1 ∙ (h w).1)

note_when-IsHarmless :
    (b : Bool) (l : Level) (message : String) → IsHarmless (note_when b l message)
note_when-IsHarmless true l message w = (refl, refl)
note_when-IsHarmless false l message w = (refl, refl)

publish_due-IsHarmless : (b : Bool) (due : ℕ) → IsHarmless (publish_due b due)
publish_due-IsHarmless true due w = (refl, refl)
publish_due-IsHarmless false due w = (refl, refl)

note_due-IsHarmless : (due : ℕ) → IsHarmless (note_due due)
note_due-IsHarmless zero w = (refl, refl)
note_due-IsHarmless (suc n) w = (refl, refl)

reporting_stats-IsHarmless :
    (b : Bool) (r : Result RetentionStats) → IsHarmless (reporting_stats b r)
reporting_stats-IsHarmless b (err e) =
    note_when-IsHarmless true level_error "could not read retention stats"
reporting_stats-IsHarmless b (ok s) =
    both-IsHarmless _ _ (publish_due-IsHarmless b s.due_now) (note_due-IsHarmless s.due_now)

pub note_purged-IsHarmless : (sum : PurgeResult) → IsHarmless (note_purged sum)
note_purged-IsHarmless sum =
    both-IsHarmless _ _ (note_when-IsHarmless _ _ _) (note_when-IsHarmless _ _ _)

pub report-done :
    (c : RetentionConfig) (publishing : Bool) (w : World) → (report c publishing w).0 ≡ ok tt
unfolding report ◌>>=◌
report-done c publishing w = (reporting_stats-IsHarmless publishing _ _).0
