-- ===== src/Ledger/Tests.antt =====
-- The theorems on the idempotency ledger, applied to a ledger of two or three events.
use stripe_payment_service.Prelude.{
  String, ◌≡◌, refl, true, none, some, List, [], ◌∷◌, length, arith, All, any_where, ◌⊎◌,
}
use stripe_payment_service.Prelude.Table
use stripe_payment_service.Domain.Time.{Time}
use stripe_payment_service.Domain.Webhook.{ProcessedWebhook, Delivery}
use stripe_payment_service.Ledger.{
  Ledger, find_event, claimed_row, claim, set_processed, set_failed,
}
use stripe_payment_service.Ledger.History.{
  Statement, try_claim, mark_processed, mark_failed, retry_claim, reclaim, purge, replay,
}
use stripe_payment_service.Ledger.Keys.{Unique}
use stripe_payment_service.Ledger.Final.{SameOutcome, Counts, replay-settled, replay-attempts}
use stripe_payment_service.Ledger.Constraints.{IsWellFormed, replay-IsWellFormed}
use stripe_payment_service.Ledger.Scans.{RetryQuery}
use stripe_payment_service.Ledger.Claims.{records_failure, IsKept, claim_exclusive}

abbrev delivery : String → Delivery
delivery id = record {
  event_id = id;
  event_type = "invoice.payment_failed";
  api_version = none;
  livemode = true;
  request_id = none;
  stripe_created_at = 900;
  payload = "{}";
}

-- One event that has succeeded, and one that is in flight since 1000.
abbrev done : ProcessedWebhook
done = set_processed 1000 (claimed_row 950 (delivery "evt_done"))

abbrev held : ProcessedWebhook
held = claimed_row 1000 (delivery "evt_held")

abbrev ledger : Ledger
ledger = done ∷ held ∷ []

abbrev emptied : String → String
emptied p = "{}"

ledger-Unique : Unique ledger
unfolding Table.lookup
ledger-Unique = (refl, (refl, tt))

find-done : find_event "evt_done" ledger ≡ some done
unfolding Table.lookup
find-done = refl

find-held : find_event "evt_held" ledger ≡ some held
unfolding Table.lookup
find-held = refl

-- A second delivery, a late failure and a purge reach the settled event.
abbrev busy : List (Time × Statement)
busy =
    (2000, try_claim 300 (delivery "evt_done"))
    ∷ (2010, mark_failed [] "evt_done")
    ∷ (2020, mark_processed "evt_held")
    ∷ (9000, purge (record { settled_after = 10; unsettled_after = 10; limit = 100 }))
    ∷ []

replay-settled_example : SameOutcome done (find_event "evt_done" (replay emptied busy ledger))
replay-settled_example =
    replay-settled emptied "evt_done" busy ledger done ledger-Unique find-done refl

replay-attempts_example :
    Counts (length busy) held (find_event "evt_held" (replay emptied busy ledger))
replay-attempts_example = replay-attempts emptied "evt_held" busy ledger held find-held

ledger-IsWellFormed : All IsWellFormed ledger
ledger-IsWellFormed = (
  record { stamped = refl; explained = λ e. ground arith; counted = omega arith },
  (record { stamped = refl; explained = λ e. ground arith; counted = omega arith }, tt),
)

replay-IsWellFormed_example : All IsWellFormed (replay emptied busy ledger)
replay-IsWellFormed_example = replay-IsWellFormed emptied busy ledger ledger-IsWellFormed

-- While "evt_held" is in flight: a duplicate delivery, a sweep, another event's settlement, and the
-- settlement of a worker whose claim of "evt_held" had gone stale before.
abbrev others : List (Time × Statement)
others =
    (1100, try_claim 300 (delivery "evt_held"))
    ∷ (1150, reclaim 300 10)
    ∷ (1200, mark_processed "evt_done")
    ∷ (1250, retry_claim 8 "evt_held")
    ∷ (1260, mark_processed "evt_held")
    ∷ []

claim_exclusive_example :
    (any_where (records_failure "evt_held") others ≡ true)
    ⊎ (IsKept held (find_event "evt_held" (replay emptied others ledger))
        × ((claim 300 1300 (delivery "evt_held") (replay emptied others ledger)).0 ≡ none))
claim_exclusive_example =
    claim_exclusive emptied "evt_held" others ledger held 300 1300 (delivery "evt_held")
      ledger-Unique find-held refl (omega arith, (omega arith, (tt, (tt, (tt, tt))))) refl
      (omega arith)

abbrev sweep : RetryQuery
sweep = record { max_attempts = 8; base_backoff = 60; max_backoff = 3600; limit = 50 }

-- A failed event beside the other two.
abbrev with_failed : Ledger
with_failed = set_failed 1000 [] (claimed_row 950 (delivery "evt_failed")) ∷ ledger
