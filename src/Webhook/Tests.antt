-- ===== src/Webhook/Tests.antt =====
-- The theorems on the webhook service, applied to the delivery of one failed payment, and to the
-- deletion of a subscription.
use stripe_payment_service.Prelude.{
  false, ◌≡◌, refl, true, ◌==◌, inl, inr, none, some, [], ◌∷◌, if◌then◌else◌, trim_space,
}
use stripe_payment_service.Prelude.Int.{pos}
use stripe_payment_service.Prelude.Table
use stripe_payment_service.Domain.Errors.{ok, err, signature_verification, validation_result}
use stripe_payment_service.Domain.Time.{unix, unix_ptr}
use stripe_payment_service.Domain.Webhook
use stripe_payment_service.Domain.Webhook.{ProcessedWebhook}
use stripe_payment_service.Ledger.{find_event, claim, claimed_row, set_skipped}
use stripe_payment_service.Billing.{find_subscription, StatusUpdate, apply_event}
use stripe_payment_service.Billing.Tests.{plans}
use stripe_payment_service.Stripe.Objects.{Event, Invoice, Platform, transport, StripeSubscription}
use stripe_payment_service.Domain.Status.{active, subscription_status, canceled}
use stripe_payment_service.Stripe.Client.{verify_webhook, because}
use stripe_payment_service.Run.{World, statement, arrive, ◌>>=◌}
use stripe_payment_service.Repository.{transaction, try_claim_event, mark_event_processed}
use stripe_payment_service.Webhook.Mapping.{
  primary_item, status_update_from, update_of, invoice_update_from, subscription_id_of,
  decline_reason,
}
use stripe_payment_service.Webhook.Handlers.{
  handle_subscription_changed, outcome_processed, outcome_duplicate, dispatch,
  handle_invoice_payment,
}
use stripe_payment_service.Webhook.Service.{
  replay_event, delivery_of, apply_claimed, process_event, process_verified, is_handled, conclude,
}
use stripe_payment_service.Webhook.Settlement.{Held, IsSettledAs}
use stripe_payment_service.Webhook.Delivery.{process_event-forged, process_event-IsSettledAs}
use stripe_payment_service.Webhook.Deletion.{unknown_deletion}
use stripe_payment_service.Webhook.Replay.{replay_event-IsSettledAs}
use stripe_payment_service.Webhook.Redelivery.{IsInert, process_event-settled, process_event-once}

abbrev pub payment_failed : Event
payment_failed = record {
  id = "evt_7";
  type = "invoice.payment_failed";
  api_version = "2025-03-31";
  livemode = true;
  request_id = none;
  created = pos 1_700_000_000;
  raw = "{}";
}

abbrev unpaid_invoice : Invoice
unpaid_invoice = record {
  id = "in_7";
  parent_subscription = some "sub_1";
  lines = [];
  next_payment_attempt = pos 0;
  period_start = pos 0;
  period_end = pos 0;
  last_finalization_error = none;
}

-- A platform on which the header "good" verifies.
abbrev pub platform : Platform
platform = record {
  construct_event = λ payload header now.
      if header == "good" then inr payment_failed else inl "no valid signature";
  decode_event = λ payload. inr payment_failed;
  decode_session = λ raw. inl "not a session";
  decode_subscription = λ raw. inl "not a subscription";
  decode_invoice = λ raw. inr unpaid_invoice;
  retrieve_subscription = λ id now. inl (transport "connection refused");
  json_valid = λ payload. true;
  to_lower = λ text. text;
  parse_uuid = λ text. none;
  render_uuid = λ id. "";
  same_email = λ a b. a == b;
  skeleton = λ payload. "{}";
}

abbrev pub world : World
world = record {
  clock = 70_000_000_000_000_000;
  trips = [];
  ledger = [];
  subscriptions = plans;
  users = [];
  observed = [];
  tokens = [];
  counted = [];
  draws = 0;
  comparisons = 0;
  gauges = [];
  notes = [];
}

process_event-forged_example : process_event platform 300 "{}" "bad" world ≡ (
  err (because signature_verification "no valid signature"),
  record world { observed = ("unverified", "signature_rejected") ∷ [] },
)
process_event-forged_example =
    process_event-forged platform 300 "{}" "bad" "no valid signature" world refl

verified : (w : World) → verify_webhook platform "{}" "good" w.clock ≡ ok payment_failed
unfolding verify_webhook
verified w = refl

valid :
    validation_result (Webhook.validate platform.json_valid (delivery_of payment_failed "{}"))
    ≡ none
unfolding validation_result Webhook.validate unix trim_space
valid = refl

abbrev pub first_row : ProcessedWebhook
first_row = claimed_row world.clock (delivery_of payment_failed "{}")

claimed : (claim 300 world.clock (delivery_of payment_failed "{}") world.ledger).0 ≡ some first_row
unfolding claim Table.lookup
claimed = refl

process_event-IsSettledAs_example :
    IsSettledAs "evt_7" (process_event platform 300 "{}" "good" world)
process_event-IsSettledAs_example =
    process_event-IsSettledAs platform 300 "{}" "good" payment_failed world first_row refl
      (verified world) valid claimed

abbrev pub later : World
later = record world { ledger = first_row ∷ [] }

first_row-Held : Held "evt_7" later first_row
unfolding Table.lookup
first_row-Held = record { calm = refl; found = refl; held = refl }

abbrev skipped_row : ProcessedWebhook
skipped_row = set_skipped world.clock [] first_row

-- The database fails on the first trip, and is slow on the second.
abbrev faulty : World
faulty = record world {
  ledger = skipped_row ∷ [];
  trips =
      record { elapsed = 10; fault = some "timeout" } ∷ record { elapsed = 900; fault = none } ∷ [];
}

find-skipped : find_event "evt_7" faulty.ledger ≡ some skipped_row
unfolding Table.lookup
find-skipped = refl

process_event-settled_example :
    IsInert faulty outcome_duplicate (process_event platform 300 "{}" "good" faulty)
process_event-settled_example =
    process_event-settled platform 300 "{}" "good" payment_failed faulty skipped_row
      (verified faulty) find-skipped refl

-- The payment is recorded against its subscription.
acknowledged : (process_event platform 300 "{}" "good" world).0 ≡ ok outcome_processed
unfolding process_event process_verified verify_webhook try_claim_event validation_result
    Webhook.validate unix unix_ptr statement arrive ◌>>=◌ claim Table.lookup Table.insert
    Table.update apply_claimed is_handled conclude dispatch handle_invoice_payment
    invoice_update_from subscription_id_of decline_reason transaction apply_event
    mark_event_processed trim_space
acknowledged = refl

process_event-once_example :
    IsInert
      (process_event platform 300 "{}" "good" world).1
      outcome_duplicate
      (process_event platform 300 "{}" "good" (process_event platform 300 "{}" "good" world).1)
process_event-once_example =
    process_event-once platform 300 "{}" "good" "{}" "good" payment_failed payment_failed world
      first_row outcome_processed refl (verified world) valid claimed acknowledged refl
      (verified (process_event platform 300 "{}" "good" world).1)

replay_event-IsSettledAs_example : IsSettledAs "evt_7" (replay_event platform first_row later)
replay_event-IsSettledAs_example =
    replay_event-IsSettledAs platform first_row later first_row first_row-Held

-- A subscription that Stripe deletes while its object still reads `active`.
abbrev deleted_object : StripeSubscription
deleted_object = record {
  id = "sub_1";
  customer = some "cus_1";
  status = "active";
  items =
      record {
        price = none;
        quantity = pos 2;
        current_period_start = pos 0;
        current_period_end = pos 0;
      }
      ∷ [];
  cancel_at_period_end = false;
  cancel_at = pos 0;
  canceled_at = pos 0;
  ended_at = pos 0;
  trial_start = pos 0;
  trial_end = pos 0;
  latest_invoice = none;
  default_payment_method = none;
  metadata = [];
}

abbrev deletion : StatusUpdate
deletion =
    update_of deleted_object payment_failed
      (record {
        price = none;
        quantity = pos 2;
        current_period_start = pos 0;
        current_period_end = pos 0;
      })
      canceled

deletion-mapped : status_update_from deleted_object payment_failed true ≡ ok deletion
unfolding status_update_from primary_item
deletion-mapped = refl

-- A platform whose events carry that object, and a world without subscriptions.
abbrev deleting : Platform
deleting = record platform { decode_subscription = λ raw. inr deleted_object }

abbrev unrecorded : World
unrecorded = record world { subscriptions = [] }

abbrev as_reported : StatusUpdate
as_reported =
    update_of deleted_object payment_failed
      (record {
        price = none;
        quantity = pos 2;
        current_period_start = pos 0;
        current_period_end = pos 0;
      })
      active

change-mapped : status_update_from deleted_object payment_failed false ≡ ok as_reported
unfolding status_update_from primary_item subscription_status
change-mapped = refl

find-unrecorded : find_subscription "sub_1" unrecorded.subscriptions ≡ none
unfolding Table.lookup
find-unrecorded = refl

unknown_deletion_example :
    handle_subscription_changed deleting payment_failed true unrecorded
    ≡ handle_subscription_changed deleting payment_failed false unrecorded
unknown_deletion_example =
    unknown_deletion deleting payment_failed deleted_object deletion as_reported unrecorded refl
      refl refl deletion-mapped change-mapped find-unrecorded
