-- ===== src/Config/Tests.antt =====
-- The theorems on the configuration, applied to a development environment in which only the required
-- variables are set.
use stripe_payment_service.Prelude.{
  ◌≤◌, String, ◌≡◌, refl, inr, Option, none, some, List, [], ◌∷◌, ◌==◌, arith, trim_space,
  if◌then◌else◌,
}
use stripe_payment_service.Prelude.{bytes}
use stripe_payment_service.Prelude.Int.{pos, mul_int64, wrap_int}
use stripe_payment_service.Domain.Errors.{ok}
use stripe_payment_service.Auth.Password.{new_hasher}
use stripe_payment_service.Auth.Token.{TokenService, new_token_service}
use stripe_payment_service.Webhook.Tests.{world}
use stripe_payment_service.Auth.Tests.{crypto}
use stripe_payment_service.Config.{Process, Config}
use stripe_payment_service.Config.Load.{
  load, load_config, load_app, load_http, load_database, load_stripe, load_auth, load_sweeper,
  load_retention, load_log,
}
use stripe_payment_service.Config.Loader.{str, required, csv, lookup, entries, ◌>>=◌}
use stripe_payment_service.Config.Checks.{
  validate_process, validate_stripe, check_secret_key, check_origin, check_deadline,
}
use stripe_payment_service.Config.Validate.{
  validate, validate_auth, validate_sweeper, validate_retention,
}
use stripe_payment_service.Config.Safety.{IsSafe, load-IsSafe}
use stripe_payment_service.Prelude.Table
use stripe_payment_service.Webhook.Tests.{first_row}
use stripe_payment_service.Domain.Webhook.{ProcessedWebhook}
use stripe_payment_service.Ledger.{find_event, set_failed}
use stripe_payment_service.Ledger.Scans.{PurgeQuery, purge_payloads}
use stripe_payment_service.Ledger.Keys.{Unique}
use stripe_payment_service.Config.Building.{load-builds, magnitude}
use stripe_payment_service.Config.Patience.{load-patient}

abbrev variables : List (String × String)
variables =
    ("DATABASE_URL", "postgres://db/payments")
    ∷ ("STRIPE_SECRET_KEY", " sk_test_1 ")
    ∷ ("STRIPE_WEBHOOK_SECRET", "whsec_1")
    ∷ ("JWT_SECRET", "0123456789abcdef0123456789abcdef")
    ∷ []

abbrev find_variable : List (String × String) → String → Option String
find_variable [] key = none
find_variable ((k, v) ∷ rest) key = if k == key then some v else find_variable rest key

abbrev process : Process
process = record {
  lookup_env = find_variable variables;
  atoi = λ text. none;
  parse_bool = λ text. none;
  parse_float = λ text. none;
  parse_duration = λ text. none;
  parse_url = λ text. some (record { scheme = "http"; host = "localhost"; path = "/" });
  to_lower = λ text. text;
}

abbrev config : Config
config = (load_config process).0

loaded : load process ≡ inr config
unfolding load load_config load_app load_http load_database load_stripe load_auth load_sweeper
    load_retention load_log str required csv lookup entries ◌>>=◌ validate validate_process
    validate_stripe validate_auth validate_sweeper validate_retention check_secret_key check_origin
    check_deadline mul_int64 wrap_int trim_space bytes
loaded = refl

load-IsSafe_example : IsSafe config
load-IsSafe_example = load-IsSafe process config loaded

load-builds_example :
    ((s : TokenService) × (new_token_service (record {
      secret = config.auth.jwt_secret;
      issuer = config.auth.jwt_issuer;
      audience = config.auth.jwt_audience;
      ttl = magnitude config.auth.access_token_ttl;
    })
        ≡ ok s))
    × (config.auth.access_token_ttl ≡ pos (magnitude config.auth.access_token_ttl))
    × (10 ≤ magnitude config.auth.bcrypt_cost)
    × (magnitude config.auth.bcrypt_cost ≤ 31)
    × (config.auth.bcrypt_cost ≡ pos (magnitude config.auth.bcrypt_cost))
    × ((new_hasher crypto (magnitude config.auth.bcrypt_cost) world).0
        ≡ ok (record {
          cost = magnitude config.auth.bcrypt_cost;
          decoy = "digest of decoy-for-constant-time-login";
        }))
load-builds_example =
    load-builds process config crypto world "digest of decoy-for-constant-time-login" loaded refl

-- A failed event, and a purge less than thirty hours after its receipt.
abbrev old_failure : ProcessedWebhook
old_failure = set_failed 1000 [] first_row

abbrev window : PurgeQuery
window = record {
  settled_after = 2_592_000_000_000;
  unsettled_after = 7_776_000_000_000;
  limit = 100;
}

find-old : find_event "evt_7" (old_failure ∷ []) ≡ some old_failure
unfolding Table.lookup
find-old = refl

alone : Unique (old_failure ∷ [])
unfolding Table.lookup
alone = (refl, tt)

load-patient_example :
    find_event "evt_7"
      (purge_payloads (λ s. "{}") window 70_000_107_000_000_000 (old_failure ∷ [])).1
    ≡ some old_failure
unfolding load_config load_app load_http load_database load_stripe load_auth load_sweeper
    load_retention lookup ◌>>=◌
load-patient_example =
    load-patient process config 6 1_800_000_000_000 window (λ s. "{}") 70_000_107_000_000_000
      (old_failure ∷ []) "evt_7" old_failure loaded refl refl refl refl refl (omega arith) alone
      find-old refl (omega arith)
