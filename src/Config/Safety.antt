-- ===== src/Config/Safety.antt =====
-- internal/config/config.go: the safety rules that a loaded configuration obeys.
use stripe_payment_service.Prelude.{
  String, ◌≡◌, refl, inl, inr, Bool, true, false, not, ◌&&◌, [], ◌==◌, starts_with, arith, All,
  Bool-cases,
}
use stripe_payment_service.Prelude.Int.{ℤ, is_positive, lt_int}
use stripe_payment_service.Config.{
  Process, Config, SweeperSettings, RetentionSettings, contains, is_production,
}
use stripe_payment_service.Config.Load.{load}
use stripe_payment_service.Config.Checks.{
  process_checks, stripe_checks, problem, validate_stripe, validate_process, is_empty,
  check_deadline,
}
use stripe_payment_service.Config.Accepted.{
  concat-nil, problem-nil, load-inversion, secret_key-mode, origins-listed, prices-named,
}
use stripe_payment_service.Config.Validate.{
  validate, all_checks, auth_checks, sweeper_checks, validate_auth, validate_sweeper,
  validate_retention, check_refresh_ttl,
}

-- What a loaded configuration rules out.
pub record IsSafe (c : Config) : Type 0 where
  pub not_test :
      is_production c.app.environment ≡ true → contains "_test_" c.stripe.secret_key ≡ false
  pub not_live :
      is_production c.app.environment ≡ false → contains "_live_" c.stripe.secret_key ≡ false
  pub origins : All (λ o. (o == "*") ≡ false) c.http.cors_allowed_origins
  pub prices : All (λ id. starts_with id "price_" ≡ true) c.stripe.allowed_price_ids
  pub restricted :
      is_production c.app.environment ≡ true → is_empty c.stripe.allowed_price_ids ≡ false
  pub cookie : is_production c.app.environment ≡ true → c.auth.cookie_secure ≡ true
  pub minimised : is_production c.app.environment ≡ true → c.retention.enabled ≡ true
  pub renewable : lt_int c.auth.access_token_ttl c.auth.refresh_token_ttl ≡ true
  pub answered :
      is_positive c.http.write_timeout ≡ true
      → lt_int c.http.webhook_timeout c.http.write_timeout ≡ true
  pub claimed :
      c.sweeper.enabled ≡ true → lt_int c.http.webhook_timeout c.sweeper.stale_claim_after ≡ true

deadline-shorter :
    (name : String) (d write_timeout : ℤ)
    → check_deadline name d write_timeout ≡ []
    → is_positive write_timeout ≡ true
    → lt_int d write_timeout ≡ true
unfolding check_deadline
deadline-shorter name d write_timeout e positive = elim (Bool-cases (is_positive d)) [
  | inl ok ↦
      let bad =
        problem-nil (is_positive write_timeout && not (lt_int d write_timeout)) _ (rw ok at e) in
      ground arith
  | inr bad ↦ absurd (ground (arith, rw bad at e))
]

renewable-checked : (access ttl : ℤ) → check_refresh_ttl access ttl ≡ [] → lt_int access ttl ≡ true
renewable-checked access ttl e = elim (Bool-cases (is_positive ttl)) [
  | inl ok ↦ let bad = problem-nil (not (lt_int access ttl)) _ (rw ok at e) in ground arith
  | inr bad ↦ absurd (ground (arith, rw bad at e))
]

pub implied : (a b : Bool) (text : String) → problem (a && b) text ≡ [] → a ≡ true → b ≡ false
implied true b text e h = problem-nil b text e
implied false b text e h = absurd (ground arith)

unnegated : (b : Bool) → not b ≡ false → b ≡ true
unnegated true e = refl
unnegated false e = absurd (ground arith)

retention_runs :
    (production : Bool) (s : SweeperSettings) (r : RetentionSettings)
    → validate_retention production s r ≡ []
    → production ≡ true
    → r.enabled ≡ true
unfolding validate_retention
retention_runs production s r e h = elim (Bool-cases r.enabled) [
  | inl runs ↦ runs
  | inr stopped ↦ absurd (ground (arith, problem-nil production _ (rw stopped at e)))
]

claims_last :
    (webhook_timeout : ℤ) (s : SweeperSettings)
    → validate_sweeper webhook_timeout s ≡ []
    → s.enabled ≡ true
    → lt_int webhook_timeout s.stale_claim_after ≡ true
unfolding validate_sweeper
claims_last webhook_timeout s e runs =
    unnegated _
      (problem-nil _ _ (concat-nil (sweeper_checks webhook_timeout s) (rw runs at e)).1.1.1.1.1.0)

-- A configuration that Load returns is safe, whatever the environment of the process. In production its key is no
-- test key, the prices are restricted, the cookie is secure and payloads are minimised; outside production its key
-- is no live key. No origin is the wildcard, every price is a price's id, a refresh token outlives
-- an access token, the deadline of a webhook is shorter than that of the server where the server has one, and,
-- where the sweeper runs, shorter than the time after which a claim counts as abandoned.
pub load-IsSafe : (p : Process) (c : Config) → load p ≡ inr c → IsSafe c
unfolding validate validate_process validate_stripe validate_auth
load-IsSafe p c e =
    let (same, parsed, valid) = load-inversion p c e in
    let parts = concat-nil (all_checks p c) valid in
    let process = concat-nil (process_checks c) parts.0 in
    let stripe = concat-nil (stripe_checks p c) parts.1.0 in
    let auth = concat-nil (auth_checks (is_production c.app.environment) c.auth) parts.1.1.0 in
    record {
      not_test = (secret_key-mode _ _ stripe.0).0;
      not_live = (secret_key-mode _ _ stripe.0).1;
      origins = origins-listed p _ _ stripe.1.1.1.1.1.1.1.1.0;
      prices = prices-named _ stripe.1.1.1.1.1.1.1.1.1.1.1.0;
      restricted = implied _ _ _ stripe.1.1.1.1.1.1.1.1.1.1.1.1.0;
      cookie = λ h. unnegated _ (implied _ _ _ auth.1.1.1.1.1.0 h);
      minimised = retention_runs _ _ _ parts.1.1.1.1.0;
      renewable = renewable-checked c.auth.access_token_ttl c.auth.refresh_token_ttl auth.1.1.1.1.0;
      answered = deadline-shorter _ _ _ process.1.1.1.1.1.1.1.1.1.0;
      claimed = claims_last _ _ parts.1.1.1.0;
    }
