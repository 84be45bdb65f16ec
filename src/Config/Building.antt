-- ===== src/Config/Building.antt =====
-- internal/config/config.go with internal/auth: the parts that the process builds from a loaded
-- configuration.
use stripe_payment_service.Prelude.{
  ℕ, ◌≤◌, String, ◌≡◌, refl, inl, inr, Bool, true, false, ◌||◌, Option, none, some, [], ◌==◌, arith,
  ltb, nat_eq, length, bytes, trim_space, Bool-cases, Option-cases,
}
use stripe_payment_service.Prelude.Int.{ℤ, pos, negsuc, lt_int, is_positive}
use stripe_payment_service.Domain.Errors.{ok}
use stripe_payment_service.Auth.{Crypto}
use stripe_payment_service.Auth.Password.{new_hasher}
use stripe_payment_service.Auth.Token.{TokenService, new_token_service}
use stripe_payment_service.Auth.Building.{new_hasher-accepts, new_token_service-accepts}
use stripe_payment_service.Config.{Process, Config, is_production}
use stripe_payment_service.Config.Loader.{required, present, lookup, ◌>>=◌}
use stripe_payment_service.Config.Load.{
  load, load_config, load_app, load_http, load_database, load_stripe, load_auth,
}
use stripe_payment_service.Config.Accepted.{append-nil, concat-nil, problem-nil, load-inversion}
use stripe_payment_service.Config.Validate.{
  validate, all_checks, auth_checks, check_jwt_secret, check_access_ttl, validate_auth,
}
use stripe_payment_service.Run.{World}

present-given : (v u : String) → present v ≡ some u → (u == "") ≡ false
present-given v u e = elim (Bool-cases (v == "")) [
  | inl blank ↦ absurd (ground arith)
  | inr given ↦ ground arith
]

lookup-given : (key : String) (p : Process) (u : String) → lookup key p ≡ some u → (u == "") ≡ false
unfolding lookup
lookup-given key p u = look (p.lookup_env key)
  where
    look :
        (o : Option String)
        → elim o [ none ↦ none | some v ↦ present (trim_space v) ] ≡ some u
        → (u == "") ≡ false
    look none e = absurd (ground arith)
    look (some v) e = present-given (trim_space v) u e

-- A required variable whose reading did not fail is not blank.
required-given :
    (key : String) (p : Process) → (required key p).1 ≡ [] → ((required key p).0 == "") ≡ false
unfolding required
required-given key p e = elim (Option-cases (lookup key p)) [
  | inl missing ↦ absurd (ground (arith, rw (missing, required) at e))
  | inr (u, found) ↦ rw (found, required) (lookup-given key p u found)
]

jwt_secret-given :
    (p : Process) → (load_config p).1 ≡ [] → ((load_config p).0.auth.jwt_secret == "") ≡ false
unfolding load_config load_auth ◌>>=◌
jwt_secret-given p e =
    let http = (append-nil (load_app p).1 _ e).1 in
    let database = (append-nil (load_http p).1 _ http).1 in
    let stripe = (append-nil (load_database p).1 _ database).1 in
    let auth = (append-nil (load_stripe p).1 _ stripe).1 in
    let own = (append-nil (load_auth p).1 _ auth).0 in
    required-given "JWT_SECRET" p (append-nil (required "JWT_SECRET" p).1 _ own).0

secret-long :
    (secret : String)
    → (secret == "") ≡ false
    → check_jwt_secret secret ≡ []
    → ltb (length (bytes secret)) 32 ≡ false
secret-long secret given e = problem-nil _ _ (append-nil _ _ (rw given at e)).0

abbrev pub magnitude : ℤ → ℕ
magnitude (pos n) = n
magnitude (negsuc n) = 0

cost-positive :
    (cost : ℤ)
    → (lt_int cost (pos 10) || lt_int (pos 31) cost) ≡ false
    → (10 ≤ magnitude cost) × (magnitude cost ≤ 31) × (cost ≡ pos (magnitude cost))
cost-positive (pos n) e = (ground arith, ground arith, refl)
cost-positive (negsuc n) e = absurd (ground arith)

positive-pos :
    (n : ℤ) → is_positive n ≡ true → (n ≡ pos (magnitude n)) × (nat_eq (magnitude n) 0 ≡ false)
positive-pos (pos n) e = (refl, ground arith)
positive-pos (negsuc n) e = absurd (ground arith)

ttl-positive :
    (production : Bool) (ttl : ℤ) → check_access_ttl production ttl ≡ [] → is_positive ttl ≡ true
ttl-positive production ttl e = elim (Bool-cases (is_positive ttl)) [
  | inl more ↦ more
  | inr less ↦ absurd (cc (rw less at e))
]

-- The parts that the process builds from a configuration that Load returned accept it. NewTokenService
-- builds a service with the secret, the issuer, the audience and the lifetime of access tokens of the
-- configuration, which is positive; the cost of the hasher lies between 10 and 31; and NewHasher builds a
-- hasher of that cost, where bcrypt makes a digest for it.
pub load-builds :
    (p : Process) (c : Config) (k : Crypto) (w : World) (decoy : String)
    → load p ≡ inr c
    → k.generate "decoy-for-constant-time-login" (magnitude c.auth.bcrypt_cost) w.draws ≡ inr decoy
    → ((s : TokenService) × (new_token_service (record {
      secret = c.auth.jwt_secret;
      issuer = c.auth.jwt_issuer;
      audience = c.auth.jwt_audience;
      ttl = magnitude c.auth.access_token_ttl;
    })
          ≡ ok s))
      × (c.auth.access_token_ttl ≡ pos (magnitude c.auth.access_token_ttl))
      × (10 ≤ magnitude c.auth.bcrypt_cost)
      × (magnitude c.auth.bcrypt_cost ≤ 31)
      × (c.auth.bcrypt_cost ≡ pos (magnitude c.auth.bcrypt_cost))
      × ((new_hasher k (magnitude c.auth.bcrypt_cost) w).0
          ≡ ok (record { cost = magnitude c.auth.bcrypt_cost; decoy = decoy }))
unfolding validate validate_auth
load-builds p c k w decoy e made =
    let (same, parsed, valid) = load-inversion p c e in
    let parts = concat-nil (all_checks p c) valid in
    let auth = concat-nil (auth_checks (is_production c.app.environment) c.auth) parts.1.1.0 in
    let given : (c.auth.jwt_secret == "") ≡ false = rw same (jwt_secret-given p parsed) in
    let long = secret-long c.auth.jwt_secret given auth.0 in
    let issuer = problem-nil _ _ auth.1.0 in
    let audience = problem-nil _ _ auth.1.1.0 in
    let (exact, positive) =
      positive-pos c.auth.access_token_ttl (ttl-positive _ c.auth.access_token_ttl auth.1.1.1.0) in
    let (low, high, cost) = cost-positive c.auth.bcrypt_cost (problem-nil _ _ auth.1.1.1.1.1.1.0) in
    (
      new_token_service-accepts _ long issuer audience positive,
      exact,
      low,
      high,
      cost,
      new_hasher-accepts k (magnitude c.auth.bcrypt_cost) w decoy low high made,
    )
