-- ===== src/Auth/Tests.antt =====
-- The theorems on sessions and logins, applied to one user and one session.
use Prim.Native.String.{◌++◌ as join}
use stripe_payment_service.Prelude.{
  ◌+◌, ◌≡◌, refl, true, inl, inr, none, some, [], ◌∷◌, ◌==◌, nat_eq, arith, if◌then◌else◌,
  trim_space,
}
use stripe_payment_service.Prelude.Table
use stripe_payment_service.Domain.Errors.{ok, err, sentinel_failure, not_found, token_reused}
use stripe_payment_service.Domain.User
use stripe_payment_service.Domain.Token.{RefreshToken}
use stripe_payment_service.Session.{
  find_token, issued_row, set_used, consume, issue, exchange_found, Exchange,
}
use stripe_payment_service.Session.Rotation.{IsEnded}
use stripe_payment_service.Webhook.Tests.{platform, world}
use stripe_payment_service.Auth.{Crypto, expired}
use stripe_payment_service.Auth.Service.{
  AuthService, AuthResult, new_auth_service, login, logout, refresh, issue_session,
}
use stripe_payment_service.Auth.Login.{SameButUsers, login-uniform}
use stripe_payment_service.Auth.Lifecycle.{Opens, opened_row, result_of, exchange_of}
use stripe_payment_service.Auth.Opening.{refresh-issue_session}
use stripe_payment_service.Auth.Ending.{refresh-logout, refresh-lost}
use stripe_payment_service.Repository.Users.{first_where}
use stripe_payment_service.Repository.Sessions.{consume_refresh_token, after_lock}
use stripe_payment_service.Repository.Sessions.Atomic.{IsAtomic, consume_refresh_token-IsAtomic}
use stripe_payment_service.Run.{World, ◌>>=◌, statement, arrive}

abbrev pub crypto : Crypto
crypto = record {
  valid_utf8 = λ text. true;
  generate = λ password cost n. inr (join "digest of " password);
  matches = λ digest candidate. digest == join "digest of " candidate;
  digest_cost = λ digest. some 12;
  random_token = λ n. inr (if nat_eq n 1 then "first" else "second");
  sha256_hex = λ token. join "hash of " token;
  new_uuid = λ n. n;
  sign = λ secret claims. inr "signed";
  parse_claims = λ options secret now token. inl expired;
}

abbrev pub service : AuthService
service =
    new_auth_service platform crypto (record { cost = 12; decoy = "decoy" })
      (record {
        secret = "0123456789abcdef0123456789abcdef";
        issuer = "payments";
        audience = "web";
        ttl = 900_000_000;
        parser = record {
          valid_methods = "HS256" ∷ [];
          issuer = "payments";
          audience = "web";
          expiration_required = true;
          check_issued_at = true;
        };
      })
      1_000_000_000

abbrev pub ada : User.User
ada = record {
  id = 7;
  email = "ada@example.com";
  email_verified_at = none;
  password_hash = some "digest of correct horse";
  full_name = none;
  stripe_customer_id = none;
  metadata = [];
  created_at = 1;
  deleted_at = none;
}

login-uniform_example :
    let left = login service "ada@example.com" "guess" (record world { users = [] }) in
    let right = login service "ada@example.com" "guess" (record world { users = ada ∷ [] }) in
    (left.0 ≡ right.0) × SameButUsers left.1 right.1 × (left.1.users ≡ [])
unfolding first_where trim_space
login-uniform_example =
    login-uniform service "ada@example.com" "guess" [] (ada ∷ []) world refl refl

abbrev home : World
home = record world { users = ada ∷ [] }

opens : Opens service ada home "signed" "first"
unfolding Table.lookup
opens = record { calm = refl; signs = refl; mints = refl; fresh = refl }

refresh-issue_session_example :
    (a : AuthResult) × (v : World) × (issue_session service ada home ≡ (ok a, v))
    × ((refresh service a.refresh_token (record v { clock = 70_000_000_000_000_900 })).0
        ≡ ok (
            result_of ada
              (70_000_000_000_000_900 + 900_000_000)
              (70_000_000_000_000_900 + 1_000_000_000)
              "signed"
              "second"))
    × (find_token "hash of first"
          (refresh service a.refresh_token (record v { clock = 70_000_000_000_000_900 })).1.tokens
        ≡ some (set_used 70_000_000_000_000_900 (opened_row service ada home "first")))
    × (find_token "hash of second"
          (refresh service a.refresh_token (record v { clock = 70_000_000_000_000_900 })).1.tokens
        ≡ some (
            issued_row 70_000_000_000_000_900 7 "hash of second" 2
              (70_000_000_000_000_900 + 1_000_000_000)))
unfolding Table.lookup first_where
refresh-issue_session_example =
    refresh-issue_session service ada home "first" "second" "signed" "signed" 70_000_000_000_000_900
      opens refl (omega arith) refl refl refl refl refl

abbrev held : RefreshToken
held = issued_row 100 7 "hash of held" 42 80_000_000_000_000_000

abbrev earlier : RefreshToken
earlier = set_used 90 (issued_row 50 7 "hash of earlier" 42 80_000_000_000_000_000)

abbrev pub signed_in : World
signed_in = record world { users = ada ∷ []; tokens = earlier ∷ held ∷ [] }

refresh-logout_example :
    ((logout service "earlier" signed_in).0 ≡ ok tt)
    × ((refresh service "held"
          (record (logout service "earlier" signed_in).1 { clock = 70_000_000_000_000_900 })).0
        ≡ err (sentinel_failure not_found))
unfolding Table.lookup
refresh-logout_example =
    refresh-logout service "earlier" "held" "second" signed_in earlier held 70_000_000_000_000_900
      refl refl refl refl refl refl refl

abbrev exchange : Exchange
exchange = exchange_of service signed_in "held" "second"

-- The database is slow, and fails on the issue of the successor.
abbrev interrupted : World
interrupted = record signed_in {
  trips =
      record { elapsed = 10; fault = none }
      ∷ record { elapsed = 20; fault = none }
      ∷ record { elapsed = 30; fault = none }
      ∷ record { elapsed = 40; fault = some "connection reset" }
      ∷ [];
}

consume_refresh_token-IsAtomic_example :
    IsAtomic exchange interrupted.tokens (consume_refresh_token exchange interrupted)
consume_refresh_token-IsAtomic_example = consume_refresh_token-IsAtomic exchange interrupted

-- The database fails after the five calls of the exchange.
abbrev failing : World
failing = record signed_in {
  trips =
      record { elapsed = 10; fault = none }
      ∷ record { elapsed = 10; fault = none }
      ∷ record { elapsed = 10; fault = none }
      ∷ record { elapsed = 10; fault = none }
      ∷ record { elapsed = 10; fault = none }
      ∷ record { elapsed = 10; fault = some "timeout" }
      ∷ [];
}

abbrev stored : RefreshToken
stored = issued_row 70_000_000_000_000_010 7 "hash of second" 42 70_000_001_000_000_000

abbrev exchanged_world : World
exchanged_world = record failing {
  clock = 70_000_000_000_000_050;
  trips = record { elapsed = 10; fault = some "timeout" } ∷ [];
  draws = 1;
  tokens = earlier ∷ set_used 70_000_000_000_000_010 held ∷ stored ∷ [];
}

exchanged :
    consume_refresh_token exchange (record failing { draws = 1 }) ≡ (ok stored, exchanged_world)
unfolding consume_refresh_token after_lock statement arrive ◌>>=◌ exchange_found issue Table.lookup
    Table.update Table.insert
exchanged = refl

refresh-lost_example :
    ((refresh service "held" failing).0 ≡ err (sentinel_failure not_found))
    × ((consume 300 300 exchange (refresh service "held" failing).1.tokens).0
        ≡ err (sentinel_failure token_reused))
    × IsEnded 42 (consume 300 300 exchange (refresh service "held" failing).1.tokens).1
refresh-lost_example =
    refresh-lost service "held" "second" "timeout" failing exchanged_world stored
      (record { elapsed = 10; fault = some "timeout" }) [] 300 300 exchange refl refl exchanged refl
      refl refl
