-- ===== src/Auth/Service.antt =====
-- internal/service/auth_service.go: registration, login, renewal and the end of sessions.
use stripe_payment_service.Prelude.{
  ℕ, ◌+◌, ◌*◌, String, ◌||◌, Option, none, some, [], ◌==◌, trim_space, or_default, if◌then◌else◌,
}
use stripe_payment_service.Domain.Errors.{
  Result, ok, err, wrap, failure, validation, sentinel_failure, not_found, is_sentinel, conflict,
  token_reused,
}
use stripe_payment_service.Domain.Time.{Time, Duration, hour}
use stripe_payment_service.Domain.Subscription.{Uuid}
use stripe_payment_service.Domain.User
use stripe_payment_service.Domain.Token.{RefreshToken}
use stripe_payment_service.Stripe.Objects.{Platform}
use stripe_payment_service.Auth.{Crypto}
use stripe_payment_service.Auth.Password.{
  Hasher, hash, verify, dummy_compare, needs_rehash, validate_password, mismatch,
}
use stripe_payment_service.Auth.Token.{TokenService, issue_access, new_refresh_token}
use stripe_payment_service.Repository.Users.{
  get_user_by_id, get_user_by_email, create_user, update_user,
}
use stripe_payment_service.Repository.Sessions.{
  create_refresh_token, consume_refresh_token, revoke_family_by_token, revoke_all_for_user,
}
use stripe_payment_service.Run.{
  Run, pure, raise, attempt, reads, draw, count, auth, token_refresh, ◌>>=◌, ◌>>◌,
}

-- UserView
pub record UserView : Type 0 where
  pub id : Uuid
  pub email : String
  pub full_name : Option String

-- AuthResult
pub record AuthResult : Type 0 where
  pub token : String
  pub expires_at : Time
  pub user : UserView
  pub refresh_token : String
  pub refresh_token_expires_at : Time

-- viewOf
abbrev pub view_of : User.User → UserView
view_of u = record { id = u.id; email = u.email; full_name = u.full_name }

-- AuthService, with what it calls outside the repository.
pub record AuthService : Type 0 where
  pub platform : Platform
  pub crypto : Crypto
  pub hasher : Hasher
  pub tokens : TokenService
  pub refresh_ttl : Duration

-- NewAuthService
abbrev pub new_auth_service : Platform → Crypto → Hasher → TokenService → Duration → AuthService
new_auth_service p c h t ttl = record {
  platform = p;
  crypto = c;
  hasher = h;
  tokens = t;
  refresh_ttl = or_default ttl (30 * (24 * hour));
}

-- `if err != nil { return fmt.Errorf("op: %w", err) }`
abbrev pub wrapped : {A : Type 0} → String → Result A → Run A
wrapped op (ok a) = pure a
wrapped op (err e) = raise (wrap op e)

module _ (s : AuthService) where
  -- (*AuthService).issue
  unfoldable pub issue_session : User.User → Run AuthResult
  issue_session user = do
    signed ← attempt (issue_access s.platform s.crypto s.tokens user.id user.email)
    (access, expires_at) ← wrapped "issue token" signed
    minted ← attempt (new_refresh_token s.crypto)
    (token, hashed) ← wrapped "mint refresh token" minted
    n ← draw
    now ← reads λ w. w.clock
    let until = now + s.refresh_ttl
    stored ← attempt (create_refresh_token user.id hashed (s.crypto.new_uuid n) until)
    r ← wrapped "store refresh token" stored
    pure (record {
      token = access;
      expires_at = expires_at;
      user = view_of user;
      refresh_token = token;
      refresh_token_expires_at = until;
    })

  -- The branches of Register on what CreateUser returned.
  abbrev registered : Result User.User → Run AuthResult
  registered (ok user) = do count (auth "register" "success"); issue_session user
  registered (err e) =
      if is_sentinel validation e || is_sentinel conflict e
      then (do count (auth "register" "rejected"); raise e)
      else (do count (auth "register" "error"); raise (wrap "create user" e))

  -- The user that Register creates.
  abbrev new_user : String → String → Option String → User.User
  new_user email digest full_name = record {
    id = 0;
    email = email;
    email_verified_at = none;
    password_hash = some digest;
    full_name = full_name;
    stripe_customer_id = none;
    metadata = [];
    created_at = 0;
    deleted_at = none;
  }

  -- Register
  unfoldable pub register : (email password : String) → Option String → Run AuthResult
  register email password full_name = elim (validate_password s.crypto password) [
    | some e ↦ raise (failure validation (wrap "validation failed" e).text)
    | none ↦ do
      hashed ← attempt (hash s.crypto s.hasher password)
      digest ← wrapped "hash password" hashed
      created ←
          attempt (
            create_user s.platform s.crypto.new_uuid (new_user (trim_space email) digest full_name))
      registered created
  ]

  -- The upgrade of a digest, with the user as the attempt leaves it: UpdateUser trims the address in
  -- place before anything else, and its failure is only logged.
  abbrev upgraded : User.User → Result String → Run User.User
  upgraded user (err e) = pure user
  upgraded user (ok digest) = do
    let changed = record user { password_hash = some digest }
    ignored ← attempt (update_user s.platform changed)
    pure (User.validate changed).0

  unfoldable pub upgrade : User.User → (digest password : String) → Run User.User
  upgrade user digest password =
      if needs_rehash s.crypto s.hasher digest
      then (do rehashed ← attempt (hash s.crypto s.hasher password); upgraded user rehashed)
      else pure user

  -- The branches of Login on what Verify returned.
  unfoldable pub verified_login :
      User.User → (digest password : String) → Result (Unit {0}) → Run AuthResult
  verified_login user digest password (err e) = do count (auth "login" "failed"); raise mismatch
  verified_login user digest password (ok u) = do
    count (auth "login" "success")
    current ← upgrade user digest password
    issue_session current

  abbrev pub stored_digest : Option String → String
  stored_digest none = ""
  stored_digest (some digest) = digest

  -- The branches of Login on what GetUserByEmail returned.
  unfoldable pub found_login : String → Result User.User → Run AuthResult
  found_login password (err e) =
      if is_sentinel not_found e
      then (do dummy_compare s.crypto s.hasher; count (auth "login" "failed"); raise mismatch)
      else (do count (auth "login" "error"); raise (wrap "look up user" e))
  found_login password (ok user) = do
    let digest = stored_digest user.password_hash
    checked ← attempt (verify s.crypto s.hasher digest password)
    verified_login user digest password checked

  -- Login
  unfoldable pub login : (email password : String) → Run AuthResult
  login email password = do
    user ← attempt (get_user_by_email s.platform (trim_space email))
    found_login password user

  abbrev shown : Result User.User → Run UserView
  shown (ok user) = pure (view_of user)
  shown (err e) = if is_sentinel not_found e then raise e else raise (wrap "load user" e)

  -- Me
  unfoldable pub me : Uuid → Run UserView
  me id = do user ← attempt (get_user_by_id id); shown user

  -- The end of Refresh, for the user that GetUserByID returned.
  unfoldable pub renewed_for : RefreshToken → String → Result User.User → Run AuthResult
  renewed_for stored successor (err e) = raise (sentinel_failure not_found)
  renewed_for stored successor (ok user) = do
    signed ← attempt (issue_access s.platform s.crypto s.tokens user.id user.email)
    (access, expires_at) ← wrapped "issue access token" signed
    count (token_refresh "success")
    pure (record {
      token = access;
      expires_at = expires_at;
      user = view_of user;
      refresh_token = successor;
      refresh_token_expires_at = stored.expires_at;
    })

  -- The switch of Refresh on what ConsumeRefreshToken returned.
  unfoldable pub renewed : String → Result RefreshToken → Run AuthResult
  renewed successor (err e) =
      if is_sentinel token_reused e
      then (do count (token_refresh "reuse_detected"); raise e)
      else (do count (token_refresh "rejected"); raise e)
  renewed successor (ok stored) = do
    user ← attempt (get_user_by_id stored.user_id)
    renewed_for stored successor user

  -- Refresh
  unfoldable pub refresh : String → Run AuthResult
  refresh presented = if presented == "" then raise (sentinel_failure not_found) else (do
    minted ← attempt (new_refresh_token s.crypto)
    (successor, hashed) ← wrapped "mint refresh token" minted
    now ← reads λ w. w.clock
    stored ← attempt (
        consume_refresh_token (record {
          presented_hash = s.crypto.sha256_hex presented;
          successor_hash = hashed;
          successor_expires_at = now + s.refresh_ttl;
        }))
    renewed successor stored)

  abbrev signed_out : Result ℕ → Run (Unit {0})
  signed_out (ok n) = pure tt
  signed_out (err e) = if is_sentinel not_found e then pure tt else raise (wrap "revoke session" e)

  -- Logout
  unfoldable pub logout : String → Run (Unit {0})
  logout presented = if presented == "" then pure tt else (do
    revoked ← attempt (revoke_family_by_token (s.crypto.sha256_hex presented) "signed out")
    signed_out revoked)

  -- RevokeAllSessions
  unfoldable pub revoke_all_sessions : Uuid → String → Run (Unit {0})
  revoke_all_sessions id reason = do
    revoked ← attempt (revoke_all_for_user id reason)
    n ← wrapped "revoke sessions" revoked
    pure tt
