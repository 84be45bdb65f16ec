-- ===== src/Auth/Lifecycle.antt =====
-- internal/service/auth_service.go: the opening of a session and its renewal, step by step.
use stripe_payment_service.Prelude.{
  nat_eq, suc, ◌+◌, String, ◌≡◌, refl, ap, ◌∙◌, inr, false, not, ◌&&◌, Option, none, some, List, [],
  ◌∷◌, ◌==◌, arith,
}
use stripe_payment_service.Prelude.Table
use stripe_payment_service.Domain.Errors.{ok}
use stripe_payment_service.Domain.Time.{Time}
use stripe_payment_service.Domain.Subscription.{Uuid}
use stripe_payment_service.Domain.User
use stripe_payment_service.Domain.User.{is_deleted}
use stripe_payment_service.Domain.Token.{RefreshToken}
use stripe_payment_service.Session.{
  Tokens, hash_key, find_token, issued_row, issue, set_used, Exchange,
}
use stripe_payment_service.Session.Rotation.{
  MayExchange, consume-commits, marked, exchanged, successor as rotated,
}
use stripe_payment_service.Auth.Token.{claims_at, issue_access, new_refresh_token}
use stripe_payment_service.Auth.Service.{
  AuthService, AuthResult, view_of, issue_session, refresh, renewed, renewed_for,
}
use stripe_payment_service.Repository.Users.{get_user_by_id, first_where}
use stripe_payment_service.Repository.Sessions.{consume_refresh_token}
use stripe_payment_service.Repository.Sessions.Calm.{
  consume_refresh_token-calm, create_refresh_token-calm, with_tokens,
}
use stripe_payment_service.Run.{World, token_refresh, ◌>>=◌}
use stripe_payment_service.Run.Keeps.{statement-calm, bind-step, attempt-step}

-- What GetUserByID finds.
abbrev pub live_user : Uuid → List User.User → Option User.User
live_user id = first_where (λ u. nat_eq u.id id && not (is_deleted u))

-- No call fails, `access` is the signed access token, and `token` the random refresh token, whose hash
-- is not stored yet.
pub record Opens (s : AuthService) (u : User.User) (w : World) (access token : String)
    : Type 0 where
  pub calm : w.trips ≡ []
  pub signs :
      s.crypto.sign s.tokens.secret
        (claims_at s.platform s.crypto s.tokens u.id u.email w.clock w.draws)
      ≡ inr access
  pub mints : s.crypto.random_token (suc w.draws) ≡ inr token
  pub fresh : find_token (s.crypto.sha256_hex token) w.tokens ≡ none

abbrev pub opened_row : AuthService → User.User → World → String → RefreshToken
opened_row s u w token =
    issued_row w.clock u.id (s.crypto.sha256_hex token) (s.crypto.new_uuid (suc (suc w.draws)))
      (w.clock + s.refresh_ttl)

abbrev pub result_of : User.User → Time → Time → (access token : String) → AuthResult
result_of u expires_at until access token = record {
  token = access;
  expires_at = expires_at;
  user = view_of u;
  refresh_token = token;
  refresh_token_expires_at = until;
}

pub issue_access_lem :
    (s : AuthService) (u : User.User) (w : World) (access : String)
    → s.crypto.sign s.tokens.secret
        (claims_at s.platform s.crypto s.tokens u.id u.email w.clock w.draws)
      ≡ inr access
    → issue_access s.platform s.crypto s.tokens u.id u.email w
      ≡ (ok (access, w.clock + s.tokens.ttl), record w { draws = suc w.draws })
unfolding issue_access ◌>>=◌
issue_access_lem s u w access e = rw e refl

pub new_refresh_token_lem :
    (s : AuthService) (w : World) (token : String)
    → s.crypto.random_token w.draws ≡ inr token
    → new_refresh_token s.crypto w
      ≡ (ok (token, s.crypto.sha256_hex token), record w { draws = suc w.draws })
unfolding new_refresh_token ◌>>=◌
new_refresh_token_lem s w token e = rw e refl

issue-fresh :
    (op : String) (now : Time) (user : Uuid) (hash : String) (family : Uuid) (expires_at : Time)
    (t : Tokens)
    → find_token hash t ≡ none
    → issue op now user hash family expires_at t ≡ (
      ok (issued_row now user hash family expires_at),
      Table.insert hash_key (issued_row now user hash family expires_at) t,
    )
unfolding issue
issue-fresh op now user hash family expires_at t e = rw (e, issue) refl

pub issue_session_lem :
    (s : AuthService) (u : User.User) (w : World) (access token : String)
    → Opens s u w access token
    → issue_session s u w ≡ (
      ok (result_of u (w.clock + s.tokens.ttl) (w.clock + s.refresh_ttl) access token),
      record w {
        draws = suc (suc (suc w.draws));
        tokens = Table.insert hash_key (opened_row s u w token) w.tokens;
      },
    )
unfolding issue_session
issue_session_lem s u w access token h =
    attempt-step _ _ w (issue_access_lem s u w access h.signs)
    ∙ bind-step _ _ _ refl
    ∙ attempt-step _ _ _ (new_refresh_token_lem s (record w { draws = suc w.draws }) token h.mints)
    ∙ bind-step _ _ _ refl
    ∙ bind-step _ _ _ refl
    ∙ bind-step _ _ _ refl
    ∙ attempt-step _ _ _ (
        create_refresh_token-calm _ _ _ _ _ h.calm
        ∙ ap (with_tokens (record w { draws = suc (suc (suc w.draws)) }))
            (issue-fresh _ _ _ _ _ _ _ h.fresh))
    ∙ bind-step _ _ _ refl

-- No call fails, `p` is the stored row of the presented token and can be exchanged, `u` its user, and
-- `successor` the next random refresh token, whose hash is not stored.
pub record Renews (s : AuthService) (p : RefreshToken) (u : User.User) (w : World)
    (presented successor access : String) : Type 0 where
  pub calm : w.trips ≡ []
  pub given : (presented == "") ≡ false
  pub stored : find_token (s.crypto.sha256_hex presented) w.tokens ≡ some p
  pub may : MayExchange w.clock p
  pub mints : s.crypto.random_token w.draws ≡ inr successor
  pub free : find_token (s.crypto.sha256_hex successor) w.tokens ≡ none
  pub user : live_user p.user_id w.users ≡ some u
  pub signs :
      s.crypto.sign s.tokens.secret
        (claims_at s.platform s.crypto s.tokens u.id u.email w.clock (suc w.draws))
      ≡ inr access

abbrev pub exchange_of : AuthService → World → (presented successor : String) → Exchange
exchange_of s w presented successor = record {
  presented_hash = s.crypto.sha256_hex presented;
  successor_hash = s.crypto.sha256_hex successor;
  successor_expires_at = w.clock + s.refresh_ttl;
}

-- Marking a row adds no hash.
pub still_free :
    (now : Time) (x : Exchange) (t : Tokens)
    → find_token x.successor_hash t ≡ none
    → find_token x.successor_hash (marked now x t) ≡ none
still_free now x t free = ground (
  arith,
  free,
  Table.lookup-update hash_key x.successor_hash x.presented_hash (set_used now) t (λ r. refl),
)

pub get_user_by_id-calm :
    (id : Uuid) (u : User.User) (w : World)
    → w.trips ≡ []
    → live_user id w.users ≡ some u
    → get_user_by_id id w ≡ (ok u, w)
unfolding get_user_by_id
get_user_by_id-calm id u w calm e = statement-calm _ _ w calm ∙ rw e refl

module _ (s : AuthService) (p : RefreshToken) (u : User.User) (w : World)
    (presented successor access : String) (h : Renews s p u w presented successor access) where
  abbrev x : Exchange
  x = exchange_of s w presented successor

  consumed : consume_refresh_token x (record w { draws = suc w.draws }) ≡ (
    ok (rotated w.clock x p),
    record w { draws = suc w.draws; tokens = exchanged w.clock x p w.tokens },
  )
  consumed =
      consume_refresh_token-calm x (record w { draws = suc w.draws }) h.calm
      ∙ ap (with_tokens (record w { draws = suc w.draws })) (
          consume-commits w.clock w.clock x w.tokens p h.stored h.may
            (still_free w.clock x w.tokens h.free))

  pub refresh_lem : refresh s presented w ≡ (
    ok (result_of u (w.clock + s.tokens.ttl) (w.clock + s.refresh_ttl) access successor),
    record w {
      draws = suc (suc w.draws);
      tokens = exchanged w.clock x p w.tokens;
      counted = token_refresh "success" ∷ w.counted;
    },
  )
  unfolding refresh renewed renewed_for
  refresh_lem = rw h.given (
      attempt-step _ _ w (new_refresh_token_lem s w successor h.mints)
      ∙ bind-step _ _ _ refl
      ∙ bind-step _ _ _ refl
      ∙ attempt-step _ _ _ consumed
      ∙ attempt-step _ _ _ (get_user_by_id-calm _ u _ h.calm h.user)
      ∙ attempt-step _ _ _ (
          issue_access_lem s u
            (record w { draws = suc w.draws; tokens = exchanged w.clock x p w.tokens }) access
            h.signs)
      ∙ bind-step _ _ _ refl
      ∙ bind-step _ _ _ refl)
