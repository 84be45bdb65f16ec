-- ===== src/Auth/Opening.antt =====
-- internal/service/auth_service.go: the renewal of the session that a login opens.
use stripe_payment_service.Prelude.{
  suc, ◌+◌, ◌≤◌, String, ◌≡◌, refl, ap, ◌∙◌, inr, false, none, some, ◌==◌, arith, eq_iff, eq_refl,
  if◌then◌else◌,
}
use stripe_payment_service.Prelude.Table
use stripe_payment_service.Domain.Errors.{ok}
use stripe_payment_service.Domain.Time.{Time}
use stripe_payment_service.Domain.User
use stripe_payment_service.Domain.User.{is_deleted}
use stripe_payment_service.Session.{hash_key, find_token, issued_row, set_used}
use stripe_payment_service.Session.Rotation.{marked, successor as rotated}
use stripe_payment_service.Auth.Token.{claims_at}
use stripe_payment_service.Auth.Service.{AuthService, AuthResult, issue_session, refresh}
use stripe_payment_service.Run.{World}
use stripe_payment_service.Auth.Lifecycle.{
  live_user, Opens, Renews, opened_row, result_of, exchange_of, issue_session_lem, refresh_lem,
  still_free,
}

-- The world in which a session has just been opened, at a later time.
abbrev pub after_opening : AuthService → User.User → World → String → Time → World
after_opening s u w token later = record w {
  clock = later;
  draws = suc (suc (suc w.draws));
  tokens = Table.insert hash_key (opened_row s u w token) w.tokens;
}

opened_row-Renews :
    (s : AuthService) (u : User.User) (w : World) (token successor access access' : String)
    (later : Time)
    → Opens s u w access token
    → (token == "") ≡ false
    → later ≤ w.clock + s.refresh_ttl
    → s.crypto.random_token (suc (suc (suc w.draws))) ≡ inr successor
    → (s.crypto.sha256_hex token == s.crypto.sha256_hex successor) ≡ false
    → find_token (s.crypto.sha256_hex successor) w.tokens ≡ none
    → live_user u.id w.users ≡ some u
    → s.crypto.sign s.tokens.secret
        (claims_at s.platform s.crypto s.tokens u.id u.email later (suc (suc (suc (suc w.draws)))))
      ≡ inr access'
    → Renews s (opened_row s u w token) u (after_opening s u w token later) token successor access'
opened_row-Renews s u w token successor access access' later h given early mints differ free user
      signs =
    record {
      calm = h.calm;
      given = given;
      stored =
          Table.lookup-insert hash_key _ (opened_row s u w token) w.tokens h.fresh
          ∙ rw (eq_refl (s.crypto.sha256_hex token)) refl;
      may = (refl, refl, early);
      mints = mints;
      free =
          Table.lookup-insert hash_key _ (opened_row s u w token) w.tokens h.fresh ∙ rw differ free;
      user = user;
      signs = signs;
    }

-- The session that a login opens can be renewed until it expires. Where no call of the database
-- fails, the signer and the source of randomness work, the random tokens are not empty and have new
-- hashes, and the user is live, `issue` returns a refresh token, and presenting it to Refresh at any time
-- up to its expiry gives the same user a new access token and the next refresh token. Afterwards the first token is
-- marked as used, and the next is stored in the same family, to expire a full lifetime after the renewal.
pub refresh-issue_session :
    (s : AuthService) (u : User.User) (w : World) (token successor access access' : String)
    (later : Time)
    → Opens s u w access token
    → (token == "") ≡ false
    → later ≤ w.clock + s.refresh_ttl
    → s.crypto.random_token (suc (suc (suc w.draws))) ≡ inr successor
    → (s.crypto.sha256_hex token == s.crypto.sha256_hex successor) ≡ false
    → find_token (s.crypto.sha256_hex successor) w.tokens ≡ none
    → live_user u.id w.users ≡ some u
    → s.crypto.sign s.tokens.secret
        (claims_at s.platform s.crypto s.tokens u.id u.email later (suc (suc (suc (suc w.draws)))))
      ≡ inr access'
    → (a : AuthResult) × (v : World) × (issue_session s u w ≡ (ok a, v))
      × ((refresh s a.refresh_token (record v { clock = later })).0
          ≡ ok (result_of u (later + s.tokens.ttl) (later + s.refresh_ttl) access' successor))
      × (find_token
            (s.crypto.sha256_hex token)
            (refresh s a.refresh_token (record v { clock = later })).1.tokens
          ≡ some (set_used later (opened_row s u w token)))
      × (find_token
            (s.crypto.sha256_hex successor)
            (refresh s a.refresh_token (record v { clock = later })).1.tokens
          ≡ some (
              issued_row later u.id
                (s.crypto.sha256_hex successor)
                (opened_row s u w token).family_id
                (later + s.refresh_ttl)))
refresh-issue_session s u w token successor access access' later h given early mints differ free
      user signs =
    let first = opened_row s u w token in
    let v = after_opening s u w token later in
    let x = exchange_of s v token successor in
    let renews =
      opened_row-Renews s u w token successor access access' later h given early mints differ free
        user signs in
    let renewed = refresh_lem s first u v token successor access' renews in
    let clear = still_free later x v.tokens renews.free in
    let moved =
      Table.lookup-insert hash_key (s.crypto.sha256_hex token) (rotated later x first)
        (marked later x v.tokens) clear in
    let placed =
      Table.lookup-insert hash_key (s.crypto.sha256_hex successor) (rotated later x first)
        (marked later x v.tokens) clear in
    let kept : (if s.crypto.sha256_hex successor == s.crypto.sha256_hex token
          then some (rotated later x first)
          else find_token (s.crypto.sha256_hex token) (marked later x v.tokens))
        ≡ some (set_used later first) =
      ground (
        arith,
        differ,
        renews.stored,
        eq_refl (s.crypto.sha256_hex token),
        eq_iff (s.crypto.sha256_hex token) (s.crypto.sha256_hex successor),
        eq_iff (s.crypto.sha256_hex successor) (s.crypto.sha256_hex token),
        Table.lookup-update hash_key (s.crypto.sha256_hex token) (s.crypto.sha256_hex token)
            (set_used later) v.tokens (λ r. refl),
      ) in
    (
      _,
      _,
      issue_session_lem s u w access token h,
      ap (λ r. r.0) renewed,
      ap (λ r. find_token (s.crypto.sha256_hex token) r.1.tokens) renewed ∙ moved ∙ kept,
      ap (λ r. find_token (s.crypto.sha256_hex successor) r.1.tokens) renewed
          ∙ placed
          ∙ rw (eq_refl (s.crypto.sha256_hex successor)) refl,
    )
