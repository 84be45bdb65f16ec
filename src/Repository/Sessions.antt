-- ===== src/Repository/Sessions.antt =====
-- internal/repository/postgres/refresh_token_repo.go: the calls of the database that its methods make,
-- one trip for each. What the trips do to the table is in Session.
pub mod Branches
pub mod Atomic
pub mod Calm
use stripe_payment_service.Prelude.{
  ℕ, String, Option, none, some, ◌||◌, is_some, bytes, if◌then◌else◌,
}
use stripe_payment_service.Domain.Errors.{
  Result, ok, err, map_error, no_rows, sentinel_failure, not_found, token_reused,
}
use stripe_payment_service.Domain.Time.{Time, Duration, after}
use stripe_payment_service.Domain.Subscription.{Uuid}
use stripe_payment_service.Domain.Token.{RefreshToken}
use stripe_payment_service.Session
use stripe_payment_service.Session.{
  Tokens, find_token, Exchange, issue, hash_key, set_used, in_family, revoke_where,
}
use stripe_payment_service.Prelude.Table
use stripe_payment_service.Run.{World, Run, pure, raise, reads, statement, ◌>>=◌, ◌>>◌}

-- A statement of the table, with the server's clock.
abbrev on_tokens : {A : Type 0} → String → (Time → Tokens → A × Tokens) → Run A
on_tokens op f =
    statement op λ now w. let (a, t) = f now w.tokens in (ok a, record w { tokens = t })

-- CreateRefreshToken
unfoldable pub create_refresh_token : Uuid → String → Uuid → Time → Run RefreshToken
create_refresh_token user hash family expires_at = statement "create refresh token" λ now w.
    let (r, t) = issue "create refresh token" now user hash family expires_at w.tokens in
    (r, record w { tokens = t })

-- The SELECT … FOR UPDATE.
abbrev pub locked_token : Option RefreshToken → Result RefreshToken
locked_token none = err (map_error "consume refresh token: lock" no_rows)
locked_token (some r) = ok r

-- What a statement of a transaction gives: its result, with the transaction's table after it.
abbrev pub staged : {A : Type 0} → Result A × Tokens → Result (A × Tokens)
staged (ok a, t) = ok (a, t)
staged (err e, t) = err e

-- A statement of a transaction, on the transaction's own table. No one else sees the effect before the
-- commit.
abbrev pub within : {A : Type 0} → String → (Tokens → Result A × Tokens) → Tokens → Run (A × Tokens)
within op f draft = statement op λ at w. (staged (f draft), w)

-- The commit makes the transaction's table the one that all see.
abbrev pub commit : {A : Type 0} → String → A → Tokens → Run A
commit op a draft = statement op λ at w. (ok a, record w { tokens = draft })

abbrev pub revoke_reused : Time → RefreshToken → Tokens → Result (Unit {0}) × Tokens
revoke_reused now presented t = (
  ok tt,
  (revoke_where (in_family presented.family_id) now (bytes "refresh token reuse detected") t).1,
)

abbrev pub mark_used : Time → Exchange → Tokens → Result (Unit {0}) × Tokens
mark_used now x t = (ok tt, Table.update hash_key x.presented_hash (set_used now) t)

abbrev pub issue_successor : Time → Exchange → RefreshToken → Tokens → Result RefreshToken × Tokens
issue_successor now x presented =
    issue "consume refresh token: issue successor" now presented.user_id x.successor_hash
      presented.family_id x.successor_expires_at

-- The branches after the lock, for the token that was found and the table as the transaction sees it.
unfoldable pub after_lock : (local now : Time) → Exchange → RefreshToken → Tokens → Run RefreshToken
after_lock local now x presented draft =
    if is_some presented.used_at
    then (do
      revoked ← within "consume refresh token: revoke family" (revoke_reused now presented) draft
      commit "consume refresh token: commit revocation" tt revoked.1
      raise (sentinel_failure token_reused))
    else if is_some presented.revoked_at || after local presented.expires_at
    then raise (sentinel_failure not_found)
    else (do
      marked ← within "consume refresh token: mark used" (mark_used now x) draft
      issued ←
          within "consume refresh token: issue successor" (issue_successor now x presented) marked.1
      commit "consume refresh token: commit" issued.0 issued.1)

-- ConsumeRefreshToken. Within the transaction now() is the time of its beginning.
unfoldable pub consume_refresh_token : Exchange → Run RefreshToken
consume_refresh_token x = do
  now ← statement "consume refresh token: begin" λ now w. (ok now, w)
  presented ←
      statement "consume refresh token: lock"
        λ at w. (locked_token (find_token x.presented_hash w.tokens), w)
  draft ← reads λ w. w.tokens
  local ← reads λ w. w.clock
  after_lock local now x presented draft

-- RevokeFamily
unfoldable pub revoke_family : Uuid → String → Run ℕ
revoke_family family reason =
    on_tokens "revoke refresh token family" λ now t. Session.revoke_family family reason now t

-- RevokeFamilyByToken
unfoldable pub revoke_family_by_token : String → String → Run ℕ
revoke_family_by_token hash reason =
    on_tokens "revoke refresh token family by token"
      λ now t. Session.revoke_family_by_token hash reason now t

-- RevokeAllForUser
unfoldable pub revoke_all_for_user : Uuid → String → Run ℕ
revoke_all_for_user user reason =
    on_tokens "revoke refresh tokens for user"
      λ now t. Session.revoke_all_for_user user reason now t

-- DeleteExpiredRefreshTokens
unfoldable pub delete_expired_refresh_tokens : Duration → ℕ → Run ℕ
delete_expired_refresh_tokens grace limit =
    on_tokens "delete expired refresh tokens" λ now t. Session.delete_expired grace limit now t
