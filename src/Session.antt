-- ===== src/Session.antt =====
-- internal/repository/postgres/refresh_token_repo.go: the statements of the table `refresh_tokens`,
-- whose unique key is the token's hash. `now` is the server's clock and `local` the process's.
pub mod Rotation
pub mod Lineage
pub mod Tests
use stripe_payment_service.Prelude.{
  ℕ, ◌+◌, String, Bool, not, ◌&&◌, ◌||◌, Option, none, some, List, ◌==◌, ltb, nat_eq, is_none,
  is_some, take, keep, count_where, any_where, bytes, if◌then◌else◌,
}
use stripe_payment_service.Prelude.Table
use stripe_payment_service.Prelude.Table.{update_where}
use stripe_payment_service.Prelude.Sort.{order_by}
use stripe_payment_service.Domain.Errors.{
  Result, ok, err, sentinel_failure, map_error, DriverError, no_rows, pg, not_found, token_reused,
}
use stripe_payment_service.Domain.Time.{Time, Duration, after}
use stripe_payment_service.Domain.Subscription.{Uuid}
use stripe_payment_service.Domain.Token.{RefreshToken}
use stripe_payment_service.Truncate.{truncate}

abbrev pub Tokens : Type 0
Tokens = List RefreshToken

abbrev pub hash_key : RefreshToken → String
hash_key r = r.token_hash

abbrev pub find_token : String → Tokens → Option RefreshToken
find_token = Table.lookup hash_key

-- The columns that the INSERT names; the others get their defaults.
abbrev pub issued_row : Time → Uuid → String → Uuid → Time → RefreshToken
issued_row now user hash family expires_at = record {
  user_id = user;
  token_hash = hash;
  family_id = family;
  issued_at = now;
  expires_at = expires_at;
  used_at = none;
  revoked_at = none;
  revoked_reason = none;
}

abbrev pub duplicate_token : DriverError
duplicate_token =
    pg "23505" "uq_refresh_tokens_token_hash" "duplicate key value violates unique constraint"
      "ERROR: duplicate key value violates unique constraint (SQLSTATE 23505)"

-- The INSERT of CreateRefreshToken, and of a successor.
unfoldable pub issue :
    (op : String)
    → (now : Time) → (user : Uuid) → (hash : String) → (family : Uuid) → (expires_at : Time)
    → Tokens
    → Result RefreshToken × Tokens
issue op now user hash family expires_at t = elim (find_token hash t) [
  | some old ↦ (err (map_error op duplicate_token), t)
  | none ↦ (
    ok (issued_row now user hash family expires_at),
    Table.insert hash_key (issued_row now user hash family expires_at) t,
  )
]

abbrev pub in_family : Uuid → RefreshToken → Bool
in_family family r = nat_eq r.family_id family

abbrev pub unrevoked : RefreshToken → Bool
unrevoked r = is_none r.revoked_at

abbrev pub set_revoked : Time → List ℕ → RefreshToken → RefreshToken
set_revoked now reason r = record r { revoked_at = some now; revoked_reason = some reason }

abbrev pub set_used : Time → RefreshToken → RefreshToken
set_used now r = record r { used_at = some now }

-- UPDATE … SET revoked_at WHERE p AND revoked_at IS NULL, with the number of rows affected.
unfoldable pub revoke_where : (RefreshToken → Bool) → Time → List ℕ → Tokens → ℕ × Tokens
revoke_where p now reason t = (
  count_where (λ r. p r && unrevoked r) t,
  update_where (λ r. p r && unrevoked r) (set_revoked now reason) t,
)

-- RevokeFamily
abbrev pub revoke_family : Uuid → String → Time → Tokens → ℕ × Tokens
revoke_family family reason now = revoke_where (in_family family) now (truncate (bytes reason))

-- RevokeAllForUser
abbrev pub revoke_all_for_user : Uuid → String → Time → Tokens → ℕ × Tokens
revoke_all_for_user user reason now =
    revoke_where (λ r. nat_eq r.user_id user) now (truncate (bytes reason))

-- RevokeFamilyByToken: an unknown token has no family, and the statement affects no row.
unfoldable pub revoke_family_by_token : String → String → Time → Tokens → ℕ × Tokens
revoke_family_by_token hash reason now t = elim (find_token hash t) [
  | none ↦ (0, t)
  | some r ↦ revoke_family r.family_id reason now t
]

-- DeleteExpiredRefreshTokens
abbrev pub is_expired : Duration → Time → RefreshToken → Bool
is_expired grace now r = ltb (r.expires_at + grace) now

abbrev pub expired : Duration → ℕ → Time → Tokens → Tokens
expired grace limit now t =
    take limit (order_by (λ r. r.expires_at) (keep (is_expired grace now) t))

abbrev pub hash_among : Tokens → RefreshToken → Bool
hash_among chosen r = any_where (λ c. c.token_hash == r.token_hash) chosen

unfoldable pub delete_expired : Duration → ℕ → Time → Tokens → ℕ × Tokens
delete_expired grace limit now t =
    let chosen = expired grace limit now t in
    (count_where (hash_among chosen) t, keep (λ r. not (hash_among chosen r)) t)

-- ConsumeRefreshToken, the struct
pub record Exchange : Type 0 where
  pub presented_hash : String
  pub successor_hash : String
  pub successor_expires_at : Time

-- A successor that is issued commits the transaction; a failure to issue it rolls back the mark.
abbrev pub commit_exchange : Tokens → Result RefreshToken × Tokens → Result RefreshToken × Tokens
commit_exchange before (ok r, after) = (ok r, after)
commit_exchange before (err e, after) = (err e, before)

-- The steps after the lock, for the token that was found.
unfoldable pub exchange_found :
    (local now : Time) → Exchange → RefreshToken → Tokens → Result RefreshToken × Tokens
exchange_found local now x presented t =
    if is_some presented.used_at
    then (
      err (sentinel_failure token_reused),
      (revoke_where (in_family presented.family_id) now (bytes "refresh token reuse detected") t).1,
    )
    else if is_some presented.revoked_at || after local presented.expires_at
    then (err (sentinel_failure not_found), t)
    else commit_exchange t (
        issue "consume refresh token: issue successor" now presented.user_id x.successor_hash
          presented.family_id x.successor_expires_at
          (Table.update hash_key x.presented_hash (set_used now) t))

-- ConsumeRefreshToken, where the database does not fail.
unfoldable pub consume : (local now : Time) → Exchange → Tokens → Result RefreshToken × Tokens
unfolding exchange_found
consume local now x t = elim (find_token x.presented_hash t) [
  | none ↦ (err (map_error "consume refresh token: lock" no_rows), t)
  | some presented ↦ exchange_found local now x presented t
]
