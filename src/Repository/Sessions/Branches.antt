-- ===== src/Repository/Sessions/Branches.antt =====
-- internal/repository/postgres/refresh_token_repo.go: the branches of the one step on the table, by the
-- statements of the transaction.
use stripe_payment_service.Prelude.{◌≡◌, refl, true, false, ◌||◌, is_some}
use stripe_payment_service.Domain.Errors.{err, sentinel_failure, not_found, token_reused}
use stripe_payment_service.Domain.Time.{Time, after}
use stripe_payment_service.Domain.Token.{RefreshToken}
use stripe_payment_service.Session.{Tokens, Exchange, exchange_found, commit_exchange}
use stripe_payment_service.Repository.Sessions.{revoke_reused, mark_used, issue_successor}

module _ (local now : Time) (x : Exchange) (p : RefreshToken) (t : Tokens) where
  pub exchange-used :
      is_some p.used_at ≡ true
      → (err (sentinel_failure token_reused), (revoke_reused now p t).1)
        ≡ exchange_found local now x p t
  unfolding exchange_found
  exchange-used used = rw used refl

  pub exchange-ended :
      is_some p.used_at ≡ false
      → (is_some p.revoked_at || after local p.expires_at) ≡ true
      → (err (sentinel_failure not_found), t) ≡ exchange_found local now x p t
  unfolding exchange_found
  exchange-ended fresh ended = rw (fresh, ended) refl

  pub exchange-live :
      is_some p.used_at ≡ false
      → (is_some p.revoked_at || after local p.expires_at) ≡ false
      → exchange_found local now x p t
        ≡ commit_exchange t (issue_successor now x p (mark_used now x t).1)
  unfolding exchange_found
  exchange-live fresh live = rw (fresh, live) refl
