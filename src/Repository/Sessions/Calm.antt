-- ===== src/Repository/Sessions/Calm.antt =====
-- internal/repository/postgres/refresh_token_repo.go: the methods where no call of the database fails
-- or takes time.
use stripe_payment_service.Prelude.{
  String, ◌≡◌, refl, ap, ◌∙◌, inl, inr, Option, none, some, [], ◌||◌, is_some, Bool-cases,
}
use stripe_payment_service.Domain.Errors.{Result, ok, err}
use stripe_payment_service.Domain.Time.{Time, after}
use stripe_payment_service.Domain.Token.{RefreshToken}
use stripe_payment_service.Domain.Subscription.{Uuid}
use stripe_payment_service.Session
use stripe_payment_service.Session.{
  Tokens, find_token, Exchange, exchange_found, consume, issue, commit_exchange,
}
use stripe_payment_service.Repository.Sessions.Branches.{
  exchange-used, exchange-ended, exchange-live,
}
use stripe_payment_service.Run.{World, continue, reads, ◌>>=◌}
use stripe_payment_service.Run.Keeps.{statement-calm, bind-calm}
use stripe_payment_service.Repository.Sessions.{
  create_refresh_token, revoke_family_by_token, consume_refresh_token, after_lock, commit, staged,
  locked_token,
}

-- The outcome of one step on the table.
abbrev pub with_tokens : {A : Type 0} → World → Result A × Tokens → Result A × World
with_tokens w (r, t) = (r, record w { tokens = t })

live-calm :
    (local now : Time) (x : Exchange) (p : RefreshToken) (w : World)
    (y : Result RefreshToken × Tokens)
    → w.trips ≡ []
    → exchange_found local now x p w.tokens ≡ commit_exchange w.tokens y
    → continue (staged y) (λ r. commit "consume refresh token: commit" r.0 r.1) w
      ≡ with_tokens w (exchange_found local now x p w.tokens)
live-calm local now x p w (ok s, t) calm e = statement-calm _ _ w calm ∙ rw e refl
live-calm local now x p w (err f, t) calm e = rw e refl

after_lock-calm :
    (local now : Time) (x : Exchange) (p : RefreshToken) (w : World)
    → w.trips ≡ []
    → after_lock local now x p w.tokens w ≡ with_tokens w (exchange_found local now x p w.tokens)
unfolding after_lock
after_lock-calm local now x p w calm = elim (Bool-cases (is_some p.used_at)) [
  | inl used ↦ rw used (
      bind-calm _ _ _ w calm
      ∙ bind-calm _ _ _ w calm
      ∙ ap (with_tokens w) (exchange-used local now x p w.tokens used))
  | inr fresh ↦ elim (Bool-cases (is_some p.revoked_at || after local p.expires_at)) [
    | inl ended ↦
        rw (fresh, ended) (ap (with_tokens w) (exchange-ended local now x p w.tokens fresh ended))
    | inr live ↦
        rw (fresh, live)
          (bind-calm _ _ _ w calm
            ∙ bind-calm _ _ _ w calm
            ∙ live-calm local now x p w _ calm (exchange-live local now x p w.tokens fresh live))
  ]
]

locked-calm :
    (x : Exchange) (o : Option RefreshToken) (w : World)
    → w.trips ≡ []
    → find_token x.presented_hash w.tokens ≡ o
    → continue
        (locked_token o)
        (λ presented. reads (λ v. v.tokens) >>= λ draft.
          reads (λ v. v.clock) >>= λ local. after_lock local w.clock x presented draft)
        w
      ≡ with_tokens w (consume w.clock w.clock x w.tokens)
unfolding ◌>>=◌ consume
locked-calm x none w calm found = rw (found, consume) refl
locked-calm x (some p) w calm found =
    after_lock-calm w.clock w.clock x p w calm ∙ rw (found, consume) refl

-- Where no call fails, the method is one step on the table.
pub consume_refresh_token-calm :
    (x : Exchange) (w : World)
    → w.trips ≡ []
    → consume_refresh_token x w ≡ with_tokens w (consume w.clock w.clock x w.tokens)
unfolding consume_refresh_token
consume_refresh_token-calm x w calm =
    bind-calm _ _ _ w calm ∙ bind-calm _ _ _ w calm ∙ locked-calm x _ w calm refl

pub create_refresh_token-calm :
    (user : Uuid) (hash : String) (family : Uuid) (expires_at : Time) (w : World)
    → w.trips ≡ []
    → create_refresh_token user hash family expires_at w
      ≡ with_tokens w (issue "create refresh token" w.clock user hash family expires_at w.tokens)
unfolding create_refresh_token
create_refresh_token-calm user hash family expires_at w calm = statement-calm _ _ w calm

pub revoke_family_by_token-calm :
    (hash reason : String) (w : World)
    → w.trips ≡ []
    → revoke_family_by_token hash reason w ≡ (
      ok (Session.revoke_family_by_token hash reason w.clock w.tokens).0,
      record w { tokens = (Session.revoke_family_by_token hash reason w.clock w.tokens).1 },
    )
unfolding revoke_family_by_token
revoke_family_by_token-calm hash reason w calm = statement-calm _ _ w calm
