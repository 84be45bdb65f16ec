-- ===== src/Repository/Sessions/Atomic.antt =====
-- internal/repository/postgres/refresh_token_repo.go: ConsumeRefreshToken, trip by trip, against the
-- one step on the table that Session.consume is.
use mathlib.Core.Path.{subst}
use stripe_payment_service.Prelude.{
  String, ◌≡◌, refl, sym, ap, ◌∙◌, ◌⊎◌, inl, inr, Option, none, some, List, [], ◌∷◌, ◌||◌, is_some,
  Bool-cases,
}
use stripe_payment_service.Domain.Errors.{
  Result, ok, err, Failure, map_error, connection, sentinel_failure, token_reused,
}
use stripe_payment_service.Domain.Time.{Time, after}
use stripe_payment_service.Domain.Token.{RefreshToken}
use stripe_payment_service.Session.{
  Tokens, find_token, Exchange, exchange_found, consume, commit_exchange,
}
use stripe_payment_service.Repository.Sessions.Branches.{exchange-used, exchange-live}
use stripe_payment_service.Run.{World, Trip, Run, depart, arrive, statement, continue, ◌>>=◌, reads}
use stripe_payment_service.Repository.Sessions.{
  consume_refresh_token, after_lock, locked_token, staged, commit, revoke_reused,
}

-- The two ends of a transaction: it fails and the table is as it was, or it is the one step.
abbrev pub IsAtomic : Exchange → Tokens → Result RefreshToken × World → Type 0
IsAtomic x t (r, v) =
    ((e : Failure) × (r ≡ err e) × (v.tokens ≡ t))
    ⊎ ((local : Time) × (now : Time) × (r ≡ (consume local now x t).0)
        × (v.tokens ≡ (consume local now x t).1))

failed :
    (x : Exchange) (t : Tokens) (e : Failure) (v : World) → v.tokens ≡ t → IsAtomic x t (err e, v)
failed x t e v same = inl (e, refl, same)

depart-tokens : (ts : List Trip) (w : World) → (depart ts w).1.tokens ≡ w.tokens
depart-tokens [] w = refl
depart-tokens (t ∷ ts) w = refl

module _ {A : Type 0} (Q : Result A × World → Type 0) where
  arrive_rule :
      (op : String) (f : Time → World → Result A × World) (w : World) (d : Option String × World)
      → d.1.tokens ≡ w.tokens
      → ((at : Time) (v : World) → v.tokens ≡ w.tokens → Q (f at v))
      → ((e : Failure) (v : World) → v.tokens ≡ w.tokens → Q (err e, v))
      → Q (arrive op f d)
  unfolding arrive
  arrive_rule op f w (none, v) same goes fails = goes v.clock v same
  arrive_rule op f w (some text, v) same goes fails = fails (map_error op (connection text)) v same

  -- What holds of a trip, from what holds where it arrives and where it fails.
  statement_rule :
      (op : String) (f : Time → World → Result A × World) (w : World)
      → ((at : Time) (v : World) → v.tokens ≡ w.tokens → Q (f at v))
      → ((e : Failure) (v : World) → v.tokens ≡ w.tokens → Q (err e, v))
      → Q (statement op f w)
  unfolding statement
  statement_rule op f w = arrive_rule op f w (depart w.trips w) (depart-tokens w.trips w)

-- The same for a trip with a continuation.
bind_rule :
    {A B : Type 0} (Q : Result B × World → Type 0) (op : String)
    (f : Time → World → Result A × World) (g : A → Run B) (w : World)
    → ((at : Time) (v : World) → v.tokens ≡ w.tokens → Q (continue (f at v).0 g (f at v).1))
    → ((e : Failure) (v : World) → v.tokens ≡ w.tokens → Q (err e, v))
    → Q ((statement op f >>= g) w)
unfolding ◌>>=◌
bind_rule Q op f g w = statement_rule (λ r. Q (continue r.0 g r.1)) op f w

-- The end of a transaction whose commit makes the one step visible.
module _ (local now : Time) (x : Exchange) (p : RefreshToken) (t : Tokens)
    (found : find_token x.presented_hash t ≡ some p) where
  consume-found : consume local now x t ≡ exchange_found local now x p t
  unfolding consume
  consume-found = rw (found, consume) refl

  committed :
      (y : Result RefreshToken × Tokens) (v : World)
      → y ≡ exchange_found local now x p t
      → v.tokens ≡ y.1
      → IsAtomic x t (y.0, v)
  committed y v same effect =
      let whole = same ∙ sym consume-found in
      inr (local, now, ap (λ c. c.0) whole, effect ∙ ap (λ c. c.1) whole)

  issued-IsAtomic :
      (y : Result RefreshToken × Tokens) (v : World)
      → v.tokens ≡ t
      → exchange_found local now x p t ≡ commit_exchange t y
      → IsAtomic x t (continue (staged y) (λ r. commit "consume refresh token: commit" r.0 r.1) v)
  issued-IsAtomic (err e, s) v same result = failed x t e v same
  issued-IsAtomic (ok r, s) v same result =
      statement_rule (IsAtomic x t) _ _ v
        (λ at u keeps. committed (ok r, s) (record u { tokens = s }) (sym result) refl)
        (λ e u keeps. failed x t e u (keeps ∙ same))

  after_lock-IsAtomic : (w : World) → w.tokens ≡ t → IsAtomic x t (after_lock local now x p t w)
  unfolding after_lock
  after_lock-IsAtomic w same = elim (Bool-cases (is_some p.used_at)) [
    | inl used ↦ rw used (
        bind_rule (IsAtomic x t) _ _ _ w
          (λ at u e.
            bind_rule (IsAtomic x t) _ _ _ u
              (λ at v k.
                committed (err (sentinel_failure token_reused), (revoke_reused now p t).1)
                  (record v { tokens = (revoke_reused now p t).1 })
                  (exchange-used local now x p t used) refl)
              (λ f v k. failed x t f v (k ∙ e ∙ same)))
          (λ f v k. failed x t f v (k ∙ same)))
    | inr fresh ↦ elim (Bool-cases (is_some p.revoked_at || after local p.expires_at)) [
      | inl ended ↦ rw (fresh, ended) (failed x t _ w same)
      | inr live ↦
          rw (fresh, live)
            (bind_rule (IsAtomic x t) _ _ _ w
              (λ at u e.
                bind_rule (IsAtomic x t) _ _ _ u
                  (λ at v k.
                    issued-IsAtomic _ v (k ∙ e ∙ same) (exchange-live local now x p t fresh live))
                  (λ f v k. failed x t f v (k ∙ e ∙ same)))
              (λ f v k. failed x t f v (k ∙ same)))
    ]
  ]

locked-IsAtomic :
    (now : Time) (x : Exchange) (t : Tokens) (o : Option RefreshToken) (w : World)
    → find_token x.presented_hash t ≡ o
    → w.tokens ≡ t
    → IsAtomic x t (
        continue
          (locked_token o)
          (λ presented. reads (λ v. v.tokens) >>= λ draft.
            reads (λ v. v.clock) >>= λ local. after_lock local now x presented draft)
          w)
unfolding ◌>>=◌
locked-IsAtomic now x t none w found same = failed x t _ w same
locked-IsAtomic now x t (some p) w found same =
    subst (λ d. IsAtomic x t (after_lock w.clock now x p d w)) (sym same)
      (after_lock-IsAtomic w.clock now x p t found w same)

-- The exchange of a refresh token is all or nothing, whichever of its calls of the database fail and
-- however long each takes: either it fails and the table is as it was, or its result and the table
-- are those of one step of `consume` at some clock readings.
pub consume_refresh_token-IsAtomic :
    (x : Exchange) (w : World) → IsAtomic x w.tokens (consume_refresh_token x w)
unfolding consume_refresh_token
consume_refresh_token-IsAtomic x w =
    bind_rule (IsAtomic x w.tokens) _ _ _ w
      (λ now u e.
        bind_rule (IsAtomic x w.tokens) _ _ _ u
          (λ at v k.
            locked-IsAtomic now x w.tokens _ v (ap (find_token x.presented_hash) (sym (k ∙ e)))
              (k ∙ e))
          (λ f v k. failed x w.tokens f v (k ∙ e)))
      (λ f v k. failed x w.tokens f v k)
