-- ===== src/Auth/Ending.antt =====
-- internal/service/auth_service.go: sessions that have ended, by a logout or by a renewal that failed
-- half way.

use mathlib.Core.Path.{subst}
use stripe_payment_service.Prelude.{
  suc, ◌+◌, String, ◌≡◌, refl, sym, ap, ◌∙◌, inl, inr, true, false, ◌&&◌, some, List, [], ◌∷◌, ◌==◌,
  arith, is_some, bytes, if◌then◌else◌, Bool-cases,
}
use stripe_payment_service.Prelude.Table
use stripe_payment_service.Domain.Errors.{
  ok, err, Failure, sentinel_failure, not_found, token_reused, is_sentinel, map_error, connection,
}
use stripe_payment_service.Domain.Time.{Time}
use stripe_payment_service.Domain.Subscription.{Uuid}
use stripe_payment_service.Domain.Token.{RefreshToken}
use stripe_payment_service.Truncate.{truncate}
use stripe_payment_service.Session
use stripe_payment_service.Session.{
  Tokens, hash_key, find_token, in_family, set_revoked, unrevoked, revoke_where, Exchange, consume,
}
use stripe_payment_service.Session.Rotation.{IsEnded, consume_refuses, consume_once}
use stripe_payment_service.Auth.Service.{AuthService, refresh, renewed, renewed_for, logout}
use stripe_payment_service.Auth.Lifecycle.{exchange_of, new_refresh_token_lem}
use stripe_payment_service.Repository.Users.{get_user_by_id}
use stripe_payment_service.Repository.Sessions.{consume_refresh_token}
use stripe_payment_service.Repository.Sessions.Atomic.{IsAtomic, consume_refresh_token-IsAtomic}
use stripe_payment_service.Repository.Sessions.Calm.{
  consume_refresh_token-calm, revoke_family_by_token-calm,
}
use stripe_payment_service.Run.{World, Trip, ◌>>=◌, statement, arrive}
use stripe_payment_service.Run.Keeps.{bind-step, attempt-step}

-- The table after the logout of the session to which `p` belongs.
abbrev pub signed_out_table : RefreshToken → Time → Tokens → Tokens
signed_out_table p now t = (Session.revoke_family p.family_id "signed out" now t).1

logout-calm :
    (s : AuthService) (presented : String) (w : World) (p : RefreshToken)
    → w.trips ≡ []
    → (presented == "") ≡ false
    → find_token (s.crypto.sha256_hex presented) w.tokens ≡ some p
    → logout s presented w ≡ (ok tt, record w { tokens = signed_out_table p w.clock w.tokens })
unfolding logout Session.revoke_family_by_token
logout-calm s presented w p calm given e = rw given (
    attempt-step _ _ w
      (revoke_family_by_token-calm (s.crypto.sha256_hex presented) "signed out" w calm)
    ∙ rw (e, Session.revoke_family_by_token) refl)

abbrev refused_as : RefreshToken → Failure
refused_as q = sentinel_failure (if is_some q.used_at then token_reused else not_found)

-- A token that is revoked cannot be renewed, whether it was used or not.
consume-revoked :
    (now : Time) (x : Exchange) (t : Tokens) (q : RefreshToken)
    → find_token x.presented_hash t ≡ some q
    → is_some q.revoked_at ≡ true
    → (consume now now x t).0 ≡ err (refused_as q)
consume-revoked now x t q e gone = elim (Bool-cases (is_some q.used_at)) [
  | inl used ↦ rw used (((consume_refuses now now x t q e).0 used).0)
  | inr fresh ↦ rw fresh (ap (λ r. r.0) ((consume_refuses now now x t q e).1 fresh (inl gone)))
]

renewed-refuses :
    (s : AuthService) (successor : String) (e : Failure) (w : World)
    → (renewed s successor (err e) w).0 ≡ err e
unfolding renewed ◌>>=◌
renewed-refuses s successor e w = elim (Bool-cases (is_sentinel token_reused e)) [
  | inl reused ↦ rw reused refl
  | inr rejected ↦ rw rejected refl
]

refresh-refused :
    (s : AuthService) (other successor : String) (w : World) (q : RefreshToken)
    → w.trips ≡ []
    → (other == "") ≡ false
    → s.crypto.random_token w.draws ≡ inr successor
    → find_token (s.crypto.sha256_hex other) w.tokens ≡ some q
    → is_some q.revoked_at ≡ true
    → (refresh s other w).0 ≡ err (refused_as q)
unfolding refresh
refresh-refused s other successor w q calm given mints e gone = rw given (
    ap (λ r. r.0)
      (attempt-step _ _ w (new_refresh_token_lem s w successor mints)
        ∙ bind-step _ _ _ refl
        ∙ bind-step _ _ _ refl
        ∙ attempt-step _ _ _ (
            consume_refresh_token-calm (exchange_of s w other successor)
              (record w { draws = suc w.draws }) calm))
    ∙ ap
        (λ r.
          (renewed s successor r (record w {
            draws = suc w.draws;
            tokens = (consume w.clock w.clock (exchange_of s w other successor) w.tokens).1;
          })).0)
        (consume-revoked w.clock (exchange_of s w other successor) w.tokens q e gone)
    ∙ renewed-refuses s successor (refused_as q) _)

-- The row of a token of the family after the logout.
ended_row :
    (p q : RefreshToken) (now : Time) (t : Tokens) (hash : String)
    → find_token hash t ≡ some q
    → q.family_id ≡ p.family_id
    → (r : RefreshToken) × (find_token hash (signed_out_table p now t) ≡ some r)
      × (is_some r.revoked_at ≡ true)
      × (r.used_at ≡ q.used_at)
unfolding revoke_where
ended_row p q now t hash e same = elim (Bool-cases (is_some q.revoked_at)) [
  | inl gone ↦ (
    q,
    Table.lookup-update_where hash_key hash (λ r. in_family p.family_id r && unrevoked r)
          (set_revoked now (truncate (bytes "signed out"))) t (λ r. refl)
        ∙ ground (arith, e, gone),
    gone,
    refl,
  )
  | inr live ↦ (
    set_revoked now (truncate (bytes "signed out")) q,
    Table.lookup-update_where hash_key hash (λ r. in_family p.family_id r && unrevoked r)
          (set_revoked now (truncate (bytes "signed out"))) t (λ r. refl)
        ∙ ground (arith, e, live, same),
    refl,
    refl,
  )
]

-- A logout ends the whole session. Where no call of the database fails and the presented token is
-- stored, Logout succeeds, and at any later time no token of the same family, a successor that
-- the client still holds included, can be renewed: Refresh reports a token that was used before the logout as
-- reused, and any other as not found.
pub refresh-logout :
    (s : AuthService) (presented other successor : String) (w : World) (p q : RefreshToken)
    (later : Time)
    → w.trips ≡ []
    → (presented == "") ≡ false
    → (other == "") ≡ false
    → find_token (s.crypto.sha256_hex presented) w.tokens ≡ some p
    → find_token (s.crypto.sha256_hex other) w.tokens ≡ some q
    → q.family_id ≡ p.family_id
    → s.crypto.random_token w.draws ≡ inr successor
    → ((logout s presented w).0 ≡ ok tt)
      × ((refresh s other (record (logout s presented w).1 { clock = later })).0
          ≡ err (sentinel_failure (if is_some q.used_at then token_reused else not_found)))
refresh-logout s presented other successor w p q later calm given given' stored found same mints =
    let (r, row, gone, used) =
      ended_row p q w.clock w.tokens (s.crypto.sha256_hex other) found same in
    let done = logout-calm s presented w p calm given stored in
    (
      ap (λ o. o.0) done,
      ap (λ o. (refresh s other (record o.1 { clock = later })).0) done
          ∙ refresh-refused s other successor _ r calm given' mints row gone
          ∙ rw used refl,
    )

get_user_by_id-fails :
    (id : Uuid) (text : String) (v : World) (trip : Trip) (rest : List Trip)
    → v.trips ≡ trip ∷ rest
    → trip.fault ≡ some text
    → get_user_by_id id v ≡ (
      err (map_error "get user by id" (connection text)),
      record v { clock = v.clock + trip.elapsed; trips = rest },
    )
unfolding get_user_by_id statement arrive
get_user_by_id-fails id text v trip rest trips fails = rw (trips, fails) refl

refresh-fails :
    (s : AuthService) (presented successor text : String) (w v : World) (stored : RefreshToken)
    (trip : Trip) (rest : List Trip)
    → (presented == "") ≡ false
    → s.crypto.random_token w.draws ≡ inr successor
    → consume_refresh_token (exchange_of s w presented successor) (record w { draws = suc w.draws })
      ≡ (ok stored, v)
    → v.trips ≡ trip ∷ rest
    → trip.fault ≡ some text
    → refresh s presented w ≡ (
      err (sentinel_failure not_found),
      record v { clock = v.clock + trip.elapsed; trips = rest },
    )
unfolding refresh renewed renewed_for
refresh-fails s presented successor text w v stored trip rest given mints exchanged trips fails =
    rw given (
      attempt-step _ _ w (new_refresh_token_lem s w successor mints)
      ∙ bind-step _ _ _ refl
      ∙ bind-step _ _ _ refl
      ∙ attempt-step _ _ _ exchanged
      ∙ attempt-step _ _ _ (get_user_by_id-fails stored.user_id text v trip rest trips fails))

-- The table after an exchange that succeeded is the table after one step.
committed-reused :
    (x y : Exchange) (t : Tokens) (stored : RefreshToken) (v : World) (local now : Time)
    → IsAtomic x t (ok stored, v)
    → y.presented_hash ≡ x.presented_hash
    → ((consume local now y v.tokens).0 ≡ err (sentinel_failure token_reused))
      × IsEnded stored.family_id (consume local now y v.tokens).1
committed-reused x y t stored v local now (inl (e, never, same)) again = absurd (ground arith)
committed-reused x y t stored v local now (inr (local', now', result, effect)) again =
    rw effect (consume_once local' now' local now x y t stored (sym result) again)

-- A renewal whose exchange was committed, where the next call of the database fails: the session is lost.
-- Refresh reports not found, as for a token that never existed, and the presented token is used
-- up: presenting it again, in any later exchange, is reported as reuse, and revokes every token of the family.
pub refresh-lost :
    (s : AuthService) (presented successor text : String) (w v : World) (stored : RefreshToken)
    (trip : Trip) (rest : List Trip) (local now : Time) (y : Exchange)
    → (presented == "") ≡ false
    → s.crypto.random_token w.draws ≡ inr successor
    → consume_refresh_token (exchange_of s w presented successor) (record w { draws = suc w.draws })
      ≡ (ok stored, v)
    → v.trips ≡ trip ∷ rest
    → trip.fault ≡ some text
    → y.presented_hash ≡ s.crypto.sha256_hex presented
    → ((refresh s presented w).0 ≡ err (sentinel_failure not_found))
      × ((consume local now y (refresh s presented w).1.tokens).0
          ≡ err (sentinel_failure token_reused))
      × IsEnded stored.family_id (consume local now y (refresh s presented w).1.tokens).1
refresh-lost s presented successor text w v stored trip rest local now y given mints exchanged trips
      fails again =
    let failed =
      refresh-fails s presented successor text w v stored trip rest given mints exchanged trips
        fails in
    let x = exchange_of s w presented successor in
    let atomic : IsAtomic x w.tokens (ok stored, v) =
      subst (IsAtomic x w.tokens) exchanged
        (consume_refresh_token-IsAtomic x (record w { draws = suc w.draws })) in
    let reused = committed-reused x y w.tokens stored v local now atomic again in
    (ap (λ r. r.0) failed, rw failed reused.0, rw failed reused.1)
