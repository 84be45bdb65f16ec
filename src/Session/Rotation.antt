-- ===== src/Session/Rotation.antt =====
-- internal/repository/postgres/refresh_token_repo.go: the branches of ConsumeRefreshToken.
use mathlib.Core.Option
use stripe_payment_service.Prelude.{
  ℕ, ◌≤◌, String, ◌≡◌, ◌⊎◌, ◌<◌, refl, inl, inr, true, false, ◌&&◌, none, some, List, arith, ◌==◌,
  eq_iff, eq_refl, All, is_some, bytes, Option-cases, if◌then◌else◌,
}
use stripe_payment_service.Prelude.Table
use stripe_payment_service.Prelude.Table.{update_where-intro}
use stripe_payment_service.Domain.Errors.{ok, err, sentinel_failure, not_found, token_reused}
use stripe_payment_service.Domain.Time.{Time}
use stripe_payment_service.Domain.Subscription.{Uuid}
use stripe_payment_service.Domain.Token.{RefreshToken}
use stripe_payment_service.Session.{
  Tokens, hash_key, find_token, issued_row, issue, in_family, unrevoked, set_revoked, set_used,
  revoke_where, Exchange, consume,
}

-- No token of the family can be exchanged, at any time.
abbrev pub IsEnded : Uuid → Tokens → Type 0
IsEnded family = All (λ r. r.family_id ≡ family → is_some r.revoked_at ≡ true)

revoke_where-IsEnded :
    (family : Uuid) (now : Time) (reason : List ℕ) (t : Tokens)
    → IsEnded family (revoke_where (in_family family) now reason t).1
unfolding revoke_where
revoke_where-IsEnded family now reason t =
    update_where-intro _ (λ r. in_family family r && unrevoked r) (set_revoked now reason) t
      (λ r e same. refl) (λ r e same. ground arith)

-- A stored token that was exchanged before is refused as reused, and every token of its family is
-- revoked afterwards. One that was not, but is revoked or expired, is refused as not found, and the
-- table stays as it is.
pub consume_refuses :
    (local now : Time) (x : Exchange) (t : Tokens) (p : RefreshToken)
    → find_token x.presented_hash t ≡ some p
    → ((is_some p.used_at ≡ true)
        → ((consume local now x t).0 ≡ err (sentinel_failure token_reused))
          × IsEnded p.family_id (consume local now x t).1)
      × ((is_some p.used_at ≡ false)
          → (is_some p.revoked_at ≡ true) ⊎ (p.expires_at < local)
          → consume local now x t ≡ (err (sentinel_failure not_found), t))
unfolding consume
consume_refuses local now x t p e = (
  λ used.
      rw (e, consume, used)
        (refl, revoke_where-IsEnded p.family_id now (bytes "refresh token reuse detected") t),
  λ fresh bad. ground (arith, e),
)

abbrev pub marked : Time → Exchange → Tokens → Tokens
marked now x t = Table.update hash_key x.presented_hash (set_used now) t

abbrev pub successor : Time → Exchange → RefreshToken → RefreshToken
successor now x p = issued_row now p.user_id x.successor_hash p.family_id x.successor_expires_at

-- The table after an exchange of `p`.
abbrev pub exchanged : Time → Exchange → RefreshToken → Tokens → Tokens
exchanged now x p t = Table.insert hash_key (successor now x p) (marked now x t)

abbrev pub MayExchange : Time → RefreshToken → Type 0
MayExchange local p =
    (is_some p.used_at ≡ false) × (is_some p.revoked_at ≡ false) × (local ≤ p.expires_at)

pub consume-commits :
    (local now : Time) (x : Exchange) (t : Tokens) (p : RefreshToken)
    → find_token x.presented_hash t ≡ some p
    → MayExchange local p
    → find_token x.successor_hash (marked now x t) ≡ none
    → consume local now x t ≡ (ok (successor now x p), exchanged now x p t)
unfolding consume issue
consume-commits local now x t p e may free = ground (arith, e, free)

consume-inversion :
    (local now : Time) (x : Exchange) (t : Tokens) (s : RefreshToken)
    → (consume local now x t).0 ≡ ok s
    → (p : RefreshToken) × (find_token x.presented_hash t ≡ some p)
      × MayExchange local p
      × (find_token x.successor_hash (marked now x t) ≡ none)
unfolding consume issue
consume-inversion local now x t s h = elim (Option-cases (find_token x.presented_hash t)) [
  | inl e ↦ absurd (ground (arith, e))
  | inr (p, e) ↦ (
    p,
    e,
    (ground (arith, e), ground (arith, e), ground (arith, e)),
    elim (Option-cases (find_token x.successor_hash (marked now x t))) [
      | inl free ↦ free
      | inr (old, taken) ↦ absurd (ground (arith, e, taken))
    ],
  )
]

find-marked :
    (now : Time) (x : Exchange) (t : Tokens) (j : String)
    → find_token j (marked now x t) ≡ (
        if x.presented_hash == j
        then Option.map (set_used now) (find_token j t)
        else find_token j t)
find-marked now x t j = Table.lookup-update hash_key j x.presented_hash (set_used now) t (λ r. refl)

find-exchanged :
    (now : Time) (x : Exchange) (p : RefreshToken) (t : Tokens) (j : String)
    → find_token x.successor_hash (marked now x t) ≡ none
    → find_token j (exchanged now x p t)
      ≡ (if x.successor_hash == j then some (successor now x p) else find_token j (marked now x t))
find-exchanged now x p t j free =
    Table.lookup-insert hash_key j (successor now x p) (marked now x t) free

-- A successful exchange: the token was known, unused, not revoked and not expired. Afterwards it is
-- marked as used, and its successor, of the same user and family, is stored unused and unrevoked.
pub consume_succeeds :
    (local now : Time) (x : Exchange) (t : Tokens) (s : RefreshToken)
    → (consume local now x t).0 ≡ ok s
    → (p : RefreshToken) × (find_token x.presented_hash t ≡ some p)
      × MayExchange local p
      × (s ≡ issued_row now p.user_id x.successor_hash p.family_id x.successor_expires_at)
      × (find_token x.presented_hash (consume local now x t).1 ≡ some (set_used now p))
      × (find_token x.successor_hash (consume local now x t).1 ≡ some s)
consume_succeeds local now x t s h =
    let (p, e, may, free) = consume-inversion local now x t s h in
    let eq = consume-commits local now x t p e may free in
    let same : s ≡ successor now x p = ground (arith, h, eq) in
    (
      p,
      e,
      may,
      same,
      rw eq (
          ground (
            arith,
            e,
            free,
            find-exchanged now x p t x.presented_hash free,
            find-marked now x t x.presented_hash,
            eq_refl x.presented_hash,
            eq_iff x.successor_hash x.presented_hash,
          )),
      rw (eq, same)
          (ground
            (arith, find-exchanged now x p t x.successor_hash free, eq_refl x.successor_hash)),
    )

-- A refresh token is good for one exchange: right after a successful one, presenting it again, at any
-- time and with any successor, reports reuse, and revokes every token of the family to which the
-- successor of the first exchange belongs.
pub consume_once :
    (local now local' now' : Time) (x y : Exchange) (t : Tokens) (s : RefreshToken)
    → (consume local now x t).0 ≡ ok s
    → y.presented_hash ≡ x.presented_hash
    → ((consume local' now' y (consume local now x t).1).0 ≡ err (sentinel_failure token_reused))
      × IsEnded s.family_id (consume local' now' y (consume local now x t).1).1
consume_once local now local' now' x y t s h again =
    let (p, e, may, same, used, stored) = consume_succeeds local now x t s h in
    let refused =
      (consume_refuses local' now' y (consume local now x t).1 (set_used now p) (rw again used)).0
        refl in
    (refused.0, rw same refused.1)
