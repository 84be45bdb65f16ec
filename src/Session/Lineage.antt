-- ===== src/Session/Lineage.antt =====
-- internal/repository/postgres/refresh_token_repo.go: the tokens over a history of logins, exchanges,
-- revocations and prunings.
use stripe_payment_service.Prelude.{
  ℕ, ◌≤◌, String, ◌≡◌, inl, inr, Bool, ◌&&◌, some, List, [], ◌∷◌, arith, is_none, is_some,
  count_where, Option-cases, Bool-cases, bytes,
}
use stripe_payment_service.Prelude.Table
use stripe_payment_service.Prelude.Table.{count-update_where-le, count-keep-le}
use native.Mathlib.Nat.{le_trans}
use stripe_payment_service.Domain.Time.{Time, Duration, after}
use stripe_payment_service.Domain.Subscription.{Uuid}
use stripe_payment_service.Domain.Token.{RefreshToken}
use stripe_payment_service.Session.{
  Tokens, hash_key, find_token, issued_row, issue, in_family, set_revoked, set_used, unrevoked,
  revoke_where, delete_expired, Exchange, exchange_found, consume,
}
use stripe_payment_service.Session.Rotation.{
  MayExchange, marked, successor, exchanged, consume-commits,
}

-- One statement of some session. A login's family is fresh: no stored token belongs to it, since
-- its id is a new UUID.
pub data Step (t u : Tokens) : Type 0 where
  login :
      (op : String) (now : Time) (user : Uuid) (hash : String) (family : Uuid) (expires_at : Time)
      → count_where (in_family family) t ≡ 0
      → u ≡ (issue op now user hash family expires_at t).1
      → Step t u
  exchange : (local now : Time) (x : Exchange) → u ≡ (consume local now x t).1 → Step t u
  revoke :
      (p : RefreshToken → Bool) (now : Time) (reason : List ℕ)
      → u ≡ (revoke_where p now reason t).1
      → Step t u
  prune :
      (grace : Duration) (limit : ℕ) (now : Time)
      → u ≡ (delete_expired grace limit now t).1
      → Step t u

pub data Reach (t : Tokens) : Tokens → Type 0 where
  here : Reach t t
  next : {u v : Tokens} → Reach t u → Step u v → Reach t v

abbrev pub live_in : Uuid → RefreshToken → Bool
live_in family r = in_family family r && (is_none r.used_at && is_none r.revoked_at)

-- A family has one token at most that can be exchanged.
pub record HasOneLive (t : Tokens) : Type 0 where
  pub one : (family : Uuid) → count_where (live_in family) t ≤ 1

count-live_in-le :
    (family : Uuid) (t : Tokens) → count_where (live_in family) t ≤ count_where (in_family family) t
count-live_in-le family [] = omega arith
count-live_in-le family (r ∷ t) = ground (arith, count-live_in-le family t)

-- What a consumption can do to the table: nothing, the revocation of a family, or an exchange.
consume_cases :
    (P : Tokens → Type 0) (local now : Time) (x : Exchange) (t : Tokens)
    → P t
    → ((family : Uuid)
        → P (revoke_where (in_family family) now (bytes "refresh token reuse detected") t).1)
    → ((p : RefreshToken)
        → find_token x.presented_hash t ≡ some p
        → MayExchange local p
        → P (exchanged now x p t))
    → P (consume local now x t).1
unfolding consume issue
consume_cases P local now x t same ended step =
    elim (Option-cases (find_token x.presented_hash t)) [
      | inl e ↦ rw (e, consume) same
      | inr (p, e) ↦ elim (Bool-cases (is_some p.used_at)) [
        | inl used ↦ rw (e, used, consume, exchange_found) (ended p.family_id)
        | inr fresh ↦ elim (Bool-cases (is_some p.revoked_at)) [
          | inl revoked ↦ rw (e, fresh, revoked, consume, exchange_found) same
          | inr kept ↦ elim (Bool-cases (after local p.expires_at)) [
            | inl late ↦ rw (e, fresh, kept, late, consume, exchange_found) same
            | inr early ↦ elim (Option-cases (find_token x.successor_hash (marked now x t))) [
              | inl free ↦
                  rw (consume-commits local now x t p e (fresh, kept, ground arith) free)
                    (step p e (fresh, kept, ground arith))
              | inr (old, taken) ↦
                  rw (e, fresh, kept, early, taken, consume, exchange_found, issue) same
            ]
          ]
        ]
      ]
    ]

exchanged-one :
    (family : Uuid) (local now : Time) (x : Exchange) (t : Tokens) (p : RefreshToken)
    → find_token x.presented_hash t ≡ some p
    → MayExchange local p
    → count_where (live_in family) t ≤ 1
    → count_where (live_in family) (exchanged now x p t) ≤ 1
exchanged-one family local now x t p e may one = ground (
  arith,
  Table.count-insert hash_key (live_in family) (successor now x p) (marked now x t),
  Table.count-update hash_key (live_in family) x.presented_hash (set_used now) t p e,
)

revoke_where-le :
    (family : Uuid) (p : RefreshToken → Bool) (now : Time) (reason : List ℕ) (t : Tokens)
    → count_where (live_in family) (revoke_where p now reason t).1 ≤ count_where (live_in family) t
unfolding revoke_where
revoke_where-le family p now reason t =
    count-update_where-le (live_in family) (λ r. p r && unrevoked r) (set_revoked now reason) t
      (λ r h. ground arith)

issue-one :
    (group : Uuid) (op : String) (now : Time) (user : Uuid) (hash : String) (family : Uuid)
    (expires_at : Time) (t : Tokens)
    → count_where (in_family family) t ≡ 0
    → count_where (live_in group) t ≤ 1
    → count_where (live_in group) (issue op now user hash family expires_at t).1 ≤ 1
unfolding issue
issue-one group op now user hash family expires_at t fresh one =
    elim (Option-cases (find_token hash t)) [
      | inl e ↦
          rw (e, issue)
            (ground (
              arith,
              Table.count-insert hash_key (live_in group)
                  (issued_row now user hash family expires_at) t,
              count-live_in-le family t,
            ))
      | inr (r, e) ↦ rw (e, issue) one
    ]

Step-HasOneLive : {t u : Tokens} → Step t u → HasOneLive t → HasOneLive u
unfolding delete_expired
Step-HasOneLive {t} (login op now user hash family expires_at fresh e) h = record {
  one = λ g. rw e (issue-one g op now user hash family expires_at t fresh (h.one g));
}
Step-HasOneLive {t} (exchange local now x e) h = record {
  one = λ g. rw e (
      consume_cases (λ v. count_where (live_in g) v ≤ 1) local now x t (h.one g)
        (λ family. le_trans (revoke_where-le g (in_family family) now _ t) (h.one g))
        (λ p found may. exchanged-one g local now x t p found may (h.one g)));
}
Step-HasOneLive {t} (revoke p now reason e) h = record {
  one = λ g. rw e (le_trans (revoke_where-le g p now reason t) (h.one g));
}
Step-HasOneLive {t} (prune grace limit now e) h = record {
  one = λ g. rw e (le_trans (count-keep-le (live_in g) _ t) (h.one g));
}

-- Over any history of logins, exchanges, revocations and prunings that starts from the empty table,
-- no family ever has two tokens that are neither used nor revoked.
pub Reach-HasOneLive : {t : Tokens} → Reach [] t → HasOneLive t
Reach-HasOneLive here = record { one = λ g. omega arith }
Reach-HasOneLive (next r s) = Step-HasOneLive s (Reach-HasOneLive r)
