-- ===== src/Retention/Pruning.antt =====
-- internal/worker/retention.go: how often the loop of pruneRefreshTokens runs.
use stripe_payment_service.Prelude.{
  ℕ, zero, suc, ◌+◌, ◌≤◌, ◌<◌, String, ◌≡◌, refl, Bool, true, false, not, inl, inr, Option, none,
  some, List, [], ◌∷◌, arith, ltb, keep, count_where, length, Bool-cases,
}
use stripe_payment_service.Domain.Errors.{Result, ok}
use stripe_payment_service.Domain.Time.{Time}
use stripe_payment_service.Domain.Token.{RefreshToken}
use stripe_payment_service.Session.{Tokens, delete_expired, expired, hash_among}
use stripe_payment_service.Run.{World, Run, Trip, pure, depart, arrive, statement, ◌>>=◌, ◌>>◌}
use stripe_payment_service.Repository.Sessions.{delete_expired_refresh_tokens}
use stripe_payment_service.Retention.{
  RetentionConfig, after_prune, note_pruned, prune_loop, prune_tokens,
}

-- The run ends with a count that is there.
abbrev pub IsPruned : Result (Option ℕ) → Type 0
IsPruned (ok (some n)) = Unit {0}
IsPruned _ = ⊥

module _ (c : RetentionConfig) (stopping : Time → Bool) (positive : 1 ≤ c.batch_size) where
  -- What is deleted is counted.
  length-delete_expired :
      (now : Time) (t : Tokens)
      → length (delete_expired c.refresh_token_grace c.batch_size now t).1
          + (delete_expired c.refresh_token_grace c.batch_size now t).0
        ≡ length t
  unfolding delete_expired
  length-delete_expired now t =
      parted (hash_among (expired c.refresh_token_grace c.batch_size now t)) t
    where
      parted :
          (q : RefreshToken → Bool) (t : Tokens)
          → length (keep (λ r. not (q r)) t) + count_where q t ≡ length t
      parted q [] = refl
      parted q (r ∷ t) = ground (arith, parted q t)

  noted-IsPruned : (n : ℕ) (v : World) → IsPruned ((do note_pruned n; pure (some n)) v).0
  unfolding ◌>>=◌
  noted-IsPruned zero v = tt
  noted-IsPruned (suc n) v = tt

  pruning-IsPruned :
      (n : ℕ) (again : ℕ → Run (Option ℕ)) (sum : ℕ) (x : Option String × World)
      → ((s : ℕ) (v : World) → length v.tokens < n → IsPruned (again s v).0)
      → length x.1.tokens < suc n
      → IsPruned
          ((λ (y : Result ℕ × World). after_prune c.batch_size again sum y.0 y.1)
            (arrive "delete expired refresh tokens"
              (λ now w. (
                ok (delete_expired c.refresh_token_grace c.batch_size now w.tokens).0,
                record w {
                  tokens = (delete_expired c.refresh_token_grace c.batch_size now w.tokens).1;
                },
              ))
              x)).0
  unfolding arrive ◌>>=◌
  pruning-IsPruned n again sum (some text, v) go h = tt
  pruning-IsPruned n again sum (none, v) go h =
      let deleted = (delete_expired c.refresh_token_grace c.batch_size v.clock v.tokens).0 in
      elim (Bool-cases (ltb deleted c.batch_size)) [
        | inl short ↦ rw short (noted-IsPruned (sum + deleted) _)
        | inr full ↦ rw full (
            go _ _ (
              omega (
                arith,
                length-delete_expired v.clock v.tokens,
                ge-of_ltb deleted c.batch_size full,
              )))
      ]
    where
      ge-of_ltb : (a b : ℕ) → ltb a b ≡ false → b ≤ a
      ge-of_ltb a b h = ground arith

  depart-length :
      (n : ℕ) (ts : List Trip) (w : World) → length w.tokens < n → length (depart ts w).1.tokens < n
  depart-length n [] w h = h
  depart-length n (t ∷ ts) w h = h

  prune_loop-IsPruned :
      (fuel : ℕ) (sum : ℕ) (w : World)
      → length w.tokens < fuel
      → IsPruned (prune_loop c stopping fuel sum w).0
  unfolding prune_loop delete_expired_refresh_tokens statement ◌>>=◌
  prune_loop-IsPruned zero sum w h = absurd (omega (arith, h))
  prune_loop-IsPruned (suc fuel) sum w h = elim (Bool-cases (stopping w.clock)) [
    | inl over ↦ rw (over, prune_loop) tt
    | inr on ↦
        rw (on, prune_loop)
          (pruning-IsPruned fuel (prune_loop c stopping fuel) sum (depart w.trips w)
            (λ s v. prune_loop-IsPruned fuel s v) (depart-length (suc fuel) w.trips w h))
  ]

  -- The deletion of tokens ends, where it is made at all.
  pub prune_tokens-IsPruned :
      (has_tokens : Bool) (fuel : ℕ) (w : World)
      → length w.tokens < fuel
      → IsPruned (prune_tokens c has_tokens stopping fuel w).0
  prune_tokens-IsPruned false fuel w h = tt
  prune_tokens-IsPruned true fuel w h = prune_loop-IsPruned fuel 0 w h
