-- ===== src/RateLimit/Bounds.antt =====
-- internal/handler/middleware/ratelimit.go: the size of the map of buckets.
use stripe_payment_service.Prelude.{
  ℕ, ◌+◌, ◌≤◌, String, ◌≡◌, refl, false, inl, inr, List, [], ◌∷◌, arith, ◌==◌, leb, length,
  length-append, Option-cases, Bool-cases,
}
use stripe_payment_service.Prelude.Table
use stripe_payment_service.Domain.Time.{Time}
use stripe_payment_service.RateLimit.{
  Limiters, RateLimitConfig, Buckets, client_key, admit, allow, touched,
}

length-update :
    {R : Type 0} (key : R → String) (k : String) (f : R → R) (t : List R)
    → length (Table.update key k f t) ≡ length t
unfolding Table.update
length-update key k f [] = refl
length-update key k f (r ∷ t) = elim (Bool-cases (key r == k)) [
  | inl e ↦ rw e refl
  | inr e ↦ rw e (omega (arith, length-update key k f t))
]

module _ {L : Type 0} (lib : Limiters L) (c : RateLimitConfig) (positive : 1 ≤ c.max_entries) where
  length-admit-le :
      (client : String) (now : Time) (t : Buckets lib)
      → length t ≤ c.max_entries
      → length (admit lib c client now t) ≤ c.max_entries
  unfolding admit Table.insert
  length-admit-le client now t h = elim (Option-cases (Table.lookup (client_key lib) client t)) [
    | inr (b, e) ↦ rw (e, admit) h
    | inl e ↦ elim (Bool-cases (leb c.max_entries (length t))) [
      | inl full ↦ rw (e, full, admit) positive
      | inr space ↦
          rw (e, space, admit)
            (omega (
              arith,
              length-append t
                  (record { client = client; limiter = lib.fresh; last_seen = now } ∷ []),
              room c.max_entries (length t) space,
            ))
    ]
  ]
    where
      room : (a b : ℕ) → leb a b ≡ false → b + 1 ≤ a
      room a b e = ground arith

  -- The map never holds more buckets than configured, whatever addresses the requests come from: a
  -- request keeps the bound where the configured one is positive.
  length-allow-le :
      (client : String) (now : Time) (t : Buckets lib)
      → length t ≤ c.max_entries
      → length (allow lib c client now t).1 ≤ c.max_entries
  unfolding allow
  length-allow-le client now t h =
      rw (length-update (client_key lib) client (touched lib now _) (admit lib c client now t))
        (length-admit-le client now t h)
