-- ===== src/Auth/Password.antt =====
-- internal/auth/password.go: the policy for passwords, and the hasher.
use stripe_payment_service.Prelude.{
  ℕ, suc, String, Bool, true, false, not, ◌||◌, ◌⊎◌, inl, inr, Option, none, some, ◌==◌, ltb, bytes,
  length, or_default, if◌then◌else◌,
}
use stripe_payment_service.Domain.Errors.{
  Result, ok, err, Failure, failure, wrap, other, credentials_mismatch, sentinel_failure,
}
use stripe_payment_service.Auth.{Crypto}
use stripe_payment_service.Run.{Run, pure, raise, lift, draw, ◌>>=◌, ◌>>◌}

abbrev pub min_password_bytes : ℕ
min_password_bytes = 12

abbrev pub max_password_bytes : ℕ
max_password_bytes = 72

abbrev default_bcrypt_cost : ℕ
default_bcrypt_cost = 12

-- bcrypt.MinCost and bcrypt.MaxCost, 4 and 31 as the package documents them.
abbrev bcrypt_min_cost : ℕ
bcrypt_min_cost = 4

abbrev bcrypt_max_cost : ℕ
bcrypt_max_cost = 31

abbrev too_short : Failure
too_short = failure other "password must be at least 12 characters"

abbrev too_long : Failure
too_long = failure other "password must be at most 72 bytes"

abbrev invalid_utf8 : Failure
invalid_utf8 = failure other "password is not valid UTF-8"

-- ErrCredentialsMismatch
abbrev pub mismatch : Failure
mismatch = sentinel_failure credentials_mismatch

-- ValidatePassword: the error, or nil.
unfoldable pub validate_password : Crypto → String → Option Failure
validate_password c password =
    if not (c.valid_utf8 password)
    then some invalid_utf8
    else if ltb (length (bytes password)) min_password_bytes
    then some too_short
    else if ltb max_password_bytes (length (bytes password))
    then some too_long
    else none

-- Hasher
pub record Hasher : Type 0 where
  pub cost : ℕ
  pub decoy : String

abbrev pub digest_of : String → String ⊎ String → Result String
digest_of op (inl text) = err (wrap op (failure other text))
digest_of op (inr digest) = ok digest

-- NewHasher, for a cost that is not negative. The text of the first error leaves out the cost.
unfoldable pub new_hasher : Crypto → ℕ → Run Hasher
new_hasher c asked =
    let cost = or_default asked default_bcrypt_cost in
    if ltb cost bcrypt_min_cost || ltb bcrypt_max_cost cost
    then raise (failure other "bcrypt cost is outside the supported range 4-31")
    else (do
      n ← draw
      decoy ←
          lift (digest_of "build decoy digest" (c.generate "decoy-for-constant-time-login" cost n))
      pure (record { cost = cost; decoy = decoy }))

-- (*Hasher).Hash
unfoldable pub hash : Crypto → Hasher → String → Run String
hash c h password = elim (validate_password c password) [
  | some e ↦ raise e
  | none ↦ do n ← draw; lift (digest_of "hash password" (c.generate password h.cost n))
]

-- One comparison of bcrypt.
abbrev compare_digest : Crypto → String → String → Run Bool
compare_digest c digest candidate w =
    (ok (c.matches digest candidate), record w { comparisons = suc w.comparisons })

-- DummyCompare
unfoldable pub dummy_compare : Crypto → Hasher → Run Unit
dummy_compare c h = do ignored ← compare_digest c h.decoy "not-the-password"; pure tt

abbrev accept_match : Bool → Run Unit
accept_match true = pure tt
accept_match false = raise mismatch

-- Verify
unfoldable pub verify : Crypto → Hasher → (digest candidate : String) → Run Unit
verify c h digest candidate =
    if digest == ""
    then (do dummy_compare c h; raise mismatch)
    else (do same ← compare_digest c digest candidate; accept_match same)

-- NeedsRehash
unfoldable pub needs_rehash : Crypto → Hasher → String → Bool
needs_rehash c h digest = elim (c.digest_cost digest) [ none ↦ false | some cost ↦ ltb cost h.cost ]
