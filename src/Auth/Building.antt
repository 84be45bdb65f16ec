-- ===== src/Auth/Building.antt =====
-- internal/auth: settings with which NewHasher and NewTokenService do not fail.
use stripe_payment_service.Prelude.{
  ℕ, zero, suc, ◌≤◌, ◌≡◌, refl, inl, inr, false, ◌||◌, ◌==◌, arith, ltb, nat_eq, length, bytes,
  String,
}
use stripe_payment_service.Domain.Errors.{ok, Result-cases}
use stripe_payment_service.Auth.{Crypto}
use stripe_payment_service.Auth.Password.{new_hasher}
use stripe_payment_service.Auth.Token.{TokenConfig, TokenService, new_token_service}
use stripe_payment_service.Run.{World, ◌>>=◌}

pub new_hasher-accepts :
    (c : Crypto) (n : ℕ) (w : World) (decoy : String)
    → 10 ≤ n
    → n ≤ 31
    → c.generate "decoy-for-constant-time-login" n w.draws ≡ inr decoy
    → (new_hasher c n w).0 ≡ ok (record { cost = n; decoy = decoy })
unfolding new_hasher ◌>>=◌
new_hasher-accepts c zero w decoy low high e = absurd (omega arith)
new_hasher-accepts c (suc n) w decoy low high e =
    let range : (ltb (suc n) 4 || ltb 31 (suc n)) ≡ false = ground arith in rw (range, e) refl

pub new_token_service-accepts :
    (cfg : TokenConfig)
    → ltb (length (bytes cfg.secret)) 32 ≡ false
    → (cfg.issuer == "") ≡ false
    → (cfg.audience == "") ≡ false
    → nat_eq cfg.ttl 0 ≡ false
    → (s : TokenService) × (new_token_service cfg ≡ ok s)
unfolding new_token_service
new_token_service-accepts cfg long issuer audience positive =
    elim (Result-cases (new_token_service cfg)) [
      | inl built ↦ built
      | inr (f, e) ↦
          absurd (ground (arith, rw (long, issuer, audience, positive, new_token_service) at e))
    ]
