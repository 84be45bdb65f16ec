-- ===== src/Domain/Token.antt =====
-- RefreshToken of internal/domain/models.go.
use stripe_payment_service.Prelude.{ℕ, String, Bool, ◌&&◌, Option, List, is_none}
use stripe_payment_service.Domain.Time.{Time, before}
use stripe_payment_service.Domain.Subscription.{Uuid}

-- One link of a rotation chain. The token itself is never stored, only its hash.
pub record RefreshToken : Type 0 where
  pub user_id : Uuid
  pub token_hash : String
  pub family_id : Uuid
  pub issued_at : Time
  pub expires_at : Time
  pub used_at : Option Time
  pub revoked_at : Option Time
  pub revoked_reason : Option (List ℕ)

-- RefreshToken.Usable
unfoldable pub usable : RefreshToken → Time → Bool
usable t now = is_none t.revoked_at && is_none t.used_at && before now t.expires_at
