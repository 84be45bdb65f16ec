-- ===== src/Auth.antt =====
-- internal/auth: what it calls of golang.org/x/crypto/bcrypt, crypto/rand, crypto/sha256 and
-- github.com/golang-jwt/jwt. The functions that may fail give an error's text on the left. A random
-- value is a function of its number.
pub mod Password
pub mod Token
pub mod Service
pub mod Building
pub mod Login
pub mod Lifecycle
pub mod Opening
pub mod Ending
pub mod Tests
use stripe_payment_service.Prelude.{ℕ, String, Bool, ◌⊎◌, Option, List}
use stripe_payment_service.Domain.Time.{Time}
use stripe_payment_service.Domain.Subscription.{Uuid}

-- Claims, the registered ones that Issue sets and the address.
pub record Claims : Type 0 where
  pub subject : String
  pub issuer : String
  pub audience : List String
  pub issued_at : Time
  pub not_before : Time
  pub expires_at : Time
  pub id : String
  pub email : String

-- The options of jwt.NewParser.
pub record ParserOptions : Type 0 where
  pub valid_methods : List String
  pub issuer : String
  pub audience : String
  pub expiration_required : Bool
  pub check_issued_at : Bool

-- An error of ParseWithClaims: expiry, which it tells apart, or another.
pub data ParseError : Type 0 where
  expired : ParseError
  rejected : (text : String) → ParseError

-- `valid_utf8` is utf8.ValidString; `generate` bcrypt.GenerateFromPassword, whose salt is random;
-- `matches` whether bcrypt.CompareHashAndPassword returns nil; `digest_cost` bcrypt.Cost;
-- `random_token` the base64 rendering of 32 random bytes; `sha256_hex` the hexadecimal SHA-256; `sign`
-- SignedString of HS256 under the secret; `parse_claims` ParseWithClaims at the time of the call, with
-- the claims and the token's Valid.
pub record Crypto : Type 0 where
  pub valid_utf8 : String → Bool
  pub generate : (password : String) (cost draw : ℕ) → String ⊎ String
  pub matches : (digest candidate : String) → Bool
  pub digest_cost : String → Option ℕ
  pub random_token : (draw : ℕ) → String ⊎ String
  pub sha256_hex : String → String
  pub new_uuid : (draw : ℕ) → Uuid
  pub sign : (secret : String) → Claims → String ⊎ String
  pub parse_claims :
      ParserOptions → (secret : String) → Time → String → ParseError ⊎ (Claims × Bool)
