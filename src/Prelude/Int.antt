-- ===== src/Prelude/Int.antt =====
-- Signed integers, as the payment provider's objects and the configuration carry them. `negsuc n` is -(n + 1).
use Prim.Native.Nat.{ℕ, zero, suc, ◌-◌, ◌*◌, ◌%◌, ◌^◌, ◌<◌}
use mathlib.Core.Path.{◌≡◌, refl}
use mathlib.Core.Bool.{Bool, true, false}
use native.Mathlib.Omega.{arith}
use native.Mathlib.Nat.{mod-eq_of_lt}
use package.stripe_payment_service.Prelude.Tests.{ltb, nat_eq, lt→ltb, if◌then◌else◌}

pub data ℤ : Type 0 where
  pos : ℕ → ℤ
  negsuc : ℕ → ℤ

-- `0 < n`
abbrev pub is_positive : ℤ → Bool
is_positive (pos zero) = false
is_positive (pos (suc n)) = true
is_positive (negsuc n) = false

-- `a < b`
abbrev pub lt_int : ℤ → ℤ → Bool
lt_int (pos a) (pos b) = ltb a b
lt_int (pos a) (negsuc b) = false
lt_int (negsuc a) (pos b) = true
lt_int (negsuc a) (negsuc b) = ltb b a

-- The integer of `bits` bits whose residue is `r`, in two's complement.
signed_residue : (bits r : ℕ) → ℤ
signed_residue bits r = if ltb r (2 ^ (bits - 1)) then pos r else negsuc (2 ^ bits - 1 - r)

-- A conversion to `bits` bits, which wraps.
unfoldable pub wrap_int : ℕ → ℤ → ℤ
unfolding signed_residue
wrap_int bits (pos n) = signed_residue bits (n % 2 ^ bits)
wrap_int bits (negsuc n) = signed_residue bits (2 ^ bits - 1 - n % 2 ^ bits)

abbrev negated : ℕ → ℤ
negated zero = pos zero
negated (suc n) = negsuc n

exact_product : ℤ → ℤ → ℤ
exact_product (pos a) (pos b) = pos (a * b)
exact_product (pos a) (negsuc b) = negated (a * suc b)
exact_product (negsuc a) (pos b) = negated (suc a * b)
exact_product (negsuc a) (negsuc b) = pos (suc a * suc b)

-- The product of two 64-bit integers, which wraps.
unfoldable pub mul_int64 : ℤ → ℤ → ℤ
unfolding exact_product
mul_int64 a b = wrap_int 64 (exact_product a b)

-- Where the exact product fits, it is the product.
pub mul_int64-fits : (a b : ℕ) → a * b < 2 ^ 63 → mul_int64 (pos a) (pos b) ≡ pos (a * b)
unfolding mul_int64 wrap_int signed_residue exact_product
mul_int64-fits a b small =
    let exact : a * b % 2 ^ 64 ≡ a * b = mod-eq_of_lt (omega arith) in
    rw (exact, lt→ltb (a * b) (2 ^ 63) small) refl

abbrev pub int_eq : ℤ → ℤ → Bool
int_eq (pos a) (pos b) = nat_eq a b
int_eq (pos a) (negsuc b) = false
int_eq (negsuc a) (pos b) = false
int_eq (negsuc a) (negsuc b) = nat_eq a b
