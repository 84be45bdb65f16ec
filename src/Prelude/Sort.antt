-- ===== src/Prelude/Sort.antt =====
-- ORDER BY a number: a stable insertion sort.
use Prim.Native.Nat.{ℕ, ◌+◌}
use mathlib.Core.Path.{◌≡◌, refl, ◌∙◌}
use mathlib.Core.Logic.{inl, inr}
use mathlib.Core.Bool.{Bool, true}
use mathlib.Core.List.{List, [], ◌∷◌}
use native.Mathlib.Omega.{arith}
use package.stripe_payment_service.Prelude.Tests.{leb, if◌then◌else◌, Bool-cases}
use package.stripe_payment_service.Prelude.Lists.{All, length, any_where}

module _ {A : Type 0} (key : A → ℕ) where
  insert_by : A → List A → List A
  insert_by x [] = x ∷ []
  insert_by x (y ∷ ys) = if leb (key x) (key y) then x ∷ y ∷ ys else y ∷ insert_by x ys

  unfoldable pub order_by : List A → List A
  unfolding insert_by
  order_by [] = []
  order_by (x ∷ xs) = insert_by x (order_by xs)

  insert_by-All {κ} :
      (P : A → Type κ) (x : A) (xs : List A) → P x → All P xs → All P (insert_by x xs)
  unfolding insert_by
  insert_by-All P x [] h hs = (h, tt)
  insert_by-All P x (y ∷ ys) h hs = elim (Bool-cases (leb (key x) (key y))) [
    | inl e ↦ rw e (h, hs)
    | inr e ↦ rw e (hs.0, insert_by-All P x ys h hs.1)
  ]

  pub order_by-All {κ} : (P : A → Type κ) (xs : List A) → All P xs → All P (order_by xs)
  unfolding order_by
  order_by-All P [] h = tt
  order_by-All P (x ∷ xs) h = insert_by-All P x (order_by xs) h.0 (order_by-All P xs h.1)

  length-insert_by : (x : A) (xs : List A) → length (insert_by x xs) ≡ length xs + 1
  unfolding insert_by
  length-insert_by x [] = omega arith
  length-insert_by x (y ∷ ys) = ground (arith, length-insert_by x ys)

  pub length-order_by : (xs : List A) → length (order_by xs) ≡ length xs
  unfolding order_by
  length-order_by [] = refl
  length-order_by (x ∷ xs) = omega (arith, length-insert_by x (order_by xs), length-order_by xs)

  any_where-insert_by :
      (q : A → Bool) (x : A) (xs : List A)
      → any_where q (insert_by x xs) ≡ (if q x then true else any_where q xs)
  unfolding insert_by
  any_where-insert_by q x [] = refl
  any_where-insert_by q x (y ∷ ys) = ground (arith, any_where-insert_by q x ys)

  pub any_where-order_by : (q : A → Bool) (xs : List A) → any_where q (order_by xs) ≡ any_where q xs
  unfolding order_by
  any_where-order_by q [] = refl
  any_where-order_by q (x ∷ xs) =
      any_where-insert_by q x (order_by xs) ∙ rw (any_where-order_by q xs) refl
