-- ===== src/Prelude/Chosen.antt =====
-- SELECT … WHERE p ORDER BY a number LIMIT n, from a table with a text key.
use Prim.Native.Nat.{ℕ, ◌≤◌}
use Prim.Native.String.{String}
use mathlib.Core.Path.{◌≡◌, refl}
use mathlib.Core.Logic.{inl, inr}
use mathlib.Core.Bool.{Bool, true}
use mathlib.Core.Option.{some}
use mathlib.Core.List.{List, [], ◌∷◌}
use native.Mathlib.Omega.{arith}
use text.Mathlib.Text.{◌==◌}
use package.stripe_payment_service.Prelude.Tests.{Bool-cases}
use package.stripe_payment_service.Prelude.Lists.{
  any_where, keep, take, count_where, take_all, length-keep,
}
use package.stripe_payment_service.Prelude.Sort.{order_by, length-order_by, any_where-order_by}
use package.stripe_payment_service.Prelude.Table.{lookup}

module _ {R : Type 0} (key : R → String) where
  kept :
      (p : R → Bool) (t : List R) (j : String) (r : R)
      → p r ≡ true
      → lookup key j t ≡ some r
      → any_where (λ c. key c == j) (keep p t) ≡ true
  unfolding lookup
  kept p [] j r passes h = absurd (cc h)
  kept p (x ∷ t) j r passes h = elim (Bool-cases (key x == j)) [
    | inl same ↦
        let here : x ≡ r = cc (rw same at h) in
        let fits : p x ≡ true = rw here passes in rw fits (rw same refl)
    | inr other ↦ ground (arith, kept p t j r passes (rw other at h))
  ]

  -- A row that satisfies a test is among those that do, where the limit leaves room for all of them.
  pub lookup-chosen :
      (order : R → ℕ) (n : ℕ) (p : R → Bool) (t : List R) (j : String) (r : R)
      → lookup key j t ≡ some r
      → p r ≡ true
      → count_where p t ≤ n
      → any_where (λ c. key c == j) (take n (order_by order (keep p t))) ≡ true
  lookup-chosen order n p t j r found passes room =
      let all =
        take_all n (order_by order (keep p t))
          (omega (arith, length-order_by order (keep p t), length-keep p t)) in
      rw (all, any_where-order_by order (λ c. key c == j) (keep p t)) (kept p t j r passes found)
