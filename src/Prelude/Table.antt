-- ===== src/Prelude/Table.antt =====
-- Database tables as lists of rows in the order of insertion, with a unique text key.
-- A section takes the column that is the key.
use Prim.Native.Nat.{ℕ, ◌+◌, ◌≤◌}
use Prim.Native.String.{String}
use mathlib.Core.Path.{◌≡◌, refl, subst, ◌∙◌}
use mathlib.Core.Logic.{inl, inr}
use mathlib.Core.Bool.{Bool, true, false}
use mathlib.Core.Option
use mathlib.Core.Option.{Option, none, some}
use mathlib.Core.List.{List, [], ◌∷◌, ◌++◌}
use native.Mathlib.Omega.{arith}
use text.Mathlib.Text.{◌==◌}
use text.Mathlib.TextEquality.{eq_iff}
use text.Mathlib.TextPositions.{eq_refl}
use package.stripe_payment_service.Prelude.Tests.{if◌then◌else◌, Bool-cases}
use package.stripe_payment_service.Prelude.Lists.{
  All, All-map, All-keep, All-take, any_where-elim, any_where, keep, take, count_where,
}
use package.stripe_payment_service.Prelude.Sort.{order_by, order_by-All}

-- UPDATE … WHERE p: every row that satisfies `p` is rewritten by `f`.
unfoldable pub update_where {ℓ} : {R : Type ℓ} → (R → Bool) → (R → R) → List R → List R
update_where p f [] = []
update_where p f (r ∷ t) = (if p r then f r else r) ∷ update_where p f t

pub update_where-All {ℓ κ} :
    {R : Type ℓ} (P : R → Type κ) (p : R → Bool) (f : R → R) (t : List R)
    → ((r : R) → p r ≡ true → P r → P (f r))
    → All P t
    → All P (update_where p f t)
unfolding update_where
update_where-All P p f [] step h = tt
update_where-All {R} P p f (r ∷ t) step h = (head (p r) (step r), update_where-All P p f t step h.1)
  where
    head : (b : Bool) → (b ≡ true → P r → P (f r)) → P (if b then f r else r)
    head true s = s refl h.0
    head false s = h.0

module _ {R : Type 0} (key : R → String) where
  -- SELECT … WHERE key = k
  unfoldable pub lookup : String → List R → Option R
  lookup k [] = none
  lookup k (r ∷ t) = if key r == k then some r else lookup k t

  -- UPDATE … WHERE key = k, at the one row with that key.
  unfoldable pub update : String → (R → R) → List R → List R
  update k f [] = []
  update k f (r ∷ t) = if key r == k then f r ∷ t else r ∷ update k f t

  -- INSERT of a row whose key is new.
  unfoldable pub insert : R → List R → List R
  insert r t = t ++ r ∷ []

  -- The keys of the rows are distinct.
  abbrev pub Unique : List R → Type 0
  Unique [] = Unit {0}
  Unique (r ∷ t) = (lookup (key r) t ≡ none) × Unique t

  pub lookup-insert :
      (j : String) (r : R) (t : List R)
      → lookup (key r) t ≡ none
      → lookup j (insert r t) ≡ (if key r == j then some r else lookup j t)
  unfolding lookup insert
  lookup-insert j r [] fresh = refl
  lookup-insert j r (x ∷ t) fresh =
      ground
        (arith, lookup-insert j r t, eq_iff (key x) (key r), eq_iff (key r) j, eq_iff (key x) j)

  pub lookup-update :
      (j k : String) (f : R → R) (t : List R)
      → ((r : R) → key (f r) ≡ key r)
      → lookup j (update k f t) ≡ (if k == j then Option.map f (lookup j t) else lookup j t)
  unfolding lookup update
  lookup-update j k f [] same = ground arith
  lookup-update j k f (x ∷ t) same =
      ground
        (arith, lookup-update j k f t same, same x, eq_iff (key x) k, eq_iff k j, eq_iff (key x) j)

  pub insert-All {κ} : (P : R → Type κ) (r : R) (t : List R) → P r → All P t → All P (insert r t)
  unfolding insert
  insert-All P r [] hr h = (hr, tt)
  insert-All P r (x ∷ t) hr h = (h.0, insert-All P r t hr h.1)

  pub update-All {κ} :
      (P : R → Type κ) (k : String) (f : R → R) (t : List R)
      → ((r : R) → lookup k t ≡ some r → P r → P (f r))
      → All P t
      → All P (update k f t)
  unfolding update lookup
  update-All P k f [] step h = tt
  update-All P k f (r ∷ t) step h = elim (Bool-cases (key r == k)) [
    | inl e ↦ rw e (step r (rw e refl) h.0, h.1)
    | inr e ↦ rw e (h.0, update-All P k f t (λ x q. step x (rw e q)) h.1)
  ]

  pub lookup-All {κ} :
      (P : R → Type κ) (k : String) (t : List R) {r : R} → All P t → lookup k t ≡ some r → P r
  unfolding lookup
  lookup-All P k [] h e = absurd (ground arith)
  lookup-All P k (x ∷ t) {r} h e = elim (Bool-cases (key x == k)) [
    | inl hit ↦ let same : x ≡ r = ground arith in subst P same h.0
    | inr miss ↦ lookup-All P k t h.1 (rw miss at e)
  ]

  pub key-lookup : (k : String) (t : List R) (r : R) → lookup k t ≡ some r → key r ≡ k
  unfolding lookup
  key-lookup k [] r e = absurd (ground arith)
  key-lookup k (x ∷ t) r e = ground (arith, key-lookup k t r, eq_iff (key x) k)

  pub Unique-update :
      (k : String) (f : R → R) (t : List R)
      → ((r : R) → key (f r) ≡ key r)
      → Unique t
      → Unique (update k f t)
  unfolding update
  Unique-update k f [] same u = tt
  Unique-update k f (r ∷ t) same u = elim (Bool-cases (key r == k)) [
    | inl e ↦ rw e (rw same u.0, u.1)
    | inr e ↦ rw e (
      lookup-update (key r) k f t same ∙ ground (arith, u.0, eq_iff k (key r)),
      Unique-update k f t same u.1,
    )
  ]

  pub Unique-insert :
      (r : R) (t : List R) → lookup (key r) t ≡ none → Unique t → Unique (insert r t)
  unfolding insert lookup
  Unique-insert r [] fresh u = (refl, tt)
  Unique-insert r (x ∷ t) fresh u = elim (Bool-cases (key x == key r)) [
    | inl e ↦ absurd (ground arith)
    | inr e ↦ (
      lookup-insert (key x) r t (ground arith)
          ∙ ground (arith, u.0, eq_iff (key r) (key x), eq_iff (key x) (key r)),
      Unique-insert r t (ground arith) u.1,
    )
  ]

  pub lookup-update_where :
      (j : String) (p : R → Bool) (f : R → R) (t : List R)
      → ((r : R) → key (f r) ≡ key r)
      → lookup j (update_where p f t) ≡ Option.map (λ r. if p r then f r else r) (lookup j t)
  unfolding lookup update_where
  lookup-update_where j p f [] same = refl
  lookup-update_where j p f (x ∷ t) same = ground (arith, lookup-update_where j p f t same, same x)

  -- With distinct keys each row is the one that its key finds.
  pub Unique-All : (t : List R) → Unique t → All (λ r. lookup (key r) t ≡ some r) t
  unfolding lookup
  Unique-All [] u = tt
  Unique-All (r ∷ t) u = (
    rw (eq_refl (key r)) refl,
    All-map (λ x. lookup (key x) t ≡ some x) _ t
        (λ x e. ground (arith, u.0, eq_iff (key r) (key x))) (Unique-All t u.1),
  )

  -- A row that a scan chose, found again by its key, satisfies the scan's test.
  pub chosen-satisfies :
      (order : R → ℕ) (n : ℕ) (p : R → Bool) (t : List R) (j : String) (r : R)
      → Unique t
      → lookup j t ≡ some r
      → any_where (λ c. key c == key r) (take n (order_by order (keep p t))) ≡ true
      → p r ≡ true
  chosen-satisfies order n p t j r u found chosen =
      any_where-elim (λ c. (lookup (key c) t ≡ some c) × (p c ≡ true)) _ _
        (All-take _ n _ (order_by-All order _ (keep p t) (All-keep _ p t (Unique-All t u)))) chosen
        λ c same facts.
          ground (arith, facts.0, facts.1, eq_iff (key c) (key r), key-lookup j t r found, found)

  pub Unique-update_where :
      (p : R → Bool) (f : R → R) (t : List R)
      → ((r : R) → key (f r) ≡ key r)
      → Unique t
      → Unique (update_where p f t)
  unfolding update_where
  Unique-update_where p f [] same u = tt
  Unique-update_where p f (r ∷ t) same u = elim (Bool-cases (p r)) [
    | inl e ↦ rw (e, same r) (after, Unique-update_where p f t same u.1)
    | inr e ↦ rw e (after, Unique-update_where p f t same u.1)
  ]
    where
      after : lookup (key r) (update_where p f t) ≡ none
      after = rw (lookup-update_where (key r) p f t same, u.0) refl

  pub count-insert :
      (p : R → Bool) (r : R) (t : List R)
      → count_where p (insert r t) ≡ count_where p t + (if p r then 1 else 0)
  unfolding insert
  count-insert p r [] = omega arith
  count-insert p r (x ∷ t) = omega (arith, count-insert p r t)

  pub count-update :
      (p : R → Bool) (k : String) (f : R → R) (t : List R) (r : R)
      → lookup k t ≡ some r
      → count_where p (update k f t) + (if p r then 1 else 0)
        ≡ count_where p t + (if p (f r) then 1 else 0)
  unfolding update lookup
  count-update p k f [] r e = absurd (ground arith)
  count-update p k f (x ∷ t) r e = elim (Bool-cases (key x == k)) [
    | inl hit ↦ let same : x ≡ r = ground arith in rw (hit, ← same) (omega arith)
    | inr miss ↦ rw miss (omega (arith, count-update p k f t r (rw miss at e)))
  ]

-- A rewriting that makes no row satisfy `p` does not raise the count.
pub count-update_where-le {ℓ} :
    {R : Type ℓ} (p g : R → Bool) (f : R → R) (t : List R)
    → ((r : R) → p (f r) ≡ true → p r ≡ true)
    → count_where p (update_where g f t) ≤ count_where p t
unfolding update_where
count-update_where-le p g f [] step = omega arith
count-update_where-le p g f (x ∷ t) step =
    ground (arith, step x, count-update_where-le p g f t step)

pub count-keep-le {ℓ} :
    {R : Type ℓ} (p g : R → Bool) (t : List R) → count_where p (keep g t) ≤ count_where p t
count-keep-le p g [] = omega arith
count-keep-le p g (x ∷ t) = ground (arith, count-keep-le p g t)

-- What a rewriting gives to the rows that it takes, and the others have already, holds of all.
pub update_where-intro {ℓ κ} :
    {R : Type ℓ} (P : R → Type κ) (p : R → Bool) (f : R → R) (t : List R)
    → ((r : R) → p r ≡ true → P (f r))
    → ((r : R) → p r ≡ false → P r)
    → All P (update_where p f t)
unfolding update_where
update_where-intro P p f [] done left = tt
update_where-intro P p f (r ∷ t) done left = elim (Bool-cases (p r)) [
  | inl e ↦ rw e (done r e, update_where-intro P p f t done left)
  | inr e ↦ rw e (left r e, update_where-intro P p f t done left)
]
