-- ===== src/Config/Accepted.antt =====
-- internal/config/config.go: what holds of a configuration that Load returns.
use stripe_payment_service.Prelude.{
  String, ◌≡◌, refl, inl, inr, Bool, true, false, not, ◌&&◌, List, [], ◌∷◌, ◌++◌, ◌==◌, starts_with,
  arith, eq_iff, map, All, Bool-cases, if◌then◌else◌,
}
use stripe_payment_service.Config.{Process, Config, contains}
use stripe_payment_service.Config.Load.{load, load_config, accept}
use stripe_payment_service.Config.Checks.{
  problem, concat, check_secret_key, check_origin, check_price,
}
use stripe_payment_service.Config.Validate.{validate}

pub append-nil : (xs ys : List String) → xs ++ ys ≡ [] → (xs ≡ []) × (ys ≡ [])
append-nil [] ys e = (refl, e)
append-nil (x ∷ xs) ys e = absurd (ground arith)

pub concat-nil : (xs : List (List String)) → concat xs ≡ [] → All (λ x. x ≡ []) xs
concat-nil [] e = tt
concat-nil (x ∷ xs) e = let (head, tail) = append-nil x (concat xs) e in (head, concat-nil xs tail)

pub problem-nil : (bad : Bool) (text : String) → problem bad text ≡ [] → bad ≡ false
problem-nil true text e = absurd (ground arith)
problem-nil false text e = refl

accept-inversion : (c d : Config) (es : List String) → accept c es ≡ inr d → (d ≡ c) × (es ≡ [])
accept-inversion c d [] e = (ground arith, refl)
accept-inversion c d (x ∷ es) e = absurd (ground arith)

-- What Load returned has no violation, and nothing failed to parse.
pub load-inversion :
    (p : Process) (c : Config)
    → load p ≡ inr c
    → (c ≡ (load_config p).0) × ((load_config p).1 ≡ []) × (validate p c ≡ [])
unfolding load
load-inversion p c e =
    let (same, none) = accept-inversion (load_config p).0 c _ e in
    let (parsed, valid) = append-nil (load_config p).1 (validate p (load_config p).0) none in
    (same, parsed, rw same valid)

mode_checked :
    (production test live : Bool) (a b : String)
    → (if production && test then problem true a else problem (not production && live) b) ≡ []
    → (production ≡ true → test ≡ false) × (production ≡ false → live ≡ false)
mode_checked true true live a b e = absurd (ground arith)
mode_checked true false live a b e = (λ h. refl, λ h. absurd (ground arith))
mode_checked false test true a b e = absurd (ground arith)
mode_checked false test false a b e = (λ h. absurd (ground arith), λ h. refl)

-- No key of the wrong mode.
pub secret_key-mode :
    (production : Bool) (key : String)
    → check_secret_key production key ≡ []
    → (production ≡ true → contains "_test_" key ≡ false)
      × (production ≡ false → contains "_live_" key ≡ false)
unfolding check_secret_key
secret_key-mode production key e = elim (Bool-cases (key == "")) [
  | inl blank ↦
      let none : key ≡ "" = ground (arith, eq_iff key "") in rw none (λ h. refl, λ h. refl)
  | inr given ↦
      mode_checked production (contains "_test_" key) (contains "_live_" key) _ _
        (append-nil _ _ (rw given at e)).1
]

pub origins-listed :
    (p : Process) (production : Bool) (origins : List String)
    → concat (map (check_origin p production) origins) ≡ []
    → All (λ o. (o == "*") ≡ false) origins
unfolding check_origin
origins-listed p production [] e = tt
origins-listed p production (o ∷ os) e =
    let (head, tail) = append-nil (check_origin p production o) _ e in
    (
      elim (Bool-cases (o == "*")) [
        | inl star ↦ absurd (ground (arith, rw star at head))
        | inr listed ↦ listed
      ],
      origins-listed p production os tail,
    )

pub prices-named :
    (ids : List String)
    → concat (map check_price ids) ≡ []
    → All (λ id. starts_with id "price_" ≡ true) ids
prices-named [] e = tt
prices-named (id ∷ ids) e =
    let (head, tail) = append-nil (check_price id) _ e in
    let good = problem-nil _ _ head in (ground arith, prices-named ids tail)
