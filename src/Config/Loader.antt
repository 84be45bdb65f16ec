-- ===== src/Config/Loader.antt =====
-- internal/config/config.go: the loader, which reads environment variables and gathers what it could
-- not parse.
use Prim.Native.Char.{code}
use Prim.Native.String.{◌++◌ as join}
use stripe_payment_service.Prelude.{
  String, Bool, true, false, not, Option, none, some, List, [], ◌∷◌, ◌++◌, ◌==◌, trim_space, nat_eq,
  keep, map, if◌then◌else◌,
}
use stripe_payment_service.Prelude.Int.{ℤ}
use stripe_payment_service.Config.{Process, Float}

-- A reading, with the failures that it adds.
abbrev pub Loader : Type 0 → Type 0
Loader A = Process → A × List String

module _ {A : Type 0} where
  abbrev pub pure : A → Loader A
  pure a p = (a, [])

  -- l.fail, where the reading falls back to a value.
  abbrev pub fail : String → A → Loader A
  fail text a p = (a, text ∷ [])

module _ {A B : Type 0} where
  infixl 10 ◌>>=◌
  unfoldable pub ◌>>=◌ : Loader A → (A → Loader B) → Loader B
  ◌>>=◌ m f p = let (a, failures) = m p in let (b, more) = f a p in (b, failures ++ more)

abbrev pub present : String → Option String
present v = if v == "" then none else some v

-- (*loader).lookup: the trimmed value of a variable, unless it is blank.
unfoldable pub lookup : String → Process → Option String
lookup key p = elim (p.lookup_env key) [ none ↦ none | some v ↦ present (trim_space v) ]

-- (*loader).str
unfoldable pub str : String → String → Loader String
str key default p = elim (lookup key p) [ none ↦ (default, []) | some v ↦ (v, []) ]

-- (*loader).required
unfoldable pub required : String → Loader String
required key p = elim (lookup key p) [
  | none ↦ fail (join "required environment variable " (join key " is not set")) "" p
  | some v ↦ (v, [])
]

-- A value that is parsed, or the default with a failure.
abbrev parsed : {A : Type 0} → String → A → Option A → Loader A
parsed text default none = fail text default
parsed text default (some a) = pure a

-- What intVal, duration, boolVal and float share. The text leaves out the value that was found.
abbrev read_as : {A : Type 0} → (Process → String → Option A) → (kind key : String) → A → Loader A
read_as parse kind key default p = elim (lookup key p) [
  | none ↦ (default, [])
  | some v ↦ parsed (join key (join " must be " kind)) default (parse p v) p
]

-- (*loader).intVal
abbrev pub int_val : String → ℤ → Loader ℤ
int_val = read_as (λ p. p.atoi) "an integer"

-- (*loader).duration
abbrev pub duration : String → ℤ → Loader ℤ
duration = read_as (λ p. p.parse_duration) "a duration such as 30s or 5m"

-- (*loader).boolVal
abbrev pub bool_val : String → Bool → Loader Bool
bool_val = read_as (λ p. p.parse_bool) "a boolean"

-- (*loader).float
abbrev pub float : String → Float → Loader Float
float = read_as (λ p. p.parse_float) "a number"

-- strings.Split on a comma
abbrev split_commas : String → List String
split_commas String.[] = "" ∷ []
split_commas (String.◌∷◌ c s) = starting (nat_eq (code c) b',') (split_commas s)
  where
    starting : Bool → List String → List String
    starting true parts = "" ∷ parts
    starting false [] = String.◌∷◌ c "" ∷ []
    starting false (part ∷ parts) = String.◌∷◌ c part ∷ parts

-- The parts of a list that are not blank, trimmed.
unfoldable pub entries : String → List String
entries raw = keep (λ part. not (part == "")) (map trim_space (split_commas raw))

-- (*loader).csv
unfoldable pub csv : String → Loader (List String)
csv key p = elim (lookup key p) [ none ↦ ([], []) | some raw ↦ (entries raw, []) ]
