-- ===== src/Middleware/Quoting.antt =====
-- internal/handler/middleware/timeout.go: quoteJSON against a reader of JSON strings.
use stripe_payment_service.Prelude.{
  ℕ, Bool, ◌≡◌, refl, ◌∙◌, ◌||◌, Option, none, some, [], ◌∷◌, ◌++◌, arith, nat_eq, ltb, keep, not,
  Text, Bool-cases, inl, inr, if◌then◌else◌,
}
use mathlib.Core.List.{append_assoc}
use stripe_payment_service.Middleware.{escape_byte, escape, quote_json}

-- The byte that a backslash and a letter stand for; \u is not read.
abbrev unescaped : ℕ → Option ℕ
unescaped c =
    if nat_eq c b'"' || nat_eq c b'\\' || nat_eq c b'/'
    then some c
    else if nat_eq c b'n'
    then some b'\n'
    else if nat_eq c b'r'
    then some b'\r'
    else if nat_eq c b't'
    then some b'\t'
    else if nat_eq c b'b'
    then some 8
    else if nat_eq c b'f'
    then some 12
    else none

abbrev in_front : Option ℕ → Option (Text × Text) → Option (Text × Text)
in_front none r = none
in_front (some b) none = none
in_front (some b) (some (s, rest)) = some (b ∷ s, rest)

-- The string behind its opening quote, and what follows its closing one, by the grammar of JSON: a control
-- character may not stand in it.
pub read_string : Text → Option (Text × Text)
read_string [] = none
read_string (c ∷ []) = if nat_eq c b'"' then some ([], []) else none
read_string (c ∷ d ∷ s) =
    let escaped = in_front (unescaped d) (read_string s) in
    let plain = in_front (some c) (read_string (d ∷ s)) in
    if nat_eq c b'"'
    then some ([], d ∷ s)
    else if nat_eq c b'\\'
    then escaped
    else if ltb c 0x20
    then none
    else plain

-- A JSON string with what follows it.
abbrev pub read_json : Text → Option (Text × Text)
read_json [] = none
read_json (c ∷ s) = if nat_eq c b'"' then read_string s else none

-- The bytes of a message that its rendering keeps.
abbrev pub is_kept : ℕ → Bool
is_kept c = not (ltb c 0x20) || (nat_eq c b'\n' || nat_eq c b'\r' || nat_eq c b'\t')

read_escape_byte :
    (c d : ℕ) (u : Text)
    → read_string (escape_byte c ++ d ∷ u)
      ≡ (if is_kept c then in_front (some c) (read_string (d ∷ u)) else read_string (d ∷ u))
unfolding read_string
read_escape_byte c d u = ground arith

-- Some byte, and what is behind it.
StartsWith : Text → Type 0
StartsWith t = (d : ℕ) × (u : Text) × (t ≡ d ∷ u)

escape_first :
    (c : ℕ) (s rest : Text)
    → StartsWith (escape s ++ b'"' ∷ rest)
    → read_string (escape (c ∷ s) ++ b'"' ∷ rest) ≡ (
        if is_kept c
        then in_front (some c) (read_string (escape s ++ b'"' ∷ rest))
        else read_string (escape s ++ b'"' ∷ rest))
unfolding StartsWith
escape_first c s rest (d, u, e) = rw append_assoc (rw e (read_escape_byte c d u))

started : (a t : Text) → StartsWith t → StartsWith (a ++ t)
unfolding StartsWith
started [] t h = h
started (d ∷ a) t h = (d, a ++ t, refl)

escape_started : (s rest : Text) → StartsWith (escape s ++ b'"' ∷ rest)
unfolding StartsWith
escape_started [] rest = (b'"', rest, refl)
escape_started (c ∷ s) rest = rw append_assoc (started (escape_byte c) _ (escape_started s rest))

read_escape : (s rest : Text) → read_string (escape s ++ b'"' ∷ rest) ≡ some (keep is_kept s, rest)
read_escape [] [] = unfold read_string in refl
read_escape [] (d ∷ rest) = unfold read_string in refl
read_escape (c ∷ s) rest =
    escape_first c s rest (escape_started s rest) ∙ elim (Bool-cases (is_kept c)) [
      | inl kept ↦ rw (kept, read_escape s rest) refl
      | inr dropped ↦ rw (dropped, read_escape s rest) refl
    ]

-- The errors that the middleware writes by hand are JSON: whatever bytes a message has, and whatever
-- follows, a reader of JSON strings finds the end of the quoted message, and reads the message back
-- without its control characters, line ends and tabs kept.
pub read_json-quote_json :
    (s rest : Text) → read_json (quote_json s ++ rest) ≡ some (keep is_kept s, rest)
unfolding quote_json
read_json-quote_json s rest = rw append_assoc (read_escape s rest)
