-- ===== src/Logger.antt =====
-- internal/logger/logger.go: the levels, the redaction of attributes, and the request id that a record
-- carries. log/slog is the caller; the lower case of a text and the renderings of the built-in
-- attributes are parameters.
mod Tests
use stripe_payment_service.Prelude.{
  ℕ, String, Bool, true, false, not, ◌&&◌, ◌⊎◌, inl, inr, Option, none, some, List, [], ◌∷◌, ◌++◌,
  ◌==◌, Text, any_where, trim_space, if◌then◌else◌,
}
use stripe_payment_service.Config.{contains}
use stripe_payment_service.Domain.Time.{Time}

-- slog.Level, the four that the service names.
pub data Level : Type 0 where
  level_debug level_info level_warn level_error : Level

-- The value of an attribute, by the kinds that the code tells apart.
pub data Value : Type 0 where
  text : String → Value
  instant : Time → Value
  level : Level → Value
  position : (file : String) (line : ℕ) → Value
  group : List String → Value
  any_value : String → Value

pub record Attr : Type 0 where
  pub key : String
  pub value : Value

-- strings.ToLower, the time in UTC as RFC 3339, Level.String, and the last two parts of a path with
-- the line.
pub record Texts : Type 0 where
  pub to_lower : String → String
  pub rfc3339 : Time → String
  pub level_name : Level → String
  pub short_position : (file : String) (line : ℕ) → String

abbrev pub redacted : String
redacted = "[REDACTED]"

abbrev sensitive_keys : List String
sensitive_keys =
    "password" ∷ "passwd" ∷ "secret" ∷ "token" ∷ "api_key" ∷ "apikey" ∷ "authorization" ∷ "cookie"
    ∷ "credential" ∷ "private_key" ∷ "dsn" ∷ "database_url" ∷ "signature" ∷ []

abbrev pub is_group : Value → Bool
is_group (group names) = true
is_group v = false

-- slog.Attr with a text.
abbrev pub string_attr : String → String → Attr
string_attr key value = record { key = key; value = text value }

-- RequestIDFromContext is the id that the context holds, blank where it has none.
abbrev pub with_request_id : Text → Text → Text
with_request_id [] held = held
with_request_id (b ∷ id) held = b ∷ id

module _ (t : Texts) where
  -- ParseLevel
  unfoldable pub parse_level : String → String ⊎ Level
  parse_level name =
      let lowered = t.to_lower (trim_space name) in
      if lowered == ""
      then inr level_info
      else if lowered == "info"
      then inr level_info
      else if lowered == "debug"
      then inr level_debug
      else if lowered == "warn"
      then inr level_warn
      else if lowered == "warning"
      then inr level_warn
      else if lowered == "error"
      then inr level_error
      else inl "unknown level"

  -- isSensitiveKey
  unfoldable pub is_sensitive_key : String → Bool
  is_sensitive_key key = any_where (λ word. contains word (t.to_lower key)) sensitive_keys

  -- The rewriting of the keys that slog itself sets, at the top level.
  abbrev pub built_in : String → Value → Option Attr
  built_in key (instant at) = if key == "time" then some (string_attr "ts" (t.rfc3339 at)) else none
  built_in key (level l) =
      if key == "level" then some (string_attr "level" (t.to_lower (t.level_name l))) else none
  built_in key (position file line) =
      if key == "source" then some (string_attr "source" (t.short_position file line)) else none
  built_in key v = none

  -- Redaction by the key; groups are left to their members.
  unfoldable pub hide : Attr → Attr
  hide a =
      if is_sensitive_key a.key && not (is_group a.value) then string_attr a.key redacted else a

  abbrev or_redacted : Attr → Option Attr → Attr
  or_redacted a none = hide a
  or_redacted a (some b) = b

  -- replaceAttr
  unfoldable pub replace_attr : List String → Attr → Attr
  replace_attr [] a = or_redacted a (built_in a.key a.value)
  replace_attr (g ∷ groups) a = hide a

-- The attributes that contextHandler.Handle hands on, where `show` reads an id as a string.
unfoldable pub handle_attrs : (show : Text → String) → (id : Text) → List Attr → List Attr
handle_attrs show [] attrs = attrs
handle_attrs show (b ∷ id) attrs = attrs ++ string_attr "request_id" (show (b ∷ id)) ∷ []
