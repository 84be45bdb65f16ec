-- ===== src/Logger/Tests.antt =====
-- The logger on a level and on a header that a handler should not have logged.
use stripe_payment_service.Prelude.{◌≡◌, refl, true, inr, [], ◌∷◌, ◌==◌, trim_space, if◌then◌else◌}
use stripe_payment_service.Logger.{
  Texts, Value, level_warn, parse_level, replace_attr, string_attr, redacted, is_sensitive_key,
  hide,
}

abbrev texts : Texts
texts = record {
  to_lower = λ s. if s == "Authorization" then "authorization" else s;
  rfc3339 = λ t. "2024-01-01T00:00:00Z";
  level_name = λ l. "INFO";
  short_position = λ file line. file;
}

warning : parse_level texts " warning " ≡ inr level_warn
unfolding parse_level trim_space
warning = refl

sensitive : is_sensitive_key texts "Authorization" ≡ true
unfolding is_sensitive_key
sensitive = refl

header_hidden :
    replace_attr texts [] (record { key = "Authorization"; value = Value.text "Bearer a" })
    ≡ string_attr "Authorization" redacted
unfolding replace_attr hide is_sensitive_key
header_hidden = refl

-- A group is left to its members.
group_kept :
    replace_attr texts [] (record { key = "token"; value = Value.group ("user" ∷ []) })
    ≡ record { key = "token"; value = Value.group ("user" ∷ []) }
unfolding replace_attr hide is_sensitive_key
group_kept = refl
