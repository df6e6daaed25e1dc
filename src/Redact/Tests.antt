-- ===== src/Redact/Tests.antt =====
-- The redaction of a value with a sensitive key inside an array.
use Prim.Native.Char.{Char}
use mcp_audit.Base.{String, true, ◌≡◌, refl, Option, some, [], ◌∷◌, ◌==◌, if◌then◌else◌}
use mcp_audit.Base.Text.{to_lower, trim_space, contains, has_prefix}
use mcp_audit.Redact.{
  JsonValue, number, text, array, object, no_items, item, no_fields, field, Redactor, mark,
  new_redactor, sensitive, redact_value, redact,
}
use mcp_audit.Redact.Clean.{Clean, redact-Clean}

abbrev same : Char → Char
same c = c

abbrev redactor : Redactor
redactor = record { enabled = true; patterns = "token" ∷ [] }

abbrev inside : JsonValue → JsonValue
inside v = object (
    field "id" (number "7")
      (field "list" (array (item (object (field "my_token" v no_fields)) no_items)) no_fields))

redacted : redact_value same redactor "" (inside (text "abc")) ≡ inside mark
unfolding redact_value sensitive to_lower contains has_prefix
redacted = refl

abbrev unmarshal : String → Option JsonValue
unmarshal raw = some (if raw == "in" then inside (text "abc") else inside mark)

abbrev marshal : JsonValue → Option String
marshal v = some "out"

redact-Clean_example :
    (redact same unmarshal marshal redactor "in" ≡ "out")
    × Clean same redactor "" (redact_value same redactor "" (inside (text "abc")))
    × (redact same unmarshal marshal redactor "out" ≡ "out")
unfolding redact_value sensitive to_lower contains has_prefix
redact-Clean_example =
    redact-Clean same redactor unmarshal marshal "in" "out" (inside (text "abc")) refl refl refl
      refl refl refl

blank_patterns :
    new_redactor same true (" Token " ∷ " " ∷ [])
    ≡ record { enabled = true; patterns = "token" ∷ [] }
unfolding new_redactor to_lower trim_space
blank_patterns = refl
