-- ===== src/Redact.antt =====
-- internal/middleware/redact.go: the values of sensitive keys are replaced before a record is kept.
--
-- A JSON value is what `json.Unmarshal` makes of a text; the fields of an object stand in the order
-- in which a `range` loop happens to go. `json.Unmarshal` and `json.Marshal` are parameters.
pub mod Clean
pub mod Tests
use Prim.Native.Char.{Char}
use mcp_audit.Base.{
  String, Bool, true, false, not, ◌||◌, List, [], ◌∷◌, Option, none, some, ◌==◌, if◌then◌else◌, any,
}
use mcp_audit.Base.Text.{to_lower, trim_space, contains}

mutual
  pub data JsonValue : Type 0 where
    null : JsonValue
    boolean : Bool → JsonValue
    number text : String → JsonValue
    array : JsonItems → JsonValue
    object : JsonFields → JsonValue

  pub data JsonItems : Type 0 where
    no_items : JsonItems
    item : JsonValue → JsonItems → JsonItems

  pub data JsonFields : Type 0 where
    no_fields : JsonFields
    field : String → JsonValue → JsonFields → JsonFields

abbrev pub default_redact_patterns : List String
default_redact_patterns =
    "password" ∷ "token" ∷ "secret" ∷ "api_key" ∷ "bearer" ∷ "authorization" ∷ []

pub record Redactor : Type 0 where
  pub enabled : Bool
  pub patterns : List String

abbrev or_default_patterns : List String → List String
or_default_patterns [] = default_redact_patterns
or_default_patterns (p ∷ ps) = p ∷ ps

abbrev pub mark : JsonValue
mark = text "[REDACTED]"

module _ (table : Char → Char) where
  abbrev normalized_patterns : List String → List String
  normalized_patterns [] = []
  normalized_patterns (p ∷ ps) =
      let rest = normalized_patterns ps in
      if trim_space (to_lower table p) == "" then rest else trim_space (to_lower table p) ∷ rest

  -- `NewRedactor`.
  unfoldable pub new_redactor : Bool → List String → Redactor
  new_redactor enabled patterns = record {
    enabled = enabled;
    patterns = normalized_patterns (or_default_patterns patterns);
  }

  -- `sensitive`.
  unfoldable pub sensitive : Redactor → String → Bool
  sensitive r key = any (λ p. contains (to_lower table key) p) r.patterns

  abbrev pub marked : Bool → JsonValue → JsonValue
  marked hide v = if hide then mark else v

  -- `redactValue`: the items of an array stand under the key of the array.
  unfoldable mutual
    pub redact_value : Redactor → String → JsonValue → JsonValue
    redact_value r key null = marked (sensitive r key) null
    redact_value r key (boolean b) = marked (sensitive r key) (boolean b)
    redact_value r key (number n) = marked (sensitive r key) (number n)
    redact_value r key (text s) = marked (sensitive r key) (text s)
    redact_value r key (array xs) = marked (sensitive r key) (array (redact_items r key xs))
    redact_value r key (object fs) = marked (sensitive r key) (object (redact_fields r fs))

    pub redact_items : Redactor → String → JsonItems → JsonItems
    redact_items r key no_items = no_items
    redact_items r key (item v xs) = item (redact_value r key v) (redact_items r key xs)

    pub redact_fields : Redactor → JsonFields → JsonFields
    redact_fields r no_fields = no_fields
    redact_fields r (field key v fs) = field key (redact_value r key v) (redact_fields r fs)

  module _ (unmarshal : String → Option JsonValue) (marshal : JsonValue → Option String) where
    abbrev pub or_raw : String → Option String → String
    or_raw raw none = raw
    or_raw raw (some out) = out

    abbrev pub redact_decoded : Redactor → String → Option JsonValue → String
    redact_decoded r raw none = raw
    redact_decoded r raw (some v) = or_raw raw (marshal (redact_value r "" v))

    -- `Redact` of a redactor that is not nil.
    unfoldable pub redact : Redactor → String → String
    redact r raw = if not r.enabled || raw == "" then raw else redact_decoded r raw (unmarshal raw)
