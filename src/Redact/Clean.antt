-- ===== src/Redact/Clean.antt =====
-- internal/middleware/redact.go: what is left in a redacted value.
use Prim.Native.Char.{Char}
use mathlib.Core.Path.{subst}
use mcp_audit.Base.{
  String, true, false, ◌≡◌, refl, sym, ap, ◌∙◌, ◌↔◌, inl, inr, Option, some, ◌==◌, Bool-cases,
}
use mcp_audit.Redact.{
  JsonValue, JsonItems, JsonFields, null, boolean, number, text, array, object, no_items, item,
  no_fields, field, Redactor, mark, sensitive, marked, redact_value, redact_items, redact_fields,
  redact,
}

module _ (table : Char → Char) (r : Redactor) where
  -- A value under a sensitive key is the mark.
  abbrev Hidden : String → JsonValue → Type 0
  Hidden key v = sensitive table r key ≡ true → v ≡ mark

  -- At every depth.
  unfoldable mutual
    pub Clean : String → JsonValue → Type 0
    Clean key null = Hidden key null
    Clean key (boolean b) = Hidden key (boolean b)
    Clean key (number n) = Hidden key (number n)
    Clean key (text s) = Hidden key (text s)
    Clean key (array xs) = Hidden key (array xs) × CleanItems key xs
    Clean key (object fs) = Hidden key (object fs) × CleanFields fs

    pub CleanItems : String → JsonItems → Type 0
    CleanItems key no_items = Unit
    CleanItems key (item v xs) = Clean key v × CleanItems key xs

    pub CleanFields : JsonFields → Type 0
    CleanFields no_fields = Unit
    CleanFields (field key v fs) = Clean key v × CleanFields fs

  mark-Clean : (key : String) → Clean key mark
  unfolding Clean
  mark-Clean key hidden = refl

  marked-Clean :
      (key : String) (v : JsonValue)
      → (sensitive table r key ≡ false → Clean key v)
      → Clean key (marked table (sensitive table r key) v)
  unfolding Clean
  marked-Clean key v h = elim (Bool-cases (sensitive table r key)) [
    | inl hide ↦ rw hide (λ _. refl)
    | inr show ↦ rw show (h show)
  ]

  -- A value that is not under a sensitive key is not hidden.
  shown : (key : String) (v : JsonValue) → sensitive table r key ≡ false → Hidden key v
  shown key v show hide = cc (show, hide)

  mutual
    unfolding redact_value Clean

    pub redact_value-Clean : (key : String) (v : JsonValue) → Clean key (redact_value table r key v)
    redact_value-Clean key null = marked-Clean key null (shown key null)
    redact_value-Clean key (boolean b) = marked-Clean key (boolean b) (shown key (boolean b))
    redact_value-Clean key (number n) = marked-Clean key (number n) (shown key (number n))
    redact_value-Clean key (text s) = marked-Clean key (text s) (shown key (text s))
    redact_value-Clean key (array xs) =
        marked-Clean key (array (redact_items table r key xs)) (λ show.
          (shown key (array (redact_items table r key xs)) show, redact_items-Clean key xs))
    redact_value-Clean key (object fs) =
        marked-Clean key (object (redact_fields table r fs))
          (λ show. (shown key (object (redact_fields table r fs)) show, redact_fields-Clean fs))

    redact_items-Clean :
        (key : String) (xs : JsonItems) → CleanItems key (redact_items table r key xs)
    redact_items-Clean key no_items = tt
    redact_items-Clean key (item v xs) = (redact_value-Clean key v, redact_items-Clean key xs)

    redact_fields-Clean : (fs : JsonFields) → CleanFields (redact_fields table r fs)
    redact_fields-Clean no_fields = tt
    redact_fields-Clean (field key v fs) = (redact_value-Clean key v, redact_fields-Clean fs)

  -- A hidden value is the mark, and a value that is shown is kept as its parts are.
  marked-same :
      (key : String) (v w : JsonValue)
      → Hidden key v
      → w ≡ v
      → marked table (sensitive table r key) w ≡ v
  marked-same key v w h e = elim (Bool-cases (sensitive table r key)) [
    | inl hide ↦ rw hide (sym (h hide))
    | inr show ↦ rw show e
  ]

  mutual
    unfolding redact_value Clean

    Clean-same : (key : String) (v : JsonValue) → Clean key v → redact_value table r key v ≡ v
    Clean-same key null h = marked-same key null null h refl
    Clean-same key (boolean b) h = marked-same key (boolean b) (boolean b) h refl
    Clean-same key (number n) h = marked-same key (number n) (number n) h refl
    Clean-same key (text s) h = marked-same key (text s) (text s) h refl
    Clean-same key (array xs) (h, inside) =
        marked-same key (array xs) (array (redact_items table r key xs)) h
          (ap array (CleanItems-same key xs inside))
    Clean-same key (object fs) (h, inside) =
        marked-same key (object fs) (object (redact_fields table r fs)) h
          (ap object (CleanFields-same fs inside))

    CleanItems-same :
        (key : String) (xs : JsonItems) → CleanItems key xs → redact_items table r key xs ≡ xs
    CleanItems-same key no_items h = refl
    CleanItems-same key (item v xs) (h, hs) =
        ap (λ w. item w (redact_items table r key xs)) (Clean-same key v h)
        ∙ ap (item v) (CleanItems-same key xs hs)

    CleanFields-same : (fs : JsonFields) → CleanFields fs → redact_fields table r fs ≡ fs
    CleanFields-same no_fields h = refl
    CleanFields-same (field key v fs) (h, hs) =
        ap (λ w. field key w (redact_fields table r fs)) (Clean-same key v h)
        ∙ ap (field key v) (CleanFields-same fs hs)

  -- The values that redaction leaves as they are, are exactly those in which every value under a
  -- sensitive key is the mark, at any depth; so a second redaction changes nothing, and a value
  -- without sensitive keys is kept whole.
  pub redact_value-fixed_iff :
      (key : String) (v : JsonValue) → (redact_value table r key v ≡ v) ↔ Clean key v
  redact_value-fixed_iff key v =
      (λ same. subst (Clean key) same (redact_value-Clean key v), Clean-same key v)

  -- An enabled redactor gives the text of the redacted value of a JSON text, and in that value
  -- every value under a sensitive key is the mark, at any depth; where the text decodes to the
  -- value it was made from, redacting it again gives it again.
  pub redact-Clean :
      (unmarshal : String → Option JsonValue) (marshal : JsonValue → Option String)
      (raw out : String) (v : JsonValue)
      → r.enabled ≡ true
      → (raw == "") ≡ false
      → (out == "") ≡ false
      → unmarshal raw ≡ some v
      → marshal (redact_value table r "" v) ≡ some out
      → unmarshal out ≡ some (redact_value table r "" v)
      → (redact table unmarshal marshal r raw ≡ out)
        × Clean "" (redact_value table r "" v)
        × (redact table unmarshal marshal r out ≡ out)
  unfolding redact
  redact-Clean unmarshal marshal raw out v on given shown_out decoded written back =
      let clean = redact_value-Clean "" v in
      (
        simp (on, given, decoded, written) refl,
        clean,
        simp (on, shown_out, back, Clean-same "" (redact_value table r "" v) clean, written) refl,
      )
