-- ===== src/Audit/Outcome.antt =====
-- internal/audit/logger.go: the terminal outcomes of an operation. An outcome is a text, as in the
-- source, since a stored or a passed value need not be one of these.
use mcp_audit.Base.{String, Bool, List, [], ◌∷◌, ◌==◌, any}

abbrev pub success : String
success = "success"

abbrev pub denied : String
denied = "denied"

abbrev pub rate_limited : String
rate_limited = "rate_limited"

abbrev pub upstream_error : String
upstream_error = "upstream_error"

abbrev pub timeout : String
timeout = "timeout"

abbrev pub client_disconnect : String
client_disconnect = "client_disconnect"

abbrev pub malformed_upstream_response : String
malformed_upstream_response = "malformed_upstream_response"

abbrev pub cancelled : String
cancelled = "cancelled"

abbrev pub internal_error : String
internal_error = "internal_error"

abbrev pub outcomes : List String
outcomes =
    success ∷ denied ∷ rate_limited ∷ upstream_error ∷ timeout ∷ client_disconnect
    ∷ malformed_upstream_response ∷ cancelled ∷ internal_error ∷ []

-- `Outcome.Valid`.
unfoldable pub outcome_valid : String → Bool
outcome_valid outcome = any (λ o. outcome == o) outcomes
