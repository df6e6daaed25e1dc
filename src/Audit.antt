-- ===== src/Audit.antt =====
-- internal/audit/logger.go, signer.go and operation.go: the audit record and its parts. The
-- logger, the lifecycle of an operation and the statistics are the child modules.
pub mod Outcome
pub mod Logger
pub mod Operation
pub mod Signer
pub mod Query
use mcp_audit.Base.{ℕ, ℤ, String, Option, none, some}
use mcp_audit.Integrity.{Metadata, EntryV2, RpcErrorV2, PrincipalV2, PolicyV2}

abbrev pub direction_client_to_server : String
direction_client_to_server = "client→server"

abbrev pub direction_server_to_client : String
direction_server_to_client = "server→client"

pub record RpcError : Type 0 where
  pub code : ℤ
  pub message : String
  pub details : String

pub record Principal : Type 0 where
  pub subject : String
  pub client_id : String
  pub issuer : String

pub record PolicyEvidence : Type 0 where
  pub decision : String
  pub rule_id : String

-- An instant in nanoseconds from Go's zero time, which is 0. Locations are not modelled: the
-- code compares and prints instants in UTC.
abbrev pub Time : Type 0
Time = ℕ

-- A nil pointer is `none`, and a nil raw message is the empty text.
pub record Entry : Type 0 where
  pub id : String
  pub timestamp : Time
  pub audit_operation_id : String
  pub outcome : String
  pub direction : String
  pub transport : String
  pub method : String
  pub request_id : String
  pub mcp_name : String
  pub tool_name : String
  pub params : String
  pub result : String
  pub error : Option RpcError
  pub duration_ms : ℤ
  pub client_id : String
  pub server_id : String
  pub principal : Option Principal
  pub policy : Option PolicyEvidence
  pub signature : String
  pub integrity : Option Metadata

abbrev error_v2 : Option RpcError → Option RpcErrorV2
error_v2 none = none
error_v2 (some e) = some (record { code = e.code; message = e.message; details = e.details })

abbrev principal_v2 : Option Principal → Option PrincipalV2
principal_v2 none = none
principal_v2 (some p) =
    some (record { subject = p.subject; client_id = p.client_id; issuer = p.issuer })

abbrev policy_v2 : Option PolicyEvidence → Option PolicyV2
policy_v2 none = none
policy_v2 (some p) = some (record { decision = p.decision; rule_id = p.rule_id })

-- `IntegrityEntryV2`; `format` prints an instant as RFC3339Nano in UTC.
unfoldable pub integrity_entry_v2 : (Time → String) → Entry → EntryV2
integrity_entry_v2 format e = record {
  id = e.id;
  timestamp = format e.timestamp;
  audit_operation_id = e.audit_operation_id;
  outcome = e.outcome;
  direction = e.direction;
  transport = e.transport;
  method = e.method;
  request_id = e.request_id;
  mcp_name = e.mcp_name;
  tool_name = e.tool_name;
  params = e.params;
  result = e.result;
  error = error_v2 e.error;
  duration_ms = e.duration_ms;
  client_id = e.client_id;
  server_id = e.server_id;
  principal = principal_v2 e.principal;
  policy = policy_v2 e.policy;
}
