-- ===== src/Stdio.antt =====
-- internal/proxy/stdio.go and policy.go: the stdio proxy's view of the messages that pass, its
-- table of pending calls and the records that it makes.
--
-- The pipes, the upstream process and its shutdown are left out: they hand lines to the two
-- observers and end by finalizing what is pending. A call holds its operation; nothing else refers
-- to it.
pub mod State
pub mod Observe
pub mod Pipes
pub mod Guard
pub mod Direction
pub mod Session
pub mod Pending
pub mod Tests
use mcp_audit.Base.{
  ℕ, zero, suc, ℤ, pos, negsuc, String, Bool, true, false, not, ◌&&◌, ◌||◌, List, [], ◌∷◌, Option,
  none, some, ◌==◌, if◌then◌else◌,
}
use mcp_audit.Policy
use mcp_audit.Policy.{Engine, Decision, Request, evaluate, not_applied}
use mcp_audit.Mcp.{Json, Message, name_from_message, request_id}
use mcp_audit.Audit.{Entry, RpcError, Principal, PolicyEvidence, Time}
use mcp_audit.Audit.Outcome.{upstream_error, success}
use mcp_audit.Audit.Logger.{Codec, Logger, Inputs, World}
use mcp_audit.Audit.Operation.{Operation, Completion, new_operation, finalize}
use mcp_audit.Limit.{Buckets, RateLimiter}

-- `pendingCall`, less a field that is never set.
pub record PendingCall : Type 0 where
  pub operation : Option Operation
  pub started_at : Time
  pub completion_direction : String

pub record RpcMessage : Type 0 where
  pub id : String
  pub method : String
  pub params : String
  pub result : String
  pub error : Option RpcError

-- What the clock and the id sources return while one message is handled or one call is finalized.
pub record Tick : Type 0 where
  pub operation_id : Option String
  pub now : Time
  pub inputs : Inputs
  pub elapsed : ℤ

-- The configuration, with what the code calls: the JSON package and the token buckets.
pub record StdioConfig (S B : Type 0) : Type 0 where
  pub codec : Codec
  pub audit : Logger S
  pub policy : Option Engine
  pub client_id : String
  pub server_id : String
  pub buckets : Buckets B
  pub json : Json
  pub unmarshal_single : String → Option RpcMessage
  pub unmarshal_batch : String → Option (List RpcMessage)
  pub marshal_decision : Decision → String
  pub marshal_response : String → RpcError → Option String

-- `decodeMessages`: a single message that has a method or an id, or else a batch.
abbrev pub decode_by : Option RpcMessage → Option (List RpcMessage) → Option (List RpcMessage)
decode_by none batch = batch
decode_by (some m) batch = if not (m.method == "") || not (m.id == "") then some (m ∷ []) else batch

module _ {S B : Type 0} (c : StdioConfig S B) where
  unfoldable pub decode_messages : String → Option (List RpcMessage)
  decode_messages raw = decode_by (c.unmarshal_single raw) (c.unmarshal_batch raw)

  abbrev pub tool_name_of : String → String → String
  tool_name_of method name = if method == "tools/call" then name else ""

  -- `evaluatePolicy`: without a policy everything is allowed.
  unfoldable pub evaluate_policy : String → String → Decision
  evaluate_policy method name = evaluate c.policy (record {
    subject = c.client_id;
    client_id = c.client_id;
    issuer = "static";
    roles = [];
    scopes = [];
    server_id = c.server_id;
    method = method;
    name = name;
    tool_name = tool_name_of method name;
  })

  abbrev pub policy_denied_code : ℤ
  policy_denied_code = negsuc 32029

  -- `policyError`.
  abbrev pub policy_error : Decision → RpcError
  policy_error d = record {
    code = policy_denied_code;
    message = "policy denied";
    details = c.marshal_decision d;
  }

  abbrev pub audit_policy_evidence : Decision → Option PolicyEvidence
  audit_policy_evidence d =
      if not d.applied then none else some (record { decision = d.action; rule_id = d.rule_id })

  abbrev pub outcome_for_rpc_error : Option RpcError → String
  outcome_for_rpc_error none = success
  outcome_for_rpc_error (some e) = upstream_error

  abbrev pub metadata_name : RpcMessage → String
  metadata_name m =
      name_from_message c.json (record { id = m.id; method = m.method; params = m.params })

  abbrev pub request_entry : String → String → String → String → Option PolicyEvidence → Entry
  request_entry method id name params evidence = record {
    id = "";
    timestamp = 0;
    audit_operation_id = "";
    outcome = "";
    direction = "";
    transport = "";
    method = method;
    request_id = id;
    mcp_name = name;
    tool_name = tool_name_of method name;
    params = params;
    result = "";
    error = none;
    duration_ms = pos 0;
    client_id = c.client_id;
    server_id = c.server_id;
    principal = some (record { subject = c.client_id; client_id = c.client_id; issuer = "static" });
    policy = evidence;
    signature = "";
    integrity = none;
  }

  abbrev pub operation_of : Option String → Entry → Tick → Option Operation
  operation_of none e t = none
  operation_of (some id) e t = some (new_operation e t.now id t.now)

  -- `newPendingCall`; where no operation id is made, the call has no operation.
  unfoldable pub new_pending_call : RpcMessage → String → Tick → Option PolicyEvidence → PendingCall
  new_pending_call m direction t evidence = record {
    operation =
        operation_of t.operation_id
          (request_entry m.method (request_id c.json m.id) (metadata_name m) m.params evidence) t;
    started_at = t.now;
    completion_direction = direction;
  }

  abbrev pub finalized_world :
      Option Operation → String → String → String → Option RpcError → Tick → World S → World S
  finalized_world none outcome direction result error t w = w
  finalized_world (some o) outcome direction result error t w =
      (finalize c.codec c.audit
        (record { outcome = outcome; direction = direction; result = result; error = error })
        t.inputs t.elapsed o w).1

  -- `record`; its error is only logged.
  unfoldable pub record_call :
      PendingCall → String → String → String → Option RpcError → Tick → World S → World S
  record_call call outcome direction result error t w =
      finalized_world call.operation outcome direction result error t w
