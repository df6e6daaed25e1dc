-- ===== src/Http/Calls.antt =====
-- internal/proxy/http.go: the calls of one HTTP request, from the messages in its body to their
-- terminal records.
--
-- The fields of the configuration that both proxies use are those of StdioConfig. The table of
-- pending calls belongs to one request. `started` and `finalized` list the operations that were
-- made and those that were handed to `Finalize` with their outcomes, the last one first.
use mcp_audit.Base.{
  ℕ, suc, String, Bool, true, false, not, ◌||◌, List, [], ◌∷◌, Option, none, some, ◌==◌,
  if◌then◌else◌, lookup, insert, delete, leb,
}
use Prim.Native.String
use mcp_audit.Base.Text.{trim_space}
use mcp_audit.Policy.{Decision, evaluate}
use mcp_audit.Auth.{Principal}
use mcp_audit.Audit.{
  Entry, RpcError, PolicyEvidence, Time, direction_client_to_server, direction_server_to_client,
}
use mcp_audit.Audit.Outcome.{
  success, denied, rate_limited, upstream_error, timeout, client_disconnect, cancelled,
  malformed_upstream_response,
}
use mcp_audit.Audit.Logger.{World}
use mcp_audit.Audit.Operation.{Operation, new_operation, finalize}
use mcp_audit.Limit.{RateLimiter, allow}
use mcp_audit.Stdio.{
  StdioConfig, RpcMessage, Tick, decode_messages, tool_name_of, policy_error, audit_policy_evidence,
  outcome_for_rpc_error, metadata_name, request_entry,
}
use mcp_audit.Stdio.Observe.{build_error_response, rate_limit_error}
use mcp_audit.Mcp.{request_id}
use mcp_audit.Http.Upstream.{Failure, deadline_exceeded, canceled, other_failure}

-- `pendingCall`, less a field that only the stdio proxy uses.
pub record HttpCall : Type 0 where
  pub operation : Option Operation
  pub started_at : Time
  pub expects_response : Bool

abbrev pub Calls : Type 0
Calls = List (String × HttpCall)

pub record HttpState (S B : Type 0) : Type 0 where
  pub limiter : Option (RateLimiter B)
  pub world : World S
  pub started : List Operation
  pub finalized : List (Operation × String)

-- `httpFailureOutcome`; `left` tells whether the request's own context is cancelled.
unfoldable pub http_failure_outcome : Bool → Failure → String
http_failure_outcome left deadline_exceeded = timeout
http_failure_outcome left canceled = if left then client_disconnect else cancelled
http_failure_outcome left other_failure = upstream_error

abbrev pub or_client : String → String → String
or_client default_id id = if id == "" then default_id else id

module _ {S B : Type 0} (c : StdioConfig S B) where
  -- `evaluatePolicy`: without a policy everything is allowed.
  unfoldable pub evaluate_http_policy : Principal → String → String → Decision
  evaluate_http_policy p method name = evaluate c.policy (record {
    subject = p.subject;
    client_id = p.client_id;
    issuer = p.issuer;
    roles = p.roles;
    scopes = p.scopes;
    server_id = c.server_id;
    method = method;
    name = name;
    tool_name = tool_name_of c method name;
  })

  abbrev http_entry : Principal → RpcMessage → Option PolicyEvidence → Entry
  http_entry p m evidence =
      record (request_entry c m.method (request_id c.json m.id) (metadata_name c m) m.params
        evidence) {
          client_id = or_client c.client_id p.client_id;
          principal =
              some (record { subject = p.subject; client_id = p.client_id; issuer = p.issuer });
        }

  abbrev http_operation : Option String → Entry → Time → Tick → Option Operation
  http_operation none e started_at t = none
  http_operation (some id) e started_at t = some (new_operation e started_at id t.now)

  -- `newPendingCall` for the principal of the request.
  unfoldable pub new_http_call : Principal → RpcMessage → Time → Tick → HttpCall
  new_http_call p m started_at t = record {
    operation =
        http_operation t.operation_id
          (http_entry p m
            (audit_policy_evidence c (evaluate_http_policy p m.method (metadata_name c m))))
          started_at t;
    started_at = started_at;
    expects_response = not (m.id == "");
  }

  abbrev pub with_started : Option Operation → List Operation → List Operation
  with_started none os = os
  with_started (some o) os = o ∷ os

  abbrev pub begin : HttpCall → HttpState S B → HttpState S B
  begin call s = record s { started = with_started call.operation s.started }

  abbrev pub finalized_by :
      Option Operation
      → String
      → String
      → String
      → Option RpcError
      → Tick
      → HttpState S B
      → HttpState S B
  finalized_by none outcome direction result error t s = s
  finalized_by (some o) outcome direction result error t s = record s {
    world =
        (finalize c.codec c.audit
          (record { outcome = outcome; direction = direction; result = result; error = error })
          t.inputs t.elapsed o s.world).1;
    finalized = (o, outcome) ∷ s.finalized;
  }

  -- `record`; its error is only logged.
  unfoldable pub record_http :
      HttpCall → String → String → String → Option RpcError → Tick → HttpState S B → HttpState S B
  record_http call outcome direction result error t s =
      finalized_by call.operation outcome direction result error t s

  -- The loop over the pending calls: each is finalized and deleted.
  abbrev pub Ending : Type 0
  Ending = HttpCall → String × String

  unfoldable pub finalize_entries :
      Ending → Calls → (ℕ → Tick) → Calls × HttpState S B → Calls × HttpState S B
  finalize_entries ending [] ticks (table, s) = (table, s)
  finalize_entries ending ((id, call) ∷ rest) ticks (table, s) =
      finalize_entries ending rest (λ n. ticks (suc n))
        (delete id table, record_http call (ending call).0 (ending call).1 "" none (ticks 0) s)

  -- `finalizeHTTPPending`.
  abbrev pub ends_with : String → String → Ending
  ends_with outcome direction call = (outcome, direction)

  unfoldable pub finalize_http_pending :
      String → String → (ℕ → Tick) → Calls × HttpState S B → Calls × HttpState S B
  finalize_http_pending outcome direction ticks (table, s) =
      finalize_entries (ends_with outcome direction) table ticks (table, s)

  -- `finalizeHTTPRemainder`, by the status of the response.
  unfoldable pub remainder_ending : ℕ → Ending
  remainder_ending status_code call =
      if leb 400 status_code
      then (upstream_error, direction_server_to_client)
      else if not call.expects_response
      then (success, direction_client_to_server)
      else (malformed_upstream_response, direction_server_to_client)

  unfoldable pub finalize_http_remainder :
      ℕ → (ℕ → Tick) → Calls × HttpState S B → Calls × HttpState S B
  finalize_http_remainder status_code ticks (table, s) =
      finalize_entries (remainder_ending status_code) table ticks (table, s)

  -- An allowed message: a request or a notification waits; a notification without an operation
  -- is dropped.
  abbrev pub notification_kept : Option Operation → HttpCall → Calls → Calls
  notification_kept none call table = table
  notification_kept (some o) call table =
      insert (String.◌++◌ "notification:" o.entry.audit_operation_id) call table

  abbrev pub kept : RpcMessage → HttpCall → Calls → Calls
  kept m call table =
      if not (m.id == "")
      then insert m.id call table
      else notification_kept call.operation call table

  abbrev pub Round : Type 0
  Round = (Calls × HttpState S B) × Option String

  abbrev pub refuse :
      RpcMessage → HttpCall → String → RpcError → Tick → Calls × HttpState S B → Round
  refuse m call outcome error t (table, s) = (
    (table, record_http call outcome direction_client_to_server "" (some error) t s),
    some (build_error_response c m.id error),
  )

  -- The rate limiter's answer.
  abbrev pub limited :
      RpcMessage → HttpCall → Tick → Calls × HttpState S B → Option (RateLimiter B) × Bool → Round
  limited m call t (table, s) (l, true) = ((kept m call table, record s { limiter = l }), none)
  limited m call t (table, s) (l, false) =
      refuse m call rate_limited rate_limit_error t (table, record s { limiter = l })

  abbrev pub decided_http :
      Principal → RpcMessage → Decision → HttpCall → Tick → Calls × HttpState S B → Round
  decided_http p m d call t (table, s) =
      if not d.allowed
      then refuse m call denied (policy_error c d) t (table, s)
      else if m.method == "tools/call"
      then limited m call t (table, s)
          (allow c.buckets s.limiter p.client_id (metadata_name c m) t.now)
      else ((kept m call table, s), none)

  -- One round of the loop of `observeHTTPRequest`.
  unfoldable pub http_message : Principal → Time → RpcMessage → Tick → Calls × HttpState S B → Round
  http_message p started_at m t (table, s) =
      if m.method == ""
      then ((table, s), none)
      else decided_http p m (evaluate_http_policy p m.method (metadata_name c m))
          (new_http_call p m started_at t) t (table, begin (new_http_call p m started_at t) s)

  abbrev pub unless_refused : (Calls × HttpState S B → Round) → Round → Round
  unless_refused next (r, none) = next r
  unless_refused next (r, some reject) = (r, some reject)

  unfoldable pub http_messages :
      Principal → Time → List RpcMessage → (ℕ → Tick) → Calls × HttpState S B → Round
  http_messages p started_at [] ticks r = (r, none)
  http_messages p started_at (m ∷ ms) ticks r =
      unless_refused (http_messages p started_at ms (λ n. ticks (suc n)))
        (http_message p started_at m (ticks 0) r)

  abbrev pub decoded_request :
      Principal → Time → Option (List RpcMessage) → (ℕ → Tick) → HttpState S B → Round
  decoded_request p started_at none ticks s = (([], s), none)
  decoded_request p started_at (some ms) ticks s = http_messages p started_at ms ticks ([], s)

  -- `observeHTTPRequest`: an empty body and a body that does not decode pass.
  unfoldable pub observe_http_request :
      Principal → Time → String → (ℕ → Tick) → HttpState S B → Round
  observe_http_request p started_at raw ticks s =
      if trim_space raw == ""
      then (([], s), none)
      else decoded_request p started_at (decode_messages c raw) ticks s

  abbrev pub response_outcome : ℕ → RpcMessage → String
  response_outcome status_code m =
      if leb 400 status_code then upstream_error else outcome_for_rpc_error c m.error

  abbrev pub answered :
      ℕ → RpcMessage → Option HttpCall → Tick → Calls × HttpState S B → Calls × HttpState S B
  answered status_code m none t r = r
  answered status_code m (some call) t (table, s) = (
    delete m.id table,
    record_http call (response_outcome status_code m) direction_server_to_client m.result m.error t
        s,
  )

  unfoldable pub http_responses :
      ℕ → List RpcMessage → (ℕ → Tick) → Calls × HttpState S B → Calls × HttpState S B
  http_responses status_code [] ticks r = r
  http_responses status_code (m ∷ ms) ticks (table, s) =
      http_responses status_code ms (λ n. ticks (suc n))
        (answered status_code m (lookup m.id table) (ticks 0) (table, s))

  abbrev pub decoded_response :
      ℕ
      → Option (List RpcMessage)
      → (ℕ → Tick)
      → Calls × HttpState S B
      → (Calls × HttpState S B) × Bool
  decoded_response status_code none ticks r = (r, false)
  decoded_response status_code (some ms) ticks r = (http_responses status_code ms ticks r, true)

  abbrev pub is_empty : Calls → Bool
  is_empty [] = true
  is_empty (entry ∷ rest) = false

  -- `observeHTTPResponse`: whether the body could be inspected.
  unfoldable pub observe_http_response :
      ℕ → String → (ℕ → Tick) → Calls × HttpState S B → (Calls × HttpState S B) × Bool
  observe_http_response status_code raw ticks (table, s) =
      if is_empty table || trim_space raw == ""
      then ((table, s), true)
      else decoded_response status_code (decode_messages c raw) ticks (table, s)
