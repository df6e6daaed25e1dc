-- ===== src/Stdio/Observe.antt =====
-- internal/proxy/stdio.go: the two observers of messages, and the finalization of pending calls.
use mcp_audit.Base.{
  ℕ, suc, negsuc, String, Bool, true, false, not, List, [], ◌∷◌, Option, none, some, ◌==◌,
  if◌then◌else◌,
}
use mcp_audit.Policy.{Decision}
use mcp_audit.Audit.{RpcError, direction_client_to_server, direction_server_to_client}
use mcp_audit.Audit.Outcome.{timeout, success, denied, rate_limited, malformed_upstream_response}
use mcp_audit.Audit.Logger.{World}
use mcp_audit.Limit.{RateLimiter, allow}
use mcp_audit.Stdio.{
  StdioConfig, RpcMessage, PendingCall, Tick, decode_messages, evaluate_policy, policy_error,
  audit_policy_evidence, outcome_for_rpc_error, metadata_name, new_pending_call, record_call,
}
use mcp_audit.Stdio.State.{
  RpcState, remember_client, remember_server, take_client, take_server, take_clients, take_all,
  take_expired,
}

-- The parts of the proxy that change.
pub record Proxy (S B : Type 0) : Type 0 where
  pub state : RpcState
  pub limiter : Option (RateLimiter B)
  pub world : World S

-- The answer that `buildErrorResponse` gives where the response cannot be marshalled.
abbrev pub fallback_response : String
fallback_response =
    "{\"jsonrpc\":\"2.0\",\"id\":null,\"error\":{\"code\":-32029,\"message\":\"rate limit exceeded\"}}"

abbrev pub or_fallback : Option String → String
or_fallback none = fallback_response
or_fallback (some out) = out

abbrev pub rate_limit_error : RpcError
rate_limit_error = record { code = negsuc 32028; message = "rate limit exceeded"; details = "" }

module _ {S B : Type 0} (c : StdioConfig S B) where
  unfoldable pub build_error_response : String → RpcError → String
  build_error_response id e = or_fallback (c.marshal_response id e)

  abbrev pub recorded :
      PendingCall → String → String → String → Option RpcError → Tick → Proxy S B → Proxy S B
  recorded call outcome direction result error t p = record p {
    world = record_call c call outcome direction result error t p.world;
  }

  -- `finalizeCalls`, with a tick for each call.
  unfoldable pub finalize_calls : List PendingCall → String → (ℕ → Tick) → Proxy S B → Proxy S B
  finalize_calls [] outcome ticks p = p
  finalize_calls (call ∷ calls) outcome ticks p =
      finalize_calls calls outcome (λ n. ticks (suc n))
        (recorded call outcome call.completion_direction "" none (ticks 0) p)

  -- An allowed message of the client: a request waits for its response, a notification is done.
  abbrev pub accept_client : RpcMessage → PendingCall → Tick → Proxy S B → Proxy S B
  accept_client m call t p =
      if not (m.id == "")
      then record p { state = remember_client m.id call p.state }
      else recorded call success direction_client_to_server "" none t p

  -- The rate limiter's answer.
  abbrev pub limit_client :
      RpcMessage
      → PendingCall
      → Tick
      → Proxy S B
      → Option (RateLimiter B) × Bool
      → Proxy S B × Option String
  limit_client m call t p (l, true) = (accept_client m call t (record p { limiter = l }), none)
  limit_client m call t p (l, false) = (
    recorded call rate_limited direction_client_to_server "" (some rate_limit_error) t
        (record p { limiter = l }),
    some (build_error_response m.id rate_limit_error),
  )

  abbrev pub decided_client :
      RpcMessage → Decision → PendingCall → Tick → Proxy S B → Proxy S B × Option String
  decided_client m d call t p =
      if not d.allowed
      then (
        recorded call denied direction_client_to_server "" (some (policy_error c d)) t p,
        some (build_error_response m.id (policy_error c d)),
      )
      else if m.method == "tools/call"
      then limit_client m call t p (allow c.buckets p.limiter c.client_id (metadata_name c m) t.now)
      else (accept_client m call t p, none)

  abbrev pub answered_client :
      RpcMessage → Tick → Proxy S B → RpcState × Option PendingCall → Proxy S B
  answered_client m t p (s, none) = record p { state = s }
  answered_client m t p (s, some call) =
      recorded call (outcome_for_rpc_error c m.error) direction_client_to_server m.result m.error t
        (record p { state = s })

  -- One round of the loop of `observeClientMessage`.
  unfoldable pub client_message : RpcMessage → Tick → Proxy S B → Proxy S B × Option String
  client_message m t p =
      if not (m.method == "")
      then (let d = evaluate_policy c m.method (metadata_name c m) in
          decided_client m d
            (new_pending_call c m direction_server_to_client t (audit_policy_evidence c d)) t p)
      else if not (m.id == "")
      then (answered_client m t p (take_server m.id p.state), none)
      else (p, none)

  abbrev pub unless_rejected :
      (Proxy S B → Proxy S B × Option String)
      → Proxy S B × Option String
      → Proxy S B × Option String
  unless_rejected next (p, none) = next p
  unless_rejected next (p, some reject) = (p, some reject)

  -- The loop: a rejected message ends it.
  unfoldable pub client_messages :
      List RpcMessage → (ℕ → Tick) → Proxy S B → Proxy S B × Option String
  client_messages [] ticks p = (p, none)
  client_messages (m ∷ ms) ticks p =
      unless_rejected (client_messages ms (λ n. ticks (suc n))) (client_message m (ticks 0) p)

  -- `observeClientMessage`: a line that does not decode is forwarded. A line is forwarded exactly
  -- when nothing is rejected.
  abbrev pub observe_client_decoded :
      Option (List RpcMessage) → (ℕ → Tick) → Proxy S B → Proxy S B × Option String
  observe_client_decoded none ticks p = (p, none)
  observe_client_decoded (some ms) ticks p = client_messages ms ticks p

  unfoldable pub observe_client_message :
      String → (ℕ → Tick) → Proxy S B → Proxy S B × Option String
  observe_client_message raw ticks p = observe_client_decoded (decode_messages c raw) ticks p

  abbrev pub answered_server :
      RpcMessage → Tick → Proxy S B → RpcState × Option PendingCall → Proxy S B
  answered_server m t p (s, none) = record p { state = s }
  answered_server m t p (s, some call) =
      recorded call (outcome_for_rpc_error c m.error) direction_server_to_client m.result m.error t
        (record p { state = s })

  abbrev pub accept_server : RpcMessage → PendingCall → Tick → Proxy S B → Proxy S B
  accept_server m call t p =
      if not (m.id == "")
      then record p { state = remember_server m.id call p.state }
      else recorded call success direction_server_to_client "" none t p

  -- One round of the loop of `observeServerMessage`.
  unfoldable pub server_message : RpcMessage → Tick → Proxy S B → Proxy S B
  server_message m t p =
      if not (m.method == "")
      then accept_server m (new_pending_call c m direction_client_to_server t none) t p
      else if not (m.id == "")
      then answered_server m t p (take_client m.id p.state)
      else p

  unfoldable pub server_messages : List RpcMessage → (ℕ → Tick) → Proxy S B → Proxy S B
  server_messages [] ticks p = p
  server_messages (m ∷ ms) ticks p =
      server_messages ms (λ n. ticks (suc n)) (server_message m (ticks 0) p)

  abbrev pub finalize_taken :
      String → (ℕ → Tick) → Proxy S B → RpcState × List PendingCall → Proxy S B
  finalize_taken outcome ticks p (s, calls) =
      finalize_calls calls outcome ticks (record p { state = s })

  abbrev pub observe_server_decoded : Option (List RpcMessage) → (ℕ → Tick) → Proxy S B → Proxy S B
  observe_server_decoded none ticks p =
      finalize_taken malformed_upstream_response ticks p (take_clients p.state)
  observe_server_decoded (some ms) ticks p = server_messages ms ticks p

  -- `observeServerMessage`.
  unfoldable pub observe_server_message : String → (ℕ → Tick) → Proxy S B → Proxy S B
  observe_server_message raw ticks p = observe_server_decoded (decode_messages c raw) ticks p

  -- `finalizeAll`, and a tick of the cleanup loop.
  unfoldable pub finalize_all : String → (ℕ → Tick) → Proxy S B → Proxy S B
  finalize_all outcome ticks p = finalize_taken outcome ticks p (take_all p.state)

  unfoldable pub cleanup : ℕ → ℕ → (ℕ → Tick) → Proxy S B → Proxy S B
  cleanup now ttl ticks p = finalize_taken timeout ticks p (take_expired now ttl p.state)
