-- ===== src/Stdio/Tests.antt =====
-- The stdio theorems at a session with a tool call that the policy allows and one that it denies.
use mcp_audit.Base.{
  ℕ, pos, String, ◌≡◌, ◌≢◌, refl, true, false, [], ◌∷◌, ◌++◌, none, some, eq_iff, All, length, List,
}
use mcp_audit.Base.Text.{trim_space}
use mcp_audit.Policy.{Engine, Rule, evaluate, scan, rule_matches, matches, matches_any}
use mcp_audit.Mcp.{name_from_message, request_id}
use mcp_audit.Audit.{direction_server_to_client}
use mcp_audit.Audit.Operation.Tests.{codec, logger, ticket, world, Disk}
use mcp_audit.Limit.{allow}
use mcp_audit.Stdio.{
  decode_messages, StdioConfig, RpcMessage, PendingCall, Tick, evaluate_policy, metadata_name,
  policy_error, new_pending_call,
}
use mcp_audit.Stdio.State.{RpcState, new_rpc_state, remember_client, take_expired, split_expired}
use mcp_audit.Stdio.Observe.{
  Proxy, client_message, client_messages, build_error_response, observe_client_message,
}
use mcp_audit.Stdio.Pipes.{client_pipe, forwarded}
use mcp_audit.Stdio.Guard.{Permitted, forwarded-Permitted, denied-rejects_line}

abbrev deny_rm : Rule
deny_rm = record {
  id = "no-rm";
  subject = "";
  client_id = "";
  issuer = "";
  role = "";
  scope = "";
  server_id = "";
  method = "";
  name = "";
  tool_name = "rm";
  action = "deny";
  reason = "no";
}

abbrev engine : Engine
engine = record {
  enabled = true;
  default_action = "allow";
  scope = "tools_only";
  rules = deny_rm ∷ [];
}

-- The parameters of a call are the bare name of its tool.
abbrev pub config : StdioConfig Disk ℕ
config = record {
  codec = codec;
  audit = logger;
  policy = some engine;
  client_id = "cli";
  server_id = "srv";
  buckets = record { new_limiter = λ n. n; allow_at = λ now b. (b, true) };
  json = record {
    unmarshal_params = λ raw. some (record {
      name = raw;
      tool_name = "";
      uri = "";
      task_id = "";
      ref_name = "";
      ref_uri = "";
    });
    unmarshal_string = λ raw. none;
  };
  unmarshal_single = λ raw.
      some (record { id = "1"; method = "tools/call"; params = raw; result = ""; error = none });
  unmarshal_batch = λ raw. none;
  marshal_decision = λ d. d.reason;
  marshal_response = λ id e. some e.message;
}

abbrev call : String → String → RpcMessage
call id tool = record { id = id; method = "tools/call"; params = tool; result = ""; error = none }

abbrev pub ticks : ℕ → Tick
ticks n = record { operation_id = some "op"; now = 100; inputs = ticket; elapsed = pos 4 }

abbrev proxy : Proxy Disk ℕ
proxy = record { state = new_rpc_state; limiter = none; world = world [] }

forwarded_runs : (client_messages config (call "1" "ls" ∷ []) ticks proxy).1 ≡ none
unfolding client_messages client_message evaluate_policy evaluate scan rule_matches matches
    matches_any trim_space name_from_message allow
forwarded_runs = refl

pipe_runs : (client_pipe config "ls" true ticks ticks proxy).1 ≡ forwarded "ls"
unfolding client_pipe observe_client_message decode_messages client_messages client_message
    evaluate_policy evaluate scan rule_matches matches matches_any trim_space name_from_message
    allow
pipe_runs = refl

forwarded-Permitted_example :
    ◌≡◌ {A = String} "ls" "ls"
    × ((ms : List RpcMessage) → decode_messages config "ls" ≡ some ms → All (Permitted config) ms)
forwarded-Permitted_example = forwarded-Permitted config "ls" true ticks ticks proxy "ls" pipe_runs

method_ne : ◌≢◌ {A = String} "tools/call" ""
method_ne e = cc ((eq_iff "tools/call" "").1 e)

rm_refused : (evaluate_policy config "tools/call" "rm").allowed ≡ false
unfolding evaluate_policy evaluate scan rule_matches matches matches_any trim_space
rm_refused = refl

denied-rejects_line_example :
    let (p', answer) =
      client_messages config (call "1" "ls" ∷ [] ++ call "2" "rm" ∷ []) ticks proxy in
    (p'.state ≡ (client_messages config (call "1" "ls" ∷ []) ticks proxy).0.state)
    × (answer
        ≡ some (
            build_error_response config "2" (
              policy_error config
                (evaluate_policy config "tools/call" (metadata_name config (call "2" "rm"))))))
unfolding name_from_message
denied-rejects_line_example =
    denied-rejects_line config (call "1" "ls" ∷ []) (call "2" "rm") [] ticks proxy forwarded_runs
      method_ne rm_refused

-- The call of the rejected line stays pending.
left_pending :
    length
      (client_messages config
        (call "1" "ls" ∷ call "2" "rm" ∷ [])
        ticks
        proxy).0.state.client_pending
    ≡ 1
unfolding client_messages client_message evaluate_policy evaluate scan rule_matches matches
    matches_any trim_space name_from_message remember_client new_pending_call request_id allow
left_pending = refl

abbrev waiting : ℕ → PendingCall
waiting n = record {
  operation = none;
  started_at = n;
  completion_direction = direction_server_to_client;
}

abbrev busy : RpcState
busy = record { client_pending = ("1", waiting 5) ∷ ("2", waiting 50) ∷ []; server_pending = [] }

first_expires : (take_expired 100 60 busy).1 ≡ waiting 5 ∷ []
unfolding take_expired split_expired
first_expires = refl
