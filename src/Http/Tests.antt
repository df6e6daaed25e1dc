-- ===== src/Http/Tests.antt =====
-- The HTTP proxy on concrete requests, with the policy and the codec of the other tests.
use Prim.Native.Char.{Char}
use mathlib.Core.Path.{subst}
use mcp_audit.Base.{
  ℕ, suc, pos, String, ◌≡◌, ◌⊎◌, ◌↔◌, refl, Bool, true, false, List, [], ◌∷◌, Option, none, some,
  ok, nat_eq, if◌then◌else◌, lookup, All, length,
}
use mcp_audit.Base.Text.{trim_space, to_lower, has_prefix}
use mcp_audit.Base.Scan.{contains_where, count_char, has_suffix, trim_suffix}
use mcp_audit.Base.Header.{Header}
use mcp_audit.Mcp.{name_from_message, request_id}
use mcp_audit.Limit.{allow}
use mcp_audit.Policy.{evaluate, scan, rule_matches, matches, matches_any}
use mcp_audit.Auth.{Principal}
use mcp_audit.Audit.Operation.{Operation}
use mcp_audit.Audit.Operation.Tests.{Disk, world}
use mcp_audit.Stdio.{RpcMessage, decode_messages}
use mcp_audit.Stdio.Tests.{config, ticks}
use mcp_audit.Retry.{RetryPolicy, can_retry, is_retryable, status_code_classifier}
use mcp_audit.Retry.Tests.{whole}
use mcp_audit.Http.Hosts.{Net, normalize_hostname, normalized_allowed_hosts, host_allowed}
use mcp_audit.Http.Headers.{copy_request_header}
use mcp_audit.Http.Access.{Configured, host_allowed_iff}
use mcp_audit.Http.Upstream.{
  UpstreamRequest, Reply, retry_policy, should_retry_upstream, upstream_loop, do_upstream_request,
}
use mcp_audit.Http.Attempts.{Bounded, do_upstream_request-Bounded}
use mcp_audit.Http.Calls.{
  HttpState, new_http_call, evaluate_http_policy, http_message, http_messages,
}
use mcp_audit.Http.Stream.{Line, LastLine, stream_sse}
use mcp_audit.Http.Serve.{HttpRequest, Exchange, HttpProxy, serve_http}
use mcp_audit.Http.Balance.{tally, tally_finalized}
use mcp_audit.Http.Opening.{Unique, with_key, message_key, message_keys}
use mcp_audit.Http.Complete.{DifferentIds, serve_http-all_finalized}
use mcp_audit.Http.Guards.{Admitted, serve_http-Admitted}
use mcp_audit.Http.Passing.{
  AllWritten, before_failure, all_bytes, stream_sse-Passed, MayPass, copy_request_header-Kept,
}

abbrev same : Char → Char
same c = c

abbrev net : Net
net = record { url_parse = λ s. none; split_host_port = λ s. none; is_ip = λ s. false }

abbrev hosts : List String
hosts = "proxy.local" ∷ []

abbrev request : UpstreamRequest
request = record {
  method = "GET";
  path = "/mcp";
  raw_query = "";
  host = "up";
  headers = [];
  body = "";
}

-- A server that counts its requests and is unavailable for the first two of them.
abbrev busy_reply : ℕ → Reply
busy_reply n = record {
  result = ok (record { status_code = if nat_eq n 2 then 200 else 503; headers = [] });
  bytes_read = 0;
  gone = none;
  now = pos 0;
}

abbrev send : UpstreamRequest → ℕ → ℕ × Reply
send q n = (suc n, busy_reply n)

abbrev policy : RetryPolicy ℕ
policy = retry_policy whole 3 200 2000

do_upstream_request-Bounded_example :
    Bounded whole policy send 3 (do_upstream_request whole policy send 3 request true 0)
do_upstream_request-Bounded_example =
    do_upstream_request-Bounded whole policy send 3 request true 0 refl refl

-- Two retries, then a response.
third_time : (do_upstream_request whole policy send 3 request true 0).upstream ≡ 3
unfolding do_upstream_request upstream_loop should_retry_upstream can_retry is_retryable
    status_code_classifier
third_time = refl

one_host : normalized_allowed_hosts same net hosts ≡ ok ("proxy.local" ∷ [])
unfolding normalized_allowed_hosts normalize_hostname trim_space contains_where has_prefix
    count_char has_suffix to_lower trim_suffix
one_host = refl

host_allowed_iff_example :
    (host_allowed same net ("proxy.local" ∷ []) "proxy.local." ≡ true)
    ↔ Configured same net (normalize_hostname same net) hosts "proxy.local."
host_allowed_iff_example = host_allowed_iff same net hosts "proxy.local" [] "proxy.local." one_host

abbrev browser : Header
browser =
    ("Connection", "close" ∷ [])
    ∷ ("Authorization", "Bearer x" ∷ [])
    ∷ ("Accept", "a" ∷ "b" ∷ [])
    ∷ []

copy_request_header-Kept_example :
    All (λ h. MayPass same [] h.0) (copy_request_header same [] browser)
    × ((key : String)
        → MayPass same [] key
        → lookup key (copy_request_header same [] browser) ≡ lookup key browser)
copy_request_header-Kept_example = copy_request_header-Kept same [] browser

abbrev ops : Principal
ops = record { subject = "ops"; client_id = "c1"; issuer = "static"; roles = []; scopes = [] }

abbrev proxy : HttpProxy Disk ℕ ℕ ℕ
proxy = record {
  config = config;
  table = same;
  net = net;
  decoder = record {
    json = config.json;
    unmarshal_revision = λ s. none;
    decode_value = λ s. none;
    unmarshal_items = λ s. none;
    unmarshal_message = λ s. none;
  };
  parse_media_type = λ s. none;
  authenticate = λ r. ok (some ops);
  clockwork = whole;
  send = send;
  upstream_host = "up";
  upstream_path = "";
  forward_headers = [];
  allowed_origins = [];
  allowed_hosts = [];
  max_retries = 0;
  initial_interval_ms = 200;
  max_interval_ms = 2000;
}

-- The body is the name of the tool that the one message of the toy decoder calls.
abbrev asks : String → HttpRequest
asks tool = record {
  host = "proxy.local";
  method = "POST";
  path = "/mcp";
  raw_query = "";
  remote_addr = "10.0.0.1";
  headers = [];
  body = ok tool;
}

abbrev line : String → Bool → Line
line s written = record { bytes = s; written = written; ticks = ticks; late = ticks }

abbrev exchange : Exchange
exchange = record {
  started_at = 90;
  ticks = ticks;
  late = ticks;
  left = false;
  lines = [];
  last = record { line = line "" true; failure = none };
  response_body = ok "ls";
  written = true;
}

abbrev state : HttpState Disk ℕ
state = record { limiter = none; world = world []; started = []; finalized = [] }

abbrev any_operation : Operation → Bool
any_operation o = true

Unique-single : (o : Option String) → Unique (with_key o [])
Unique-single none = tt
Unique-single (some k) = (tt, tt)

one_message :
    (principal : Principal) (body : String)
    → DifferentIds any_operation proxy exchange principal body
unfolding decode_messages
one_message principal body ms h =
    let m : RpcMessage = record {
      id = "1";
      method = "tools/call";
      params = body;
      result = "";
      error = none;
    } in
    let e : m ∷ [] ≡ ms = cc h in
    subst
      (λ t.
        Unique (message_keys any_operation config principal exchange.started_at t exchange.ticks))
      e (Unique-single (message_key any_operation config principal exchange.started_at m (ticks 0)))

serve_http-all_finalized_example :
    let (calls, s) = (serve_http proxy exchange (asks "ls") 0 state).calls in
    (calls ≡ []) × (tally_finalized any_operation s.finalized ≡ tally any_operation s.started)
serve_http-all_finalized_example =
    serve_http-all_finalized any_operation proxy exchange (asks "ls") 0 state
      (λ principal body e e'. one_message principal body) refl

serve_http-Admitted_example :
    Admitted proxy exchange (asks "rm")
    ⊎ ((serve_http proxy exchange (asks "rm") 0 state).upstream ≡ 0)
serve_http-Admitted_example = serve_http-Admitted proxy exchange (asks "rm") 0 state

abbrev events : List Line
events = line "data: x" true ∷ line "\n" false ∷ []

abbrev end : LastLine
end = record { line = line "" true; failure = none }

stream_sse-Passed_example :
    ((stream_sse config false 200 events end "" ([], state)).output ≡ before_failure events end)
    × (AllWritten events end
        → (stream_sse config false 200 events end "" ([], state)).output ≡ all_bytes events end)
stream_sse-Passed_example = stream_sse-Passed config false 200 events end "" ([], state)

abbrev two_calls : List RpcMessage
two_calls =
    record { id = "1"; method = "tools/call"; params = "ls"; result = ""; error = none }
    ∷ record { id = "1"; method = "tools/call"; params = "cat"; result = ""; error = none }
    ∷ []

-- A batch that uses one id twice starts two operations, and only one of them is pending.
one_lost :
    let ((calls, s), reject) = http_messages config ops 90 two_calls ticks ([], state) in
    (length s.started ≡ 2) × (length calls ≡ 1) × (reject ≡ none)
unfolding http_messages http_message evaluate_http_policy new_http_call evaluate scan rule_matches
    matches matches_any trim_space name_from_message request_id allow
one_lost = (refl, refl, refl)
