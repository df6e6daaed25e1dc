-- ===== src/Http/Serve.antt =====
-- internal/proxy/http.go: the handler of one request.
--
-- Parameters of the handler: the authenticator, the JSON decoder, `mime.ParseMediaType`, and
-- `client.Do`, as `send` on a state `U` of the upstream server. What reading and writing give is the
-- record Exchange.
use Prim.Native.Char.{Char}
use mcp_audit.Base.{
  ℕ, negsuc, String, Bool, true, false, not, ◌||◌, List, [], ◌∷◌, Option, none, some, Result, ok,
  err, ◌==◌, if◌then◌else◌, map,
}
use mcp_audit.Base.Text.{to_lower, contains}
use mcp_audit.Base.Header.{Header, get, values}
use mcp_audit.Retry.{Clockwork}
use mcp_audit.Auth.{Principal, AuthError}
use mcp_audit.Audit.{Time, RpcError, direction_client_to_server, direction_server_to_client}
use mcp_audit.Audit.Outcome.{cancelled, client_disconnect}
use mcp_audit.Stdio.{StdioConfig, RpcMessage, Tick, decode_messages}
use mcp_audit.Stdio.Observe.{build_error_response}
use mcp_audit.Mcp.{Message}
use mcp_audit.Mcp.Requests.{
  InspectError, RequestMetadata, Decoder, inspect_request, decode_request, header_method,
  header_name, header_protocol_version,
}
use mcp_audit.Http.Hosts.{Net, origin_allowed, host_allowed}
use mcp_audit.Http.Headers.{copy_header, copy_request_header}
use mcp_audit.Http.Upstream.{
  UpstreamRequest, Response, Failure, other_failure, Reply, Sent, safe_to_retry, join_url_path,
  client_ip, forwarded_for, retry_policy, do_upstream_request,
}
use mcp_audit.Http.Calls.{
  Calls, HttpState, http_failure_outcome, observe_http_request, observe_http_response,
  finalize_http_pending, finalize_http_remainder,
}
use mcp_audit.Http.Stream.{Line, LastLine, Streamed, stream_sse}

-- Why the body could not be read.
pub data BodyError : Type 0 where
  body_too_large body_unreadable : BodyError

pub record HttpRequest : Type 0 where
  pub host : String
  pub method : String
  pub path : String
  pub raw_query : String
  pub remote_addr : String
  pub headers : Header
  pub body : Result BodyError String

-- What happens around the handler: the clock, whether the client's context is cancelled, the
-- response body by lines and as a whole, and whether it can be written to the client.
pub record Exchange : Type 0 where
  pub started_at : Time
  pub ticks : ℕ → Tick
  pub late : ℕ → Tick
  pub left : Bool
  pub lines : List Line
  pub last : LastLine
  pub response_body : Result Failure String
  pub written : Bool

-- What the client gets.
pub data Answer : Type 0 where
  http_error : ℕ → String → Answer
  metadata_error rejected : String → Answer
  streamed : ℕ → Header → List String → Answer
  responded : ℕ → Header → String → Answer
  broken : Answer

pub record HttpProxy (S B F U : Type 0) : Type 0 where
  pub config : StdioConfig S B
  pub table : Char → Char
  pub net : Net
  pub decoder : Decoder
  pub parse_media_type : String → Option String
  pub authenticate : HttpRequest → Result AuthError (Option Principal)
  pub clockwork : Clockwork F
  pub send : UpstreamRequest → U → U × Reply
  pub upstream_host : String
  pub upstream_path : String
  pub forward_headers : List String
  pub allowed_origins : List String
  pub allowed_hosts : List String
  pub max_retries : ℕ
  pub initial_interval_ms : ℕ
  pub max_interval_ms : ℕ

pub record Served (S B U : Type 0) : Type 0 where
  pub answer : Answer
  pub upstream : U
  pub calls : Calls × HttpState S B

-- `hasMCPMetadataHeaders`.
abbrev present : List String → Bool
present [] = false
present (v ∷ vs) = true

unfoldable pub has_mcp_metadata_headers : Header → Bool
has_mcp_metadata_headers h =
    present (values header_method h)
    || present (values header_name h)
    || present (values header_protocol_version h)

abbrev media_is_event_stream : (Char → Char) → String → Option String → Bool
media_is_event_stream table content_type none =
    contains (to_lower table content_type) "text/event-stream"
media_is_event_stream table content_type (some media_type) = media_type == "text/event-stream"

abbrev map_host : Option (String × String) → Option String
map_host none = none
map_host (some (host, port)) = some host

abbrev id_or_null : Result InspectError (List Message) → String
id_or_null (err x) = "null"
id_or_null (ok []) = "null"
id_or_null (ok (m ∷ [])) = if m.id == "" then "null" else m.id
id_or_null (ok (m ∷ n ∷ ms)) = "null"

abbrev methods_of : Option (List RpcMessage) → Option (List String)
methods_of none = none
methods_of (some ms) = some (map (λ m. m.method) ms)

module _ {S B F U : Type 0} (p : HttpProxy S B F U) where
  -- `isEventStream`.
  unfoldable pub is_event_stream : String → Bool
  is_event_stream content_type =
      media_is_event_stream p.table content_type (p.parse_media_type content_type)

  abbrev pub invalid_metadata : RpcError
  invalid_metadata = record {
    code = negsuc 32599;
    message = "invalid MCP request metadata";
    details = "";
  }

  abbrev pub inspection_error : Header → Result InspectError RequestMetadata → Option InspectError
  inspection_error headers (ok meta) = none
  inspection_error headers (err x) = if has_mcp_metadata_headers headers then some x else none

  -- `validateMCPRequest`: without metadata headers every body passes.
  unfoldable pub validate_mcp_request : Header → String → Option InspectError
  validate_mcp_request headers body =
      inspection_error headers (inspect_request p.decoder headers body)

  -- `writeMCPMetadataError`: the answer carries the id of a single message.
  unfoldable pub mcp_metadata_error : String → String
  mcp_metadata_error body =
      build_error_response p.config (id_or_null (decode_request p.decoder body)) invalid_metadata

  -- `newUpstreamRequest` and `targetURL`.
  unfoldable pub new_upstream_request : HttpRequest → String → UpstreamRequest
  new_upstream_request r body = record {
    method = r.method;
    path = join_url_path p.upstream_path r.path;
    raw_query = r.raw_query;
    host = p.upstream_host;
    headers =
        forwarded_for (client_ip r.remote_addr (map_host (p.net.split_host_port r.remote_addr)))
          (copy_request_header p.table p.forward_headers r.headers);
    body = body;
  }

  unfoldable pub ask_upstream : HttpRequest → String → U → Sent U
  ask_upstream r body u =
      do_upstream_request p.clockwork
        (retry_policy p.clockwork p.max_retries p.initial_interval_ms p.max_interval_ms) p.send
        p.max_retries (new_upstream_request r body)
        (safe_to_retry r.method body (methods_of (decode_messages p.config body))) u

  -- The body of a response that is no stream was read and written.
  abbrev pub plain_written : Exchange → Response → String → U → Calls × HttpState S B → Served S B U
  plain_written x response body u calls =
      if not x.written
      then record {
        answer = broken;
        upstream = u;
        calls =
            finalize_http_pending p.config client_disconnect direction_server_to_client x.late
              calls;
      }
      else record {
        answer = responded response.status_code (copy_header p.table response.headers) body;
        upstream = u;
        calls =
            finalize_http_remainder p.config response.status_code x.late
              (observe_http_response p.config response.status_code body x.ticks calls).0;
      }

  -- A failure of the upstream server ends what is pending.
  abbrev pub failed : Exchange → Failure → String → U → Calls × HttpState S B → Served S B U
  failed x failure message u calls = record {
    answer = http_error 502 message;
    upstream = u;
    calls =
        finalize_http_pending p.config (http_failure_outcome x.left failure)
          direction_server_to_client x.late calls;
  }

  abbrev pub plain :
      Exchange → Response → Result Failure String → U → Calls × HttpState S B → Served S B U
  plain x response (err failure) u calls =
      failed x failure "failed to read upstream response" u calls
  plain x response (ok body) u calls = plain_written x response body u calls

  abbrev pub streamed_by : Response → U → Streamed S B → Served S B U
  streamed_by response u s = record {
    answer = streamed response.status_code (copy_header p.table response.headers) s.output;
    upstream = u;
    calls = s.calls;
  }

  abbrev pub with_response : Exchange → Response → U → Calls × HttpState S B → Served S B U
  with_response x response u calls =
      if is_event_stream (get "Content-Type" response.headers)
      then streamed_by response u
          (stream_sse p.config x.left response.status_code x.lines x.last "" calls)
      else plain x response x.response_body u calls

  -- What `doUpstreamRequest` returned; `none` stands for a loop without enough fuel.
  abbrev pub with_result :
      Exchange → Option (Result Failure Response) → U → Calls × HttpState S B → Served S B U
  with_result x none u calls = failed x other_failure "upstream request failed" u calls
  with_result x (some (err failure)) u calls = failed x failure "upstream request failed" u calls
  with_result x (some (ok response)) u calls = with_response x response u calls

  abbrev pub with_sent : Exchange → Sent U → Calls × HttpState S B → Served S B U
  with_sent x s calls = with_result x s.result s.upstream calls

  -- The messages of the body were observed: a rejected one ends the request.
  abbrev pub with_calls :
      Exchange → HttpRequest → String → U → (Calls × HttpState S B) × Option String → Served S B U
  with_calls x r body u (calls, some reject) = record {
    answer = rejected reject;
    upstream = u;
    calls = finalize_http_pending p.config cancelled direction_client_to_server x.late calls;
  }
  with_calls x r body u (calls, none) = with_sent x (ask_upstream r body u) calls

  abbrev pub refused : ℕ → String → U → HttpState S B → Served S B U
  refused status message u s = record {
    answer = http_error status message;
    upstream = u;
    calls = ([], s);
  }

  abbrev pub validated :
      Exchange
      → HttpRequest
      → Principal
      → String
      → Option InspectError
      → U
      → HttpState S B
      → Served S B U
  validated x r principal body (some e) u s = record {
    answer = metadata_error (mcp_metadata_error body);
    upstream = u;
    calls = ([], s);
  }
  validated x r principal body none u s =
      with_calls x r body u (observe_http_request p.config principal x.started_at body x.ticks s)

  abbrev pub with_body :
      Exchange
      → HttpRequest
      → Principal
      → Result BodyError String
      → U
      → HttpState S B
      → Served S B U
  with_body x r principal (err body_too_large) u s = refused 413 "request body is too large" u s
  with_body x r principal (err body_unreadable) u s = refused 400 "failed to read request" u s
  with_body x r principal (ok body) u s =
      validated x r principal body (validate_mcp_request r.headers body) u s

  abbrev pub authenticated :
      Exchange
      → HttpRequest
      → Result AuthError (Option Principal)
      → U
      → HttpState S B
      → Served S B U
  authenticated x r (err e) u s = refused 401 "authentication required" u s
  authenticated x r (ok none) u s = refused 500 "authentication failed" u s
  authenticated x r (ok (some principal)) u s = with_body x r principal r.body u s

  -- `ServeHTTP`.
  unfoldable pub serve_http : Exchange → HttpRequest → U → HttpState S B → Served S B U
  serve_http x r u s =
      if not (host_allowed p.table p.net p.allowed_hosts r.host)
      then refused 403 "host is not allowed" u s
      else if not (origin_allowed p.table p.net p.allowed_origins (get "Origin" r.headers))
      then refused 403 "origin is not allowed" u s
      else authenticated x r (p.authenticate r) u s
