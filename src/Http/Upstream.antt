-- ===== src/Http/Upstream.antt =====
-- internal/proxy/http.go: the requests to the upstream server and their retries.
--
-- `client.Do` is the parameter `send`: what the upstream server, the network and the transport do
-- with one request. `U` is their state.
use Prim.Native.String
use mcp_audit.Base.{
  wrap_int64, ℕ, zero, suc, ◌*◌, ℤ, pos, is_positive, String, Bool, true, false, not, ◌&&◌, ◌||◌,
  List, [], ◌∷◌, Option, none, some, Result, ok, err, ◌==◌, if◌then◌else◌, nat_eq, all,
}
use mcp_audit.Base.Text.{trim_space}
use mcp_audit.Base.Scan.{trim_left_where, trim_right_where}
use mcp_audit.Base.Header.{Header, get, set}
use mcp_audit.Retry.{
  Clockwork, RetryPolicy, status_code_classifier, can_retry, delay, parse_retry_after,
}
use mcp_audit.Http.Headers.{is_in}

pub record UpstreamRequest : Type 0 where
  pub method : String
  pub path : String
  pub raw_query : String
  pub host : String
  pub headers : Header
  pub body : String

pub record Response : Type 0 where
  pub status_code : ℕ
  pub headers : Header

-- Why a request failed, as far as the proxy tells these apart.
pub data Failure : Type 0 where
  deadline_exceeded canceled other_failure : Failure

-- What `Do` gives, how much of the body was read before, whether the client is gone before the wait
-- for the next attempt ends, and the time then.
pub record Reply : Type 0 where
  pub result : Result Failure Response
  pub bytes_read : ℕ
  pub gone : Option Failure
  pub now : ℤ

abbrev pub safe_methods : List String
safe_methods =
    "initialize" ∷ "ping" ∷ "tools/list" ∷ "resources/list" ∷ "resources/read"
    ∷ "resources/templates/list" ∷ "prompts/list" ∷ "prompts/get" ∷ "completion/complete" ∷ []

-- `safeJSONRPCMethod`.
unfoldable pub safe_json_rpc_method : String → Bool
safe_json_rpc_method method = is_in method safe_methods

abbrev pub all_safe : Option (List String) → Bool
all_safe none = false
all_safe (some []) = false
all_safe (some (m ∷ ms)) = all safe_json_rpc_method (m ∷ ms)

-- `safeToRetry`, by the methods of the messages in the body, none where it does not decode.
unfoldable pub safe_to_retry : String → String → Option (List String) → Bool
safe_to_retry method body methods =
    if method == "GET" || method == "HEAD" || method == "OPTIONS"
    then true
    else if not (method == "POST") || trim_space body == ""
    then false
    else all_safe methods

abbrev pub is_slash : ℕ → Bool
is_slash c = nat_eq c b'/'

-- `joinURLPath`.
unfoldable pub join_url_path : String → String → String
join_url_path base_path request_path =
    if base_path == "" || base_path == "/"
    then request_path
    else String.◌++◌ (trim_right_where is_slash base_path)
        (String.◌++◌ "/" (trim_left_where is_slash request_path))

-- `clientIP`, by the host that `net.SplitHostPort` finds.
abbrev pub client_ip : String → Option String → String
client_ip remote_addr none = remote_addr
client_ip remote_addr (some host) = host

abbrev pub forwarded_for : String → Header → Header
forwarded_for ip h =
    if ip == ""
    then h
    else if get "X-Forwarded-For" h == ""
    then set "X-Forwarded-For" ip h
    else set "X-Forwarded-For" (String.◌++◌ (get "X-Forwarded-For" h) (String.◌++◌ ", " ip)) h

-- The status of a response, 0 where there is none.
abbrev pub status_of : Result Failure Response → ℕ
status_of (ok r) = r.status_code
status_of (err x) = 0

abbrev pub has_failed : Result Failure Response → Bool
has_failed (ok r) = false
has_failed (err x) = true

-- `responseRetryAfter`.
abbrev pub response_retry_after : {F : Type 0} → Clockwork F → ℤ → Result Failure Response → ℤ
response_retry_after c now (ok r) = parse_retry_after c (get "Retry-After" r.headers) now
response_retry_after c now (err x) = pos 0

-- `upstreamRetryReason`: the network, or a status.
pub data RetryReason : Type 0 where
  network : RetryReason
  status : ℕ → RetryReason

abbrev pub upstream_retry_reason : Result Failure Response → RetryReason
upstream_retry_reason (ok r) = status r.status_code
upstream_retry_reason (err x) = network

-- `retryPolicy`, by the configuration in milliseconds; a duration is an int64.
abbrev pub milliseconds : ℕ → ℤ
milliseconds n = wrap_int64 (n * 1000000)

abbrev pub retry_policy : {F : Type 0} → Clockwork F → ℕ → ℕ → ℕ → RetryPolicy F
retry_policy c max_retries initial_interval_ms max_interval_ms = record {
  max_retries = pos max_retries;
  initial_interval = milliseconds initial_interval_ms;
  max_interval = milliseconds max_interval_ms;
  multiplier = c.two;
  should_retry = some (status_code_classifier (429 ∷ 503 ∷ []));
}

-- What `doUpstreamRequest` returns, with the reasons of its retries and the delays before them.
pub record Sent (U : Type 0) : Type 0 where
  pub upstream : U
  pub result : Option (Result Failure Response)
  pub reasons : List RetryReason
  pub delays : List ℤ

module _ {F U : Type 0} (c : Clockwork F) (p : RetryPolicy F)
    (send : UpstreamRequest → U → U × Reply) where
  -- `shouldRetryUpstream`.
  unfoldable pub should_retry_upstream : ℕ → Bool → Reply → Bool
  should_retry_upstream attempt safe reply =
      if not safe
      then false
      else if has_failed reply.result && not (nat_eq reply.bytes_read 0)
      then false
      else can_retry c p attempt (status_of reply.result) (has_failed reply.result)

  abbrev pub wait_of : ℕ → Reply → ℤ
  wait_of backoff_attempt reply =
      let d = delay c p backoff_attempt (response_retry_after c reply.now reply.result) in
      if is_positive d then d else p.initial_interval

  abbrev pub next_backoff : ℕ → Reply → ℕ
  next_backoff backoff_attempt reply =
      if is_positive (response_retry_after c reply.now reply.result)
      then backoff_attempt
      else suc backoff_attempt

  abbrev pub ended : U → Result Failure Response → Sent U
  ended u r = record { upstream = u; result = some r; reasons = []; delays = [] }

  abbrev pub retried : RetryReason → ℤ → Sent U → Sent U
  retried reason d s = record s { reasons = reason ∷ s.reasons; delays = d ∷ s.delays }

  -- The wait before the next attempt: the client may leave first.
  abbrev pub waited : (U → Sent U) → Option Failure → U → Sent U
  waited again none u = again u
  waited again (some x) u = ended u (err x)

  abbrev pub decided : (ℕ → U → Sent U) → ℕ → ℕ → Bool → U × Reply → Sent U
  decided again attempt backoff_attempt safe (u, reply) =
      if should_retry_upstream attempt safe reply
      then retried (upstream_retry_reason reply.result) (wait_of backoff_attempt reply)
          (waited (again (next_backoff backoff_attempt reply)) reply.gone u)
      else ended u reply.result

  -- The loop of `doUpstreamRequest` on fuel.
  unfoldable pub upstream_loop : ℕ → UpstreamRequest → Bool → ℕ → ℕ → U → Sent U
  upstream_loop zero request safe attempt backoff_attempt u = record {
    upstream = u;
    result = none;
    reasons = [];
    delays = [];
  }
  upstream_loop (suc fuel) request safe attempt backoff_attempt u =
      decided (upstream_loop fuel request safe (suc attempt)) attempt backoff_attempt safe
        (send request u)

  -- `doUpstreamRequest`: the number of retries and one attempt more is enough fuel.
  unfoldable pub do_upstream_request : ℕ → UpstreamRequest → Bool → U → Sent U
  do_upstream_request max_retries request safe u =
      upstream_loop (suc max_retries) request safe 0 0 u
