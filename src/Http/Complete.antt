-- ===== src/Http/Complete.antt =====
-- internal/proxy/http.go: no call of a request stays pending, on any path of its handler.
use mathlib.Core.Path.{subst}
use mcp_audit.Base.{
  ℕ, String, Bool, true, false, ◌≡◌, refl, inl, inr, List, [], ◌∷◌, Option, none, some, Result, ok,
  err, ◌==◌, Bool-cases, Distinct, sym, ap, arith,
}
use mcp_audit.Base.Header.{get}
use mcp_audit.Auth.{Principal, AuthError}
use mcp_audit.Audit.{direction_client_to_server, direction_server_to_client}
use mcp_audit.Audit.Outcome.{cancelled, client_disconnect}
use mcp_audit.Audit.Operation.{Operation}
use mcp_audit.Stdio.{StdioConfig, Tick, RpcMessage, decode_messages}
use mcp_audit.Mcp.Requests.{InspectError}
use mcp_audit.Http.Hosts.{origin_allowed, host_allowed}
use mcp_audit.Http.Upstream.{Failure, other_failure, Response}
use mcp_audit.Http.Calls.{
  Calls, HttpState, http_failure_outcome, observe_http_request, observe_http_response,
}
use mcp_audit.Http.Stream.{
  Line, LastLine, trimmed, more_data, inspected, event_ends, event, data_after, ended_by, last_line,
  stream_sse,
}
use mcp_audit.Http.Serve.{
  BodyError, body_too_large, body_unreadable, HttpRequest, Exchange, HttpProxy, is_event_stream,
  validate_mcp_request, ask_upstream, plain_written, plain, with_response, with_result, with_calls,
  validated, with_body, authenticated, serve_http,
}
use mcp_audit.Http.Balance.{
  tally, tally_finalized, tally_calls, Settled, pending-Settled, remainder-Settled, Keeps,
  Keeps-Settled, observe_http_response-Keeps,
}
use mcp_audit.Http.Opening.{Unique, message_keys, observe_http_request-Keeps}

module _ (test : Operation → Bool) {S B : Type 0} (c : StdioConfig S B) where
  Keeps-refl : (r : Calls × HttpState S B) → Distinct r.0 → Keeps test c r r
  Keeps-refl r d = record { distinct = d; balanced = λ b. b }

  Keeps-trans :
      {r r' r'' : Calls × HttpState S B}
      → Keeps test c r r'
      → Keeps test c r' r''
      → Keeps test c r r''
  Keeps-trans k k' = record { distinct = k'.distinct; balanced = λ b. k'.balanced (k.balanced b) }

  Settled-Keeps : {r r' : Calls × HttpState S B} → Settled test c r r' → Keeps test c r r'
  Settled-Keeps s = record {
    distinct = subst Distinct (sym s.gone) tt;
    balanced = λ b. omega (arith, s.balanced b, ap (tally_calls test) s.gone);
  }

  module _ (left : Bool) (status_code : ℕ) where
    inspected-Keeps :
        (late : ℕ → Tick) (r : Calls × HttpState S B) (o : (Calls × HttpState S B) × Bool)
        → Keeps test c r o.0
        → Keeps test c r (inspected c left status_code late o)
    inspected-Keeps late r (r', true) k = k
    inspected-Keeps late r (r', false) k =
        Settled-Keeps
          (Keeps-Settled test c k (remainder-Settled test c status_code late r' k.distinct))

    event-Keeps :
        (l : Line) (text : String) (r : Calls × HttpState S B)
        → Distinct r.0
        → Keeps test c r (event c left status_code l text r)
    unfolding event
    event-Keeps l text r d =
        elim (Bool-cases (event_ends c left status_code (trimmed l.bytes) text)) [
          | inl ends ↦ rw ends (
              inspected-Keeps l.late r (observe_http_response c status_code text l.ticks r)
                (observe_http_response-Keeps test c status_code text l.ticks r d))
          | inr more ↦ rw more (Keeps-refl r d)
        ]

    ended_by-Settled :
        (o : Option Failure) (late : ℕ → Tick) (r : Calls × HttpState S B)
        → Distinct r.0
        → Settled test c r (ended_by c left status_code o late r)
    ended_by-Settled none late r d = remainder-Settled test c status_code late r d
    ended_by-Settled (some x) late r d =
        pending-Settled test c (http_failure_outcome left x) direction_server_to_client late r d

    last_line-Settled :
        (l : LastLine) (text : String) (r : Calls × HttpState S B)
        → Distinct r.0
        → Settled test c r (last_line c left status_code l text r).calls
    unfolding last_line
    last_line-Settled l text r d = elim (Bool-cases (l.line.bytes == "")) [
      | inl empty ↦ simp empty (ended_by-Settled l.failure l.line.late r d)
      | inr full ↦ elim (Bool-cases l.line.written) [
        | inr failed ↦
            simp (full, failed)
              (pending-Settled test c client_disconnect direction_server_to_client l.line.late r d)
        | inl passed ↦
            let more = event-Keeps l.line (more_data text (trimmed l.line.bytes)) r d in
            simp (full, passed)
              (Keeps-Settled test c more (
                ended_by-Settled l.failure l.line.late
                  (event c left status_code l.line (more_data text (trimmed l.line.bytes)) r)
                  more.distinct))
      ]
    ]

    stream_sse-Settled :
        (ls : List Line) (last : LastLine) (text : String) (r : Calls × HttpState S B)
        → Distinct r.0
        → Settled test c r (stream_sse c left status_code ls last text r).calls
    unfolding stream_sse
    stream_sse-Settled [] last text r d = last_line-Settled last text r d
    stream_sse-Settled (l ∷ ls) last text r d = elim (Bool-cases l.written) [
      | inr failed ↦
          simp failed
            (pending-Settled test c client_disconnect direction_server_to_client l.late r d)
      | inl passed ↦
          let text' = more_data text (trimmed l.bytes) in
          let more = event-Keeps l text' r d in
          simp passed (
            Keeps-Settled test c more (
              stream_sse-Settled ls last (data_after c left status_code (trimmed l.bytes) text')
                (event c left status_code l text' r) more.distinct))
    ]

module _ (test : Operation → Bool) {S B F U : Type 0} (p : HttpProxy S B F U) where
  -- The calls `r` are settled in what the handler leaves.
  abbrev Ends : Calls × HttpState S B → Calls × HttpState S B → Type 0
  Ends r r' = Settled test p.config r r'

  plain_written-Settled :
      (x : Exchange) (response : Response) (body : String) (u : U) (r : Calls × HttpState S B)
      → Distinct r.0
      → Ends r (plain_written p x response body u r).calls
  plain_written-Settled x response body u r d = elim (Bool-cases x.written) [
    | inr failed ↦
        simp failed
          (pending-Settled test p.config client_disconnect direction_server_to_client x.late r d)
    | inl passed ↦
        let k = observe_http_response-Keeps test p.config response.status_code body x.ticks r d in
        simp passed (
          Keeps-Settled test p.config k (
            remainder-Settled test p.config response.status_code x.late
              (observe_http_response p.config response.status_code body x.ticks r).0 k.distinct))
  ]

  plain-Settled :
      (x : Exchange) (response : Response) (o : Result Failure String) (u : U)
      (r : Calls × HttpState S B)
      → Distinct r.0
      → Ends r (plain p x response o u r).calls
  plain-Settled x response (err failure) u r d =
      pending-Settled test p.config (http_failure_outcome x.left failure) direction_server_to_client
        x.late r d
  plain-Settled x response (ok body) u r d = plain_written-Settled x response body u r d

  with_response-Settled :
      (x : Exchange) (response : Response) (u : U) (r : Calls × HttpState S B)
      → Distinct r.0
      → Ends r (with_response p x response u r).calls
  with_response-Settled x response u r d =
      elim (Bool-cases (is_event_stream p (get "Content-Type" response.headers))) [
        | inl events ↦
            rw events
              (stream_sse-Settled test p.config x.left response.status_code x.lines x.last "" r d)
        | inr whole ↦ rw whole (plain-Settled x response x.response_body u r d)
      ]

  with_result-Settled :
      (x : Exchange) (o : Option (Result Failure Response)) (u : U) (r : Calls × HttpState S B)
      → Distinct r.0
      → Ends r (with_result p x o u r).calls
  with_result-Settled x none u r d =
      pending-Settled test p.config (http_failure_outcome x.left other_failure)
        direction_server_to_client x.late r d
  with_result-Settled x (some (err failure)) u r d =
      pending-Settled test p.config (http_failure_outcome x.left failure) direction_server_to_client
        x.late r d
  with_result-Settled x (some (ok response)) u r d = with_response-Settled x response u r d

  with_calls-Settled :
      (x : Exchange) (request : HttpRequest) (body : String) (u : U)
      (o : (Calls × HttpState S B) × Option String)
      → Distinct o.0.0
      → Ends o.0 (with_calls p x request body u o).calls
  with_calls-Settled x request body u (r, some reject) d =
      pending-Settled test p.config cancelled direction_client_to_server x.late r d
  with_calls-Settled x request body u (r, none) d =
      let sent = ask_upstream p request body u in
      with_result-Settled x sent.result sent.upstream r d

  -- The ids that a body gives to its calls are different.
  abbrev pub DifferentIds : Exchange → Principal → String → Type 0
  DifferentIds x principal body =
      (ms : List RpcMessage)
      → decode_messages p.config body ≡ some ms
      → Unique (message_keys test p.config principal x.started_at ms x.ticks)

  refused-Settled : (s : HttpState S B) → Ends ([], s) ([], s)
  refused-Settled s = record { gone = refl; balanced = λ b. omega (arith, b) }

  validated-Settled :
      (x : Exchange) (request : HttpRequest) (principal : Principal) (body : String)
      (o : Option InspectError) (u : U) (s : HttpState S B)
      → DifferentIds x principal body
      → Ends ([], s) (validated p x request principal body o u s).calls
  validated-Settled x request principal body (some e) u s h = refused-Settled s
  validated-Settled x request principal body none u s h =
      let k = observe_http_request-Keeps test p.config principal x.started_at body x.ticks s h in
      Keeps-Settled test p.config k (
        with_calls-Settled x request body u
          (observe_http_request p.config principal x.started_at body x.ticks s) k.distinct)

  with_body-Settled :
      (x : Exchange) (request : HttpRequest) (principal : Principal) (o : Result BodyError String)
      (u : U) (s : HttpState S B)
      → ((body : String) → o ≡ ok body → DifferentIds x principal body)
      → Ends ([], s) (with_body p x request principal o u s).calls
  with_body-Settled x request principal (err body_too_large) u s h = refused-Settled s
  with_body-Settled x request principal (err body_unreadable) u s h = refused-Settled s
  with_body-Settled x request principal (ok body) u s h =
      validated-Settled x request principal body (validate_mcp_request p request.headers body) u s
        (h body refl)

  authenticated-Settled :
      (x : Exchange) (request : HttpRequest) (o : Result AuthError (Option Principal)) (u : U)
      (s : HttpState S B)
      → ((principal : Principal) (body : String)
          → o ≡ ok (some principal)
          → request.body ≡ ok body
          → DifferentIds x principal body)
      → Ends ([], s) (authenticated p x request o u s).calls
  authenticated-Settled x request (err e) u s h = refused-Settled s
  authenticated-Settled x request (ok none) u s h = refused-Settled s
  authenticated-Settled x request (ok (some principal)) u s h =
      with_body-Settled x request principal request.body u s (λ body e. h principal body refl e)

  -- When the handler returns, on every path, no call of the request is pending, and the operations
  -- that were started are those that were finalized, each as often. The messages of the body must
  -- have different ids.
  pub serve_http-all_finalized :
      (x : Exchange) (request : HttpRequest) (u : U) (s : HttpState S B)
      → ((principal : Principal) (body : String)
          → p.authenticate request ≡ ok (some principal)
          → request.body ≡ ok body
          → DifferentIds x principal body)
      → tally_finalized test s.finalized ≡ tally test s.started
      → let (calls, s') = (serve_http p x request u s).calls in
        (calls ≡ []) × (tally_finalized test s'.finalized ≡ tally test s'.started)
  unfolding serve_http
  serve_http-all_finalized x request u s h b =
      let e : Ends ([], s) (serve_http p x request u s).calls =
        elim (Bool-cases (host_allowed p.table p.net p.allowed_hosts request.host)) [
          | inr other ↦ rw other (refused-Settled s)
          | inl hosted ↦
              elim (Bool-cases
                (origin_allowed p.table p.net p.allowed_origins (get "Origin" request.headers))) [
                  | inr foreign ↦ rw (hosted, foreign) (refused-Settled s)
                  | inl near ↦
                      rw (hosted, near)
                        (authenticated-Settled x request (p.authenticate request) u s h)
                ]
        ] in
      (e.gone, e.balanced (omega (arith, b)))
