-- ===== src/Http/Guards.antt =====
-- internal/proxy/http.go: what must hold before the upstream server is asked.
use mcp_audit.Base.{
  ℕ, suc, String, true, false, ◌≡◌, ◌≢◌, ◌⊎◌, refl, inl, inr, List, [], ◌∷◌, Option, none, some,
  Result, ok, err, ◌==◌, Bool-cases, All, arith, eq_iff,
}
use mcp_audit.Base.Text.{trim_space}
use mcp_audit.Base.Header.{get}
use mcp_audit.Policy.{Decision}
use mcp_audit.Auth.{Principal, AuthError}
use mcp_audit.Audit.{Time}
use mcp_audit.Stdio.{StdioConfig, Tick, RpcMessage, decode_messages, metadata_name}
use mcp_audit.Mcp.Requests.{InspectError}
use mcp_audit.Http.Hosts.{origin_allowed, host_allowed}
use mcp_audit.Http.Calls.{
  Calls, HttpState, HttpCall, evaluate_http_policy, new_http_call, begin, Round, decided_http,
  http_message, unless_refused, http_messages, observe_http_request,
}
use mcp_audit.Http.Serve.{
  BodyError, body_too_large, body_unreadable, HttpRequest, Exchange, HttpProxy, Served,
  validate_mcp_request, with_calls, validated, with_body, authenticated, serve_http,
}

module _ {S B : Type 0} (c : StdioConfig S B) (principal : Principal) where
  -- A request or notification that the policy allows to this principal.
  abbrev pub Permitted : RpcMessage → Type 0
  Permitted m =
      m.method ≢ "" → (evaluate_http_policy c principal m.method (metadata_name c m)).allowed ≡ true

  decided-allowed :
      (m : RpcMessage) (d : Decision) (call : HttpCall) (t : Tick) (r : Calls × HttpState S B)
      → (decided_http c principal m d call t r).1 ≡ none
      → d.allowed ≡ true
  decided-allowed m d call t r h = elim (Bool-cases d.allowed) [
    | inl given ↦ given
    | inr refused ↦ cc (simp refused at h)
  ]

  http_message-Permitted :
      (started_at : Time) (m : RpcMessage) (t : Tick) (r : Calls × HttpState S B)
      → (http_message c principal started_at m t r).1 ≡ none
      → Permitted m
  unfolding http_message
  http_message-Permitted started_at m t (table, s) h named =
      let shown : (m.method == "") ≡ false = ground (arith, eq_iff m.method "", named) in
      decided-allowed m (evaluate_http_policy c principal m.method (metadata_name c m))
        (new_http_call c principal m started_at t) t
        (table, begin c (new_http_call c principal m started_at t) s) (rw shown at h)

  passed_first :
      (next : Calls × HttpState S B → Round c) (r : Round c)
      → (unless_refused c next r).1 ≡ none
      → (r.1 ≡ none) × ((next r.0).1 ≡ none)
  passed_first next (r, none) h = (refl, h)
  passed_first next (r, some x) h = cc h

  http_messages-Permitted :
      (started_at : Time) (ms : List RpcMessage) (ticks : ℕ → Tick) (r : Calls × HttpState S B)
      → (http_messages c principal started_at ms ticks r).1 ≡ none
      → All Permitted ms
  unfolding http_messages
  http_messages-Permitted started_at [] ticks r h = tt
  http_messages-Permitted started_at (m ∷ ms) ticks r h =
      let later : ℕ → Tick = λ n. ticks (suc n) in
      let first = http_message c principal started_at m (ticks 0) r in
      let (passed, rest) = passed_first (http_messages c principal started_at ms later) first h in
      (
        http_message-Permitted started_at m (ticks 0) r passed,
        http_messages-Permitted started_at ms later first.0 rest,
      )

  -- The messages of a body, if it is not empty and decodes.
  abbrev pub AllPermitted : String → Type 0
  AllPermitted body =
      (ms : List RpcMessage)
      → (trim_space body == "") ≡ false
      → decode_messages c body ≡ some ms
      → All Permitted ms

  observe_http_request-Permitted :
      (started_at : Time) (body : String) (ticks : ℕ → Tick) (s : HttpState S B)
      → (observe_http_request c principal started_at body ticks s).1 ≡ none
      → AllPermitted body
  unfolding observe_http_request
  observe_http_request-Permitted started_at body ticks s h ms shown decoded =
      http_messages-Permitted started_at ms ticks ([], s) (rw (shown, decoded) at h)

module _ {S B F U : Type 0} (p : HttpProxy S B F U) where
  -- All that a request has passed when the upstream server is asked.
  pub record Admitted (x : Exchange) (request : HttpRequest) : Type 0 where
    pub principal : Principal
    pub body : String
    pub hosted : host_allowed p.table p.net p.allowed_hosts request.host ≡ true
    pub near : origin_allowed p.table p.net p.allowed_origins (get "Origin" request.headers) ≡ true
    pub authentic : p.authenticate request ≡ ok (some principal)
    pub read : request.body ≡ ok body
    pub described : validate_mcp_request p request.headers body ≡ none
    pub permitted : AllPermitted p.config principal body

  abbrev Untouched : U → Served S B U → Type 0
  Untouched u served = served.upstream ≡ u

  with_calls-cases :
      (x : Exchange) (request : HttpRequest) (body : String) (u : U)
      (o : (Calls × HttpState S B) × Option String)
      → (o.1 ≡ none) ⊎ Untouched u (with_calls p x request body u o)
  with_calls-cases x request body u (r, none) = inl refl
  with_calls-cases x request body u (r, some reject) = inr refl

  validated-cases :
      (x : Exchange) (request : HttpRequest) (principal : Principal) (body : String)
      (o : Option InspectError) (u : U) (s : HttpState S B)
      → ((o ≡ none) × AllPermitted p.config principal body)
        ⊎ Untouched u (validated p x request principal body o u s)
  validated-cases x request principal body (some e) u s = inr refl
  validated-cases x request principal body none u s =
      let observed = observe_http_request p.config principal x.started_at body x.ticks s in
      elim (with_calls-cases x request body u observed) [
        | inl passed ↦ inl (
          refl,
          observe_http_request-Permitted p.config principal x.started_at body x.ticks s passed,
        )
        | inr same ↦ inr same
      ]

  -- The part of the guards behind the authentication.
  abbrev Read : HttpRequest → Principal → String → Type 0
  Read request principal body =
      (request.body ≡ ok body)
      × (validate_mcp_request p request.headers body ≡ none)
      × AllPermitted p.config principal body

  with_body-cases :
      (x : Exchange) (request : HttpRequest) (principal : Principal) (o : Result BodyError String)
      (u : U) (s : HttpState S B)
      → request.body ≡ o
      → ((body : String) × Read request principal body)
        ⊎ Untouched u (with_body p x request principal o u s)
  with_body-cases x request principal (err body_too_large) u s e = inr refl
  with_body-cases x request principal (err body_unreadable) u s e = inr refl
  with_body-cases x request principal (ok body) u s e =
      elim (validated-cases x request principal body (validate_mcp_request p request.headers body) u
        s) [
          | inl (described, permitted) ↦ inl (body, (e, described, permitted))
          | inr same ↦ inr same
        ]

  authenticated-cases :
      (x : Exchange) (request : HttpRequest) (o : Result AuthError (Option Principal)) (u : U)
      (s : HttpState S B)
      → p.authenticate request ≡ o
      → ((principal : Principal) × (body : String) × (p.authenticate request ≡ ok (some principal))
          × Read request principal body)
        ⊎ Untouched u (authenticated p x request o u s)
  authenticated-cases x request (err e) u s h = inr refl
  authenticated-cases x request (ok none) u s h = inr refl
  authenticated-cases x request (ok (some principal)) u s h =
      elim (with_body-cases x request principal request.body u s refl) [
        | inl (body, read) ↦ inl (principal, body, h, read)
        | inr same ↦ inr same
      ]

  -- The handler leaves the upstream server as it was, or the request has an allowed host, an
  -- allowed origin, a principal, a readable body, metadata headers that agree with it, and, where the
  -- body decodes as messages, only messages that the policy allows to the principal. A body that
  -- does not decode is not tested by the policy.
  pub serve_http-Admitted :
      (x : Exchange) (request : HttpRequest) (u : U) (s : HttpState S B)
      → Admitted x request ⊎ ((serve_http p x request u s).upstream ≡ u)
  unfolding serve_http
  serve_http-Admitted x request u s =
      elim (Bool-cases (host_allowed p.table p.net p.allowed_hosts request.host)) [
        | inr other ↦ rw other (inr refl)
        | inl hosted ↦
            elim (Bool-cases
              (origin_allowed p.table p.net p.allowed_origins (get "Origin" request.headers))) [
                | inr foreign ↦ rw (hosted, foreign) (inr refl)
                | inl near ↦
                    elim (authenticated-cases x request (p.authenticate request) u s refl) [
                      | inr same ↦ rw (hosted, near) (inr same)
                      | inl (principal, body, authentic, (read, described, permitted)) ↦
                          inl (record {
                            principal = principal;
                            body = body;
                            hosted = hosted;
                            near = near;
                            authentic = authentic;
                            read = read;
                            described = described;
                            permitted = permitted;
                          })
                    ]
              ]
      ]
