-- ===== src/Http/Opening.antt =====
-- internal/proxy/http.go, observeHTTPRequest: the calls that a body opens.
use Prim.Native.String
use mcp_audit.Base.{
  ℕ, suc, ◌+◌, String, Bool, true, false, not, ◌≡◌, ◌≢◌, refl, ap, ◌∙◌, inl, inr, List, [], ◌∷◌,
  Option, none, some, ◌==◌, if◌then◌else◌, Bool-cases, arith, text_cases, lookup, insert, Distinct,
  Distinct-insert, lookup-insert, All,
}
use mcp_audit.Base.Text.{trim_space}
use mcp_audit.Policy.{Decision}
use mcp_audit.Auth.{Principal}
use mcp_audit.Audit.{Time, RpcError, direction_client_to_server}
use mcp_audit.Audit.Outcome.{denied, rate_limited}
use mcp_audit.Audit.Operation.{Operation}
use mcp_audit.Limit.{RateLimiter, allow}
use mcp_audit.Stdio.{StdioConfig, Tick, RpcMessage, decode_messages, metadata_name, policy_error}
use mcp_audit.Stdio.Observe.{rate_limit_error}
use mcp_audit.Http.Calls.{
  HttpCall, Calls, HttpState, evaluate_http_policy, new_http_call, begin, with_started,
  notification_kept, kept, Round, refuse, limited, decided_http, http_message, unless_refused,
  http_messages, decoded_request, observe_http_request,
}
use mcp_audit.Http.Balance.{
  tally_option, tally, tally_calls, tally_finalized, tally_calls-insert, Balanced,
  record_http-tally, Keeps,
}

abbrev pub notification_key : Option Operation → Option String
notification_key none = none
notification_key (some o) = some (String.◌++◌ "notification:" o.entry.audit_operation_id)

-- The key under which an allowed message waits.
abbrev pub kept_key : RpcMessage → HttpCall → Option String
kept_key m call = if not (m.id == "") then some m.id else notification_key call.operation

abbrev pub with_key : Option String → List String → List String
with_key none keys = keys
with_key (some k) keys = k ∷ keys

-- The keys of a batch, and that none stands twice.
abbrev pub Unique : List String → Type 0
Unique [] = Unit
Unique (k ∷ ks) = All (λ j. k ≢ j) ks × Unique ks

abbrev pub Free : Calls → List String → Type 0
Free table ks = All (λ k. lookup k table ≡ none) ks

Free-insert :
    (id : String) (call : HttpCall) (table : Calls) (ks : List String)
    → All (λ j. id ≢ j) ks
    → Free table ks
    → Free (insert id call table) ks
Free-insert id call table [] n f = tt
Free-insert id call table (k ∷ ks) (n, ns) (f, fs) = (
  lookup-insert id k call table
      ∙ (elim (text_cases id k) [ inl (_, same) ↦ absurd (n same) | inr (shown, _) ↦ rw shown f ]),
  Free-insert id call table ks ns fs,
)

Free-empty : (ks : List String) → Free [] ks
Free-empty [] = tt
Free-empty (k ∷ ks) = (refl, Free-empty ks)

-- What an insertion under a fresh key gives, or a message without a key.
record Opened (test : Operation → Bool) (ks : List String) (call : HttpCall) (table table' : Calls)
    : Type 0 where
  distinct : Distinct table'
  count : tally_calls test table' ≡ tally_option test call.operation + tally_calls test table
  free : Free table' ks

module _ (test : Operation → Bool) {S B : Type 0} (c : StdioConfig S B) where
  insert-Opened :
      (id : String) (call : HttpCall) (table : Calls) (ks : List String)
      → Unique (id ∷ ks)
      → Free table (id ∷ ks)
      → Distinct table
      → Opened test ks call table (insert id call table)
  insert-Opened id call table ks (n, u) (f, fs) d = record {
    distinct = Distinct-insert id call table d;
    count = tally_calls-insert test id call table f;
    free = Free-insert id call table ks n fs;
  }

  notification-Opened :
      (o : Option Operation) (call : HttpCall) (table : Calls) (ks : List String)
      → call.operation ≡ o
      → Unique (with_key (notification_key o) ks)
      → Free table (with_key (notification_key o) ks)
      → Distinct table
      → Opened test ks call table (notification_kept c o call table)
  notification-Opened none call table ks e u f d = record {
    distinct = d;
    count = omega (arith, ap (tally_option test) e);
    free = f;
  }
  notification-Opened (some o) call table ks e u f d =
      insert-Opened (String.◌++◌ "notification:" o.entry.audit_operation_id) call table ks u f d

  kept-Opened :
      (m : RpcMessage) (call : HttpCall) (table : Calls) (ks : List String)
      → Unique (with_key (kept_key m call) ks)
      → Free table (with_key (kept_key m call) ks)
      → Distinct table
      → Opened test ks call table (kept c m call table)
  kept-Opened m call table ks u f d = elim (Bool-cases (m.id == "")) [
    | inr shown ↦ rw shown (insert-Opened m.id call table ks (rw shown at u) (rw shown at f) d)
    | inl blank ↦
        rw blank
          (notification-Opened call.operation call table ks refl (rw blank at u) (rw blank at f) d)
  ]

  -- A round that begins with a call of its own: what it keeps, and, unless it refuses, that the
  -- other keys stay free.
  record Began (ks : List String) (table : Calls) (s : HttpState S B) (r : Round c) : Type 0 where
    distinct : Distinct r.0.0
    balanced : Balanced test c table s → Balanced test c r.0.0 r.0.1
    free : r.1 ≡ none → Free r.0.0 ks

  begin-count :
      (o : Option Operation) (os : List Operation)
      → tally test (with_started c o os) ≡ tally_option test o + tally test os
  begin-count none os = omega arith
  begin-count (some o) os = refl

  refuse-Began :
      (m : RpcMessage) (call : HttpCall) (outcome : String) (error : RpcError) (t : Tick)
      (ks : List String) (table : Calls) (s s' : HttpState S B)
      → s'.finalized ≡ s.finalized
      → s'.started ≡ with_started c call.operation s.started
      → Distinct table
      → Began ks table s (refuse c m call outcome error t (table, s'))
  refuse-Began m call outcome error t ks table s s' e e' d =
      let (more, same) =
        record_http-tally test c call outcome direction_client_to_server "" (some error) t s' in
      let began = begin-count call.operation s.started in
      record {
        distinct = d;
        balanced = λ b. omega (
          arith,
          more,
          ap (tally test) same,
          ap (tally_finalized test) e,
          ap (tally test) e',
          began,
          b,
        );
        free = λ h. cc h;
      }

  accepted-Began :
      (m : RpcMessage) (call : HttpCall) (ks : List String) (table : Calls) (s s' : HttpState S B)
      → s'.finalized ≡ s.finalized
      → s'.started ≡ with_started c call.operation s.started
      → Unique (with_key (kept_key m call) ks)
      → Free table (with_key (kept_key m call) ks)
      → Distinct table
      → Began ks table s ((kept c m call table, s'), none)
  accepted-Began m call ks table s s' e e' u f d =
      let opened = kept-Opened m call table ks u f d in
      let began = begin-count call.operation s.started in
      record {
        distinct = opened.distinct;
        balanced = λ b.
            omega (arith, opened.count, ap (tally_finalized test) e, ap (tally test) e', began, b);
        free = λ _. opened.free;
      }

  limited-Began :
      (m : RpcMessage) (call : HttpCall) (t : Tick) (ks : List String) (table : Calls)
      (s : HttpState S B) (r : Option (RateLimiter B) × Bool)
      → Unique (with_key (kept_key m call) ks)
      → Free table (with_key (kept_key m call) ks)
      → Distinct table
      → Began ks table s (limited c m call t (table, begin c call s) r)
  limited-Began m call t ks table s (l, true) u f d =
      accepted-Began m call ks table s (record (begin c call s) { limiter = l }) refl refl u f d
  limited-Began m call t ks table s (l, false) u f d =
      refuse-Began m call rate_limited rate_limit_error t ks table s
        (record (begin c call s) { limiter = l }) refl refl d

  decided_http-Began :
      (p : Principal) (m : RpcMessage) (x : Decision) (call : HttpCall) (t : Tick)
      (ks : List String) (table : Calls) (s : HttpState S B)
      → Unique (with_key (kept_key m call) ks)
      → Free table (with_key (kept_key m call) ks)
      → Distinct table
      → Began ks table s (decided_http c p m x call t (table, begin c call s))
  decided_http-Began p m x call t ks table s u f d = elim (Bool-cases x.allowed) [
    | inr refused ↦
        simp refused
          (refuse-Began m call denied (policy_error c x) t ks table s (begin c call s) refl refl d)
    | inl given ↦ elim (Bool-cases (m.method == "tools/call")) [
      | inl tool ↦
          rw (given, tool)
            (limited-Began m call t ks table s
              (allow c.buckets s.limiter p.client_id (metadata_name c m) t.now) u f d)
      | inr other ↦
          rw (given, other) (accepted-Began m call ks table s (begin c call s) refl refl u f d)
    ]
  ]

  module _ (p : Principal) (started_at : Time) where
    -- The key of a message; a response of the client has none.
    abbrev pub message_key : RpcMessage → Tick → Option String
    message_key m t = if m.method == "" then none else kept_key m (new_http_call c p m started_at t)

    abbrev pub message_keys : List RpcMessage → (ℕ → Tick) → List String
    message_keys [] ticks = []
    message_keys (m ∷ ms) ticks =
        with_key (message_key m (ticks 0)) (message_keys ms (λ n. ticks (suc n)))

    http_message-Began :
        (m : RpcMessage) (t : Tick) (ks : List String) (table : Calls) (s : HttpState S B)
        → Unique (with_key (message_key m t) ks)
        → Free table (with_key (message_key m t) ks)
        → Distinct table
        → Began ks table s (http_message c p started_at m t (table, s))
    unfolding http_message
    http_message-Began m t ks table s u f d = elim (Bool-cases (m.method == "")) [
      | inl response ↦
          rw response (record { distinct = d; balanced = λ b. b; free = λ _. rw response at f })
      | inr named ↦ rw named (
          decided_http-Began p m (evaluate_http_policy c p m.method (metadata_name c m))
            (new_http_call c p m started_at t) t ks table s (rw named at u) (rw named at f) d)
    ]

    Unique-rest : (o : Option String) (ks : List String) → Unique (with_key o ks) → Unique ks
    Unique-rest none ks u = u
    Unique-rest (some k) ks (n, u) = u

    unless_refused-Keeps :
        (next : Calls × HttpState S B → Round c) (ks : List String) (table : Calls)
        (s : HttpState S B) (r : Round c)
        → Began ks table s r
        → ((table' : Calls) (s' : HttpState S B)
            → Free table' ks
            → Distinct table'
            → Keeps test c (table', s') (next (table', s')).0)
        → Keeps test c (table, s) (unless_refused c next r).0
    unless_refused-Keeps next ks table s ((table', s'), some x) began later = record {
      distinct = began.distinct;
      balanced = began.balanced;
    }
    unless_refused-Keeps next ks table s ((table', s'), none) began later =
        let rest = later table' s' (began.free refl) began.distinct in
        record { distinct = rest.distinct; balanced = λ b. rest.balanced (began.balanced b) }

    http_messages-Keeps :
        (ms : List RpcMessage) (ticks : ℕ → Tick) (table : Calls) (s : HttpState S B)
        → Unique (message_keys ms ticks)
        → Free table (message_keys ms ticks)
        → Distinct table
        → Keeps test c (table, s) (http_messages c p started_at ms ticks (table, s)).0
    unfolding http_messages
    http_messages-Keeps [] ticks table s u f d = record { distinct = d; balanced = λ b. b }
    http_messages-Keeps (m ∷ ms) ticks table s u f d =
        let later : ℕ → Tick = λ n. ticks (suc n) in
        let ks = message_keys ms later in
        unless_refused-Keeps (http_messages c p started_at ms later) ks table s
          (http_message c p started_at m (ticks 0) (table, s))
          (http_message-Began m (ticks 0) ks table s u f d)
          (λ table' s' f' d'.
            http_messages-Keeps ms later table' s' (Unique-rest (message_key m (ticks 0)) ks u) f'
              d')

    decoded_request-Keeps :
        (o : Option (List RpcMessage)) (ticks : ℕ → Tick) (s : HttpState S B)
        → ((ms : List RpcMessage) → o ≡ some ms → Unique (message_keys ms ticks))
        → Keeps test c ([], s) (decoded_request c p started_at o ticks s).0
    decoded_request-Keeps none ticks s u = record { distinct = tt; balanced = λ b. b }
    decoded_request-Keeps (some ms) ticks s u =
        http_messages-Keeps ms ticks [] s (u ms refl) (Free-empty (message_keys ms ticks)) tt

    pub observe_http_request-Keeps :
        (raw : String) (ticks : ℕ → Tick) (s : HttpState S B)
        → ((ms : List RpcMessage)
            → decode_messages c raw ≡ some ms
            → Unique (message_keys ms ticks))
        → Keeps test c ([], s) (observe_http_request c p started_at raw ticks s).0
    unfolding observe_http_request
    observe_http_request-Keeps raw ticks s u = elim (Bool-cases (trim_space raw == "")) [
      | inl blank ↦ rw blank (record { distinct = tt; balanced = λ b. b })
      | inr shown ↦ rw shown (decoded_request-Keeps (decode_messages c raw) ticks s u)
    ]
