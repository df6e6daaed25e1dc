-- ===== src/Stdio/Direction.antt =====
-- The direction of pending calls: an invariant of the proxy's table.
use mcp_audit.Base.{
  ℕ, suc, String, ◌≡◌, refl, inl, inr, Bool, true, false, List, [], ◌∷◌, Option, none, some, ◌==◌,
  Bool-cases, All, insert, delete,
}
use mcp_audit.Policy.{Decision}
use mcp_audit.Audit.{Time, direction_client_to_server, direction_server_to_client}
use mcp_audit.Limit.{RateLimiter, allow}
use mcp_audit.Stdio.{
  StdioConfig, RpcMessage, PendingCall, Tick, evaluate_policy, metadata_name, new_pending_call,
  audit_policy_evidence,
}
use mcp_audit.Stdio.State.{RpcState, remember_client, take_server, split_expired, is_expired}
use mcp_audit.Stdio.Observe.{
  Proxy, accept_client, limit_client, decided_client, answered_client, client_message,
  unless_rejected, client_messages, observe_client_decoded,
}

abbrev pub Completes : String → String × PendingCall → Type 0
Completes direction (id, call) = call.completion_direction ≡ direction

-- What waits for the server is completed by a message to the client, and the other way round.
pub record Directed (s : RpcState) : Type 0 where
  pub clients : All (Completes direction_server_to_client) s.client_pending
  pub servers : All (Completes direction_client_to_server) s.server_pending

pub All-insert :
    (P : String × PendingCall → Type 0) (id : String) (call : PendingCall)
    (table : List (String × PendingCall))
    → P (id, call)
    → All P table
    → All P (insert id call table)
All-insert P id call [] h all = (h, tt)
All-insert P id call ((j, x) ∷ rest) h (p, all) = elim (Bool-cases (j == id)) [
  | inl same ↦ rw same (h, all)
  | inr other ↦ rw other (p, All-insert P id call rest h all)
]

pub All-delete :
    (P : String × PendingCall → Type 0) (id : String) (table : List (String × PendingCall))
    → All P table
    → All P (delete id table)
All-delete P id [] all = tt
All-delete P id ((j, x) ∷ rest) (p, all) = elim (Bool-cases (j == id)) [
  | inl same ↦ rw same (All-delete P id rest all)
  | inr other ↦ rw other (p, All-delete P id rest all)
]

pub All-kept :
    (P : String × PendingCall → Type 0) (now : Time) (ttl : ℕ) (table : List (String × PendingCall))
    → All P table
    → All P (split_expired now ttl table).0
unfolding split_expired
All-kept P now ttl [] all = tt
All-kept P now ttl ((id, call) ∷ rest) (p, all) = elim (Bool-cases (is_expired now ttl call)) [
  | inl late ↦ rw late (All-kept P now ttl rest all)
  | inr early ↦ rw early (p, All-kept P now ttl rest all)
]

module _ {S B : Type 0} (c : StdioConfig S B) where
  accept_client-Directed :
      (m : RpcMessage) (call : PendingCall) (t : Tick) (p : Proxy S B)
      → call.completion_direction ≡ direction_server_to_client
      → Directed p.state
      → Directed (accept_client c m call t p).state
  unfolding remember_client
  accept_client-Directed m call t p h d = elim (Bool-cases (m.id == "")) [
    | inl blank ↦ rw blank d
    | inr shown ↦ rw shown (record {
      clients =
          All-insert (Completes direction_server_to_client) m.id call p.state.client_pending h
            d.clients;
      servers = d.servers;
    })
  ]

  limit_client-Directed :
      (m : RpcMessage) (call : PendingCall) (t : Tick) (p : Proxy S B)
      (r : Option (RateLimiter B) × Bool)
      → call.completion_direction ≡ direction_server_to_client
      → Directed p.state
      → Directed (limit_client c m call t p r).0.state
  limit_client-Directed m call t p (l, true) h d =
      accept_client-Directed m call t (record p { limiter = l }) h d
  limit_client-Directed m call t p (l, false) h d = d

  decided_client-Directed :
      (m : RpcMessage) (x : Decision) (call : PendingCall) (t : Tick) (p : Proxy S B)
      → call.completion_direction ≡ direction_server_to_client
      → Directed p.state
      → Directed (decided_client c m x call t p).0.state
  decided_client-Directed m x call t p h d = elim (Bool-cases x.allowed) [
    | inr refused ↦ rw refused d
    | inl given ↦ elim (Bool-cases (m.method == "tools/call")) [
      | inl tool ↦
          rw (given, tool)
            (limit_client-Directed m call t p
              (allow c.buckets p.limiter c.client_id (metadata_name c m) t.now) h d)
      | inr other ↦ rw (given, other) (accept_client-Directed m call t p h d)
    ]
  ]

  answered_client-Directed :
      (m : RpcMessage) (t : Tick) (p : Proxy S B) (r : RpcState × Option PendingCall)
      → Directed r.0
      → Directed (answered_client c m t p r).state
  answered_client-Directed m t p (s, none) d = d
  answered_client-Directed m t p (s, some call) d = d

  client_message-Directed :
      (m : RpcMessage) (t : Tick) (p : Proxy S B)
      → Directed p.state
      → Directed (client_message c m t p).0.state
  unfolding client_message take_server new_pending_call
  client_message-Directed m t p d = elim (Bool-cases (m.method == "")) [
    | inr named ↦
        let x = evaluate_policy c m.method (metadata_name c m) in
        rw named (
          decided_client-Directed m x
            (new_pending_call c m direction_server_to_client t (audit_policy_evidence c x)) t p refl
            d)
    | inl response ↦ elim (Bool-cases (m.id == "")) [
      | inl blank ↦ rw (response, blank) d
      | inr shown ↦
          rw (response, shown)
            (answered_client-Directed m t p (take_server m.id p.state) (record {
              clients = d.clients;
              servers =
                  All-delete (Completes direction_client_to_server) m.id p.state.server_pending
                    d.servers;
            }))
    ]
  ]

  unless_rejected-Directed :
      (next : Proxy S B → Proxy S B × Option String) (r : Proxy S B × Option String)
      → ((p : Proxy S B) → Directed p.state → Directed (next p).0.state)
      → Directed r.0.state
      → Directed (unless_rejected c next r).0.state
  unless_rejected-Directed next (p, none) later d = later p d
  unless_rejected-Directed next (p, some x) later d = d

  client_messages-Directed :
      (ms : List RpcMessage) (ticks : ℕ → Tick) (p : Proxy S B)
      → Directed p.state
      → Directed (client_messages c ms ticks p).0.state
  unfolding client_messages
  client_messages-Directed [] ticks p d = d
  client_messages-Directed (m ∷ ms) ticks p d =
      unless_rejected-Directed (client_messages c ms (λ n. ticks (suc n)))
        (client_message c m (ticks 0) p) (client_messages-Directed ms (λ n. ticks (suc n)))
        (client_message-Directed m (ticks 0) p d)

  pub observe_client_decoded-Directed :
      (o : Option (List RpcMessage)) (ticks : ℕ → Tick) (p : Proxy S B)
      → Directed p.state
      → Directed (observe_client_decoded c o ticks p).0.state
  observe_client_decoded-Directed none ticks p d = d
  observe_client_decoded-Directed (some ms) ticks p d = client_messages-Directed ms ticks p d
