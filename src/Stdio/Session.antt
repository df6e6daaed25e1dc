-- ===== src/Stdio/Session.antt =====
-- The sessions of the stdio proxy, and the direction of its pending calls in them.
use mcp_audit.Base.{
  ℕ, suc, String, ◌≡◌, refl, sym, inl, inr, List, [], ◌∷◌, Option, none, some, ◌==◌, Bool, true,
  false, Bool-cases,
}
use mathlib.Core.Path.{subst}
use mcp_audit.Audit.Outcome.{
  timeout, malformed_upstream_response, upstream_error, client_disconnect,
}
use mcp_audit.Audit.{direction_client_to_server, direction_server_to_client}
use mcp_audit.Stdio.{StdioConfig, RpcMessage, PendingCall, Tick, decode_messages, new_pending_call}
use mcp_audit.Stdio.State.{
  RpcState, remember_server, take_client, take_clients, take_all, take_expired,
}
use mcp_audit.Stdio.Observe.{
  Proxy, observe_client_message, answered_server, server_message, server_messages,
  observe_server_decoded, observe_server_message, finalize_calls, finalize_taken, finalize_all,
  cleanup,
}
use mcp_audit.Stdio.Pipes.{write_upstream, client_pipe, server_pipe}
use mcp_audit.Stdio.Direction.{
  Completes, Directed, All-insert, All-delete, All-kept, observe_client_decoded-Directed,
}

module _ {S B : Type 0} (c : StdioConfig S B) where
  -- Everything that happens to the table.
  pub data Step : Proxy S B → Proxy S B → Type 0 where
    client_line :
        (raw : String) (written : Bool) (ticks later : ℕ → Tick) (p : Proxy S B)
        → Step p (client_pipe c raw written ticks later p).0
    server_line :
        (raw : String) (written : Bool) (ticks later : ℕ → Tick) (p : Proxy S B)
        → Step p (server_pipe c raw written ticks later p).0
    clean_up : (now ttl : ℕ) (ticks : ℕ → Tick) (p : Proxy S B) → Step p (cleanup c now ttl ticks p)
    finish :
        (outcome : String) (ticks : ℕ → Tick) (p : Proxy S B)
        → Step p (finalize_all c outcome ticks p)

  pub data Session : Proxy S B → Proxy S B → Type 0 where
    start : (p : Proxy S B) → Session p p
    step : {a b d : Proxy S B} → Session a b → Step b d → Session a d

  finalize_calls-state :
      (calls : List PendingCall) (outcome : String) (ticks : ℕ → Tick) (p : Proxy S B)
      → (finalize_calls c calls outcome ticks p).state ≡ p.state
  unfolding finalize_calls
  finalize_calls-state [] outcome ticks p = refl
  finalize_calls-state (call ∷ calls) outcome ticks p =
      finalize_calls-state calls outcome (λ n. ticks (suc n)) _

  answered_server-Directed :
      (m : RpcMessage) (t : Tick) (p : Proxy S B) (r : RpcState × Option PendingCall)
      → Directed r.0
      → Directed (answered_server c m t p r).state
  answered_server-Directed m t p (s, none) d = d
  answered_server-Directed m t p (s, some call) d = d

  finalize_taken-Directed :
      (outcome : String) (ticks : ℕ → Tick) (p : Proxy S B) (r : RpcState × List PendingCall)
      → Directed r.0
      → Directed (finalize_taken c outcome ticks p r).state
  finalize_taken-Directed outcome ticks p (s, calls) d =
      subst Directed (sym (finalize_calls-state calls outcome ticks (record p { state = s }))) d

  server_message-Directed :
      (m : RpcMessage) (t : Tick) (p : Proxy S B)
      → Directed p.state
      → Directed (server_message c m t p).state
  unfolding server_message take_client remember_server new_pending_call
  server_message-Directed m t p d = elim (Bool-cases (m.method == "")) [
    | inr named ↦ elim (Bool-cases (m.id == "")) [
      | inl blank ↦ rw (named, blank) d
      | inr shown ↦
          rw (named, shown)
            (record {
              clients = d.clients;
              servers =
                  All-insert (Completes direction_client_to_server) m.id
                    (new_pending_call c m direction_client_to_server t none) p.state.server_pending
                    refl d.servers;
            })
    ]
    | inl response ↦ elim (Bool-cases (m.id == "")) [
      | inl blank ↦ rw (response, blank) d
      | inr shown ↦
          rw (response, shown)
            (answered_server-Directed m t p (take_client m.id p.state) (record {
              clients =
                  All-delete (Completes direction_server_to_client) m.id p.state.client_pending
                    d.clients;
              servers = d.servers;
            }))
    ]
  ]

  server_messages-Directed :
      (ms : List RpcMessage) (ticks : ℕ → Tick) (p : Proxy S B)
      → Directed p.state
      → Directed (server_messages c ms ticks p).state
  unfolding server_messages
  server_messages-Directed [] ticks p d = d
  server_messages-Directed (m ∷ ms) ticks p d =
      server_messages-Directed ms (λ n. ticks (suc n)) (server_message c m (ticks 0) p)
        (server_message-Directed m (ticks 0) p d)

  observe_server_decoded-Directed :
      (o : Option (List RpcMessage)) (ticks : ℕ → Tick) (p : Proxy S B)
      → Directed p.state
      → Directed (observe_server_decoded c o ticks p).state
  unfolding take_clients
  observe_server_decoded-Directed none ticks p d =
      finalize_taken-Directed malformed_upstream_response ticks p (take_clients p.state)
        (record { clients = tt; servers = d.servers })
  observe_server_decoded-Directed (some ms) ticks p d = server_messages-Directed ms ticks p d

  finalize_all-Directed :
      (outcome : String) (ticks : ℕ → Tick) (p : Proxy S B)
      → Directed (finalize_all c outcome ticks p).state
  unfolding finalize_all take_all
  finalize_all-Directed outcome ticks p =
      finalize_taken-Directed outcome ticks p (take_all p.state)
        (record { clients = tt; servers = tt })

  write_upstream-Directed :
      (raw : String) (written : Bool) (later : ℕ → Tick) (r : Proxy S B × Option String)
      → Directed r.0.state
      → Directed (write_upstream c raw written later r).0.state
  write_upstream-Directed raw written later (p, some reject) d = d
  write_upstream-Directed raw true later (p, none) d = d
  write_upstream-Directed raw false later (p, none) d = finalize_all-Directed upstream_error later p

  Step-Directed : (a b : Proxy S B) → Step a b → Directed a.state → Directed b.state
  unfolding client_pipe server_pipe observe_client_message observe_server_message cleanup
      take_expired
  Step-Directed a b (client_line raw written ticks later p) d =
      write_upstream-Directed raw written later (observe_client_message c raw ticks p)
        (observe_client_decoded-Directed c (decode_messages c raw) ticks p d)
  Step-Directed a b (server_line raw true ticks later p) d =
      observe_server_decoded-Directed (decode_messages c raw) ticks p d
  Step-Directed a b (server_line raw false ticks later p) d =
      finalize_all-Directed client_disconnect later p
  Step-Directed a b (clean_up now ttl ticks p) d =
      finalize_taken-Directed timeout ticks p (take_expired now ttl p.state) (record {
        clients =
            All-kept (Completes direction_server_to_client) now ttl p.state.client_pending
              d.clients;
        servers =
            All-kept (Completes direction_client_to_server) now ttl p.state.server_pending
              d.servers;
      })
  Step-Directed a b (finish outcome ticks p) d = finalize_all-Directed outcome ticks p

  -- In every session, whatever lines pass, writes fail or calls expire: the calls in the table that
  -- wait for the server carry the direction to the client for their completion, and those that wait
  -- for the client carry the direction to the server.
  pub Session-Directed : (a b : Proxy S B) → Session a b → Directed a.state → Directed b.state
  Session-Directed a b (start p) d = d
  Session-Directed a b (step {b = m} before last) d =
      Step-Directed m b last (Session-Directed a m before d)
