-- ===== src/Stdio/State.antt =====
-- internal/proxy/stdio.go: `rpcState`, the calls that wait for a response, by the id of their
-- message. The mutex makes each method one step.
use mcp_audit.Base.{
  ℕ, ◌+◌, String, Bool, List, [], ◌∷◌, ◌++◌, Option, if◌then◌else◌, ltb, lookup, insert, delete,
}
use mcp_audit.Audit.{Time}
use mcp_audit.Stdio.{PendingCall}

pub record RpcState : Type 0 where
  pub client_pending : List (String × PendingCall)
  pub server_pending : List (String × PendingCall)

abbrev pub new_rpc_state : RpcState
new_rpc_state = record { client_pending = []; server_pending = [] }

unfoldable pub remember_client : String → PendingCall → RpcState → RpcState
remember_client id call s = record s { client_pending = insert id call s.client_pending }

unfoldable pub remember_server : String → PendingCall → RpcState → RpcState
remember_server id call s = record s { server_pending = insert id call s.server_pending }

unfoldable pub take_client : String → RpcState → RpcState × Option PendingCall
take_client id s =
    (record s { client_pending = delete id s.client_pending }, lookup id s.client_pending)

unfoldable pub take_server : String → RpcState → RpcState × Option PendingCall
take_server id s =
    (record s { server_pending = delete id s.server_pending }, lookup id s.server_pending)

abbrev pub calls_of : List (String × PendingCall) → List PendingCall
calls_of [] = []
calls_of ((id, call) ∷ rest) = call ∷ calls_of rest

unfoldable pub take_clients : RpcState → RpcState × List PendingCall
take_clients s = (record s { client_pending = [] }, calls_of s.client_pending)

unfoldable pub take_all : RpcState → RpcState × List PendingCall
take_all s = (new_rpc_state, calls_of s.client_pending ++ calls_of s.server_pending)

-- Started before the cutoff, which is `ttl` before now.
abbrev pub is_expired : Time → ℕ → PendingCall → Bool
is_expired now ttl call = ltb (call.started_at + ttl) now

-- The loop over one table: what stays, and what is taken.
unfoldable pub split_expired :
    Time → ℕ → List (String × PendingCall) → List (String × PendingCall) × List PendingCall
split_expired now ttl [] = ([], [])
split_expired now ttl ((id, call) ∷ rest) =
    let (kept, expired) = split_expired now ttl rest in
    if is_expired now ttl call then (kept, call ∷ expired) else ((id, call) ∷ kept, expired)

unfoldable pub take_expired : Time → ℕ → RpcState → RpcState × List PendingCall
take_expired now ttl s =
    let (clients, expired_clients) = split_expired now ttl s.client_pending in
    let (servers, expired_servers) = split_expired now ttl s.server_pending in
    (
      record { client_pending = clients; server_pending = servers },
      expired_clients ++ expired_servers,
    )
