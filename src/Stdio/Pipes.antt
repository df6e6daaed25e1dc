-- ===== src/Stdio/Pipes.antt =====
-- internal/proxy/stdio.go: one round of the two pipes, `pipeClientToServer` and
-- `pipeServerToClient`: what is written for a line that was read, and what is done when a write
-- fails.
use mcp_audit.Base.{ℕ, String, Bool, Option, none, some, if◌then◌else◌}
use mcp_audit.Audit.Outcome.{upstream_error, client_disconnect}
use mcp_audit.Stdio.{StdioConfig, Tick}
use mcp_audit.Stdio.Observe.{Proxy, observe_client_message, observe_server_message, finalize_all}

-- What became of a line: an answer to the client, the line itself to its receiver, or a failed
-- write, after which the pipe ends.
pub data Sent : Type 0 where
  rejected forwarded : String → Sent
  broken : Sent

module _ {S B : Type 0} (c : StdioConfig S B) where
  -- `written` tells whether the write to the upstream server succeeds; `later` are the ticks of a
  -- final finalization.
  abbrev pub write_upstream :
      String → Bool → (ℕ → Tick) → Proxy S B × Option String → Proxy S B × Sent
  write_upstream raw written later (p, some reject) = (p, rejected reject)
  write_upstream raw written later (p, none) =
      if written then (p, forwarded raw) else (finalize_all c upstream_error later p, broken)

  unfoldable pub client_pipe :
      String → Bool → (ℕ → Tick) → (ℕ → Tick) → Proxy S B → Proxy S B × Sent
  client_pipe raw written ticks later p =
      write_upstream raw written later (observe_client_message c raw ticks p)

  -- A line of the server is handed on before it is looked at.
  unfoldable pub server_pipe :
      String → Bool → (ℕ → Tick) → (ℕ → Tick) → Proxy S B → Proxy S B × Sent
  server_pipe raw written ticks later p =
      if written
      then (observe_server_message c raw ticks p, forwarded raw)
      else (finalize_all c client_disconnect later p, broken)
