-- ===== src/Stdio/Pending.antt =====
-- The table of pending calls: what expires, and what a second request with one id replaces.
use mcp_audit.Base.{ℕ, ◌+◌, ◌≤◌, ◌<◌, String}
use mcp_audit.Audit.{Time}
use mcp_audit.Stdio.{PendingCall}

abbrev pub Expired : Time → ℕ → PendingCall → Type 0
Expired now ttl call = call.started_at + ttl < now

abbrev pub Young : Time → ℕ → String × PendingCall → Type 0
Young now ttl (id, call) = now ≤ call.started_at + ttl
