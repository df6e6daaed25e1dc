-- ===== src/Http.antt =====
-- internal/proxy/http.go: the HTTP proxy, from the guards of one request to the records that it
-- leaves. Sockets, TLS and the server's loop are left out; the child modules are the guards on host
-- and origin (Hosts), the headers (Headers), the table of pending calls (Calls), the requests to the
-- upstream server (Upstream), streamed responses (Stream) and the handler (Serve).
pub mod Hosts
pub mod Access
pub mod Headers
pub mod Upstream
pub mod Attempts
pub mod Calls
pub mod Stream
pub mod Serve
pub mod Balance
pub mod Opening
pub mod Complete
pub mod Guards
pub mod Passing
pub mod Tests
