-- ===== src/Lib.antt =====
-- mcp-audit is a proxy in front of an MCP server. It decides each request by a policy, forwards
-- what it allows, and writes one signed audit record for each request to a store.
--
-- Base: the shared library: results, integers, lists, association lists, the text functions of Go's
-- package strings and hexadecimal text.
--
-- Policy (internal/policy/policy.go): `new_engine` is NewEngine, `evaluate` is Evaluate, `scan` its
-- loop over the rules. Policy/Match has the selectors, Policy/Order the order of rules, and
-- Policy/Creation the normal form of a configuration.
--
-- Integrity (internal/audit/integrity): `canonicalize`, `sign` and `verify` are Canonicalize,
-- Signer.Sign and Verifier.Verify. The HMAC and the canonical JSON text come from other packages
-- and are the record Crypto.
--
-- Audit (internal/audit/logger.go, signer.go, operation.go): the record `Entry`, the legacy
-- signature (Audit/Signer), the logger (Audit/Logger: `prepare`, `record_prepared`) and the
-- lifecycle of one operation (Audit/Operation: `new_operation`, `finalize`), and the filter and
-- statistics of queries (Audit/Query). The store behind the logger is an interface: the record
-- Backend has its operations, and Audit/Logger/Contract the laws of a store, which may fail before
-- or after it has written.
--
-- Async (internal/audit/storage/async.go): the bounded queue and the worker in front of a store.
-- A run is a sequence of sends by clients and of steps of the worker (`Run`, `Work`).
--
-- Jsonl (internal/audit/storage/jsonl.go): `append_batch` is appendBatch with its rollback and
-- rotation, Jsonl/Retention the removal of archives. What the file system answers to one call is
-- the record Io.
--
-- Metered (internal/audit/storage/instrumented.go, durable.go): `append_batch_metered` is
-- InstrumentedStore.AppendBatch, over the wrapped store as an interface.
--
-- Verify (internal/audit/verify): `verify` and `record_entry` are entryVerifier.verify and
-- Result.record, Verify/Jsonl the loop of verifyJSONLPath, Verify/Checkpoint the checkpoints, whose
-- ordered digest Verify/Digest treats, and Verify/Create is CreateCheckpoint. SHA-256 and the
-- canonical text of a checkpoint are the record Hashes; the lines of a file are a list.
--
-- Limit (internal/middleware/ratelimit.go): `allow` is Allow, over a token bucket as a parameter.
--
-- Mcp (internal/mcp): the name and the request id of a message; in Mcp/Requests `inspect_request`
-- is InspectRequest and `decode_request` DecodeMessages, over a JSON decoder as a parameter.
--
-- Auth (internal/auth): `authenticate_static` and `authenticate_jwt` are the methods Authenticate
-- of the static bearer and the JWT authenticator; in Auth/Jwks `new_jwt_authenticator` is
-- NewJWTAuthenticator. SHA-256, the JWT library, the HTTP client and the key cache are parameters.
--
-- Redact (internal/middleware/redact.go): `redact_value` is redactValue on decoded JSON, `redact`
-- the method around it.
--
-- Retry (internal/retry/retry.go): `delay` and `can_retry` are Delay and CanRetry; floating point
-- numbers and parsers of other packages are the record Clockwork.
--
-- Stdio (internal/proxy/stdio.go, policy.go): Stdio/State is rpcState, Stdio/Observe the observers
-- `observe_client_message` and `observe_server_message`, `cleanup` and `finalize_all`, Stdio/Pipes
-- a round of each pipe; they use Policy, Limit, Mcp and the operations of Audit. Stdio/Session has
-- their runs. What clocks and id sources return is an argument, one `Tick` for each message or call.
--
-- Http (internal/proxy/http.go): Http/Serve is ServeHTTP (`serve_http`), with Http/Hosts for the
-- lists of hosts and origins, Http/Headers for the headers that pass, Http/Calls for
-- observeHTTPRequest, observeHTTPResponse and the finalization of pending calls, Http/Upstream for
-- doUpstreamRequest and Http/Stream for streamSSE. It uses Auth, Mcp, Policy, Limit, Retry and the
-- operations of Audit, and shares decoding and error answers with Stdio. `client.Do` is a function
-- on a state of the upstream server; reads and writes are the record Exchange.
--
-- Startup (cmd/mcp-audit/main.go): `validate_config` is validateConfig, `new_authenticator`
-- (Startup/Authenticator) is newAuthenticator, and `retry_settings` the retry part of NewHTTPProxy.
--
-- Bounds: `attempts` takes the number of rounds as its fuel, three as in the source; `drain` takes
-- the length of the queue at its start, as the source does; `upstream_loop` takes one attempt more
-- than the configured number of retries, since the retry policy refuses the next; the search for an
-- archive's name takes one more than the number of archives. All else is structural recursion.
--
-- Texts are sequences of characters where Go has bytes. Instants are nanoseconds from Go's zero
-- time. Locks make each call of a guarded method one step. Metrics, tracing and logging are left
-- out where they do not change what is stored. Not modelled: the SQL store, the export of metrics
-- and traces, and the dashboard, which hand data to other systems; the start of servers and the
-- inside of the JWT key cache; the flags and files of the command line.
pub mod Base
pub mod Policy
pub mod Integrity
pub mod Audit
pub mod Async
pub mod Verify
pub mod Limit
pub mod Mcp
pub mod Stdio
pub mod Retry
pub mod Auth
pub mod Http
pub mod Redact
pub mod Jsonl
pub mod Startup
pub mod Metered
