-- ===== src/Http/Stream.antt =====
-- internal/proxy/http.go, streamSSE: a response that is a stream of events, handed on line by line
-- and inspected event by event.
use Prim.Native.String
use mcp_audit.Base.{
  ℕ, String, Bool, true, false, not, ◌&&◌, ◌||◌, List, [], ◌∷◌, Option, none, some, ◌==◌,
  if◌then◌else◌, nat_eq,
}
use mcp_audit.Base.Text.{trim_space, has_prefix}
use mcp_audit.Base.Scan.{trim_prefix, trim_right_where}
use mcp_audit.Audit.{direction_server_to_client}
use mcp_audit.Audit.Outcome.{client_disconnect}
use mcp_audit.Stdio.{StdioConfig, Tick}
use mcp_audit.Http.Upstream.{Failure}
use mcp_audit.Http.Calls.{
  Calls, HttpState, finalize_http_pending, finalize_http_remainder, http_failure_outcome,
  observe_http_response,
}

-- What `ReadBytes` gave, whether the write to the client succeeds, and what the clock returns while
-- an event is inspected and while the pending calls are finalized.
pub record Line : Type 0 where
  pub bytes : String
  pub written : Bool
  pub ticks : ℕ → Tick
  pub late : ℕ → Tick

-- The last read: its bytes can be empty, and it has an error, none for the end of the stream.
pub record LastLine : Type 0 where
  pub line : Line
  pub failure : Option Failure

pub record Streamed (S B : Type 0) : Type 0 where
  pub calls : Calls × HttpState S B
  pub output : List String

abbrev line_end : ℕ → Bool
line_end n = nat_eq n 13 || nat_eq n 10

abbrev pub trimmed : String → String
trimmed bytes = trim_right_where line_end bytes

-- The data of the event so far.
unfoldable pub more_data : String → String → String
more_data text line =
    if has_prefix line "data:"
    then String.◌++◌ text (trim_space (trim_prefix line "data:"))
    else text

module _ {S B : Type 0} (c : StdioConfig S B) (left : Bool) (status_code : ℕ) where
  -- An event that cannot be inspected ends all that is pending.
  abbrev pub inspected : (ℕ → Tick) → (Calls × HttpState S B) × Bool → Calls × HttpState S B
  inspected late (r, true) = r
  inspected late (r, false) = finalize_http_remainder c status_code late r

  -- The end of an event is an empty line.
  abbrev pub event_ends : String → String → Bool
  event_ends line text = line == "" && not (text == "")

  unfoldable pub event : Line → String → Calls × HttpState S B → Calls × HttpState S B
  event l text r =
      if event_ends (trimmed l.bytes) text
      then inspected l.late (observe_http_response c status_code text l.ticks r)
      else r

  abbrev pub data_after : String → String → String
  data_after line text = if event_ends line text then "" else text

  abbrev pub ended_by : Option Failure → (ℕ → Tick) → Calls × HttpState S B → Calls × HttpState S B
  ended_by none late r = finalize_http_remainder c status_code late r
  ended_by (some x) late r =
      finalize_http_pending c (http_failure_outcome left x) direction_server_to_client late r

  abbrev pub disconnected : Line → Calls × HttpState S B → Streamed S B
  disconnected l r = record {
    calls = finalize_http_pending c client_disconnect direction_server_to_client l.late r;
    output = [];
  }

  abbrev pub after_write : String → Streamed S B → Streamed S B
  after_write bytes s = record s { output = bytes ∷ s.output }

  -- The last round of the loop.
  unfoldable pub last_line : LastLine → String → Calls × HttpState S B → Streamed S B
  last_line l text r =
      if l.line.bytes == ""
      then record { calls = ended_by l.failure l.line.late r; output = [] }
      else if not l.line.written
      then disconnected l.line r
      else after_write l.line.bytes (record {
        calls =
            ended_by l.failure l.line.late (event l.line (more_data text (trimmed l.line.bytes)) r);
        output = [];
      })

  -- `streamSSE`, by the lines that are read before the last read.
  unfoldable pub stream_sse : List Line → LastLine → String → Calls × HttpState S B → Streamed S B
  stream_sse [] last text r = last_line last text r
  stream_sse (l ∷ ls) last text r =
      let text' = more_data text (trimmed l.bytes) in
      let rest = stream_sse ls last (data_after (trimmed l.bytes) text') (event l text' r) in
      if not l.written then disconnected l r else after_write l.bytes rest
