-- ===== src/Mcp/Requests.antt =====
-- internal/mcp/headers.go, revision.go, message.go and metadata.go: the inspection of a request.
--
-- The JSON package is the record Decoder: the one value of a text and what is left behind it, the
-- items of an array, the fields of a message, and the places of a protocol version.
use Prim.Native.Char.{code}
use Prim.Native.String
use mcp_audit.Base.{
  ℕ, String, Bool, true, false, not, ◌&&◌, ◌||◌, List, [], ◌∷◌, Option, none, some, Result, ok, err,
  ◌==◌, if◌then◌else◌, nat_eq, ltb, length,
}
use mcp_audit.Base.Text.{trim_space}
use mcp_audit.Base.Scan.{cut}
use mcp_audit.Base.Header.{Header, values}
use mcp_audit.Mcp.{Json, Message, name_from_message, request_id}

pub data InspectError : Type 0 where
  repeated_header blank_header unsupported_revision revision_mismatch body_required : InspectError
  undecodable empty_request empty_batch batch_too_large not_object method_required : InspectError
  batch_described method_mismatch name_mismatch : InspectError

abbrev pub header_method : String
header_method = "Mcp-Method"

abbrev pub header_name : String
header_name = "Mcp-Name"

abbrev pub header_protocol_version : String
header_protocol_version = "Mcp-Protocol-Version"

pub record RequestHeaders : Type 0 where
  pub method : String
  pub name : String
  pub revision : String

abbrev pub single_value : List String → Result InspectError String
single_value [] = ok ""
single_value (v ∷ []) =
    if trim_space v == "" || not (trim_space v == v) then err blank_header else ok (trim_space v)
single_value (v ∷ w ∷ ws) = err repeated_header

-- `singleHeader`.
unfoldable pub single_header : Header → String → Result InspectError String
single_header h name = single_value (values name h)

abbrev pub headers_of :
    Result InspectError String
    → Result InspectError String
    → Result InspectError String
    → Result InspectError RequestHeaders
headers_of (err x) name revision = err x
headers_of (ok m) (err x) revision = err x
headers_of (ok m) (ok n) (err x) = err x
headers_of (ok m) (ok n) (ok r) = ok (record { method = m; name = n; revision = r })

-- `inspectHeaders`.
unfoldable pub inspect_headers : Header → Result InspectError RequestHeaders
inspect_headers h =
    headers_of (single_header h header_method) (single_header h header_name)
      (single_header h header_protocol_version)

abbrev pub protocol_legacy_20251125 : String
protocol_legacy_20251125 = "2025-11-25"

abbrev pub protocol_20260728 : String
protocol_20260728 = "2026-07-28"

-- `ProtocolRevision.Supported`.
unfoldable pub supported : String → Bool
supported r = r == protocol_legacy_20251125 || r == protocol_20260728

-- The fields of the parameters that can hold a protocol version; a missing one is empty.
pub record RevisionParams : Type 0 where
  pub protocol_version : String
  pub meta_protocol_version : String
  pub meta_protocol_revision : String

pub record Decoder : Type 0 where
  pub json : Json
  pub unmarshal_revision : String → Option RevisionParams
  -- `Decode` of one value, and whether the end of the text follows it.
  pub decode_value : String → Option (String × Bool)
  pub unmarshal_items : String → Option (List String)
  pub unmarshal_message : String → Option Message

abbrev revision_of : Option RevisionParams → String
revision_of none = ""
revision_of (some p) =
    if not (p.protocol_version == "")
    then p.protocol_version
    else if not (p.meta_protocol_revision == "")
    then p.meta_protocol_revision
    else p.meta_protocol_version

abbrev first_code : String.String → Option ℕ
first_code String.[] = none
first_code (String.◌∷◌ c s) = some (code c)

abbrev pub starts_with : ℕ → String → Bool
starts_with n s = elim (first_code s) [ none ↦ false | some c ↦ nat_eq c n ]

abbrev pub max_batch_messages : ℕ
max_batch_messages = 1024

-- `RequestKind`, a text as in the source.
abbrev pub RequestKind : Type 0
RequestKind = String

abbrev family_of : String → Option (String × String) → String
family_of method none = method
family_of method (some (family, rest)) = family

abbrev kind_of : String → RequestKind
kind_of family =
    if family == "tools"
    then "tools"
    else if family == "resources"
    then "resources"
    else if family == "prompts"
    then "prompts"
    else if family == "completion"
    then "completion"
    else if family == "logging"
    then "logging"
    else if family == "tasks"
    then "tasks"
    else if family == "extensions"
    then "extensions"
    else "unknown"

-- `classifyMethod`.
unfoldable pub classify_method : String → RequestKind
classify_method method =
    if method == "server/discover" then "discovery" else kind_of (family_of method (cut 47 method))

pub record RequestMetadata : Type 0 where
  pub protocol_revision : String
  pub method : String
  pub name : String
  pub request_id : String
  pub kind : RequestKind

abbrev pub no_message : Message
no_message = record { id = ""; method = ""; params = "" }

module _ (d : Decoder) where
  -- `revisionFromMessage`.
  unfoldable pub revision_from_message : Message → String
  revision_from_message m =
      if m.params == "" then "" else revision_of (d.unmarshal_revision m.params)

  -- `protocolRevision`, by the revision that the body names.
  abbrev pub revision_by : String → String → String → Result InspectError String
  revision_by header_revision body_revision method =
      if not (header_revision == "")
      then (if not (supported header_revision)
          then err unsupported_revision
          else if not (body_revision == "") && not (body_revision == header_revision)
          then err revision_mismatch
          else ok header_revision)
      else if not (body_revision == "")
      then (if supported body_revision then ok body_revision else err unsupported_revision)
      else if method == "server/discover"
      then ok protocol_20260728
      else ok protocol_legacy_20251125

  unfoldable pub protocol_revision_of : String → Message → Result InspectError String
  protocol_revision_of header_revision m =
      revision_by header_revision (revision_from_message m) m.method

  abbrev pub with_method : Option Message → Result InspectError Message
  with_method none = err undecodable
  with_method (some m) = if m.method == "" then err method_required else ok m

  -- `decodeMessage`.
  unfoldable pub decode_message : String → Result InspectError Message
  decode_message raw =
      if starts_with b'{' (trim_space raw)
      then with_method (d.unmarshal_message raw)
      else err not_object

  abbrev pub and_then :
      Result InspectError Message
      → Result InspectError (List Message)
      → Result InspectError (List Message)
  and_then (err x) rest = err x
  and_then (ok m) (err x) = err x
  and_then (ok m) (ok ms) = ok (m ∷ ms)

  unfoldable pub decode_items : List String → Result InspectError (List Message)
  decode_items [] = ok []
  decode_items (raw ∷ raws) = and_then (decode_message raw) (decode_items raws)

  abbrev pub batch_of : Option (List String) → Result InspectError (List Message)
  batch_of none = err undecodable
  batch_of (some raws) =
      if nat_eq (length raws) 0
      then err empty_batch
      else if ltb max_batch_messages (length raws)
      then err batch_too_large
      else decode_items raws

  abbrev pub payload_messages : String → Result InspectError (List Message)
  payload_messages payload =
      if payload == ""
      then err empty_request
      else if starts_with b'[' payload
      then batch_of (d.unmarshal_items payload)
      else and_then (decode_message payload) (ok [])

  abbrev pub value_messages : Option (String × Bool) → Result InspectError (List Message)
  value_messages none = err undecodable
  value_messages (some (payload, false)) = err undecodable
  value_messages (some (payload, true)) = payload_messages (trim_space payload)

  -- `DecodeMessages`.
  unfoldable pub decode_request : String → Result InspectError (List Message)
  decode_request raw = value_messages (d.decode_value raw)

  -- `MetadataFromMessage`, with a revision.
  abbrev pub metadata_of : Message → String → RequestMetadata
  metadata_of m revision = record {
    protocol_revision = revision;
    method = m.method;
    name = name_from_message d.json m;
    request_id = request_id d.json m.id;
    kind = classify_method m.method;
  }

  abbrev pub bare_metadata : Result InspectError String → Result InspectError RequestMetadata
  bare_metadata (err x) = err x
  bare_metadata (ok revision) =
      ok (record {
        protocol_revision = revision;
        method = "";
        name = "";
        request_id = "";
        kind = "";
      })

  abbrev pub with_revision :
      Message → Result InspectError String → Result InspectError RequestMetadata
  with_revision m (err x) = err x
  with_revision m (ok revision) = ok (metadata_of m revision)

  abbrev pub inspect_message : RequestHeaders → Message → Result InspectError RequestMetadata
  inspect_message h m =
      if not (h.method == "") && not (h.method == m.method)
      then err method_mismatch
      else if not (h.name == "") && not (h.name == name_from_message d.json m)
      then err name_mismatch
      else with_revision m (protocol_revision_of h.revision m)

  abbrev pub inspect_messages :
      RequestHeaders → Result InspectError (List Message) → Result InspectError RequestMetadata
  inspect_messages h (err x) = err x
  inspect_messages h (ok []) = err batch_described
  inspect_messages h (ok (m ∷ [])) = inspect_message h m
  inspect_messages h (ok (m ∷ n ∷ ms)) = err batch_described

  abbrev pub inspect_body :
      String → Result InspectError RequestHeaders → Result InspectError RequestMetadata
  inspect_body body (err x) = err x
  inspect_body body (ok h) =
      if trim_space body == ""
      then (if not (h.method == "") || not (h.name == "")
          then err body_required
          else bare_metadata (protocol_revision_of h.revision no_message))
      else inspect_messages h (decode_request body)

  -- `InspectRequest`.
  unfoldable pub inspect_request : Header → String → Result InspectError RequestMetadata
  inspect_request headers body = inspect_body body (inspect_headers headers)
