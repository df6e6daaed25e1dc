-- ===== src/Mcp/Tests.antt =====
-- The inspection of concrete requests, with a toy decoder.
use mcp_audit.Base.{String, ◌≡◌, refl, true, [], ◌∷◌, none, some, ok, err}
use mcp_audit.Base.Text.{trim_space}
use mcp_audit.Base.Scan.{cut}
use mcp_audit.Base.Header.{Header}
use mcp_audit.Mcp.{Message, name_from_message, request_id}
use mcp_audit.Mcp.Requests.{
  Decoder, RequestMetadata, repeated_header, unsupported_revision, name_mismatch, batch_described,
  supported, single_header, inspect_headers, header_method, header_name, header_protocol_version,
  revision_from_message, protocol_revision_of, decode_message, decode_items, decode_request,
  classify_method, inspect_request,
}
use mcp_audit.Mcp.Agreement.{Of, Says, inspect_request-Says}

abbrev call : Message
call = record { id = "7"; method = "tools/call"; params = "p" }

abbrev decoder : Decoder
decoder = record {
  json = record {
    unmarshal_params = λ s. some (record {
      name = "rm";
      tool_name = "";
      uri = "";
      task_id = "";
      ref_name = "";
      ref_uri = "";
    });
    unmarshal_string = λ s. none;
  };
  unmarshal_revision = λ s. none;
  decode_value = λ s. some (s, true);
  unmarshal_items = λ s. some ("{" ∷ "{" ∷ []);
  unmarshal_message = λ s. some call;
}

abbrev headers : String → Header
headers name =
    (header_method, "tools/call" ∷ [])
    ∷ (header_name, name ∷ [])
    ∷ (header_protocol_version, "2026-07-28" ∷ [])
    ∷ []

abbrev described : RequestMetadata
described = record {
  protocol_revision = "2026-07-28";
  method = "tools/call";
  name = "rm";
  request_id = "7";
  kind = "tools";
}

inspected : inspect_request decoder (headers "rm") "{" ≡ ok described
unfolding inspect_request inspect_headers single_header decode_request decode_message
    name_from_message request_id classify_method cut trim_space protocol_revision_of
    revision_from_message supported
inspected = refl

inspect_request-Says_example :
    (supported "2026-07-28" ≡ true)
    × Of decoder "{" described
    × Says decoder header_method (headers "rm") "tools/call"
    × Says decoder header_name (headers "rm") "rm"
    × Says decoder header_protocol_version (headers "rm") "2026-07-28"
inspect_request-Says_example = inspect_request-Says decoder (headers "rm") "{" described inspected

renamed : inspect_request decoder (headers "ls") "{" ≡ err name_mismatch
unfolding inspect_request inspect_headers single_header decode_request decode_message
    name_from_message cut trim_space
renamed = refl

twice : single_header (("Mcp-Name", "a" ∷ "b" ∷ []) ∷ []) header_name ≡ err repeated_header
unfolding single_header
twice = refl

batch : inspect_request decoder [] "[" ≡ err batch_described
unfolding inspect_request inspect_headers single_header decode_request decode_items decode_message
    trim_space
batch = refl

two : decode_request decoder "[" ≡ ok (call ∷ call ∷ [])
unfolding decode_request decode_items decode_message trim_space
two = refl

unknown_version : protocol_revision_of decoder "2024-01-01" call ≡ err unsupported_revision
unfolding protocol_revision_of supported
unknown_version = refl
