-- ===== src/Mcp.antt =====
-- internal/mcp: the metadata of a JSON-RPC message (metadata.go), and the inspection of a request's
-- headers and body (child modules).
--
-- `json.Unmarshal` into the named fields and into a text is the record Json.
pub mod Requests
pub mod Agreement
pub mod Batches
pub mod Tests
use mcp_audit.Base.{String, ◌||◌, Option, none, some, ◌==◌, if◌then◌else◌}

-- The fields of the parameters that can name an operation; a missing field is empty.
pub record RequestParams : Type 0 where
  pub name : String
  pub tool_name : String
  pub uri : String
  pub task_id : String
  pub ref_name : String
  pub ref_uri : String

pub record Json : Type 0 where
  pub unmarshal_params : String → Option RequestParams
  pub unmarshal_string : String → Option String

pub record Message : Type 0 where
  pub id : String
  pub method : String
  pub params : String

abbrev pub or_name : String → String → String
or_name name next = if name == "" then next else name

-- The first field that is not empty.
abbrev pub name_of : Option RequestParams → String
name_of none = ""
name_of (some p) =
    or_name p.name
      (or_name p.tool_name (or_name p.uri (or_name p.task_id (or_name p.ref_name p.ref_uri))))

abbrev pub id_or_raw : String → Option String → String
id_or_raw raw none = raw
id_or_raw raw (some value) = value

module _ (j : Json) where
  unfoldable pub name_from_message : Message → String
  name_from_message m = if m.params == "" then "" else name_of (j.unmarshal_params m.params)

  -- `requestID` here and `jsonRPCID` of the stdio proxy.
  unfoldable pub request_id : String → String
  request_id id = if id == "" || id == "null" then "" else id_or_raw id (j.unmarshal_string id)
