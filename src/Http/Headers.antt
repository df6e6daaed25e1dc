-- ===== src/Http/Headers.antt =====
-- internal/proxy/http.go: which headers pass to the upstream server and back.
use Prim.Native.Char.{Char}
use mcp_audit.Base.{String, Bool, true, false, not, List, [], ◌∷◌, ◌==◌, if◌then◌else◌, any}
use mcp_audit.Base.Text.{to_lower, trim_space}
use mcp_audit.Base.Header.{Header}

abbrev pub hop_by_hop : List String
hop_by_hop =
    "connection" ∷ "keep-alive" ∷ "proxy-authenticate" ∷ "proxy-authorization" ∷ "te" ∷ "trailer"
    ∷ "trailers" ∷ "transfer-encoding" ∷ "upgrade" ∷ []

abbrev pub is_in : String → List String → Bool
is_in s list = any (λ t. t == s) list

module _ (table : Char → Char) where
  -- `hopByHopHeader`.
  unfoldable pub hop_by_hop_header : String → Bool
  hop_by_hop_header key = is_in (to_lower table key) hop_by_hop

  -- `normalizedForwardHeaders`: the set as a list.
  unfoldable pub normalized_forward_headers : List String → List String
  normalized_forward_headers [] = []
  normalized_forward_headers (h ∷ hs) =
      let rest = normalized_forward_headers hs in
      if trim_space (to_lower table h) == "" then rest else trim_space (to_lower table h) ∷ rest

  -- `stripRequestHeader`.
  unfoldable pub strip_request_header : String → List String → Bool
  strip_request_header key forward_headers =
      if hop_by_hop_header key
      then true
      else if to_lower table key == "authorization"
      then not (is_in (to_lower table key) forward_headers)
      else false

  -- `copyHeader` and `copyRequestHeader` into an empty header: what is not stripped.
  unfoldable pub copy_header : Header → Header
  copy_header [] = []
  copy_header ((key, vs) ∷ rest) =
      let copied = copy_header rest in if hop_by_hop_header key then copied else (key, vs) ∷ copied

  unfoldable pub copy_request_header : List String → Header → Header
  copy_request_header forward_headers [] = []
  copy_request_header forward_headers ((key, vs) ∷ rest) =
      let copied = copy_request_header forward_headers rest in
      if strip_request_header key forward_headers then copied else (key, vs) ∷ copied
