-- ===== src/Auth.antt =====
-- internal/auth: who sends a request, by no credentials at all (none.go), by one bearer token that
-- is known beforehand (static_bearer.go), or by a signed token (jwt.go).
--
-- Parameters: SHA-256, `strings.EqualFold`, and the JWT library's `ParseWithClaims`, which gives the
-- claims of a token that is valid for the configuration. The claims of a principal are left out:
-- nothing that is modelled reads them. How the authenticator of signed tokens is made stands in
-- Auth/Jwks.
pub mod Bearer
pub mod Claims
pub mod Jwks
pub mod Tests
use Prim.Native.String
use mcp_audit.Base.{
  ℕ, String, Bool, true, false, not, ◌&&◌, ◌||◌, List, [], ◌∷◌, Option, none, some, Result, ok, err,
  ◌==◌, if◌then◌else◌, nat_eq, ltb, any, lookup,
}
use mcp_audit.Base.Scan.{cut, contains_where}
use mcp_audit.Base.Words.{fields}
use mcp_audit.Base.Header.{Header, values}

pub record Principal : Type 0 where
  pub subject : String
  pub client_id : String
  pub issuer : String
  pub roles : List String
  pub scopes : List String

pub data AuthError : Type 0 where
  missing_credentials invalid_credentials subject_required token_too_short : AuthError

-- `NewNoneAuthenticator`; its `Authenticate` gives the principal.
unfoldable pub new_none_authenticator : Principal → Result AuthError Principal
new_none_authenticator p =
    if p.subject == "" || p.client_id == "" then err subject_required else ok p

abbrev pub is_blank : ℕ → Bool
is_blank c = nat_eq c 32 || nat_eq c 9 || nat_eq c 13 || nat_eq c 10

-- The bearer token of a value that `strings.Cut` splits into a scheme and the rest.
abbrev pub token_of : (String → String → Bool) → Option (String × String) → Result AuthError String
token_of equal_fold none = err invalid_credentials
token_of equal_fold (some (scheme, token)) =
    if not (equal_fold scheme "Bearer") || token == "" || contains_where is_blank token
    then err invalid_credentials
    else ok token

abbrev pub token_of_values : (String → String → Bool) → List String → Result AuthError String
token_of_values equal_fold [] = err missing_credentials
token_of_values equal_fold (v ∷ []) = token_of equal_fold (cut 32 v)
token_of_values equal_fold (v ∷ w ∷ ws) = err invalid_credentials

-- `bearerToken`.
unfoldable pub bearer_token : (String → String → Bool) → Header → Result AuthError String
bearer_token equal_fold h = token_of_values equal_fold (values "Authorization" h)

pub record StaticBearer : Type 0 where
  pub token_hash : String
  pub principal : Principal

module _ (sha256 : String → String) (equal_fold : String → String → Bool) where
  -- `NewStaticBearerAuthenticator`.
  unfoldable pub new_static_bearer : String → Principal → Result AuthError StaticBearer
  new_static_bearer token p =
      if ltb (String.len token) 32
      then err token_too_short
      else if p.subject == "" || p.client_id == ""
      then err subject_required
      else ok (record { token_hash = sha256 token; principal = p })

  abbrev pub static_checked : StaticBearer → Result AuthError String → Result AuthError Principal
  static_checked a (err x) = err x
  static_checked a (ok token) =
      if sha256 token == a.token_hash then ok a.principal else err invalid_credentials

  -- `StaticBearerAuthenticator.Authenticate`.
  unfoldable pub authenticate_static : StaticBearer → Header → Result AuthError Principal
  authenticate_static a h = static_checked a (bearer_token equal_fold h)

-- The value of a claim, as far as the code tells values apart.
pub data ClaimItem : Type 0 where
  item_text : String → ClaimItem
  item_other : ClaimItem

pub data ClaimValue : Type 0 where
  claim_text : String → ClaimValue
  claim_list : List ClaimItem → ClaimValue
  claim_other : ClaimValue

abbrev pub Claims : Type 0
Claims = List (String × ClaimValue)

abbrev text_value : Option ClaimValue → Option String
text_value (some (claim_text s)) = some s
text_value (some (claim_list items)) = none
text_value (some claim_other) = none
text_value none = none

-- `stringClaim`.
unfoldable pub string_claim : Claims → String → Option String
string_claim claims name = text_value (lookup name claims)

abbrev pub is_seen : String → List String → Bool
is_seen v seen = any (λ s. s == v) seen

-- `deduplicateStrings`, by the values that were seen.
unfoldable pub deduplicate_from : List String → List String → List String
deduplicate_from seen [] = []
deduplicate_from seen (v ∷ vs) =
    let rest = deduplicate_from (if is_seen v seen then seen else v ∷ seen) vs in
    if is_seen v seen then rest else v ∷ rest

abbrev pub deduplicate_strings : List String → List String
deduplicate_strings vs = deduplicate_from [] vs

abbrev item_then : ClaimItem → Option (List String) → Option (List String)
item_then item_other rest = none
item_then (item_text s) none = none
item_then (item_text s) (some vs) = if s == "" then none else some (s ∷ vs)

abbrev pub texts_of : List ClaimItem → Option (List String)
texts_of [] = some []
texts_of (i ∷ is) = item_then i (texts_of is)

abbrev deduplicated : Option (List String) → Result AuthError (List String)
deduplicated none = err invalid_credentials
deduplicated (some vs) = ok (deduplicate_strings vs)

abbrev pub list_value : Bool → Option ClaimValue → Result AuthError (List String)
list_value split_spaces none = ok []
list_value split_spaces (some (claim_text s)) =
    ok (deduplicate_strings (if split_spaces then fields s else if s == "" then [] else s ∷ []))
list_value split_spaces (some (claim_list items)) = deduplicated (texts_of items)
list_value split_spaces (some claim_other) = err invalid_credentials

-- `stringListClaim`.
unfoldable pub string_list_claim : Claims → String → Bool → Result AuthError (List String)
string_list_claim claims name split_spaces = list_value split_spaces (lookup name claims)

pub record JwtConfig : Type 0 where
  pub issuer : String
  pub client_id_claim : String
  pub roles_claim : String
  pub scopes_claim : String

module _ (equal_fold : String → String → Bool) (parse_with_claims : String → Option Claims)
    (config : JwtConfig) where
  abbrev pub with_scopes :
      String → String → List String → Result AuthError (List String) → Result AuthError Principal
  with_scopes subject client_id roles (err x) = err x
  with_scopes subject client_id roles (ok scopes) = ok (record {
    subject = subject;
    client_id = client_id;
    issuer = config.issuer;
    roles = roles;
    scopes = scopes;
  })

  abbrev pub with_roles :
      Claims → String → String → Result AuthError (List String) → Result AuthError Principal
  with_roles claims subject client_id (err x) = err x
  with_roles claims subject client_id (ok roles) =
      with_scopes subject client_id roles (string_list_claim claims config.scopes_claim true)

  abbrev pub with_client : Claims → String → Option String → Result AuthError Principal
  with_client claims subject none = err invalid_credentials
  with_client claims subject (some client_id) =
      if client_id == ""
      then err invalid_credentials
      else with_roles claims subject client_id (string_list_claim claims config.roles_claim false)

  abbrev pub with_subject : Claims → Option String → Result AuthError Principal
  with_subject claims none = err invalid_credentials
  with_subject claims (some subject) =
      if subject == ""
      then err invalid_credentials
      else with_client claims subject (string_claim claims config.client_id_claim)

  abbrev pub with_claims : Option Claims → Result AuthError Principal
  with_claims none = err invalid_credentials
  with_claims (some claims) = with_subject claims (string_claim claims "sub")

  abbrev pub with_token : Result AuthError String → Result AuthError Principal
  with_token (err x) = err x
  with_token (ok raw_token) = with_claims (parse_with_claims raw_token)

  -- `JWTAuthenticator.Authenticate`.
  unfoldable pub authenticate_jwt : Header → Result AuthError Principal
  authenticate_jwt h = with_token (bearer_token equal_fold h)
