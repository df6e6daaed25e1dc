-- ===== src/Http/Hosts.antt =====
-- internal/proxy/http.go: the lists of allowed origins and hosts.
--
-- The packages net and net/url are the record Net: `url.Parse` with the parts that are read,
-- `net.SplitHostPort` and whether `net.ParseIP` finds an address. `table` is Unicode's lower case.
use Prim.Native.Char.{Char}
use Prim.Native.String
use mcp_audit.Base.{
  ℕ, String, Bool, true, false, not, ◌&&◌, ◌||◌, List, [], ◌∷◌, Option, none, some, Result, ok, err,
  ◌==◌, if◌then◌else◌, nat_eq, leb,
}
use mcp_audit.Base.Text.{to_lower, trim_space, has_prefix}
use mcp_audit.Base.Scan.{contains_where, count_char, trim_prefix, trim_suffix, has_suffix}
use mcp_audit.Http.Headers.{is_in}

pub record Url : Type 0 where
  pub scheme : String
  pub host : String
  pub has_user : Bool
  pub path : String
  pub raw_query : String
  pub fragment : String
  pub hostname : String
  pub port : String

pub record Net : Type 0 where
  pub url_parse : String → Option Url
  pub split_host_port : String → Option (String × String)
  pub is_ip : String → Bool

pub data AddressError : Type 0 where
  origin_required unparsable scheme_invalid not_authority hostname_required : AddressError
  invalid_ipv6 host_required invalid_port invalid_brackets invalid_hostname : AddressError

-- `net.JoinHostPort`.
abbrev join_host_port : String → String → String
join_host_port host port =
    if contains_where (λ c. nat_eq c b':') host
    then String.◌++◌ "[" (String.◌++◌ host (String.◌++◌ "]:" port))
    else String.◌++◌ host (String.◌++◌ ":" port)

abbrev bracketed : String → String
bracketed host =
    if contains_where (λ c. nat_eq c b':') host
    then String.◌++◌ "[" (String.◌++◌ host "]")
    else host

abbrev reserved : ℕ → Bool
reserved c = nat_eq c b'/' || nat_eq c b'?' || nat_eq c b'#' || nat_eq c b'@'

abbrev bracket : ℕ → Bool
bracket c = nat_eq c b'[' || nat_eq c b']'

abbrev control : ℕ → Bool
control c = leb c 32 || nat_eq c 127

module _ (table : Char → Char) (net : Net) where
  -- The port of an origin, left out where it is the default of the scheme.
  abbrev origin_port : Url → String
  origin_port u =
      if (u.scheme == "http" && u.port == "80") || (u.scheme == "https" && u.port == "443")
      then ""
      else u.port

  abbrev origin_text : Url → String → String → String
  origin_text u hostname port =
      String.◌++◌ (to_lower table u.scheme) (
        String.◌++◌ "://" (if port == "" then bracketed hostname else join_host_port hostname port))

  abbrev origin_of : Option Url → Result AddressError String
  origin_of none = err unparsable
  origin_of (some u) =
      if not (u.scheme == "http") && not (u.scheme == "https")
      then err scheme_invalid
      else if u.host == ""
          || u.has_user
          || (not (u.path == "") && not (u.path == "/"))
          || not (u.raw_query == "")
          || not (u.fragment == "")
      then err not_authority
      else if to_lower table u.hostname == ""
      then err hostname_required
      else if contains_where (λ c. nat_eq c b':') (to_lower table u.hostname)
          && not (net.is_ip (to_lower table u.hostname))
      then err invalid_ipv6
      else ok (origin_text u (to_lower table u.hostname) (origin_port u))

  -- `normalizeOrigin`.
  unfoldable pub normalize_origin : String → Result AddressError String
  normalize_origin origin =
      if origin == "" || not (trim_space origin == origin)
      then err origin_required
      else origin_of (net.url_parse origin)

  -- The host without its port and its brackets.
  abbrev without_port : String → Option (String × String) → Result AddressError String
  without_port host (some (hostname, port)) = ok hostname
  without_port host none =
      if has_prefix host "[" && has_suffix host "]"
      then ok (trim_suffix (trim_prefix host "[") "]")
      else if nat_eq (count_char b':' host) 1
      then err invalid_port
      else ok host

  abbrev checked_name : String → Result AddressError String
  checked_name hostname =
      if hostname == "" || contains_where control hostname
      then err invalid_hostname
      else if contains_where (λ c. nat_eq c b':') hostname && not (net.is_ip hostname)
      then err invalid_ipv6
      else ok hostname

  abbrev hostname_of : Result AddressError String → Result AddressError String
  hostname_of (err x) = err x
  hostname_of (ok hostname) =
      if contains_where bracket hostname
      then err invalid_brackets
      else if has_suffix hostname ".."
      then err invalid_hostname
      else checked_name (to_lower table (trim_suffix hostname "."))

  -- `normalizeHostname`.
  unfoldable pub normalize_hostname : String → Result AddressError String
  normalize_hostname host =
      if host == "" || not (trim_space host == host) || contains_where reserved host
      then err host_required
      else hostname_of (without_port host (net.split_host_port host))

  abbrev pub then_more :
      Result AddressError String
      → Result AddressError (List String)
      → Result AddressError (List String)
  then_more (err x) rest = err x
  then_more (ok v) (err x) = err x
  then_more (ok v) (ok vs) = ok (v ∷ vs)

  abbrev pub normalized :
      (String → Result AddressError String) → List String → Result AddressError (List String)
  normalized normalize [] = ok []
  normalized normalize (x ∷ xs) = then_more (normalize x) (normalized normalize xs)

  -- `normalizedAllowedOrigins` and `normalizedAllowedHosts`: the sets as lists.
  unfoldable pub normalized_allowed_origins : List String → Result AddressError (List String)
  normalized_allowed_origins origins = normalized normalize_origin origins

  unfoldable pub normalized_allowed_hosts : List String → Result AddressError (List String)
  normalized_allowed_hosts hosts = normalized normalize_hostname hosts

  abbrev pub validated :
      Result AddressError (List String) → Result AddressError (List String) → Option AddressError
  validated (err x) hosts = some x
  validated (ok origins) (err x) = some x
  validated (ok origins) (ok hosts) = none

  -- `ValidateHTTPAccessLists`.
  unfoldable pub validate_http_access_lists : List String → List String → Option AddressError
  validate_http_access_lists origins hosts =
      validated (normalized_allowed_origins origins) (normalized_allowed_hosts hosts)

  abbrev pub allowed_as : List String → Result AddressError String → Bool
  allowed_as allowed (err x) = false
  allowed_as allowed (ok v) = is_in v allowed

  -- `originAllowed`.
  unfoldable pub origin_allowed : List String → String → Bool
  origin_allowed [] origin = true
  origin_allowed (a ∷ more) origin =
      if origin == "" then true else allowed_as (a ∷ more) (normalize_origin origin)

  -- `hostAllowed`.
  unfoldable pub host_allowed : List String → String → Bool
  host_allowed [] host = true
  host_allowed (a ∷ more) host = allowed_as (a ∷ more) (normalize_hostname host)
