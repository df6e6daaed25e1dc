-- ===== src/Startup.antt =====
-- cmd/mcp-audit/main.go: the settings and their checks; and internal/proxy/http.go, NewHTTPProxy: the
-- settings of retries.
--
-- The configuration holds the settings that the checks read. `url.Parse` is that of Http/Hosts.
pub mod Authenticator
pub mod Checked
pub mod Tests
use Prim.Native.Char.{Char}
use Prim.Native.String
use mcp_audit.Base.{
  ℕ, ℤ, pos, negsuc, int_ltb, is_positive, String, Bool, true, false, not, ◌&&◌, ◌||◌, List, [],
  ◌∷◌, Option, none, some, Result, ok, err, ◌==◌, if◌then◌else◌, ltb, any, all,
}
use mcp_audit.Base.Text.{is_space, trim_space, to_lower, has_prefix}
use mcp_audit.Base.Scan.{contains_where}
use mcp_audit.Auth
use mcp_audit.Auth.{AuthError, Principal, StaticBearer, new_none_authenticator, new_static_bearer}
use mcp_audit.Auth.Jwks.{JwtSettings, JwksError, new_jwt_authenticator}
use mcp_audit.Http.Headers.{is_in}
use mcp_audit.Http.Hosts.{AddressError, Net, Url, validate_http_access_lists}

pub record HttpSettings : Type 0 where
  pub max_request_body_bytes : ℤ
  pub max_header_bytes : ℤ
  pub read_header_timeout : ℤ
  pub read_timeout : ℤ
  pub write_timeout : ℤ
  pub idle_timeout : ℤ
  pub allowed_origins : List String
  pub allowed_hosts : List String

pub record TlsSettings : Type 0 where
  pub enabled : Bool
  pub cert_file : String
  pub key_file : String
  pub client_cert_file : String
  pub client_key_file : String

pub record ProxySettings : Type 0 where
  pub transport : String
  pub upstream : String
  pub bind_address : String
  pub upstream_timeout_ms : ℤ
  pub forward_headers : List String
  pub http : HttpSettings
  pub tls : TlsSettings
  pub max_retries : ℤ
  pub client_id : String

pub record StaticSettings : Type 0 where
  pub bearer_token : String
  pub subject : String
  pub client_id : String
  pub issuer : String
  pub roles : List String
  pub scopes : List String

pub record OidcSettings : Type 0 where
  pub issuer : String
  pub audience : String
  pub jwks_uri : String
  pub client_id_claim : String
  pub roles_claim : String
  pub scopes_claim : String
  pub allowed_methods : List String
  pub clock_skew : ℤ
  pub http_timeout : ℤ
  pub refresh_interval : ℤ

pub record AuthSettings : Type 0 where
  pub mode : String
  pub static : StaticSettings
  pub oidc : OidcSettings

pub record AuditSettings : Type 0 where
  pub storage : String
  pub sign : Bool
  pub secret : String
  pub key_id : String
  pub max_size_bytes : ℤ
  pub max_files : ℤ
  pub interval : String
  pub max_age_days : ℤ

pub record DashboardSettings : Type 0 where
  pub enabled : Bool
  pub bind_address : String
  pub port : ℤ
  pub token : String

pub record OtelSettings : Type 0 where
  pub enabled : Bool
  pub endpoint : String
  pub max_retries : ℤ

pub record AppConfig : Type 0 where
  pub proxy : ProxySettings
  pub auth : AuthSettings
  pub audit : AuditSettings
  pub metrics_path : String
  pub dashboard : DashboardSettings
  pub otel : OtelSettings

-- The setting that a check refuses.
pub data InvalidSetting : Type 0 where
  transport upstream upstream_timeout bind_address body_bytes header_bytes timeouts : InvalidSetting
  access_lists : AddressError → InvalidSetting
  retries forward_headers client_certificate tls_transport tls_files tls_disabled : InvalidSetting
  auth_mode principal_required token_misplaced auth_transport token_short : InvalidSetting
  oidc_required oidc_issuer oidc_jwks oidc_claims oidc_times oidc_methods : InvalidSetting
  metrics_path dashboard_address dashboard_port dashboard_token : InvalidSetting
  otel_endpoint otel_retries storage key_id secret : InvalidSetting
  rotation_size rotation_files rotation_age rotation_interval rotation_storage : InvalidSetting

-- A check, and the checks behind it.
unfoldable pub unless : Bool → InvalidSetting → Option InvalidSetting → Option InvalidSetting
unless good x rest = if good then rest else some x

unfoldable pub and_check : Option InvalidSetting → Option InvalidSetting → Option InvalidSetting
and_check none rest = rest
and_check (some x) rest = some x

abbrev pub same : Bool → Bool → Bool
same true b = b
same false b = not b

abbrev pub is_negative : ℤ → Bool
is_negative n = int_ltb n (pos 0)

abbrev pub or_else : String → String → String
or_else a b = if a == "" then b else a

abbrev pub client_id_of : AppConfig → String
client_id_of c = or_else c.auth.static.client_id c.proxy.client_id

-- `validateStaticPrincipal`.
unfoldable pub static_principal_given : AppConfig → Bool
static_principal_given c = not (c.auth.static.subject == "" || client_id_of c == "")

abbrev spaced : String → Bool
spaced s = contains_where is_space s

module _ (table : Char → Char) (net : Net) where
  abbrev refused_headers : List String
  refused_headers = "cookie" ∷ "set-cookie" ∷ "proxy-authorization" ∷ []

  abbrev pub header_allowed : String → Bool
  header_allowed h =
      trim_space h == h
      && not (h == "")
      && not (spaced h)
      && not (is_in (to_lower table h) refused_headers)

  -- `validateForwardHeaders`.
  unfoldable pub forward_headers_allowed : List String → Bool
  forward_headers_allowed headers = all header_allowed headers

  abbrev is_loopback : String → Bool
  is_loopback hostname = is_in hostname ("localhost" ∷ "127.0.0.1" ∷ "::1" ∷ [])

  abbrev is_web : Url → Bool
  is_web u =
      not (u.hostname == "")
      && (u.scheme == "https" || u.scheme == "http")
      && not u.has_user
      && u.fragment == ""

  abbrev is_secure : Url → Bool
  is_secure u = not (u.scheme == "http") || is_loopback u.hostname

  abbrev issuer_allowed : Option Url → Bool
  issuer_allowed none = false
  issuer_allowed (some u) = is_web u && u.raw_query == "" && is_secure u

  abbrev jwks_allowed : Option Url → Bool
  jwks_allowed none = false
  jwks_allowed (some u) = is_web u && is_secure u

  abbrev signing_methods : List String
  signing_methods = "RS256" ∷ "RS384" ∷ "RS512" ∷ "ES256" ∷ "ES384" ∷ "ES512" ∷ "EdDSA" ∷ []

  abbrev methods_allowed : List String → Bool
  methods_allowed [] = false
  methods_allowed (m ∷ ms) = all (λ x. is_in x signing_methods) (m ∷ ms)

  -- `validateOIDCConfig`.
  unfoldable pub validate_oidc_config : OidcSettings → Option InvalidSetting
  validate_oidc_config o =
      unless (not (o.issuer == "" || o.audience == "" || o.jwks_uri == "")) oidc_required (
        unless (issuer_allowed (net.url_parse o.issuer)) oidc_issuer (
          unless (jwks_allowed (net.url_parse o.jwks_uri)) oidc_jwks (
            unless (not (o.client_id_claim == "" || o.roles_claim == "" || o.scopes_claim == ""))
              oidc_claims
              (unless
                (not (is_negative o.clock_skew)
                  && is_positive o.http_timeout
                  && is_positive o.refresh_interval)
                oidc_times (unless (methods_allowed o.allowed_methods) oidc_methods none)))))

  -- `validateAuthConfig`, by the mode.
  unfoldable pub validate_auth_config : AppConfig → Option InvalidSetting
  validate_auth_config c =
      if c.auth.mode == "none"
      then unless (static_principal_given c) principal_required
          (unless (c.auth.static.bearer_token == "") token_misplaced none)
      else if c.auth.mode == "static_bearer"
      then unless (static_principal_given c) principal_required (
          unless (c.proxy.transport == "http") auth_transport
            (unless (not (ltb (String.len c.auth.static.bearer_token) 32)) token_short none))
      else if c.auth.mode == "oidc"
      then unless (c.proxy.transport == "http") auth_transport (validate_oidc_config c.auth.oidc)
      else some auth_mode

  abbrev lists_checked : Option AddressError → Option InvalidSetting
  lists_checked none = none
  lists_checked (some e) = some (access_lists e)

  -- The checks of the HTTP transport.
  unfoldable pub validate_http : ProxySettings → Option InvalidSetting
  validate_http p = unless (is_positive p.upstream_timeout_ms) upstream_timeout (
      unless (trim_space p.bind_address == p.bind_address && not (spaced p.bind_address))
        bind_address
        (unless (is_positive p.http.max_request_body_bytes) body_bytes (
          unless (is_positive p.http.max_header_bytes) header_bytes (
            unless
              (is_positive p.http.read_header_timeout
                && is_positive p.http.read_timeout
                && is_positive p.http.write_timeout
                && is_positive p.http.idle_timeout)
              timeouts
              (lists_checked (
                validate_http_access_lists table net p.http.allowed_origins
                  p.http.allowed_hosts))))))

  unfoldable pub validate_proxy : ProxySettings → Option InvalidSetting
  validate_proxy p = unless (p.transport == "stdio" || p.transport == "http") transport (
      unless (not (p.upstream == "")) upstream (
        and_check (if p.transport == "http" then validate_http p else none) (
          unless (not (is_negative p.max_retries)) retries (
            unless (forward_headers_allowed p.forward_headers) forward_headers (
              unless (same (p.tls.client_cert_file == "") (p.tls.client_key_file == ""))
                client_certificate
                (unless (not (p.tls.enabled && not (p.transport == "http"))) tls_transport (
                  unless (not (p.tls.enabled && (p.tls.cert_file == "" || p.tls.key_file == "")))
                    tls_files
                    (unless
                      (not (
                        not p.tls.enabled
                        && (not (p.tls.cert_file == "") || not (p.tls.key_file == ""))))
                      tls_disabled none))))))))

  unfoldable pub validate_dashboard : DashboardSettings → Option InvalidSetting
  validate_dashboard d =
      if not d.enabled
      then none
      else unless (not (trim_space d.bind_address == "")) dashboard_address (
          unless (is_positive d.port && not (int_ltb (pos 65535) d.port)) dashboard_port (
            unless (d.token == "" || (trim_space d.token == d.token && not (spaced d.token)))
              dashboard_token none))

  unfoldable pub validate_otel : OtelSettings → Option InvalidSetting
  validate_otel o =
      if not o.enabled
      then none
      else unless (not (o.endpoint == "")) otel_endpoint
          (unless (not (is_negative o.max_retries)) otel_retries none)

  -- `rotationConfigured`.
  unfoldable pub rotation_configured : AuditSettings → Bool
  rotation_configured a =
      is_positive a.max_size_bytes
      || is_positive a.max_files
      || not (a.interval == "")
      || is_positive a.max_age_days

  unfoldable pub validate_audit : AuditSettings → Option InvalidSetting
  validate_audit a = unless (a.storage == "jsonl" || a.storage == "sqlite") storage (
      unless (not (a.sign && (trim_space a.key_id == "" || spaced a.key_id))) key_id (
        unless (not (a.sign && trim_space a.secret == "")) secret (
          unless (not (is_negative a.max_size_bytes)) rotation_size (
            unless (not (is_negative a.max_files)) rotation_files (
              unless (not (is_negative a.max_age_days)) rotation_age (
                unless (a.interval == "" || a.interval == "hourly" || a.interval == "daily")
                  rotation_interval
                  (unless (not (a.storage == "sqlite" && rotation_configured a)) rotation_storage
                    none)))))))

  -- `validateConfig`.
  unfoldable pub validate_config : AppConfig → Option InvalidSetting
  validate_config c = and_check (validate_proxy c.proxy) (
      and_check (validate_auth_config c) (
        unless (has_prefix c.metrics_path "/") metrics_path (
          and_check (validate_dashboard c.dashboard)
            (and_check (validate_otel c.otel) (validate_audit c.audit)))))

-- The settings of retries that `NewHTTPProxy` uses, in milliseconds.
abbrev pub retries_or_zero : ℤ → ℤ
retries_or_zero n = if is_negative n then pos 0 else n

abbrev pub or_default_interval : ℤ → ℤ → ℤ
or_default_interval default_ms n = if is_positive n then n else default_ms

pub record RetrySettings : Type 0 where
  pub max_retries : ℤ
  pub initial_interval_ms : ℤ
  pub max_interval_ms : ℤ

abbrev pub at_least : ℤ → ℤ → ℤ
at_least initial n = if int_ltb n initial then initial else n

unfoldable pub retry_settings : RetrySettings → RetrySettings
retry_settings r = record {
  max_retries = retries_or_zero r.max_retries;
  initial_interval_ms = or_default_interval (pos 200) r.initial_interval_ms;
  max_interval_ms =
      at_least (or_default_interval (pos 200) r.initial_interval_ms)
        (or_default_interval (pos 2000) r.max_interval_ms);
}
