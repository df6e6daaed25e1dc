-- ===== src/Startup/Tests.antt =====
-- A configuration that passes, and three that do not.
use Prim.Native.Char.{Char}
use mcp_audit.Auth.Jwks.{JwtSettings, bad_status, preflight_jwks}
use mcp_audit.Base.{
  ℕ, ℤ, err, pos, String, Bool, true, false, ◌≡◌, refl, [], ◌∷◌, Option, none, some, ◌==◌,
}
use mcp_audit.Base.Text.{is_space, trim_space, to_lower, has_prefix}
use mcp_audit.Base.Scan.{contains_where, count_char, has_suffix, trim_suffix}
use mcp_audit.Http.Hosts.{
  Net, normalize_hostname, normalized_allowed_origins, normalized_allowed_hosts,
  validate_http_access_lists,
}
use mcp_audit.Startup.{
  validate_oidc_config, AppConfig, unless, and_check, static_principal_given,
  forward_headers_allowed, validate_auth_config, validate_http, validate_proxy, validate_dashboard,
  validate_otel, validate_audit, validate_config, rotation_configured, token_short, forward_headers,
  rotation_storage,
}
use mcp_audit.Startup.Checked.{Reachable, Made, validate_config-Made}

abbrev same_char : Char → Char
same_char c = c

abbrev net : Net
net = record { url_parse = λ s. none; split_host_port = λ s. none; is_ip = λ s. false }

abbrev config : AppConfig
config = record {
  proxy = record {
    transport = "http";
    upstream = "http://up";
    bind_address = "127.0.0.1";
    upstream_timeout_ms = pos 5;
    forward_headers = "authorization" ∷ [];
    http = record {
      max_request_body_bytes = pos 10;
      max_header_bytes = pos 10;
      read_header_timeout = pos 1;
      read_timeout = pos 1;
      write_timeout = pos 1;
      idle_timeout = pos 1;
      allowed_origins = [];
      allowed_hosts = "proxy" ∷ [];
    };
    tls = record {
      enabled = false;
      cert_file = "";
      key_file = "";
      client_cert_file = "";
      client_key_file = "";
    };
    max_retries = pos 2;
    client_id = "cli";
  };
  auth = record {
    mode = "none";
    static = record {
      bearer_token = "";
      subject = "ops";
      client_id = "";
      issuer = "static";
      roles = [];
      scopes = [];
    };
    oidc = record {
      issuer = "";
      audience = "";
      jwks_uri = "";
      client_id_claim = "";
      roles_claim = "";
      scopes_claim = "";
      allowed_methods = [];
      clock_skew = pos 0;
      http_timeout = pos 0;
      refresh_interval = pos 0;
    };
  };
  audit = record {
    storage = "jsonl";
    sign = true;
    secret = "s";
    key_id = "k";
    max_size_bytes = pos 0;
    max_files = pos 3;
    interval = "daily";
    max_age_days = pos 0;
  };
  metrics_path = "/metrics";
  dashboard = record { enabled = false; bind_address = ""; port = pos 0; token = "" };
  otel = record { enabled = false; endpoint = ""; max_retries = pos 0 };
}

passes : validate_config same_char net config ≡ none
unfolding validate_config validate_proxy validate_http validate_http_access_lists
    normalized_allowed_origins normalized_allowed_hosts normalize_hostname forward_headers_allowed
    validate_auth_config static_principal_given validate_dashboard validate_otel validate_audit
    rotation_configured unless and_check trim_space contains_where is_space to_lower has_prefix
    count_char has_suffix trim_suffix
passes = refl

abbrev hash : String → String
hash s = s

abbrev fold : String → String → Bool
fold a b = a == b

abbrev fetch : String → ℤ → Option (ℕ × Option String)
fetch uri timeout = some (200, some "keys")

abbrev is_jwks : String → Bool
is_jwks raw = raw == "keys"

abbrev cache : JwtSettings → Option Bool
cache c = some true

abbrev issued_tokens : AppConfig
issued_tokens = record config {
  auth = record (config.auth) {
    mode = "oidc";
    oidc = record {
      issuer = "https://id";
      audience = "mcp";
      jwks_uri = "https://id";
      client_id_claim = "cid";
      roles_claim = "groups";
      scopes_claim = "scp";
      allowed_methods = "RS256" ∷ [];
      clock_skew = pos 0;
      http_timeout = pos 5;
      refresh_interval = pos 60;
    };
  };
}

abbrev id_net : Net
id_net = record net {
  url_parse = λ s. some (record {
    scheme = "https";
    host = "id";
    has_user = false;
    path = "";
    raw_query = "";
    fragment = "";
    hostname = "id";
    port = "";
  });
}

passes_oidc : validate_config same_char id_net issued_tokens ≡ none
unfolding validate_config validate_proxy validate_http validate_http_access_lists
    normalized_allowed_origins normalized_allowed_hosts normalize_hostname forward_headers_allowed
    validate_auth_config validate_oidc_config static_principal_given validate_dashboard
    validate_otel validate_audit rotation_configured unless and_check trim_space contains_where
    is_space to_lower has_prefix count_char has_suffix trim_suffix
passes_oidc = refl

reachable : Reachable same_char id_net hash fold fetch is_jwks cache (issued_tokens.auth.oidc)
unfolding preflight_jwks
reachable = record { keys = true; fetched = refl; ready = refl }

validate_config-Made_example : Made same_char id_net hash fold fetch is_jwks cache issued_tokens
validate_config-Made_example =
    validate_config-Made same_char id_net hash fold fetch is_jwks cache issued_tokens passes_oidc
      (λ mode. reachable)

no_keys :
    preflight_jwks (λ uri timeout. some (404, some "keys")) is_jwks cache "https://id" (pos 5)
    ≡ err bad_status
unfolding preflight_jwks
no_keys = refl

short_token :
    validate_auth_config same_char net (record config {
      auth = record (config.auth) {
        mode = "static_bearer";
        static = record (config.auth.static) { bearer_token = "abc" };
      };
    })
    ≡ some token_short
unfolding validate_auth_config static_principal_given unless
short_token = refl

cookie :
    validate_proxy same_char net (record (config.proxy) { forward_headers = "cookie" ∷ [] })
    ≡ some forward_headers
unfolding validate_proxy validate_http validate_http_access_lists normalized_allowed_origins
    normalized_allowed_hosts normalize_hostname forward_headers_allowed unless and_check trim_space
    contains_where is_space to_lower has_prefix count_char has_suffix trim_suffix
cookie = refl

sqlite_rotation :
    validate_audit same_char net (record (config.audit) { storage = "sqlite" })
    ≡ some rotation_storage
unfolding validate_audit rotation_configured unless trim_space contains_where is_space
sqlite_rotation = refl
