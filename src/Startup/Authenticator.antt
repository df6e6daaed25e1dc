-- ===== src/Startup/Authenticator.antt =====
-- cmd/mcp-audit/main.go, newAuthenticator: the authenticator that a configuration makes.
--
-- What NewJWTAuthenticator needs of other packages are the parameters of Auth/Jwks.
use mcp_audit.Base.{ℕ, ℤ, String, Bool, Option, none, some, Result, ok, err, ◌==◌, if◌then◌else◌}
use mcp_audit.Auth
use mcp_audit.Auth.{AuthError, Principal, StaticBearer, new_none_authenticator, new_static_bearer}
use mcp_audit.Auth.Jwks.{JwtSettings, JwksError, new_jwt_authenticator}
use mcp_audit.Startup.{AppConfig, OidcSettings, client_id_of}

-- What `newAuthenticator` makes.
pub data Authenticator (J : Type 0) : Type 0 where
  fixed : Auth.Principal → Authenticator J
  bearer : StaticBearer → Authenticator J
  signed_tokens : JwtSettings × J → Authenticator J

abbrev pub static_principal : AppConfig → Auth.Principal
static_principal c = record {
  subject = c.auth.static.subject;
  client_id = client_id_of c;
  issuer = c.auth.static.issuer;
  roles = c.auth.static.roles;
  scopes = c.auth.static.scopes;
}

abbrev pub jwt_settings : OidcSettings → JwtSettings
jwt_settings o = record {
  issuer = o.issuer;
  audience = o.audience;
  jwks_uri = o.jwks_uri;
  client_id_claim = o.client_id_claim;
  roles_claim = o.roles_claim;
  scopes_claim = o.scopes_claim;
  allowed_methods = o.allowed_methods;
  clock_skew = o.clock_skew;
  http_timeout = o.http_timeout;
  refresh_interval = o.refresh_interval;
}

module _ {J : Type 0} (sha256 : String → String) (equal_fold : String → String → Bool)
    (fetch : String → ℤ → Option (ℕ × Option String)) (is_jwks : String → Bool)
    (cache : JwtSettings → Option J) where
  abbrev pub fixed_of : Result AuthError Auth.Principal → Option (Authenticator J)
  fixed_of (err x) = none
  fixed_of (ok p) = some (fixed p)

  abbrev pub bearer_of : Result AuthError StaticBearer → Option (Authenticator J)
  bearer_of (err x) = none
  bearer_of (ok a) = some (bearer a)

  abbrev pub tokens_of : Result JwksError (JwtSettings × J) → Option (Authenticator J)
  tokens_of (err x) = none
  tokens_of (ok j) = some (signed_tokens j)

  -- `newAuthenticator`.
  unfoldable pub new_authenticator : AppConfig → Option (Authenticator J)
  new_authenticator c =
      if c.auth.mode == "none"
      then fixed_of (new_none_authenticator (static_principal c))
      else if c.auth.mode == "static_bearer"
      then bearer_of
          (new_static_bearer sha256 equal_fold c.auth.static.bearer_token (static_principal c))
      else if c.auth.mode == "oidc"
      then tokens_of (new_jwt_authenticator fetch is_jwks cache (jwt_settings c.auth.oidc))
      else none
