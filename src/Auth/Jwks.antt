-- ===== src/Auth/Jwks.antt =====
-- internal/auth/jwt.go, NewJWTAuthenticator and preflightJWKS: what an authenticator of signed tokens
-- is made from.
--
-- The HTTP client's answer to a GET is the parameter `fetch`: a status, and the first bytes of the
-- body, none where they cannot be read. `is_jwks` is `NewJWKSetJSON`, and `cache` the key cache of
-- package keyfunc, none where it cannot be made or has no keys in time.
use Prim.Native.String
use mcp_audit.Base.{
  ℕ, ℤ, pos, is_positive, int_ltb, String, Bool, not, ◌||◌, List, [], ◌∷◌, Option, none, some,
  Result, ok, err, ◌==◌, if◌then◌else◌, ltb,
}

pub record JwtSettings : Type 0 where
  pub issuer : String
  pub audience : String
  pub jwks_uri : String
  pub client_id_claim : String
  pub roles_claim : String
  pub scopes_claim : String
  pub allowed_methods : List String
  pub clock_skew : ℤ
  pub http_timeout : ℤ
  pub refresh_interval : ℤ

pub data JwksError : Type 0 where
  settings_required skew_negative fetch_failed bad_status unreadable too_large : JwksError
  not_a_key_set cache_not_ready : JwksError

abbrev pub text_or : String → String → String
text_or default s = if s == "" then default else s

abbrev pub duration_or : ℤ → ℤ → ℤ
duration_or default d = if is_positive d then d else default

abbrev pub methods_or_default : List String → List String
methods_or_default [] = "RS256" ∷ "RS384" ∷ "RS512" ∷ "ES256" ∷ "ES384" ∷ "ES512" ∷ "EdDSA" ∷ []
methods_or_default (m ∷ ms) = m ∷ ms

-- The defaults of `NewJWTAuthenticator`, durations in nanoseconds.
unfoldable pub jwt_defaults : JwtSettings → JwtSettings
jwt_defaults c = record c {
  client_id_claim = text_or "client_id" c.client_id_claim;
  roles_claim = text_or "roles" c.roles_claim;
  scopes_claim = text_or "scope" c.scopes_claim;
  allowed_methods = methods_or_default c.allowed_methods;
  http_timeout = duration_or (pos 5000000000) c.http_timeout;
  refresh_interval = duration_or (pos 300000000000) c.refresh_interval;
}

abbrev pub max_jwks_bytes : ℕ
max_jwks_bytes = 1048576

module _ {K : Type 0} (fetch : String → ℤ → Option (ℕ × Option String)) (is_jwks : String → Bool)
    (cache : JwtSettings → Option K) where
  abbrev pub checked_body : Option String → Result JwksError (Unit {0})
  checked_body none = err unreadable
  checked_body (some raw) =
      if ltb max_jwks_bytes (String.len raw)
      then err too_large
      else if not (is_jwks raw)
      then err not_a_key_set
      else ok tt

  abbrev pub checked_response : Option (ℕ × Option String) → Result JwksError (Unit {0})
  checked_response none = err fetch_failed
  checked_response (some (status, body)) =
      if ltb status 200 || not (ltb status 300) then err bad_status else checked_body body

  -- `preflightJWKS`.
  unfoldable pub preflight_jwks : String → ℤ → Result JwksError (Unit {0})
  preflight_jwks uri timeout = checked_response (fetch uri timeout)

  abbrev pub cached : JwtSettings → Option K → Result JwksError (JwtSettings × K)
  cached c none = err cache_not_ready
  cached c (some keys) = ok (c, keys)

  abbrev pub after_preflight :
      JwtSettings → Result JwksError (Unit {0}) → Result JwksError (JwtSettings × K)
  after_preflight c (err x) = err x
  after_preflight c (ok tt) = cached c (cache c)

  -- `NewJWTAuthenticator`: the configuration with its defaults, and the keys.
  unfoldable pub new_jwt_authenticator : JwtSettings → Result JwksError (JwtSettings × K)
  new_jwt_authenticator c =
      if c.issuer == "" || c.audience == "" || c.jwks_uri == ""
      then err settings_required
      else if int_ltb c.clock_skew (pos 0)
      then err skew_negative
      else after_preflight (jwt_defaults c)
          (preflight_jwks (jwt_defaults c).jwks_uri (jwt_defaults c).http_timeout)
