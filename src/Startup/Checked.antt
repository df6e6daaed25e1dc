-- ===== src/Startup/Checked.antt =====
-- cmd/mcp-audit/main.go: what the checks of the configuration are good for.
use Prim.Native.Char.{Char}
use Prim.Native.String
use mcp_audit.Base.{
  ℕ, eq_iff, ◌&&◌, ℤ, pos, int_ltb, int_ltb-irreflexive, is_positive, String, Bool, true, false,
  not, ◌||◌, ◌≡◌, refl, inl, inr, List, [], ◌∷◌, Option, none, some, ok, ◌==◌, ltb, Bool-cases,
}
use mcp_audit.Auth.Jwks.{
  JwtSettings, text_or, duration_or, methods_or_default, jwt_defaults, preflight_jwks,
  new_jwt_authenticator,
}
use mcp_audit.Auth.{new_none_authenticator, new_static_bearer}
use mcp_audit.Http.Hosts.{Net}
use mcp_audit.Startup.{
  is_negative, methods_allowed, validate_oidc_config, oidc_required, oidc_issuer, oidc_jwks,
  oidc_claims, oidc_times, oidc_methods, RetrySettings, or_default_interval, at_least,
  retry_settings, AppConfig, OidcSettings, InvalidSetting, unless, and_check,
  static_principal_given, validate_auth_config, validate_config, client_id_of, principal_required,
  auth_transport, token_short,
}
use mcp_audit.Startup.Authenticator.{
  jwt_settings, Authenticator, fixed, bearer, signed_tokens, static_principal, new_authenticator,
}

unless-parts :
    (good : Bool) (x : InvalidSetting) (rest : Option InvalidSetting)
    → unless good x rest ≡ none
    → (good ≡ true) × (rest ≡ none)
unfolding unless
unless-parts true x rest h = (refl, h)
unless-parts false x rest h = cc h

and_check-parts : (a b : Option InvalidSetting) → and_check a b ≡ none → (a ≡ none) × (b ≡ none)
unfolding and_check
and_check-parts none b h = (refl, h)
and_check-parts (some x) b h = cc h

not-false : (b : Bool) → not b ≡ true → b ≡ false
not-false true h = cc h
not-false false h = refl

default-positive : (n : ℤ) → is_positive (or_default_interval (pos 200) n) ≡ true
default-positive n = elim (Bool-cases (is_positive n)) [
  | inl set ↦ rw (set, set) refl
  | inr unset ↦ rw unset refl
]

at_least-ordered : (first most : ℤ) → int_ltb (at_least first most) first ≡ false
at_least-ordered first most = elim (Bool-cases (int_ltb most first)) [
  | inl small ↦ rw small (int_ltb-irreflexive first)
  | inr large ↦ rw (large, large) refl
]

or-unchanged : (default s : String) → (s == "") ≡ false → text_or default s ≡ s
or-unchanged default s h = rw h refl

duration-unchanged : (default d : ℤ) → is_positive d ≡ true → duration_or default d ≡ d
duration-unchanged default d h = rw h refl

neither : (a b : Bool) → not (a || b) ≡ true → (a ≡ false) × (b ≡ false)
neither true b h = cc h
neither false true h = cc h
neither false false h = (refl, refl)

both : (a b : Bool) → a && b ≡ true → (a ≡ true) × (b ≡ true)
both true b h = (refl, h)
both false b h = cc h

module _ {J : Type 0} (table : Char → Char) (net : Net) (sha256 : String → String)
    (equal_fold : String → String → Bool) (fetch : String → ℤ → Option (ℕ × Option String))
    (is_jwks : String → Bool) (cache : JwtSettings → Option J) where
  methods-unchanged :
      (ms : List String) → methods_allowed table net ms ≡ true → methods_or_default ms ≡ ms
  methods-unchanged [] h = cc h
  methods-unchanged (m ∷ ms) h = refl

  -- Settings that pass the checks get no default, and pass the checks of the constructor.
  record Complete (c : JwtSettings) : Type 0 where
    same : jwt_defaults c ≡ c
    given : (c.issuer == "" || c.audience == "" || c.jwks_uri == "") ≡ false
    skew : int_ltb c.clock_skew (pos 0) ≡ false

  oidc-Complete :
      (o : OidcSettings) → validate_oidc_config table net o ≡ none → Complete (jwt_settings o)
  unfolding validate_oidc_config jwt_defaults
  oidc-Complete o h =
      let (given, r1) = unless-parts _ oidc_required _ h in
      let (a, r2) = unless-parts _ oidc_issuer _ r1 in
      let (b, r3) = unless-parts _ oidc_jwks _ r2 in
      let (claims, r4) = unless-parts _ oidc_claims _ r3 in
      let (times, r5) = unless-parts _ oidc_times _ r4 in
      let (methods, end) = unless-parts _ oidc_methods _ r5 in
      let (id_roles, scopes) =
        neither (o.client_id_claim == "" || o.roles_claim == "") (o.scopes_claim == "") claims in
      let (id, roles) =
        neither (o.client_id_claim == "") (o.roles_claim == "") (rw id_roles refl) in
      let (skew_timeout, refresh) =
        both (not (is_negative o.clock_skew) && is_positive o.http_timeout)
          (is_positive o.refresh_interval) times in
      let (skew, timeout) =
        both (not (is_negative o.clock_skew)) (is_positive o.http_timeout) skew_timeout in
      record {
        same =
            rw
              (
                or-unchanged "client_id" o.client_id_claim id,
                or-unchanged "roles" o.roles_claim roles,
                or-unchanged "scope" o.scopes_claim scopes,
                methods-unchanged o.allowed_methods methods,
                duration-unchanged (pos 5000000000) o.http_timeout timeout,
                duration-unchanged (pos 300000000000) o.refresh_interval refresh,
              )
              refl;
        given = not-false (o.issuer == "" || o.audience == "" || o.jwks_uri == "") given;
        skew = not-false (is_negative o.clock_skew) skew;
      }

  -- What the configuration asks for: a fixed principal, the hash of the token and its principal, or
  -- the settings as they are configured with the keys of the issuer.
  pub data Wanted (c : AppConfig) : Authenticator J → Type 0 where
    no_credentials : c.auth.mode ≡ "none" → Wanted c (fixed (static_principal c))
    one_token :
        c.auth.mode ≡ "static_bearer"
        → Wanted c (
            bearer (record {
              token_hash = sha256 c.auth.static.bearer_token;
              principal = static_principal c;
            }))
    issued :
        (keys : J)
        → c.auth.mode ≡ "oidc"
        → cache (jwt_settings c.auth.oidc) ≡ some keys
        → Wanted c (signed_tokens (jwt_settings c.auth.oidc, keys))

  -- The authenticator that a configuration makes is the one that it asks for.
  pub record Made (c : AppConfig) : Type 0 where
    pub authenticator : Authenticator J
    pub made : new_authenticator sha256 equal_fold fetch is_jwks cache c ≡ some authenticator
    pub wanted : Wanted c authenticator

  -- The key set at the issuer can be fetched, and the cache has its keys in time.
  pub record Reachable (o : OidcSettings) : Type 0 where
    pub keys : J
    pub fetched : preflight_jwks fetch is_jwks cache o.jwks_uri o.http_timeout ≡ ok tt
    pub ready : cache (jwt_settings o) ≡ some keys

  tokens-made :
      (c : JwtSettings) (keys : J)
      → Complete c
      → preflight_jwks fetch is_jwks cache c.jwks_uri c.http_timeout ≡ ok tt
      → cache c ≡ some keys
      → new_jwt_authenticator fetch is_jwks cache c ≡ ok (c, keys)
  unfolding new_jwt_authenticator
  tokens-made c keys h fetched ready = rw (h.given, h.skew, h.same, fetched, ready) refl

  auth-Made :
      (c : AppConfig)
      → validate_auth_config table net c ≡ none
      → (c.auth.mode ≡ "oidc" → Reachable c.auth.oidc)
      → Made c
  unfolding validate_auth_config new_authenticator static_principal_given new_none_authenticator
      new_static_bearer
  auth-Made c h reachable = elim (Bool-cases (c.auth.mode == "none")) [
    | inl open_mode ↦
        let (given, rest) =
          unless-parts (static_principal_given c) principal_required _ (rw open_mode at h) in
        let named = not-false (c.auth.static.subject == "" || client_id_of c == "") given in
        record {
          authenticator = fixed (static_principal c);
          made = rw (open_mode, named) refl;
          wanted = no_credentials ((eq_iff c.auth.mode "none").0 open_mode);
        }
    | inr closed ↦ elim (Bool-cases (c.auth.mode == "static_bearer")) [
      | inl token ↦
          let (given, rest) =
            unless-parts (static_principal_given c) principal_required _
              (rw (closed, token) at h) in
          let (http, last) = unless-parts (c.proxy.transport == "http") auth_transport _ rest in
          let (long, end) =
            unless-parts (not (ltb (String.len c.auth.static.bearer_token) 32)) token_short none
              last in
          let named = not-false (c.auth.static.subject == "" || client_id_of c == "") given in
          let size = not-false (ltb (String.len c.auth.static.bearer_token) 32) long in
          record {
            authenticator = bearer (record {
              token_hash = sha256 c.auth.static.bearer_token;
              principal = static_principal c;
            });
            made = rw (closed, token, size, named) refl;
            wanted = one_token ((eq_iff c.auth.mode "static_bearer").0 token);
          }
      | inr other ↦ elim (Bool-cases (c.auth.mode == "oidc")) [
        | inl oidc ↦
            let mode = (eq_iff c.auth.mode "oidc").0 oidc in
            let (http, checked) =
              unless-parts (c.proxy.transport == "http") auth_transport _
                (rw (closed, other, oidc) at h) in
            let r = reachable mode in
            let tokens =
              tokens-made (jwt_settings c.auth.oidc) r.keys (oidc-Complete c.auth.oidc checked)
                r.fetched r.ready in
            record {
              authenticator = signed_tokens (jwt_settings c.auth.oidc, r.keys);
              made = rw (closed, other, oidc, tokens) refl;
              wanted = issued r.keys mode r.ready;
            }
        | inr none_of_them ↦ cc (rw (closed, other, none_of_them) at h)
      ]
    ]
  ]

  -- A configuration that passes the checks has the authenticator that it asks for: a fixed
  -- principal, one bearer token, or, where the key set at the issuer can be fetched and cached in
  -- time, signed tokens under the settings as they are configured, with no default in their place.
  pub validate_config-Made :
      (c : AppConfig)
      → validate_config table net c ≡ none
      → (c.auth.mode ≡ "oidc" → Reachable c.auth.oidc)
      → Made c
  unfolding validate_config
  validate_config-Made c h reachable =
      let (proxy, r1) = and_check-parts _ _ h in
      let (auth, r2) = and_check-parts _ _ r1 in auth-Made c auth reachable

-- Whatever the configuration says, the HTTP proxy retries with a positive first interval and a
-- largest interval that is not below it.
pub retry_settings-ordered :
    (r : RetrySettings)
    → (is_positive (retry_settings r).initial_interval_ms ≡ true)
      × (int_ltb (retry_settings r).max_interval_ms (retry_settings r).initial_interval_ms ≡ false)
unfolding retry_settings
retry_settings-ordered r =
    let first = or_default_interval (pos 200) r.initial_interval_ms in
    let most = or_default_interval (pos 2000) r.max_interval_ms in
    (default-positive r.initial_interval_ms, at_least-ordered first most)
