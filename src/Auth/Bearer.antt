-- ===== src/Auth/Bearer.antt =====
-- internal/auth/static_bearer.go: which requests the bearer token lets in.
use Prim.Native.String
use mcp_audit.Base.{
  String, Bool, true, false, ◌||◌, ◌≡◌, refl, sym, ap, inl, inr, List, [], ◌∷◌, Result, ok, err,
  ◌==◌, eq_iff, Bool-cases, Option, none, some, ltb,
}
use mcp_audit.Base.Scan.{cut, contains_where}
use mcp_audit.Base.Header.{Header, values}
use mcp_audit.Auth.{
  Principal, AuthError, StaticBearer, is_blank, token_of, token_of_values, bearer_token,
  new_static_bearer, static_checked, authenticate_static,
}

-- One `Authorization` value, of the scheme `Bearer` and a token without blanks.
pub record Presents (equal_fold : String → String → Bool) (h : Header) (token : String)
    : Type 0 where
  pub value : String
  pub scheme : String
  pub single : values "Authorization" h ≡ value ∷ []
  pub splits : cut 32 value ≡ some (scheme, token)
  pub bearer : equal_fold scheme "Bearer" ≡ true
  pub not_empty : (token == "") ≡ false
  pub no_blank : contains_where is_blank token ≡ false

module _ (sha256 : String → String) (equal_fold : String → String → Bool) where
  token_of-parts :
      (o : Option (String × String)) (token : String)
      → token_of equal_fold o ≡ ok token
      → (scheme : String) × (o ≡ some (scheme, token))
        × (equal_fold scheme "Bearer" ≡ true)
        × ((token == "") ≡ false)
        × (contains_where is_blank token ≡ false)
  token_of-parts none token h = cc h
  token_of-parts (some (scheme, t)) token h = elim (Bool-cases (equal_fold scheme "Bearer")) [
    | inr other ↦ cc (rw other at h)
    | inl bearer ↦ elim (Bool-cases (t == "")) [
      | inl empty ↦ cc (rw (bearer, empty) at h)
      | inr shown ↦ elim (Bool-cases (contains_where is_blank t)) [
        | inl blank ↦ cc (rw (bearer, shown, blank) at h)
        | inr solid ↦
            let given : ◌≡◌ {A = Result AuthError String} (ok t) (ok token) =
              rw (bearer, shown, solid) at h in
            let same : t ≡ token = cc given in
            (scheme, cc same, bearer, rw (← same) shown, rw (← same) solid)
      ]
    ]
  ]

  bearer_token-Presents :
      (h : Header) (vs : List String) (token : String)
      → values "Authorization" h ≡ vs
      → token_of_values equal_fold vs ≡ ok token
      → Presents equal_fold h token
  bearer_token-Presents h [] token e g = cc g
  bearer_token-Presents h (v ∷ []) token e g =
      let (scheme, splits, bearer, shown, solid) = token_of-parts (cut 32 v) token g in
      record {
        value = v;
        scheme = scheme;
        single = e;
        splits = splits;
        bearer = bearer;
        not_empty = shown;
        no_blank = solid;
      }
  bearer_token-Presents h (v ∷ w ∷ ws) token e g = cc g

  checked-accepted :
      (a : StaticBearer) (r : Result AuthError String) (p : Principal)
      → static_checked sha256 equal_fold a r ≡ ok p
      → (token : String) × (r ≡ ok token) × (sha256 token ≡ a.token_hash) × (p ≡ a.principal)
  checked-accepted a (err x) p h = cc h
  checked-accepted a (ok token) p h = elim (Bool-cases (sha256 token == a.token_hash)) [
    | inr other ↦ cc (rw other at h)
    | inl same ↦
        let given : ◌≡◌ {A = Result AuthError Principal} (ok a.principal) (ok p) = rw same at h in
        (token, refl, (eq_iff (sha256 token) a.token_hash).0 same, cc given)
  ]

  -- A request that the authenticator accepts has exactly one `Authorization` value, of the scheme
  -- `Bearer` and a token without blanks whose hash is the configured one; it gets the configured
  -- principal.
  pub authenticate_static-accepted :
      (a : StaticBearer) (h : Header) (p : Principal)
      → authenticate_static sha256 equal_fold a h ≡ ok p
      → (p ≡ a.principal)
        × ((token : String) × Presents equal_fold h token × (sha256 token ≡ a.token_hash))
  unfolding authenticate_static bearer_token
  authenticate_static-accepted a h p g =
      let (token, given, hash, same) =
        checked-accepted a (token_of_values equal_fold (values "Authorization" h)) p g in
      (same, (token, bearer_token-Presents h (values "Authorization" h) token refl given, hash))

  -- What the constructor checked and stored.
  pub record Made (token : String) (p : Principal) (a : StaticBearer) : Type 0 where
    pub hash : a.token_hash ≡ sha256 token
    pub principal : a.principal ≡ p
    pub long : ltb (String.len token) 32 ≡ false

  new_static_bearer-Made :
      (token : String) (p : Principal) (a : StaticBearer)
      → new_static_bearer sha256 equal_fold token p ≡ ok a
      → Made token p a
  unfolding new_static_bearer
  new_static_bearer-Made token p a h = elim (Bool-cases (ltb (String.len token) 32)) [
    | inl short ↦ cc (rw short at h)
    | inr long ↦ elim (Bool-cases (p.subject == "" || p.client_id == "")) [
      | inl empty ↦ cc (rw (long, empty) at h)
      | inr named ↦
          let given : ◌≡◌ {A = Result AuthError StaticBearer}
              (ok (record { token_hash = sha256 token; principal = p })) (ok a) =
            rw (long, named) at h in
          let same : record { token_hash = sha256 token; principal = p } ≡ a = cc given in
          record {
            hash = sym (ap (λ b. b.token_hash) same);
            principal = sym (ap (λ b. b.principal) same);
            long = long;
          }
    ]
  ]

  -- A client that presents the token an authenticator was made for, as one `Authorization` value
  -- of the scheme `Bearer`, is accepted as the principal it was made for.
  pub new_static_bearer-accepts :
      (token : String) (p : Principal) (a : StaticBearer) (h : Header)
      → new_static_bearer sha256 equal_fold token p ≡ ok a
      → Presents equal_fold h token
      → authenticate_static sha256 equal_fold a h ≡ ok p
  unfolding authenticate_static bearer_token
  new_static_bearer-accepts token p a h made given =
      let m = new_static_bearer-Made token p a made in
      let same : (sha256 token == a.token_hash) ≡ true =
        (eq_iff (sha256 token) a.token_hash).1 (sym m.hash) in
      rw
        (
          given.single, given.splits, given.bearer, given.not_empty, given.no_blank, same,
          m.principal,
        )
        refl
