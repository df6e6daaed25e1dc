-- ===== src/Auth/Claims.antt =====
-- internal/auth/jwt.go: what a token that is accepted says of the principal.
use mcp_audit.Base.{
  String, Bool, true, false, ◌≡◌, refl, inl, inr, List, [], ◌∷◌, Result, ok, err, ◌==◌, eq_iff,
  Bool-cases, Option, none, some,
}
use mathlib.Core.Path.{subst}
use mcp_audit.Base.{lookup}
use mcp_audit.Base.Header.{Header}
use mcp_audit.Auth.{
  is_seen, deduplicate_from, deduplicate_strings, Principal, AuthError, Claims, ClaimValue,
  claim_text, claim_list, claim_other, JwtConfig, texts_of, list_value, string_list_claim,
  string_claim, with_scopes, with_roles, with_client, with_subject, with_claims, with_token,
  authenticate_jwt, bearer_token, deduplicated,
}

-- No text stands twice, and none is one of the list `seen`.
abbrev pub NewTo : List String → List String → Type 0
NewTo seen [] = Unit
NewTo seen (v ∷ vs) = (is_seen v seen ≡ false) × NewTo (v ∷ seen) vs

deduplicate_from-NewTo : (seen vs : List String) → NewTo seen (deduplicate_from seen vs)
unfolding deduplicate_from
deduplicate_from-NewTo seen [] = tt
deduplicate_from-NewTo seen (v ∷ vs) = elim (Bool-cases (is_seen v seen)) [
  | inl old ↦ rw old (deduplicate_from-NewTo seen vs)
  | inr new ↦ rw new (new, deduplicate_from-NewTo (v ∷ seen) vs)
]

deduplicate_from-keeps :
    (x : String) (seen vs : List String)
    → is_seen x seen ≡ false
    → is_seen x (deduplicate_from seen vs) ≡ is_seen x vs
unfolding deduplicate_from
deduplicate_from-keeps x seen [] h = refl
deduplicate_from-keeps x seen (v ∷ vs) h = elim (Bool-cases (v == x)) [
  | inl same ↦
      let here : v ≡ x = (eq_iff v x).0 same in
      let new : is_seen v seen ≡ false = rw here h in rw (new, same) refl
  | inr other ↦ elim (Bool-cases (is_seen v seen)) [
    | inl old ↦ rw (old, other) (deduplicate_from-keeps x seen vs h)
    | inr new ↦ rw (new, other) (deduplicate_from-keeps x (v ∷ seen) vs (rw (other, h) refl))
  ]
]

-- The roles and the scopes of a token are those of its claims, each once.
pub deduplicate_strings-same_set :
    (vs : List String)
    → NewTo [] (deduplicate_strings vs)
      × ((x : String) → is_seen x (deduplicate_strings vs) ≡ is_seen x vs)
deduplicate_strings-same_set vs =
    (deduplicate_from-NewTo [] vs, λ x. deduplicate_from-keeps x [] vs refl)

deduplicated-NewTo :
    (o : Option (List String)) (vs : List String) → deduplicated o ≡ ok vs → NewTo [] vs
deduplicated-NewTo none vs h = cc h
deduplicated-NewTo (some ws) vs h =
    let same : deduplicate_strings ws ≡ vs = cc h in rw (← same) (deduplicate_from-NewTo [] ws)

list_value-NewTo :
    (split : Bool) (o : Option ClaimValue) (vs : List String)
    → list_value split o ≡ ok vs
    → NewTo [] vs
list_value-NewTo split none vs h = let same : [] ≡ vs = cc h in rw (← same) tt
list_value-NewTo split (some (claim_text s)) vs h = deduplicated-NewTo (some _) vs h
list_value-NewTo split (some (claim_list items)) vs h = deduplicated-NewTo (texts_of items) vs h
list_value-NewTo split (some claim_other) vs h = cc h

module _ (equal_fold : String → String → Bool) (parse_with_claims : String → Option Claims)
    (config : JwtConfig) where
  -- What a principal made from claims has.
  pub record Projected (claims : Claims) (p : Principal) : Type 0 where
    pub subject : string_claim claims "sub" ≡ some p.subject
    pub subject_given : (p.subject == "") ≡ false
    pub client : string_claim claims config.client_id_claim ≡ some p.client_id
    pub client_given : (p.client_id == "") ≡ false
    pub issuer : p.issuer ≡ config.issuer
    pub roles : string_list_claim claims config.roles_claim false ≡ ok p.roles
    pub roles_once : NewTo [] p.roles
    pub scopes : string_list_claim claims config.scopes_claim true ≡ ok p.scopes
    pub scopes_once : NewTo [] p.scopes

  with_scopes-Projected :
      (claims : Claims) (subject client_id : String) (roles : List String)
      (r : Result AuthError (List String)) (p : Principal)
      → string_claim claims "sub" ≡ some subject
      → (subject == "") ≡ false
      → string_claim claims config.client_id_claim ≡ some client_id
      → (client_id == "") ≡ false
      → string_list_claim claims config.roles_claim false ≡ ok roles
      → string_list_claim claims config.scopes_claim true ≡ r
      → with_scopes equal_fold parse_with_claims config subject client_id roles r ≡ ok p
      → Projected claims p
  unfolding string_list_claim
  with_scopes-Projected claims subject client_id roles (err x) p s sg c cg r e h = cc h
  with_scopes-Projected claims subject client_id roles (ok scopes) p s sg c cg r e h =
      let same : record {
        subject = subject;
        client_id = client_id;
        issuer = config.issuer;
        roles = roles;
        scopes = scopes;
      }
          ≡ p =
        cc h in
      subst (Projected claims) same (record {
        subject = s;
        subject_given = sg;
        client = c;
        client_given = cg;
        issuer = refl;
        roles = r;
        roles_once = list_value-NewTo false (lookup config.roles_claim claims) roles r;
        scopes = e;
        scopes_once = list_value-NewTo true (lookup config.scopes_claim claims) scopes e;
      })

  with_roles-Projected :
      (claims : Claims) (subject client_id : String) (r : Result AuthError (List String))
      (p : Principal)
      → string_claim claims "sub" ≡ some subject
      → (subject == "") ≡ false
      → string_claim claims config.client_id_claim ≡ some client_id
      → (client_id == "") ≡ false
      → string_list_claim claims config.roles_claim false ≡ r
      → with_roles equal_fold parse_with_claims config claims subject client_id r ≡ ok p
      → Projected claims p
  with_roles-Projected claims subject client_id (err x) p s sg c cg r h = cc h
  with_roles-Projected claims subject client_id (ok roles) p s sg c cg r h =
      with_scopes-Projected claims subject client_id roles
        (string_list_claim claims config.scopes_claim true) p s sg c cg r refl h

  with_client-Projected :
      (claims : Claims) (subject : String) (o : Option String) (p : Principal)
      → string_claim claims "sub" ≡ some subject
      → (subject == "") ≡ false
      → string_claim claims config.client_id_claim ≡ o
      → with_client equal_fold parse_with_claims config claims subject o ≡ ok p
      → Projected claims p
  with_client-Projected claims subject none p s sg e h = cc h
  with_client-Projected claims subject (some client_id) p s sg e h =
      elim (Bool-cases (client_id == "")) [
        | inl empty ↦ cc (rw empty at h)
        | inr given ↦
            with_roles-Projected claims subject client_id
              (string_list_claim claims config.roles_claim false) p s sg e given refl
              (rw given at h)
      ]

  with_subject-Projected :
      (claims : Claims) (o : Option String) (p : Principal)
      → string_claim claims "sub" ≡ o
      → with_subject equal_fold parse_with_claims config claims o ≡ ok p
      → Projected claims p
  with_subject-Projected claims none p e h = cc h
  with_subject-Projected claims (some subject) p e h = elim (Bool-cases (subject == "")) [
    | inl empty ↦ cc (rw empty at h)
    | inr given ↦
        with_client-Projected claims subject (string_claim claims config.client_id_claim) p e given
          refl (rw given at h)
  ]

  with_claims-Projected :
      (token : String) (o : Option Claims) (p : Principal)
      → parse_with_claims token ≡ o
      → with_claims equal_fold parse_with_claims config o ≡ ok p
      → (claims : Claims) × (parse_with_claims token ≡ some claims) × Projected claims p
  with_claims-Projected token none p e h = cc h
  with_claims-Projected token (some claims) p e h =
      (claims, e, with_subject-Projected claims (string_claim claims "sub") p refl h)

  with_token-Projected :
      (r : Result AuthError String) (p : Principal)
      → with_token equal_fold parse_with_claims config r ≡ ok p
      → (token : String) × (claims : Claims) × (r ≡ ok token)
        × (parse_with_claims token ≡ some claims)
        × Projected claims p
  with_token-Projected (err x) p h = cc h
  with_token-Projected (ok token) p h =
      let (claims, valid, projected) =
        with_claims-Projected token (parse_with_claims token) p refl h in
      (token, claims, refl, valid, projected)

  -- A request that is accepted carries one bearer token whose claims are valid, and its principal
  -- is what they say: a subject and a client id that are not empty, the configured issuer, and the
  -- roles and the scopes, each once.
  pub authenticate_jwt-Projected :
      (h : Header) (p : Principal)
      → authenticate_jwt equal_fold parse_with_claims config h ≡ ok p
      → (token : String) × (claims : Claims) × (bearer_token equal_fold h ≡ ok token)
        × (parse_with_claims token ≡ some claims)
        × Projected claims p
  unfolding authenticate_jwt
  authenticate_jwt-Projected h p accepted =
      with_token-Projected (bearer_token equal_fold h) p accepted
