-- ===== src/Http/Access.antt =====
-- internal/proxy/http.go: what the lists of origins and hosts let in.
use Prim.Native.Char.{Char}
use mcp_audit.Base.{
  String, true, false, ◌||◌, ◌≡◌, refl, sym, ap, ◌∙◌, inl, inr, ◌↔◌, List, [], ◌∷◌, Result, ok, err,
  ◌==◌, Bool-cases, eq_iff, eq_refl,
}
use mcp_audit.Http.Headers.{is_in}
use mcp_audit.Http.Hosts.{
  Net, AddressError, normalize_origin, normalize_hostname, then_more, normalized,
  normalized_allowed_origins, normalized_allowed_hosts, allowed_as, origin_allowed, host_allowed,
}

module _ (table : Char → Char) (net : Net) where
  -- One of the configured texts has the same normal form.
  abbrev pub Configured : (String → Result AddressError String) → List String → String → Type 0
  Configured normalize configured x =
      (y : String) × (v : String) × (is_in y configured ≡ true)
      × (normalize y ≡ ok v)
      × (normalize x ≡ ok v)

  then_more-parts :
      (r : Result AddressError String) (rs : Result AddressError (List String)) (vs : List String)
      → then_more table net r rs ≡ ok vs
      → (v : String) × (rest : List String) × (r ≡ ok v) × (rs ≡ ok rest) × (vs ≡ v ∷ rest)
  then_more-parts (err x) rs vs h = cc h
  then_more-parts (ok v) (err x) vs h = cc h
  then_more-parts (ok v) (ok rest) vs h = (v, rest, refl, refl, cc h)

  result_of : (w v : String) → ◌≡◌ {A = Result AddressError String} (ok w) (ok v) → w ≡ v
  result_of w v h = cc h

  -- A normal form in the set stems from a configured text.
  in_set-stems :
      (normalize : String → Result AddressError String) (xs vs : List String) (v : String)
      → normalized table net normalize xs ≡ ok vs
      → is_in v vs ≡ true
      → (y : String) × (is_in y xs ≡ true) × (normalize y ≡ ok v)
  in_set-stems normalize [] vs v h g = let same : [] ≡ vs = cc h in cc (rw (← same) at g)
  in_set-stems normalize (x ∷ xs) vs v h g =
      let (w, rest, first, others, same) =
        then_more-parts (normalize x) (normalized table net normalize xs) vs h in
      let here : (w == v || is_in v rest) ≡ true = rw same at g in
      elim (Bool-cases (w == v)) [
        | inl met ↦ let e : w ≡ v = (eq_iff w v).0 met in (x, rw (eq_refl x) refl, first ∙ ap ok e)
        | inr other ↦
            let (y, listed, formed) = in_set-stems normalize xs rest v others (rw other at here) in
            (
              y,
              elim (Bool-cases (x == y)) [ inl a ↦ rw a refl | inr b ↦ rw (b, listed) refl ],
              formed,
            )
      ]

  in_set :
      (normalize : String → Result AddressError String) (xs vs : List String) (y v : String)
      → normalized table net normalize xs ≡ ok vs
      → is_in y xs ≡ true
      → normalize y ≡ ok v
      → is_in v vs ≡ true
  in_set normalize [] vs y v h g e = cc g
  in_set normalize (x ∷ xs) vs y v h g e =
      let (w, rest, first, others, same) =
        then_more-parts (normalize x) (normalized table net normalize xs) vs h in
      elim (Bool-cases (x == y)) [
        | inl met ↦
            let here : x ≡ y = (eq_iff x y).0 met in
            let equal : w ≡ v = result_of w v (sym first ∙ ap normalize here ∙ e) in
            rw (same, equal, eq_refl v) refl
        | inr other ↦ elim (Bool-cases (w == v)) [
          | inl a ↦ rw (same, a) refl
          | inr b ↦ rw (same, b) (in_set normalize xs rest y v others (rw other at g) e)
        ]
      ]

  allowed_as-Configured :
      (normalize : String → Result AddressError String) (xs vs : List String) (x : String)
      (r : Result AddressError String)
      → normalized table net normalize xs ≡ ok vs
      → normalize x ≡ r
      → allowed_as table net vs r ≡ true
      → Configured normalize xs x
  allowed_as-Configured normalize xs vs x (err y) h e g = cc g
  allowed_as-Configured normalize xs vs x (ok v) h e g =
      let (y, listed, formed) = in_set-stems normalize xs vs v h g in (y, v, listed, formed, e)

  Configured-allowed :
      (normalize : String → Result AddressError String) (xs vs : List String) (x : String)
      → normalized table net normalize xs ≡ ok vs
      → Configured normalize xs x
      → allowed_as table net vs (normalize x) ≡ true
  Configured-allowed normalize xs vs x h (y, v, listed, formed, e) =
      rw e (in_set normalize xs vs y v h listed formed)

  -- With a list of hosts that is not empty, a request's host is allowed exactly when it has the
  -- normal form of a configured host.
  pub host_allowed_iff :
      (hosts : List String) (first : String) (rest : List String) (host : String)
      → normalized_allowed_hosts table net hosts ≡ ok (first ∷ rest)
      → (host_allowed table net (first ∷ rest) host ≡ true)
        ↔ Configured (normalize_hostname table net) hosts host
  unfolding normalized_allowed_hosts host_allowed
  host_allowed_iff hosts first rest host h = (
    allowed_as-Configured (normalize_hostname table net) hosts (first ∷ rest) host
        (normalize_hostname table net host) h refl,
    Configured-allowed (normalize_hostname table net) hosts (first ∷ rest) host h,
  )

  -- The same for origins; a request that names no origin is allowed too.
  pub origin_allowed_iff :
      (origins : List String) (first : String) (rest : List String) (origin : String)
      → normalized_allowed_origins table net origins ≡ ok (first ∷ rest)
      → (origin == "") ≡ false
      → (origin_allowed table net (first ∷ rest) origin ≡ true)
        ↔ Configured (normalize_origin table net) origins origin
  unfolding normalized_allowed_origins origin_allowed
  origin_allowed_iff origins first rest origin h named = rw named (
    allowed_as-Configured (normalize_origin table net) origins (first ∷ rest) origin
        (normalize_origin table net origin) h refl,
    Configured-allowed (normalize_origin table net) origins (first ∷ rest) origin h,
  )
