-- ===== src/Integrity/RoundTrip.antt =====
-- internal/audit/integrity/signer.go and canonical.go: what verification accepts.
use mcp_audit.Base.{
  ℕ, ◌^◌, ◌-◌, ℤ, pos, negsuc, ◌<◌, String, ◌≡◌, ◌≢◌, inl, inr, refl, ◌∙◌, ap, true, false, List,
  [], ◌∷◌, Option, none, some, ok, ok_inj, >>=-eq-ok, ◌==◌, eq_iff, nat_eq→eq, ◌↔◌, lookup, arith,
  Bool-cases,
}
use mathlib.Core.Path.{subst}
use mcp_audit.Base.Hex.{hex_decode, hex_decode-hex_encode}
use mcp_audit.Integrity.{
  Crypto, EntryV2, Metadata, IntegrityError, Signer, Verifier, algorithm_hmac_v2, is_version_v2,
  is_safe, code_is_safe, bytes_equal, canonicalize, metadata_for, sign, verify, known_secret,
  or_error, check_signature, malformed_encoding, unknown_key, RpcErrorV2,
}

pub bytes_equal_refl : (bs : List ℕ) → bytes_equal bs bs ≡ true
bytes_equal_refl [] = refl
bytes_equal_refl (b ∷ bs) = ground (arith, bytes_equal_refl bs)

pub bytes_equal_sound : (as' bs : List ℕ) → bytes_equal as' bs ≡ true → as' ≡ bs
bytes_equal_sound [] [] h = refl
bytes_equal_sound [] (b ∷ bs) h = cc
bytes_equal_sound (a ∷ as') [] h = cc
bytes_equal_sound (a ∷ as') (b ∷ bs) h = ground (arith, bytes_equal_sound as' bs)

-- The JCS safe integers: between -(2^53 - 1) and 2^53 - 1.
abbrev pub IsSafe : ℤ → Type 0
IsSafe (pos n) = n < 2 ^ 53
IsSafe (negsuc n) = n < 2 ^ 53 - 1

is_safe_sound : (i : ℤ) → is_safe i ≡ true → IsSafe i
is_safe_sound (pos n) h = ground arith
is_safe_sound (negsuc n) h = ground arith

or_error-ok {ℓ} :
    {A : Type ℓ} (o : Option A) (e : IntegrityError) {a : A} → or_error o e ≡ ok a → o ≡ some a
or_error-ok none e h = cc
or_error-ok (some a) e h = ap {B = Option _} some (ok_inj h)

known_secret-some :
    (o : Option String) {secret : String}
    → known_secret o ≡ some secret
    → (o ≡ some secret) × (secret ≢ "")
known_secret-some none h = cc
known_secret-some (some s) {secret} h = ground (arith, eq_iff s "", h)

-- The record that an accepted entry comes with.
pub record Authentic (c : Crypto EntryV2) (keys : Verifier) (entry : EntryV2) (m : Metadata)
    : Type 0 where
  pub version : m.version ≡ pos 2
  pub algorithm : m.algorithm ≡ algorithm_hmac_v2
  pub secret : String
  pub known : lookup m.key_id keys ≡ some secret
  pub nonempty : secret ≢ ""
  pub canonical : String
  pub payload : canonicalize c entry ≡ ok canonical
  pub signed : hex_decode m.signature ≡ some (c.hmac_sha256 secret canonical)

is_version_v2-eq : (i : ℤ) → is_version_v2 i ≡ true → i ≡ pos 2
is_version_v2-eq (pos n) h = ap {B = ℤ} pos (nat_eq→eq n 2 h)
is_version_v2-eq (negsuc n) h = cc

module _ (c : Crypto EntryV2) where
  check_signature-authentic :
      (secret canonical : String) (entry : EntryV2) (m : Metadata)
      → canonicalize c entry ≡ ok canonical
      → hex_decode m.signature ≡ some (c.hmac_sha256 secret canonical)
      → check_signature c secret entry m ≡ ok tt
  unfolding check_signature
  check_signature-authentic secret canonical entry m payload signed =
      rw (signed, payload, bytes_equal_refl (c.hmac_sha256 secret canonical))

  check_signature_needs :
      (secret : String) (entry : EntryV2) (m : Metadata)
      → check_signature c secret entry m ≡ ok tt
      → (canonical : String) × (canonicalize c entry ≡ ok canonical)
        × (hex_decode m.signature ≡ some (c.hmac_sha256 secret canonical))
  unfolding check_signature
  check_signature_needs secret entry m h =
      let (provided, decoded, h') =
        >>=-eq-ok (or_error (hex_decode m.signature) malformed_encoding) _ h in
      let (canonical, payload, h'') = >>=-eq-ok (canonicalize c entry) _ h' in
      elim (Bool-cases (bytes_equal provided (c.hmac_sha256 secret canonical))) [
        | inr different ↦ cc (rw different at h'')
        | inl same ↦ (
          canonical,
          payload,
          or_error-ok (hex_decode m.signature) malformed_encoding decoded
              ∙ ap {B = Option _} some (bytes_equal_sound provided _ same),
        )
      ]

  verify_accepts :
      (keys : Verifier) (entry : EntryV2) (m : Metadata)
      → Authentic c keys entry m
      → verify c (some keys) entry (some m) ≡ ok tt
  unfolding verify
  verify_accepts keys entry m a =
      let version : is_version_v2 m.version ≡ true = rw (a.version) in
      let algorithm : (m.algorithm == algorithm_hmac_v2) ≡ true = (eq_iff _ _).1 a.algorithm in
      let secret : (a.secret == "") ≡ false = ground (arith, eq_iff a.secret "", a.nonempty) in
      rw (version, algorithm, a.known, secret)
        (check_signature-authentic a.secret a.canonical entry m a.payload a.signed)

  verify_needs :
      (keys : Verifier) (entry : EntryV2) (m : Metadata)
      → verify c (some keys) entry (some m) ≡ ok tt
      → Authentic c keys entry m
  unfolding verify
  verify_needs keys entry m h = elim (Bool-cases (is_version_v2 m.version)) [
    | inr other ↦ cc (rw other at h)
    | inl version ↦ elim (Bool-cases (m.algorithm == algorithm_hmac_v2)) [
      | inr other ↦ cc (rw (version, other) at h)
      | inl algorithm ↦
          let (secret, found, h') =
            >>=-eq-ok (or_error (known_secret (lookup m.key_id keys)) unknown_key) _
              (rw (version, algorithm) at h) in
          let (known, nonempty) =
            known_secret-some (lookup m.key_id keys) (or_error-ok _ unknown_key found) in
          let (canonical, payload, signed) = check_signature_needs secret entry m h' in
          record {
            version = is_version_v2-eq m.version version;
            algorithm = (eq_iff _ _).0 algorithm;
            secret = secret;
            known = known;
            nonempty = nonempty;
            canonical = canonical;
            payload = payload;
            signed = signed;
          }
    ]
  ]

  -- A record verifies exactly when its metadata names version 2, the algorithm and a key of the
  -- map with a non-empty secret, the entry has a canonical form, and the signature decodes to the
  -- HMAC of that form under that secret.
  pub verify_iff :
      (keys : Verifier) (entry : EntryV2) (m : Metadata)
      → (verify c (some keys) entry (some m) ≡ ok tt) ↔ Authentic c keys entry m
  verify_iff keys entry m = (verify_needs keys entry m, verify_accepts keys entry m)

  -- What an enabled signer signs verifies, with any key map that holds the signer's secret under
  -- its key id.
  pub verify-sign :
      (s : Signer) (keys : Verifier) (entry : EntryV2) (m : Metadata)
      → s.secret ≢ ""
      → lookup s.key_id keys ≡ some s.secret
      → sign c (some s) entry ≡ ok (some m)
      → verify c (some keys) entry (some m) ≡ ok tt
  unfolding sign
  verify-sign s keys entry m nonempty known signed =
      let secret : (s.secret == "") ≡ false = ground (arith, eq_iff s.secret "", nonempty) in
      let (canonical, payload, made) = >>=-eq-ok (canonicalize c entry) _ (rw secret at signed) in
      let same : metadata_for c s canonical ≡ m = ground (arith, made) in
      subst (λ x. verify c (some keys) entry (some x) ≡ ok tt) same
        (verify_accepts keys entry (metadata_for c s canonical) (record {
          version = refl;
          algorithm = refl;
          secret = s.secret;
          known = known;
          nonempty = nonempty;
          canonical = canonical;
          payload = payload;
          signed = hex_decode-hex_encode _ (c.hmac_bytes s.secret canonical);
        }))

  -- One signature cannot serve two entries whose canonical forms have different HMACs.
  pub verify_same_mac :
      (keys : Verifier) (entry other : EntryV2) (m : Metadata)
      → verify c (some keys) entry (some m) ≡ ok tt
      → verify c (some keys) other (some m) ≡ ok tt
      → (secret x y : String) × (canonicalize c entry ≡ ok x)
        × (canonicalize c other ≡ ok y)
        × (c.hmac_sha256 secret x ≡ c.hmac_sha256 secret y)
  verify_same_mac keys entry other m h k =
      let a = verify_needs keys entry m h in
      let b = verify_needs keys other m k in
      let same : a.secret ≡ b.secret = cc (a.known, b.known) in
      (a.secret, a.canonical, b.canonical, a.payload, b.payload, cc (a.signed, b.signed, same))

  -- Only durations and error codes that are JCS safe integers have a canonical form.
  pub canonicalize-IsSafe :
      (entry : EntryV2) (canonical : String)
      → canonicalize c entry ≡ ok canonical
      → IsSafe entry.duration_ms × ((e : RpcErrorV2) → entry.error ≡ some e → IsSafe e.code)
  unfolding canonicalize
  canonicalize-IsSafe entry canonical h = elim (Bool-cases (is_safe entry.duration_ms)) [
    | inr far ↦ cc (rw far at h)
    | inl near ↦ elim (Bool-cases (code_is_safe entry.error)) [
      | inr wide ↦ cc (rw (near, wide) at h)
      | inl narrow ↦ (is_safe_sound _ near, λ e some_e. is_safe_sound e.code (rw some_e at narrow))
    ]
  ]
