-- ===== src/Verify/Pinned.antt =====
-- What a checkpoint pins down of an artifact.
use Prim.Native.String
use mathlib.Core.Option.{some-injective}
use mcp_audit.Base.{
  inl, inr, ℕ, String, ◌≡◌, refl, ap, sym, ◌∙◌, true, false, ◌&&◌, List, Option, none, some, ok,
  ok_inj, ◌==◌, eq_iff, eq_refl, nat_eq, Bool-cases, arith, All,
}
use mcp_audit.Base.Hex.{hex_encode, hex_decode, hex_decode-hex_encode}
use mcp_audit.Integrity.{Verifier}
use mcp_audit.Integrity.RoundTrip.{bytes_equal_refl}
use mcp_audit.Verify.{OrderedDigest, new_ordered_digest, VerifyResult, clean}
use mcp_audit.Verify.Digest.{add_all, add_all-injective, Short}
use mcp_audit.Verify.Checkpoint.{
  Checkpoint, Payload, Hashes, checkpoint_algorithm, secret_of, signature, signature_of, matches,
  verify_signed, verify, payload_of, signed, create, is_version_1, same_bytes, checkpoint_domain,
}

module _ (h : Hashes) where
  signed-ok :
      (p : Payload) (o : Option String) (c : Checkpoint)
      → signed h p o ≡ ok c
      → (s : String) × (o ≡ some s) × (record { payload = p; signature = s } ≡ c)
  signed-ok p none c e = cc e
  signed-ok p (some s) c e = (s, refl, ok_inj e)

  signature_of-decodes :
      (secret : String) (o : Option String) (s : String)
      → signature_of h secret o ≡ some s
      → (mac : List ℕ) × (hex_decode s ≡ some mac)
  signature_of-decodes secret none s e = cc e
  signature_of-decodes secret (some canonical) s e =
      let message = String.◌++◌ checkpoint_domain canonical in
      let mac = h.hmac_sha256 secret message in
      (mac, rw (← some-injective _ _ e) (hex_decode-hex_encode mac (h.hmac_bytes secret message)))

  signature-decodes :
      (secret : String) (p : Payload) (s : String)
      → signature h secret p ≡ some s
      → (mac : List ℕ) × (hex_decode s ≡ some mac)
  unfolding signature
  signature-decodes secret p s e = signature_of-decodes secret (h.canonical p) s e

  matches_own :
      (key_id format : String) (d : OrderedDigest)
      → matches h (payload_of h key_id format d) d ≡ true
  matches_own key_id format d =
      let count : nat_eq d.count d.count ≡ true = ground arith in
      rw (count, eq_refl (hex_encode (h.sha256 d.written))) refl

  verify_own :
      (key_id format s : String) (keys : Verifier) (d : OrderedDigest)
      → (secret_of key_id keys == "") ≡ false
      → signature h (secret_of key_id keys) (payload_of h key_id format d) ≡ some s
      → verify h format d keys (record { payload = payload_of h key_id format d; signature = s })
        ≡ ok tt
  unfolding verify
  verify_own key_id format s keys d known e =
      let (mac, decoded) = signature-decodes (secret_of key_id keys) _ s e in
      rw (eq_refl format, known, e, decoded, bytes_equal_refl mac, matches_own key_id format d) refl

  -- A checkpoint that `CreateCheckpoint` made verifies the artifact that it was made for.
  pub create-verify :
      (key_id format : String) (keys : Verifier) (r : VerifyResult) (d : OrderedDigest)
      (c : Checkpoint)
      → create h key_id format keys r d ≡ ok c
      → verify h format d keys c ≡ ok tt
  unfolding create
  create-verify key_id format keys r d c e = elim (Bool-cases (secret_of key_id keys == "")) [
    | inl missing ↦ cc (rw missing at e)
    | inr known ↦ elim (Bool-cases (clean r)) [
      | inr dirty ↦ cc (rw (known, dirty) at e)
      | inl good ↦
          let (s, signed_by, same) =
            signed-ok (payload_of h key_id format d) _ c (rw (known, good) at e) in
          rw (← same) (verify_own key_id format s keys d known signed_by)
    ]
  ]

  verify_signed-matches :
      (o : Option String) (d : OrderedDigest) (c : Checkpoint)
      → verify_signed h o c d ≡ ok tt
      → matches h c.payload d ≡ true
  verify_signed-matches none d c e = cc e
  verify_signed-matches (some expected) d c e =
      elim (Bool-cases (same_bytes (hex_decode c.signature) (hex_decode expected))) [
        | inr other ↦ cc (rw other at e)
        | inl same ↦ elim (Bool-cases (matches h c.payload d)) [
          | inr other ↦ cc (rw (same, other) at e)
          | inl good ↦ good
        ]
      ]

  verify-matches :
      (format : String) (d : OrderedDigest) (keys : Verifier) (c : Checkpoint)
      → verify h format d keys c ≡ ok tt
      → matches h c.payload d ≡ true
  unfolding verify
  verify-matches format d keys c e =
      elim (Bool-cases (
        is_version_1 c.payload.version
        && c.payload.algorithm == checkpoint_algorithm
        && c.payload.format == format)) [
          | inr other ↦ cc (rw other at e)
          | inl good ↦ elim (Bool-cases (secret_of c.payload.key_id keys == "")) [
            | inl missing ↦ cc (rw (good, missing) at e)
            | inr known ↦ verify_signed-matches _ d c (rw (good, known) at e)
          ]
        ]

  hex_encode-injective :
      (x y : List ℕ) → hex_encode (h.sha256 x) ≡ hex_encode (h.sha256 y) → h.sha256 x ≡ h.sha256 y
  hex_encode-injective x y e = some-injective _ _ (
      sym (hex_decode-hex_encode (h.sha256 x) (h.sha256_bytes x))
      ∙ ap hex_decode e
      ∙ hex_decode-hex_encode (h.sha256 y) (h.sha256_bytes y))

  matches-digest :
      (p : Payload) (d : OrderedDigest)
      → matches h p d ≡ true
      → p.digest ≡ hex_encode (h.sha256 d.written)
  matches-digest p d e = ground (arith, e, eq_iff p.digest (hex_encode (h.sha256 d.written)))

  -- One checkpoint verifies at most one sequence of records, up to a SHA-256 collision: two
  -- artifacts that it verifies, whose hashed bytes do not collide and whose records are shorter
  -- than 2 ^ 64 bytes, hold the same records in the same order.
  pub verify_pins_records :
      (format : String) (keys : Verifier) (c : Checkpoint) (rs qs : List (List ℕ))
      → (h.sha256 (add_all rs new_ordered_digest).written
            ≡ h.sha256 (add_all qs new_ordered_digest).written
          → (add_all rs new_ordered_digest).written ≡ (add_all qs new_ordered_digest).written)
      → All Short rs
      → All Short qs
      → verify h format (add_all rs new_ordered_digest) keys c ≡ ok tt
      → verify h format (add_all qs new_ordered_digest) keys c ≡ ok tt
      → rs ≡ qs
  verify_pins_records format keys c rs qs no_collision hr hq vr vq =
      let dr = add_all rs new_ordered_digest in
      let dq = add_all qs new_ordered_digest in
      let er = matches-digest c.payload dr (verify-matches format dr keys c vr) in
      let eq = matches-digest c.payload dq (verify-matches format dq keys c vq) in
      add_all-injective rs qs hr hq
        (no_collision (hex_encode-injective dr.written dq.written (sym er ∙ eq)))
