-- ===== src/Audit/Logger/Prepare.antt =====
-- internal/audit/logger.go, prepare: the entry that is stored, and its two signatures.
use mcp_audit.Base.{
  String, inl, inr, ◌≡◌, ◌≢◌, refl, ◌∙◌, ap, true, false, Option, none, some, Result, ok, ok_inj,
  >>=-eq-ok, ◌==◌, eq_iff, arith, Bool-cases, lookup,
}
use mathlib.Core.Path.{subst}
use mathlib.Core.Option.{some-injective}
use mcp_audit.Integrity
use mcp_audit.Integrity.{Crypto, EntryV2, IntegrityError, Metadata, Verifier}
use mcp_audit.Integrity.RoundTrip.{verify-sign}
use mcp_audit.Audit.{Entry, integrity_entry_v2}
use mcp_audit.Audit.Signer
use mcp_audit.Audit.Signer.{Signer}
use mcp_audit.Audit.Logger.{
  Codec, Logger, Inputs, with_defaults, redacted, signed, attested, prepare,
}

module _ (k : Codec) where
  -- All that the last step changes is the integrity metadata.
  attested-Metadata :
      (o : Option Integrity.Signer) (e p : Entry)
      → attested k o e ≡ ok p
      → p ≡ record e { integrity = p.integrity }
  attested-Metadata o e p h = elim (Bool-cases (Integrity.enabled o)) [
    | inl on ↦
        let (m, made, same) =
          >>=-eq-ok (Integrity.sign k.crypto o (integrity_entry_v2 k.format e)) _ (rw on at h) in
        ground (arith, same)
    | inr off ↦ ground (arith, rw off at h)
  ]

  sign-some :
      (s : Integrity.Signer) (x : EntryV2) (m : Option Metadata)
      → s.secret ≢ ""
      → Integrity.sign k.crypto (some s) x ≡ ok m
      → (m' : Metadata) × (m ≡ some m')
  unfolding Integrity.sign
  sign-some s x none nonempty h =
      let secret : (s.secret == "") ≡ false = ground (arith, eq_iff s.secret "", nonempty) in
      let (canonical, payload, same) =
        >>=-eq-ok (Integrity.canonicalize k.crypto x) _ (rw secret at h) in
      cc same
  sign-some s x (some m) nonempty h = (m, refl)

  attested-verifies :
      (s : Integrity.Signer) (keys : Verifier) (e p : Entry)
      → s.secret ≢ ""
      → lookup s.key_id keys ≡ some s.secret
      → attested k (some s) e ≡ ok p
      → Integrity.verify k.crypto (some keys) (integrity_entry_v2 k.format p) p.integrity ≡ ok tt
  unfolding integrity_entry_v2
  attested-verifies s keys e p nonempty known h =
      let on : (s.secret == "") ≡ false = ground (arith, eq_iff s.secret "", nonempty) in
      let (m, made, same) =
        >>=-eq-ok (Integrity.sign k.crypto (some s) (integrity_entry_v2 k.format e)) _
          (rw on at h) in
      let (m', e') = sign-some s _ m nonempty made in
      subst
        (λ x.
          Integrity.verify k.crypto (some keys) (integrity_entry_v2 k.format x) x.integrity ≡ ok tt)
        (ok_inj same)
        (rw e' (
          verify-sign k.crypto s keys (integrity_entry_v2 k.format e) m' nonempty known
            (made ∙ ap {B = Result IntegrityError _} ok e')))

module _ {S : Type 0} (k : Codec) (l : Logger S) where
  -- The entry before the signatures are put on.
  abbrev unsigned : Inputs → Entry → Entry
  unsigned i e = redacted l.redactor (with_defaults l i e)

  prepare-Metadata :
      (i : Inputs) (e p : Entry)
      → prepare k l i e ≡ ok p
      → p ≡ record (signed k l.signer (unsigned i e)) { integrity = p.integrity }
  unfolding prepare
  prepare-Metadata i e p h = attested-Metadata k l.integrity_signer _ p h

  signed-id : (o : Option Signer) (e : Entry) → (signed k o e).id ≡ e.id
  signed-id none e = refl
  signed-id (some s) e = refl

  redacted-id : (o : Option (String → String)) (e : Entry) → (redacted o e).id ≡ e.id
  redacted-id none e = refl
  redacted-id (some r) e = refl

  -- An entry that has no id yet gets the new one.
  pub prepare-id : (i : Inputs) (e p : Entry) → prepare k l i e ≡ ok p → e.id ≡ "" → p.id ≡ i.new_id
  prepare-id i e p h blank =
      ap (λ (x : Entry). x.id) (prepare-Metadata i e p h)
      ∙ signed-id l.signer (unsigned i e)
      ∙ redacted-id l.redactor (with_defaults l i e)
      ∙ rw (blank)

  -- The stored entry, after redaction, carries a legacy signature that verifies under the signer's
  -- secret.
  signed-verifies :
      (o : Option Signer) (s : Signer) (e p : Entry)
      → o ≡ some s
      → s.secret ≢ ""
      → p ≡ record (signed k o e) { integrity = p.integrity }
      → Signer.verify k.crypto k.format (some s) p ≡ true
  unfolding Signer.sign
  signed-verifies none s e p h nonempty same = cc h
  signed-verifies (some t) s e p h nonempty same =
      let t_s : t ≡ s = some-injective t s h in
      rw same (
        rw t_s (
          Signer.verify-sign_legacy k.crypto k.format s (record e { integrity = p.integrity })
            nonempty))

  pub prepare-v2_verifies :
      (i : Inputs) (e p : Entry) (t : Integrity.Signer) (keys : Verifier)
      → l.integrity_signer ≡ some t
      → t.secret ≢ ""
      → lookup t.key_id keys ≡ some t.secret
      → prepare k l i e ≡ ok p
      → Integrity.verify k.crypto (some keys) (integrity_entry_v2 k.format p) p.integrity ≡ ok tt
  unfolding prepare
  prepare-v2_verifies i e p t keys has nonempty known h =
      attested-verifies k t keys (signed k l.signer (unsigned i e)) p nonempty known
        (subst (λ o. attested k o (signed k l.signer (unsigned i e)) ≡ ok p) has h)

  -- What the logger stores verifies: the legacy signature under the legacy signer's secret, and
  -- the integrity metadata under every key map that holds the integrity signer's key. Both cover
  -- the redacted entry.
  pub prepare-verifies :
      (i : Inputs) (e p : Entry) (s : Signer) (t : Integrity.Signer) (keys : Verifier)
      → l.signer ≡ some s
      → s.secret ≢ ""
      → l.integrity_signer ≡ some t
      → t.secret ≢ ""
      → lookup t.key_id keys ≡ some t.secret
      → prepare k l i e ≡ ok p
      → (Signer.verify k.crypto k.format (some s) p ≡ true)
        × (Integrity.verify k.crypto (some keys) (integrity_entry_v2 k.format p) p.integrity
            ≡ ok tt)
  prepare-verifies i e p s t keys has_s s_nonempty has_t t_nonempty known h = (
    signed-verifies l.signer s (unsigned i e) p has_s s_nonempty (prepare-Metadata i e p h),
    prepare-v2_verifies i e p t keys has_t t_nonempty known h,
  )
