-- ===== src/Verify/Logged.antt =====
-- The records of the logger under the verification of an artifact.
use mcp_audit.Base.{
  ℕ, suc, ◌+◌, String, ◌≡◌, ◌≢◌, refl, ◌∙◌, ap, true, false, List, [], ◌∷◌, Option, none, some, ok,
  lookup, ◌==◌, eq_iff, arith, All, length, nat_eq, Bool-cases, inl, inr,
}
use mcp_audit.Base.Text.{trim_space}
use mcp_audit.Integrity
use mcp_audit.Integrity.{Metadata}
use mcp_audit.Audit.{Entry, integrity_entry_v2}
use mcp_audit.Audit.Logger.{Codec, Logger, Inputs, prepare}
use mcp_audit.Audit.Logger.Prepare.{prepare-v2_verifies}
use mcp_audit.Verify.{
  Reader, VerifyResult, empty_result, OrderedDigest, new_ordered_digest, EntryVerifier, verified,
  clean, verify, verify_by, record_entry, record_status,
}
use mcp_audit.Verify.Jsonl.{verify_line, verify_lines, require_records, verify_jsonl}

module _ {S : Type 0} (k : Codec) (l : Logger S) (t : Integrity.Signer) (v : EntryVerifier) where
  verified-of_metadata :
      (o : Option Metadata) (p : Entry)
      → Integrity.verify k.crypto (some v.keys) (integrity_entry_v2 k.format p) o ≡ ok tt
      → verify_by k o v p ≡ verified
  unfolding Integrity.verify verify_by
  verified-of_metadata none p h = cc h
  verified-of_metadata (some m) p h = rw h refl

  prepare-verified :
      (i : Inputs) (e p : Entry)
      → l.integrity_signer ≡ some t
      → t.secret ≢ ""
      → lookup t.key_id v.keys ≡ some t.secret
      → prepare k l i e ≡ ok p
      → verify k v p ≡ verified
  unfolding verify
  prepare-verified i e p has nonempty known h =
      verified-of_metadata p.integrity p
        (prepare-v2_verifies k l i e p t v.keys has nonempty known h)

  module _ (reader : Reader) where
    -- A line that is read as a record that the logger prepared.
    pub record Logged (w : String × Entry) : Type 0 where
      pub inputs : Inputs
      pub entry : Entry
      pub prepared : prepare k l inputs entry ≡ ok w.1
      pub canonical : String
      pub shown : trim_space w.0 ≢ ""
      pub transformed : reader.transform (trim_space w.0) ≡ some canonical
      pub decoded : reader.unmarshal (trim_space w.0) ≡ some w.1

    abbrev pub lines_of : List (String × Entry) → List String
    lines_of [] = []
    lines_of ((line, p) ∷ ws) = line ∷ lines_of ws

    abbrev pub add_verified : ℕ → VerifyResult → VerifyResult
    add_verified n r = record r { verified = n + r.verified; total = n + r.total }

    line-verified :
        (line : String) (p : Entry) (n : ℕ) (r : VerifyResult) (d : OrderedDigest)
        → Logged (line, p)
        → verify k v p ≡ verified
        → (verify_line k reader v (trim_space line) n (r, d)).0
          ≡ record r { verified = suc r.verified; total = suc r.total }
    unfolding verify_line record_entry record_status
    line-verified line p n r d w good =
        let shown : (trim_space line == "") ≡ false =
          ground (arith, eq_iff (trim_space line) "", w.shown) in
        rw (shown, w.transformed, w.decoded, good) refl

    add_verified-suc :
        (n : ℕ) (r : VerifyResult)
        → add_verified n (record r { verified = suc r.verified; total = suc r.total })
          ≡ add_verified (suc n) r
    add_verified-suc n r =
        let shift : (m : ℕ) → n + suc m ≡ suc n + m = λ m. omega arith in
        rw (shift r.verified, shift r.total) refl

    lines-verified :
        (ws : List (String × Entry)) (n : ℕ) (r : VerifyResult) (d : OrderedDigest)
        → l.integrity_signer ≡ some t
        → t.secret ≢ ""
        → lookup t.key_id v.keys ≡ some t.secret
        → All Logged ws
        → (verify_lines k reader v (lines_of ws) n (r, d)).0 ≡ add_verified (length ws) r
    unfolding verify_lines
    lines-verified [] n r d has nonempty known all =
        let zero : (m : ℕ) → 0 + m ≡ m = λ m. omega arith in rw (zero r.verified, zero r.total) refl
    lines-verified ((line, p) ∷ ws) n r d has nonempty known (w, all) =
        let s = verify_line k reader v (trim_space line) (suc n) (r, d) in
        let good = prepare-verified w.inputs w.entry p has nonempty known w.prepared in
        lines-verified ws (suc n) s.0 s.1 has nonempty known all
        ∙ ap (add_verified (length ws)) (line-verified line p (suc n) r d w good)
        ∙ add_verified-suc (length ws) r

    require-verified :
        (n : ℕ)
        → require_records k reader v (add_verified (suc n) empty_result)
          ≡ add_verified (suc n) empty_result
    require-verified n =
        let some_there : nat_eq (suc n + 0) 0 ≡ false = ground arith in
        elim (Bool-cases v.require_v2) [
          | inl needed ↦ rw (needed, some_there) refl
          | inr free ↦ rw free refl
        ]

    -- The verification of an artifact that is not empty and whose lines are read as records that a
    -- logger with an enabled integrity signer prepared, under keys that have the signer's, is clean:
    -- it counts every line as verified and finds nothing else, also where it requires version 2.
    pub prepare-Verified :
        (w : String × Entry) (ws : List (String × Entry))
        → l.integrity_signer ≡ some t
        → t.secret ≢ ""
        → lookup t.key_id v.keys ≡ some t.secret
        → All Logged (w ∷ ws)
        → ((verify_jsonl k reader v (lines_of (w ∷ ws))).0
            ≡ add_verified (length (w ∷ ws)) empty_result)
          × (clean (verify_jsonl k reader v (lines_of (w ∷ ws))).0 ≡ true)
    unfolding verify_jsonl clean
    prepare-Verified w ws has nonempty known all =
        let counted =
          lines-verified (w ∷ ws) 0 empty_result new_ordered_digest has nonempty known all in
        let whole = ap (require_records k reader v) counted ∙ require-verified (length ws) in
        (whole, ap clean whole)
