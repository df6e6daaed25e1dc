-- ===== src/Verify/Counts.antt =====
-- The counts of a verification: every record is counted once, under one heading.
use mcp_audit.Base.{
  inl, inr, ℕ, suc, ◌+◌, String, ◌≡◌, refl, ◌∙◌, List, [], ◌∷◌, Option, none, some, ◌==◌,
  if◌then◌else◌, nat_eq, Bool-cases, ◌&&◌, arith,
}
use mcp_audit.Base.Text.{trim_space}
use mcp_audit.Audit.{Entry}
use mcp_audit.Audit.Logger.{Codec}
use mcp_audit.Verify.{
  Reader, Reason, bad_json, bad_entry, VerifyResult, empty_result, OrderedDigest,
  new_ordered_digest, EntryVerifier, Status, verified, legacy, unsigned, invalid, record_status,
  record_entry, malformed, verify,
}
use mcp_audit.Verify.Jsonl.{
  verify_decoded, verify_transformed, verify_line, verify_lines, verify_jsonl,
}

-- The lines that are records: all but the blank ones.
abbrev pub records : List String → ℕ
records [] = 0
records (line ∷ lines) = (if trim_space line == "" then 0 else 1) + records lines

-- From one result to the next, `n` records were counted, each under one heading, and the verdict
-- on the policy did not change.
pub record Counted (n : ℕ) (r r' : VerifyResult) : Type 0 where
  pub total : r'.total ≡ n + r.total
  pub balance :
      r.total ≡ (r.verified + r.legacy) + (r.unsigned + r.invalid)
      → r'.total ≡ (r'.verified + r'.legacy) + (r'.unsigned + r'.invalid)
  pub policy : r'.policy_failed ≡ r.policy_failed

record_status-Counted :
    (s : Status) (id : String) (r : VerifyResult)
    → Counted 1 r (record_status s id (record r { total = suc r.total }))
unfolding record_status
record_status-Counted verified id r = record {
  total = omega arith;
  balance = λ h. omega (arith, h);
  policy = refl;
}
record_status-Counted legacy id r = record {
  total = omega arith;
  balance = λ h. omega (arith, h);
  policy = refl;
}
record_status-Counted unsigned id r = record {
  total = omega arith;
  balance = λ h. omega (arith, h);
  policy = refl;
}
record_status-Counted (invalid x) id r = record {
  total = omega arith;
  balance = λ h. omega (arith, h);
  policy = refl;
}

malformed-Counted : (n : ℕ) (x : Reason) (r : VerifyResult) → Counted 1 r (malformed n x r)
unfolding malformed
malformed-Counted n x r = record {
  total = omega arith;
  balance = λ h. omega (arith, h);
  policy = refl;
}

Counted-trans :
    (m n : ℕ) (a b c : VerifyResult) → Counted m a b → Counted n b c → Counted (m + n) a c
Counted-trans m n a b c p q = record {
  total = omega (arith, p.total, q.total);
  balance = λ h. q.balance (p.balance h);
  policy = q.policy ∙ p.policy;
}

module _ (k : Codec) (reader : Reader) (v : EntryVerifier) where
  decoded-Counted :
      (o : Option Entry) (canonical : String) (n : ℕ) (r : VerifyResult) (d : OrderedDigest)
      → Counted 1 r (verify_decoded k reader v o canonical n (r, d)).0
  unfolding record_entry
  decoded-Counted none canonical n r d = malformed-Counted n bad_entry r
  decoded-Counted (some e) canonical n r d = record_status-Counted (verify k v e) e.id r

  transformed-Counted :
      (o : Option String) (raw : String) (n : ℕ) (r : VerifyResult) (d : OrderedDigest)
      → Counted 1 r (verify_transformed k reader v o raw n (r, d)).0
  transformed-Counted none raw n r d = malformed-Counted n bad_json r
  transformed-Counted (some canonical) raw n r d =
      decoded-Counted (reader.unmarshal raw) canonical n r d

  line-Counted :
      (raw : String) (n : ℕ) (r : VerifyResult) (d : OrderedDigest)
      → Counted (if raw == "" then 0 else 1) r (verify_line k reader v raw n (r, d)).0
  unfolding verify_line
  line-Counted raw n r d = elim (Bool-cases (raw == "")) [
    | inl blank ↦ rw blank (record { total = omega arith; balance = λ h. h; policy = refl })
    | inr shown ↦ rw shown (transformed-Counted (reader.transform raw) raw n r d)
  ]

  pub lines-Counted :
      (lines : List String) (n : ℕ) (r : VerifyResult) (d : OrderedDigest)
      → Counted (records lines) r (verify_lines k reader v lines n (r, d)).0
  unfolding verify_lines
  lines-Counted [] n r d = record { total = omega arith; balance = λ h. h; policy = refl }
  lines-Counted (line ∷ lines) n r d =
      let s = verify_line k reader v (trim_space line) (suc n) (r, d) in
      Counted-trans (if trim_space line == "" then 0 else 1) (records lines) r s.0 _
        (line-Counted (trim_space line) (suc n) r d) (lines-Counted lines (suc n) s.0 s.1)

  -- The result of an artifact counts each line that is not blank exactly once, as verified,
  -- legacy, unsigned or invalid.
  pub verify_jsonl-balance :
      (lines : List String)
      → let r = (verify_jsonl k reader v lines).0 in
        (r.total ≡ records lines) × (r.total ≡ (r.verified + r.legacy) + (r.unsigned + r.invalid))
  unfolding verify_jsonl
  verify_jsonl-balance lines =
      let c = lines-Counted lines 0 empty_result new_ordered_digest in
      let r = (verify_lines k reader v lines 0 (empty_result, new_ordered_digest)).0 in
      elim (Bool-cases (v.require_v2 && nat_eq r.total 0)) [
        | inl failed ↦ rw failed (omega (arith, c.total), c.balance refl)
        | inr passed ↦ rw passed (omega (arith, c.total), c.balance refl)
      ]
