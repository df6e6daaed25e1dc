-- ===== src/Verify/Artifact.antt =====
-- When the verification of a whole artifact is clean.
use mcp_audit.Base.{
  inl, inr, ℕ, suc, ◌+◌, String, ◌≡◌, ◌≢◌, ◌↔◌, refl, Bool, true, false, List, [], ◌∷◌, nat_eq,
  Bool-cases, arith, All,
}
use mcp_audit.Base.Text.{trim_space}
use mcp_audit.Audit.Logger.{Codec}
use mcp_audit.Verify.{
  Reader, VerifyResult, empty_result, OrderedDigest, new_ordered_digest, EntryVerifier, clean,
}
use mcp_audit.Verify.Jsonl.{verify_line, verify_lines, require_records, verify_jsonl}
use mcp_audit.Verify.Counts.{records, lines-Counted}
use mcp_audit.Verify.Clean.{defects, defect, raw_ok, line-defects, AcceptedLine, raw_ok_iff}

module _ (k : Codec) (reader : Reader) (v : EntryVerifier) where
  abbrev missed : List String → ℕ
  missed [] = 0
  missed (line ∷ lines) = defect (raw_ok k reader v (trim_space line)) + missed lines

  lines-defects :
      (lines : List String) (n : ℕ) (r : VerifyResult) (d : OrderedDigest)
      → defects (verify_lines k reader v lines n (r, d)).0 ≡ missed lines + defects r
  unfolding verify_lines
  lines-defects [] n r d = omega arith
  lines-defects (line ∷ lines) n r d =
      let s = verify_line k reader v (trim_space line) (suc n) (r, d) in
      omega (
        arith,
        lines-defects lines (suc n) s.0 s.1,
        line-defects k reader v (trim_space line) (suc n) r d,
      )

  defect-zero : (b : Bool) → defect b ≡ 0 → b ≡ true
  defect-zero true h = refl
  defect-zero false h = absurd (omega (arith, h))

  missed-All : (lines : List String) → missed lines ≡ 0 → All (AcceptedLine k reader v) lines
  missed-All [] h = tt
  missed-All (line ∷ lines) h = (
    (raw_ok_iff k reader v line).0 (defect-zero _ (omega (arith, h))),
    missed-All lines (omega (arith, h)),
  )

  All-missed : (lines : List String) → All (AcceptedLine k reader v) lines → missed lines ≡ 0
  All-missed [] h = refl
  All-missed (line ∷ lines) (a, h) =
      rw ((raw_ok_iff k reader v line).1 a, All-missed lines h) (omega arith)

  clean-of_counts : (r : VerifyResult) → defects r ≡ 0 → r.policy_failed ≡ false → clean r ≡ true
  unfolding clean
  clean-of_counts r h p =
      let a : r.invalid ≡ 0 = omega (arith, h) in
      let b : r.unsigned ≡ 0 = omega (arith, h) in rw (a, b, p) refl

  counts-of_clean :
      (r : VerifyResult) → clean r ≡ true → (defects r ≡ 0) × (r.policy_failed ≡ false)
  unfolding clean
  counts-of_clean r h = (ground (arith, h), ground (arith, h))

  require-clean :
      (r : VerifyResult)
      → clean (require_records k reader v r) ≡ true
      → (defects r ≡ 0) × (v.require_v2 ≡ true → r.total ≢ 0)
  require-clean r h = elim (Bool-cases v.require_v2) [
    | inr free ↦ ((counts-of_clean r (rw free at h)).0, λ needed. cc (free, needed))
    | inl needed ↦ elim (Bool-cases (nat_eq r.total 0)) [
      | inl empty ↦ cc ((counts-of_clean _ (rw (needed, empty) at h)).1)
      | inr shown ↦
          ((counts-of_clean r (rw (needed, shown) at h)).0, λ _ empty. ground (arith, shown, empty))
    ]
  ]

  clean-require :
      (r : VerifyResult)
      → r.policy_failed ≡ false
      → defects r ≡ 0
      → (v.require_v2 ≡ true → r.total ≢ 0)
      → clean (require_records k reader v r) ≡ true
  clean-require r p h nonempty = elim (Bool-cases v.require_v2) [
    | inr free ↦ rw free (clean-of_counts r h p)
    | inl needed ↦
        let shown : nat_eq r.total 0 ≡ false = ground (arith, nonempty needed) in
        rw (needed, shown) (clean-of_counts r h p)
  ]

  -- The verification of an artifact is clean exactly when every line is blank or an accepted
  -- entry and, where version 2 is required, at least one line is not blank.
  pub clean_iff :
      (lines : List String)
      → (clean (verify_jsonl k reader v lines).0 ≡ true)
        ↔ (All (AcceptedLine k reader v) lines × (v.require_v2 ≡ true → records lines ≢ 0))
  unfolding verify_jsonl
  clean_iff lines =
      let c = lines-Counted k reader v lines 0 empty_result new_ordered_digest in
      let d = lines-defects lines 0 empty_result new_ordered_digest in
      let r = (verify_lines k reader v lines 0 (empty_result, new_ordered_digest)).0 in
      (
        λ h.
            let (zero_defects, nonempty) = require-clean r h in
            (
              missed-All lines (omega (arith, d, zero_defects)),
              λ needed empty. nonempty needed (omega (arith, c.total, empty)),
            ),
        λ (good, nonempty).
            clean-require r c.policy (omega (arith, d, All-missed lines good))
              (λ needed empty. nonempty needed (omega (arith, c.total, empty))),
      )
