-- ===== src/Verify/Jsonl.antt =====
-- internal/audit/verify/jsonl.go and `VerifyPath`: the loop over the lines and the final tests.
use mcp_audit.Base.{
  ℕ, suc, String, true, List, [], ◌∷◌, Option, none, some, ◌==◌, if◌then◌else◌, nat_eq, ◌&&◌,
}
use mcp_audit.Base.Text.{trim_space}
use mcp_audit.Audit.{Entry}
use mcp_audit.Audit.Logger.{Codec}
use mcp_audit.Verify.{
  Reader, bad_json, bad_entry, empty_artifact, whole_artifact, VerifyResult, empty_result,
  OrderedDigest, new_ordered_digest, add, EntryVerifier, record_entry, malformed,
}

module _ (k : Codec) (reader : Reader) (v : EntryVerifier) where
  -- A line that is canonical JSON, by its entry.
  abbrev pub verify_decoded :
      Option Entry → String → ℕ → VerifyResult × OrderedDigest → VerifyResult × OrderedDigest
  verify_decoded none canonical n (r, d) = (malformed n bad_entry r, d)
  verify_decoded (some e) canonical n (r, d) =
      (record_entry k v e r, add (reader.bytes canonical) d)

  abbrev pub verify_transformed :
      Option String → String → ℕ → VerifyResult × OrderedDigest → VerifyResult × OrderedDigest
  verify_transformed none raw n (r, d) = (malformed n bad_json r, d)
  verify_transformed (some canonical) raw n s = verify_decoded (reader.unmarshal raw) canonical n s

  -- One round of the loop, on the trimmed line.
  unfoldable pub verify_line :
      String → ℕ → VerifyResult × OrderedDigest → VerifyResult × OrderedDigest
  verify_line raw n s = if raw == "" then s else verify_transformed (reader.transform raw) raw n s

  -- The loop, from the number of the lines read.
  unfoldable pub verify_lines :
      List String → ℕ → VerifyResult × OrderedDigest → VerifyResult × OrderedDigest
  verify_lines [] n s = s
  verify_lines (line ∷ lines) n s =
      verify_lines lines (suc n) (verify_line (trim_space line) (suc n) s)

  -- The test of the policy in `VerifyPath`.
  abbrev pub require_records : VerifyResult → VerifyResult
  require_records r =
      if v.require_v2 && nat_eq r.total 0
      then record r { policy_failed = true; first_error = some (whole_artifact, empty_artifact) }
      else r

  -- `VerifyPath` without a checkpoint: the result, and the digest of the records.
  unfoldable pub verify_jsonl : List String → VerifyResult × OrderedDigest
  verify_jsonl lines =
      let (r, d) = verify_lines lines 0 (empty_result, new_ordered_digest) in (require_records r, d)
