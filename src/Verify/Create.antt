-- ===== src/Verify/Create.antt =====
-- internal/audit/verify/checkpoint.go, CreateCheckpoint: the verification before the signature.
use mcp_audit.Base.{inl, inr, String, ◌≡◌, ◌≢◌, refl, true, List, Result, ok, ◌==◌, Bool-cases, All}
use mcp_audit.Integrity.{Verifier}
use mcp_audit.Audit.Logger.{Codec}
use mcp_audit.Verify.{Reader, EntryVerifier, VerifyResult, OrderedDigest, clean}
use mcp_audit.Verify.Jsonl.{verify_jsonl}
use mcp_audit.Verify.Counts.{records}
use mcp_audit.Verify.Clean.{AcceptedLine}
use mcp_audit.Verify.Artifact.{clean_iff}
use mcp_audit.Verify.Checkpoint.{Checkpoint, CheckpointError, Hashes, secret_of, create, verify}
use mcp_audit.Verify.Pinned.{create-verify}

module _ (k : Codec) (h : Hashes) (reader : Reader) where
  abbrev pub requiring_v2 : Verifier → EntryVerifier
  requiring_v2 keys = record { keys = keys; require_v2 = true }

  -- `CreateCheckpoint` of an artifact in the JSONL format, whose lines can all be read.
  unfoldable pub create_checkpoint :
      String → Verifier → List String → Result CheckpointError Checkpoint
  create_checkpoint key_id keys lines =
      let (r, d) = verify_jsonl k reader (requiring_v2 keys) lines in
      create h key_id "jsonl" keys r d

  create-clean :
      (key_id format : String) (keys : Verifier) (r : VerifyResult) (d : OrderedDigest)
      (c : Checkpoint)
      → create h key_id format keys r d ≡ ok c
      → clean r ≡ true
  unfolding create
  create-clean key_id format keys r d c e = elim (Bool-cases (secret_of key_id keys == "")) [
    | inl missing ↦ cc (rw missing at e)
    | inr known ↦ elim (Bool-cases (clean r)) [
      | inl good ↦ good
      | inr dirty ↦ cc (rw (known, dirty) at e)
    ]
  ]

  -- A checkpoint is made only for an artifact that has a record and whose lines are all blank or
  -- accepted by a verification that requires version 2, and it verifies that artifact.
  pub create_checkpoint-Accepted :
      (key_id : String) (keys : Verifier) (lines : List String) (c : Checkpoint)
      → create_checkpoint key_id keys lines ≡ ok c
      → All (AcceptedLine k reader (requiring_v2 keys)) lines
        × (records lines ≢ 0)
        × (verify h "jsonl" (verify_jsonl k reader (requiring_v2 keys) lines).1 keys c ≡ ok tt)
  unfolding create_checkpoint
  create_checkpoint-Accepted key_id keys lines c e =
      let (r, d) = verify_jsonl k reader (requiring_v2 keys) lines in
      let good = create-clean key_id "jsonl" keys r d c e in
      let (accepted, some_there) = (clean_iff k reader (requiring_v2 keys) lines).0 good in
      (accepted, some_there refl, create-verify h key_id "jsonl" keys r d c e)
