-- ===== src/Verify/Tests.antt =====
-- The verification theorems at a two-line artifact with a record of the logger.
use Prim.Native.String.{count}
use mcp_audit.Base.{
  ℕ, ◌%◌, pos, String, ◌≡◌, ◌≢◌, ◌↔◌, refl, true, List, [], ◌∷◌, some, ok, arith, All, ◌+◌, length,
}
use mcp_audit.Base.Text.{trim_space}
use mcp_audit.Base.Hex.{hex_encode, hex_decode}
use mcp_audit.Integrity
use mcp_audit.Audit.Logger
use mcp_audit.Audit.Operation
use mcp_audit.Audit.{integrity_entry_v2}
use mcp_audit.Audit.Operation.Tests.{
  codec, logger, prepared, prepared_runs, keys, v2_signer, key2_ne, ticket, opened, success,
}
use mcp_audit.Audit.Operation.{terminal_entry}
use mcp_audit.Verify.{
  Reader, EntryVerifier, empty_result, new_ordered_digest, add, clean, verify, verify_by,
  record_entry, record_status,
}
use mcp_audit.Verify.Jsonl.{verify_jsonl, verify_lines, verify_line}
use mcp_audit.Verify.Counts.{records, verify_jsonl-balance}
use mcp_audit.Verify.Clean.{AcceptedLine}
use mcp_audit.Verify.Artifact.{clean_iff}
use mcp_audit.Verify.Logged.{Logged, prepare-Verified}
use mcp_audit.Verify.Digest.{add_all, add_all-injective, Short}
use mcp_audit.Verify.Checkpoint.{Hashes, Checkpoint, create, signature, payload_of}
use mcp_audit.Verify.Checkpoint as CheckpointFile
use mcp_audit.Verify.Create.{create_checkpoint, create_checkpoint-Accepted}
use mcp_audit.Verify.Pinned.{create-verify, verify_pins_records}

abbrev reader : Reader
reader = record {
  transform = λ raw. some raw;
  unmarshal = λ raw. some prepared;
  bytes = λ raw. (count raw % 256) ∷ [];
}

abbrev verifier : EntryVerifier
verifier = record { keys = keys; require_v2 = true }

abbrev lines : List String
lines = "{}" ∷ "  " ∷ []

lines_verify : (verify_jsonl codec reader verifier lines).0.verified ≡ 1
unfolding verify_jsonl verify_lines verify_line record_entry record_status verify verify_by
    trim_space Integrity.verify Integrity.check_signature Integrity.canonicalize integrity_entry_v2
    Logger.prepare Integrity.sign hex_decode hex_encode Operation.new_operation
lines_verify = refl

verify_jsonl-balance_example :
    let r = (verify_jsonl codec reader verifier lines).0 in
    (r.total ≡ records lines) × (r.total ≡ (r.verified + r.legacy) + (r.unsigned + r.invalid))
verify_jsonl-balance_example = verify_jsonl-balance codec reader verifier lines

clean_iff_example :
    (clean (verify_jsonl codec reader verifier lines).0 ≡ true)
    ↔ (All (AcceptedLine codec reader verifier) lines × (true ≡ true → records lines ≢ 0))
clean_iff_example = clean_iff codec reader verifier lines

prepared_Logged : Logged codec logger v2_signer verifier reader ("{}", prepared)
unfolding trim_space
prepared_Logged = record {
  inputs = ticket;
  entry = terminal_entry opened success (pos 4);
  prepared = prepared_runs;
  canonical = "{}";
  shown = λ e. cc e;
  transformed = refl;
  decoded = refl;
}

prepare-Verified_example :
    ((verify_jsonl codec reader verifier ("{}" ∷ [])).0
      ≡ record empty_result { verified = 1; total = 1 })
    × (clean (verify_jsonl codec reader verifier ("{}" ∷ [])).0 ≡ true)
prepare-Verified_example =
    prepare-Verified codec logger v2_signer verifier reader ("{}", prepared) [] refl key2_ne refl
      (prepared_Logged, tt)

abbrev hashes : Hashes
hashes = record {
  sha256 = λ message. (length message % 256) ∷ [];
  sha256_bytes = λ message. (omega arith, tt);
  hmac_sha256 = λ key message. (count key % 256) ∷ (count message % 256) ∷ [];
  hmac_bytes = λ key message. omega arith;
  canonical = λ p. some p.digest;
}

abbrev chunks : List (List ℕ)
chunks = (1 ∷ 2 ∷ []) ∷ (3 ∷ []) ∷ []

abbrev checkpoint : Checkpoint
checkpoint = record {
  payload = payload_of hashes "default" "jsonl" (add_all chunks new_ordered_digest);
  signature = "041a";
}

created :
    create hashes "default" "jsonl" keys empty_result (add_all chunks new_ordered_digest)
    ≡ ok checkpoint
unfolding create clean signature hex_encode add_all add
created = refl

create-verify_example :
    CheckpointFile.verify hashes "jsonl" (add_all chunks new_ordered_digest) keys checkpoint ≡ ok tt
create-verify_example =
    create-verify hashes "default" "jsonl" keys empty_result (add_all chunks new_ordered_digest)
      checkpoint created

Short-chunks : All Short chunks
Short-chunks = (omega arith, (omega arith, tt))

verify_pins_records_example : chunks ≡ chunks
verify_pins_records_example =
    verify_pins_records hashes "jsonl" keys checkpoint chunks chunks (λ e. refl) Short-chunks
      Short-chunks create-verify_example create-verify_example

add_all-injective_example : chunks ≡ chunks
add_all-injective_example = add_all-injective chunks chunks Short-chunks Short-chunks refl

abbrev line_checkpoint : Checkpoint
line_checkpoint = record {
  payload = payload_of hashes "default" "jsonl" (verify_jsonl codec reader verifier lines).1;
  signature = "041a";
}

created_from_lines : create_checkpoint codec hashes reader "default" keys lines ≡ ok line_checkpoint
unfolding create_checkpoint create clean signature hex_encode verify_jsonl verify_lines verify_line
    record_entry record_status verify verify_by add trim_space Integrity.verify
    Integrity.check_signature Integrity.canonicalize integrity_entry_v2 Logger.prepare
    Integrity.sign hex_decode Operation.new_operation
created_from_lines = refl

create_checkpoint-Accepted_example :
    All (AcceptedLine codec reader verifier) lines
    × (records lines ≢ 0)
    × (CheckpointFile.verify hashes "jsonl"
          (verify_jsonl codec reader verifier lines).1
          keys
          line_checkpoint
        ≡ ok tt)
create_checkpoint-Accepted_example =
    create_checkpoint-Accepted codec hashes reader "default" keys lines line_checkpoint
      created_from_lines
