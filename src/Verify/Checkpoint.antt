-- ===== src/Verify/Checkpoint.antt =====
-- internal/audit/verify/checkpoint.go: signed checkpoints of an artifact.
use Prim.Native.String
use mcp_audit.Base.{
  ℕ, ℤ, pos, negsuc, String, Bool, false, not, ◌&&◌, List, Option, none, some, Result, ok, err,
  ◌==◌, if◌then◌else◌, nat_eq, lookup, All,
}
use mcp_audit.Base.Hex.{IsByte, hex_encode, hex_decode}
use mcp_audit.Integrity.{Verifier, bytes_equal}
use mcp_audit.Verify.{OrderedDigest, VerifyResult, clean}

abbrev pub checkpoint_algorithm : String
checkpoint_algorithm = "hmac-sha256/sha256"

abbrev pub checkpoint_domain : String
checkpoint_domain = "mcp-audit/checkpoint/v1\n"

-- The signed payload: all fields but the signature.
pub record Payload : Type 0 where
  pub version : ℤ
  pub algorithm : String
  pub key_id : String
  pub format : String
  pub records : ℕ
  pub digest : String

pub record Checkpoint : Type 0 where
  pub payload : Payload
  pub signature : String

-- What the code calls: SHA-256, its HMAC, and `json.Marshal` followed by `jcs.Transform`.
pub record Hashes : Type 0 where
  pub sha256 : List ℕ → List ℕ
  pub sha256_bytes : (message : List ℕ) → All IsByte (sha256 message)
  pub hmac_sha256 : String → String → List ℕ
  pub hmac_bytes : (key message : String) → All IsByte (hmac_sha256 key message)
  pub canonical : Payload → Option String

pub data CheckpointError : Type 0 where
  unsupported unknown_key bad_payload bad_signature mismatch not_clean key_required :
      CheckpointError

-- A missing key counts as an empty secret.
abbrev pub secret_of : String → Verifier → String
secret_of key_id keys = elim (lookup key_id keys) [ none ↦ "" | some secret ↦ secret ]

abbrev pub is_version_1 : ℤ → Bool
is_version_1 (pos n) = nat_eq n 1
is_version_1 (negsuc n) = false

abbrev pub same_bytes : Option (List ℕ) → Option (List ℕ) → Bool
same_bytes (some provided) (some want) = bytes_equal provided want
same_bytes (some provided) none = false
same_bytes none want = false

module _ (h : Hashes) where
  abbrev pub signature_of : String → Option String → Option String
  signature_of secret none = none
  signature_of secret (some canonical) =
      some (hex_encode (h.hmac_sha256 secret (String.◌++◌ checkpoint_domain canonical)))

  -- `signature`.
  unfoldable pub signature : String → Payload → Option String
  signature secret p = signature_of secret (h.canonical p)

  abbrev pub matches : Payload → OrderedDigest → Bool
  matches p d = nat_eq p.records d.count && p.digest == hex_encode (h.sha256 d.written)

  -- The tests behind the computed signature.
  abbrev pub verify_signed :
      Option String → Checkpoint → OrderedDigest → Result CheckpointError (Unit {0})
  verify_signed none c d = err bad_payload
  verify_signed (some expected) c d =
      if same_bytes (hex_decode c.signature) (hex_decode expected)
      then (if matches c.payload d then ok tt else err mismatch)
      else err bad_signature

  -- `verify`.
  unfoldable pub verify :
      String → OrderedDigest → Verifier → Checkpoint → Result CheckpointError (Unit {0})
  verify format d keys c =
      if not (
        is_version_1 c.payload.version
        && c.payload.algorithm == checkpoint_algorithm
        && c.payload.format == format)
      then err unsupported
      else if secret_of c.payload.key_id keys == ""
      then err unknown_key
      else verify_signed (signature (secret_of c.payload.key_id keys) c.payload) c d

  abbrev pub payload_of : String → String → OrderedDigest → Payload
  payload_of key_id format d = record {
    version = pos 1;
    algorithm = checkpoint_algorithm;
    key_id = key_id;
    format = format;
    records = d.count;
    digest = hex_encode (h.sha256 d.written);
  }

  abbrev pub signed : Payload → Option String → Result CheckpointError Checkpoint
  signed p none = err bad_payload
  signed p (some s) = ok (record { payload = p; signature = s })

  -- `CreateCheckpoint`, by the result and the digest that the verification of the artifact gives.
  unfoldable pub create :
      String → String → Verifier → VerifyResult → OrderedDigest → Result CheckpointError Checkpoint
  create key_id format keys r d =
      if secret_of key_id keys == ""
      then err key_required
      else if not (clean r)
      then err not_clean
      else signed (payload_of key_id format d)
          (signature (secret_of key_id keys) (payload_of key_id format d))
