-- ===== src/Verify.antt =====
-- internal/audit/verify/verify.go and jsonl.go: the verification of a JSON Lines artifact.
--
-- An artifact is the list of its lines; opening and reading the file are left out. A problem is
-- kept as data where the source formats a text.
pub mod Jsonl
pub mod Counts
pub mod Clean
pub mod Artifact
pub mod Digest
pub mod Checkpoint
pub mod Pinned
pub mod Create
pub mod Logged
pub mod Tests
use mcp_audit.Base.{
  ℕ, zero, suc, ◌+◌, ◌%◌, ◌^◌, ◌/◌, String, Bool, true, false, not, ◌&&◌, ◌||◌, List, [], ◌∷◌, ◌++◌,
  Option, none, some, Result, ok, err, ◌==◌, if◌then◌else◌, nat_eq, any, length,
}
use mcp_audit.Base.Text.{trim_space}
use mcp_audit.Integrity
use mcp_audit.Integrity.{IntegrityError, Metadata, Verifier}
use mcp_audit.Audit.{Entry, integrity_entry_v2}
use mcp_audit.Audit.Signer
use mcp_audit.Audit.Logger.{Codec}

-- What the package calls: `jcs.Transform`, `json.Unmarshal` into an entry, and the bytes of a text.
pub record Reader : Type 0 where
  pub transform : String → Option String
  pub unmarshal : String → Option Entry
  pub bytes : String → List ℕ

pub data Reason : Type 0 where
  bad_integrity : IntegrityError → Reason
  v2_required no_legacy_key is_unsigned bad_json bad_entry empty_artifact bad_checkpoint : Reason

-- `entryLabel`: the id of an entry, or else the number of its record.
pub data Label : Type 0 where
  whole_artifact : Label
  entry : String → Label
  numbered : ℕ → Label

abbrev pub entry_label : String → ℕ → Label
entry_label id index = if id == "" then numbered index else entry id

pub data Status : Type 0 where
  verified legacy unsigned : Status
  invalid : Reason → Status

-- `Result`.
pub record VerifyResult : Type 0 where
  pub verified : ℕ
  pub invalid : ℕ
  pub legacy : ℕ
  pub unsigned : ℕ
  pub total : ℕ
  pub first_error : Option (Label × Reason)
  pub policy_failed : Bool

abbrev pub empty_result : VerifyResult
empty_result = record {
  verified = 0;
  invalid = 0;
  legacy = 0;
  unsigned = 0;
  total = 0;
  first_error = none;
  policy_failed = false;
}

-- `Clean`.
unfoldable pub clean : VerifyResult → Bool
clean r = nat_eq r.invalid 0 && nat_eq r.unsigned 0 && not r.policy_failed

-- `orderedDigest`: what was written to the hash, and the count.
pub record OrderedDigest : Type 0 where
  pub written : List ℕ
  pub count : ℕ

abbrev pub new_ordered_digest : OrderedDigest
new_ordered_digest = record { written = []; count = 0 }

-- `PutUint64`, big endian.
abbrev pub put_uint64 : ℕ → List ℕ
put_uint64 n =
    (n / 2 ^ 56 % 256)
    ∷ (n / 2 ^ 48 % 256)
    ∷ (n / 2 ^ 40 % 256)
    ∷ (n / 2 ^ 32 % 256)
    ∷ (n / 2 ^ 24 % 256)
    ∷ (n / 2 ^ 16 % 256)
    ∷ (n / 2 ^ 8 % 256)
    ∷ (n % 256)
    ∷ []

-- `add`, for a record of fewer than 2 ^ 64 bytes; the count is a uint64.
unfoldable pub add : List ℕ → OrderedDigest → OrderedDigest
add canonical d = record {
  written = d.written ++ (put_uint64 (length canonical) ++ canonical);
  count = (d.count + 1) % 2 ^ 64;
}

-- `entryVerifier` without the digest.
pub record EntryVerifier : Type 0 where
  pub keys : Verifier
  pub require_v2 : Bool

-- The first error stays.
abbrev pub first : Option (Label × Reason) → Label → Reason → Option (Label × Reason)
first none label reason = some (label, reason)
first (some x) label reason = some x

-- `record`, by the status; `total` counts the record already.
unfoldable pub record_status : Status → String → VerifyResult → VerifyResult
record_status verified id r = record r { verified = suc r.verified }
record_status legacy id r = record r { legacy = suc r.legacy }
record_status unsigned id r = record r {
  unsigned = suc r.unsigned;
  first_error = first r.first_error (entry_label id r.total) is_unsigned;
}
record_status (invalid x) id r = record r {
  invalid = suc r.invalid;
  first_error = first r.first_error (entry_label id r.total) x;
}

unfoldable pub malformed : ℕ → Reason → VerifyResult → VerifyResult
malformed index x r = record r {
  total = suc r.total;
  invalid = suc r.invalid;
  first_error = first r.first_error (numbered index) x;
}

abbrev pub v2_status : Result IntegrityError (Unit {0}) → Status
v2_status (ok _) = verified
v2_status (err x) = invalid (bad_integrity x)

module _ (k : Codec) where
  -- A legacy signature may be under any of the keys.
  abbrev pub matches_key : Entry → String × String → Bool
  matches_key e (id, secret) = Signer.verify k.crypto k.format (some (record { secret = secret })) e

  abbrev pub legacy_status : EntryVerifier → Entry → Status
  legacy_status v e =
      if v.require_v2
      then invalid v2_required
      else if e.signature == ""
      then unsigned
      else if any (matches_key e) v.keys
      then legacy
      else invalid no_legacy_key

  -- `verify`, by the metadata of the entry.
  unfoldable pub verify_by : Option Metadata → EntryVerifier → Entry → Status
  verify_by none v e = legacy_status v e
  verify_by (some m) v e =
      v2_status (Integrity.verify k.crypto (some v.keys) (integrity_entry_v2 k.format e) (some m))

  unfoldable pub verify : EntryVerifier → Entry → Status
  verify v e = verify_by e.integrity v e

  unfoldable pub record_entry : EntryVerifier → Entry → VerifyResult → VerifyResult
  record_entry v e r = record_status (verify v e) e.id (record r { total = suc r.total })
