-- ===== src/Integrity.antt =====
-- internal/audit/integrity: the versioned integrity format, its signer and its verifier.
pub mod RoundTrip
pub mod Tests
use mcp_audit.Base.{
  ℕ, ◌^◌, ◌-◌, ℤ, pos, negsuc, String, ◌≡◌, Bool, true, false, not, ◌&&◌, ◌||◌, List, [], ◌∷◌,
  Option, none, some, Result, ok, err, ◌>>=◌, ◌==◌, if◌then◌else◌, nat_eq, leb, ltb, All, lookup,
  length,
}
use mcp_audit.Base.Text.{trim_space}
use mcp_audit.Base.Hex.{IsByte, hex_encode, hex_decode}

-- What the package calls and does not implement: the HMAC of Go's crypto packages, and
-- `json.Marshal` followed by `Transform` of gowebpki/jcs, which refuses input that is no JSON.
-- The parameters of this record are the entries that can be put into canonical form.
pub record Crypto (E : Type 0) : Type 0 where
  pub hmac_sha256 : String → String → List ℕ
  pub hmac_bytes : (key message : String) → All IsByte (hmac_sha256 key message)
  pub hmac_size : (key message : String) → length (hmac_sha256 key message) ≡ 32
  pub transform : E → Option String

pub record RpcErrorV2 : Type 0 where
  pub code : ℤ
  pub message : String
  pub details : String

pub record PrincipalV2 : Type 0 where
  pub subject : String
  pub client_id : String
  pub issuer : String

pub record PolicyV2 : Type 0 where
  pub decision : String
  pub rule_id : String

-- The signed payload. A raw JSON message is its text, empty where it is nil.
pub record EntryV2 : Type 0 where
  pub id : String
  pub timestamp : String
  pub audit_operation_id : String
  pub outcome : String
  pub direction : String
  pub transport : String
  pub method : String
  pub request_id : String
  pub mcp_name : String
  pub tool_name : String
  pub params : String
  pub result : String
  pub error : Option RpcErrorV2
  pub duration_ms : ℤ
  pub client_id : String
  pub server_id : String
  pub principal : Option PrincipalV2
  pub policy : Option PolicyV2

pub record Metadata : Type 0 where
  pub version : ℤ
  pub algorithm : String
  pub key_id : String
  pub signature : String

pub data IntegrityError : Type 0 where
  duration_range code_range bad_payload : IntegrityError
  unsupported_version unsupported_algorithm unknown_key : IntegrityError
  malformed_encoding invalid_signature : IntegrityError

abbrev pub algorithm_hmac_v2 : String
algorithm_hmac_v2 = "hmac-sha256"

abbrev pub default_key_id : String
default_key_id = "default"

abbrev pub is_version_v2 : ℤ → Bool
is_version_v2 (pos n) = nat_eq n 2
is_version_v2 (negsuc n) = false

abbrev pub max_jcs_safe_integer : ℕ
max_jcs_safe_integer = 2 ^ 53 - 1

-- `-max ≤ i && i ≤ max`; `negsuc n` is -(n + 1).
abbrev pub is_safe : ℤ → Bool
is_safe (pos n) = leb n max_jcs_safe_integer
is_safe (negsuc n) = ltb n max_jcs_safe_integer

abbrev pub code_is_safe : Option RpcErrorV2 → Bool
code_is_safe none = true
code_is_safe (some e) = is_safe e.code

-- Bytes compared by `hmac.Equal`.
abbrev pub bytes_equal : List ℕ → List ℕ → Bool
bytes_equal [] [] = true
bytes_equal [] (b ∷ bs) = false
bytes_equal (a ∷ as') [] = false
bytes_equal (a ∷ as') (b ∷ bs) = nat_eq a b && bytes_equal as' bs

abbrev or_error {ℓ} : {A : Type ℓ} → Option A → IntegrityError → Result IntegrityError A
or_error none e = err e
or_error (some a) e = ok a

pub record Signer : Type 0 where
  pub secret : String
  pub key_id : String

unfoldable pub new_signer : String → String → Signer
new_signer secret key_id = record {
  secret = secret;
  key_id = if trim_space key_id == "" then default_key_id else key_id;
}

abbrev pub enabled : Option Signer → Bool
enabled none = false
enabled (some s) = not (s.secret == "")

-- The key map of a verifier; keys are distinct.
abbrev pub Verifier : Type 0
Verifier = List (String × String)

-- An empty secret counts as no key.
abbrev known_secret : Option String → Option String
known_secret none = none
known_secret (some secret) = if secret == "" then none else some secret

module _ (c : Crypto EntryV2) where
  unfoldable pub canonicalize : EntryV2 → Result IntegrityError String
  canonicalize entry =
      if not (is_safe entry.duration_ms)
      then err duration_range
      else if not (code_is_safe entry.error)
      then err code_range
      else or_error (c.transform entry) bad_payload

  abbrev metadata_for : Signer → String → Metadata
  metadata_for s canonical = record {
    version = pos 2;
    algorithm = algorithm_hmac_v2;
    key_id = s.key_id;
    signature = hex_encode (c.hmac_sha256 s.secret canonical);
  }

  -- `Sign`: a disabled signer gives no metadata.
  unfoldable pub sign : Option Signer → EntryV2 → Result IntegrityError (Option Metadata)
  sign none entry = ok none
  sign (some s) entry =
      if s.secret == ""
      then ok none
      else (canonicalize entry >>= λ canonical. ok (some (metadata_for s canonical)))

  unfoldable pub check_signature : String → EntryV2 → Metadata → Result IntegrityError (Unit {0})
  check_signature secret entry metadata = do
    provided ← or_error (hex_decode metadata.signature) malformed_encoding
    canonical ← canonicalize entry
    if bytes_equal provided (c.hmac_sha256 secret canonical) then ok tt else err invalid_signature

  -- `Verify`; a nil verifier is `none`.
  unfoldable pub verify :
      Option Verifier → EntryV2 → Option Metadata → Result IntegrityError (Unit {0})
  verify v entry none = err invalid_signature
  verify v entry (some m) =
      if not (is_version_v2 m.version)
      then err unsupported_version
      else if not (m.algorithm == algorithm_hmac_v2)
      then err unsupported_algorithm
      else do
        keys ← or_error v unknown_key
        secret ← or_error (known_secret (lookup m.key_id keys)) unknown_key
        check_signature secret entry m
