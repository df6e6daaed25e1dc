-- ===== src/Audit/Signer.antt =====
-- internal/audit/signer.go: the legacy signature over five fields, without separators.
use Prim.Native.String
use mcp_audit.Base.{
  ℕ, List, String, ◌≡◌, ◌≢◌, Bool, true, false, not, ◌||◌, Option, none, some, ◌==◌, eq_iff,
  if◌then◌else◌, arith, length,
}
use mcp_audit.Base.Hex.{hex_encode, hex_decode, hex_decode-hex_encode, hex_encode-eq_empty}
use mcp_audit.Integrity.{Crypto, EntryV2, bytes_equal}
use mcp_audit.Integrity.RoundTrip.{bytes_equal_refl}
use mcp_audit.Audit.{Entry, Time}

pub record Signer : Type 0 where
  pub secret : String

abbrev pub enabled : Option Signer → Bool
enabled none = false
enabled (some s) = not (s.secret == "")

-- Two decoded signatures, each of which may be malformed.
abbrev same_mac : Option (List ℕ) → Option (List ℕ) → Bool
same_mac none expected = false
same_mac (some provided) none = false
same_mac (some provided) (some expected) = bytes_equal provided expected

module _ (c : Crypto EntryV2) (format : Time → String) where
  -- What is written to the MAC.
  abbrev pub signed_text : Entry → String
  signed_text e =
      String.◌++◌ e.id
        (String.◌++◌ (format e.timestamp) (String.◌++◌ e.method (String.◌++◌ e.tool_name e.params)))

  unfoldable pub sign : Option Signer → Entry → String
  sign none entry = ""
  sign (some s) entry =
      if s.secret == "" then "" else hex_encode (c.hmac_sha256 s.secret (signed_text entry))

  unfoldable pub verify : Option Signer → Entry → Bool
  verify signer entry =
      if not (enabled signer) || entry.signature == ""
      then false
      else same_mac (hex_decode entry.signature) (hex_decode (sign signer entry))

  hex_encode-ne_empty : (s : Signer) (text : String) → hex_encode (c.hmac_sha256 s.secret text) ≢ ""
  hex_encode-ne_empty s text h =
      let size : length (c.hmac_sha256 s.secret text) ≡ 0 = rw (hex_encode-eq_empty _ h) in
      absurd (omega (arith, size, c.hmac_size s.secret text))

  -- An entry that carries the legacy signature that a signer with a secret made of it is accepted by
  -- that signer.
  pub verify-sign_legacy :
      (s : Signer) (e : Entry)
      → s.secret ≢ ""
      → verify (some s) (record e { signature = sign (some s) e }) ≡ true
  unfolding verify sign
  verify-sign_legacy s e nonempty =
      let secret : (s.secret == "") ≡ false = ground (arith, eq_iff s.secret "", nonempty) in
      let mac = c.hmac_sha256 s.secret (signed_text e) in
      let shown : (hex_encode mac == "") ≡ false =
        ground (arith, eq_iff (hex_encode mac) "", hex_encode-ne_empty s (signed_text e)) in
      rw (
        secret,
        shown,
        hex_decode-hex_encode mac (c.hmac_bytes s.secret (signed_text e)),
        bytes_equal_refl mac,
      )
