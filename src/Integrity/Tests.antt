-- ===== src/Integrity/Tests.antt =====
-- The integrity theorems at concrete keys, under a toy HMAC that shows that the parameters'
-- laws can hold.
use Prim.Native.String.{count}
use mcp_audit.Base.{
  ◌%◌, pos, negsuc, String, ◌≡◌, ◌≢◌, refl, [], ◌∷◌, none, some, ok, eq_iff, arith, replicate,
}
use mcp_audit.Base.Text.{trim_space}
use mcp_audit.Base.Hex.{hex_encode}
use mcp_audit.Integrity.{
  Crypto, EntryV2, Metadata, Signer, Verifier, new_signer, canonicalize, sign, verify,
}
use mcp_audit.Integrity.RoundTrip.{Authentic, verify_iff, verify-sign}

abbrev toy : Crypto EntryV2
toy = record {
  hmac_sha256 = λ key message. (count key % 256) ∷ (count message % 256) ∷ replicate 30 0;
  hmac_bytes = λ key message. omega arith;
  hmac_size = λ key message. refl;
  transform = λ e. some e.id;
}

abbrev entry : EntryV2
entry = record {
  id = "01";
  timestamp = "t";
  audit_operation_id = "op";
  outcome = "success";
  direction = "d";
  transport = "stdio";
  method = "tools/call";
  request_id = "1";
  mcp_name = "ls";
  tool_name = "ls";
  params = "";
  result = "";
  error = some (record { code = negsuc 4; message = "m"; details = "" });
  duration_ms = pos 7;
  client_id = "c";
  server_id = "s";
  principal = none;
  policy = none;
}

abbrev signer : Signer
signer = record { secret = "key"; key_id = "default" }

abbrev keys : Verifier
keys = ("old", "k") ∷ ("default", "key") ∷ []

abbrev metadata : Metadata
metadata = record {
  version = pos 2;
  algorithm = "hmac-sha256";
  key_id = "default";
  signature = "0302000000000000000000000000000000000000000000000000000000000000";
}

new_signer_defaults : new_signer "key" "  " ≡ signer
unfolding new_signer trim_space
new_signer_defaults = refl

sign_runs : sign toy (some signer) entry ≡ ok (some metadata)
unfolding sign canonicalize hex_encode
sign_runs = refl

key_ne : ◌≢◌ {A = String} "key" ""
key_ne e = cc ((eq_iff "key" "").1 e)

verify-sign_example : verify toy (some keys) entry (some metadata) ≡ ok tt
verify-sign_example = verify-sign toy signer keys entry metadata key_ne refl sign_runs

verify_iff_example : Authentic toy keys entry metadata
verify_iff_example = (verify_iff toy keys entry metadata).0 verify-sign_example
