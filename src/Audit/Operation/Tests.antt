-- ===== src/Audit/Operation/Tests.antt =====
-- A store whose appends follow a script of faults, and the lifecycle theorems over it.
use Prim.Native.String.{count}
use mcp_audit.Base.{
  lookup, ◌%◌, pos, String, ◌≡◌, ◌≢◌, ◌⊎◌, inl, inr, refl, sym, ap, ◌∙◌, map, ok_inj, true, false,
  List, [], ◌∷◌, ◌++◌, Option, none, some, Result, ok, err, ◌==◌, eq_iff, if◌then◌else◌, arith,
  replicate, text_cases,
}
use mathlib.Core.List.{Memᴰ}
use mathlib.Core.Path.{subst}
use mathlib.Core.Option.{some-injective}
use mcp_audit.Integrity
use mcp_audit.Integrity.{Crypto, EntryV2, Metadata, Verifier}
use mcp_audit.Audit.{Entry, integrity_entry_v2, direction_server_to_client}
use mcp_audit.Audit.Query.{add_all, new_stats_accumulator, counted, or_zero}
use mcp_audit.Audit.Query.Counts.{count_of, fails, uses_tool, add_all-counts}
use mcp_audit.Audit.Outcome.{outcome_valid}
use mcp_audit.Audit.Signer
use mcp_audit.Audit.Signer.{Signer}
use mcp_audit.Audit.Logger.{
  Codec, Backend, Logger, Inputs, World, StoreError, prepare, resolve, persist, resolve_by,
  confirm_by, write_by, judge, equal_entries, record_prepared,
}
use mcp_audit.Audit.Logger.Contract.{
  Fresh, Contract, Appends, LooksUp, Recorded, record_prepared-Recorded,
}
use mcp_audit.Audit.Operation.{
  Operation, Completion, completion_changed, same_completion, terminal_entry, attempts, finalize,
  new_operation,
}
use mcp_audit.Audit.Operation.Once.{Finalized, finalize-AtMostOnce}
use mcp_audit.Audit.Operation.Runs.{Call, finalize_all, finalize-frozen, finalize_all-once}

-- What becomes of the next append: it is stored, stored with the acknowledgement lost, or refused.
pub data Fault : Type 0 where
  fine lost refused : Fault

pub record Disk : Type 0 where
  entries : List Entry
  script : List Fault

abbrev written : Entry → List Entry → List Fault → Disk × Option StoreError
written e old [] = (record { entries = old ++ e ∷ []; script = [] }, none)
written e old (fine ∷ later) = (record { entries = old ++ e ∷ []; script = later }, none)
written e old (lost ∷ later) = (record { entries = old ++ e ∷ []; script = later }, some "timeout")
written e old (refused ∷ later) = (record { entries = old; script = later }, some "disk full")

abbrev find_id : String → List Entry → Option Entry
find_id id [] = none
find_id id (e ∷ es) = if e.id == id then some e else find_id id es

abbrev disk : Backend Disk
disk = record {
  append = λ e s. written e s.entries s.script;
  append_durable = some (λ e s. written e s.entries s.script);
  lookup_entry = some (λ id s. (s, ok (find_id id s.entries)));
  sync = some (λ s. (s, none));
}

abbrev entries_of : Disk → List Entry
entries_of s = s.entries

written-Appends :
    (e : Entry) (s : Disk) (script : List Fault)
    → Appends entries_of e s (written e s.entries script)
written-Appends e s [] = record { on_success = λ _. refl; either = inr refl }
written-Appends e s (fine ∷ later) = record { on_success = λ _. refl; either = inr refl }
written-Appends e s (lost ∷ later) = record { on_success = λ bad. cc; either = inr refl }
written-Appends e s (refused ∷ later) = record { on_success = λ bad. cc; either = inl refl }

find_id-none : (id : String) (es : List Entry) → find_id id es ≡ none → Fresh id es
find_id-none id [] h = tt
find_id-none id (e ∷ es) h = elim (text_cases e.id id) [
  | inl (same, _) ↦ cc (rw same at h)
  | inr (other, n) ↦ (n, find_id-none id es (rw other at h))
]

find_id-some :
    (id : String) (es : List Entry) (x : Entry) → find_id id es ≡ some x → (x.id ≡ id) × Memᴰ x es
find_id-some id [] x h = cc
find_id-some id (e ∷ es) x h = elim (text_cases e.id id) [
  | inl (same, i) ↦
      let found : e ≡ x = some-injective e x (rw same at h) in
      (ap (λ (y : Entry). y.id) (sym found) ∙ i, Memᴰ.head (sym found))
  | inr (other, _) ↦ let (i, m) = find_id-some id es x (rw other at h) in (i, Memᴰ.tail m)
]

disk-LooksUp : (id : String) (s : Disk) → LooksUp entries_of id s (s, ok (find_id id s.entries))
disk-LooksUp id s = record {
  unchanged = refl;
  missing = λ h. find_id-none id s.entries (ok_inj h);
  found = λ e h. find_id-some id s.entries e (ok_inj h);
}

disk-Contract : Contract disk entries_of
disk-Contract = record {
  appends = λ e s. written-Appends e s s.script;
  appends_durably = λ write h e s.
      subst (λ f. Appends entries_of e s (f e s)) (some-injective _ write h)
        (written-Appends e s s.script);
  looks_up = λ find h id s.
      subst (λ f. LooksUp entries_of id s (f id s)) (some-injective _ find h) (disk-LooksUp id s);
  syncs = λ confirm h s.
      subst (λ f. entries_of (f s).0 ≡ entries_of s) (some-injective _ confirm h) refl;
}

abbrev pub codec : Codec
codec = record {
  crypto = record {
    hmac_sha256 = λ key message. (count key % 256) ∷ (count message % 256) ∷ replicate 30 0;
    hmac_bytes = λ key message. omega arith;
    hmac_size = λ key message. refl;
    transform = λ e. some e.id;
  };
  format = λ t. "2026-01-01T00:00:00Z";
  marshal = λ e. some e.id;
}

abbrev pub legacy_signer : Signer
legacy_signer = record { secret = "key" }

abbrev pub v2_signer : Integrity.Signer
v2_signer = record { secret = "key2"; key_id = "default" }

abbrev pub logger : Logger Disk
logger = record {
  backend = disk;
  signer = some legacy_signer;
  integrity_signer = some v2_signer;
  redactor = some (λ raw. "{}");
  transport = "stdio";
  client_id = "cli";
  server_id = "srv";
  has_metrics = true;
  has_trace = false;
  durable = true;
}

abbrev request : Entry
request = record {
  id = "";
  timestamp = 0;
  audit_operation_id = "";
  outcome = "";
  direction = "";
  transport = "";
  method = "tools/call";
  request_id = "1";
  mcp_name = "ls";
  tool_name = "ls";
  params = "{}";
  result = "";
  error = none;
  duration_ms = pos 0;
  client_id = "";
  server_id = "";
  principal = none;
  policy = none;
  signature = "";
  integrity = none;
}

abbrev pub older : Entry
older = record request { id = "00" }

abbrev pub world : List Fault → World Disk
world script = record {
  store = record { entries = older ∷ []; script = script };
  metrics = [];
  exported = [];
}

abbrev pub success : Completion
success = record {
  outcome = "success";
  direction = direction_server_to_client;
  result = "{}";
  error = none;
}

abbrev pub ticket : Inputs
ticket = record { new_id = "01"; now = 9 }

abbrev pub opened : Operation
opened = new_operation request 5 "op" 0

abbrev call : Call
call = record { completion = success; inputs = ticket; elapsed = pos 4 }

-- The acknowledgement is lost, the retries find the record and confirm it.
lost_ack_runs :
    let (o, w) = finalize_all codec logger (call ∷ call ∷ []) opened (world (lost ∷ [])) in
    (o.finalized ≡ true) × (map (λ (e : Entry). e.id) w.store.entries ≡ "00" ∷ "01" ∷ [])
unfolding finalize_all finalize attempts new_operation prepare resolve resolve_by persist confirm_by
    write_by judge equal_entries record_prepared outcome_valid same_completion Integrity.sign
    Integrity.canonicalize Signer.sign integrity_entry_v2
lost_ack_runs = (refl, refl)

other_id : ◌≢◌ {A = String} "00" "01"
other_id e = cc ((eq_iff "00" "01").1 e)

finalize_all-once_example :
    let (o', w') =
      finalize_all codec logger (call ∷ call ∷ []) opened (world (lost ∷ refused ∷ [])) in
    ((entries_of w'.store ≡ older ∷ []) ⊎ ((p : Entry) × (entries_of w'.store ≡ older ∷ p ∷ [])))
    × (o'.finalized ≡ true → (p : Entry) × (entries_of w'.store ≡ older ∷ p ∷ []))
finalize_all-once_example =
    finalize_all-once codec logger entries_of disk-Contract (older ∷ []) (call ∷ call ∷ []) request
      5 0 "op" (world (lost ∷ refused ∷ [])) ((other_id, tt), ((other_id, tt), tt)) refl refl

abbrev or_blank : {E : Type 0} → Result E Entry → Entry
or_blank (ok p) = p
or_blank (err x) = request

abbrev pub prepared : Entry
prepared = or_blank (prepare codec logger ticket (terminal_entry opened success (pos 4)))

pub prepared_runs :
    prepare codec logger ticket (terminal_entry opened success (pos 4)) ≡ ok prepared
unfolding prepare new_operation Integrity.sign Integrity.canonicalize Signer.sign integrity_entry_v2
prepared_runs = refl

key_ne : ◌≢◌ {A = String} "key" ""
key_ne e = cc ((eq_iff "key" "").1 e)

pub key2_ne : ◌≢◌ {A = String} "key2" ""
key2_ne e = cc ((eq_iff "key2" "").1 e)

abbrev pub keys : Verifier
keys = ("default", "key2") ∷ []

finalize-AtMostOnce_example :
    Finalized codec logger entries_of disk-Contract
      (older ∷ [])
      (finalize codec logger success ticket (pos 4) opened (world (refused ∷ [])))
unfolding new_operation
finalize-AtMostOnce_example =
    finalize-AtMostOnce codec logger entries_of disk-Contract (older ∷ []) success ticket (pos 4)
      opened (world (refused ∷ [])) (other_id, tt) (refl, refl, refl, refl)

record_prepared-Recorded_example :
    Recorded codec logger entries_of disk-Contract
      (older ∷ [])
      (record request { id = "01" })
      (record_prepared codec logger (record request { id = "01" }) false (world []))
record_prepared-Recorded_example =
    record_prepared-Recorded codec logger entries_of disk-Contract (older ∷ [])
      (record request { id = "01" }) false (world []) (other_id, tt) (inl refl) (λ first. refl)

abbrev thawed : Operation
thawed = record opened { frozen = some (prepared, success); attempted = true }

finalize-frozen_example :
    ((finalize codec logger
        (record success { outcome = "timeout" })
        ticket
        (pos 4)
        thawed
        (world [])).0.frozen
      ≡ some (prepared, success))
    × (outcome_valid "timeout" ≡ true
        → thawed.finalized ≡ false
        → same_completion success (record success { outcome = "timeout" }) ≡ false
        → finalize codec logger
            (record success { outcome = "timeout" })
            ticket
            (pos 4)
            thawed
            (world [])
          ≡ (thawed, world [], some completion_changed))
finalize-frozen_example =
    finalize-frozen codec logger prepared success (record success { outcome = "timeout" }) ticket
      (pos 4) thawed (world []) refl

secret_ne : legacy_signer.secret ≢ ""
secret_ne e = cc ((eq_iff legacy_signer.secret "").1 e)

verify-sign_legacy_example :
    Signer.verify codec.crypto codec.format (some legacy_signer) (record older {
      signature = Signer.sign codec.crypto codec.format (some legacy_signer) older;
    })
    ≡ true
verify-sign_legacy_example =
    Signer.verify-sign_legacy codec.crypto codec.format legacy_signer older secret_ne

ls_ne : ◌≢◌ {A = String} "ls" ""
ls_ne e = cc ((eq_iff "ls" "").1 e)

add_all-counts_example :
    let s = add_all (λ raw. none) (prepared ∷ older ∷ []) (new_stats_accumulator 0 100) in
    (s.total ≡ count_of counted (prepared ∷ older ∷ []))
    × (s.errors ≡ count_of (fails (λ raw. none)) (prepared ∷ older ∷ []))
    × (or_zero (lookup "ls" s.tool_counts) ≡ count_of (uses_tool "ls") (prepared ∷ older ∷ []))
add_all-counts_example = add_all-counts (λ raw. none) "ls" (prepared ∷ older ∷ []) 0 100 ls_ne
