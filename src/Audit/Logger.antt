-- ===== src/Audit/Logger.antt =====
-- internal/audit/logger.go: the logger that redacts, signs and stores a record.
pub mod Contract
pub mod Prepare
use mcp_audit.Base.{
  ℤ, String, Bool, true, false, not, List, [], ◌∷◌, ◌++◌, Option, none, some, Result, ok, err,
  ◌>>=◌, ◌==◌, if◌then◌else◌, nat_eq,
}
use mathlib.Core.Option
use mcp_audit.Integrity
use mcp_audit.Integrity.{Crypto, EntryV2, IntegrityError, Metadata}
use mcp_audit.Audit.{Entry, RpcError, Time, integrity_entry_v2}
use mcp_audit.Audit.Signer
use mcp_audit.Audit.Signer.{Signer}

-- An error of a store, by its message.
abbrev pub StoreError : Type 0
StoreError = String

-- The interface `Store` as far as the logger uses it, and the optional interfaces
-- `DurableAppender`, `EntryLookup` and `Syncer`, each `none` where the store has no such method.
-- A call takes the store's state and returns the new one.
pub record Backend (S : Type 0) : Type 0 where
  pub append : Entry → S → S × Option StoreError
  pub append_durable : Option (Entry → S → S × Option StoreError)
  pub lookup_entry : Option (String → S → S × Result StoreError (Option Entry))
  pub sync : Option (S → S × Option StoreError)

-- What the package calls of the standard library and does not implement: the crypto functions,
-- the RFC3339Nano form of an instant, and `json.Marshal` of an entry, which fails on a raw message
-- that is no JSON.
pub record Codec : Type 0 where
  pub crypto : Crypto EntryV2
  pub format : Time → String
  pub marshal : Entry → Option String

pub record Logger (S : Type 0) : Type 0 where
  pub backend : Backend S
  pub signer : Option Signer
  pub integrity_signer : Option Integrity.Signer
  pub redactor : Option (String → String)
  pub transport : String
  pub client_id : String
  pub server_id : String
  pub has_metrics : Bool
  pub has_trace : Bool
  pub durable : Bool

-- What `ulid.Make` and `time.Now` return if they are called.
pub record Inputs : Type 0 where
  pub new_id : String
  pub now : Time

-- The store, and the entries handed to the metrics recorder and to the trace exporter, the latest
-- first.
pub record World (S : Type 0) : Type 0 where
  pub store : S
  pub metrics : List Entry
  pub exported : List Entry

pub data LogError : Type 0 where
  bad_integrity : IntegrityError → LogError
  lookup_failed append_failed : StoreError → LogError
  conflicting_identity no_lookup no_confirmation no_durable_append : LogError

abbrev or_else : String → String → String
or_else text default = if text == "" then default else text

abbrev with_defaults : {S : Type 0} → Logger S → Inputs → Entry → Entry
with_defaults l i e = record e {
  id = or_else e.id i.new_id;
  timestamp = if nat_eq e.timestamp 0 then i.now else e.timestamp;
  transport = or_else e.transport l.transport;
  client_id = or_else e.client_id l.client_id;
  server_id = or_else e.server_id l.server_id;
}

abbrev redact_error : (String → String) → RpcError → RpcError
redact_error redact x = record x { details = redact x.details }

abbrev redacted : Option (String → String) → Entry → Entry
redacted none e = e
redacted (some redact) e = record e {
  params = redact e.params;
  result = redact e.result;
  error = Option.map (redact_error redact) e.error;
}

abbrev signed : Codec → Option Signer → Entry → Entry
signed k none e = e
signed k (some s) e = record e { signature = Signer.sign k.crypto k.format (some s) e }

-- Integrity v2 metadata, from an enabled signer.
abbrev attested : Codec → Option Integrity.Signer → Entry → Result IntegrityError Entry
attested k s e =
    if Integrity.enabled s
    then (Integrity.sign k.crypto s (integrity_entry_v2 k.format e) >>= λ m.
        ok (record e { integrity = m }))
    else ok e

-- Two printed entries, each of which may have failed to print.
abbrev pub same_text : Option String → Option String → Bool
same_text none y = false
same_text (some x) none = false
same_text (some x) (some y) = x == y

-- `EqualEntries`; instants are compared in UTC as they stand.
unfoldable pub equal_entries : Codec → Entry → Entry → Bool
equal_entries k a b = same_text (k.marshal a) (k.marshal b)

-- What the answer of a lookup says of a retried entry.
unfoldable pub judge : Codec → Entry → Result StoreError (Option Entry) → Result LogError Bool
judge k entry (err x) = err (lookup_failed x)
judge k entry (ok none) = ok false
judge k entry (ok (some existing)) =
    if equal_entries k existing entry then ok true else err conflicting_identity

abbrev pub failure : Option StoreError → Option LogError
failure none = none
failure (some x) = some (append_failed x)

module _ {S : Type 0} where
  abbrev pub with_failure : S × Option StoreError → S × Option LogError
  with_failure (s, r) = (s, failure r)

  abbrev judged : Codec → Entry → S × Result StoreError (Option Entry) → S × Result LogError Bool
  judged k entry (s, answer) = (s, judge k entry answer)

  unfoldable pub resolve_by :
      Codec
      → Option (String → S → S × Result StoreError (Option Entry))
      → Entry
      → S
      → S × Result LogError Bool
  resolve_by k none entry s = (s, err no_lookup)
  resolve_by k (some find) entry s = judged k entry (find entry.id s)

  unfoldable pub confirm_by : Option (S → S × Option StoreError) → S → S × Option LogError
  confirm_by none s = (s, some no_confirmation)
  confirm_by (some confirm) s = with_failure (confirm s)

  unfoldable pub write_by :
      Option (Entry → S → S × Option StoreError) → Entry → S → S × Option LogError
  write_by none entry s = (s, some no_durable_append)
  write_by (some write) entry s = with_failure (write entry s)

module _ {S : Type 0} (k : Codec) (l : Logger S) where
  -- Cloning the parts of the entry leaves the value as it is.
  unfoldable pub prepare : Inputs → Entry → Result IntegrityError Entry
  prepare i e =
      attested k l.integrity_signer (signed k l.signer (redacted l.redactor (with_defaults l i e)))

  -- Whether a retried entry is stored already.
  unfoldable pub resolve : Entry → Bool → S → S × Result LogError Bool
  resolve entry false s = (s, ok false)
  resolve entry true s = resolve_by k l.backend.lookup_entry entry s

  -- The one call of the store that makes the entry permanent.
  unfoldable pub persist : Entry → Bool → S → S × Option LogError
  persist entry true s = if l.durable then confirm_by l.backend.sync s else (s, none)
  persist entry false s =
      if l.durable
      then write_by l.backend.append_durable entry s
      else with_failure (l.backend.append entry s)

  -- Metrics and tracing; a failed export is only logged.
  abbrev pub observe : Entry → World S → World S
  observe entry w = record w {
    metrics = if l.has_metrics then entry ∷ w.metrics else w.metrics;
    exported = if l.has_trace then entry ∷ w.exported else w.exported;
  }

  -- The world after the store was called, observed if the call succeeded.
  abbrev settle : Entry → World S → S × Option LogError → World S × Option LogError
  settle entry w (s, none) = (observe entry (record w { store = s }), none)
  settle entry w (s, some x) = (record w { store = s }, some x)

  abbrev persist_resolved : Entry → World S → S × Result LogError Bool → World S × Option LogError
  persist_resolved entry w (s, err x) = (record w { store = s }, some x)
  persist_resolved entry w (s, ok found) = settle entry w (persist entry found s)

  -- `recordPrepared`.
  unfoldable pub record_prepared : Entry → Bool → World S → World S × Option LogError
  record_prepared entry retry w = persist_resolved entry w (resolve entry retry w.store)

  -- `Record`.
  unfoldable pub record_entry : Inputs → Entry → World S → World S × Option LogError
  record_entry i entry w = elim (prepare i entry) [
    | err x ↦ (w, some (bad_integrity x))
    | ok prepared ↦ record_prepared prepared false w
  ]
