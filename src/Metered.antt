-- ===== src/Metered.antt =====
-- internal/audit/storage/instrumented.go and the part of durable.go for it: a store that counts the
-- writes of another one.
--
-- The wrapped store is an interface of optional operations, as the type assertions of the source
-- find them; `X` are its errors. Durations are left out.
pub mod Transparent
use mcp_audit.Base.{
  ℕ, zero, suc, String, Bool, true, false, not, List, [], ◌∷◌, Option, none, some, Result, ok, err,
  if◌then◌else◌, nat_eq, length,
}

pub data MeteredError (X : Type 0) : Type 0 where
  from_store : X → MeteredError X
  no_durable_appends no_durable_batches no_identity_lookup no_confirmation : MeteredError X

pub record Wrapped (S E X : Type 0) : Type 0 where
  pub append : E → S → S × Option X
  pub append_batch : Option (List E → S → S × Option X)
  pub append_durable : Option (E → S → S × Option X)
  pub append_batch_durable : Option (List E → S → S × Option X)
  pub lookup_entry : Option (String → S → S × Result X (Option E))
  pub sync : Option (S → S × Option X)

-- What the metrics get: whether a write succeeded, and its number of records.
pub record Metered (S : Type 0) : Type 0 where
  pub inner : S
  pub writes : List (Bool × ℕ)

module _ {S E X : Type 0} (store : Wrapped S E X) (metrics : Bool) where
  abbrev pub succeeded : Option (MeteredError X) → Bool
  succeeded none = true
  succeeded (some x) = false

  -- `record`: nothing without metrics, and nothing for an empty batch.
  unfoldable pub record_write :
      ℕ → S × Option (MeteredError X) → List (Bool × ℕ) → Metered S × Option (MeteredError X)
  record_write entries (s, x) writes = (
    record {
      inner = s;
      writes =
          if not metrics
          then writes
          else if nat_eq entries 0
          then writes
          else (succeeded x, entries) ∷ writes;
    },
    x,
  )

  abbrev pub raised : S × Option X → S × Option (MeteredError X)
  raised (s, none) = (s, none)
  raised (s, some x) = (s, some (from_store x))

  -- `Append`.
  unfoldable pub append_metered : E → Metered S → Metered S × Option (MeteredError X)
  append_metered e m = record_write 1 (raised (store.append e m.inner)) m.writes

  -- The records one after the other, up to the first that fails.
  abbrev pub unless_failed : (S → S × Option X) → S × Option X → S × Option X
  unless_failed next (s, none) = next s
  unless_failed next (s, some x) = (s, some x)

  unfoldable pub append_each : List E → S → S × Option X
  append_each [] s = (s, none)
  append_each (e ∷ es) s = unless_failed (append_each es) (store.append e s)

  abbrev pub batch_by : Option (List E → S → S × Option X) → List E → S → S × Option X
  batch_by none es s = append_each es s
  batch_by (some write) es s = write es s

  -- `AppendBatch`.
  unfoldable pub append_batch_metered : List E → Metered S → Metered S × Option (MeteredError X)
  append_batch_metered es m =
      record_write (length es) (raised (batch_by store.append_batch es m.inner)) m.writes

  abbrev pub durable_by :
      {A : Type 0}
      → Option (A → S → S × Option X)
      → MeteredError X
      → A
      → S
      → S × Option (MeteredError X)
  durable_by none missing a s = (s, some missing)
  durable_by (some write) missing a s = raised (write a s)

  -- `AppendDurable` and `AppendBatchDurable`.
  unfoldable pub append_durable_metered : E → Metered S → Metered S × Option (MeteredError X)
  append_durable_metered e m =
      record_write 1 (durable_by store.append_durable no_durable_appends e m.inner) m.writes

  unfoldable pub append_batch_durable_metered :
      List E → Metered S → Metered S × Option (MeteredError X)
  append_batch_durable_metered es m =
      record_write (length es) (durable_by store.append_batch_durable no_durable_batches es m.inner)
        m.writes

  abbrev pub found :
      Metered S → S × Result X (Option E) → Metered S × Result (MeteredError X) (Option E)
  found m (s, ok o) = (record m { inner = s }, ok o)
  found m (s, err x) = (record m { inner = s }, err (from_store x))

  abbrev pub found_by :
      Option (String → S → S × Result X (Option E))
      → String
      → Metered S
      → Metered S × Result (MeteredError X) (Option E)
  found_by none id m = (m, err no_identity_lookup)
  found_by (some find) id m = found m (find id m.inner)

  -- `LookupEntry`.
  unfoldable pub lookup_entry_metered :
      String → Metered S → Metered S × Result (MeteredError X) (Option E)
  lookup_entry_metered id m = found_by store.lookup_entry id m

  abbrev pub confirmed_by : Option (S → S × Option X) → Metered S → S × Option (MeteredError X)
  confirmed_by none m = (m.inner, some no_confirmation)
  confirmed_by (some confirm) m = raised (confirm m.inner)

  abbrev pub kept_writes :
      Metered S → S × Option (MeteredError X) → Metered S × Option (MeteredError X)
  kept_writes m (s, x) = (record m { inner = s }, x)

  -- `Sync`.
  unfoldable pub sync_metered : Metered S → Metered S × Option (MeteredError X)
  sync_metered m = kept_writes m (confirmed_by store.sync m)
