-- ===== src/Async.antt =====
-- internal/audit/storage/async.go and durable.go: the asynchronous store, a bounded queue in front
-- of a store and one worker that writes batches.
--
-- A handler of the worker is one step. Sends that happen while a handler runs go to the end of the
-- queue, behind all that it takes, so they commute with it. The metrics calls are left out: they
-- report sizes.
pub mod Contract
pub mod Handlers
pub mod Order
pub mod Bounds
pub mod Tests
use mcp_audit.Base.{
  ℕ, zero, suc, ◌<◌, ℤ, pos, negsuc, ◌≡◌, Bool, true, false, List, [], ◌∷◌, ◌++◌, Option, none,
  some, if◌then◌else◌, leb, ltb, length,
}
use mcp_audit.Audit.{Entry}
use mcp_audit.Audit.Logger.{StoreError}

abbrev pub default_queue_size : ℕ
default_queue_size = 4096

abbrev pub default_batch_size : ℕ
default_batch_size = 128

-- The wrapped store: `Store`, `batchAppender` and `durableBatchAppender`.
pub record BatchStore (S : Type 0) : Type 0 where
  pub append : Entry → S → S × Option StoreError
  pub append_batch : Option (List Entry → S → S × Option StoreError)
  pub append_batch_durable : Option (List Entry → S → S × Option StoreError)

pub data AsyncError : Type 0 where
  no_durable_batches append_after_close : AsyncError
  write_failed : StoreError → AsyncError

pub data AppendResult : Type 0 where
  accepted blocked : AppendResult
  failed : AsyncError → AppendResult

-- A positive setting, or the default.
abbrev pub positive_or : ℕ → ℤ → ℕ
positive_or default (pos zero) = default
positive_or default (pos (suc n)) = suc n
positive_or default (negsuc n) = default

pub record AsyncConfig : Type 0 where
  pub queue_size : ℤ
  pub batch_size : ℤ
  pub durable : Bool

-- The fields that do not change.
pub record Settings (S : Type 0) : Type 0 where
  pub store : BatchStore S
  pub capacity : ℕ
  pub batch_size : ℕ
  pub durable : Bool

-- The fields that change: the wrapped store, the queue and the batch of the worker, oldest first,
-- whether the queue is closed, whether the worker has returned, and the sticky error.
pub record AsyncStore (S : Type 0) : Type 0 where
  pub inner : S
  pub queue : List Entry
  pub batch : List Entry
  pub closed : Bool
  pub done : Bool
  pub err : Option AsyncError

-- The first error stays.
abbrev pub keep_first : Option AsyncError → Option AsyncError → Option AsyncError
keep_first none later = later
keep_first (some x) later = some x

module _ {S : Type 0} where
  -- `NewAsyncStoreWithMetrics`: the settings, and the store at rest.
  unfoldable pub settings_of : BatchStore S → AsyncConfig → Settings S
  settings_of store config = record {
    store = store;
    capacity = positive_or default_queue_size config.queue_size;
    batch_size = positive_or default_batch_size config.batch_size;
    durable = config.durable;
  }

  unfoldable pub new_async_store : S → AsyncStore S
  new_async_store s = record {
    inner = s;
    queue = [];
    batch = [];
    closed = false;
    done = false;
    err = none;
  }

  -- `setErr`.
  abbrev pub set_err : Option AsyncError → AsyncStore S → AsyncStore S
  set_err x a = record a { err = keep_first (a.err) x }

  abbrev pub as_error : S × Option StoreError → S × Option AsyncError
  as_error (s, none) = (s, none)
  as_error (s, some x) = (s, some (write_failed x))

  abbrev pub and_then : (S → S × Option StoreError) → S × Option StoreError → S × Option StoreError
  and_then next (s, none) = next s
  and_then next (s, some x) = (s, some x)

  -- The loop that appends one entry after the other, up to the first failure.
  unfoldable pub append_all : BatchStore S → List Entry → S → S × Option StoreError
  append_all store [] s = (s, none)
  append_all store (e ∷ es) s = and_then (append_all store es) (store.append e s)

  -- The durable batch call, where the store has one.
  abbrev pub write_durably :
      Option (List Entry → S → S × Option StoreError) → List Entry → S → S × Option AsyncError
  write_durably none batch s = (s, some no_durable_batches)
  write_durably (some write) batch s = as_error (write batch s)

  -- The batch call where the store has one, and else the loop.
  abbrev pub write_batched :
      Option (List Entry → S → S × Option StoreError)
      → BatchStore S
      → List Entry
      → S
      → S × Option AsyncError
  write_batched none store batch s = as_error (append_all store batch s)
  write_batched (some write) store batch s = as_error (write batch s)

module _ {S : Type 0} (c : Settings S) where
  unfoldable pub write : List Entry → S → S × Option AsyncError
  write batch s =
      if c.durable
      then write_durably (c.store).append_batch_durable batch s
      else write_batched (c.store).append_batch c.store batch s

  -- A written batch is emptied, a failed one is kept.
  abbrev pub emptied : AsyncStore S → S × Option AsyncError → AsyncStore S × Option AsyncError
  emptied a (s, none) = (record a { inner = s; batch = [] }, none)
  emptied a (s, some x) = (record a { inner = s }, some x)

  abbrev pub write_pending : List Entry → AsyncStore S → AsyncStore S × Option AsyncError
  write_pending [] a = (a, none)
  write_pending (e ∷ es) a = emptied a (write (e ∷ es) a.inner)

  -- `writeBatch`.
  unfoldable pub write_batch : AsyncStore S → AsyncStore S × Option AsyncError
  write_batch a = write_pending a.batch a

  -- An entry goes from the queue to the batch.
  abbrev pub moved : Entry → List Entry → AsyncStore S → AsyncStore S
  moved e rest a = record a { queue = rest; batch = a.batch ++ e ∷ [] }

  abbrev pub is_full : AsyncStore S → Bool
  is_full a = leb c.batch_size (length a.batch)

  abbrev pub on_success :
      (AsyncStore S → AsyncStore S × Option AsyncError)
      → AsyncStore S × Option AsyncError
      → AsyncStore S × Option AsyncError
  on_success next (a, none) = next a
  on_success next (a, some x) = (a, some x)

  -- One entry in the loop of `drainAndFlush`.
  abbrev pub drain_entry :
      (AsyncStore S → AsyncStore S × Option AsyncError)
      → AsyncStore S
      → AsyncStore S × Option AsyncError
  drain_entry next a = if is_full a then on_success next (write_batch a) else next a

  abbrev pub drain_queue :
      (AsyncStore S → AsyncStore S × Option AsyncError)
      → List Entry
      → AsyncStore S
      → AsyncStore S × Option AsyncError
  drain_queue next [] a = write_batch a
  drain_queue next (e ∷ rest) a = drain_entry next (moved e rest a)

  -- The loop of `drainAndFlush`, by the entries that remain.
  unfoldable pub drain : ℕ → AsyncStore S → AsyncStore S × Option AsyncError
  drain zero a = write_batch a
  drain (suc remaining) a = drain_queue (drain remaining) a.queue a

  unfoldable pub drain_and_flush : AsyncStore S → AsyncStore S × Option AsyncError
  drain_and_flush a = drain (length a.queue) a

  -- The worker returns on an error, and keeps it.
  abbrev pub stop_on_error : AsyncStore S × Option AsyncError → AsyncStore S
  stop_on_error (a, none) = a
  stop_on_error (a, some x) = record (set_err (some x) a) { done = true }

  -- The four cases of the worker's select: an entry, the closed queue, a flush and the ticker.
  unfoldable pub receive : Entry → List Entry → AsyncStore S → AsyncStore S
  receive e rest a =
      if is_full (moved e rest a)
      then stop_on_error (write_batch (moved e rest a))
      else moved e rest a

  abbrev pub returned : AsyncStore S × Option AsyncError → AsyncStore S
  returned (a, r) = record (set_err r a) { done = true }

  unfoldable pub receive_closed : AsyncStore S → AsyncStore S
  receive_closed a = returned (write_batch a)

  abbrev pub replied : AsyncStore S × Option AsyncError → AsyncStore S × Option AsyncError
  replied (a, r) = (stop_on_error (a, r), r)

  unfoldable pub receive_flush : AsyncStore S → AsyncStore S × Option AsyncError
  receive_flush a = replied (drain_and_flush a)

  unfoldable pub receive_tick : AsyncStore S → AsyncStore S
  receive_tick a = stop_on_error (write_batch a)

  -- The calls of clients. A send needs a place in the queue, and the queue open.
  abbrev pub sent : Entry → AsyncStore S → AsyncStore S
  sent e a = record a { queue = a.queue ++ e ∷ [] }

  abbrev pub append_by : Option AsyncError → Entry → AsyncStore S → AsyncStore S × AppendResult
  append_by (some x) e a = (a, failed x)
  append_by none e a =
      if a.closed
      then (a, failed append_after_close)
      else if a.done
      then (a, failed append_after_close)
      else if ltb (length a.queue) c.capacity
      then (sent e a, accepted)
      else (a, blocked)

  -- `Append` at one instant: the queue takes the entry, the call fails, or it blocks on a full
  -- queue and is made again at the next instant.
  unfoldable pub append : Entry → AsyncStore S → AsyncStore S × AppendResult
  append e a = append_by a.err e a

  -- The start of `Close`.
  abbrev pub close_queue : AsyncStore S → AsyncStore S
  close_queue a = record a { closed = true }

  -- What the worker does, and the closing of the queue by a client.
  pub data Work : AsyncStore S → AsyncStore S → Type 0 where
    close : (a : AsyncStore S) → Work a (close_queue a)
    take :
        (e : Entry) (rest : List Entry) (a : AsyncStore S)
        → a.done ≡ false
        → a.queue ≡ e ∷ rest
        → Work a (receive e rest a)
    finish :
        (a : AsyncStore S)
        → a.done ≡ false
        → a.closed ≡ true
        → a.queue ≡ []
        → Work a (receive_closed a)
    flush : (a : AsyncStore S) → a.done ≡ false → Work a (receive_flush a).0
    tick : (a : AsyncStore S) → a.done ≡ false → Work a (receive_tick a)

  -- A run from a start, by the entries that the queue accepted in it, in their order. A send needs
  -- a place in the open queue, which is less than `Append` asks for: its other tests were made
  -- before, and may have passed before the worker failed.
  pub data Run (start_state : AsyncStore S) : List Entry → AsyncStore S → Type 0 where
    start : Run start_state [] start_state
    send :
        {es fs : List Entry} {a : AsyncStore S}
        → Run start_state es a
        → (e : Entry) → a.closed ≡ false
        → length a.queue < c.capacity
        → fs ≡ es ++ e ∷ []
        → Run start_state fs (sent e a)
    work :
        {es : List Entry} {a b : AsyncStore S}
        → Run start_state es a
        → Work a b
        → Run start_state es b
