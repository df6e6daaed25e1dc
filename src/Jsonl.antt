-- ===== src/Jsonl.antt =====
-- internal/audit/storage/jsonl.go: the JSONL store, one line for each record.
--
-- A file is the list of the pieces of text that were written to it; a whole line is one piece. The
-- archives stand in the order of their rotation, under what follows the file's name in theirs. What
-- the file system answers to one call is the record Io; instants are seconds.
pub mod Atomic
pub mod Retention
pub mod Names
pub mod Tests
use Prim.Native.String
use mcp_audit.Base.{
  ℕ, zero, suc, ◌+◌, ◌-◌, ◌*◌, ◌/◌, String, Bool, true, false, not, ◌&&◌, ◌||◌, List, [], ◌∷◌, ◌++◌,
  Option, none, some, ◌==◌, if◌then◌else◌, ltb, leb, nat_eq, length, lookup, delete,
}
use Prim.Native.Char.{Char}
use mcp_audit.Base.Scan.{has_suffix}
use mcp_audit.Base.Text.{to_lower}

abbrev pub File : Type 0
File = List String

pub record JsonlConfig : Type 0 where
  pub max_size_bytes : ℕ
  pub max_files : ℕ
  pub interval : String
  pub max_age_days : ℕ
  pub durable : Bool

-- The file at the path and its archives, the handle on it, what its writer still buffers and
-- whether that writer keeps an error, and the end of the interval (none for no rotation by time).
pub record JsonlStore : Type 0 where
  pub active : File
  pub archives : List (String × File)
  pub opened : Bool
  pub buffer : File
  pub stuck : Bool
  pub next_time_cutoff : Option ℕ

pub record Io : Type 0 where
  pub stat_before : Bool
  pub tail_read : Bool
  pub flushed : Bool
  pub truncated : Bool
  pub synced : Bool
  pub rollback_synced : Bool
  -- What reached the file before a failure that is not undone.
  pub spilled : File
  pub stat_after : Bool
  pub closed : Bool
  pub renamed : Bool
  pub reopened : Bool
  pub directory_synced : Bool
  pub now : ℕ
  pub stamp : String
  -- The names on which Stat fails whether or not a file has them.
  pub unstatable : String → Bool

pub data JsonlError : Type 0 where
  not_open stat_failed tail_unreadable incomplete_record : JsonlError
  encode_failed flush_failed sync_failed rollback_failed rollback_unsynced : JsonlError
  directory_unsynced : JsonlError

unfoldable pub file_size : File → ℕ
file_size [] = 0
file_size (piece ∷ rest) = String.len piece + file_size rest

-- Whether the file ends in a newline.
unfoldable pub ends_line : File → Bool
ends_line [] = true
ends_line (piece ∷ []) = has_suffix piece "\n"
ends_line (piece ∷ q ∷ rest) = ends_line (q ∷ rest)

-- `nextRotationCutoff`; the table has the lower case of the characters above ASCII.
unfoldable pub next_rotation_cutoff : (Char → Char) → ℕ → String → Option ℕ
next_rotation_cutoff table now interval =
    if to_lower table interval == "hourly"
    then some ((now / 3600) * 3600 + 3600)
    else if to_lower table interval == "daily"
    then some ((now / 86400) * 86400 + 86400)
    else none

-- `timeRotationDue`.
abbrev pub time_rotation_due : Option ℕ → ℕ → Bool
time_rotation_due none now = false
time_rotation_due (some cutoff) now = leb cutoff now

-- The names that are tried for an archive.
unfoldable pub archive_name : (ℕ → String) → String → ℕ → String
archive_name itoa stamp zero = stamp
archive_name itoa stamp (suc i) = String.◌++◌ stamp (String.◌++◌ "." (itoa (suc i)))

-- Whether Stat fails on a name: there is no such file, or for another reason.
abbrev pub stat_fails : Bool → Option File → Bool
stat_fails broken none = true
stat_fails broken (some f) = broken

-- The loop of `nextArchivePath` on fuel.
unfoldable pub first_free :
    ℕ → (String → Bool) → (ℕ → String) → List (String × File) → Option String
first_free zero unstatable name archives = none
first_free (suc fuel) unstatable name archives =
    let rest = first_free fuel unstatable (λ i. name (suc i)) archives in
    if stat_fails (unstatable (name 0)) (lookup (name 0) archives) then some (name 0) else rest

-- `nextArchivePath`: one more than the number of archives is enough fuel.
unfoldable pub next_archive_path :
    (ℕ → String) → (String → Bool) → String → List (String × File) → Option String
next_archive_path itoa unstatable stamp archives =
    first_free (suc (length archives)) unstatable (archive_name itoa stamp) archives

module _ {E : Type 0} (encode : E → Option String) (itoa : ℕ → String) (table : Char → Char)
    (config : JsonlConfig) where
  -- The lines of a batch up to the first record that cannot be encoded, and whether all can.
  abbrev pub and_line : Option String → File × Bool → File × Bool
  and_line none rest = ([], false)
  and_line (some l) (lines, ok) = (l ∷ lines, ok)

  unfoldable pub encode_all : List E → File × Bool
  encode_all [] = ([], true)
  encode_all (e ∷ es) = and_line (encode e) (encode_all es)

  -- `rollback`: the file is cut to its size before, and the writer starts afresh.
  unfoldable pub rollback : Io → JsonlError → JsonlStore → JsonlStore × Option JsonlError
  rollback io cause s =
      if not io.truncated
      then (record s { active = s.active ++ io.spilled }, some rollback_failed)
      else if config.durable && not io.rollback_synced
      then (record s { buffer = []; stuck = false }, some rollback_unsynced)
      else (record s { buffer = []; stuck = false }, some cause)

  -- The file gets a new name; a file that has the name is replaced.
  abbrev pub moved : Option String → JsonlStore → JsonlStore
  moved none s = s
  moved (some name) s = record s {
    active = [];
    archives = delete name s.archives ++ (name, s.active) ∷ [];
  }

  -- `rotate` up to the retention: whether an archive was made. A file that cannot be opened again
  -- leaves the store without one.
  unfoldable pub rotate : Io → JsonlStore → JsonlStore × Bool
  rotate io s =
      if not io.closed
      then (s, false)
      else if not io.renamed
      then (record s { opened = io.reopened }, false)
      else (
        record (moved (next_archive_path itoa io.unstatable io.stamp s.archives) s) {
          opened = io.reopened;
        },
        io.reopened,
      )

  abbrev pub advanced : Bool → Io → JsonlStore → JsonlStore
  advanced due io s =
      if due
      then record s { next_time_cutoff = next_rotation_cutoff table io.now config.interval }
      else s

  module _ (apply_retention : ℕ → List (String × File) → List (String × File)) where
    abbrev pub retained : Bool → Io → JsonlStore × Bool → JsonlStore
    retained due io (s, false) = s
    retained due io (s, true) =
        advanced due io (record s { archives = apply_retention io.now s.archives })

    abbrev pub rotate_when : Bool → Bool → Io → JsonlStore → JsonlStore
    rotate_when true due io s = retained due io (rotate io s)
    rotate_when false due io s = advanced due io s

    abbrev pub size_triggered : JsonlStore → Bool
    size_triggered s =
        not (nat_eq config.max_size_bytes 0) && leb config.max_size_bytes (file_size s.active)

    -- `rotateIfNeeded`: by size or by time; an empty file is not rotated by time.
    unfoldable pub rotate_if_needed : Bool → Io → JsonlStore → JsonlStore
    rotate_if_needed was_empty io s =
        if not io.stat_after
        then s
        else rotate_when
            (size_triggered s || (time_rotation_due s.next_time_cutoff io.now && not was_empty))
            (time_rotation_due s.next_time_cutoff io.now) io s

    unfoldable pub stored : Bool → Io → JsonlStore → JsonlStore × Option JsonlError
    stored was_empty io s = (
      rotate_if_needed was_empty io s,
      if config.durable && not io.directory_synced then some directory_unsynced else none,
    )

    -- The lines are in the buffer: flush, sync, rotate.
    unfoldable pub flushed_to : Bool → Io → File → JsonlStore → JsonlStore × Option JsonlError
    flushed_to was_empty io lines s =
        if not io.flushed
        then rollback io flush_failed (record s { stuck = true })
        else if config.durable && not io.synced
        then rollback io sync_failed (record s { buffer = [] })
        else stored was_empty io
            (record s { active = s.active ++ (s.buffer ++ lines); buffer = [] })

    unfoldable pub encoded : Bool → Io → JsonlStore → File × Bool → JsonlStore × Option JsonlError
    encoded was_empty io s (lines, ok) =
        if s.stuck
        then rollback io encode_failed s
        else if not ok
        then rollback io encode_failed (record s { buffer = s.buffer ++ lines })
        else flushed_to was_empty io lines s

    -- `appendBatch`.
    unfoldable pub append_batch : List E → Io → JsonlStore → JsonlStore × Option JsonlError
    append_batch [] io s = (s, none)
    append_batch (e ∷ es) io s =
        if not s.opened
        then (s, some not_open)
        else if not io.stat_before
        then (s, some stat_failed)
        else if config.durable && not (nat_eq (file_size s.active) 0) && not io.tail_read
        then (s, some tail_unreadable)
        else if config.durable && not (nat_eq (file_size s.active) 0) && not (ends_line s.active)
        then (s, some incomplete_record)
        else encoded (nat_eq (file_size s.active) 0) io s (encode_all (e ∷ es))
