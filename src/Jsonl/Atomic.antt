-- ===== src/Jsonl/Atomic.antt =====
-- internal/audit/storage/jsonl.go, appendBatch: a batch is stored whole or not at all.
use mcp_audit.Base.{
  ℕ, String, Bool, true, false, not, ◌&&◌, ◌||◌, ◌≡◌, ◌≢◌, refl, sym, ap, ◌∙◌, inl, inr, ◌⊎◌, List,
  [], ◌∷◌, ◌++◌, Option, none, some, Bool-cases, nat_eq, lookup, delete-Absent, Absent-of_lookup,
}
use Prim.Native.Char.{Char}
use mcp_audit.Jsonl.Names.{next_archive_path-free}
use mcp_audit.Jsonl.{
  File, JsonlConfig, JsonlStore, Io, JsonlError, directory_unsynced, not_open, stat_failed,
  tail_unreadable, incomplete_record, encode_failed, flush_failed, sync_failed, file_size,
  ends_line, next_archive_path, encode_all, rollback, moved, rotate, advanced, retained,
  rotate_if_needed, rotate_when, size_triggered, time_rotation_due, stored, flushed_to, encoded,
  append_batch,
}

-- Everything that is stored, in the order in which it was written.
abbrev pub archived : List (String × File) → File
archived [] = []
archived ((name, f) ∷ rest) = f ++ archived rest

abbrev pub everything : JsonlStore → File
everything s = archived s.archives ++ s.active

append_assoc : (a b c : File) → (a ++ b) ++ c ≡ a ++ (b ++ c)
append_assoc [] b c = refl
append_assoc (x ∷ a) b c = ap (λ t. x ∷ t) (append_assoc a b c)

append_nil : (a : File) → a ++ [] ≡ a
append_nil [] = refl
append_nil (x ∷ a) = ap (λ t. x ∷ t) (append_nil a)

archived-append :
    (files : List (String × File)) (name : String) (f : File)
    → archived (files ++ (name, f) ∷ []) ≡ archived files ++ f
archived-append [] name f = append_nil f
archived-append ((n, g) ∷ files) name f =
    ap (λ t. g ++ t) (archived-append files name f) ∙ sym (append_assoc g (archived files) f)

module _ {E : Type 0} (encode : E → Option String) (itoa : ℕ → String) (table : Char → Char)
    (config : JsonlConfig) (retention : ℕ → List (String × File) → List (String × File)) where
  -- The same records, whatever their files are called.
  abbrev Same : JsonlStore → JsonlStore → Type 0
  Same s s' = everything s' ≡ everything s

  moved-Same :
      (o : Option String) (s : JsonlStore)
      → ((name : String) → o ≡ some name → lookup name s.archives ≡ none)
      → Same s (moved encode itoa table config o s)
  moved-Same none s free = refl
  moved-Same (some name) s free =
      let kept =
        delete-Absent name s.archives (Absent-of_lookup name s.archives (free name refl)) in
      rw kept (
        append_nil (archived (s.archives ++ (name, s.active) ∷ []))
        ∙ archived-append s.archives name s.active)

  -- Stat fails on no file that is there.
  abbrev pub AllStatable : Io → Type 0
  AllStatable io = (name : String) → io.unstatable name ≡ false

  rotate-Same :
      (io : Io) (s : JsonlStore) → AllStatable io → Same s (rotate encode itoa table config io s).0
  unfolding rotate
  rotate-Same io s seen = elim (Bool-cases io.closed) [
    | inr broken ↦ rw broken refl
    | inl closed ↦ elim (Bool-cases io.renamed) [
      | inr kept ↦ rw (closed, kept) refl
      | inl renamed ↦
          rw (closed, renamed)
            (moved-Same (next_archive_path itoa io.unstatable io.stamp s.archives) s
              (next_archive_path-free itoa io.unstatable io.stamp s.archives seen))
    ]
  ]

  -- Nothing is removed: there is no limit on the age or the number of the archives.
  abbrev pub KeepsAll : Type 0
  KeepsAll = (now : ℕ) (files : List (String × File)) → retention now files ≡ files

  advanced-Same :
      (due : Bool) (io : Io) (s : JsonlStore) → Same s (advanced encode itoa table config due io s)
  advanced-Same true io s = refl
  advanced-Same false io s = refl

  retained-Same :
      (due : Bool) (io : Io) (s : JsonlStore) (r : JsonlStore × Bool)
      → KeepsAll
      → Same s r.0
      → Same s (retained encode itoa table config retention due io r)
  retained-Same due io s (s', false) keep h = h
  retained-Same due io s (s', true) keep h =
      advanced-Same due io (record s' { archives = retention io.now s'.archives })
      ∙ ap (λ files. archived files ++ s'.active) (keep io.now s'.archives)
      ∙ h

  rotate_when-Same :
      (triggered due : Bool) (io : Io) (s : JsonlStore)
      → AllStatable io
      → KeepsAll
      → Same s (rotate_when encode itoa table config retention triggered due io s)
  rotate_when-Same true due io s seen keep =
      retained-Same due io s (rotate encode itoa table config io s) keep (rotate-Same io s seen)
  rotate_when-Same false due io s seen keep = advanced-Same due io s

  moved-buffer :
      (o : Option String) (s : JsonlStore) → (moved encode itoa table config o s).buffer ≡ s.buffer
  moved-buffer none s = refl
  moved-buffer (some name) s = refl

  rotate-buffer :
      (io : Io) (s : JsonlStore) → (rotate encode itoa table config io s).0.buffer ≡ s.buffer
  unfolding rotate
  rotate-buffer io s = elim (Bool-cases io.closed) [
    | inr broken ↦ simp broken refl
    | inl closed ↦ elim (Bool-cases io.renamed) [
      | inr kept ↦ simp (closed, kept) refl
      | inl renamed ↦
          simp (closed, renamed)
            (moved-buffer (next_archive_path itoa io.unstatable io.stamp s.archives) s)
    ]
  ]

  advanced-buffer :
      (due : Bool) (io : Io) (s : JsonlStore)
      → (advanced encode itoa table config due io s).buffer ≡ s.buffer
  advanced-buffer true io s = refl
  advanced-buffer false io s = refl

  retained-buffer :
      (due : Bool) (io : Io) (r : JsonlStore × Bool)
      → (retained encode itoa table config retention due io r).buffer ≡ r.0.buffer
  retained-buffer due io (s, false) = refl
  retained-buffer due io (s, true) =
      advanced-buffer due io (record s { archives = retention io.now s.archives })

  rotate_when-buffer :
      (triggered due : Bool) (io : Io) (s : JsonlStore)
      → (rotate_when encode itoa table config retention triggered due io s).buffer ≡ s.buffer
  rotate_when-buffer true due io s =
      retained-buffer due io (rotate encode itoa table config io s) ∙ rotate-buffer io s
  rotate_when-buffer false due io s = advanced-buffer due io s

  rotate_if_needed-buffer :
      (was_empty : Bool) (io : Io) (s : JsonlStore)
      → (rotate_if_needed encode itoa table config retention was_empty io s).buffer ≡ s.buffer
  unfolding rotate_if_needed
  rotate_if_needed-buffer was_empty io s = elim (Bool-cases io.stat_after) [
    | inr unknown ↦ simp unknown refl
    | inl known ↦ simp known (
        rotate_when-buffer
          (size_triggered encode itoa table config retention s
            || (time_rotation_due s.next_time_cutoff io.now && not was_empty))
          (time_rotation_due s.next_time_cutoff io.now) io s)
  ]

  rotate_if_needed-Same :
      (was_empty : Bool) (io : Io) (s : JsonlStore)
      → AllStatable io
      → KeepsAll
      → Same s (rotate_if_needed encode itoa table config retention was_empty io s)
  unfolding rotate_if_needed
  rotate_if_needed-Same was_empty io s seen keep = elim (Bool-cases io.stat_after) [
    | inr unknown ↦ simp unknown refl
    | inl known ↦ simp known (
        rotate_when-Same
          (size_triggered encode itoa table config retention s
            || (time_rotation_due s.next_time_cutoff io.now && not was_empty))
          (time_rotation_due s.next_time_cutoff io.now) io s seen keep)
  ]

  -- The buffer is empty again, and the batch is stored whole, or the call fails and nothing of it
  -- is stored.
  pub record Atomic (s : JsonlStore) (lines : File) (r : JsonlStore × Option JsonlError)
      : Type 0 where
    pub buffer : r.0.buffer ≡ []
    pub whole_or_nothing :
        ((everything r.0 ≡ everything s ++ lines)
          × ((r.1 ≡ none) ⊎ (r.1 ≡ some directory_unsynced)))
        ⊎ ((everything r.0 ≡ everything s) × (r.1 ≢ none))

  rollback-Atomic :
      (io : Io) (cause : JsonlError) (lines : File) (s s' : JsonlStore)
      → io.truncated ≡ true
      → Same s s'
      → Atomic s lines (rollback encode itoa table config io cause s')
  unfolding rollback
  rollback-Atomic io cause lines s s' cut same =
      elim (Bool-cases (config.durable && not io.rollback_synced)) [
        | inl unsynced ↦
            simp (cut, unsynced)
              (record { buffer = refl; whole_or_nothing = inr (same, λ e. cc e) })
        | inr synced ↦
            simp (cut, synced) (record { buffer = refl; whole_or_nothing = inr (same, λ e. cc e) })
      ]

  stored-Atomic :
      (was_empty : Bool) (io : Io) (lines : File) (s s' : JsonlStore)
      → AllStatable io
      → KeepsAll
      → s'.buffer ≡ []
      → everything s' ≡ everything s ++ lines
      → Atomic s lines (stored encode itoa table config retention was_empty io s')
  unfolding stored
  stored-Atomic was_empty io lines s s' seen keep empty whole =
      let same = rotate_if_needed-Same was_empty io s' seen keep ∙ whole in
      let clean = rotate_if_needed-buffer was_empty io s' ∙ empty in
      elim (Bool-cases (config.durable && not io.directory_synced)) [
        | inl unsynced ↦
            simp unsynced (record { buffer = clean; whole_or_nothing = inl (same, inr refl) })
        | inr synced ↦
            simp synced (record { buffer = clean; whole_or_nothing = inl (same, inl refl) })
      ]

  flushed_to-Atomic :
      (was_empty : Bool) (io : Io) (lines : File) (s : JsonlStore)
      → AllStatable io
      → KeepsAll
      → io.truncated ≡ true
      → s.buffer ≡ []
      → Atomic s lines (flushed_to encode itoa table config retention was_empty io lines s)
  unfolding flushed_to
  flushed_to-Atomic was_empty io lines s seen keep cut empty = elim (Bool-cases io.flushed) [
    | inr failed ↦
        simp failed (rollback-Atomic io flush_failed lines s (record s { stuck = true }) cut refl)
    | inl flushed ↦ elim (Bool-cases (config.durable && not io.synced)) [
      | inl failed ↦
          simp (flushed, failed)
            (rollback-Atomic io sync_failed lines s (record s { buffer = [] }) cut refl)
      | inr synced ↦
          simp (flushed, synced)
            (stored-Atomic was_empty io lines s
              (record s { active = s.active ++ (s.buffer ++ lines); buffer = [] }) seen keep refl
              (ap (λ b. archived s.archives ++ (s.active ++ (b ++ lines))) empty
                ∙ sym (append_assoc (archived s.archives) s.active lines)))
    ]
  ]

  encoded-Atomic :
      (was_empty : Bool) (io : Io) (s : JsonlStore) (r : File × Bool)
      → AllStatable io
      → KeepsAll
      → io.truncated ≡ true
      → s.buffer ≡ []
      → Atomic s r.0 (encoded encode itoa table config retention was_empty io s r)
  unfolding encoded
  encoded-Atomic was_empty io s (lines, ok) seen keep cut empty = elim (Bool-cases s.stuck) [
    | inl stuck ↦ simp stuck (rollback-Atomic io encode_failed lines s s cut refl)
    | inr free ↦ elim (Bool-cases ok) [
      | inr bad ↦
          simp (free, bad)
            (rollback-Atomic io encode_failed lines s
              (record s { buffer = s.buffer ++ lines; stuck = false }) cut refl)
      | inl good ↦ simp (free, good) (flushed_to-Atomic was_empty io lines s seen keep cut empty)
    ]
  ]

  refused-Atomic :
      (s : JsonlStore) (lines : File) (x : JsonlError) → s.buffer ≡ [] → Atomic s lines (s, some x)
  refused-Atomic s lines x empty = record {
    buffer = empty;
    whole_or_nothing = inr (refl, λ e. cc e);
  }

  -- Where nothing is left in the writer's buffer, nothing is removed by age or number, Stat fails on
  -- no file that is there and a failed append can be cut off, an append leaves an empty buffer and
  -- stores its lines whole, behind everything that was stored before, or it reports an error and
  -- what is stored is as before. The one error under which they are stored is that of the last
  -- barrier, the sync of the directory.
  pub append_batch-Atomic :
      (es : List E) (io : Io) (s : JsonlStore)
      → AllStatable io
      → KeepsAll
      → io.truncated ≡ true
      → s.buffer ≡ []
      → Atomic s
          (encode_all encode itoa table config es).0
          (append_batch encode itoa table config retention es io s)
  unfolding append_batch encode_all
  append_batch-Atomic [] io s seen keep cut empty = record {
    buffer = empty;
    whole_or_nothing = inl (sym (append_nil (everything s)), inl refl);
  }
  append_batch-Atomic (e ∷ es) io s seen keep cut empty =
      let lines = (encode_all encode itoa table config (e ∷ es)).0 in
      let some_there = config.durable && not (nat_eq (file_size s.active) 0) in
      elim (Bool-cases s.opened) [
        | inr shut ↦ simp shut (refused-Atomic s lines not_open empty)
        | inl opened ↦ elim (Bool-cases io.stat_before) [
          | inr unknown ↦ simp (opened, unknown) (refused-Atomic s lines stat_failed empty)
          | inl known ↦ elim (Bool-cases (some_there && not io.tail_read)) [
            | inl unread ↦
                simp (opened, known, unread) (refused-Atomic s lines tail_unreadable empty)
            | inr read ↦ elim (Bool-cases (some_there && not (ends_line s.active))) [
              | inl torn ↦
                  simp (opened, known, read, torn) (refused-Atomic s lines incomplete_record empty)
              | inr complete ↦
                  simp (opened, known, read, complete)
                    (encoded-Atomic (nat_eq (file_size s.active) 0) io s
                      (encode_all encode itoa table config (e ∷ es)) seen keep cut empty)
            ]
          ]
        ]
      ]
