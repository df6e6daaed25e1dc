-- ===== src/Jsonl/Tests.antt =====
-- The JSONL store on concrete batches, whose records are their own lines.
use Prim.Native.Char.{Char}
use mcp_audit.Base.Text.{to_lower}
use mcp_audit.Base.{
  ℕ, zero, suc, ◌≤◌, String, true, false, ◌≡◌, ◌≢◌, refl, ap, List, [], ◌∷◌, Option, none, some,
  arith, length, Distinct, delete-Absent, eq_refl, eq_iff,
}
use mcp_audit.Base.Scan.{has_suffix}
use mcp_audit.Jsonl.{
  JsonlConfig, JsonlStore, Io, flush_failed, file_size, ends_line, encode_all, archive_name,
  first_free, next_archive_path, next_rotation_cutoff, rollback, rotate, rotate_if_needed, stored,
  flushed_to, encoded, append_batch,
}
use mcp_audit.Jsonl.Atomic.{Atomic, append_batch-Atomic}
use mcp_audit.Jsonl.Names.{Archives, Injective, FindsFree, next_archive_path-FindsFree}
use mcp_audit.Jsonl.Retention.{Lists, IsListing, apply_retention, apply_retention-bounded}

abbrev encode : String → Option String
encode line = some line

abbrev tally_marks : ℕ → String
tally_marks zero = ""
tally_marks (suc n) = String.◌∷◌ "1" (tally_marks n)

tally_marks-Injective : Injective tally_marks
tally_marks-Injective zero zero e = refl
tally_marks-Injective zero (suc j) e = cc e
tally_marks-Injective (suc i) zero e = cc e
tally_marks-Injective (suc i) (suc j) e =
    let rest : tally_marks i ≡ tally_marks j = cc e in ap suc (tally_marks-Injective i j rest)

abbrev same_char : Char → Char
same_char c = c

abbrev config : JsonlConfig
config = record {
  max_size_bytes = 4;
  max_files = 2;
  interval = "";
  max_age_days = 0;
  durable = true;
}

abbrev unlimited : ℕ → Archives → Archives
unlimited now files = files

abbrev io : Io
io = record {
  stat_before = true;
  tail_read = true;
  flushed = true;
  truncated = true;
  synced = true;
  rollback_synced = true;
  spilled = [];
  stat_after = true;
  closed = true;
  renamed = true;
  reopened = true;
  directory_synced = true;
  now = 7200;
  stamp = "t1";
  unstatable = λ name. false;
}

abbrev store : JsonlStore
store = record {
  active = "a\n" ∷ [];
  archives = ("t1", "z\n" ∷ []) ∷ [];
  opened = true;
  buffer = [];
  stuck = false;
  next_time_cutoff = none;
}

append_batch-Atomic_example :
    Atomic encode tally_marks same_char config unlimited store
      (encode_all encode tally_marks same_char config ("b\n" ∷ [])).0
      (append_batch encode tally_marks same_char config unlimited ("b\n" ∷ []) io store)
append_batch-Atomic_example =
    append_batch-Atomic encode tally_marks same_char config unlimited ("b\n" ∷ []) io store
      (λ name. refl) (λ now files. refl) refl refl

-- The file is moved to a name that is free, and a new one is empty.
rotated :
    (append_batch encode tally_marks same_char config unlimited ("b\n" ∷ []) io store).0.archives
    ≡ ("t1", "z\n" ∷ []) ∷ ("t1.1", "a\n" ∷ "b\n" ∷ []) ∷ []
unfolding append_batch encode_all encoded flushed_to stored rotate_if_needed rotate
    next_archive_path first_free archive_name file_size ends_line has_suffix
rotated = refl

-- Where Stat fails on the name of an archive that is there, that archive is replaced.
replaced :
    let blind = record io { unstatable = λ name. true } in
    let s =
      (append_batch encode tally_marks same_char config unlimited ("b\n" ∷ []) blind store).0 in
    s.archives ≡ ("t1", "a\n" ∷ "b\n" ∷ []) ∷ []
unfolding append_batch encode_all encoded flushed_to stored rotate_if_needed rotate
    next_archive_path first_free archive_name file_size ends_line has_suffix
replaced = refl

undone :
    append_batch encode tally_marks same_char config unlimited
      ("b\n" ∷ [])
      (record io { flushed = false })
      store
    ≡ (store, some flush_failed)
unfolding append_batch encode_all encoded flushed_to rollback file_size ends_line has_suffix
undone = refl

next_archive_path-FindsFree_example :
    FindsFree
      (λ name. false)
      (archive_name tally_marks "t1")
      store.archives
      (next_archive_path tally_marks (λ name. false) "t1" store.archives)
next_archive_path-FindsFree_example =
    next_archive_path-FindsFree tally_marks (λ name. false) "t1" store.archives
      tally_marks-Injective

abbrev names : Archives → List String
names [] = []
names ((name, f) ∷ rest) = name ∷ names rest

names-Lists :
    (files : Archives)
    → Distinct files
    → Lists names (λ s. true) (λ s. none) (λ s. true) true true config files (names files)
names-Lists [] d = tt
names-Lists ((name, f) ∷ rest) (a, d) =
    rw (eq_refl name) (f, refl, rw (delete-Absent name rest a) (names-Lists rest d))

length-names : (files : Archives) → length (names files) ≡ length files
length-names [] = refl
length-names ((name, f) ∷ rest) = ap suc (length-names rest)

listing : IsListing names (λ s. true) (λ s. none) (λ s. true) true true config
listing files d = (names-Lists files d, length-names files)

abbrev three : Archives
three = ("a", []) ∷ ("b", []) ∷ ("c", []) ∷ []

two_ne : ◌≢◌ {A = ℕ} 2 0
two_ne e = omega (arith, e)

abbrev three-Distinct : Distinct three
three-Distinct = (
  (λ e. cc ((eq_iff "b" "a").1 e), (λ e. cc ((eq_iff "c" "a").1 e), tt)),
  ((λ e. cc ((eq_iff "c" "b").1 e), tt), (tt, tt)),
)

apply_retention-bounded_example :
    length (apply_retention names (λ s. true) (λ s. none) (λ s. true) true true config 7200 three)
    ≤ 2
apply_retention-bounded_example =
    apply_retention-bounded names (λ s. true) (λ s. none) (λ s. true) true true config 7200 three
      listing (λ name. refl) refl refl two_ne three-Distinct

next_hour : next_rotation_cutoff same_char 7201 "hourly" ≡ some 10800
unfolding next_rotation_cutoff to_lower
next_hour = refl
