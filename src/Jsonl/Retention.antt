-- ===== src/Jsonl/Retention.antt =====
-- internal/audit/storage/jsonl.go: which archives are removed after a rotation.
--
-- `sort.Strings` on the names of the archives is the parameter `sorted`, `time.Parse` on a stamp is
-- `parse_stamp`, the pattern of an archive's suffix `is_suffix`; `removable` tells which files can be
-- removed, `read_for_age` and `read_for_number` whether the directory could be read. A failure is
-- only logged.
use mcp_audit.Base.{
  ℕ, zero, suc, ◌+◌, ◌-◌, ◌*◌, ◌≤◌, String, Bool, true, false, not, ◌≡◌, ◌≢◌, refl, ap, inl, inr,
  List, [], ◌∷◌, Option, none, some, if◌then◌else◌, ltb, leb, nat_eq, length, take, lookup, delete,
  arith, Bool-cases, text_cases, Distinct, Distinct-delete, delete-Absent,
}
use mcp_audit.Base.Scan.{cut}
use mcp_audit.Jsonl.{File, JsonlConfig}
use mcp_audit.Jsonl.Names.{Archives}

abbrev stamp_of : String → Option (String × String) → String
stamp_of suffix none = suffix
stamp_of suffix (some (stamp, number)) = stamp

-- `archiveRotationTime`, by what follows the name of the file.
unfoldable pub archive_rotation_time : (String → Bool) → (String → Option ℕ) → String → Option ℕ
archive_rotation_time is_suffix parse_stamp suffix =
    if is_suffix suffix then parse_stamp (stamp_of suffix (cut b'.' suffix)) else none

abbrev pub is_older : ℕ → Option ℕ → Bool
is_older cutoff none = false
is_older cutoff (some t) = ltb t cutoff

module _ (sorted : Archives → List String) (is_suffix : String → Bool)
    (parse_stamp : String → Option ℕ) (removable : String → Bool)
    (read_for_age read_for_number : Bool) (config : JsonlConfig) where
  unfoldable pub remove_all : List String → Archives → Archives
  remove_all [] files = files
  remove_all (name ∷ names) files =
      remove_all names (if removable name then delete name files else files)

  abbrev pub expired : ℕ → List String → List String
  expired cutoff [] = []
  expired cutoff (name ∷ names) =
      let rest = expired cutoff names in
      if is_older cutoff (archive_rotation_time is_suffix parse_stamp name)
      then name ∷ rest
      else rest

  -- The archives that are too old; whether the rest of the retention is run.
  abbrev pub by_age : ℕ → Archives → Archives × Bool
  by_age now files =
      if nat_eq config.max_age_days 0
      then (files, true)
      else if not read_for_age
      then (files, false)
      else (remove_all (expired (now - config.max_age_days * 86400) (sorted files)) files, true)

  -- All but the last `max_files` names.
  abbrev pub by_number : Archives → Archives
  by_number files =
      if nat_eq config.max_files 0
      then files
      else if not read_for_number
      then files
      else if leb (length (sorted files)) config.max_files
      then files
      else remove_all (take (length (sorted files) - config.max_files) (sorted files)) files

  -- `applyRetention`.
  unfoldable pub apply_retention : ℕ → Archives → Archives
  apply_retention now files =
      if (by_age now files).1 then by_number (by_age now files).0 else (by_age now files).0

  -- The listing of a directory: its names, each once.
  abbrev pub Lists : Archives → List String → Type 0
  Lists files [] = Unit
  Lists files (name ∷ names) =
      (f : File) × (lookup name files ≡ some f) × Lists (delete name files) names

  length-delete_one :
      (name : String) (f : File) (files : Archives)
      → Distinct files
      → lookup name files ≡ some f
      → suc (length (delete name files)) ≡ length files
  length-delete_one name f [] d h = cc h
  length-delete_one name f ((other, g) ∷ rest) (a, d) h = elim (text_cases other name) [
    | inl (shown, same) ↦ rw (shown, delete-Absent name rest (rw (← same) a)) refl
    | inr (shown, _) ↦ rw shown (ap suc (length-delete_one name f rest d (rw shown at h)))
  ]

  -- Names that are listed can all be removed, one after the other.
  remove_all-length :
      (names : List String) (files : Archives)
      → ((name : String) → removable name ≡ true)
      → Distinct files
      → Lists files names
      → length names + length (remove_all names files) ≡ length files
  unfolding remove_all
  remove_all-length [] files can d listed = omega arith
  remove_all-length (name ∷ names) files can d (f, found, listed) =
      let rest =
        remove_all-length names (delete name files) can (Distinct-delete name files d) listed in
      let one = length-delete_one name f files d found in rw (can name) (omega (arith, rest, one))

  Lists-take :
      (n : ℕ) (files : Archives) (names : List String)
      → Lists files names
      → Lists files (take n names)
  Lists-take zero files names h = tt
  Lists-take (suc n) files [] h = tt
  Lists-take (suc n) files (name ∷ names) (f, found, h) =
      (f, found, Lists-take n (delete name files) names h)

  length-take_le : (n : ℕ) (names : List String) → n ≤ length names → length (take n names) ≡ n
  length-take_le zero names h = refl
  length-take_le (suc n) [] h = absurd (omega (arith, h))
  length-take_le (suc n) (name ∷ names) h = ap suc (length-take_le n names (omega (arith, h)))

  by_number-bounded :
      (files : Archives)
      → ((name : String) → removable name ≡ true)
      → read_for_number ≡ true
      → config.max_files ≢ 0
      → Distinct files
      → Lists files (sorted files)
      → length (sorted files) ≡ length files
      → length (by_number files) ≤ config.max_files
  by_number-bounded files can read limited d listed count =
      let shown : nat_eq config.max_files 0 ≡ false = ground (arith, limited) in
      elim (Bool-cases (leb (length (sorted files)) config.max_files)) [
        | inl small ↦ rw (shown, read, small) (ground (arith, small, count))
        | inr large ↦
            let extra = length (sorted files) - config.max_files in
            let removed =
              remove_all-length (take extra (sorted files)) files can d
                (Lists-take extra files (sorted files) listed) in
            let many = length-take_le extra (sorted files) (omega arith) in
            rw (shown, read, large) (ground (arith, large, removed, many, count))
      ]

  remove_all-Distinct :
      (names : List String) (files : Archives) → Distinct files → Distinct (remove_all names files)
  unfolding remove_all
  remove_all-Distinct [] files d = d
  remove_all-Distinct (name ∷ names) files d = elim (Bool-cases (removable name)) [
    | inl can ↦
        rw can (remove_all-Distinct names (delete name files) (Distinct-delete name files d))
    | inr cannot ↦ rw cannot (remove_all-Distinct names files d)
  ]

  by_age-Distinct : (now : ℕ) (files : Archives) → Distinct files → Distinct (by_age now files).0
  unfolding remove_all
  by_age-Distinct now files d = elim (Bool-cases (nat_eq config.max_age_days 0)) [
    | inl unlimited ↦ rw unlimited d
    | inr limited ↦ elim (Bool-cases read_for_age) [
      | inr unread ↦ rw (limited, unread) d
      | inl read ↦
          rw (limited, read)
            (remove_all-Distinct (expired (now - config.max_age_days * 86400) (sorted files)) files
              d)
    ]
  ]

  -- A listing has every archive once.
  abbrev pub IsListing : Type 0
  IsListing =
      (files : Archives)
      → Distinct files
      → Lists files (sorted files) × (length (sorted files) ≡ length files)

  goes_on : (now : ℕ) (files : Archives) → read_for_age ≡ true → (by_age now files).1 ≡ true
  goes_on now files read = elim (Bool-cases (nat_eq config.max_age_days 0)) [
    | inl unlimited ↦ rw unlimited refl
    | inr limited ↦ rw (limited, read) refl
  ]

  -- With a limit on their number, at most that many archives are left after a rotation, if the
  -- directory can be read and all of them can be removed.
  pub apply_retention-bounded :
      (now : ℕ) (files : Archives)
      → IsListing
      → ((name : String) → removable name ≡ true)
      → read_for_age ≡ true
      → read_for_number ≡ true
      → config.max_files ≢ 0
      → Distinct files
      → length (apply_retention now files) ≤ config.max_files
  unfolding apply_retention
  apply_retention-bounded now files listing can read_age read limited d =
      let younger = by_age-Distinct now files d in
      let (listed, count) = listing (by_age now files).0 younger in
      rw (goes_on now files read_age)
        (by_number-bounded (by_age now files).0 can read limited younger listed count)
