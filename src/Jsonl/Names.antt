-- ===== src/Jsonl/Names.antt =====
-- internal/audit/storage/jsonl.go, nextArchivePath: the loop over the names of an archive ends.
use Prim.Native.String
use mathlib.Core.Path.{subst}
use text.Mathlib.TextLemmas.{cons-append, append-nil, append_cancel_left}
use mcp_audit.Base.{
  ℕ, zero, suc, ◌≤◌, ◌<◌, String, ◌≡◌, ◌≢◌, refl, sym, ◌∙◌, inl, inr, List, [], ◌∷◌, Option, none,
  some, Bool, true, false, Bool-cases, arith, length, lookup, delete, lookup-delete, text_cases,
}
use mcp_audit.Jsonl.{File, stat_fails, archive_name, first_free, next_archive_path}

abbrev pub Archives : Type 0
Archives = List (String × File)

-- Two numbers never give the same name.
abbrev pub Injective : (ℕ → String) → Type 0
Injective name = (i j : ℕ) → name i ≡ name j → i ≡ j

length-delete : (key : String) (files : Archives) → length (delete key files) ≤ length files
length-delete key [] = omega arith
length-delete key ((other, f) ∷ rest) = elim (text_cases other key) [
  | inl (shown, _) ↦ rw shown (omega (arith, length-delete key rest))
  | inr (shown, _) ↦ rw shown (omega (arith, length-delete key rest))
]

delete-shorter :
    (key : String) (f : File) (files : Archives)
    → lookup key files ≡ some f
    → length (delete key files) < length files
delete-shorter key f [] h = cc h
delete-shorter key f ((other, g) ∷ rest) h = elim (text_cases other key) [
  | inl (shown, _) ↦ rw shown (omega (arith, length-delete key rest))
  | inr (shown, _) ↦ rw shown (omega (arith, delete-shorter key f rest (rw shown at h)))
]

first_free-agrees :
    (fuel : ℕ) (unstatable : String → Bool) (name : ℕ → String) (a b : Archives)
    → ((i : ℕ) → lookup (name i) a ≡ lookup (name i) b)
    → first_free fuel unstatable name a ≡ first_free fuel unstatable name b
unfolding first_free
first_free-agrees zero unstatable name a b h = refl
first_free-agrees (suc fuel) unstatable name a b h =
    rw (h 0, first_free-agrees fuel unstatable (λ i. name (suc i)) a b (λ i. h (suc i))) refl

-- The name of least number on which Stat fails; no more names are tried than there are archives,
-- and one.
pub record FindsFree (unstatable : String → Bool) (name : ℕ → String) (files : Archives)
    (found : Option String) : Type 0 where
  pub number : ℕ
  pub is_name : found ≡ some (name number)
  pub fails : stat_fails (unstatable (name number)) (lookup (name number) files) ≡ true
  pub least :
      (i : ℕ) → i < number → stat_fails (unstatable (name i)) (lookup (name i) files) ≡ false
  pub few : number ≤ length files

-- Without other failures of Stat, a name that is found is the name of no archive.
first_free-free :
    (fuel : ℕ) (unstatable : String → Bool) (name : ℕ → String) (files : Archives) (o : Option File)
    → lookup (name 0) files ≡ o
    → ((n : String) → unstatable n ≡ false)
    → (n : String) → first_free fuel unstatable name files ≡ some n
    → lookup n files ≡ none
unfolding first_free
first_free-free zero unstatable name files o e seen n h = cc h
first_free-free (suc fuel) unstatable name files none e seen n h =
    let given : ◌≡◌ {A = Option String} (some (name 0)) (some n) = rw e at h in
    let same : name 0 ≡ n = cc given in rw (← same) e
first_free-free (suc fuel) unstatable name files (some f) e seen n h =
    first_free-free fuel unstatable (λ i. name (suc i)) files (lookup (name 1) files) refl seen n
      (rw (e, seen (name 0)) at h)

pub next_archive_path-free :
    (itoa : ℕ → String) (unstatable : String → Bool) (stamp : String) (files : Archives)
    → ((n : String) → unstatable n ≡ false)
    → (n : String) → next_archive_path itoa unstatable stamp files ≡ some n
    → lookup n files ≡ none
unfolding next_archive_path
next_archive_path-free itoa unstatable stamp files =
    first_free-free (suc (length files)) unstatable (archive_name itoa stamp) files
      (lookup (archive_name itoa stamp 0) files) refl

lookup-other :
    (name : ℕ → String) (files : Archives) (i : ℕ)
    → Injective name
    → lookup (name (suc i)) (delete (name 0) files) ≡ lookup (name (suc i)) files
lookup-other name files i distinct =
    lookup-delete (name 0) (name (suc i)) files ∙ (elim (text_cases (name 0) (name (suc i))) [
      | inl (_, same) ↦ let e : 0 ≡ suc i = distinct 0 (suc i) same in absurd (omega (arith, e))
      | inr (shown, _) ↦ rw shown refl
    ])

before_later :
    (unstatable : String → Bool) (name : ℕ → String) (files : Archives) (f : File) (n : ℕ)
    → Injective name
    → lookup (name 0) files ≡ some f
    → unstatable (name 0) ≡ false
    → ((i : ℕ)
        → i < n
        → stat_fails (unstatable (name (suc i))) (lookup (name (suc i)) (delete (name 0) files))
          ≡ false)
    → (i : ℕ) → i < suc n
    → stat_fails (unstatable (name i)) (lookup (name i) files) ≡ false
before_later unstatable name files f n distinct taken seen h zero below = rw (taken, seen) refl
before_later unstatable name files f n distinct taken seen h (suc i) below =
    rw (← lookup-other name files i distinct) (h i (omega (arith, below)))

-- The names behind the first, where an archive has the first and Stat does not fail on it.
later_name :
    (unstatable : String → Bool) (name : ℕ → String) (files : Archives) (f : File)
    (found : Option String)
    → Injective name
    → lookup (name 0) files ≡ some f
    → unstatable (name 0) ≡ false
    → FindsFree unstatable (λ i. name (suc i)) (delete (name 0) files) found
    → FindsFree unstatable name files found
later_name unstatable name files f found distinct taken seen h = record {
  number = suc h.number;
  is_name = h.is_name;
  fails = rw (← lookup-other name files h.number distinct) h.fails;
  least = before_later unstatable name files f h.number distinct taken seen h.least;
  few = omega (arith, h.few, delete-shorter (name 0) f files taken);
}

first_free-FindsFree :
    (fuel : ℕ) (unstatable : String → Bool) (name : ℕ → String) (files : Archives) (o : Option File)
    → Injective name
    → length files < fuel
    → lookup (name 0) files ≡ o
    → FindsFree unstatable name files (first_free fuel unstatable name files)
unfolding first_free
first_free-FindsFree zero unstatable name files o distinct enough e = absurd (omega (arith, enough))
first_free-FindsFree (suc fuel) unstatable name files none distinct enough e = record {
  number = 0;
  is_name = rw e refl;
  fails = rw e refl;
  least = λ i below. absurd (omega (arith, below));
  few = omega arith;
}
first_free-FindsFree (suc fuel) unstatable name files (some f) distinct enough e =
    let later : ℕ → String = λ i. name (suc i) in
    let fewer = delete (name 0) files in
    let shorter = delete-shorter (name 0) f files e in
    let apart : Injective later = λ i j same. omega (arith, distinct (suc i) (suc j) same) in
    let found =
      first_free-FindsFree fuel unstatable later fewer (lookup (name 1) fewer) apart
        (omega (arith, shorter, enough)) refl in
    let agree =
      first_free-agrees fuel unstatable later fewer files
        (λ i. lookup-other name files i distinct) in
    elim (Bool-cases (unstatable (name 0))) [
      | inl broken ↦ record {
        number = 0;
        is_name = rw (e, broken) refl;
        fails = rw (e, broken) refl;
        least = λ i below. absurd (omega (arith, below));
        few = omega arith;
      }
      | inr seen ↦
          rw (e, seen)
            (later_name unstatable name files f (first_free fuel unstatable later files) distinct e
              seen (subst (FindsFree unstatable later fewer) agree found))
    ]

dotted : String → String
dotted t = String.◌++◌ "." t

dotted-ne_empty : (t : String) → dotted t ≢ ""
unfolding dotted
dotted-ne_empty t e =
    let shown : String.◌∷◌ "." (String.◌++◌ "" t) ≡ "" = sym (cons-append "." "" t) ∙ e in cc shown

stamp-ne_dotted : (stamp t : String) → stamp ≢ String.◌++◌ stamp (dotted t)
stamp-ne_dotted stamp t e =
    dotted-ne_empty t (sym (append_cancel_left stamp "" (dotted t) (append-nil stamp ∙ e)))

archive_name-Injective :
    (itoa : ℕ → String) (stamp : String) → Injective itoa → Injective (archive_name itoa stamp)
unfolding archive_name dotted
archive_name-Injective itoa stamp distinct zero zero e = refl
archive_name-Injective itoa stamp distinct zero (suc j) e =
    absurd (stamp-ne_dotted stamp (itoa (suc j)) e)
archive_name-Injective itoa stamp distinct (suc i) zero e =
    absurd (stamp-ne_dotted stamp (itoa (suc i)) (sym e))
archive_name-Injective itoa stamp distinct (suc i) (suc j) e = distinct (suc i) (suc j) (
    append_cancel_left "." (itoa (suc i)) (itoa (suc j))
      (append_cancel_left stamp (dotted (itoa (suc i))) (dotted (itoa (suc j))) e))

-- The search for the name of a new archive ends: it gives the name of least number on which Stat
-- fails, because no archive has it or for another reason, and that number is at most the number of
-- archives. Different numbers must have different texts.
pub next_archive_path-FindsFree :
    (itoa : ℕ → String) (unstatable : String → Bool) (stamp : String) (files : Archives)
    → Injective itoa
    → FindsFree unstatable
        (archive_name itoa stamp)
        files
        (next_archive_path itoa unstatable stamp files)
unfolding next_archive_path
next_archive_path-FindsFree itoa unstatable stamp files distinct =
    first_free-FindsFree (suc (length files)) unstatable (archive_name itoa stamp) files
      (lookup (archive_name itoa stamp 0) files) (archive_name-Injective itoa stamp distinct)
      (omega arith) refl
