-- ===== src/Verify/Clean.antt =====
-- When an artifact is clean: which lines a verification accepts.
use mathlib.Core.List.{Memᴰ}
use mathlib.Core.Option.{some-injective}
use mcp_audit.Base.{
  inl, inr, ℕ, suc, ◌+◌, String, ◌≡◌, ◌≢◌, ◌↔◌, refl, sym, ◌∙◌, Bool, true, false, List, [], ◌∷◌,
  Option, none, some, Result, ok, err, ◌==◌, eq_iff, if◌then◌else◌, Bool-cases, arith, any,
}
use mcp_audit.Base.Text.{trim_space}
use mcp_audit.Integrity.{IntegrityError, Metadata}
use mcp_audit.Integrity.RoundTrip.{Authentic, verify_iff}
use mcp_audit.Audit.{Entry, integrity_entry_v2}
use mcp_audit.Audit.Logger.{Codec}
use mcp_audit.Verify.{
  Reader, VerifyResult, OrderedDigest, EntryVerifier, Status, verified, legacy, unsigned, invalid,
  record_status, record_entry, malformed, verify, verify_by, v2_status, matches_key,
}
use mcp_audit.Verify.Jsonl.{verify_decoded, verify_transformed, verify_line}

-- The statuses that leave a result clean.
abbrev accepted : Status → Bool
accepted verified = true
accepted legacy = true
accepted unsigned = false
accepted (invalid x) = false

any_member :
    {A : Type 0} (p : A → Bool) (xs : List A) → any p xs ≡ true → (x : A) × Memᴰ x xs × (p x ≡ true)
any_member p [] h = cc
any_member p (x ∷ xs) h = elim (Bool-cases (p x)) [
  | inl hit ↦ (x, Memᴰ.head refl, hit)
  | inr miss ↦ let (y, m, hit) = any_member p xs (rw miss at h) in (y, Memᴰ.tail m, hit)
]

member-any :
    {A : Type 0} (p : A → Bool) (xs : List A) (x : A) → Memᴰ x xs → p x ≡ true → any p xs ≡ true
member-any p [] x m h = elim m [ ]
member-any p (x ∷ xs) y (Memᴰ.head e) h = rw (← e, h) refl
member-any p (x ∷ xs) y (Memᴰ.tail m) h = ground (arith, member-any p xs y m h)

v2_status-accepted :
    (r : Result IntegrityError (Unit {0})) → accepted (v2_status r) ≡ true → r ≡ ok tt
v2_status-accepted (ok tt) h = refl
v2_status-accepted (err x) h = cc

-- The problems counted so far.
abbrev pub defects : VerifyResult → ℕ
defects r = r.unsigned + r.invalid

abbrev pub defect : Bool → ℕ
defect true = 0
defect false = 1

record_status-defects :
    (s : Status) (id : String) (r : VerifyResult)
    → defects (record_status s id (record r { total = suc r.total }))
      ≡ defect (accepted s) + defects r
unfolding record_status
record_status-defects verified id r = omega arith
record_status-defects legacy id r = omega arith
record_status-defects unsigned id r = omega arith
record_status-defects (invalid x) id r = omega arith

module _ (k : Codec) (v : EntryVerifier) where
  -- The entries that a verification accepts: those with authentic metadata and, where version 2
  -- is not required, those without metadata whose legacy signature is under one of the keys.
  pub data Accepted (e : Entry) : Type 0 where
    by_v2 :
        (m : Metadata)
        → e.integrity ≡ some m
        → Authentic k.crypto v.keys (integrity_entry_v2 k.format e) m
        → Accepted e
    by_legacy :
        e.integrity ≡ none
        → v.require_v2 ≡ false
        → e.signature ≢ ""
        → (key : String × String) → Memᴰ key v.keys
        → matches_key k e key ≡ true
        → Accepted e

  verify_by-accepted :
      (o : Option Metadata) (e : Entry)
      → e.integrity ≡ o
      → accepted (verify_by k o v e) ≡ true
      → Accepted e
  unfolding verify_by
  verify_by-accepted none e same h = elim (Bool-cases v.require_v2) [
    | inl needed ↦ cc (rw needed at h)
    | inr free ↦ elim (Bool-cases (e.signature == "")) [
      | inl blank ↦ cc (rw (free, blank) at h)
      | inr signed ↦ elim (Bool-cases (any (matches_key k e) v.keys)) [
        | inr other ↦ cc (rw (free, signed, other) at h)
        | inl found ↦
            let (key, m, hit) = any_member (matches_key k e) v.keys found in
            by_legacy same free (λ b. cc (signed, (eq_iff e.signature "").1 b)) key m hit
      ]
    ]
  ]
  verify_by-accepted (some m) e same h =
      by_v2 m same
        ((verify_iff k.crypto v.keys (integrity_entry_v2 k.format e) m).0 (v2_status-accepted _ h))

  Accepted-verify_by :
      (o : Option Metadata) (e : Entry)
      → e.integrity ≡ o
      → Accepted e
      → accepted (verify_by k o v e) ≡ true
  unfolding verify_by
  Accepted-verify_by none e same (by_v2 m shown a) = cc (same, shown)
  Accepted-verify_by none e same (by_legacy _ free signed key m hit) =
      let shown : (e.signature == "") ≡ false = ground (arith, eq_iff e.signature "", signed) in
      rw (free, shown, member-any (matches_key k e) v.keys key m hit) refl
  Accepted-verify_by (some m) e same (by_v2 m' shown a) =
      let m_m' : m' ≡ m = some-injective m' m (sym shown ∙ same) in
      let good = (verify_iff k.crypto v.keys (integrity_entry_v2 k.format e) m').1 a in
      rw (← m_m', good) refl
  Accepted-verify_by (some m) e same (by_legacy shown _ _ _ _ _) = cc (same, shown)

module _ (k : Codec) (reader : Reader) (v : EntryVerifier) where
  -- The lines that a verification accepts: blank ones, and those that are canonical JSON and
  -- decode to an accepted entry.
  pub data AcceptedLine (line : String) : Type 0 where
    blank_line : trim_space line ≡ "" → AcceptedLine line
    entry_line :
        (canonical : String) (e : Entry)
        → reader.transform (trim_space line) ≡ some canonical
        → reader.unmarshal (trim_space line) ≡ some e
        → Accepted k v e
        → AcceptedLine line

  abbrev decoded_ok : Option Entry → Bool
  decoded_ok none = false
  decoded_ok (some e) = accepted (verify k v e)

  abbrev transformed_ok : Option String → String → Bool
  transformed_ok none raw = false
  transformed_ok (some canonical) raw = decoded_ok (reader.unmarshal raw)

  abbrev pub raw_ok : String → Bool
  raw_ok raw = if raw == "" then true else transformed_ok (reader.transform raw) raw

  decoded-defects :
      (o : Option Entry) (canonical : String) (n : ℕ) (r : VerifyResult) (d : OrderedDigest)
      → defects (verify_decoded k reader v o canonical n (r, d)).0
        ≡ defect (decoded_ok o) + defects r
  unfolding record_entry malformed
  decoded-defects none canonical n r d = omega arith
  decoded-defects (some e) canonical n r d = record_status-defects (verify k v e) e.id r

  transformed-defects :
      (o : Option String) (raw : String) (n : ℕ) (r : VerifyResult) (d : OrderedDigest)
      → defects (verify_transformed k reader v o raw n (r, d)).0
        ≡ defect (transformed_ok o raw) + defects r
  unfolding malformed
  transformed-defects none raw n r d = omega arith
  transformed-defects (some canonical) raw n r d =
      decoded-defects (reader.unmarshal raw) canonical n r d

  pub line-defects :
      (raw : String) (n : ℕ) (r : VerifyResult) (d : OrderedDigest)
      → defects (verify_line k reader v raw n (r, d)).0 ≡ defect (raw_ok raw) + defects r
  unfolding verify_line
  line-defects raw n r d = elim (Bool-cases (raw == "")) [
    | inl blank ↦ rw blank (omega arith)
    | inr shown ↦ rw shown (transformed-defects (reader.transform raw) raw n r d)
  ]

  decoded_ok-Accepted :
      (o : Option Entry) → decoded_ok o ≡ true → (e : Entry) × (o ≡ some e) × Accepted k v e
  unfolding verify
  decoded_ok-Accepted none h = cc
  decoded_ok-Accepted (some e) h = (e, refl, verify_by-accepted k v e.integrity e refl h)

  raw_ok-AcceptedLine :
      (o : Option String) (line : String)
      → reader.transform (trim_space line) ≡ o
      → transformed_ok o (trim_space line) ≡ true
      → AcceptedLine line
  raw_ok-AcceptedLine none line same h = cc
  raw_ok-AcceptedLine (some canonical) line same h =
      let (e, decoded, a) = decoded_ok-Accepted (reader.unmarshal (trim_space line)) h in
      entry_line canonical e same decoded a

  AcceptedLine-raw_ok : (line : String) → AcceptedLine line → raw_ok (trim_space line) ≡ true
  unfolding verify
  AcceptedLine-raw_ok line (blank_line b) = rw ((eq_iff (trim_space line) "").1 b) refl
  AcceptedLine-raw_ok line (entry_line canonical e transformed decoded a) =
      elim (Bool-cases (trim_space line == "")) [
        | inl blank ↦ rw blank refl
        | inr shown ↦ rw (shown, transformed, decoded) (Accepted-verify_by k v e.integrity e refl a)
      ]

  -- A line adds no problem exactly when it is accepted.
  pub raw_ok_iff : (line : String) → (raw_ok (trim_space line) ≡ true) ↔ AcceptedLine line
  raw_ok_iff line = (
    λ h. elim (Bool-cases (trim_space line == "")) [
      | inl blank ↦ blank_line ((eq_iff (trim_space line) "").0 blank)
      | inr shown ↦
          raw_ok-AcceptedLine (reader.transform (trim_space line)) line refl (rw shown at h)
    ],
    AcceptedLine-raw_ok line,
  )
