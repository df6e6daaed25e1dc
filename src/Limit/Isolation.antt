-- ===== src/Limit/Isolation.antt =====
-- Each client and tool has a bucket of its own.
use Prim.Native.String
use text.Mathlib.TextLemmas.{append_assoc, append-eq-nil_iff}
use mcp_audit.Base.{
  ℕ, String, ◌≡◌, ◌≢◌, refl, inl, inr, Bool, true, false, List, [], ◌∷◌, Option, none, some, ◌==◌,
  eq_iff, if◌then◌else◌, insert, lookup-insert, text_cases, arith,
}
use mcp_audit.Limit.{Buckets, RateLimiter, limiter_key, bucket_of, allow}

-- One call of `Allow`.
pub record Ask : Type 0 where
  pub client_id : String
  pub tool_name : String
  pub now : ℕ

abbrev pub key_of : Ask → String
key_of a = limiter_key a.client_id a.tool_name

-- The instants of the calls with one key.
abbrev pub times : String → List Ask → List ℕ
times key [] = []
times key (a ∷ asks) = let rest = times key asks in if key_of a == key then a.now ∷ rest else rest

colon-ne_empty : (s t : String) → String.◌++◌ s (String.◌++◌ ":" t) ≢ ""
colon-ne_empty s t h =
    let (_, rest) = append-eq-nil_iff.0 h in
    let (colon, _) = append-eq-nil_iff.0 rest in cc ((eq_iff ":" "").1 colon)

module _ {B : Type 0} (buckets : Buckets B) where
  -- The answers of a limiter to the calls with one key, in a sequence of calls with any keys.
  unfoldable pub answers : String → List Ask → Option (RateLimiter B) → List Bool
  answers key [] l = []
  answers key (a ∷ asks) l =
      let (l', answer) = allow buckets l a.client_id a.tool_name a.now in
      let rest = answers key asks l' in if key_of a == key then answer ∷ rest else rest

  -- The answers of one bucket.
  unfoldable pub bucket_answers : List ℕ → B → List Bool
  bucket_answers [] b = []
  bucket_answers (now ∷ later) b =
      let (b', answer) = buckets.allow_at now b in answer ∷ bucket_answers later b'

  -- Whatever calls for other keys come between: the calls with one key are answered as by a bucket
  -- that serves that key alone, which is a new one at the first call.
  pub answers-own_bucket :
      (key : String) (asks : List Ask) (l : RateLimiter B)
      → l.enabled ≡ true
      → answers key asks (some l) ≡ bucket_answers (times key asks) (bucket_of buckets l key)
  unfolding answers bucket_answers allow
  answers-own_bucket key [] l on = refl
  answers-own_bucket key (a ∷ asks) l on =
      let (b, answer) = buckets.allow_at a.now (bucket_of buckets l (key_of a)) in
      let l' : RateLimiter B = record {
        enabled = true;
        requests_per_minute = l.requests_per_minute;
        limiters = insert (key_of a) b l.limiters;
      } in
      let later = answers-own_bucket key asks l' refl in
      let found = lookup-insert (key_of a) key b l.limiters in
      elim (text_cases (key_of a) key) [
        | inl (same, e) ↦ rw (same, on, later, found, same, e) refl
        | inr (other, n) ↦ rw (other, on, later, found, other) refl
      ]

  limiter_key-shared :
      (client_id text tool_name : String)
      → tool_name ≢ ""
      → limiter_key (String.◌++◌ client_id (String.◌++◌ ":" text)) tool_name
        ≡ limiter_key client_id (String.◌++◌ text (String.◌++◌ ":" tool_name))
  unfolding limiter_key
  limiter_key-shared client_id text tool_name shown =
      let plain : (tool_name == "") ≡ false = ground (arith, eq_iff tool_name "", shown) in
      let joined : (String.◌++◌ text (String.◌++◌ ":" tool_name) == "") ≡ false = ground (
        arith,
        eq_iff (String.◌++◌ text (String.◌++◌ ":" tool_name)) "",
        colon-ne_empty text tool_name,
      ) in
      simp (plain, joined, append_assoc)

  -- A tool name may hold the separator of the key: a client whose id ends in `:` and some text
  -- shares the bucket of the client without it that calls the tool of that text, `:` and the name.
  pub allow-shared_bucket :
      (l : Option (RateLimiter B)) (client_id text tool_name : String) (now : ℕ)
      → tool_name ≢ ""
      → allow buckets l (String.◌++◌ client_id (String.◌++◌ ":" text)) tool_name now
        ≡ allow buckets l client_id (String.◌++◌ text (String.◌++◌ ":" tool_name)) now
  unfolding allow
  allow-shared_bucket none client_id text tool_name now shown = refl
  allow-shared_bucket (some l) client_id text tool_name now shown =
      rw (limiter_key-shared client_id text tool_name shown) refl
