-- ===== src/Audit/Logger/Contract.antt =====
-- internal/audit/logger.go: the contract that the logger asks of a store, and what recordPrepared
-- makes of a store that keeps it.
use mcp_audit.Base.{
  String, ◌≡◌, ◌≢◌, ◌⊎◌, inl, inr, refl, sym, ◌∙◌, ap, Bool, true, false, List, [], ◌∷◌, ◌++◌,
  Option, none, some, Result, ok, err, All, arith, Bool-cases,
}
use mathlib.Core.List.{Memᴰ}
use mcp_audit.Audit.{Entry}
use mcp_audit.Audit.Logger.{
  Codec, Backend, Logger, World, LogError, StoreError, resolve, persist, record_prepared, judge,
  failure, with_failure, resolve_by, confirm_by, write_by, settle, persist_resolved,
}

-- No record has this id.
abbrev pub Fresh : String → List Entry → Type 0
Fresh id entries = All (λ e. e.id ≢ id) entries

-- What a store's append promises: a success has added the entry at the end, and a failure has added
-- it or nothing (an acknowledgement may be lost).
pub record Appends {S : Type 0} (contents : S → List Entry) (e : Entry) (s : S)
    (r : S × Option StoreError) : Type 0 where
  pub on_success : r.1 ≡ none → contents r.0 ≡ contents s ++ e ∷ []
  pub either : (contents r.0 ≡ contents s) ⊎ (contents r.0 ≡ contents s ++ e ∷ [])

-- What a lookup promises: it changes nothing, and where it answers, a record that it finds is
-- stored under the id, and no record is stored under an id that it does not find.
pub record LooksUp {S : Type 0} (contents : S → List Entry) (id : String) (s : S)
    (r : S × Result StoreError (Option Entry)) : Type 0 where
  pub unchanged : contents r.0 ≡ contents s
  pub missing : r.1 ≡ ok none → Fresh id (contents s)
  pub found : (e : Entry) → r.1 ≡ ok (some e) → (e.id ≡ id) × Memᴰ e (contents s)

-- The contract of a store, over its visible contents.
pub record Contract {S : Type 0} (b : Backend S) (contents : S → List Entry) : Type 0 where
  pub appends : (e : Entry) (s : S) → Appends contents e s (b.append e s)
  pub appends_durably :
      (write : Entry → S → S × Option StoreError)
      → b.append_durable ≡ some write
      → (e : Entry) (s : S) → Appends contents e s (write e s)
  pub looks_up :
      (find : String → S → S × Result StoreError (Option Entry))
      → b.lookup_entry ≡ some find
      → (id : String) (s : S) → LooksUp contents id s (find id s)
  pub syncs :
      (confirm : S → S × Option StoreError)
      → b.sync ≡ some confirm
      → (s : S) → contents (confirm s).0 ≡ contents s

not-Fresh_mem :
    (e : Entry) (id : String) (entries : List Entry)
    → e.id ≡ id
    → Memᴰ e entries
    → ¬ Fresh id entries
not-Fresh_mem e id [] same m f = elim m [ ]
not-Fresh_mem e id (x ∷ entries) same (Memᴰ.head h) (n, f) =
    n (ap (λ (y : Entry). y.id) (sym h) ∙ same)
not-Fresh_mem e id (x ∷ entries) same (Memᴰ.tail m) (n, f) = not-Fresh_mem e id entries same m f

not-Fresh_append : (e : Entry) (base : List Entry) → ¬ Fresh e.id (base ++ e ∷ [])
not-Fresh_append e [] (n, f) = n refl
not-Fresh_append e (x ∷ base) (n, f) = not-Fresh_append e base f

module _ {S : Type 0} (k : Codec) (contents : S → List Entry) (base : List Entry) (e : Entry) where
  -- The store holds the base, with or without the one record of the operation.
  abbrev pub Holds : S → Type 0
  Holds s = (contents s ≡ base) ⊎ (contents s ≡ base ++ e ∷ [])

  -- What is known when it has been resolved whether the record is stored.
  record Resolved (r : S × Result LogError Bool) : Type 0 where
    holds : Holds r.0
    at_base : r.1 ≡ ok false → contents r.0 ≡ base
    at_end : r.1 ≡ ok true → contents r.0 ≡ base ++ e ∷ []

  -- What is known when the record has been made permanent, or this has failed.
  record Persisted (r : S × Option LogError) : Type 0 where
    holds : Holds r.0
    at_end : r.1 ≡ none → contents r.0 ≡ base ++ e ∷ []

  judge-false : (a : Result StoreError (Option Entry)) → judge k e a ≡ ok false → a ≡ ok none
  unfolding judge
  judge-false (err x) h = cc
  judge-false (ok none) h = refl
  judge-false (ok (some x)) h = ground (arith, h)

  judge-true :
      (a : Result StoreError (Option Entry))
      → judge k e a ≡ ok true
      → (x : Entry) × (a ≡ ok (some x))
  unfolding judge
  judge-true (err x) h = cc
  judge-true (ok none) h = cc
  judge-true (ok (some x)) h = (x, refl)

  resolve_by-Resolved :
      (o : Option (String → S → S × Result StoreError (Option Entry))) (s : S)
      → ((find : String → S → S × Result StoreError (Option Entry))
          → o ≡ some find
          → LooksUp contents e.id s (find e.id s))
      → Fresh e.id base
      → Holds s
      → Resolved (resolve_by k o e s)
  unfolding resolve_by
  resolve_by-Resolved none s law fresh h = record {
    holds = h;
    at_base = λ bad. cc;
    at_end = λ bad. cc;
  }
  resolve_by-Resolved (some find) s law fresh h =
      let tells = law find refl in
      record {
        holds = rw (tells.unchanged) h;
        at_base = λ r. tells.unchanged ∙ absent (tells.missing (judge-false _ r)) h;
        at_end = λ r. tells.unchanged ∙ present (judge-true _ r) tells h;
      }
    where
      absent : Fresh e.id (contents s) → Holds s → contents s ≡ base
      absent f (inl q) = q
      absent f (inr q) = absurd (not-Fresh_append e base (rw q at f))

      present :
          (x : Entry) × ((find e.id s).1 ≡ ok (some x))
          → LooksUp contents e.id s (find e.id s)
          → Holds s
          → contents s ≡ base ++ e ∷ []
      present (x, a) tells (inr q) = q
      present (x, a) tells (inl q) =
          let (same, m) = tells.found x a in
          absurd (not-Fresh_mem x e.id base same (rw q at m) fresh)

  failure-none : (r : Option StoreError) → failure r ≡ none → r ≡ none
  failure-none none h = refl
  failure-none (some x) h = cc

  with_failure-Persisted :
      (s : S) (r : S × Option StoreError)
      → Appends contents e s r
      → contents s ≡ base
      → Persisted (with_failure r)
  with_failure-Persisted s r a q = record {
    holds = rw q at (a.either);
    at_end = λ n. a.on_success (failure-none _ n) ∙ ap (λ (t : List Entry). t ++ e ∷ []) q;
  }

  write_by-Persisted :
      (o : Option (Entry → S → S × Option StoreError)) (s : S)
      → ((write : Entry → S → S × Option StoreError)
          → o ≡ some write
          → Appends contents e s (write e s))
      → contents s ≡ base
      → Persisted (write_by o e s)
  unfolding write_by
  write_by-Persisted none s law q = record { holds = inl q; at_end = λ bad. cc }
  write_by-Persisted (some write) s law q = with_failure-Persisted s (write e s) (law write refl) q

  confirm_by-Persisted :
      (o : Option (S → S × Option StoreError)) (s : S)
      → ((confirm : S → S × Option StoreError)
          → o ≡ some confirm
          → contents (confirm s).0 ≡ contents s)
      → contents s ≡ base ++ e ∷ []
      → Persisted (confirm_by o s)
  unfolding confirm_by
  confirm_by-Persisted none s law q = record { holds = inr q; at_end = λ bad. cc }
  confirm_by-Persisted (some confirm) s law q = record {
    holds = inr (law confirm refl ∙ q);
    at_end = λ _. law confirm refl ∙ q;
  }

module _ {S : Type 0} (k : Codec) (l : Logger S) (contents : S → List Entry)
    (law : Contract l.backend contents) where
  resolve-Resolved :
      (base : List Entry) (e : Entry) (retry : Bool) (s : S)
      → Fresh e.id base
      → Holds k contents base e s
      → (retry ≡ false → contents s ≡ base)
      → Resolved k contents base e (resolve k l e retry s)
  unfolding resolve
  resolve-Resolved base e false s fresh h first = record {
    holds = h;
    at_base = λ _. first refl;
    at_end = λ bad. cc;
  }
  resolve-Resolved base e true s fresh h first =
      resolve_by-Resolved k contents base e l.backend.lookup_entry s
        (λ find p. law.looks_up find p e.id s) fresh h

  persist-Persisted :
      (base : List Entry) (e : Entry) (found : Bool) (s : S)
      → (found ≡ false → contents s ≡ base)
      → (found ≡ true → contents s ≡ base ++ e ∷ [])
      → Persisted k contents base e (persist k l e found s)
  unfolding persist
  persist-Persisted base e true s at_base at_end = elim (Bool-cases l.durable) [
    | inl d ↦ rw d (
        confirm_by-Persisted k contents base e l.backend.sync s (λ c p. law.syncs c p s)
          (at_end refl))
    | inr d ↦ rw d (record { holds = inr (at_end refl); at_end = λ _. at_end refl })
  ]
  persist-Persisted base e false s at_base at_end = elim (Bool-cases l.durable) [
    | inl d ↦ rw d (
        write_by-Persisted k contents base e l.backend.append_durable s
          (λ w p. law.appends_durably w p e s) (at_base refl))
    | inr d ↦ rw d (
        with_failure-Persisted k contents base e s (l.backend.append e s) (law.appends e s)
          (at_base refl))
  ]

module _ {S : Type 0} (k : Codec) (l : Logger S) (contents : S → List Entry)
    (law : Contract l.backend contents) (base : List Entry) (e : Entry) where
  -- What is known after `recordPrepared`.
  pub record Recorded (r : World S × Option LogError) : Type 0 where
    pub holds : Holds k contents base e r.0.store
    pub at_end : r.1 ≡ none → contents r.0.store ≡ base ++ e ∷ []

  settle-Recorded :
      (w : World S) (r : S × Option LogError)
      → Persisted k contents base e r
      → Recorded (settle k l e w r)
  settle-Recorded w (s, none) p = record { holds = p.holds; at_end = λ _. p.at_end refl }
  settle-Recorded w (s, some x) p = record { holds = p.holds; at_end = λ bad. cc }

  persist_resolved-Recorded :
      (w : World S) (r : S × Result LogError Bool)
      → Resolved k contents base e r
      → Recorded (persist_resolved k l e w r)
  persist_resolved-Recorded w (s, err x) p = record { holds = p.holds; at_end = λ bad. cc }
  persist_resolved-Recorded w (s, ok found) p = settle-Recorded w (persist k l e found s) (
      persist-Persisted k l contents law base e found s (λ f. p.at_base (ap (λ (b : Bool). ok b) f))
        (λ t. p.at_end (ap (λ (b : Bool). ok b) t)))

  -- Over a store that holds the base and at most the record, a first or a retried call leaves it
  -- so, and a success leaves the record stored exactly once.
  pub record_prepared-Recorded :
      (retry : Bool) (w : World S)
      → Fresh e.id base
      → Holds k contents base e w.store
      → (retry ≡ false → contents w.store ≡ base)
      → Recorded (record_prepared k l e retry w)
  unfolding record_prepared
  record_prepared-Recorded retry w fresh h first =
      persist_resolved-Recorded w (resolve k l e retry w.store)
        (resolve-Resolved k l contents law base e retry w.store fresh h first)
