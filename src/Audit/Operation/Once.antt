-- ===== src/Audit/Operation/Once.antt =====
-- internal/audit/operation.go, Finalize: at most one terminal record is stored for an operation,
-- however often its finalization fails and is retried.
use mcp_audit.Base.{
  ℕ, zero, suc, ℤ, ◌≡◌, inl, inr, refl, sym, ◌∙◌, true, false, List, [], ◌∷◌, ◌++◌, Option, none,
  some, Result, ok, err, Bool-cases,
}
use mathlib.Core.Path.{subst}
use mcp_audit.Integrity.{IntegrityError}
use mcp_audit.Audit.{Entry}
use mcp_audit.Audit.Outcome.{outcome_valid}
use mcp_audit.Audit.Logger.{Codec, Logger, Inputs, World, LogError, prepare, record_prepared}
use mcp_audit.Audit.Logger.Contract.{Fresh, Contract, Holds, Recorded, record_prepared-Recorded}
use mcp_audit.Audit.Logger.Prepare.{prepare-id}
use mcp_audit.Audit.Operation.{
  Operation, Completion, FinalizeError, same_completion, terminal_entry, attempts, after_round,
  rounds, freeze_and_record, finalize_open, finalize,
}

module _ {S : Type 0} (k : Codec) (l : Logger S) (contents : S → List Entry)
    (law : Contract l.backend contents) (base : List Entry) where
  -- An operation whose record `e` is frozen, over a store that held the base before.
  pub record Tried (e : Entry) (o : Operation) (s : S) : Type 0 where
    pub fresh : Fresh e.id base
    pub holds : Holds k contents base e s
    pub first : o.attempted ≡ false → contents s ≡ base
    pub done : o.finalized ≡ true → contents s ≡ base ++ e ∷ []

  -- An operation at rest. Before its record is frozen the store is as it was; afterwards the
  -- store holds at most that record more, and exactly that record more once it is finalized.
  abbrev pub AtMostOnce : Option (Entry × Completion) → Operation → S → Type 0
  AtMostOnce none o s =
      (contents s ≡ base) × (o.attempted ≡ false) × (o.finalized ≡ false) × (o.entry.id ≡ "")
  AtMostOnce (some (e, c)) o s = Tried e o s

  -- What a run of the retry loop on record `e` gives.
  record Looped (e : Entry) (o : Operation) (r : Operation × World S × Option FinalizeError)
      : Type 0 where
    tried : Tried e r.0 r.1.store
    frozen : r.0.frozen ≡ o.frozen
    success : r.2 ≡ none → r.0.finalized ≡ true

  after_round-Looped :
      (e : Entry)
      (next : Operation → World S → Option LogError → Operation × World S × Option FinalizeError)
      → ((o : Operation) (w : World S) (x : LogError)
          → o.finalized ≡ false
          → Tried e o w.store
          → Looped e o (next o w (some x)))
      → (o : Operation) (r : World S × Option LogError) → Fresh e.id base
      → o.finalized ≡ false
      → Recorded k l contents law base e r
      → Looped e o (after_round k l next o r)
  after_round-Looped e next later o (w, none) fresh open_o r = record {
    tried = record { fresh = fresh; holds = r.holds; first = λ bad. cc; done = λ _. r.at_end refl };
    frozen = refl;
    success = λ _. refl;
  }
  after_round-Looped e next later o (w, some x) fresh open_o r =
      let rest =
        later (record o { attempted = true }) w x open_o
          (record {
            fresh = fresh;
            holds = r.holds;
            first = λ bad. cc;
            done = λ closed. cc (closed, open_o);
          }) in
      record { tried = rest.tried; frozen = rest.frozen; success = rest.success }

  attempts-Looped :
      (n : ℕ) (e : Entry) (o : Operation) (w : World S) (x : LogError)
      → o.finalized ≡ false
      → Tried e o w.store
      → Looped e o (attempts k l n e o w (some x))
  unfolding attempts
  attempts-Looped zero e o w x open_o t = record { tried = t; frozen = refl; success = λ bad. cc }
  attempts-Looped (suc n) e o w x open_o t =
      after_round-Looped e (attempts k l n e) (attempts-Looped n e) o
        (record_prepared k l e o.attempted w) t.fresh open_o
        (record_prepared-Recorded k l contents law base e o.attempted w t.fresh t.holds t.first)

  -- The three rounds of `Finalize`.
  rounds-Looped :
      (e : Entry) (o : Operation) (w : World S)
      → o.finalized ≡ false
      → Tried e o w.store
      → Looped e o (attempts k l rounds e o w none)
  unfolding attempts
  rounds-Looped e o w open_o t =
      after_round-Looped e (attempts k l 2 e) (attempts-Looped 2 e) o
        (record_prepared k l e o.attempted w) t.fresh open_o
        (record_prepared-Recorded k l contents law base e o.attempted w t.fresh t.holds t.first)

  -- What `Finalize` guarantees of its result.
  pub record Finalized (r : Operation × World S × Option FinalizeError) : Type 0 where
    pub once : AtMostOnce r.0.frozen r.0 r.1.store
    pub success : r.2 ≡ none → r.0.finalized ≡ true

  Looped-Finalized :
      (e : Entry) (c : Completion) (o : Operation) (r : Operation × World S × Option FinalizeError)
      → o.frozen ≡ some (e, c)
      → Looped e o r
      → Finalized r
  Looped-Finalized e c o (o', w', x) f t = record {
    once = subst (λ x. AtMostOnce x o' w'.store) (sym (t.frozen ∙ f)) t.tried;
    success = t.success;
  }

  freeze_and_record-Finalized :
      (c : Completion) (i : Inputs) (o : Operation) (w : World S) (r : Result IntegrityError Entry)
      → Fresh i.new_id base
      → contents w.store ≡ base
      → o.attempted ≡ false
      → o.finalized ≡ false
      → o.entry.id ≡ ""
      → o.frozen ≡ none
      → ((p : Entry) → r ≡ ok p → p.id ≡ i.new_id)
      → Finalized (freeze_and_record k l c o w r)
  freeze_and_record-Finalized c i o w (err x) fresh at_base first open_o blank thawed named =
      record {
        once = subst (λ x. AtMostOnce x o w.store) (sym thawed) (at_base, first, open_o, blank);
        success = λ bad. cc;
      }
  freeze_and_record-Finalized c i o w (ok p) fresh at_base first open_o blank thawed named =
      Looped-Finalized p c (record o { frozen = some (p, c) }) _ refl
        (rounds-Looped p (record o { frozen = some (p, c) }) w open_o
          (record {
            fresh = rw (named p refl) fresh;
            holds = inl at_base;
            first = λ _. at_base;
            done = λ closed. cc (closed, open_o);
          }))

  finalize_open-Finalized :
      (f : Option (Entry × Completion)) (c : Completion) (i : Inputs) (elapsed : ℤ) (o : Operation)
      (w : World S)
      → Fresh i.new_id base
      → o.frozen ≡ f
      → o.finalized ≡ false
      → AtMostOnce f o w.store
      → Finalized (finalize_open k l f c i elapsed o w)
  finalize_open-Finalized none c i elapsed o w fresh f open_o (at_base, first, _, blank) =
      freeze_and_record-Finalized c i o w (prepare k l i (terminal_entry o c elapsed)) fresh at_base
        first open_o blank f (λ p made. prepare-id k l i (terminal_entry o c elapsed) p made blank)
  finalize_open-Finalized (some (p, c')) c i elapsed o w fresh f open_o t =
      elim (Bool-cases (same_completion c' c)) [
        | inl same ↦ rw same (Looped-Finalized p c' o _ f (rounds-Looped p o w open_o t))
        | inr changed ↦
            rw changed
              (record { once = subst (λ x. AtMostOnce x o w.store) (sym f) t; success = λ bad. cc })
      ]

  -- One call of `Finalize`, with any completion, on an operation at rest: afterwards the store holds
  -- the records that it held before and at most the operation's one record, and exactly that
  -- record if the call succeeded.
  pub finalize-AtMostOnce :
      (c : Completion) (i : Inputs) (elapsed : ℤ) (o : Operation) (w : World S)
      → Fresh i.new_id base
      → AtMostOnce o.frozen o w.store
      → Finalized (finalize k l c i elapsed o w)
  unfolding finalize
  finalize-AtMostOnce c i elapsed o w fresh once = elim (Bool-cases (outcome_valid c.outcome)) [
    | inr bad ↦ simp bad (record { once = once; success = λ no_error. cc })
    | inl good ↦ elim (Bool-cases o.finalized) [
      | inl closed ↦ simp (good, closed) (record { once = once; success = λ no_error. cc })
      | inr open_o ↦
          simp (good, open_o)
            (finalize_open-Finalized o.frozen c i elapsed o w fresh refl open_o once)
    ]
  ]
