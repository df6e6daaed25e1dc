-- ===== src/Audit/Operation/Runs.antt =====
-- internal/audit/operation.go: an operation over any sequence of finalization calls.
use mcp_audit.Base.{
  ℕ, zero, suc, ℤ, String, ◌≡◌, ◌⊎◌, inl, inr, refl, sym, ◌∙◌, true, false, List, [], ◌∷◌, ◌++◌,
  Option, none, some, All, Bool-cases,
}
use mathlib.Core.Path.{subst}
use mcp_audit.Audit.{Entry, Time}
use mcp_audit.Audit.Outcome.{outcome_valid}
use mcp_audit.Audit.Logger.{Codec, Logger, Inputs, World, LogError, record_prepared}
use mcp_audit.Audit.Logger.Contract.{Fresh, Contract}
use mcp_audit.Audit.Operation.{
  Operation, Completion, FinalizeError, operation_finalized, completion_changed, same_completion,
  attempts, after_round, rounds, finalize_open, finalize, new_operation,
}
use mcp_audit.Audit.Operation.Once.{AtMostOnce, finalize-AtMostOnce}

-- One call of `Finalize`, with what it is given and what the clock and the id source return.
pub record Call : Type 0 where
  pub completion : Completion
  pub inputs : Inputs
  pub elapsed : ℤ

module _ {S : Type 0} (k : Codec) (l : Logger S) where
  -- Calls one after the other; their results are seen by the callers only.
  unfoldable pub finalize_all : List Call → Operation → World S → Operation × World S
  finalize_all [] o w = (o, w)
  finalize_all (c ∷ calls) o w =
      let (o', w', r) = finalize k l c.completion c.inputs c.elapsed o w in finalize_all calls o' w'

  -- A finalized operation refuses every further completion, and nothing changes.
  pub finalize-closed :
      (c : Completion) (i : Inputs) (elapsed : ℤ) (o : Operation) (w : World S)
      → outcome_valid c.outcome ≡ true
      → o.finalized ≡ true
      → finalize k l c i elapsed o w ≡ (o, w, some operation_finalized)
  unfolding finalize
  finalize-closed c i elapsed o w valid closed = simp (valid, closed)

  after_round-frozen :
      (next : Operation → World S → Option LogError → Operation × World S × Option FinalizeError)
      → ((o : Operation) (w : World S) (x : Option LogError) → (next o w x).0.frozen ≡ o.frozen)
      → (o : Operation) (r : World S × Option LogError)
      → (after_round k l next o r).0.frozen ≡ o.frozen
  after_round-frozen next later o (w, none) = refl
  after_round-frozen next later o (w, some x) = later (record o { attempted = true }) w (some x)

  attempts-frozen :
      (n : ℕ) (p : Entry) (o : Operation) (w : World S) (x : Option LogError)
      → (attempts k l n p o w x).0.frozen ≡ o.frozen
  unfolding attempts
  attempts-frozen zero p o w x = refl
  attempts-frozen (suc n) p o w x =
      after_round-frozen (attempts k l n p) (attempts-frozen n p) o
        (record_prepared k l p o.attempted w)

  finalize_open-frozen :
      (p : Entry) (d c : Completion) (i : Inputs) (elapsed : ℤ) (o : Operation) (w : World S)
      → o.frozen ≡ some (p, d)
      → (finalize_open k l (some (p, d)) c i elapsed o w).0.frozen ≡ some (p, d)
  finalize_open-frozen p d c i elapsed o w f = elim (Bool-cases (same_completion d c)) [
    | inl same ↦ rw same (attempts-frozen rounds p o w none ∙ f)
    | inr changed ↦ rw changed f
  ]

  -- Once a call has frozen the record of an operation, no later call changes it: not its id, its
  -- time, its signatures or the completion that it was made from. A call with another completion
  -- on an open operation is refused, and nothing changes.
  pub finalize-frozen :
      (p : Entry) (d c : Completion) (i : Inputs) (elapsed : ℤ) (o : Operation) (w : World S)
      → o.frozen ≡ some (p, d)
      → ((finalize k l c i elapsed o w).0.frozen ≡ some (p, d))
        × (outcome_valid c.outcome ≡ true
            → o.finalized ≡ false
            → same_completion d c ≡ false
            → finalize k l c i elapsed o w ≡ (o, w, some completion_changed))
  unfolding finalize
  finalize-frozen p d c i elapsed o w f = (kept, refused)
    where
      kept : (finalize k l c i elapsed o w).0.frozen ≡ some (p, d)
      kept = elim (Bool-cases (outcome_valid c.outcome)) [
        | inr bad ↦ simp bad f
        | inl good ↦ elim (Bool-cases o.finalized) [
          | inl closed ↦ simp (good, closed) f
          | inr open_o ↦
              simp (good, open_o)
                (subst (λ x. (finalize_open k l x c i elapsed o w).0.frozen ≡ some (p, d)) (sym f)
                  (finalize_open-frozen p d c i elapsed o w f))
        ]
      ]

      refused :
          outcome_valid c.outcome ≡ true
          → o.finalized ≡ false
          → same_completion d c ≡ false
          → finalize k l c i elapsed o w ≡ (o, w, some completion_changed)
      refused valid open_o changed =
          simp (valid, open_o)
            (subst (λ x. finalize_open k l x c i elapsed o w ≡ (o, w, some completion_changed))
              (sym f) (rw changed))

module _ {S : Type 0} (k : Codec) (l : Logger S) (contents : S → List Entry)
    (law : Contract l.backend contents) (base : List Entry) where
  finalize_all-AtMostOnce :
      (calls : List Call) (o : Operation) (w : World S)
      → All (λ c. Fresh c.inputs.new_id base) calls
      → AtMostOnce k l contents law base o.frozen o w.store
      → AtMostOnce k l contents law base
          (finalize_all k l calls o w).0.frozen
          (finalize_all k l calls o w).0
          (finalize_all k l calls o w).1.store
  unfolding finalize_all
  finalize_all-AtMostOnce [] o w fresh once = once
  finalize_all-AtMostOnce (c ∷ calls) o w (f, fresh) once =
      let (o', w', r) = finalize k l c.completion c.inputs c.elapsed o w in
      finalize_all-AtMostOnce calls o' w' fresh (
        (finalize-AtMostOnce k l contents law base c.completion c.inputs c.elapsed o w f once).once)

  -- The at most one record that an operation at rest has stored.
  stored_once :
      (f : Option (Entry × Completion)) (o : Operation) (s : S)
      → AtMostOnce k l contents law base f o s
      → ((contents s ≡ base) ⊎ ((p : Entry) × (contents s ≡ base ++ p ∷ [])))
        × (o.finalized ≡ true → (p : Entry) × (contents s ≡ base ++ p ∷ []))
  stored_once none o s (at_base, _, open_o, _) = (inl at_base, λ closed. cc (closed, open_o))
  stored_once (some (p, c)) o s t = (either t.holds, λ closed. (p, t.done closed))
    where
      either :
          (contents s ≡ base) ⊎ (contents s ≡ base ++ p ∷ [])
          → (contents s ≡ base) ⊎ ((p : Entry) × (contents s ≡ base ++ p ∷ []))
      either (inl q) = inl q
      either (inr q) = inr (p, q)

  -- Whatever completions a new operation is finalized with, and whichever appends fail, lose their
  -- acknowledgement or are retried: the store ends with the records that it held before, and at
  -- most one more. It holds exactly one more if the operation ends finalized.
  pub finalize_all-once :
      (calls : List Call) (entry : Entry) (started now : Time) (id : String) (w : World S)
      → All (λ c. Fresh c.inputs.new_id base) calls
      → entry.id ≡ ""
      → contents w.store ≡ base
      → let o = new_operation entry started id now in
        let (o', w') = finalize_all k l calls o w in
        ((contents w'.store ≡ base) ⊎ ((p : Entry) × (contents w'.store ≡ base ++ p ∷ [])))
        × (o'.finalized ≡ true → (p : Entry) × (contents w'.store ≡ base ++ p ∷ []))
  unfolding new_operation
  finalize_all-once calls entry started now id w fresh blank at_base =
      let o = new_operation entry started id now in
      let (o', w') = finalize_all k l calls o w in
      stored_once o'.frozen o' w'.store
        (finalize_all-AtMostOnce calls o w fresh (at_base, refl, refl, blank))
