-- ===== src/Async/Contract.antt =====
-- internal/audit/storage/async.go, writeBatch: the contract of the wrapped store, and that each of
-- the three ways to write a batch keeps it.
use mcp_audit.Base.{
  ◌≡◌, inl, inr, refl, sym, ◌∙◌, ap, List, [], ◌∷◌, ◌++◌, Option, none, some, Bool-cases,
}
use mathlib.Core.List.{append-nil, append_assoc}
use mcp_audit.Audit.{Entry}
use mcp_audit.Audit.Logger.{StoreError}
use mcp_audit.Async.{
  BatchStore, Settings, and_then, append_all, as_error, write_durably, write_batched, write,
}

-- What a write of several entries promises: a success has added them in order, and a failure has
-- added the first of them, or none.
pub record Writes {S : Type 0} {E : Type 0} (contents : S → List Entry) (es : List Entry) (s : S)
    (r : S × Option E) : Type 0 where
  pub on_success : r.1 ≡ none → contents r.0 ≡ contents s ++ es
  pub partial : (kept rest : List Entry) × (kept ++ rest ≡ es) × (contents r.0 ≡ contents s ++ kept)

-- The contract of the wrapped store.
pub record BatchContract {S : Type 0} (b : BatchStore S) (contents : S → List Entry) : Type 0 where
  pub appends : (e : Entry) (s : S) → Writes contents (e ∷ []) s (b.append e s)
  pub appends_batch :
      (write_all : List Entry → S → S × Option StoreError)
      → b.append_batch ≡ some write_all
      → (es : List Entry) (s : S) → Writes contents es s (write_all es s)
  pub appends_durably :
      (write_all : List Entry → S → S × Option StoreError)
      → b.append_batch_durable ≡ some write_all
      → (es : List Entry) (s : S) → Writes contents es s (write_all es s)

module _ {S : Type 0} (c : Settings S) (contents : S → List Entry)
    (law : BatchContract (c.store) contents) where
  and_then-Writes :
      (e : Entry) (es : List Entry) (s : S) (r : S × Option StoreError)
      → Writes contents (e ∷ []) s r
      → ((s' : S) → Writes contents es s' (append_all (c.store) es s'))
      → Writes contents (e ∷ es) s (and_then (append_all (c.store) es) r)
  and_then-Writes e es s (s', none) w later =
      let here = w.on_success refl in
      let next = later s' in
      let (kept, rest, split, at_end) = next.partial in
      record {
        on_success = λ n.
            next.on_success n
            ∙ ap (λ (t : List Entry). t ++ es) here
            ∙ append_assoc (contents s) (e ∷ []) es;
        partial = (
          e ∷ kept,
          rest,
          ap (λ (t : List Entry). e ∷ t) split,
          at_end
              ∙ ap (λ (t : List Entry). t ++ kept) here
              ∙ append_assoc (contents s) (e ∷ []) kept,
        );
      }
  and_then-Writes e es s (s', some x) w later =
      let (kept, rest, split, at_end) = w.partial in
      record {
        on_success = λ bad. cc;
        partial = (
          kept,
          rest ++ es,
          sym (append_assoc kept rest es) ∙ ap (λ (t : List Entry). t ++ es) split,
          at_end,
        );
      }

  append_all-Writes : (es : List Entry) (s : S) → Writes contents es s (append_all (c.store) es s)
  unfolding append_all
  append_all-Writes [] s = record {
    on_success = λ n. sym (append-nil (contents s));
    partial = ([], [], refl, sym (append-nil (contents s)));
  }
  append_all-Writes (e ∷ es) s =
      and_then-Writes e es s ((c.store).append e s) (law.appends e s) (append_all-Writes es)

  as_error-Writes :
      (es : List Entry) (s : S) (r : S × Option StoreError)
      → Writes contents es s r
      → Writes contents es s (as_error r)
  as_error-Writes es s (s', none) w = record {
    on_success = λ _. w.on_success refl;
    partial = w.partial;
  }
  as_error-Writes es s (s', some x) w = record { on_success = λ bad. cc; partial = w.partial }

  write_durably-Writes :
      (o : Option (List Entry → S → S × Option StoreError)) (es : List Entry) (s : S)
      → ((w : List Entry → S → S × Option StoreError) → o ≡ some w → Writes contents es s (w es s))
      → Writes contents es s (write_durably o es s)
  write_durably-Writes none es s h = record {
    on_success = λ bad. cc;
    partial = ([], es, refl, sym (append-nil (contents s)));
  }
  write_durably-Writes (some w) es s h = as_error-Writes es s (w es s) (h w refl)

  write_batched-Writes :
      (o : Option (List Entry → S → S × Option StoreError)) (es : List Entry) (s : S)
      → ((w : List Entry → S → S × Option StoreError) → o ≡ some w → Writes contents es s (w es s))
      → Writes contents es s (write_batched o (c.store) es s)
  write_batched-Writes none es s h =
      as_error-Writes es s (append_all (c.store) es s) (append_all-Writes es s)
  write_batched-Writes (some w) es s h = as_error-Writes es s (w es s) (h w refl)

  -- Whichever way a batch is written, the contract of one write holds.
  pub write-Writes : (es : List Entry) (s : S) → Writes contents es s (write c es s)
  unfolding write
  write-Writes es s = elim (Bool-cases c.durable) [
    | inl d ↦ rw d (
        write_durably-Writes (c.store).append_batch_durable es s
          (λ w h. law.appends_durably w h es s))
    | inr d ↦
        rw d (write_batched-Writes (c.store).append_batch es s (λ w h. law.appends_batch w h es s))
  ]
