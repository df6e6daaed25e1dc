-- ===== src/Async/Handlers.antt =====
-- internal/audit/storage/async.go, writeBatch and drainAndFlush: what a handler of the worker that
-- writes does with the entries that were accepted.
use mcp_audit.Base.{
  ℕ, zero, suc, ◌≡◌, inl, inr, refl, sym, ◌∙◌, ap, List, [], ◌∷◌, ◌++◌, Option, none, some,
  Bool-cases,
}
use mathlib.Core.List.{append_assoc}
use mathlib.Core.Path.{subst}
use mcp_audit.Audit.{Entry}
use mcp_audit.Async.{
  Settings, AsyncStore, AsyncError, write, emptied, write_pending, write_batch, moved, is_full,
  on_success, drain_entry, drain_queue, drain,
}
use mcp_audit.Async.Contract.{Writes, BatchContract, write-Writes}

module _ {S : Type 0} (c : Settings S) (contents : S → List Entry)
    (law : BatchContract (c.store) contents) (total : List Entry) where
  -- All that was accepted stands in the store, in the batch or in the queue, in this order.
  abbrev pub Whole : AsyncStore S → Type 0
  Whole a = contents a.inner ++ (a.batch ++ a.queue) ≡ total

  -- The store holds a first part of what was accepted.
  abbrev pub Part : AsyncStore S → Type 0
  Part a = (rest : List Entry) × (contents a.inner ++ rest ≡ total)

  -- What a handler that writes gives, before its error is kept.
  pub record Written (a : AsyncStore S) (r : AsyncStore S × Option AsyncError) : Type 0 where
    pub whole : r.1 ≡ none → Whole r.0
    pub emptied : r.1 ≡ none → r.0.batch ≡ []
    pub part : Part r.0
    pub closed : r.0.closed ≡ a.closed
    pub done : r.0.done ≡ a.done
    pub err : r.0.err ≡ a.err

  emptied-Written :
      (a : AsyncStore S) (r : S × Option AsyncError)
      → Whole a
      → Writes contents a.batch a.inner r
      → Written a (emptied c a r)
  emptied-Written a (s, none) h w = record {
    whole = λ _.
        ap (λ (t : List Entry). t ++ a.queue) (w.on_success refl)
        ∙ append_assoc (contents a.inner) a.batch a.queue
        ∙ h;
    emptied = λ _. refl;
    part = (
      a.queue,
      ap (λ (t : List Entry). t ++ a.queue) (w.on_success refl)
          ∙ append_assoc (contents a.inner) a.batch a.queue
          ∙ h,
    );
    closed = refl;
    done = refl;
    err = refl;
  }
  emptied-Written a (s, some x) h w =
      let (kept, rest, split, at_end) = w.partial in
      record {
        whole = λ bad. cc;
        emptied = λ bad. cc;
        part = (
          rest ++ a.queue,
          ap (λ (t : List Entry). t ++ (rest ++ a.queue)) at_end
              ∙ append_assoc (contents a.inner) kept (rest ++ a.queue)
              ∙ ap (λ (t : List Entry). contents a.inner ++ t)
                  (sym (append_assoc kept rest a.queue)
                    ∙ ap (λ (t : List Entry). t ++ a.queue) split)
              ∙ h,
        );
        closed = refl;
        done = refl;
        err = refl;
      }

  pub write_batch-Written : (a : AsyncStore S) → Whole a → Written a (write_batch c a)
  unfolding write_batch
  write_batch-Written a h = go a.batch refl
    where
      go : (b : List Entry) → a.batch ≡ b → Written a (write_pending c b a)
      go [] e = record {
        whole = λ _. h;
        emptied = λ _. e;
        part = (a.batch ++ a.queue, h);
        closed = refl;
        done = refl;
        err = refl;
      }
      go (x ∷ xs) e = emptied-Written a (write c (x ∷ xs) a.inner) h (
          subst (λ b. Writes contents b a.inner (write c (x ∷ xs) a.inner)) (sym e)
            (write-Writes c contents law (x ∷ xs) a.inner))

  pub moved-Whole :
      (e : Entry) (rest : List Entry) (a : AsyncStore S)
      → a.queue ≡ e ∷ rest
      → Whole a
      → Whole (moved c e rest a)
  moved-Whole e rest a q h =
      ap (λ (t : List Entry). contents a.inner ++ t)
        (append_assoc a.batch (e ∷ []) rest ∙ ap (λ (t : List Entry). a.batch ++ t) (sym q))
      ∙ h

  -- A handler after a handler that wrote.
  on_success-Written :
      (a : AsyncStore S) (next : AsyncStore S → AsyncStore S × Option AsyncError)
      (r : AsyncStore S × Option AsyncError)
      → Written a r
      → ((b : AsyncStore S) → Whole b → Written b (next b))
      → Written a (on_success c next r)
  on_success-Written a next (b, none) w later =
      let v = later b (w.whole refl) in
      record {
        whole = v.whole;
        emptied = v.emptied;
        part = v.part;
        closed = v.closed ∙ w.closed;
        done = v.done ∙ w.done;
        err = v.err ∙ w.err;
      }
  on_success-Written a next (b, some x) w later = record {
    whole = λ bad. cc;
    emptied = λ bad. cc;
    part = w.part;
    closed = w.closed;
    done = w.done;
    err = w.err;
  }

  drain_entry-Written :
      (next : AsyncStore S → AsyncStore S × Option AsyncError) (a : AsyncStore S)
      → ((b : AsyncStore S) → Whole b → Written b (next b))
      → Whole a
      → Written a (drain_entry c next a)
  drain_entry-Written next a later h = elim (Bool-cases (is_full c a)) [
    | inl full ↦
        simp full (on_success-Written a next (write_batch c a) (write_batch-Written a h) later)
    | inr room ↦ simp room (later a h)
  ]

  -- The flags are those before an entry moved.
  pub unmoved :
      (e : Entry) (rest : List Entry) (a : AsyncStore S) (r : AsyncStore S × Option AsyncError)
      → Written (moved c e rest a) r
      → Written a r
  unmoved e rest a r w = record {
    whole = w.whole;
    emptied = w.emptied;
    part = w.part;
    closed = w.closed;
    done = w.done;
    err = w.err;
  }

  drain_queue-Written :
      (next : AsyncStore S → AsyncStore S × Option AsyncError) (q : List Entry) (a : AsyncStore S)
      → ((b : AsyncStore S) → Whole b → Written b (next b))
      → a.queue ≡ q
      → Whole a
      → Written a (drain_queue c next q a)
  drain_queue-Written next [] a later e h = write_batch-Written a h
  drain_queue-Written next (x ∷ xs) a later e h =
      unmoved x xs a _ (drain_entry-Written next (moved c x xs a) later (moved-Whole x xs a e h))

  pub drain-Written : (n : ℕ) (a : AsyncStore S) → Whole a → Written a (drain c n a)
  unfolding drain
  drain-Written zero a h = write_batch-Written a h
  drain-Written (suc n) a h = drain_queue-Written (drain c n) a.queue a (drain-Written n) refl h
