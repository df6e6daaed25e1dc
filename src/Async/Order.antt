-- ===== src/Async/Order.antt =====
-- internal/audit/storage/async.go: nothing that the queue accepted is lost, doubled or reordered as
-- long as no write fails, and a failure leaves a first part of it in the store.
use mcp_audit.Base.{
  ◌≡◌, inl, inr, refl, sym, ◌∙◌, ap, true, false, List, [], ◌∷◌, ◌++◌, Option, none, some, length,
  Bool-cases,
}
use mathlib.Core.List.{append_assoc}
use mathlib.Core.Path.{subst}
use mcp_audit.Audit.{Entry}
use mcp_audit.Async.{
  Settings, AsyncStore, AsyncError, write, emptied, write_pending, write_batch, moved, is_full,
  drain, drain_and_flush, stop_on_error, returned, replied, receive, receive_closed, receive_flush,
  receive_tick, sent, Work, Run, start, send, work, close, take, finish, flush, tick,
  new_async_store, keep_first,
}
use mcp_audit.Async.Contract.{BatchContract}
use mcp_audit.Async.Handlers.{
  Whole, Part, Written, write_batch-Written, drain-Written, unmoved, moved-Whole,
}

module _ {S : Type 0} (c : Settings S) where
  pub replied-stop : (r : AsyncStore S × Option AsyncError) → (replied c r).0 ≡ stop_on_error c r
  replied-stop (b, x) = refl

  emptied-queue : (a : AsyncStore S) (r : S × Option AsyncError) → (emptied c a r).0.queue ≡ a.queue
  emptied-queue a (s, none) = refl
  emptied-queue a (s, some x) = refl

  write_pending-queue :
      (b : List Entry) (a : AsyncStore S) → (write_pending c b a).0.queue ≡ a.queue
  write_pending-queue [] a = refl
  write_pending-queue (e ∷ es) a = emptied-queue a (write c (e ∷ es) a.inner)

  pub write_batch-queue : (a : AsyncStore S) → (write_batch c a).0.queue ≡ a.queue
  unfolding write_batch
  write_batch-queue a = write_pending-queue a.batch a

module _ {S : Type 0} (c : Settings S) (contents : S → List Entry)
    (law : BatchContract (c.store) contents) (total : List Entry) where
  -- The store at rest: what was accepted is whole until a write fails, and then the store holds a
  -- first part of it; a worker that runs has met no error, and one that has returned without an
  -- error has written everything.
  pub record Ordered (a : AsyncStore S) : Type 0 where
    pub live : a.err ≡ none → Whole c contents law total a
    pub part : Part c contents law total a
    pub running : a.done ≡ false → a.err ≡ none
    pub settled : a.done ≡ true → a.err ≡ none → (a.closed ≡ true) × (a.batch ≡ []) × (a.queue ≡ [])

  keep_first-some : (o : Option AsyncError) (x : AsyncError) → keep_first o (some x) ≡ none → ⊥
  keep_first-some none x h = cc
  keep_first-some (some y) x h = cc

  stop_on_error-Ordered :
      (a : AsyncStore S) (r : AsyncStore S × Option AsyncError)
      → a.done ≡ false
      → a.err ≡ none
      → Written c contents law total a r
      → Ordered (stop_on_error c r)
  stop_on_error-Ordered a (b, none) runs fine w = record {
    live = λ _. w.whole refl;
    part = w.part;
    running = λ _. w.err ∙ fine;
    settled = λ stopped. cc (stopped, w.done, runs);
  }
  stop_on_error-Ordered a (b, some x) runs fine w = record {
    live = λ h. absurd (keep_first-some b.err x h);
    part = w.part;
    running = λ bad. cc;
    settled = λ _ h. absurd (keep_first-some b.err x h);
  }

  returned-Ordered :
      (a : AsyncStore S) (r : AsyncStore S × Option AsyncError)
      → a.closed ≡ true
      → a.queue ≡ []
      → r.0.queue ≡ a.queue
      → Written c contents law total a r
      → Ordered (returned c r)
  returned-Ordered a (b, none) shut empty same w = record {
    live = λ _. w.whole refl;
    part = w.part;
    running = λ bad. cc;
    settled = λ _ _. (w.closed ∙ shut, w.emptied refl, same ∙ empty);
  }
  returned-Ordered a (b, some x) shut empty same w = record {
    live = λ h. absurd (keep_first-some b.err x h);
    part = w.part;
    running = λ bad. cc;
    settled = λ _ h. absurd (keep_first-some b.err x h);
  }

  receive-Ordered :
      (e : Entry) (rest : List Entry) (a : AsyncStore S)
      → a.done ≡ false
      → a.queue ≡ e ∷ rest
      → Ordered a
      → Ordered (receive c e rest a)
  unfolding receive
  receive-Ordered e rest a runs q o =
      let fine = o.running runs in
      let h = moved-Whole c contents law total e rest a q (o.live fine) in
      elim (Bool-cases (is_full c (moved c e rest a))) [
        | inl full ↦ simp full (
            stop_on_error-Ordered a _ runs fine (
              unmoved c contents law total e rest a _
                (write_batch-Written c contents law total (moved c e rest a) h)))
        | inr room ↦ simp room (record {
          live = λ _. h;
          part = (_, h);
          running = λ _. fine;
          settled = λ stopped. cc (stopped, runs);
        })
      ]

  work-Ordered : {a b : AsyncStore S} → Work c a b → Ordered a → Ordered b
  unfolding receive_tick receive_flush receive_closed drain_and_flush
  work-Ordered (close a) o = record {
    live = o.live;
    part = o.part;
    running = o.running;
    settled = λ stopped fine. (refl, (o.settled stopped fine).1, (o.settled stopped fine).2);
  }
  work-Ordered (take e rest a runs q) o = receive-Ordered e rest a runs q o
  work-Ordered (finish a runs shut empty) o =
      returned-Ordered a (write_batch c a) shut empty (write_batch-queue c a)
        (write_batch-Written c contents law total a (o.live (o.running runs)))
  work-Ordered (flush a runs) o = rw (replied-stop c (drain c (length a.queue) a)) (
      stop_on_error-Ordered a (drain c (length a.queue) a) runs (o.running runs)
        (drain-Written c contents law total (length a.queue) a (o.live (o.running runs))))
  work-Ordered (tick a runs) o =
      stop_on_error-Ordered a (write_batch c a) runs (o.running runs)
        (write_batch-Written c contents law total a (o.live (o.running runs)))

module _ {S : Type 0} (c : Settings S) (contents : S → List Entry)
    (law : BatchContract (c.store) contents) where
  append_entry :
      (x y z : List Entry) (e : Entry) → x ++ (y ++ (z ++ e ∷ [])) ≡ (x ++ (y ++ z)) ++ e ∷ []
  append_entry x y z e = simp append_assoc

  sent-Ordered :
      (total : List Entry) (e : Entry) (a : AsyncStore S)
      → a.closed ≡ false
      → Ordered c contents law total a
      → Ordered c contents law (total ++ e ∷ []) (sent c e a)
  sent-Ordered total e a open_a o =
      let (rest, p) = o.part in
      record {
        live = λ fine.
            append_entry (contents a.inner) a.batch a.queue e
            ∙ ap (λ (t : List Entry). t ++ e ∷ []) (o.live fine);
        part = (
          rest ++ e ∷ [],
          sym (append_assoc (contents a.inner) rest (e ∷ []))
              ∙ ap (λ (t : List Entry). t ++ e ∷ []) p,
        );
        running = o.running;
        settled = λ stopped fine. cc ((o.settled stopped fine).0, open_a);
      }

  -- In every run of clients and worker from a new store: as long as no write has failed, what the
  -- queue accepted stands, once and in the order of acceptance, in the store, the batch and the queue,
  -- behind what the store held. After a failure the store holds a first part of that. A worker
  -- that returned without an error has written all of it.
  pub Run-Ordered :
      (s : S) (es : List Entry) (a : AsyncStore S)
      → Run c (new_async_store s) es a
      → Ordered c contents law (contents s ++ es) a
  unfolding new_async_store
  Run-Ordered s es a start = record {
    live = λ _. refl;
    part = ([], refl);
    running = λ _. refl;
    settled = λ bad. cc;
  }
  Run-Ordered s es _ (send {es = fs} {a} r e open_a room same) =
      subst (λ t. Ordered c contents law t (sent c e a))
        (append_assoc (contents s) fs (e ∷ [])
          ∙ ap (λ (t : List Entry). contents s ++ t) (sym same))
        (sent-Ordered (contents s ++ fs) e a open_a (Run-Ordered s fs a r))
  Run-Ordered s es _ (work {a} r w) =
      work-Ordered c contents law (contents s ++ es) w (Run-Ordered s es a r)
