-- ===== src/Async/Bounds.antt =====
-- internal/audit/storage/async.go: what a flush and a close have written, and how long the queue
-- gets.
use mcp_audit.Base.{
  ℕ, zero, suc, ◌<◌, ◌≤◌, ◌≡◌, ◌≢◌, inl, inr, refl, sym, ◌∙◌, ap, false, List, [], ◌∷◌, ◌++◌,
  Option, none, some, length, length-append, arith, Bool-cases,
}
use mathlib.Core.List.{append-nil}
use mathlib.Core.Path.{subst}
use mcp_audit.Audit.{Entry}
use mcp_audit.Async.{
  Settings, AsyncStore, AsyncError, accepted, write_batch, moved, is_full, on_success, drain_entry,
  drain_queue, drain, drain_and_flush, stop_on_error, receive, receive_closed, receive_flush,
  receive_tick, sent, append, append_by, Work, Run, start, send, work, close, take, finish, flush,
  tick, new_async_store,
}
use mcp_audit.Async.Contract.{BatchContract}
use mcp_audit.Async.Handlers.{drain-Written}
use mcp_audit.Async.Order.{Run-Ordered, write_batch-queue, replied-stop}

written_all :
    (stored batch queue : List Entry) {total : List Entry}
    → batch ≡ []
    → queue ≡ []
    → stored ++ (batch ++ queue) ≡ total
    → stored ≡ total
written_all stored batch queue no_batch no_queue h =
    sym (append-nil stored)
    ∙ ap (λ (t : List Entry). stored ++ t) (sym (cc (no_batch, no_queue)))
    ∙ h

module _ {S : Type 0} (c : Settings S) where
  on_success-empty :
      (next : AsyncStore S → AsyncStore S × Option AsyncError)
      (r : AsyncStore S × Option AsyncError)
      → ((next r.0).1 ≡ none → (next r.0).0.queue ≡ [])
      → (on_success c next r).1 ≡ none
      → (on_success c next r).0.queue ≡ []
  on_success-empty next (a, none) h n = h n
  on_success-empty next (a, some x) h n = cc

  drain_entry-empty :
      (n : ℕ) (a : AsyncStore S)
      → ((b : AsyncStore S)
          → length b.queue ≤ n
          → (drain c n b).1 ≡ none
          → (drain c n b).0.queue ≡ [])
      → length a.queue ≤ n
      → (drain_entry c (drain c n) a).1 ≡ none
      → (drain_entry c (drain c n) a).0.queue ≡ []
  drain_entry-empty n a later short = elim (Bool-cases (is_full c a)) [
    | inl full ↦ simp full (
        on_success-empty (drain c n) (write_batch c a)
          (later (write_batch c a).0 (rw (write_batch-queue c a) short)))
    | inr room ↦ simp room (later a short)
  ]

  drain_queue-empty :
      (n : ℕ) (a : AsyncStore S) (q : List Entry)
      → a.queue ≡ q
      → ((b : AsyncStore S)
          → length b.queue ≤ n
          → (drain c n b).1 ≡ none
          → (drain c n b).0.queue ≡ [])
      → length q ≤ suc n
      → (drain_queue c (drain c n) q a).1 ≡ none
      → (drain_queue c (drain c n) q a).0.queue ≡ []
  drain_queue-empty n a [] e later short h = write_batch-queue c a ∙ e
  drain_queue-empty n a (x ∷ xs) e later short h =
      drain_entry-empty n (moved c x xs a) later (omega arith) h

  -- A drain that is given as many rounds as there are entries and that succeeds leaves none.
  drain-empty :
      (n : ℕ) (a : AsyncStore S)
      → length a.queue ≤ n
      → (drain c n a).1 ≡ none
      → (drain c n a).0.queue ≡ []
  unfolding drain
  drain-empty zero a short h = write_batch-queue c a ∙ no_entry a.queue short
    where
      no_entry : (q : List Entry) → length q ≤ 0 → q ≡ []
      no_entry [] _ = refl
      no_entry (e ∷ es) le = absurd (omega arith)
  drain-empty (suc n) a short h = drain_queue-empty n a a.queue refl (drain-empty n) short h

  -- No handler makes the queue longer.
  on_success-short :
      (next : AsyncStore S → AsyncStore S × Option AsyncError)
      (r : AsyncStore S × Option AsyncError) (m : ℕ)
      → ((b : AsyncStore S) → length b.queue ≤ m → length (next b).0.queue ≤ m)
      → length r.0.queue ≤ m
      → length (on_success c next r).0.queue ≤ m
  on_success-short next (a, none) m h le = h a le
  on_success-short next (a, some x) m h le = le

  drain_queue-short :
      (n : ℕ) (a : AsyncStore S) (q : List Entry) (m : ℕ)
      → a.queue ≡ q
      → ((b : AsyncStore S) → length b.queue ≤ m → length (drain c n b).0.queue ≤ m)
      → length q ≤ m
      → length (drain_queue c (drain c n) q a).0.queue ≤ m
  drain_queue-short n a [] m e later short = rw (write_batch-queue c a, e) (omega arith)
  drain_queue-short n a (x ∷ xs) m e later short = elim (Bool-cases (is_full c (moved c x xs a))) [
    | inl full ↦ simp full (
        on_success-short (drain c n) (write_batch c (moved c x xs a)) m later
          (rw (write_batch-queue c (moved c x xs a)) (omega arith)))
    | inr room ↦ simp room (later (moved c x xs a) (omega arith))
  ]

  drain-short :
      (n : ℕ) (a : AsyncStore S) (m : ℕ) → length a.queue ≤ m → length (drain c n a).0.queue ≤ m
  unfolding drain
  drain-short zero a m le = rw (write_batch-queue c a) le
  drain-short (suc n) a m le = drain_queue-short n a a.queue m refl (λ b. drain-short n b m) le

  stop_on_error-queue :
      (r : AsyncStore S × Option AsyncError) → (stop_on_error c r).queue ≡ r.0.queue
  stop_on_error-queue (a, none) = refl
  stop_on_error-queue (a, some x) = refl

  stop_on_error-inner :
      (r : AsyncStore S × Option AsyncError) → (stop_on_error c r).inner ≡ r.0.inner
  stop_on_error-inner (a, none) = refl
  stop_on_error-inner (a, some x) = refl

  work-short : {a b : AsyncStore S} → Work c a b → length b.queue ≤ length a.queue
  unfolding receive receive_tick receive_flush receive_closed drain_and_flush
  work-short (close a) = omega arith
  work-short (take e rest a runs q) =
      let shorter : length rest ≤ length a.queue = rw q (omega arith) in
      elim (Bool-cases (is_full c (moved c e rest a))) [
        | inl full ↦ simp full (
            rw
              (
                stop_on_error-queue (write_batch c (moved c e rest a)),
                write_batch-queue c (moved c e rest a),
              )
              shorter)
        | inr room ↦ simp room shorter
      ]
  work-short (finish a runs shut empty) = rw (write_batch-queue c a) (omega arith)
  work-short (flush a runs) =
      rw
        (
          replied-stop c (drain c (length a.queue) a),
          stop_on_error-queue (drain c (length a.queue) a),
        )
        (drain-short (length a.queue) a (length a.queue) (omega arith))
  work-short (tick a runs) =
      rw (stop_on_error-queue (write_batch c a), write_batch-queue c a) (omega arith)

  Run-bounded :
      (s : S) (es : List Entry) (a : AsyncStore S)
      → Run c (new_async_store s) es a
      → length a.queue ≤ c.capacity
  unfolding new_async_store
  Run-bounded s es a start = omega arith
  Run-bounded s es _ (send {es = fs} {a} r e open_a room same) =
      rw (length-append a.queue (e ∷ [])) (omega arith)
  Run-bounded s es _ (work {a} r w) = omega (arith, work-short w, Run-bounded s es a r)

  append_by-sent :
      (a : AsyncStore S) (e : Entry) (x : Option AsyncError)
      → (append_by c x e a).1 ≡ accepted
      → ((append_by c x e a).0 ≡ sent c e a) × (a.closed ≡ false) × (length a.queue < c.capacity)
  append_by-sent a e (some x) h = cc
  append_by-sent a e none h = ground arith

  append_by-unchanged :
      (a : AsyncStore S) (e : Entry) (x : Option AsyncError)
      → (append_by c x e a).1 ≢ accepted
      → (append_by c x e a).0 ≡ a
  append_by-unchanged a e (some x) h = refl
  append_by-unchanged a e none h = ground arith

  append_by-bounded :
      (a : AsyncStore S) (e : Entry) (x : Option AsyncError)
      → length a.queue ≤ c.capacity
      → length (append_by c x e a).0.queue ≤ c.capacity
  append_by-bounded a e (some x) h = h
  append_by-bounded a e none h = ground (arith, h, length-append a.queue (e ∷ []))

  -- After any run of clients and worker, an `Append` leaves at most as many entries in the queue as
  -- its capacity; where it reports success it has put its entry at the end of the run, and where it
  -- fails or blocks it has changed nothing.
  pub append-Run :
      (s : S) (es : List Entry) (a : AsyncStore S) (e : Entry)
      → Run c (new_async_store s) es a
      → (length (append c e a).0.queue ≤ c.capacity)
        × ((append c e a).1 ≡ accepted → Run c (new_async_store s) (es ++ e ∷ []) (append c e a).0)
        × ((append c e a).1 ≢ accepted → (append c e a).0 ≡ a)
  unfolding append
  append-Run s es a e r =
      (append_by-bounded a e a.err (Run-bounded s es a r), extended, append_by-unchanged a e a.err)
    where
      extended :
          (append c e a).1 ≡ accepted → Run c (new_async_store s) (es ++ e ∷ []) (append c e a).0
      extended h =
          let (after, open_a, room) = append_by-sent a e a.err h in
          subst (Run c (new_async_store s) (es ++ e ∷ [])) (sym after) (send r e open_a room refl)

module _ {S : Type 0} (c : Settings S) (contents : S → List Entry)
    (law : BatchContract (c.store) contents) where
  -- A flush that reports success has written all that the queue accepted before it, in order.
  pub flush_persists :
      (s : S) (es : List Entry) (a : AsyncStore S)
      → Run c (new_async_store s) es a
      → a.done ≡ false
      → (receive_flush c a).1 ≡ none
      → contents (receive_flush c a).0.inner ≡ contents s ++ es
  unfolding receive_flush drain_and_flush
  flush_persists s es a r runs ok_flush =
      let o = Run-Ordered c contents law s es a r in
      let d = drain c (length a.queue) a in
      let w =
        drain-Written c contents law (contents s ++ es) (length a.queue) a
          (o.live (o.running runs)) in
      ap contents (stop_on_error-inner c d)
      ∙ written_all (contents d.0.inner) d.0.batch d.0.queue (w.emptied ok_flush)
          (drain-empty c (length a.queue) a (omega arith) ok_flush) (w.whole ok_flush)
