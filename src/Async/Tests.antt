-- ===== src/Async/Tests.antt =====
-- The asynchronous store over a store that takes one entry at a time, and its theorems over it.
use mcp_audit.Base.{
  ◌≢◌, ◌≤◌, pos, ◌≡◌, refl, false, List, [], ◌∷◌, ◌++◌, none, arith, length, String,
}
use mcp_audit.Audit.{Entry}
use mcp_audit.Async.{
  append, accepted, BatchStore, Settings, AsyncStore, settings_of, new_async_store, append_all,
  write, write_batch, drain, drain_and_flush, receive_flush, receive_closed, sent, close_queue, Run,
  start, send, work, close, finish, flush,
}
use mcp_audit.Async.Contract.{BatchContract}
use mcp_audit.Async.Order.{Ordered, Run-Ordered}
use mcp_audit.Async.Bounds.{append-Run, flush_persists}

abbrev plain : BatchStore (List Entry)
plain = record {
  append = λ e s. (s ++ e ∷ [], none);
  append_batch = none;
  append_batch_durable = none;
}

abbrev stored : List Entry → List Entry
stored s = s

abbrev settings : Settings (List Entry)
settings = record { store = plain; capacity = 2; batch_size = 2; durable = false }

defaults :
    (settings_of plain
      (record { queue_size = pos 0; batch_size = pos 7; durable = false })).capacity
    ≡ 4096
unfolding settings_of
defaults = refl

plain-BatchContract : BatchContract plain stored
plain-BatchContract = record {
  appends = λ e s. record { on_success = λ _. refl; partial = (e ∷ [], [], refl, refl) };
  appends_batch = λ w h es s. cc h;
  appends_durably = λ w h es s. cc h;
}

abbrev entry : String → Entry
entry id = record {
  id = id;
  timestamp = 0;
  audit_operation_id = "";
  outcome = "";
  direction = "";
  transport = "";
  method = "tools/call";
  request_id = "1";
  mcp_name = "ls";
  tool_name = "ls";
  params = "";
  result = "";
  error = none;
  duration_ms = pos 0;
  client_id = "";
  server_id = "";
  principal = none;
  policy = none;
  signature = "";
  integrity = none;
}

abbrev one_sent : AsyncStore (List Entry)
one_sent = sent settings (entry "a") (new_async_store [])

abbrev two_sent : AsyncStore (List Entry)
two_sent = sent settings (entry "b") one_sent

two-Run : Run settings (new_async_store []) (entry "a" ∷ entry "b" ∷ []) two_sent
unfolding new_async_store
two-Run = send (send start (entry "a") refl (omega arith) refl) (entry "b") refl (omega arith) refl

Run-Ordered_example :
    Ordered settings stored plain-BatchContract (entry "a" ∷ entry "b" ∷ []) two_sent
Run-Ordered_example =
    Run-Ordered settings stored plain-BatchContract [] (entry "a" ∷ entry "b" ∷ []) two_sent two-Run

append-Run_example :
    let (a, r) = append settings (entry "c") two_sent in
    (length a.queue ≤ 2)
    × (r ≡ accepted → Run settings (new_async_store []) (entry "a" ∷ entry "b" ∷ entry "c" ∷ []) a)
    × (r ≢ accepted → a ≡ two_sent)
append-Run_example =
    append-Run settings [] (entry "a" ∷ entry "b" ∷ []) two_sent (entry "c") two-Run

flush_persists_example : (receive_flush settings two_sent).0.inner ≡ entry "a" ∷ entry "b" ∷ []
unfolding new_async_store receive_flush drain_and_flush drain write_batch write append_all
flush_persists_example =
    flush_persists settings stored plain-BatchContract [] (entry "a" ∷ entry "b" ∷ []) two_sent
      two-Run refl refl

abbrev flushed : AsyncStore (List Entry)
flushed = (receive_flush settings two_sent).0

abbrev finished : AsyncStore (List Entry)
finished = receive_closed settings (close_queue settings flushed)

finished-Run : Run settings (new_async_store []) (entry "a" ∷ entry "b" ∷ []) finished
unfolding new_async_store receive_flush drain_and_flush drain write_batch write append_all
finished-Run =
    work (work (work two-Run (flush two_sent refl)) (close flushed))
      (finish (close_queue settings flushed) refl refl refl)
