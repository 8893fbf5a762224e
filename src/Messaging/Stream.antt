-- ===== src/Messaging/Stream.antt =====
-- `FutureCollection` and `Future` of sawtooth_sdk/messaging/future.py, and what the methods of `Stream`
-- and the coroutines of `_SendReceiveThread` in sawtooth_sdk/messaging/stream.py do to the shared state
-- when each runs without interruption. A future is known by its correlation id, and the id that
-- `_generate_id` returns is an argument.
pub mod Responses
pub mod Threads
mod Tests
use sci_ledger_sawtooth.Prelude.{
  ℕ, Bool, true, false, not, Option, none, some, List, [], ◌∷◌, ◌++◌, if◌then◌else◌,
}
use sci_ledger_sawtooth.Text.{Text, Bytes}
use sci_ledger_sawtooth.Dict.{Dict, get, put, remove, has_key}
use sci_ledger_sawtooth.Errors.{
  Exn, ok, format, text, future_collection_key_error, validator_connection_error,
}
use sci_ledger_sawtooth.Action.{Action, pure, raise, raise_if, modify, try, ◌>>=◌, ◌>>◌}
use sci_ledger_sawtooth.Messaging.{
  ValidatorMessage, Reply, future_result, future_error, Event, reconnect_event, arrived,
}

-- `results` is the field `_result` of every future that was made; `futures` is the collection.
pub record Connection : Type 0 where
  pub ready : Bool
  pub results : Dict (Option Reply)
  pub futures : Dict Text
  pub send_queue : List ValidatorMessage
  pub recv_queue : List Event

abbrev pub no_such_id : Text → Exn
no_such_id id = future_collection_key_error (format "no such correlation id: {}" (text id))

-- `FutureCollection.put`
unfoldable pub put_future : Text → Action Connection (Unit {0})
put_future id = modify (λ c. record c { futures = put c.futures id id })

-- `FutureCollection.get`
unfoldable pub get_future : Text → Action Connection Text
get_future id c = elim (get c.futures id) [
  | none ↦ raise (no_such_id id) c
  | some future ↦ pure future c
]

-- `FutureCollection.set_result`, with `Future.set_result`
unfoldable pub set_result : Text → Reply → Action Connection (Unit {0})
set_result id reply = do
  future ← get_future id
  modify (λ c. record c { results = put c.results future (some reply) })

-- `FutureCollection.remove`
unfoldable pub remove_future : Text → Action Connection (Unit {0})
remove_future id c =
    if has_key c.futures id
    then (ok tt, record c { futures = remove c.futures id })
    else raise (no_such_id id) c

-- `put_message`
unfoldable pub put_message : ValidatorMessage → Action Connection (Unit {0})
put_message m c =
    if not c.ready then (ok tt, c) else (ok tt, record c { send_queue = c.send_queue ++ (m ∷ []) })

-- `Stream.send`
unfoldable pub send_message : Text → ℕ → Bytes → Action Connection Text
send_message id message_type content c =
    (do
      raise_if (not c.ready) validator_connection_error
      modify (λ c. record c { results = put c.results id none })
      put_future id
      put_message (record { message_type = message_type; correlation_id = id; content = content })
      pure id)
      c

-- `Stream.send_back`
unfoldable pub send_response : ℕ → Text → Bytes → Action Connection (Unit {0})
send_response message_type id content c =
    (do
      raise_if (not c.ready) validator_connection_error
      put_message (record { message_type = message_type; correlation_id = id; content = content }))
      c

-- `except FutureCollectionKeyError`
unfoldable pub queue_message : ValidatorMessage → Exn → Action Connection (Unit {0})
queue_message m (future_collection_key_error e) c =
    if not c.ready
    then (ok tt, c)
    else (ok tt, record c { recv_queue = c.recv_queue ++ (arrived m ∷ []) })
queue_message m e c = raise e c

-- `_receive_message`, once a message has come
unfoldable pub receive_message : ValidatorMessage → Action Connection (Unit {0})
receive_message m =
    try
      (do
        set_result m.correlation_id (future_result m.message_type m.content)
        remove_future m.correlation_id)
      (queue_message m)

-- `for future in self._futures.future_values()`
unfoldable pub fail_all : Dict Text → Dict (Option Reply) → Dict (Option Reply)
fail_all [] results = results
fail_all ((id, future) ∷ futures) results =
    fail_all futures (put results future (some future_error))

-- `_monitor_disconnects`: the queues are dropped
unfoldable pub disconnect : Connection → Connection
disconnect c = record c {
  ready = false;
  results = fail_all c.futures c.results;
  send_queue = [];
  recv_queue = [];
}

-- the next round of `run`
unfoldable pub reconnect : Connection → Connection
reconnect c = record c { ready = true; send_queue = []; recv_queue = reconnect_event ∷ [] }
