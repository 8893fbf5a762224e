-- ===== src/Messaging/Stream/Threads.antt =====
-- The threads behind a stream of sawtooth_sdk/messaging/stream.py: the threads that call `send` and
-- `send_back`, and the thread of `_SendReceiveThread` that runs the event loop. A move is a part of the
-- code that other threads do not divide, or divide without a difference to what is kept here; any
-- thread may move next. The fields `sent`, `inbox` and `log` are
-- there to state theorems: no move reads them. An identifier of `_generate_id` is taken to be fresh.
pub mod Clients
pub mod EventLoop
pub mod Moves
pub mod Safe
pub mod Sending
pub mod Serving
pub mod Reach
pub mod Broken
pub mod Recovery
pub mod Order
pub mod Calls
pub mod Receiving
pub mod Handing
pub mod Constructor
mod Tests
use sci_ledger_sawtooth.Prelude.{
  ℕ, zero, suc, Bool, true, false, Option, none, some, List, [], ◌∷◌, if◌then◌else◌,
}
use sci_ledger_sawtooth.Text.{Text, codes}
use sci_ledger_sawtooth.Dict.{Dict}
use sci_ledger_sawtooth.Errors.{Exn, Result, ok, err, Message, format, text, future_timeout_error}
use sci_ledger_sawtooth.Messaging.{Event, ValidatorMessage, Reply}
use sci_ledger_sawtooth.Messaging.Stream.{Connection}

-- Where a call of `send` or `send_back` stands: its future is made, it is about to enter
-- `put_message`, or it has passed the test of `put_message`.
pub data Call : Type 0 where
  made : ValidatorMessage → Call
  entering : ValidatorMessage → Call
  admitted : ValidatorMessage → Call

-- Where the thread of the event loop stands. `failing` carries the futures that the iteration over
-- `future_values()` has still to pass, and the size that the collection had when it began; `broken` is
-- an event loop whose `_monitor_disconnects` has ended with an exception.
pub data Phase : Type 0 where
  connecting : Phase
  opened : Phase
  serving : Phase
  failing : Dict Text → ℕ → Phase
  broken : Phase
  ended : Phase

-- `has_queues` says that the two queues are there, `scheduled` is what `run_coroutine_threadsafe` has handed
-- to the event loop, `tasks` are the coroutines `_put_message` made of it, `errors` is the error queue
-- with `none` for _NO_ERROR. A call of `receive` has a number; `asked` are those that are handed to the
-- event loop, `getting` the coroutines `_get_message` made of them, and `got` the futures that are done,
-- with `none` for one that was cancelled. `sending` and `receiving` say that the coroutines
-- `_send_message` and `_receive_message` have not ended.
pub record Threads : Type 0 where
  pub conn : Connection
  pub phase : Phase
  pub first_time : Bool
  pub shutdown : Bool
  pub has_queues : Bool
  pub sending : Bool
  pub receiving : Bool
  pub calls : Dict Call
  pub scheduled : List ValidatorMessage
  pub tasks : List ValidatorMessage
  pub asked : List ℕ
  pub getting : List ℕ
  pub got : List (ℕ × Option Event)
  pub next_get : ℕ
  pub errors : List (Option Exn)
  pub sent : List ValidatorMessage
  pub inbox : List ValidatorMessage
  pub log : List ValidatorMessage

-- The moves of a thread that sends carry the name of the thread.
pub data Move : Type 0 where
  begins : Text → ValidatorMessage → Move
  answers : Text → ValidatorMessage → Move
  puts : Text → Move
  enters : Text → Move
  schedules : Text → Move
  shuts : Move
  opens : Move
  fails_to_open : Exn → Move
  readies : Move
  starts_task : Move
  runs_task : Move
  sends_next : Move
  receives : ValidatorMessage → Move
  disconnects : Move
  fails_next : Move
  ends : Move
  asks : Move
  starts_get : Move
  gets_next : ℕ → Move

-- `Stream.__init__` up to the start of the thread
abbrev pub init : Threads
init = record {
  conn = record { ready = true; results = []; futures = []; send_queue = []; recv_queue = [] };
  phase = connecting;
  first_time = true;
  shutdown = false;
  has_queues = false;
  sending = false;
  receiving = false;
  calls = [];
  scheduled = [];
  tasks = [];
  asked = [];
  getting = [];
  got = [];
  next_get = 0;
  errors = [];
  sent = [];
  inbox = [];
  log = [];
}

-- `err = error_queue.get()` of `Stream.__init__`: `none` while the queue is empty
unfoldable pub constructed : Threads → Option (Result (Unit {0}))
constructed s = elim (s.errors) [
  | [] ↦ none
  | e ∷ rest ↦ some (elim e [ none ↦ ok tt | some x ↦ err x ])
]

-- `Future.done`
unfoldable pub done : Option Reply → Bool
done none = false
done (some reply) = true

-- The text of the FutureTimeoutError that `Future.result` raises, of which the model keeps only the
-- class: `type_name` is the `Name` of the generated enumeration, and 0 counts as no type.
unfoldable pub timeout_message : (ℕ → Text) → Option ℕ → Message
timeout_message type_name none =
    format "Future timed out waiting for response to {}" (text (codes "None"))
timeout_message type_name (some zero) =
    format "Future timed out waiting for response to {}" (text (codes "None"))
timeout_message type_name (some (suc n)) =
    format "Future timed out waiting for response to {}" (text (type_name (suc n)))

-- `Future.result`: `none` while it waits; `timed_out` says that the time to wait is over
unfoldable pub result_of : Bool → Option Reply → Option (Result Reply)
result_of timed_out none = if timed_out then some (err future_timeout_error) else none
result_of timed_out (some reply) = some (ok reply)
