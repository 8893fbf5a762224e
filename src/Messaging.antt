-- ===== src/Messaging.antt =====
-- What sawtooth_sdk/messaging/stream.py and future.py offer to their clients: the calls of `Stream`
-- and of the futures that it hands out, over a state S of the connection behind them.
pub mod Stream
use sci_ledger_sawtooth.Prelude.{ℕ, Bool, Option}
use sci_ledger_sawtooth.Text.{Text, Bytes}
use sci_ledger_sawtooth.Errors.{Result, ok, err, validator_connection_error}
use sci_ledger_sawtooth.Action.{Action}

-- A validator_pb2.Message; the types of messages are the numbers of its enumeration.
pub record ValidatorMessage : Type 0 where
  pub message_type : ℕ
  pub correlation_id : Text
  pub content : Bytes

-- What resolves a future: a FutureResult, or the FutureError of a disconnect.
pub data Reply : Type 0 where
  future_result : ℕ → Bytes → Reply
  future_error : Reply

-- The attribute `content`: reading it from a FutureError raises.
abbrev pub content_of : Reply → Result Bytes
content_of (future_result message_type content) = ok content
content_of future_error = err validator_connection_error

-- What `receive` hands out: RECONNECT_EVENT, or a message of the validator.
pub data Event : Type 0 where
  reconnect_event : Event
  arrived : ValidatorMessage → Event

-- A future of `send` is known by its correlation id, one of `receive` by its number.
pub record Link (S : Type 0) : Type 0 where
  pub send : ℕ → Bytes → Action S Text
  pub result : Text → Option ℕ → Action S Reply
  pub send_back : ℕ → Text → Bytes → Action S (Unit {0})
  pub receive : Action S ℕ
  pub received : ℕ → Option ℕ → Action S Event
  pub is_ready : Action S Bool
  pub wait_for_ready : Action S (Unit {0})
  pub close : Action S (Unit {0})
