-- ===== src/Processor/Context.antt =====
-- `Context` of sawtooth_sdk/processor/context.py: how a transaction handler reads and writes the
-- validator's state. The encoding is the generated state_context_pb2, a parameter.
pub mod Serving
use sci_ledger_sawtooth.Prelude.{
  ℕ, Bool, Option, none, some, List, [], ◌∷◌, map, ◌==◌, if◌then◌else◌,
}
use sci_ledger_sawtooth.Text.{Text, Bytes, truthy}
use sci_ledger_sawtooth.Errors.{
  Result, Arg, texts, text, pairs, optional, Message, format, authorization_exception, internal,
}
use sci_ledger_sawtooth.Action.{Action, lift, pure, raise_if, ◌>>=◌, ◌>>◌}
use sci_ledger_sawtooth.Messaging.{Link, content_of}
use sci_ledger_sawtooth.Processor.Access.{Entry, Access}

-- The requests of state_context_pb2, each with the id of the transaction's context.
pub data Request : Type 0 where
  get_request : Text → List Text → Request
  set_request : Text → List (Text × Bytes) → Request
  delete_request : Text → List Text → Request
  receipt_request : Text → Bytes → Request
  event_request : Text → Text → List (Text × Text) → Option Bytes → Request

pub record Response (A : Type 0) : Type 0 where
  pub status : ℕ
  pub body : A

pub record Codec : Type 0 where
  pub serialize : Request → Bytes
  pub get_response : Bytes → Result (Response (List Entry))
  pub set_response : Bytes → Result (Response (List Text))
  pub delete_response : Bytes → Result (Response (List Text))
  pub receipt_response : Bytes → Result (Response (Unit {0}))
  pub event_response : Bytes → Result (Response (Unit {0}))

abbrev pub authorization_error : ℕ
authorization_error = 2

abbrev pub error_status : ℕ
error_status = 2

-- `[e for e in entries if len(e.data) != 0]`
unfoldable pub with_data : List Entry → List Entry
with_data [] = []
with_data (e ∷ es) = let rest = with_data es in if truthy e.content then e ∷ rest else rest

-- `attributes=None` stands for no attributes
abbrev pub attributes_of : Option (List (Text × Text)) → List (Text × Text)
attributes_of none = []
attributes_of (some attributes) = attributes

abbrev pub address_of : Text × Bytes → Text
address_of e = e.0

module _ {S : Type 0} (link : Link S) (codec : Codec) (context_id : Text) where
  -- `self._stream.send(...).result(timeout).content`
  unfoldable pub ask : ℕ → Request → Option ℕ → Action S Bytes
  ask message_type request timeout = do
    future ← link.send message_type (codec.serialize request)
    reply ← link.result future timeout
    lift (content_of reply)

  unfoldable pub get_state : List Text → Option ℕ → Action S (List Entry)
  get_state addresses timeout = do
    content ← ask 7 (get_request context_id addresses) timeout
    response ← lift (codec.get_response content)
    raise_if (response.status == authorization_error)
        (authorization_exception (format "Tried to get unauthorized address: {}" (texts addresses)))
    pure (with_data response.body)

  unfoldable pub set_state : List (Text × Bytes) → Option ℕ → Action S (List Text)
  set_state entries timeout = do
    content ← ask 9 (set_request context_id entries) timeout
    response ← lift (codec.set_response content)
    raise_if (response.status == authorization_error) (
        authorization_exception
          (format "Tried to set unauthorized address: {}" (texts (map address_of entries))))
    pure response.body

  unfoldable pub delete_state : List Text → Option ℕ → Action S (List Text)
  delete_state addresses timeout = do
    content ← ask 11 (delete_request context_id addresses) timeout
    response ← lift (codec.delete_response content)
    raise_if (response.status == authorization_error) (
        authorization_exception
          (format "Tried to delete unauthorized address: {}" (texts addresses)))
    pure response.body

  unfoldable pub add_receipt_data : Bytes → Option ℕ → Action S (Unit {0})
  add_receipt_data receipt timeout = do
    content ← ask 13 (receipt_request context_id receipt) timeout
    response ← lift (codec.receipt_response content)
    raise_if (response.status == error_status)
        (internal (format "Failed to add receipt data: {}" (text receipt)))

  unfoldable pub add_event :
      Text → Option (List (Text × Text)) → Option Bytes → Option ℕ → Action S (Unit {0})
  add_event event_type attributes event_data timeout = do
    content ←
        ask 15 (event_request context_id event_type (attributes_of attributes) event_data) timeout
    response ← lift (codec.event_response content)
    raise_if (response.status == error_status) (
        internal (record {
          template = "Failed to add event: ({}, {}, {})";
          args = text event_type ∷ pairs (attributes_of attributes) ∷ optional event_data ∷ [];
        }))

  -- The calls of a context that a handler uses.
  abbrev pub context_access : Access S
  context_access = record {
    get_state = get_state;
    set_state = set_state;
    delete_state = delete_state;
  }
