-- ===== src/Processor/Core.antt =====
-- `TransactionProcessor` of sawtooth_sdk/processor/core.py: the handlers, the requests to register
-- them, and `_process`, which routes a transaction to its handler and answers the validator. The
-- encoding is the generated processor_pb2, a parameter.
pub mod Routing
pub mod Responses
use sci_ledger_sawtooth.Prelude.{
  ℕ, Bool, true, false, not, ◌&&◌, ◌||◌, Option, none, some, List, [], ◌∷◌, ◌++◌, ltb, ◌==◌,
  if◌then◌else◌,
}
use sci_ledger_sawtooth.Text.{Text, Bytes, text_eq}
use sci_ledger_sawtooth.Errors.{
  Exn, Result, ok, Message, invalid_transaction, internal_error, validator_connection_error,
  authorization_exception,
}
use sci_ledger_sawtooth.Action.{Action, pure, raise, lift, raise_if, try, ◌>>=◌, ◌>>◌}
use sci_ledger_sawtooth.Messaging.{Link, ValidatorMessage}
use sci_ledger_sawtooth.Processor.Access.{Access}

-- The fields of a TransactionHeader that routing and the handlers read.
pub record Header : Type 0 where
  pub signer_public_key : Text
  pub family_name : Text
  pub family_version : Text

pub record ProcessRequest : Type 0 where
  pub header : Header
  pub header_bytes : Bytes
  pub payload : Bytes
  pub signature : Text
  pub context_id : Text

pub record ProcessResponse : Type 0 where
  pub status : ℕ
  pub message : Option Message
  pub extended_data : Option Bytes

pub record RegisterRequest : Type 0 where
  pub family : Text
  pub version : Text
  pub namespaces : List Text
  pub protocol_version : ℕ
  pub request_header_style : ℕ

pub record RegisterResponse : Type 0 where
  pub status : ℕ
  pub protocol_version : ℕ

pub record Codec : Type 0 where
  pub process_request : Bytes → Result ProcessRequest
  pub transaction_header : Bytes → Result Header
  pub process_response : ProcessResponse → Bytes
  pub register_request : RegisterRequest → Bytes
  pub register_response : Bytes → Result RegisterResponse
  pub unregister_request : Bytes
  pub unregister_response : Bytes → Result ℕ
  pub ping_response : Bytes

-- A TransactionHandler: what it handles, and its `apply` on a request and a context.
pub record Handler (S : Type 0) : Type 0 where
  pub family_name : Text
  pub family_versions : List Text
  pub namespaces : List Text
  pub apply : ProcessRequest → Access S → Action S (Unit {0})

pub record Processor (S : Type 0) : Type 0 where
  pub handlers : List (Handler S)
  pub highest_sdk_feature_requested : ℕ
  pub header_style : ℕ

abbrev pub feature_custom_header_style : ℕ
feature_custom_header_style = 1

abbrev pub header_style_raw : ℕ
header_style_raw = 2

abbrev pub tp_process_request : ℕ
tp_process_request = 5

abbrev pub tp_process_response : ℕ
tp_process_response = 6

-- `x in xs`
unfoldable pub is_in : Text → List Text → Bool
is_in x [] = false
is_in x (y ∷ ys) = text_eq x y || is_in x ys

module _ {S : Type 0} where
  -- `__init__`
  abbrev pub new_processor : Processor S
  new_processor = record { handlers = []; highest_sdk_feature_requested = 0; header_style = 0 }

  unfoldable pub add_handler : Processor S → Handler S → Processor S
  add_handler p h = record p { handlers = p.handlers ++ (h ∷ []) }

  unfoldable pub set_header_style : Processor S → ℕ → Processor S
  set_header_style p style =
      let asked : Processor S =
        if ltb p.highest_sdk_feature_requested feature_custom_header_style
        then record p { highest_sdk_feature_requested = feature_custom_header_style }
        else p in
      record asked { header_style = style }

  unfoldable pub matches : Handler S → Header → Bool
  matches handler header =
      text_eq header.family_name handler.family_name
      && is_in header.family_version handler.family_versions

  -- `_find_handler`: the first that matches
  unfoldable pub find_handler : List (Handler S) → Header → Option (Handler S)
  find_handler [] header = none
  find_handler (h ∷ hs) header =
      let rest = find_handler hs header in if matches h header then some h else rest

  abbrev pub request_of : Processor S → Handler S → Text → RegisterRequest
  request_of p h v = record {
    family = h.family_name;
    version = v;
    namespaces = h.namespaces;
    protocol_version = p.highest_sdk_feature_requested;
    request_header_style = p.header_style;
  }

  -- the inner list, and `itertools.chain.from_iterable` of them
  unfoldable pub handler_requests : Processor S → Handler S → List Text → List RegisterRequest
  handler_requests p h [] = []
  handler_requests p h (v ∷ vs) = request_of p h v ∷ handler_requests p h vs

  unfoldable pub requests_of : Processor S → List (Handler S) → List RegisterRequest
  requests_of p [] = []
  requests_of p (h ∷ hs) = handler_requests p h h.family_versions ++ requests_of p hs

  -- `_register_requests`
  abbrev pub register_requests : Processor S → List RegisterRequest
  register_requests p = requests_of p p.handlers

  -- `except ValidatorConnectionError`, where the answer no longer matters
  abbrev pub disconnected : Exn → Action S (Unit {0})
  disconnected validator_connection_error = pure tt
  disconnected e = raise e

module _ {S : Type 0} (link : Link S) (codec : Codec) (context : Text → Access S) where
  abbrev pub respond : Text → ProcessResponse → Action S (Unit {0})
  respond correlation_id response =
      link.send_back tp_process_response correlation_id (codec.process_response response)

  -- the `except` clauses of `_process`
  unfoldable pub answer_exception : Text → Exn → Action S (Unit {0})
  answer_exception id (invalid_transaction m extended) =
      try (respond id (record { status = 2; message = some m; extended_data = extended }))
        disconnected
  answer_exception id (internal_error m extended) =
      try (respond id (record { status = 3; message = some m; extended_data = extended }))
        disconnected
  answer_exception id validator_connection_error = pure tt
  answer_exception id (authorization_exception m) =
      try (respond id (record { status = 2; message = some m; extended_data = none })) disconnected
  answer_exception id e = raise e

  -- the body of the `try` of `_process`
  unfoldable pub apply_handler : Processor S → Text → ProcessRequest → Header → Action S (Unit {0})
  apply_handler p id request header = do
    ready ← link.is_ready
    raise_if (not ready) validator_connection_error
    elim (find_handler p.handlers header) [
      | none ↦ pure tt
      | some handler ↦ do
        handler.apply request (context request.context_id)
        respond id (record { status = 1; message = none; extended_data = none })
    ]

  abbrev pub header_of : Processor S → ProcessRequest → Result Header
  header_of p request =
      if p.header_style == header_style_raw
      then codec.transaction_header request.header_bytes
      else ok request.header

  -- `_process`
  unfoldable pub process : Processor S → ValidatorMessage → Action S (Unit {0})
  process p msg = if not (msg.message_type == tp_process_request) then pure tt else (do
    request ← lift (codec.process_request msg.content)
    header ← lift (header_of p request)
    try (apply_handler p msg.correlation_id request header) (answer_exception msg.correlation_id))
