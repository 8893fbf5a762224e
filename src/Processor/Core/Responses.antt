-- ===== src/Processor/Core/Responses.antt =====
-- How `_process` answers the validator.
use sci_ledger_sawtooth.Prelude.{◌≡◌, refl, ◌∙◌, ◌⊎◌, true, Option, none, some, arith}
use sci_ledger_sawtooth.Text.{Text}
use sci_ledger_sawtooth.Errors.{
  Result, ok, err, invalid_transaction, internal_error, validator_connection_error,
  authorization_exception,
}
use sci_ledger_sawtooth.Action.{Action, raise, try}
use sci_ledger_sawtooth.Messaging.{Link, ValidatorMessage}
use sci_ledger_sawtooth.Processor.Access.{Access}
use sci_ledger_sawtooth.Processor.Core.{
  Header, ProcessRequest, ProcessResponse, Codec, Handler, Processor, tp_process_request,
  tp_process_response, find_handler, answer_exception, apply_handler, header_of, process,
}

-- The response that the end of a handler calls for: OK, INVALID_TRANSACTION for a transaction that is
-- refused or not authorized, INTERNAL_ERROR, or none.
abbrev pub verdict : Result (Unit {0}) → Option ProcessResponse
verdict (ok tt) = some (record { status = 1; message = none; extended_data = none })
verdict (err (invalid_transaction m x)) =
    some (record { status = 2; message = some m; extended_data = x })
verdict (err (internal_error m x)) =
    some (record { status = 3; message = some m; extended_data = x })
verdict (err (authorization_exception m)) =
    some (record { status = 2; message = some m; extended_data = none })
verdict (err _) = none

-- What becomes of an exception that is not answered.
abbrev pub unanswered : Result (Unit {0}) → Result (Unit {0})
unanswered (err validator_connection_error) = ok tt
unanswered r = r

module _ {S : Type 0} (link : Link S) (codec : Codec) (context : Text → Access S) where
  -- The transaction that a message asks for has come to its handler, on a link that is ready.
  pub record Reaches (p : Processor S) (msg : ValidatorMessage) (s : S) (h : Handler S)
      (request : ProcessRequest) (s1 : S) : Type 1 where
    pub asks : msg.message_type ≡ tp_process_request
    pub parsed : codec.process_request msg.content ≡ ok request
    pub header : Header
    pub has_header : header_of link codec context p request ≡ ok header
    pub ready : link.is_ready s ≡ (ok true, s1)
    pub routed : find_handler p.handlers header ≡ some h

  -- The body of the `try`, once the handler has ended.
  abbrev after_handler : Text → Result (Unit {0}) → Action S (Unit {0})
  after_handler id (ok tt) =
      link.send_back tp_process_response id
        (codec.process_response (record { status = 1; message = none; extended_data = none }))
  after_handler id (err e) = raise e

  to_handler :
      (p : Processor S) (msg : ValidatorMessage) (s s1 s2 : S) (h : Handler S)
      (request : ProcessRequest) (r : Result (Unit {0})) (at : Reaches p msg s h request s1)
      → h.apply request (context request.context_id) s1 ≡ (r, s2)
      → apply_handler link codec context p msg.correlation_id request at.header s
        ≡ after_handler msg.correlation_id r s2
  unfolding apply_handler
  to_handler p msg s s1 s2 h request (ok tt) at applied =
      ground (arith, at.ready, at.routed, applied)
  to_handler p msg s s1 s2 h request (err e) at applied =
      ground (arith, at.ready, at.routed, applied)

  to_try :
      (p : Processor S) (msg : ValidatorMessage) (s s1 : S) (h : Handler S)
      (request : ProcessRequest) (at : Reaches p msg s h request s1)
      → process link codec context p msg s
        ≡ try
            (apply_handler link codec context p msg.correlation_id request at.header)
            (answer_exception link codec context msg.correlation_id)
            s
  unfolding process
  to_try p msg s s1 h request at = ground (arith, at.asks, at.parsed, at.has_header)

  answered :
      (id : Text) (r : Result (Unit {0})) (response : ProcessResponse) (x : Result (Unit {0}))
      (s2 s3 : S)
      → verdict r ≡ some response
      → (x ≡ ok tt) ⊎ (x ≡ err validator_connection_error)
      → link.send_back tp_process_response id (codec.process_response response) s2 ≡ (x, s3)
      → try (after_handler id r) (answer_exception link codec context id) s2 ≡ (ok tt, s3)
  unfolding answer_exception
  answered id (ok tt) response x s2 s3 v c sent = ground arith
  answered id (err (invalid_transaction m y)) response x s2 s3 v c sent = ground arith
  answered id (err (internal_error m y)) response x s2 s3 v c sent = ground arith
  answered id (err (authorization_exception m)) response x s2 s3 v c sent = ground arith
  answered id (err e) response x s2 s3 v c sent = cc

  raised :
      (id : Text) (r : Result (Unit {0})) (s2 : S)
      → verdict r ≡ none
      → try (after_handler id r) (answer_exception link codec context id) s2 ≡ (unanswered r, s2)
  unfolding answer_exception
  raised id (ok tt) s2 v = cc
  raised id (err (invalid_transaction m y)) s2 v = cc
  raised id (err (internal_error m y)) s2 v = cc
  raised id (err (authorization_exception m)) s2 v = cc
  raised id (err e) s2 v = refl

  module _ (p : Processor S) (msg : ValidatorMessage) (s s1 s2 : S) (h : Handler S)
      (request : ProcessRequest) (r : Result (Unit {0})) (at : Reaches p msg s h request s1)
      (applied : h.apply request (context request.context_id) s1 ≡ (r, s2)) where
    -- A transaction that has come to its handler, where the handler's end calls for a response, is
    -- answered by that response alone, under the correlation id of the message; if the connection is
    -- lost meanwhile, that is not raised.
    pub process_answers :
        (response : ProcessResponse) (x : Result (Unit {0})) (s3 : S)
        → verdict r ≡ some response
        → (x ≡ ok tt) ⊎ (x ≡ err validator_connection_error)
        → link.send_back tp_process_response msg.correlation_id (codec.process_response response) s2
          ≡ (x, s3)
        → process link codec context p msg s ≡ (ok tt, s3)
    process_answers response x s3 v c sent =
        to_try p msg s s1 h request at
        ∙ rw (to_handler p msg s s1 s2 h request r at applied)
            (answered msg.correlation_id r response x s2 s3 v c sent)

    -- Where the handler's end calls for no response, nothing is sent, and the exception is raised on,
    -- but for a lost connection.
    pub process_raises : verdict r ≡ none → process link codec context p msg s ≡ (unanswered r, s2)
    process_raises v =
        to_try p msg s s1 h request at
        ∙ rw (to_handler p msg s s1 s2 h request r at applied) (raised msg.correlation_id r s2 v)
